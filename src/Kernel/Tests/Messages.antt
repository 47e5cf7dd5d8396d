-- ===== src/Kernel/Tests/Messages.antt =====
-- Message queues.
use frosk_current.Prelude.{
  ℕ, ◌≡◌, false, some, none, List, [], ◌∷◌, arith, refl, if◌then◌else◌, ◌==◌,
}
use frosk_current.Kernel.Mqueue.{init_mqueue, Queue, consume_msg}
use frosk_current.Kernel.Mqueue.Linked.{IsQueue}
use frosk_current.Kernel.Mqueue.Delivery.{send_all, receive_all-send_all}
use frosk_current.Kernel.Mqueue.Fifo.{receive_all, consume_msg-oldest}

-- two messages, the older at 16
abbrev queue : Queue
queue = record {
  head = 32;
  tail = 16;
  locked = false;
  store = λ q.
      if q == 16
      then some (record { content = 7 ∷ 8 ∷ []; next = 0; prev = 32 })
      else if q == 32
      then some (record { content = 9 ∷ []; next = 16; prev = 0 })
      else none;
}

abbrev messages : List (ℕ × List ℕ)
messages = (16, 7 ∷ 8 ∷ []) ∷ (32, 9 ∷ []) ∷ []

queue-IsQueue : IsQueue queue messages
queue-IsQueue = record {
  chain = (refl, omega arith, 32, refl, (refl, omega arith, 0, refl, (refl, refl)));
  distinct = ((λ e. absurd (omega (arith, e)), tt), (tt, tt));
}

receive_all-send_all_example :
    (s : Queue) × (send_all (init_mqueue (λ _. none)) messages ≡ some s)
    × (receive_all 3 s 64 0 ≡ some ((7 ∷ 8 ∷ []) ∷ (9 ∷ []) ∷ [], s))
receive_all-send_all_example =
    receive_all-send_all 3 (λ _. none) 64 messages
      (omega arith, tt, (omega arith, ((λ e. absurd (omega (arith, e))), tt), omega arith))
      (omega arith, (omega arith, tt)) (omega arith)

consume_msg-oldest_example :
    (s' : Queue) × (consume_msg queue 16 ≡ some (0, s'))
    × IsQueue s' ((32, 9 ∷ []) ∷ [])
    × (s'.locked ≡ false)
    × (s'.store 16 ≡ queue.store 16)
consume_msg-oldest_example =
    consume_msg-oldest queue 16 (7 ∷ 8 ∷ []) ((32, 9 ∷ []) ∷ []) queue-IsQueue
