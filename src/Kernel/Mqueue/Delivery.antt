-- ===== src/Kernel/Mqueue/Delivery.antt =====
-- What is sent is received, in the same order.
use mathlib.Core.List.{map, append_assoc, append-nil}
use mathlib.Core.Path.{subst}
use frosk_current.Prelude.{
  ℕ, ◌≡◌, ◌<◌, false, Option, some, List, [], ◌∷◌, ◌++◌, ◌>>=◌, refl, sym, length,
}
use frosk_current.Kernel.Mqueue.{Store, Queue, init_mqueue, send_msg}
use frosk_current.Kernel.Mqueue.Linked.{NotIn, IsQueue}
use frosk_current.Kernel.Mqueue.Send.{send_msg-IsQueue}
use frosk_current.Kernel.Mqueue.Fifo.{AllFit, receive_all, receive_all-IsQueue}

-- The messages are sent one after the other, each at the address that `kalloc` gives.
pub send_all : Queue → List (ℕ × List ℕ) → Option Queue
send_all s [] = some s
send_all s ((fresh, bytes) ∷ ys) = send_msg s bytes fresh >>= λ s'. send_all s' ys

-- No address is null, or that of another message.
abbrev pub AreNew : (xs ys : List (ℕ × List ℕ)) → Type 0
AreNew xs [] = 0 < 1
AreNew xs ((fresh, bytes) ∷ ys) =
    (0 < fresh) × NotIn fresh xs × AreNew (xs ++ ((fresh, bytes) ∷ [])) ys

send_all-IsQueue :
    (s : Queue) (xs ys : List (ℕ × List ℕ))
    → IsQueue s xs
    → s.locked ≡ false
    → AreNew xs ys
    → (s' : Queue) × (send_all s ys ≡ some s') × IsQueue s' (xs ++ ys) × (s'.locked ≡ false)
unfolding send_all
send_all-IsQueue s xs [] queue free new =
    (s, refl, subst (IsQueue s) (sym (append-nil xs)) queue, free)
send_all-IsQueue s xs ((fresh, bytes) ∷ ys) queue free (positive, out, new) =
    let (s1, sent, queue1, free1) = send_msg-IsQueue s xs bytes fresh queue free positive out in
    let (s', run, queue', free') =
      send_all-IsQueue s1 (xs ++ ((fresh, bytes) ∷ [])) ys queue1 free1 new in
    (s', rw sent run, subst (IsQueue s') (append_assoc xs ((fresh, bytes) ∷ []) ys) queue', free')

-- Messages that are sent to an empty queue, at addresses that are not null and differ, are received by a program with
-- a buffer that is large enough in the order in which they were sent, all of them and no others. Sending and receiving
-- return, and receiving leaves the queue as it was.
pub receive_all-send_all :
    (f : ℕ) (st : Store) (size : ℕ) (ys : List (ℕ × List ℕ))
    → AreNew [] ys
    → AllFit size ys
    → length ys < f
    → (s : Queue) × (send_all (init_mqueue st) ys ≡ some s)
      × (receive_all f s size 0 ≡ some (map (λ y. y.1) ys, s))
receive_all-send_all f st size ys new fits enough =
    let empty : IsQueue (init_mqueue st) [] = record { chain = (refl, refl); distinct = tt } in
    let (s, run, queue, free) = send_all-IsQueue (init_mqueue st) [] ys empty refl new in
    (s, run, receive_all-IsQueue f s size ys queue free fits enough)
