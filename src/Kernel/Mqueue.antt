-- ===== src/Kernel/Mqueue.antt =====
-- `kernel/src/mqueue.c`: a queue of messages, doubly linked, in a store of messages. A message is
-- known by its address, and 0 is the null pointer. `none` is a read of a message that is not there,
-- a failed assertion, or a wait for a lock that nothing else gives back.
pub mod Delivery
pub mod Fifo
pub mod Linked
pub mod Send
use mathlib.Core.Option
use frosk_current.Prelude.{
  ℕ, zero, suc, Bool, true, false, Option, none, some, List, [], ◌==◌, leb, if◌then◌else◌, ◌>>=◌,
  length,
}

-- `message_t`; `size` is the length of the data
pub record Message : Type 0 where
  pub content : List ℕ
  pub next : ℕ
  pub prev : ℕ

abbrev pub Store : Type 0
Store = ℕ → Option Message

abbrev pub put : Store → ℕ → Option Message → Store
put st p m q = if q == p then m else st q

-- `mqueue_t`, and the messages
pub record Queue : Type 0 where
  pub head : ℕ
  pub tail : ℕ
  pub locked : Bool
  pub store : Store

-- `p->prev = q`
abbrev pub set_prev : Queue → ℕ → ℕ → Option Queue
set_prev s p q =
    Option.map (λ m. record s { store = put s.store p (some (record m { prev = q })) }) (s.store p)

-- `p->next = q`
abbrev pub set_next : Queue → ℕ → ℕ → Option Queue
set_next s p q =
    Option.map (λ m. record s { store = put s.store p (some (record m { next = q })) }) (s.store p)

abbrev pub init_mqueue : Store → Queue
init_mqueue st = record { head = 0; tail = 0; locked = false; store = st }

abbrev pub lock_queue : Queue → Option Queue
lock_queue s = if s.locked then none else some (record s { locked = true })

abbrev pub unlock_queue : Queue → Queue
unlock_queue s = record s { locked = false }

-- `fresh` is what `kalloc` returns
abbrev pub create_message : Queue → List ℕ → ℕ → Queue
create_message s bytes fresh = record s {
  store = put s.store fresh (some (record { content = bytes; next = 0; prev = 0 }));
}

abbrev pub destroy_message : Queue → ℕ → Queue
destroy_message s p = record s { store = put s.store p none }

-- The message is at `fresh`; the queue is not empty.
abbrev pub add_head : Queue → ℕ → Option Queue
add_head s fresh = set_prev s s.head fresh >>= λ s1.
    set_next s1 fresh s1.head >>= λ s2. some (record s2 { head = fresh })

pub send_msg : Queue → List ℕ → (fresh : ℕ) → Option Queue
send_msg s bytes fresh = lock_queue s >>= λ locked.
    let s1 = create_message locked bytes fresh in
    (if s1.head == 0 then some (record s1 { head = fresh; tail = fresh }) else add_head s1 fresh)
    >>= λ s2. some (unlock_queue s2)

-- What a call of `recv_msg` gives: the result, the bytes that it copies, and `*current`.
pub record Received : Type 0 where
  pub result : ℕ
  pub copied : List ℕ
  pub current : ℕ

-- the message that `recv_msg` is to look at, with the queue locked
abbrev pub step_current : Queue → ℕ → Option (ℕ × Queue)
step_current s current =
    if current == 0
    then Option.map (λ locked. (locked.tail, locked)) (lock_queue s)
    else Option.map (λ m. (m.prev, s)) (s.store current)

abbrev pub received : Message → (size current : ℕ) → Received
received m size current = record {
  result = length m.content;
  copied = if leb (length m.content) size then m.content else [];
  current = current;
}

-- the rest of `recv_msg`, with `*current` set to `p`
abbrev pub look : Queue → (size p : ℕ) → Option (Received × Queue)
look s size p =
    if p == 0
    then some (record { result = 0; copied = []; current = 0 }, unlock_queue s)
    else Option.map (λ m. (received m size p, s)) (s.store p)

pub recv_msg : Queue → (size current : ℕ) → Option (Received × Queue)
recv_msg s size current = step_current s current >>= λ r. look r.1 size r.0

-- The last message is unlinked; `*current` becomes null, and the message is not freed.
abbrev pub consume_tail : Queue → ℕ → Message → Option Queue
consume_tail s current m =
    (if m.prev == 0
      then some (record s { tail = m.prev })
      else set_next (record s { tail = m.prev }) m.prev 0)
    >>= λ s1. some (if current == s1.head then record s1 { head = 0 } else s1)

-- The first message is unlinked; `*current` stays.
abbrev pub consume_head : Queue → Message → Option Queue
consume_head s m = if m.next == 0 then none else set_prev (record s { head = m.next }) m.next 0

abbrev pub consume_inner : Queue → Message → Option Queue
consume_inner s m = (if m.prev == 0 then some s else set_next s m.prev m.next) >>= λ s1.
    if m.next == 0 then some s1 else set_prev s1 m.next m.prev

-- a queue without the message at `current`, and the new `*current`
abbrev pub unlink_current : Queue → (current : ℕ) → Message → Option (ℕ × Queue)
unlink_current s current m =
    if current == s.tail
    then Option.map (λ s1. (0, s1)) (consume_tail s current m)
    else if current == s.head
    then Option.map (λ s1. (current, s1)) (consume_head s m)
    else Option.map (λ s1. (m.next, s1)) (consume_inner s m)

-- The message is freed only if `*current` is not null at the end.
pub consume_msg : Queue → (current : ℕ) → Option (ℕ × Queue)
consume_msg s current =
    if current == 0
    then some (0, unlock_queue s)
    else (s.store current >>= λ m. unlink_current s current m >>= λ (next, s1).
        some (next, if next == 0 then unlock_queue s1 else destroy_message s1 current))

abbrev pub stop_recv : Queue → (current : ℕ) → Queue
stop_recv s current = if current == 0 then s else unlock_queue s

-- The link of a message is read after the message is freed.
empty_loop : ℕ → Queue → ℕ → Option Queue
empty_loop zero s p = none
empty_loop (suc f) s p =
    let s1 = destroy_message s p in
    elim (p == 0) [
      | true ↦ some s
      | false ↦ elim (s1.store p) [ none ↦ none | some m ↦ empty_loop f s1 m.next ]
    ]

pub empty_mqueue : ℕ → Queue → Option Queue
unfolding empty_loop
empty_mqueue f s = lock_queue s >>= λ s1.
    empty_loop f s1 s1.head >>= λ s2. some (unlock_queue (record s2 { head = 0; tail = 0 }))
