-- ===== src/Kernel/Mqueue/Fifo.antt =====
-- The order in which messages are received, and the consumption of the oldest one.
use frosk_current.Prelude.{
  ℕ, zero, suc, ◌≡◌, ◌≢◌, ◌<◌, ◌≤◌, true, false, Option, none, some, List, [], ◌∷◌, ◌==◌,
  if◌then◌else◌, ◌>>=◌, arith, refl, ap, ◌∙◌, sym, length,
}
use mathlib.Core.Option
use mathlib.Core.List.{map}
use mathlib.Core.Path.{subst}
use frosk_current.Kernel.Mqueue.{
  Message, Store, Queue, Received, put, step_current, received, unlock_queue, recv_msg, consume_msg,
}
use frosk_current.Kernel.Mqueue.Linked.{
  Chain, NotIn, Distinct, IsQueue, put-other, put-same, Chain-put, Chain-head,
}

-- Every message fits into a buffer of `size` bytes.
abbrev pub AllFit : ℕ → List (ℕ × List ℕ) → Type 0
AllFit size [] = Unit
AllFit size ((a, d) ∷ xs) = (length d ≤ size) × AllFit size xs

abbrev Collected : Type 0
Collected = Option (List (List ℕ) × Queue)

-- what was received, and the rest
abbrev go_on : Received × Queue → Collected → Collected
go_on r rest =
    if r.0.current == 0 then some ([], r.1) else Option.map (λ t. (r.0.copied ∷ t.0, t.1)) rest

-- A program that calls `recv_msg` until no message is left, and consumes none.
pub receive_all : ℕ → Queue → (size current : ℕ) → Option (List (List ℕ) × Queue)
receive_all zero s size current = none
receive_all (suc f) s size current =
    recv_msg s size current >>= λ r. go_on r (receive_all f r.1 size r.0.current)

receive_all-end :
    (f : ℕ) (s s1 : Queue) (size current p : ℕ)
    → step_current s current ≡ some (p, s1)
    → p ≡ 0
    → receive_all (suc f) s size current ≡ some ([], unlock_queue s1)
unfolding receive_all recv_msg
receive_all-end f s s1 size current p step end =
    let test : (p == 0) ≡ true = ground arith in rw (step, test) refl

recv_msg-received :
    (s s1 : Queue) (size current p : ℕ) (m : Message)
    → step_current s current ≡ some (p, s1)
    → 0 < p
    → s1.store p ≡ some m
    → recv_msg s size current ≡ some (received m size p, s1)
unfolding recv_msg
recv_msg-received s s1 size current p m step positive there =
    let test : (p == 0) ≡ false = ground arith in rw (step, test, there) refl

go_on-next :
    (f size p : ℕ) (m : Message) (s1 : Queue)
    → 0 < p
    → length m.content ≤ size
    → go_on (received m size p, s1) (receive_all f s1 size p)
      ≡ Option.map (λ t. (m.content ∷ t.0, t.1)) (receive_all f s1 size p)
unfolding receive_all
go_on-next f size p m s1 positive fits = ground arith

receive_all-next :
    (f : ℕ) (s s1 : Queue) (size current p : ℕ) (m : Message)
    → step_current s current ≡ some (p, s1)
    → 0 < p
    → s1.store p ≡ some m
    → length m.content ≤ size
    → receive_all (suc f) s size current
      ≡ Option.map (λ t. (m.content ∷ t.0, t.1)) (receive_all f s1 size p)
unfolding receive_all
receive_all-next f s s1 size current p m step positive there fits =
    ap (λ x. x >>= λ r. go_on r (receive_all f r.1 size r.0.current))
      (recv_msg-received s s1 size current p m step positive there)
    ∙ go_on-next f size p m s1 positive fits

step_current-prev :
    (s : Queue) (p : ℕ) (m : Message)
    → 0 < p
    → s.store p ≡ some m
    → step_current s p ≡ some (m.prev, s)
step_current-prev s p m positive there =
    let test : (p == 0) ≡ false = ground arith in rw (test, there) refl

receive_all-Chain :
    (f : ℕ) (s s1 : Queue) (size current next p : ℕ) (xs : List (ℕ × List ℕ)) (head : ℕ)
    → step_current s current ≡ some (p, s1)
    → Chain s1.store next p xs head
    → AllFit size xs
    → length xs < f
    → receive_all f s size current ≡ some (map (λ x. x.1) xs, unlock_queue s1)
receive_all-Chain zero s s1 size current next p xs head step chain fits enough =
    absurd (omega arith)
receive_all-Chain (suc f) s s1 size current next p [] head step (end, same) fits enough =
    receive_all-end f s s1 size current p step end
receive_all-Chain (suc f) s s1 size current next p ((a, d) ∷ xs) head step
      (at, positive, q, here, rest) (fit, fits) enough =
    let m : Message = record { content = d; next = next; prev = q } in
    let there : s1.store p ≡ some m = ap s1.store at ∙ here in
    let onward : step_current s1 p ≡ some (q, s1) =
      step_current-prev s1 p m (omega (arith, at)) there in
    receive_all-next f s s1 size current p m step (omega (arith, at)) there fit
    ∙ ap (Option.map (λ t. (d ∷ t.0, t.1)))
        (receive_all-Chain f s1 s1 size p a q xs head onward rest fits (omega arith))

-- A program that receives all messages of a queue, with its lock free and a buffer that is large
-- enough, gets the data of every message in the order in which they were sent, and leaves the queue
-- as it was, with the lock free.
pub receive_all-IsQueue :
    (f : ℕ) (s : Queue) (size : ℕ) (xs : List (ℕ × List ℕ))
    → IsQueue s xs
    → s.locked ≡ false
    → AllFit size xs
    → length xs < f
    → receive_all f s size 0 ≡ some (map (λ x. x.1) xs, s)
receive_all-IsQueue f s size xs q free fits enough =
    receive_all-Chain f s (record s { locked = true }) size 0 0 s.tail xs s.head (rw free refl)
      q.chain fits enough
    ∙ ap (λ l. some (map (λ x. x.1) xs, record s { locked = l })) (sym free)

-- the list behind its oldest message, which is unlinked
Chain-unlinked :
    (st : Store) (a q : ℕ) (b : ℕ × List ℕ) (xs : List (ℕ × List ℕ)) (head : ℕ)
    → Distinct (b ∷ xs)
    → Chain st a q (b ∷ xs) head
    → (m : Message) × (st q ≡ some m)
      × (0 < q)
      × Chain (put st q (some (record m { next = 0 }))) 0 q (b ∷ xs) head
Chain-unlinked st a q (b, d) xs head (apart, distinct) (at, positive, r, here, rest) =
    let m : Message = record { content = d; next = a; prev = r } in
    let n : Option Message = some (record m { next = 0 }) in
    (
      m,
      ap st at ∙ here,
      omega (arith, at),
      (
        at,
        positive,
        r,
        ap (λ w. put st w n b) at ∙ put-same st b n,
        Chain-put st b r xs head q n (subst (λ w. NotIn w xs) (sym at) apart) rest,
      ),
    )

eq_true : (a b : ℕ) → a ≡ b → (a == b) ≡ true
eq_true a b e = ground arith

eq_false : (a b : ℕ) → a ≢ b → (a == b) ≡ false
eq_false a b e = ground arith

-- Consuming the oldest message, while it is looked at, unlinks it: the queue has the others, and its
-- lock is free. The message itself is not freed: it is in the
-- store as before.
pub consume_msg-oldest :
    (s : Queue) (a : ℕ) (d : List ℕ) (xs : List (ℕ × List ℕ))
    → IsQueue s ((a, d) ∷ xs)
    → (s' : Queue) × (consume_msg s a ≡ some (0, s'))
      × IsQueue s' xs
      × (s'.locked ≡ false)
      × (s'.store a ≡ s.store a)
unfolding consume_msg
consume_msg-oldest s a d [] queue =
    let (at, positive, q, here, (end, same)) = queue.chain in
    let given = eq_false a 0 (λ e. absurd (omega (arith, e, positive))) in
    let last = eq_true a s.tail (sym at) in
    let alone = eq_true q 0 end in
    let first = eq_true a s.head (sym same) in
    (
      record s { head = 0; tail = q; locked = false },
      rw (given, here, last, alone, first) refl,
      record { chain = (end, refl); distinct = tt },
      refl,
      refl,
    )
consume_msg-oldest s a d (b ∷ xs) queue =
    let (at, positive, q, here, rest) = queue.chain in
    let (apart, distinct) = queue.distinct in
    let (not_head, _, _, _) = Chain-head s.store a q b xs s.head a apart rest in
    let (m, older, q_positive, unlinked) = Chain-unlinked s.store a q b xs s.head distinct rest in
    let given = eq_false a 0 (λ e. absurd (omega (arith, e, positive))) in
    let last = eq_true a s.tail (sym at) in
    let more = eq_false q 0 (λ e. absurd (omega (arith, e, q_positive))) in
    let inner = eq_false a s.head not_head in
    (
      record s { tail = q; locked = false; store = put s.store q (some (record m { next = 0 })) },
      rw (given, here, last, more, older, inner) refl,
      record { chain = unlinked; distinct = distinct },
      refl,
      put-other s.store q (some (record m { next = 0 })) a (λ e. apart.0 (e ∙ rest.0)),
    )
