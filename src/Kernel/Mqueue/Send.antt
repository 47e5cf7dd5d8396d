-- ===== src/Kernel/Mqueue/Send.antt =====
-- `send_msg` on a queue.
use frosk_current.Prelude.{
  ℕ, ◌≡◌, ◌≢◌, ◌<◌, true, false, Option, some, List, [], ◌∷◌, ◌++◌, ◌==◌, arith, refl, ap, ◌∙◌, sym,
}
use mathlib.Core.Option
use frosk_current.Kernel.Mqueue.{Message, Store, Queue, put, add_head, create_message, send_msg}
use frosk_current.Kernel.Mqueue.Linked.{
  Chain, NotIn, Distinct, IsQueue, put-other, put-same, Chain-put, Chain-head,
}

-- the message at `head`, with its new neighbour
abbrev behind : Message → ℕ → Message
behind m fresh = record m { prev = fresh }

-- the store with a new newest message; the one at `head` is `m`
abbrev extended : Store → (head fresh : ℕ) → Message → List ℕ → Store
extended st head fresh m bytes =
    put (put st head (some (behind m fresh))) fresh
      (some (record { content = bytes; next = head; prev = 0 }))

-- A list that is not empty gets a new newest message.
Chain-extended :
    (st : Store) (next p : ℕ) (x : ℕ × List ℕ) (xs : List (ℕ × List ℕ)) (head fresh : ℕ)
    (m : Message) (bytes : List ℕ)
    → Chain st next p (x ∷ xs) head
    → Distinct (x ∷ xs)
    → NotIn fresh (x ∷ xs)
    → 0 < fresh
    → st head ≡ some m
    → Chain (extended st head fresh m bytes) next p ((x ∷ xs) ++ ((fresh, bytes) ∷ [])) fresh
Chain-extended st next p (a, d) [] head fresh m bytes (at, positive, q, here, (end, same)) distinct
      (ne, _) f is =
    (
      at,
      positive,
      fresh,
      put-other (put st head (some (behind m fresh))) fresh
            (some (record { content = bytes; next = head; prev = 0 })) a (λ e. ne (sym e))
          ∙ ap (λ h. put st h (some (behind m fresh)) a) same
          ∙ put-same st a (some (behind m fresh))
          ∙ ap (Option.map (λ n. behind n fresh)) (sym is ∙ ap st same ∙ here),
      (
        refl,
        f,
        0,
        put-same (put st head (some (behind m fresh))) fresh
              (some (record { content = bytes; next = head; prev = 0 }))
            ∙ ap (λ h. some (record { content = bytes; next = h; prev = 0 })) same,
        (refl, refl),
      ),
    )
Chain-extended st next p (a, d) (x ∷ xs) head fresh m bytes (at, positive, q, here, rest)
      (apart, distinct) (ne, out) f is =
    let (not_head, _, _, _) = Chain-head st a q x xs head a apart rest in
    (
      at,
      positive,
      q,
      put-other (put st head (some (behind m fresh))) fresh
            (some (record { content = bytes; next = head; prev = 0 })) a (λ e. ne (sym e))
          ∙ put-other st head (some (behind m fresh)) a not_head
          ∙ here,
      Chain-extended st a q x xs head fresh m bytes rest distinct out f is,
    )

add_head-extended :
    (s : Queue) (fresh : ℕ) (m : Message) (bytes : List ℕ)
    → s.store s.head ≡ some m
    → fresh ≢ s.head
    → s.store fresh ≡ some (record { content = bytes; next = 0; prev = 0 })
    → add_head s fresh
      ≡ some (record s { head = fresh; store = extended s.store s.head fresh m bytes })
add_head-extended s fresh m bytes is ne there =
    let other = put-other s.store s.head (some (behind m fresh)) fresh ne ∙ there in
    rw is (rw other refl)

Distinct-snoc :
    (xs : List (ℕ × List ℕ)) (fresh : ℕ) (bytes : List ℕ)
    → Distinct xs
    → NotIn fresh xs
    → Distinct (xs ++ ((fresh, bytes) ∷ []))
Distinct-snoc [] fresh bytes distinct out = (tt, tt)
Distinct-snoc ((a, d) ∷ xs) fresh bytes (apart, distinct) (ne, out) =
    (NotIn-snoc a xs fresh bytes apart (λ e. ne (sym e)), Distinct-snoc xs fresh bytes distinct out)
  where
    NotIn-snoc :
        (a : ℕ) (xs : List (ℕ × List ℕ)) (fresh : ℕ) (bytes : List ℕ)
        → NotIn a xs
        → a ≢ fresh
        → NotIn a (xs ++ ((fresh, bytes) ∷ []))
    NotIn-snoc a [] fresh bytes out ne = (ne, tt)
    NotIn-snoc a (x ∷ xs) fresh bytes (n, out) ne = (n, NotIn-snoc a xs fresh bytes out ne)

is_zero : (n : ℕ) → n ≡ 0 → (n == 0) ≡ true
is_zero n e = ground arith

is_nonzero : (n : ℕ) → 0 < n → (n == 0) ≡ false
is_nonzero n h = ground arith

-- `send_msg` on a queue whose lock is free returns, with the message behind all others and the lock
-- free. The address of the message is not null and not that of another message.
pub send_msg-IsQueue :
    (s : Queue) (xs : List (ℕ × List ℕ)) (bytes : List ℕ) (fresh : ℕ)
    → IsQueue s xs
    → s.locked ≡ false
    → 0 < fresh
    → NotIn fresh xs
    → (s' : Queue) × (send_msg s bytes fresh ≡ some s')
      × IsQueue s' (xs ++ ((fresh, bytes) ∷ []))
      × (s'.locked ≡ false)
unfolding send_msg
send_msg-IsQueue s [] bytes fresh q free f out =
    let m0 : Message = record { content = bytes; next = 0; prev = 0 } in
    let test = is_zero s.head q.chain.1 in
    (
      record { head = fresh; tail = fresh; locked = false; store = put s.store fresh (some m0) },
      rw (free, test),
      record {
        chain = (refl, f, 0, put-same s.store fresh (some m0), (refl, refl));
        distinct = (tt, tt);
      },
      refl,
    )
send_msg-IsQueue s (x ∷ xs) bytes fresh q free f out =
    let s1 = create_message (record s { locked = true }) bytes fresh in
    let (ne, positive, m, is) = Chain-head s.store 0 s.tail x xs s.head fresh out q.chain in
    let m0 : Option Message = some (record { content = bytes; next = 0; prev = 0 }) in
    let chain = Chain-put s.store 0 s.tail (x ∷ xs) s.head fresh m0 out q.chain in
    let found = put-other s.store fresh m0 s.head (λ e. ne (sym e)) ∙ is in
    let test = is_nonzero s.head positive in
    let added = add_head-extended s1 fresh m bytes found ne (put-same s.store fresh m0) in
    (
      record {
        head = fresh;
        tail = s.tail;
        locked = false;
        store = extended s1.store s.head fresh m bytes;
      },
      rw (free, test, added),
      record {
        chain =
            Chain-extended s1.store 0 s.tail x xs s.head fresh m bytes chain q.distinct out f found;
        distinct = Distinct-snoc (x ∷ xs) fresh bytes q.distinct out;
      },
      refl,
    )
