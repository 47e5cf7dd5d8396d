-- ===== src/Kernel/Mqueue/Linked.antt =====
-- The list in the store.
use frosk_current.Prelude.{ℕ, ◌≡◌, ◌≢◌, ◌<◌, Option, some, List, [], ◌∷◌, arith, ap, ◌∙◌, sym}
use frosk_current.Kernel.Mqueue.{Message, Store, Queue, put}

-- From the message at `p` on, the store has the messages of `xs`, oldest first: their addresses and
-- data. `next` is the older neighbour of the message at `p`, and `head` is the newest.
abbrev pub Chain : Store → (next p : ℕ) → List (ℕ × List ℕ) → (head : ℕ) → Type 0
Chain st next p [] head = (p ≡ 0) × (head ≡ next)
Chain st next p ((a, d) ∷ xs) head =
    (p ≡ a)
    × (0 < a)
    × (q : ℕ) × (st a ≡ some (record { content = d; next = next; prev = q }))
    × Chain st a q xs head

-- `a` is not the address of a message.
abbrev pub NotIn : ℕ → List (ℕ × List ℕ) → Type 0
NotIn a [] = Unit
NotIn a ((b, d) ∷ xs) = (a ≢ b) × NotIn a xs

abbrev pub Distinct : List (ℕ × List ℕ) → Type 0
Distinct [] = Unit
Distinct ((a, d) ∷ xs) = NotIn a xs × Distinct xs

-- A queue has the messages `xs`, oldest first.
pub record IsQueue (s : Queue) (xs : List (ℕ × List ℕ)) : Type 0 where
  pub chain : Chain s.store 0 s.tail xs s.head
  pub distinct : Distinct xs

pub put-other : (st : Store) (p : ℕ) (m : Option Message) (q : ℕ) → q ≢ p → put st p m q ≡ st q
put-other st p m q ne = ground arith

pub put-same : (st : Store) (p : ℕ) (m : Option Message) → put st p m p ≡ m
put-same st p m = ground arith

-- A write to an address outside the list does not change the list.
pub Chain-put :
    (st : Store) (next p : ℕ) (xs : List (ℕ × List ℕ)) (head w : ℕ) (m : Option Message)
    → NotIn w xs
    → Chain st next p xs head
    → Chain (put st w m) next p xs head
Chain-put st next p [] head w m out chain = chain
Chain-put st next p ((a, d) ∷ xs) head w m (ne, out) (at, positive, q, here, rest) = (
  at,
  positive,
  q,
  put-other st w m a (λ e. ne (sym e)) ∙ here,
  Chain-put st a q xs head w m out rest,
)

-- The newest message of a list that is not empty.
pub Chain-head :
    (st : Store) (next p : ℕ) (x : ℕ × List ℕ) (xs : List (ℕ × List ℕ)) (head w : ℕ)
    → NotIn w (x ∷ xs)
    → Chain st next p (x ∷ xs) head
    → (w ≢ head) × (0 < head) × (m : Message) × (st head ≡ some m)
Chain-head st next p (a, d) [] head w (ne, _) (at, positive, q, here, (end, same)) = (
  λ e. ne (e ∙ same),
  omega arith,
  record { content = d; next = next; prev = q },
  ap st same ∙ here,
)
Chain-head st next p (a, d) (x ∷ xs) head w (ne, out) (at, positive, q, here, rest) =
    Chain-head st a q x xs head w out rest
