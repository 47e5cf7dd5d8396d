-- ===== src/Kernel/Dirs/Search.antt =====
-- Looking for a name in the tree of a directory.
use mathlib.Core.Option.{some-injective, none-ne-some}
use frosk_current.Prelude.{ℕ, zero, suc, ◌≡◌, ◌≢◌, none, some, List, refl, sym, ◌∙◌, ap}
use frosk_current.Prelude.Int.{ℤ, pos, negsuc}
use frosk_current.Cstd.Str.Order.{order, order_refl}
use frosk_current.Kernel.Dirs.{Tree, leaf, branch, Entry, name_of, find, insert_entry, update_entry}

-- a comparison goes left, stops or goes right
pub data Compared (z : ℤ) : Type 0 where
  less : (k : ℕ) → z ≡ negsuc k → Compared z
  same : z ≡ pos 0 → Compared z
  more : (k : ℕ) → z ≡ pos (suc k) → Compared z

pub compared : (z : ℤ) → Compared z
compared (negsuc k) = less k refl
compared (pos zero) = same refl
compared (pos (suc k)) = more k refl

module _ (x : Entry) (l r : Tree) where
  pub find-less :
      (n : List ℕ) (k : ℕ) → order n (name_of x) ≡ negsuc k → find n (branch x l r) ≡ find n l
  unfolding find
  find-less n k e = rw (find, e) refl

  pub find-same : (n : List ℕ) → order n (name_of x) ≡ pos 0 → find n (branch x l r) ≡ some x
  unfolding find
  find-same n e = rw (find, e) refl

  pub find-more :
      (n : List ℕ) (k : ℕ) → order n (name_of x) ≡ pos (suc k) → find n (branch x l r) ≡ find n r
  unfolding find
  find-more n k e = rw (find, e) refl

  pub insert-less :
      (e : Entry) (k : ℕ)
      → order (name_of e) (name_of x) ≡ negsuc k
      → insert_entry e (branch x l r) ≡ branch x (insert_entry e l) r
  unfolding insert_entry
  insert-less e k h = rw (insert_entry, h) refl

  pub insert-same :
      (e : Entry)
      → order (name_of e) (name_of x) ≡ pos 0
      → insert_entry e (branch x l r) ≡ branch e leaf leaf
  unfolding insert_entry
  insert-same e h = rw (insert_entry, h) refl

  pub insert-more :
      (e : Entry) (k : ℕ)
      → order (name_of e) (name_of x) ≡ pos (suc k)
      → insert_entry e (branch x l r) ≡ branch x l (insert_entry e r)
  unfolding insert_entry
  insert-more e k h = rw (insert_entry, h) refl

-- An entry that is inserted is found by its name.
pub find-insert_entry : (e : Entry) (t : Tree) → find (name_of e) (insert_entry e t) ≡ some e
unfolding insert_entry
find-insert_entry e leaf = find-same e leaf leaf (name_of e) (order_refl (name_of e))
find-insert_entry e (branch x l r) = elim (compared (order (name_of e) (name_of x))) [
  | less k h ↦
      ap (find (name_of e)) (insert-less x l r e k h)
      ∙ find-less x (insert_entry e l) r (name_of e) k h
      ∙ find-insert_entry e l
  | same h ↦
      ap (find (name_of e)) (insert-same x l r e h)
      ∙ find-same e leaf leaf (name_of e) (order_refl (name_of e))
  | more k h ↦
      ap (find (name_of e)) (insert-more x l r e k h)
      ∙ find-more x l (insert_entry e r) (name_of e) k h
      ∙ find-insert_entry e r
]

find-single :
    (n : List ℕ) (e : Entry) → order n (name_of e) ≢ pos 0 → find n (branch e leaf leaf) ≡ none
unfolding find
find-single n e other = elim (compared (order n (name_of e))) [
  | less k h ↦ find-less e leaf leaf n k h
  | same h ↦ absurd (other h)
  | more k h ↦ find-more e leaf leaf n k h
]

pub find-both :
    (n : List ℕ) (x : Entry) (l l' r r' : Tree)
    → find n l' ≡ find n l
    → find n r' ≡ find n r
    → find n (branch x l' r') ≡ find n (branch x l r)
find-both n x l l' r r' el er = elim (compared (order n (name_of x))) [
  | less k h ↦ find-less x l' r' n k h ∙ el ∙ sym (find-less x l r n k h)
  | same h ↦ find-same x l' r' n h ∙ sym (find-same x l r n h)
  | more k h ↦ find-more x l' r' n k h ∙ er ∙ sym (find-more x l r n k h)
]

-- If the name was not there before, then every other name is found as before.
pub find-insert_entry_other :
    (n : List ℕ) (e : Entry) (t : Tree)
    → find (name_of e) t ≡ none
    → order n (name_of e) ≢ pos 0
    → find n (insert_entry e t) ≡ find n t
unfolding insert_entry find
find-insert_entry_other n e leaf new other = find-single n e other
find-insert_entry_other n e (branch x l r) new other =
    elim (compared (order (name_of e) (name_of x))) [
      | less k h ↦
          let rest =
            find-insert_entry_other n e l (sym (find-less x l r (name_of e) k h) ∙ new) other in
          ap (find n) (insert-less x l r e k h) ∙ find-both n x l (insert_entry e l) r r rest refl
      | same h ↦ absurd (none-ne-some x (sym new ∙ find-same x l r (name_of e) h))
      | more k h ↦
          let rest =
            find-insert_entry_other n e r (sym (find-more x l r (name_of e) k h) ∙ new) other in
          ap (find n) (insert-more x l r e k h) ∙ find-both n x l l r (insert_entry e r) refl rest
    ]

-- An entry that was found and has not changed is put back where it was.
pub update_entry-find :
    (n : List ℕ) (e : Entry) (t : Tree) → find n t ≡ some e → update_entry n e t ≡ t
unfolding update_entry
update_entry-find n e leaf h = refl
update_entry-find n e (branch x l r) found = elim (compared (order n (name_of x))) [
  | less k h ↦
      rw (update_entry, h)
        (ap (λ t. branch x t r) (update_entry-find n e l (sym (find-less x l r n k h) ∙ found)))
  | same h ↦
      rw (update_entry, h)
        (ap (λ y. branch y l r) (some-injective _ _ (sym found ∙ find-same x l r n h)))
  | more k h ↦
      rw (update_entry, h)
        (ap (λ t. branch x l t) (update_entry-find n e r (sym (find-more x l r n k h) ∙ found)))
]
