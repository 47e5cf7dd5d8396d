-- ===== src/Kernel/Dirs/Listing.antt =====
-- `fs_first` and `fs_next` go through the entries of a directory in their order.
use mathlib.Core.List.{append_assoc, append-nil}
use frosk_current.Prelude.{
  ℕ, zero, suc, ◌≡◌, Bool, Option, none, some, List, [], ◌∷◌, ◌++◌, length, ◌≤◌, arith, refl, sym,
  ap, ◌∙◌,
}
use frosk_current.Kernel.Dirs.{
  Tree, leaf, branch, Entry, Step, went_left, went_right, Position, leftmost, leftmost_tree, climb,
  fs_next, fs_first, assure_dir, root_of,
}

-- the entries from left to right
abbrev pub flatten : Tree → List Entry
flatten leaf = []
flatten (branch e l r) = flatten l ++ (e ∷ flatten r)

-- the entries that come after a subtree whose chain of parents is given
abbrev pub after : List Step → List Entry
after [] = []
after (went_left e r ∷ parents) = e ∷ (flatten r ++ after parents)
after (went_right l e ∷ parents) = after parents

-- the entries from a position on
abbrev pub pending : Position → List Entry
pending p = p.at ∷ (flatten p.right ++ after p.parents)

abbrev pub pending_from : Option Position → List Entry
pending_from none = []
pending_from (some p) = pending p

pending-leftmost :
    (e : Entry) (l r : Tree) (parents : List Step)
    → pending (leftmost e l r parents) ≡ flatten (branch e l r) ++ after parents
unfolding leftmost
pending-leftmost e leaf r parents = refl
pending-leftmost e (branch x l m) r parents =
    pending-leftmost x l m (went_left e r ∷ parents)
    ∙ sym (append_assoc (flatten (branch x l m)) (e ∷ flatten r) (after parents))

pending-climb : (t : Tree) (parents : List Step) → pending_from (climb t parents) ≡ after parents
unfolding climb
pending-climb t [] = refl
pending-climb t (went_left e r ∷ parents) = refl
pending-climb t (went_right l e ∷ parents) = pending-climb (branch e l t) parents

pending-next :
    (e : Entry) (l r : Tree) (parents : List Step)
    → flatten r ++ after parents
      ≡ pending_from (fs_next (record { at = e; left = l; right = r; parents = parents }))
unfolding fs_next
pending-next e l leaf parents = sym (pending-climb (branch e l leaf) parents)
pending-next e l (branch x k m) parents = sym (pending-leftmost x k m (went_right l e ∷ parents))

pending-first : (t : Tree) → pending_from (leftmost_tree t []) ≡ flatten t
pending-first leaf = refl
pending-first (branch e l r) = pending-leftmost e l r [] ∙ append-nil (flatten (branch e l r))

-- After an entry `fs_next` goes to the next one of those that are pending, and to null at the end.
pub pending-fs_next : (p : Position) → pending p ≡ p.at ∷ pending_from (fs_next p)
pending-fs_next p = ap (λ es. p.at ∷ es) (pending-next p.at p.left p.right p.parents)

-- The entries that are met by calls of `fs_next` until it returns null, `f` at most.
pub visit : (f : ℕ) → Option Position → List Entry
visit zero p = []
visit (suc f) none = []
visit (suc f) (some p) = p.at ∷ visit f (fs_next p)

visit-pending :
    (f : ℕ) (p : Option Position) → length (pending_from p) ≤ f → visit f p ≡ pending_from p
unfolding visit
visit-pending zero none enough = refl
visit-pending zero (some p) enough = absurd (omega arith)
visit-pending (suc f) none enough = refl
visit-pending (suc f) (some p) enough =
    let next = pending-fs_next p in
    let shorter : length (pending_from (fs_next p)) ≤ f = omega (arith, ap length next, enough) in
    ap (λ es. p.at ∷ es) (visit-pending f (fs_next p) shorter) ∙ sym next

-- What `fs_first` finds, and the tree of the directory after it.
pub record IsListed (f : ℕ) (dir' : Entry) (r : Option (Option Position × Entry)) : Type 0 where
  pub first : Option Position
  pub run : r ≡ some (first, dir')
  pub all : length (flatten (root_of dir')) ≤ f → visit f first ≡ flatten (root_of dir')

-- If the directory can be filled, then from `fs_first` on as many calls of `fs_next` as it has
-- entries meet each entry of its tree once, from left to right.
pub fs_first-IsListed :
    (root_dev : Bool) (f : ℕ) (dir dir' : Entry)
    → assure_dir root_dev dir ≡ some dir'
    → IsListed f dir' (fs_first root_dev dir)
unfolding fs_first
fs_first-IsListed root_dev f dir dir' filled = record {
  first = leftmost_tree (root_of dir') [];
  run = rw filled refl;
  all = λ enough.
      let same = pending-first (root_of dir') in
      visit-pending f (leftmost_tree (root_of dir') []) (rw same enough) ∙ same;
}
