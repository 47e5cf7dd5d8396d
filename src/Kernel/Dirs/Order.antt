-- ===== src/Kernel/Dirs/Order.antt =====
-- The order of the names in a directory, and the entries that an insertion keeps.
use mathlib.Core.List.{append_assoc, append-nil}
use frosk_current.Prelude.{ℕ, zero, suc, ◌≡◌, List, [], ◌∷◌, ◌++◌, refl, sym, ◌∙◌, ap}
use frosk_current.Prelude.Int.{pos, negsuc}
use frosk_current.Cstd.Str.Order.{order, order_flip, order_less, order_more, Chars}
use frosk_current.Kernel.Dirs.{Tree, leaf, branch, Entry, name_of, insert_entry}
use frosk_current.Kernel.Dirs.Search.{compared, less, same, more}
use frosk_current.Kernel.Dirs.Listing.{flatten}

-- the tree below the entry of a name, with it
abbrev pub below : List ℕ → Tree → List Entry
below n leaf = []
below n (branch x l r) = elim (order n (name_of x)) [
  | negsuc k ↦ below n l
  | pos zero ↦ flatten (branch x l r)
  | pos (suc k) ↦ below n r
]

-- The entries before and after those of which the inserted one takes the place.
pub record IsReplaced (e : Entry) (t t' : Tree) (old : List Entry) : Type 0 where
  pub before : List Entry
  pub behind : List Entry
  pub was : flatten t ≡ before ++ (old ++ behind)
  pub now : flatten t' ≡ before ++ (e ∷ behind)

spread : {A : Type 0} (a b c d : List A) → a ++ (b ++ c) ++ d ≡ a ++ (b ++ (c ++ d))
spread a b c d = append_assoc a (b ++ c) d ∙ ap (λ t. a ++ t) (append_assoc b c d)

-- An inserted entry takes the place of all entries of the subtree below the entry of its name, if
-- there is one, and of none otherwise; the other entries stay in their order.
pub insert_entry-IsReplaced :
    (e : Entry) (t : Tree) → IsReplaced e t (insert_entry e t) (below (name_of e) t)
unfolding insert_entry
insert_entry-IsReplaced e leaf = record { before = []; behind = []; was = refl; now = refl }
insert_entry-IsReplaced e (branch x l r) = elim (compared (order (name_of e) (name_of x))) [
  | less k h ↦
      let rest = insert_entry-IsReplaced e l in
      let under : below (name_of e) l ≡ below (name_of e) (branch x l r) = rw (below, h) refl in
      rw (insert_entry, h)
        (record {
          before = rest.before;
          behind = rest.behind ++ (x ∷ flatten r);
          was =
              ap (λ es. es ++ (x ∷ flatten r)) rest.was
              ∙ spread rest.before (below (name_of e) l) rest.behind (x ∷ flatten r)
              ∙ ap (λ b. rest.before ++ (b ++ (rest.behind ++ (x ∷ flatten r)))) under;
          now =
              ap (λ es. es ++ (x ∷ flatten r)) rest.now
              ∙ append_assoc rest.before (e ∷ rest.behind) (x ∷ flatten r);
        })
  | same h ↦
      let under : flatten (branch x l r) ≡ below (name_of e) (branch x l r) = rw (below, h) refl in
      rw (insert_entry, h)
        (record {
          before = [];
          behind = [];
          was = sym (append-nil (flatten (branch x l r))) ∙ ap (λ b. b ++ []) under;
          now = refl;
        })
  | more k h ↦
      let rest = insert_entry-IsReplaced e r in
      let under : below (name_of e) r ≡ below (name_of e) (branch x l r) = rw (below, h) refl in
      rw (insert_entry, h)
        (record {
          before = flatten l ++ (x ∷ rest.before);
          behind = rest.behind;
          was =
              ap (λ es. flatten l ++ (x ∷ es)) rest.was
              ∙ sym
                  (append_assoc (flatten l) (x ∷ rest.before) (below (name_of e) r ++ rest.behind))
              ∙ ap (λ b. flatten l ++ (x ∷ rest.before) ++ (b ++ rest.behind)) under;
          now =
              ap (λ es. flatten l ++ (x ∷ es)) rest.now
              ∙ sym (append_assoc (flatten l) (x ∷ rest.before) (e ∷ rest.behind));
        })
]

-- every entry of the tree
abbrev pub Every : (Entry → Type 0) → Tree → Type 0
Every P leaf = Unit
Every P (branch x l r) = P x × Every P l × Every P r

-- the name of `a` is before that of `b`
abbrev pub Before : Entry → Entry → Type 0
Before a b = Chars (name_of a) × Chars (name_of b) × (order (name_of a) (name_of b) ≡ negsuc 0)

-- The names are strings, in their order from left to right.
abbrev pub IsOrdered : Tree → Type 0
IsOrdered leaf = Unit
IsOrdered (branch x l r) =
    Every (λ y. Before y x) l × Every (λ y. Before x y) r × IsOrdered l × IsOrdered r

Every-insert_entry :
    (P : Entry → Type 0) (e : Entry) (t : Tree) → P e → Every P t → Every P (insert_entry e t)
unfolding insert_entry
Every-insert_entry P e leaf h every = (h, tt, tt)
Every-insert_entry P e (branch x l r) h (hx, hl, hr) =
    elim (compared (order (name_of e) (name_of x))) [
      | less k c ↦ rw (insert_entry, c) (hx, Every-insert_entry P e l h hl, hr)
      | same c ↦ rw (insert_entry, c) (h, tt, tt)
      | more k c ↦ rw (insert_entry, c) (hx, hl, Every-insert_entry P e r h hr)
    ]

-- The names in a directory stay in order when an entry is inserted.
pub insert_entry-IsOrdered :
    (e : Entry) (t : Tree)
    → Chars (name_of e)
    → Every (λ y. Chars (name_of y)) t
    → IsOrdered t
    → IsOrdered (insert_entry e t)
unfolding insert_entry
insert_entry-IsOrdered e leaf chars all ordered = (tt, tt, tt, tt)
insert_entry-IsOrdered e (branch x l r) chars (cx, cl, cr) (hl, hr, ol, or) =
    elim (compared (order (name_of e) (name_of x))) [
      | less k c ↦
          rw (insert_entry, c)
            (
              Every-insert_entry (λ y. Before y x) e l
                  (chars, cx, order_less (name_of e) (name_of x) k c) hl,
              hr,
              insert_entry-IsOrdered e l chars cl ol,
              or,
            )
      | same c ↦ rw (insert_entry, c) (tt, tt, tt, tt)
      | more k c ↦
          rw (insert_entry, c)
            (
              hl,
              Every-insert_entry (λ y. Before x y) e r
                  (
                    cx,
                    chars,
                    (order_flip (name_of x) (name_of e) cx chars).1
                        (order_more (name_of e) (name_of x) k c),
                  )
                  hr,
              ol,
              insert_entry-IsOrdered e r chars cr or,
            )
    ]
