-- ===== src/Kernel/Dirs/Path.antt =====
-- `fs_retrieve` follows a path of names.
use mathlib.Core.Option.{some-injective}
use mathlib.Core.Path.{subst}
use frosk_current.Prelude.{
  ℕ, ◌≡◌, Bool, false, ◌==◌, Option, none, some, List, [], ◌∷◌, ◌++◌, refl, sym, ◌∙◌, ap, bind-some,
}
use frosk_current.Kernel.Dirs.{
  Tree, Entry, entry, file, directory, indirect, root_of, with_root, find, update_entry,
  insert_entry, assure_dir, fs_resolve, add_char, retrieve, parts, ent_virtual, fs_retrieve,
  fs_enter,
}
use frosk_current.Kernel.Dirs.Load.{IsFilled, IsFilled-assure_dir, assure_dir-IsFilled}
use frosk_current.Kernel.Dirs.Search.{update_entry-find, find-insert_entry}

-- What is reached from an entry by the names, through directories that are filled.
abbrev pub Leads : (root_dev : Bool) → List (List ℕ) → Entry → Entry → Type 0
Leads root_dev [] x z = x ≡ z
Leads root_dev (p ∷ ps) x z =
    (y : Entry) × IsFilled root_dev x × (find p (root_of x) ≡ some y) × Leads root_dev ps y z

with_root-same : (x : Entry) → with_root x (root_of x) ≡ x
with_root-same (entry name flags n (file c s)) = refl
with_root-same (entry name flags n (directory root)) = refl
with_root-same (entry name flags n (indirect d)) = refl

retrieve-Leads :
    (root_dev : Bool) (ps : List (List ℕ)) (x z : Entry)
    → Leads root_dev ps x z
    → retrieve root_dev ps x ≡ some (some z, x)
unfolding retrieve fs_resolve
retrieve-Leads root_dev [] x z e = ap (λ y. some (some y, x)) e
retrieve-Leads root_dev (p ∷ ps) x z (y, filled, found, rest) =
    let same : with_root x (update_entry p y (root_of x)) ≡ x =
      ap (with_root x) (update_entry-find p y (root_of x) found) ∙ with_root-same x in
    rw (IsFilled-assure_dir root_dev x filled, found, retrieve-Leads root_dev ps y z rest)
      (ap (λ x'. some (some z, x')) same)

-- If the names of an absolute path lead from the root to an entry through directories that are
-- filled, then `fs_retrieve` finds this entry, whatever the current directory, and changes nothing.
pub fs_retrieve-Leads :
    (root_dev : Bool) (name : List ℕ) (root z : Entry) (cd : Option Entry)
    → Leads root_dev (parts name) root z
    → fs_retrieve root_dev (b'/' ∷ name) root cd ≡ some (some z, some root)
unfolding fs_retrieve
fs_retrieve-Leads root_dev name root z cd leads =
    rw (retrieve-Leads root_dev (parts name) root z leads) refl

-- a name without a slash
abbrev pub IsName : List ℕ → Type 0
IsName [] = Unit
IsName (c ∷ cs) = ((c == b'/') ≡ false) × IsName cs

-- The names of a path that is put together from one without a slash at its end and another.
pub parts-append : (a b : List ℕ) → IsName a → parts (a ++ (b'/' ∷ b)) ≡ a ∷ parts b
unfolding parts
parts-append [] b name = refl
parts-append (c ∷ a) b (plain, name) = rw plain (ap (add_char c) (parts-append a b name))

-- what a filled directory is with another tree
with_root-IsFilled :
    (root_dev : Bool) (x : Entry) (t : Tree)
    → IsFilled root_dev x
    → IsFilled root_dev (with_root x t) × (root_of (with_root x t) ≡ t)
with_root-IsFilled root_dev (entry name flags n (file c s)) t h = absurd h
with_root-IsFilled root_dev (entry name flags n (directory root)) t h = (h, refl)
with_root-IsFilled root_dev (entry name flags n (indirect d)) t h = absurd h

parts-name : (c : ℕ) (cs : List ℕ) → IsName (c ∷ cs) → parts (c ∷ cs) ≡ (c ∷ cs) ∷ []
unfolding parts
parts-name c [] (plain, rest) = rw plain refl
parts-name c (d ∷ cs) (plain, rest) = rw plain (ap (add_char c) (parts-name d cs rest))

-- A file that is entered in the root directory, under a name that is not empty and has no slash, is
-- what `fs_retrieve` finds for a slash and the name.
pub fs_enter-fs_retrieve :
    (root_dev : Bool) (c : ℕ) (cs : List ℕ) (contents size : ℕ) (root root' : Entry)
    (cd : Option Entry)
    → IsName (c ∷ cs)
    → fs_enter root_dev (c ∷ cs) contents size root ≡ some root'
    → fs_retrieve root_dev (b'/' ∷ c ∷ cs) root' cd
      ≡ some (some (entry (c ∷ cs) ent_virtual none (file contents size)), some root')
unfolding fs_enter
fs_enter-fs_retrieve root_dev c cs contents size root root' cd name run =
    let e = entry (c ∷ cs) ent_virtual none (file contents size) in
    let (par', filled, entered) = bind-some (assure_dir root_dev root) _ root' run in
    let (kept, tree) =
      with_root-IsFilled root_dev par' (insert_entry e (root_of par'))
        (assure_dir-IsFilled root_dev root par' filled) in
    let same : with_root par' (insert_entry e (root_of par')) ≡ root' =
      some-injective _ _ entered in
    let found : find (c ∷ cs) (root_of root') ≡ some e =
      ap (λ r. find (c ∷ cs) (root_of r)) (sym same)
      ∙ ap (find (c ∷ cs)) tree
      ∙ find-insert_entry e (root_of par') in
    fs_retrieve-Leads root_dev (c ∷ cs) root' e cd (
      subst (λ ps. Leads root_dev ps root' e) (sym (parts-name c cs name))
        (e, subst (IsFilled root_dev) same kept, found, refl))
