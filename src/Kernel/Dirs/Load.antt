-- ===== src/Kernel/Dirs/Load.antt =====
-- `assure_dir` fills a directory from the nodes on the disk, once.
use mathlib.Core.Option.{some-injective, none-ne-some}
use mathlib.Core.Path.{subst}
use frosk_current.Prelude.{
  ℕ, ◌≡◌, ◌≢◌, ◌==◌, Bool, true, false, ◌&&◌, not, Option, none, some, List, refl, sym, ◌∙◌, ap,
  arith, bind-some, Bool-cases, inl, inr,
}
use frosk_current.Prelude.Int.{pos}
use frosk_current.Cstd.Str.Order.{order}
use frosk_current.Kernel.Dirs.Search.{find-insert_entry, find-insert_entry_other}
use frosk_current.Kernel.Dirs.{
  find, name_of, Tree, Entry, entry, file, directory, indirect, Node, Nodes, node, nil, cons,
  nodes_of, has_flag, set_flag, ent_present, ent_has_data, load, load_directory, assure_dir,
  insert_entry, entry_of_node,
}

-- a directory that is marked as present, or that needs no disk
abbrev pub IsFilled : (root_dev : Bool) → Entry → Type 0
IsFilled root_dev (entry name flags n (file contents size)) = ⊥
IsFilled root_dev (entry name flags n (directory root)) =
    (root_dev && not (has_flag ent_present flags)) ≡ false
IsFilled root_dev (entry name flags n (indirect dest)) = ⊥

pub IsFilled-assure_dir :
    (root_dev : Bool) (x : Entry) → IsFilled root_dev x → assure_dir root_dev x ≡ some x
unfolding assure_dir
IsFilled-assure_dir root_dev (entry name flags n (file contents size)) h = absurd h
IsFilled-assure_dir root_dev (entry name flags n (directory root)) h = rw h refl
IsFilled-assure_dir root_dev (entry name flags n (indirect dest)) h = absurd h

has_flag-set_flag : (flags : ℕ) → has_flag ent_present (set_flag ent_present flags) ≡ true
has_flag-set_flag flags = ground arith

present-IsFilled :
    (root_dev : Bool) (flags : ℕ)
    → has_flag ent_present flags ≡ true
    → (root_dev && not (has_flag ent_present flags)) ≡ false
present-IsFilled root_dev flags h = rw h (ground arith)

load_directory-IsFilled :
    (root_dev : Bool) (name : List ℕ) (flags : ℕ) (n : Option Node) (root : Tree) (x : Entry)
    → load_directory name flags n root ≡ some x
    → IsFilled root_dev x
unfolding load_directory
load_directory-IsFilled root_dev name flags n root x h =
    elim (Bool-cases (has_flag ent_has_data flags)) [
      | inl e ↦
          let (ns, found, h1) = bind-some (nodes_of n) _ x (rw e at h) in
          let (root', loaded, h2) = bind-some (load ns root) _ x h1 in
          subst (IsFilled root_dev) (some-injective _ _ h2)
            (present-IsFilled root_dev (set_flag ent_present flags) (has_flag-set_flag flags))
      | inr e ↦ absurd (none-ne-some x (rw e at h))
    ]

-- A directory is filled after `assure_dir`, if it returns.
pub assure_dir-IsFilled :
    (root_dev : Bool) (x x' : Entry) → assure_dir root_dev x ≡ some x' → IsFilled root_dev x'
unfolding assure_dir
assure_dir-IsFilled root_dev (entry name flags n (file contents size)) x' h =
    absurd (none-ne-some _ h)
assure_dir-IsFilled root_dev (entry name flags n (indirect dest)) x' h = absurd (none-ne-some _ h)
assure_dir-IsFilled root_dev (entry name flags n (directory root)) x' h =
    elim (Bool-cases (root_dev && not (has_flag ent_present flags))) [
      | inl e ↦ load_directory-IsFilled root_dev name flags n root x' (rw e at h)
      | inr e ↦ subst (IsFilled root_dev) (some-injective _ _ (rw e at h)) e
    ]

-- no node has the name
abbrev pub AreOther : List ℕ → Nodes → Type 0
AreOther n nil = Unit
AreOther n (cons (node type name inner) ns) =
    (order n name ≢ pos 0) × (order name n ≢ pos 0) × AreOther n ns

-- The nodes have names that differ from one another, and are not in the tree.
abbrev pub AreNew : Nodes → Tree → Type 0
AreNew nil t = Unit
AreNew (cons (node type name inner) ns) t = (find name t ≡ none) × AreOther name ns × AreNew ns t

-- every node has an entry in the tree
abbrev pub AreFound : Nodes → Tree → Type 0
AreFound nil t = Unit
AreFound (cons (node type name inner) ns) t =
    ((e : Entry) × (entry_of_node (node type name inner) ≡ some e) × (find name t ≡ some e))
    × AreFound ns t

entry_of_node-name :
    (type : ℕ) (name : List ℕ) (inner : Nodes) (e : Entry)
    → entry_of_node (node type name inner) ≡ some e
    → name_of e ≡ name
unfolding entry_of_node
entry_of_node-name type name inner e h = elim (Bool-cases (type == 1)) [
  | inl a ↦ ap name_of (sym (some-injective _ _ (rw a at h)))
  | inr a ↦ elim (Bool-cases (type == 2)) [
    | inl b ↦ ap name_of (sym (some-injective _ _ (rw (a, b) at h)))
    | inr b ↦ elim (Bool-cases (type == 3)) [
      | inl c ↦ ap name_of (sym (some-injective _ _ (rw (a, b, c) at h)))
      | inr c ↦ absurd (none-ne-some e (rw (a, b, c) at h))
    ]
  ]
]

AreNew-insert_entry :
    (e : Entry) (ns : Nodes) (t : Tree)
    → find (name_of e) t ≡ none
    → AreOther (name_of e) ns
    → AreNew ns t
    → AreNew ns (insert_entry e t)
AreNew-insert_entry e nil t new other all = tt
AreNew-insert_entry e (cons (node type name inner) ns) t new (_, differs, other)
      (absent, others, all) =
    (
      find-insert_entry_other name e t new differs ∙ absent,
      others,
      AreNew-insert_entry e ns t new other all,
    )

-- one step of `load`, for a node with a new name
module _ (type : ℕ) (name : List ℕ) (inner ns : Nodes) (t t' : Tree) (new : find name t ≡ none)
    (other : AreOther name ns) (all : AreNew ns t)
    (run : load (cons (node type name inner) ns) t ≡ some t') where
  load-step :
      (e : Entry) × (entry_of_node (node type name inner) ≡ some e)
      × (name_of e ≡ name)
      × (load ns (insert_entry e t) ≡ some t')
      × AreNew ns (insert_entry e t)
  unfolding load
  load-step =
      let (e, made, rest) = bind-some (entry_of_node (node type name inner)) _ t' run in
      let named = entry_of_node-name type name inner e made in
      let new' : find (name_of e) t ≡ none = ap (λ n. find n t) named ∙ new in
      let other' : AreOther (name_of e) ns = subst (λ n. AreOther n ns) (sym named) other in
      (e, made, named, rest, AreNew-insert_entry e ns t new' other' all)

load-keeps :
    (n : List ℕ) (ns : Nodes) (t t' : Tree)
    → load ns t ≡ some t'
    → AreOther n ns
    → AreNew ns t
    → find n t' ≡ find n t
unfolding load
load-keeps n nil t t' run other all = ap (find n) (sym (some-injective _ _ run))
load-keeps n (cons (node type name inner) ns) t t' run (differs, _, other) (new, others, all) =
    let (e, made, named, rest, all') = load-step type name inner ns t t' new others all run in
    let new' : find (name_of e) t ≡ none = ap (λ k. find k t) named ∙ new in
    let differs' : order n (name_of e) ≢ pos 0 = λ h. differs (ap (order n) (sym named) ∙ h) in
    load-keeps n ns (insert_entry e t) t' rest other all'
    ∙ find-insert_entry_other n e t new' differs'

-- If `load` returns, and the nodes have names that differ and are new, then the entry of every node
-- is found by its name.
pub load-AreFound : (ns : Nodes) (t t' : Tree) → load ns t ≡ some t' → AreNew ns t → AreFound ns t'
unfolding load
load-AreFound nil t t' run all = tt
load-AreFound (cons (node type name inner) ns) t t' run (new, others, all) =
    let (e, made, named, rest, all') = load-step type name inner ns t t' new others all run in
    let kept = load-keeps name ns (insert_entry e t) t' rest others all' in
    let found : find name (insert_entry e t) ≡ some e =
      ap (λ k. find k (insert_entry e t)) (sym named) ∙ find-insert_entry e t in
    ((e, made, kept ∙ found), load-AreFound ns (insert_entry e t) t' rest all')
