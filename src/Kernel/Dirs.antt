-- ===== src/Kernel/Dirs.antt =====
-- Directories of `kernel/src/fs/fs.c`: a search tree of entries by name, filled from the disk when it is
-- first used. The tree is modelled by the entries that it owns; `kalloc` always succeeds, and the order of
-- names is that of `strcmp`. `none` is a failed assertion or a null pointer that is followed.
pub mod Search
pub mod Order
pub mod Listing
pub mod Load
pub mod Path
use frosk_current.Prelude.{
  ℕ, zero, suc, ◌+◌, ◌-◌, ◌/◌, ◌%◌, ◌^◌, Bool, true, false, Option, none, some, List, [], ◌∷◌, ◌==◌,
  ◌&&◌, not, if◌then◌else◌, ◌>>=◌,
}
use frosk_current.Prelude.Int.{ℤ, pos, negsuc}
use frosk_current.Cstd.Str.Order.{order}
use frosk_current.Kernel.Files.{size_unknown}

-- What `resolve_node` reads of the file system on the disk: a file, directory or indirect node with
-- its type and name, and for a directory the nodes in it.
mutual
  pub data Node : Type 0 where
    node : (type : ℕ) → (name : List ℕ) → Nodes → Node

  pub data Nodes : Type 0 where
    nil : Nodes
    cons : Node → Nodes → Nodes

-- `fs_entry_t` with its union, and the tree of entries by `left` and `right`
mutual
  pub data Tree : Type 0 where
    leaf : Tree
    branch : Entry → (left right : Tree) → Tree

  pub data Entry : Type 0 where
    entry : (name : List ℕ) → (flags : ℕ) → Option Node → Body → Entry

  pub data Body : Type 0 where
    file : (contents size : ℕ) → Body
    directory : (root : Tree) → Body
    indirect : (dest : ℕ) → Body

abbrev pub name_of : Entry → List ℕ
name_of (entry name flags n body) = name

-- the flags FS_ENT_VIRTUAL, FS_ENT_PRESENT and FS_ENT_HASDATA
abbrev pub ent_virtual : ℕ
ent_virtual = 1

abbrev pub ent_present : ℕ
ent_present = 2

abbrev pub ent_has_data : ℕ
ent_has_data = 8

abbrev pub has_flag : (flag flags : ℕ) → Bool
has_flag flag flags = flags / flag % 2 == 1

-- `flags |= flag`
abbrev pub set_flag : (flag flags : ℕ) → ℕ
set_flag flag flags = if has_flag flag flags then flags else flags + flag

unfoldable pub create_entry : (name : List ℕ) → Body → Entry
create_entry name body = entry name 0 none body

-- The entry that `find` reaches.
unfoldable pub find : (name : List ℕ) → Tree → Option Entry
find name leaf = none
find name (branch x l r) = elim (order name (name_of x)) [
  | negsuc k ↦ find name l
  | pos zero ↦ some x
  | pos (suc k) ↦ find name r
]

-- The assignment to `*ent` after `find`: the new entry has no `left` and `right`.
unfoldable pub insert_entry : Entry → Tree → Tree
insert_entry e leaf = branch e leaf leaf
insert_entry e (branch x l r) = elim (order (name_of e) (name_of x)) [
  | negsuc k ↦ branch x (insert_entry e l) r
  | pos zero ↦ branch e leaf leaf
  | pos (suc k) ↦ branch x l (insert_entry e r)
]

-- An entry that was found and has changed.
pub update_entry : (name : List ℕ) → Entry → Tree → Tree
update_entry name e leaf = leaf
update_entry name e (branch x l r) = elim (order name (name_of x)) [
  | negsuc k ↦ branch x (update_entry name e l) r
  | pos zero ↦ branch e l r
  | pos (suc k) ↦ branch x l (update_entry name e r)
]

-- What `assure_dir` enters for a node; the types of nodes are those of entries.
unfoldable pub entry_of_node : Node → Option Entry
unfolding create_entry
entry_of_node (node type name nodes) =
    if type == 1
    then some (entry name 0 (some (node type name nodes)) (file 0 size_unknown))
    else if type == 2
    then some (entry name ent_has_data (some (node type name nodes)) (directory leaf))
    else if type == 3
    then some (entry name 0 (some (node type name nodes)) (indirect 0))
    else none

unfoldable pub load : Nodes → Tree → Option Tree
unfolding insert_entry
load nil t = some t
load (cons n ns) t = entry_of_node n >>= λ e. load ns (insert_entry e t)

-- the nodes in a directory node
abbrev pub nodes_of : Option Node → Option Nodes
nodes_of none = none
nodes_of (some (node type name nodes)) = if type == 2 then some nodes else none

-- the entries that are not there yet
unfoldable pub load_directory :
    (name : List ℕ) (flags : ℕ) → Option Node → (root : Tree) → Option Entry
unfolding load
load_directory name flags n root =
    if has_flag ent_has_data flags
    then (nodes_of n >>= λ ns. load ns root >>= λ root'.
        some (entry name (set_flag ent_present flags) n (directory root')))
    else none

-- `root_dev` says whether there is a root device.
unfoldable pub assure_dir : (root_dev : Bool) → Entry → Option Entry
unfolding load_directory
assure_dir root_dev (entry name flags n (file contents size)) = none
assure_dir root_dev (entry name flags n (indirect dest)) = none
assure_dir root_dev (entry name flags n (directory root)) =
    if root_dev && not (has_flag ent_present flags)
    then load_directory name flags n root
    else some (entry name flags n (directory root))

-- the tree of a directory, and the directory with another one
abbrev pub root_of : Entry → Tree
root_of (entry name flags n (directory root)) = root
root_of (entry name flags n (file contents size)) = leaf
root_of (entry name flags n (indirect dest)) = leaf

abbrev pub with_root : Entry → Tree → Entry
with_root (entry name flags n (directory root)) root' = entry name flags n (directory root')
with_root (entry name flags n (file contents size)) root' = entry name flags n (file contents size)
with_root (entry name flags n (indirect dest)) root' = entry name flags n (indirect dest)

-- the entry, if there is one, and the directory
pub fs_resolve : (root_dev : Bool) → (name : List ℕ) → Entry → Option (Option Entry × Entry)
fs_resolve root_dev name par =
    assure_dir root_dev par >>= λ par'. some (find name (root_of par'), par')

-- the directory with a new entry
abbrev pub enter : (root_dev : Bool) → Entry → Entry → Option Entry
enter root_dev e par =
    assure_dir root_dev par >>= λ par'. some (with_root par' (insert_entry e (root_of par')))

abbrev pub new_directory : (name : List ℕ) → (flags : ℕ) → Entry
new_directory name flags = entry name flags none (directory leaf)

pub fs_mkdir : (root_dev : Bool) → (name : List ℕ) → Entry → Option Entry
fs_mkdir root_dev name par = enter root_dev (new_directory name (ent_present + ent_has_data)) par

pub fs_mkvdir : (root_dev : Bool) → (name : List ℕ) → Entry → Option Entry
fs_mkvdir root_dev name par =
    enter root_dev (new_directory name (ent_virtual + ent_present + ent_has_data)) par

unfoldable pub fs_enter :
    (root_dev : Bool) → (name : List ℕ) → (contents size : ℕ) → Entry → Option Entry
fs_enter root_dev name contents size par =
    enter root_dev (entry name ent_virtual none (file contents size)) par

-- An entry with its subtrees and the chain of its parents, from the nearest one: where it hangs, the
-- parent, and the parent's other subtree.
pub data Step : Type 0 where
  went_left : (parent : Entry) → (right : Tree) → Step
  went_right : (left : Tree) → (parent : Entry) → Step

pub record Position : Type 0 where
  pub at : Entry
  pub left : Tree
  pub right : Tree
  pub parents : List Step

pub leftmost : Entry → (left right : Tree) → List Step → Position
leftmost e leaf r parents = record { at = e; left = leaf; right = r; parents = parents }
leftmost e (branch x l m) r parents = leftmost x l m (went_left e r ∷ parents)

-- for a tree that can be null
abbrev pub leftmost_tree : Tree → List Step → Option Position
leftmost_tree leaf parents = none
leftmost_tree (branch e l r) parents = some (leftmost e l r parents)

-- while (x->parent != NULL && x->parent->right == x), for an entry with the tree `t`
pub climb : Tree → List Step → Option Position
climb t [] = none
climb t (went_left e r ∷ parents) = some (record { at = e; left = t; right = r; parents = parents })
climb t (went_right l e ∷ parents) = climb (branch e l t) parents

pub fs_first : (root_dev : Bool) → Entry → Option (Option Position × Entry)
unfolding leftmost
fs_first root_dev dir =
    assure_dir root_dev dir >>= λ dir'. some (leftmost_tree (root_of dir') [], dir')

pub fs_next : Position → Option Position
unfolding leftmost climb
fs_next p = elim p.right [
  | leaf ↦ climb (branch p.at p.left leaf) p.parents
  | branch e l r ↦ some (leftmost e l r (went_right p.left p.at ∷ p.parents))
]

-- The names between the slashes of a path. A slash at the end adds none.
abbrev pub add_char : (c : ℕ) → List (List ℕ) → List (List ℕ)
add_char c [] = (c ∷ []) ∷ []
add_char c (p ∷ ps) = (c ∷ p) ∷ ps

pub parts : List ℕ → List (List ℕ)
parts [] = []
parts (c ∷ cs) = if c == b'/' then [] ∷ parts cs else add_char c (parts cs)

-- The entry, if there is one, and the entry from which the path leads with the directories on the way
-- filled. A name that is missing before the last one is a null pointer that is followed.
pub retrieve : (root_dev : Bool) → List (List ℕ) → Entry → Option (Option Entry × Entry)
retrieve root_dev [] x = some (some x, x)
retrieve root_dev (p ∷ ps) x = fs_resolve root_dev p x >>= λ r. elim (r.0) [
  | none ↦ elim ps [ [] ↦ some (none, r.1) | q ∷ qs ↦ none ]
  | some e ↦ retrieve root_dev ps e >>= λ s.
      some (s.0, with_root (r.1) (update_entry p (s.1) (root_of (r.1))))
]

-- the loop of `fs_retrieve`, from an entry that can be null
pub from_entry :
    (root_dev : Bool) → (name : List ℕ) → Option Entry → Option (Option Entry × Option Entry)
unfolding retrieve parts
from_entry root_dev name none = some (none, none)
from_entry root_dev name (some x) = retrieve root_dev (parts name) x >>= λ r. some (r.0, some (r.1))

-- `x` can be null. The result is the entry that was
-- found and the entry from which the path led.
pub fs_retrieve :
    (root_dev : Bool)
    → (name : List ℕ) → (root_dir : Entry) → Option Entry
    → Option (Option Entry × Option Entry)
unfolding from_entry
fs_retrieve root_dev [] root_dir none = some (none, none)
fs_retrieve root_dev [] root_dir (some x) = some (some x, some x)
fs_retrieve root_dev (c ∷ cs) root_dir x =
    if c == b'/' then from_entry root_dev cs (some root_dir) else from_entry root_dev (c ∷ cs) x
