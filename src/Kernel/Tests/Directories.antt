-- ===== src/Kernel/Tests/Directories.antt =====
-- Directories and paths.
use frosk_current.Prelude.{◌≡◌, true, refl, [], ◌∷◌, none, some, arith}
use frosk_current.Prelude.Memory.{memory_of}
use frosk_current.Cstd.Str.Order.{order}
use frosk_current.Kernel.Files.{size_unknown}
use frosk_current.Kernel.Dirs.{
  entry_of_node, Tree, leaf, branch, Entry, entry, file, directory, Nodes, node, nil, cons, find,
  insert_entry, load, name_of, ent_virtual, ent_present, assure_dir, fs_first, fs_enter,
  fs_retrieve, load,
}
use frosk_current.Kernel.Dirs.Order.{
  IsReplaced, below, insert_entry-IsReplaced, IsOrdered, insert_entry-IsOrdered,
}
use frosk_current.Kernel.Dirs.Listing.{IsListed, fs_first-IsListed}
use frosk_current.Kernel.Dirs.Load.{AreFound, load-AreFound}
use frosk_current.Kernel.Dirs.Path.{fs_enter-fs_retrieve}
use frosk_current.Kernel.PathParse.{parse_path, parse_path_endless}

abbrev entry_b : Entry
entry_b = entry (b'b' ∷ []) ent_virtual none (file 0 0)

abbrev entry_a : Entry
entry_a = entry (b'a' ∷ []) ent_virtual none (file 5 6)

-- "b", and "c" behind it
abbrev tree : Tree
tree = branch entry_b leaf (branch (entry (b'c' ∷ []) ent_virtual none (file 1 1)) leaf leaf)

abbrev dir : Entry
dir = entry [] ent_present none (directory tree)

-- "b" hides "c" when it is entered again.
insert_entry-IsReplaced_example :
    IsReplaced entry_b tree (insert_entry entry_b tree) (below (name_of entry_b) tree)
insert_entry-IsReplaced_example = insert_entry-IsReplaced entry_b tree

tree-IsOrdered : IsOrdered tree
unfolding order
tree-IsOrdered = (
  tt,
  (((omega arith, omega arith, tt), (omega arith, omega arith, tt), refl), tt, tt),
  tt,
  (tt, tt, tt, tt),
)

insert_entry-IsOrdered_example : IsOrdered (insert_entry entry_a tree)
insert_entry-IsOrdered_example =
    insert_entry-IsOrdered entry_a tree (omega arith, omega arith, tt)
      ((omega arith, omega arith, tt), tt, ((omega arith, omega arith, tt), tt, tt)) tree-IsOrdered

dir-filled : assure_dir true dir ≡ some dir
unfolding assure_dir
dir-filled = refl

fs_first-IsListed_example : IsListed 2 dir (fs_first true dir)
fs_first-IsListed_example = fs_first-IsListed true 2 dir dir dir-filled

-- "b", a file
abbrev nodes : Nodes
nodes = cons (node 1 (b'b' ∷ []) nil) nil

abbrev loaded : Tree
loaded =
    branch (entry (b'b' ∷ []) 0 (some (node 1 (b'b' ∷ []) nil)) (file 0 size_unknown)) leaf leaf

nodes-loaded : load nodes leaf ≡ some loaded
unfolding load entry_of_node
nodes-loaded = refl

nodes-new : find (b'b' ∷ []) leaf ≡ none
unfolding find
nodes-new = refl

load-AreFound_example : AreFound nodes loaded
load-AreFound_example = load-AreFound nodes leaf loaded nodes-loaded (nodes-new, tt, tt)

abbrev dir' : Entry
dir' = entry [] ent_present none (directory (insert_entry entry_a tree))

dir-entered : fs_enter true (b'a' ∷ []) 5 6 dir ≡ some dir'
unfolding fs_enter assure_dir
dir-entered = refl

fs_enter-fs_retrieve_example :
    fs_retrieve true (b'/' ∷ b'a' ∷ []) dir' none ≡ some (some entry_a, some dir')
fs_enter-fs_retrieve_example =
    fs_enter-fs_retrieve true b'a' [] 5 6 dir dir' none (refl, tt) dir-entered

-- "a/"
parse_path_endless_example : parse_path 100 (memory_of (b'a' ∷ b'/' ∷ [])) 0 ≡ none
parse_path_endless_example =
    parse_path_endless 100 (memory_of (b'a' ∷ b'/' ∷ [])) 0 (b'a' ∷ []) (refl, refl, tt) refl
