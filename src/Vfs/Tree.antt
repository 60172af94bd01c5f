-- ===== src/Vfs/Tree.antt =====
-- The tree in memory of crates/wasm_shell/src/vfs.rs: its nodes, the walks down to a node, and the
-- private helpers `mem_*`. A `&mut` walk is `modify_at`, which puts the changed node back.
pub mod Lookup
pub mod Walk
pub mod Frame
pub mod Paths
pub mod Effects
use wasm_shell.Base.{
  ℕ, ◌+◌, Bool, true, false, Option, none, some, List, [], ◌∷◌, ◌++◌, Str, codes, str_eq, str_lt,
  length, Result, ok, err, ◌>>=◌, if◌then◌else◌,
}
use wasm_shell.Vfs.Path.{
  VfsError, not_found, not_a_dir, already_exists, permission_denied, is_a_dir, not_empty,
  invalid_path, slash, normalize_path, path_components, split_parent,
}

pub data DeviceKind : Type 0 where
  null stdin stdout stderr : DeviceKind

pub record Stat : Type 0 where
  pub is_file : Bool
  pub is_dir : Bool
  pub is_device : Bool
  pub size : ℕ

-- `Entries` is the `BTreeMap` of a directory, in the order of its keys.
mutual
  pub data VfsNode : Type 0 where
    file : List ℕ → VfsNode
    dir : Entries → VfsNode
    device : DeviceKind → VfsNode

  pub data Entries : Type 0 where
    end : Entries
    entry : Str → VfsNode → Entries → Entries

unfoldable pub get : Str → Entries → Option VfsNode
get k end = none
get k (entry j n m) = if str_eq k j then some n else get k m

unfoldable pub insert : Str → VfsNode → Entries → Entries
insert k n end = entry k n end
insert k n (entry j o m) =
    let rest = insert k n m in
    if str_eq k j
    then entry k n m
    else if str_lt k j
    then entry k n (entry j o m)
    else entry j o rest

unfoldable pub remove : Str → Entries → Entries
remove k end = end
remove k (entry j n m) = let rest = remove k m in if str_eq k j then rest else entry j n rest

unfoldable pub keys : Entries → List Str
keys end = []
keys (entry j n m) = j ∷ keys m

-- The child `c` of a node that must be a directory.
unfoldable pub child_of : VfsNode → Str → Str → Result VfsError VfsNode
child_of (dir m) c orig = elim (get c m) [ some n ↦ ok n | none ↦ err (not_found orig) ]
child_of (file bytes) c orig = err (not_a_dir orig)
child_of (device k) c orig = err (not_a_dir orig)

unfoldable pub put_child : Str → VfsNode → VfsNode → VfsNode
put_child c n (dir m) = dir (insert c n m)
put_child c n other = other

unfoldable pub node_at : VfsNode → List Str → Str → Result VfsError VfsNode
unfolding child_of
node_at root [] orig = ok root
node_at root (c ∷ cs) orig = child_of root c orig >>= λ child. node_at child cs orig

-- `node_at_mut`, followed by a change of the node found.
unfoldable pub modify_at :
    {A : Type 0}
    → VfsNode
    → List Str
    → Str
    → (VfsNode → Result VfsError (VfsNode × A))
    → Result VfsError (VfsNode × A)
unfolding child_of put_child
modify_at root [] orig change = change root
modify_at root (c ∷ cs) orig change = child_of root c orig >>= λ child.
    modify_at child cs orig change >>= λ r. ok (put_child c r.0 root, r.1)

-- The three changes of a parent directory.
unfoldable pub set_in : Str → Str → VfsNode → VfsNode → Result VfsError (VfsNode × Unit {0})
set_in parent name node (dir m) = ok (dir (insert name node m), tt)
set_in parent name node (file bytes) = err (not_a_dir parent)
set_in parent name node (device k) = err (not_a_dir parent)

unfoldable pub mkdir_in : Str → Str → Str → VfsNode → Result VfsError (VfsNode × Unit {0})
mkdir_in path parent name (dir m) = elim (get name m) [
  | some n ↦ err (already_exists path)
  | none ↦ ok (dir (insert name (dir end) m), tt)
]
mkdir_in path parent name (file bytes) = err (not_a_dir parent)
mkdir_in path parent name (device k) = err (not_a_dir parent)

unfoldable pub remove_in : Str → Str → Str → VfsNode → Result VfsError (VfsNode × VfsNode)
remove_in path parent name (dir m) = elim (get name m) [
  | some n ↦ ok (dir (remove name m), n)
  | none ↦ err (not_found path)
]
remove_in path parent name (file bytes) = err (not_a_dir parent)
remove_in path parent name (device k) = err (not_a_dir parent)

-- The helpers that fail change nothing, so they return the new root only on success.
unfoldable pub mem_set_node : VfsNode → Str → VfsNode → Result VfsError (VfsNode × Unit {0})
unfolding set_in
mem_set_node root path node =
    let path' = normalize_path path in
    if str_eq path' slash
    then err (invalid_path (codes "cannot overwrite root"))
    else (split_parent path' >>= λ r.
        modify_at root (path_components r.0) r.0 (set_in r.0 r.1 node))

unfoldable pub mem_mkdir : VfsNode → Str → Result VfsError (VfsNode × Unit {0})
unfolding mkdir_in
mem_mkdir root path =
    let path' = normalize_path path in
    if str_eq path' slash
    then ok (root, tt)
    else (split_parent path' >>= λ r.
        modify_at root (path_components r.0) r.0 (mkdir_in path' r.0 r.1))

unfoldable pub mem_remove_node : VfsNode → Str → Result VfsError (VfsNode × VfsNode)
unfolding remove_in
mem_remove_node root path =
    split_parent path >>= λ r. modify_at root (path_components r.0) r.0 (remove_in path r.0 r.1)

unfoldable pub read_node : Str → VfsNode → Result VfsError (List ℕ)
read_node path (file bytes) = ok bytes
read_node path (dir m) = err (is_a_dir path)
read_node path (device null) = ok []
read_node path (device k) = err (permission_denied path)

unfoldable pub list_node : Str → VfsNode → Result VfsError (List Str)
list_node path (dir m) = ok (keys m)
list_node path (file bytes) = err (not_a_dir path)
list_node path (device k) = err (not_a_dir path)

unfoldable pub stat_node : VfsNode → Stat
stat_node (file bytes) = record {
  is_file = true;
  is_dir = false;
  is_device = false;
  size = length bytes;
}
stat_node (dir m) = record { is_file = false; is_dir = true; is_device = false; size = 0 }
stat_node (device k) = record { is_file = false; is_dir = false; is_device = true; size = 0 }

unfoldable pub mem_read : VfsNode → Str → Result VfsError (List ℕ)
unfolding read_node
mem_read root path = node_at root (path_components path) path >>= read_node path

unfoldable pub mem_list : VfsNode → Str → Result VfsError (List Str)
unfolding list_node
mem_list root path = node_at root (path_components path) path >>= list_node path

unfoldable pub mem_stat : VfsNode → Str → Result VfsError Stat
unfolding stat_node
mem_stat root path = node_at root (path_components path) path >>= λ n. ok (stat_node n)

-- `unwrap_or_default` of the listing, and whether it is empty
unfoldable pub has_entries : Result VfsError (List Str) → Bool
has_entries (ok []) = false
has_entries (ok (k ∷ ks)) = true
has_entries (err e) = false

unfoldable pub mem_remove : VfsNode → Str → Bool → Result VfsError (VfsNode × Unit {0})
unfolding has_entries
mem_remove root path recursive =
    if (if recursive then false else has_entries (mem_list root path))
    then err (not_empty path)
    else (mem_remove_node root path >>= λ r. ok (r.0, tt))

-- one round of `mem_mkdir_parents`: the directory `next`, made if it is not there
unfoldable pub ensure_dir :
    VfsNode → Str → Result VfsError Stat → Result VfsError (VfsNode × Unit {0})
ensure_dir root next (ok s) = if s.is_dir then ok (root, tt) else err (not_a_dir next)
ensure_dir root next (err (not_found p)) = mem_mkdir root next
ensure_dir root next (err e) = err e

abbrev pub next_path : Str → Str → Str
next_path cur comp = if str_eq cur slash then slash ++ comp else cur ++ (slash ++ comp)

-- The directories that were made before an error stay.
unfoldable pub mkdir_each : VfsNode → Str → List Str → VfsNode × Result VfsError (Unit {0})
mkdir_each root cur [] = (root, ok tt)
mkdir_each root cur (comp ∷ comps) =
    let next = next_path cur comp in
    elim (ensure_dir root next (mem_stat root next)) [
      | ok r ↦ mkdir_each r.0 next comps
      | err e ↦ (root, err e)
    ]

unfoldable pub mem_mkdir_parents : VfsNode → Str → VfsNode × Result VfsError (Unit {0})
unfolding mkdir_each ensure_dir
mem_mkdir_parents root path = mkdir_each root slash (path_components path)
