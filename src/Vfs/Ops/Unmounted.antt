-- ===== src/Vfs/Ops/Unmounted.antt =====
-- The public operations at a path that belongs to no mount: the helpers of the tree in memory.
use wasm_shell.Base.{◌≡◌, refl, sym, none, some, List, Str, Result, ok, ◌>>=◌, ℕ}
use wasm_shell.Vfs.Path.{VfsError, normalize_path}
use wasm_shell.Vfs.Path.Normal.{segments, path_components-normalize_path}
use wasm_shell.Vfs.Tree.{
  VfsNode, file, node_at, read_node, stat_node, list_node, mem_set_node, mem_read, mem_stat,
}
use wasm_shell.Vfs.Tree.Paths.{mem_read-segments, mem_stat-segments, mem_list-segments}
use wasm_shell.Vfs.Tree.Frame.{Agree, Agree-observed}
use wasm_shell.Vfs.Mount.{mounted}
use wasm_shell.Vfs.Ops.{Vfs, read_file, write_file, write_check, mem_write, commit, stat, list_dir}

-- The node at a path of the tree in memory.
abbrev pub node_of : {W : Type 0} → Vfs W → Str → Result VfsError VfsNode
node_of v path = node_at v.root (segments path) (normalize_path path)

module _ {W : Type 0} (v : Vfs W) (path : Str)
    (free : mounted v.mounts (normalize_path path) ≡ none) where
  pub read_file_free : read_file v path ≡ (v, node_of v path >>= read_node (normalize_path path))
  unfolding read_file
  read_file_free = rw (free, read_file, mem_read-segments v.root path) refl

  pub stat_free : stat v path ≡ (v, node_of v path >>= λ n. ok (stat_node n))
  unfolding stat
  stat_free = rw (free, stat, mem_stat-segments v.root path) refl

  pub list_dir_free : list_dir v path ≡ (v, node_of v path >>= list_node (normalize_path path))
  unfolding list_dir
  list_dir_free = rw (free, list_dir, mem_list-segments v.root path) refl

  pub write_file_free :
      (bytes : List ℕ)
      → write_file v path bytes ≡ elim (write_check (normalize_path path) (node_of v path)) [
        | some r ↦ (v, r)
        | none ↦ commit v (mem_set_node v.root (normalize_path path) (file bytes))
      ]
  unfolding write_file
  write_file_free bytes = rw (free, write_file, mem_write, path_components-normalize_path path) refl

-- What a read and a stat see does not tell one directory from another.
module _ {W : Type 0} (v v' : Vfs W) (path : Str) (agree : Agree (node_of v path) (node_of v' path))
    (free : mounted v.mounts (normalize_path path) ≡ none)
    (same_mounts : v'.mounts ≡ v.mounts) where
  pub read_file-Agree : (read_file v' path).1 ≡ (read_file v path).1
  unfolding mem_read
  read_file-Agree =
      rw (read_file_free v path free, read_file_free v' path (rw same_mounts free))
        (sym (Agree-observed (λ r. r >>= read_node (normalize_path path)) (λ m m'. refl) agree))

  pub stat-Agree : (stat v' path).1 ≡ (stat v path).1
  unfolding mem_stat
  stat-Agree =
      rw (stat_free v path free, stat_free v' path (rw same_mounts free))
        (sym (Agree-observed (λ r. r >>= λ n. ok (stat_node n)) (λ m m'. refl) agree))
