-- ===== src/Vfs/Ops/Rename.antt =====
-- `rename` in crates/wasm_shell/src/vfs.rs, between paths of the tree in memory.
use wasm_shell.Base.{◌≡◌, ◌≢◌, refl, none, [], Str, arith, Result, ok, err}
use wasm_shell.Vfs.Path.{VfsError, not_found, normalize_path}
use wasm_shell.Vfs.Path.Normal.{segments}
use wasm_shell.Vfs.Tree.{VfsNode, node_at, mem_set_node, mem_remove_node}
use wasm_shell.Vfs.Tree.Effects.{
  mem_set_node-found, mem_remove_node-found, mem_remove_node-succeeds,
}
use wasm_shell.Vfs.Mount.{find_mount}
use wasm_shell.Vfs.Ops.{Vfs, rename, commit}
use wasm_shell.Vfs.Ops.Unmounted.{node_of}

module _ {W : Type 0} (v : Vfs W) (from to : Str)
    (from_free : find_mount v.mounts (normalize_path from) ≡ none)
    (to_free : find_mount v.mounts (normalize_path to) ≡ none) where
  -- A rename that succeeds, between paths on no mount, puts the node that stood at the old path at the new
  -- path.
  pub rename-found :
      (v' : Vfs W)
      → rename v from to ≡ (v', ok tt)
      → (n : VfsNode) × (node_of v from ≡ ok n) × (node_of v' to ≡ ok n)
  unfolding rename commit
  rename-found v' h = step (mem_remove_node v.root (normalize_path from)) refl
    where
      step :
          (r : Result VfsError (VfsNode × VfsNode))
          → mem_remove_node v.root (normalize_path from) ≡ r
          → (n : VfsNode) × (node_of v from ≡ ok n) × (node_of v' to ≡ ok n)
      step (err e) q = ground (arith, q)
      step (ok (root₁, n)) q =
          let done : mem_set_node root₁ (normalize_path to) n ≡ ok (v'.root, tt) =
            ground (arith, q) in
          (
            n,
            (mem_remove_node-found from v.root root₁ n q (normalize_path from)).0,
            mem_set_node-found to root₁ v'.root n done (normalize_path to),
          )

  -- A rename between paths on no mount that fails although a node below the root stood at the old path has
  -- lost it: nothing is found at the old path any more.
  pub rename_loses :
      (n : VfsNode) (e : VfsError)
      → node_of v from ≡ ok n
      → segments from ≢ []
      → (rename v from to).1 ≡ err e
      → node_of (rename v from to).0 from ≡ err (not_found (normalize_path from))
  unfolding rename commit
  rename_loses n e at ne h =
      let (root₁, removed) = mem_remove_node-succeeds from v.root n (normalize_path from) ne at in
      let gone = (mem_remove_node-found from v.root root₁ n removed (normalize_path from)).1 in
      step root₁ removed gone (mem_set_node root₁ (normalize_path to) n) refl
    where
      step :
          (root₁ : VfsNode)
          → mem_remove_node v.root (normalize_path from) ≡ ok (root₁, n)
          → node_at root₁ (segments from) (normalize_path from)
            ≡ err (not_found (normalize_path from))
          → (r : Result VfsError (VfsNode × Unit {0}))
          → mem_set_node root₁ (normalize_path to) n ≡ r
          → node_of (rename v from to).0 from ≡ err (not_found (normalize_path from))
      step root₁ removed gone (ok x) q = ground (arith, removed, q)
      step root₁ removed gone (err x) q =
          let left : (rename v from to).0.root ≡ root₁ = ground (arith, removed, q) in rw left gone
