-- ===== src/Vfs/Tree/Paths.antt =====
-- The helpers `mem_*` at a normalized path, by its segments.
use wasm_shell.Base.{
  ◌≡◌, ◌≢◌, refl, ap, ◌∙◌, subst, List, [], ◌∷◌, ◌++◌, Str, codes, arith, ok, err, ◌>>=◌, All,
  All-of_append,
}
use wasm_shell.Vfs.Path.{invalid_path, slash, normalize_path, render_path, split_parent}
use wasm_shell.Vfs.Path.Normal.{
  IsPlain, segments, segments-IsPlain, normalize_path-segments, normalize_path_idem,
  path_components-normalize_path, path_components-render_path, split_parent-render_path,
  render_path-append_one-ne, render_path-nil,
}
use wasm_shell.Vfs.Tree.{
  VfsNode, node_at, modify_at, set_in, mkdir_in, remove_in, mem_set_node, mem_mkdir,
  mem_remove_node, mem_read, mem_stat, mem_list, read_node, stat_node, list_node,
}

module _ (root : VfsNode) (path : Str) where
  pub mem_read-segments :
      mem_read root (normalize_path path)
      ≡ (node_at root (segments path) (normalize_path path) >>= read_node (normalize_path path))
  unfolding mem_read
  mem_read-segments = rw (path_components-normalize_path path) refl

  pub mem_stat-segments :
      mem_stat root (normalize_path path)
      ≡ (node_at root (segments path) (normalize_path path) >>= λ n. ok (stat_node n))
  unfolding mem_stat
  mem_stat-segments = rw (path_components-normalize_path path) refl

  pub mem_list-segments :
      mem_list root (normalize_path path)
      ≡ (node_at root (segments path) (normalize_path path) >>= list_node (normalize_path path))
  unfolding mem_list
  mem_list-segments = rw (path_components-normalize_path path) refl

-- A path below the root: `cs` leads to the parent directory, and `name` is the entry in it.
module _ (path : Str) (cs : List Str) (name : Str) (below : segments path ≡ cs ++ name ∷ []) where
  plain : All IsPlain cs × IsPlain name
  plain =
      let (a, b) =
        All-of_append IsPlain cs (name ∷ []) (subst (All IsPlain) below (segments-IsPlain path)) in
      (a, b.0)

  at_path : normalize_path path ≡ render_path (cs ++ name ∷ [])
  at_path = normalize_path-segments path ∙ ap render_path below

  pub normalize_path-ne-slash : normalize_path path ≢ slash
  normalize_path-ne-slash = rw at_path (render_path-append_one-ne cs name plain.1)

  pub split_parent-below : split_parent (normalize_path path) ≡ ok (render_path cs, name)
  split_parent-below = rw at_path (split_parent-render_path cs name plain.1)

  pub mem_set_node-below :
      (root node : VfsNode)
      → mem_set_node root (normalize_path path) node
        ≡ modify_at root cs (render_path cs) (set_in (render_path cs) name node)
  unfolding mem_set_node
  mem_set_node-below root node = rw (normalize_path_idem path) (
      ground (
        arith,
        normalize_path-ne-slash,
        split_parent-below,
        path_components-render_path cs plain.0,
      ))

  pub mem_mkdir-below :
      (root : VfsNode)
      → mem_mkdir root (normalize_path path)
        ≡ modify_at root cs (render_path cs) (mkdir_in (normalize_path path) (render_path cs) name)
  unfolding mem_mkdir
  mem_mkdir-below root = rw (normalize_path_idem path) (
      ground (
        arith,
        normalize_path-ne-slash,
        split_parent-below,
        path_components-render_path cs plain.0,
      ))

  pub mem_remove_node-below :
      (root : VfsNode)
      → mem_remove_node root (normalize_path path)
        ≡ modify_at root cs (render_path cs) (remove_in (normalize_path path) (render_path cs) name)
  unfolding mem_remove_node
  mem_remove_node-below root =
      ground (arith, split_parent-below, path_components-render_path cs plain.0)

-- At the root.
module _ (path : Str) (at_root : segments path ≡ []) where
  pub normalize_path-eq-slash : normalize_path path ≡ slash
  normalize_path-eq-slash = normalize_path-segments path ∙ ap render_path at_root ∙ render_path-nil

  pub mem_set_node_root :
      (root node : VfsNode)
      → mem_set_node root (normalize_path path) node
        ≡ err (invalid_path (codes "cannot overwrite root"))
  unfolding mem_set_node
  mem_set_node_root root node =
      rw (normalize_path_idem path) (ground (arith, normalize_path-eq-slash))

  pub mem_mkdir_root : (root : VfsNode) → mem_mkdir root (normalize_path path) ≡ ok (root, tt)
  unfolding mem_mkdir
  mem_mkdir_root root = rw (normalize_path_idem path) (ground (arith, normalize_path-eq-slash))

  pub mem_remove_node_root :
      (root : VfsNode)
      → mem_remove_node root (normalize_path path) ≡ err (invalid_path (codes "no parent of root"))
  unfolding mem_remove_node split_parent
  mem_remove_node_root root = ground (arith, normalize_path-eq-slash)
