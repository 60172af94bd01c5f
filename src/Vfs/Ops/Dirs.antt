-- ===== src/Vfs/Ops/Dirs.antt =====
-- `mkdir`, with and without parents, and `remove`.
use wasm_shell.Base.{
  ◌≡◌, ◌≢◌, refl, sym, ap, ◌∙◌, subst, true, false, none, List, [], ◌∷◌, ◌++◌, append-nil,
  append_assoc, Str, arith, Result, ok, err, ◌>>=◌, Bool, All, All-append,
}
use wasm_shell.Vfs.Path.{
  VfsError, not_found, already_exists, not_empty, normalize_path, render_path,
}
use wasm_shell.Vfs.Path.Normal.{
  IsPlain, path_components-render_path, path_components-normalize_path, render_path-extend,
  segments, segments-IsPlain, segments-render_path, normalize_path-render_path,
  normalize_path-segments, render_path-nil,
}
use wasm_shell.Vfs.Tree.{
  VfsNode, file, dir, device, Entries, end, entry, keys, list_node, node_at, mem_stat, stat_node,
  mem_mkdir, mem_mkdir_parents, mkdir_each, ensure_dir, mem_list, mem_remove, mem_remove_node,
}
use wasm_shell.Vfs.Tree.Paths.{mem_list-segments}
use wasm_shell.Vfs.Tree.Effects.{mem_mkdir-found, mem_mkdir_exists, mem_remove_node-found}
use wasm_shell.Vfs.Mount.{mounted}
use wasm_shell.Vfs.Ops.{Vfs, mkdir, remove, commit, stat, list_dir}
use wasm_shell.Vfs.Ops.Write.{commit-eq-ok}
use wasm_shell.Vfs.Ops.Unmounted.{node_of, stat_free, list_dir_free}

module _ {W : Type 0} (v v' : Vfs W) (path : Str)
    (free : mounted v.mounts (normalize_path path) ≡ none) where
  mkdir-eq-ok :
      mkdir v path false ≡ (v', ok tt)
      → (mem_mkdir v.root (normalize_path path) ≡ ok (v'.root, tt)) × (v'.mounts ≡ v.mounts)
  unfolding mkdir commit
  mkdir-eq-ok h = ground arith

  -- A directory that was made, below the root and on no mount, is there and lists no entries.
  list_dir-mkdir :
      segments path ≢ [] → mkdir v path false ≡ (v', ok tt) → list_dir v' path ≡ (v', ok [])
  unfolding mem_list keys
  list_dir-mkdir ne h =
      let (done, mounts) = mkdir-eq-ok h in
      rw
        (
          list_dir_free v' path (rw mounts free),
          mem_mkdir-found path v.root v'.root done (normalize_path path) ne,
        )
        refl

module _ {W : Type 0} (v : Vfs W) (path : Str) where
  -- Making a directory below the root where something stands already in the tree in memory fails, and changes
  -- nothing.
  mkdir_exists :
      (n : VfsNode)
      → segments path ≢ []
      → node_of v path ≡ ok n
      → mkdir v path false ≡ (v, err (already_exists (normalize_path path)))
  unfolding mkdir commit
  mkdir_exists n ne at = ground (arith, mem_mkdir_exists path v.root n (normalize_path path) ne at)

-- `mkdir -p`: one round.
module _ (root root' : VfsNode) (segs : List Str) (plain : All IsPlain segs) (ne : segs ≢ []) where
  abbrev next : Str
  next = render_path segs

  ensure_cases :
      (r : Result VfsError VfsNode)
      → node_at root segs next ≡ r
      → ensure_dir root next (r >>= λ n. ok (stat_node n)) ≡ ok (root', tt)
      → (m : Entries) × (node_at root' segs next ≡ ok (dir m))
  unfolding ensure_dir stat_node
  ensure_cases (ok (dir m)) q h = (m, rw (← root_same) q)
    where
      root_same : root ≡ root'
      root_same = ground arith
  ensure_cases (ok (file b)) q h = cc
  ensure_cases (ok (device k)) q h = cc
  ensure_cases (err (not_found p)) q h =
      let same = normalize_path-render_path segs plain in
      let again = segments-render_path segs plain in
      (
        end,
        rw (← again) (
            mem_mkdir-found next root root' (rw same h) (render_path (segments next))
              (λ e. ne (sym again ∙ e))),
      )
  ensure_cases (err e) q h = cc

-- The round at a rendered path.
ensure_dir-dir :
    (root root' : VfsNode) (segs : List Str)
    → All IsPlain segs
    → segs ≢ []
    → ensure_dir root (render_path segs) (mem_stat root (render_path segs)) ≡ ok (root', tt)
    → (m : Entries) × (node_at root' segs (render_path segs) ≡ ok (dir m))
unfolding mem_stat
ensure_dir-dir root root' segs plain ne h =
    ensure_cases root root' segs plain ne (node_at root segs (render_path segs)) refl
      (rw (path_components-render_path segs plain) at h)

append_one-ne-nil : (acc : List Str) (c : Str) → acc ++ c ∷ [] ≢ []
append_one-ne-nil [] c p = cc
append_one-ne-nil (x ∷ acc) c p = cc

mkdir_each-dir :
    (comps acc : List Str) (root root' : VfsNode)
    → All IsPlain acc
    → All IsPlain comps
    → (m : Entries) × (node_at root acc (render_path acc) ≡ ok (dir m))
    → mkdir_each root (render_path acc) comps ≡ (root', ok tt)
    → (m : Entries) × (node_at root' (acc ++ comps) (render_path (acc ++ comps)) ≡ ok (dir m))
unfolding mkdir_each
mkdir_each-dir [] acc root root' pa pc (m, at) h =
    (m, rw (append-nil acc, ← (let e : root ≡ root' = ground arith in e)) at)
mkdir_each-dir (c ∷ comps) acc root root' pa pc at h =
    let next = render_path (acc ++ c ∷ []) in
    step (mkdir_each-dir comps (acc ++ c ∷ [])) (ensure_dir root next (mem_stat root next)) refl (
      subst
        (λ p.
          elim (ensure_dir root p (mem_stat root p)) [
            | ok x ↦ mkdir_each x.0 p comps
            | err e ↦ (root, err e)
          ]
          ≡ (root', ok tt))
        (render_path-extend acc c pa) h)
  where
    plain : All IsPlain (acc ++ c ∷ [])
    plain = All-append IsPlain acc (c ∷ []) pa (pc.0, tt)

    step :
        ((r r' : VfsNode)
          → All IsPlain (acc ++ c ∷ [])
          → All IsPlain comps
          → (m : Entries) × (node_at r (acc ++ c ∷ []) (render_path (acc ++ c ∷ [])) ≡ ok (dir m))
          → mkdir_each r (render_path (acc ++ c ∷ [])) comps ≡ (r', ok tt)
          → (m : Entries) × (node_at r'
                ((acc ++ c ∷ []) ++ comps)
                (render_path ((acc ++ c ∷ []) ++ comps))
              ≡ ok (dir m)))
        → (r : Result VfsError (VfsNode × Unit {0}))
        → ensure_dir root
            (render_path (acc ++ c ∷ []))
            (mem_stat root (render_path (acc ++ c ∷ [])))
          ≡ r
        → elim r [
          | ok x ↦ mkdir_each x.0 (render_path (acc ++ c ∷ [])) comps
          | err e ↦ (root, err e)
        ]
          ≡ (root', ok tt)
        → (m : Entries) × (node_at root' (acc ++ c ∷ comps) (render_path (acc ++ c ∷ comps))
            ≡ ok (dir m))
    step ih (err e) q g = ground arith
    step ih (ok (root₁, u)) q g =
        subst (λ segs. (m : Entries) × (node_at root' segs (render_path segs) ≡ ok (dir m)))
          (append_assoc acc (c ∷ []) comps)
          (ih root₁ root' plain pc.1
            (ensure_dir-dir root root₁ (acc ++ c ∷ []) plain (append_one-ne-nil acc c) q) g)

module _ {W : Type 0} (v v' : Vfs W) (path : Str) where
  mkdir_parents-eq-ok :
      mkdir v path true ≡ (v', ok tt)
      → mem_mkdir_parents v.root (normalize_path path) ≡ (v'.root, ok tt)
  unfolding mkdir
  mkdir_parents-eq-ok h = ground arith

  -- Where the root is a directory, after `mkdir -p` has succeeded the path is a directory.
  mkdir_parents-dir :
      (m : Entries)
      → v.root ≡ dir m
      → mkdir v path true ≡ (v', ok tt)
      → (m' : Entries) × (node_of v' path ≡ ok (dir m'))
  unfolding mem_mkdir_parents node_at
  mkdir_parents-dir m root_dir h =
      let done = mkdir_parents-eq-ok h in
      rw (normalize_path-segments path) (
        mkdir_each-dir (segments path) [] v.root v'.root tt (segments-IsPlain path)
          (m, ap ok root_dir) (rw render_path-nil (rw path_components-normalize_path at done)))

-- `remove`.
module _ {W : Type 0} (v : Vfs W) (path : Str) (recursive : Bool)
    (free : mounted v.mounts (normalize_path path) ≡ none) where
  remove-eq-ok :
      (v' : Vfs W)
      → remove v path recursive ≡ (v', ok tt)
      → (mem_remove v.root (normalize_path path) recursive ≡ ok (v'.root, tt))
        × (v'.mounts ≡ v.mounts)
  unfolding remove
  remove-eq-ok v' h =
      commit-eq-ok v (mem_remove v.root (normalize_path path) recursive) v' (rw (free, remove) at h)

  mem_remove-eq-ok :
      (root' : VfsNode)
      → mem_remove v.root (normalize_path path) recursive ≡ ok (root', tt)
      → (n : VfsNode) × (mem_remove_node v.root (normalize_path path) ≡ ok (root', n))
  unfolding mem_remove
  mem_remove-eq-ok root' h = step (mem_remove_node v.root (normalize_path path)) refl
    where
      step :
          (r : Result VfsError (VfsNode × VfsNode))
          → mem_remove_node v.root (normalize_path path) ≡ r
          → (n : VfsNode) × (mem_remove_node v.root (normalize_path path) ≡ ok (root', n))
      step (ok (a, n)) q = (n, ground (arith, q))
      step (err e) q = ground (arith, q)

  -- What was removed, from a path that belongs to no mount, is not found any more.
  pub stat-remove :
      (v' : Vfs W)
      → remove v path recursive ≡ (v', ok tt)
      → stat v' path ≡ (v', err (not_found (normalize_path path)))
  stat-remove v' h =
      let (done, mounts) = remove-eq-ok v' h in
      let (n, taken) = mem_remove-eq-ok v'.root done in
      rw
        (
          stat_free v' path (rw mounts free),
          (mem_remove_node-found path v.root v'.root n taken (normalize_path path)).1,
        )
        refl

listed :
    (root : VfsNode) (path name : Str) (n : VfsNode) (rest : Entries)
    → node_at root (segments path) (normalize_path path) ≡ ok (dir (entry name n rest))
    → mem_list root (normalize_path path) ≡ ok (name ∷ keys rest)
unfolding list_node keys
listed root path name n rest at = mem_list-segments root path ∙ rw at refl

-- Without `recursive` a directory on no mount that holds an entry is refused, and nothing changes.
remove_not_empty :
    {W : Type 0} (v : Vfs W) (path name : Str) (n : VfsNode) (rest : Entries)
    → mounted v.mounts (normalize_path path) ≡ none
    → node_of v path ≡ ok (dir (entry name n rest))
    → remove v path false ≡ (v, err (not_empty (normalize_path path)))
unfolding remove commit mem_remove
remove_not_empty v path name n rest free at =
    ground (arith, free, listed v.root path name n rest at)
