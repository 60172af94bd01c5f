-- ===== src/Vfs/Ops/Write.antt =====
-- What `write_file` does in the tree in memory.
use wasm_shell.Base.{
  ℕ, ◌≡◌, ◌≢◌, refl, sym, ap, ◌∙◌, none, some, inl, inr, List, [], ◌∷◌, ◌++◌, Str, arith, Result,
  ok, err, ◌>>=◌, ◌⊎◌,
}
use wasm_shell.Vfs.Path.{VfsError, not_found, is_a_dir, normalize_path}
use wasm_shell.Vfs.Path.Normal.{segments}
use wasm_shell.Vfs.Tree.{
  VfsNode, file, dir, device, DeviceKind, null, stdin, stdout, stderr, Entries, get, node_at,
  mem_read, mem_set_node,
}
use wasm_shell.Vfs.Tree.Walk.{NotBelow, node_at-append}
use wasm_shell.Vfs.Tree.Effects.{mem_set_node-found, mem_set_node-frame, mem_set_node-succeeds}
use wasm_shell.Vfs.Mount.{mounted}
use wasm_shell.Vfs.Ops.{Vfs, read_file, write_file, write_check, commit, stat}
use wasm_shell.Vfs.Ops.Unmounted.{
  node_of, read_file_free, write_file_free, read_file-Agree, stat-Agree,
}

-- The branches of the check.
module _ {X : Type 0} (path : Str) (at_once : Result VfsError (Unit {0}) → X) (go_on : X) where
  abbrev branch : Result VfsError VfsNode → X
  branch r = elim (write_check path r) [ some x ↦ at_once x | none ↦ go_on ]

  branch_cases :
      (r : Result VfsError VfsNode)
      → (branch r ≡ go_on)
        ⊎ ((e : VfsError) × (branch r ≡ at_once (err e)))
        ⊎ ((k : DeviceKind) × (r ≡ ok (device k)) × (branch r ≡ at_once (ok tt)))
  unfolding write_check
  branch_cases (ok (device null)) = inr (inr (null, refl, refl))
  branch_cases (ok (device stdin)) = inr (inr (stdin, refl, refl))
  branch_cases (ok (device stdout)) = inr (inr (stdout, refl, refl))
  branch_cases (ok (device stderr)) = inr (inr (stderr, refl, refl))
  branch_cases (ok (dir m)) = inr (inl (is_a_dir path, refl))
  branch_cases (ok (file b)) = inl refl
  branch_cases (err (not_found p)) = inl refl
  branch_cases (err e) = inr (inl (e, refl))

module _ {W : Type 0} (v : Vfs W) where
  pub commit_keeps :
      {A : Type 0} (P : Vfs W → Type 0) (r : Result VfsError (VfsNode × A))
      → P v
      → ((root' : VfsNode) (a : A) → r ≡ ok (root', a) → P (record v { root = root' }))
      → P (commit v r).0
  unfolding commit
  commit_keeps P (ok x) start keeps = keeps x.0 x.1 refl
  commit_keeps P (err e) start keeps = start

  pub commit-eq-ok :
      (r : Result VfsError (VfsNode × Unit {0})) (v' : Vfs W)
      → commit v r ≡ (v', ok tt)
      → (r ≡ ok (v'.root, tt)) × (v'.mounts ≡ v.mounts)
  unfolding commit
  commit-eq-ok (ok x) v' h = ground arith
  commit-eq-ok (err e) v' h = ground arith

  commit-err :
      (r : Result VfsError (VfsNode × Unit {0})) (e : VfsError)
      → (commit v r).1 ≡ err e
      → (commit v r).0 ≡ v
  unfolding commit
  commit-err (ok x) e h = cc
  commit-err (err x) e h = refl

module _ {W : Type 0} (v : Vfs W) (path : Str) (bytes : List ℕ)
    (free : mounted v.mounts (normalize_path path) ≡ none) where
  -- A write that succeeds put a file in place, or met a device.
  write_file-eq-ok :
      (v' : Vfs W)
      → write_file v path bytes ≡ (v', ok tt)
      → ((k : DeviceKind) → node_of v path ≢ ok (device k))
      → (mem_set_node v.root (normalize_path path) (file bytes) ≡ ok (v'.root, tt))
        × (v'.mounts ≡ v.mounts)
  write_file-eq-ok v' h no_device =
      let p = normalize_path path in
      let set = mem_set_node v.root p (file bytes) in
      let h' = sym (write_file_free v path free bytes) ∙ h in
      elim (branch_cases p (λ r. (v, r)) (commit v set) (node_of v path)) [
        | inl q ↦ commit-eq-ok v set v' (sym q ∙ h')
        | inr (inl (e, q)) ↦ ground (arith, sym q ∙ h')
        | inr (inr (k, d, q)) ↦ absurd (no_device k d)
      ]

  -- After a write that succeeds, on a path that belongs to no mount and names no device, the file reads as
  -- what was written, and the read changes nothing.
  pub read_file-write_file :
      (v' : Vfs W)
      → write_file v path bytes ≡ (v', ok tt)
      → ((k : DeviceKind) → node_of v path ≢ ok (device k))
      → read_file v' path ≡ (v', ok bytes)
  unfolding mem_read
  read_file-write_file v' h no_device =
      let (done, mounts) = write_file-eq-ok v' h no_device in
      rw
        (
          read_file_free v' path (rw mounts free),
          mem_set_node-found path v.root v'.root (file bytes) done (normalize_path path),
        )
        refl

  -- A write that fails, on a path that belongs to no mount, changes nothing.
  pub write_file_err :
      (e : VfsError) → (write_file v path bytes).1 ≡ err e → (write_file v path bytes).0 ≡ v
  write_file_err e h =
      let p = normalize_path path in
      let set = mem_set_node v.root p (file bytes) in
      rw (write_file_free v path free bytes)
        (elim (branch_cases p (λ r. (v, r)) (commit v set) (node_of v path)) [
          | inl q ↦
              rw q (
                commit-err v set e
                  (sym (ap (λ x. x.1) (write_file_free v path free bytes ∙ q)) ∙ h))
          | inr (inl (x, q)) ↦ rw q
          | inr (inr (k, d, q)) ↦ rw q
        ])

  -- A property that holds of the filesystem, and of it with the file in place, holds after the write.
  pub write_file_keeps :
      (P : Vfs W → Type 0)
      → P v
      → ((root' : VfsNode)
          → mem_set_node v.root (normalize_path path) (file bytes) ≡ ok (root', tt)
          → P (record v { root = root' }))
      → P (write_file v path bytes).0
  write_file_keeps P start keeps =
      let p = normalize_path path in
      let set = mem_set_node v.root p (file bytes) in
      rw (write_file_free v path free bytes)
        (elim (branch_cases p (λ r. (v, r)) (commit v set) (node_of v path)) [
          | inl q ↦ rw q (commit_keeps v P set start (λ root' a h. keeps root' h))
          | inr (inl (x, q)) ↦ rw q start
          | inr (inr (k, d, q)) ↦ rw q start
        ])

  -- A write to a path that belongs to no mount, whether it succeeds or not, leaves alone what a read and a
  -- stat give at every path of the tree in memory that is neither the written one nor below it.
  pub write_file-frame :
      (q : Str)
      → NotBelow (segments path) (segments q)
      → mounted v.mounts (normalize_path q) ≡ none
      → ((read_file (write_file v path bytes).0 q).1 ≡ (read_file v q).1)
        × ((stat (write_file v path bytes).0 q).1 ≡ (stat v q).1)
  write_file-frame q nb free_q =
      write_file_keeps
        (λ v'. ((read_file v' q).1 ≡ (read_file v q).1) × ((stat v' q).1 ≡ (stat v q).1))
        (refl, refl)
        (λ root' done.
          let agree =
            mem_set_node-frame path v.root root' (file bytes) done (segments q) (normalize_path q)
              nb in
          (
            read_file-Agree v (record v { root = root' }) q agree free_q refl,
            stat-Agree v (record v { root = root' }) q agree free_q refl,
          ))

-- The parent of a path: the directory `m` holds the entry `name`.
pub record HasParent {W : Type 0} (v : Vfs W) (path : Str) (m : Entries) (name : Str) : Type 0 where
  pub parent : List Str
  pub below : segments path ≡ parent ++ name ∷ []
  pub is_dir : node_at v.root parent (normalize_path path) ≡ ok (dir m)

module _ {W : Type 0} (v : Vfs W) (path : Str) (bytes : List ℕ)
    (free : mounted v.mounts (normalize_path path) ≡ none) (m : Entries) (name : Str)
    (in_dir : HasParent v path m name) where
  node_of-entry :
      (r : Result VfsError VfsNode)
      → node_at (dir m) (name ∷ []) (normalize_path path) ≡ r
      → node_of v path ≡ r
  node_of-entry r h =
      rw
        (
          in_dir.below,
          node_at-append v.root in_dir.parent (name ∷ []) (normalize_path path),
          in_dir.is_dir,
          ◌>>=◌,
        )
        h

  entry-checked :
      (get name m ≡ none) ⊎ ((old : List ℕ) × (get name m ≡ some (file old)))
      → write_check (normalize_path path) (node_of v path) ≡ none
  unfolding node_at write_check
  entry-checked (inl e) =
      rw (node_of-entry (err (not_found (normalize_path path))) (ground (arith, e)))
  entry-checked (inr (old, e)) = rw (node_of-entry (ok (file old)) (ground (arith, e)))

  -- A file can be made, or overwritten, in every directory of the tree in memory: where the path belongs to no
  -- mount, its parent is a directory, and the entry is missing or a file, the write succeeds and the bytes are
  -- read back.
  pub write_file-succeeds :
      (get name m ≡ none) ⊎ ((old : List ℕ) × (get name m ≡ some (file old)))
      → (v' : Vfs W) × (write_file v path bytes ≡ (v', ok tt))
        × (read_file v' path ≡ (v', ok bytes))
  unfolding mem_read commit
  write_file-succeeds entry =
      let (root', done) =
        mem_set_node-succeeds path in_dir.parent name in_dir.below v.root (file bytes)
          (normalize_path path) m in_dir.is_dir in
      (
        record v { root = root' },
        write_file_free v path free bytes ∙ ground (arith, entry-checked entry, done),
        rw
            (
              read_file_free (record v { root = root' }) path free,
              mem_set_node-found path v.root root' (file bytes) done (normalize_path path),
            )
            refl,
      )

-- What is written to a null device that belongs to no mount is dropped, and it reads as empty.
null_device :
    {W : Type 0} (v : Vfs W) (path : Str) (bytes : List ℕ)
    → mounted v.mounts (normalize_path path) ≡ none
    → node_of v path ≡ ok (device null)
    → (write_file v path bytes ≡ (v, ok tt)) × (read_file v path ≡ (v, ok []))
unfolding mem_read write_check
null_device v path bytes free e = (
  write_file_free v path free bytes ∙ ground (arith, e),
  read_file_free v path free ∙ ground (arith, e),
)
