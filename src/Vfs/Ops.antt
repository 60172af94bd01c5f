-- ===== src/Vfs/Ops.antt =====
-- The public operations of crates/wasm_shell/src/vfs.rs. Each returns the filesystem that it leaves, on an
-- error too, with its result.
pub mod Unmounted
pub mod Write
pub mod Dirs
pub mod Rename
use wasm_shell.Base.{
  ℕ, Bool, true, false, ◌||◌, Option, none, some, List, [], ◌∷◌, Str, codes, Result, ok, err, ◌>>=◌,
  if◌then◌else◌,
}
use wasm_shell.Vfs.Path.{VfsError, not_found, is_a_dir, mount, normalize_path, path_components}
use wasm_shell.Vfs.Tree.{
  VfsNode, file, dir, device, DeviceKind, null, stdin, stdout, stderr, end, Stat, node_at,
  mem_set_node, mem_mkdir, mem_mkdir_parents, mem_read, mem_list, mem_stat, mem_remove,
  mem_remove_node,
}
use wasm_shell.Vfs.Mount.{MountPoint, MountEntry, add_mount, find_mount, mounted}

pub record Vfs (W : Type 0) : Type 0 where
  pub root : VfsNode
  pub mounts : List (MountEntry W)
  pub host : W

-- What `write_file` does at the node that it finds: return at once, or go on.
unfoldable pub write_check : Str → Result VfsError VfsNode → Option (Result VfsError (Unit {0}))
write_check path (ok (device null)) = some (ok tt)
write_check path (ok (device k)) = some (ok tt)
write_check path (ok (dir m)) = some (err (is_a_dir path))
write_check path (ok (file bytes)) = none
write_check path (err (not_found p)) = none
write_check path (err e) = some (err e)

make_dirs : VfsNode → List Str → Result VfsError VfsNode
make_dirs root [] = ok root
make_dirs root (d ∷ ds) = mem_mkdir root d >>= λ r. make_dirs r.0 ds

make_devices : VfsNode → List (Str × DeviceKind) → Result VfsError VfsNode
make_devices root [] = ok root
make_devices root ((p, k) ∷ ds) = mem_set_node root p (device k) >>= λ r. make_devices r.0 ds

abbrev pub init_dirs : List Str
init_dirs =
    codes "/usr"
    ∷ codes "/usr/bin"
    ∷ codes "/usr/local"
    ∷ codes "/usr/local/bin"
    ∷ codes "/bin"
    ∷ codes "/etc"
    ∷ codes "/home"
    ∷ codes "/tmp"
    ∷ codes "/dev"
    ∷ []

abbrev pub init_devices : List (Str × DeviceKind)
init_devices =
    (codes "/dev/null", null)
    ∷ (codes "/dev/stdin", stdin)
    ∷ (codes "/dev/stdout", stdout)
    ∷ (codes "/dev/stderr", stderr)
    ∷ []

-- The tree of a new filesystem. An `expect` that fails is the error.
unfoldable pub init_root : Result VfsError VfsNode
unfolding make_dirs make_devices
init_root = make_dirs (dir end) init_dirs >>= λ root. make_devices root init_devices

module _ {W : Type 0} where
  -- Puts the new root in place, if there is one.
  unfoldable pub commit :
      {A : Type 0} → Vfs W → Result VfsError (VfsNode × A) → Vfs W × Result VfsError A
  commit v (ok r) = (record v { root = r.0 }, ok r.1)
  commit v (err e) = (v, err e)

  -- A callback's effect on the host.
  unfoldable pub with_host : {A : Type 0} → Vfs W → A × W → Vfs W × A
  with_host v r = (record v { host = r.1 }, r.0)

  unfoldable pub new_vfs : W → Result VfsError (Vfs W)
  unfolding init_root
  new_vfs host = init_root >>= λ root. ok (record { root = root; mounts = []; host = host })

  unfoldable pub mount_at : Vfs W → Str → MountPoint W → Vfs W
  unfolding add_mount
  mount_at v virtual_path point = record v { mounts = add_mount v.mounts virtual_path point }

  unfoldable pub read_file : Vfs W → Str → Vfs W × Result VfsError (List ℕ)
  unfolding with_host
  read_file v path =
      let p = normalize_path path in
      elim (mounted v.mounts p) [
        | some (point, rel) ↦ with_host v (point.read rel v.host)
        | none ↦ (v, mem_read v.root p)
      ]

  -- `write_file` in the tree in memory
  unfoldable pub mem_write : Vfs W → Str → List ℕ → Vfs W × Result VfsError (Unit {0})
  unfolding write_check commit
  mem_write v p bytes = elim (write_check p (node_at v.root (path_components p) p)) [
    | some r ↦ (v, r)
    | none ↦ commit v (mem_set_node v.root p (file bytes))
  ]

  unfoldable pub write_file : Vfs W → Str → List ℕ → Vfs W × Result VfsError (Unit {0})
  unfolding with_host mem_write
  write_file v path bytes =
      let p = normalize_path path in
      elim (mounted v.mounts p) [
        | some (point, rel) ↦ with_host v (point.write rel bytes v.host)
        | none ↦ mem_write v p bytes
      ]

  unfoldable pub list_dir : Vfs W → Str → Vfs W × Result VfsError (List Str)
  unfolding with_host
  list_dir v path =
      let p = normalize_path path in
      elim (mounted v.mounts p) [
        | some (point, rel) ↦ with_host v (point.list rel v.host)
        | none ↦ (v, mem_list v.root p)
      ]

  unfoldable pub stat : Vfs W → Str → Vfs W × Result VfsError Stat
  unfolding with_host
  stat v path =
      let p = normalize_path path in
      elim (mounted v.mounts p) [
        | some (point, rel) ↦ with_host v (point.stat rel v.host)
        | none ↦ (v, mem_stat v.root p)
      ]

  -- The mounts are not asked.
  unfoldable pub mkdir : Vfs W → Str → Bool → Vfs W × Result VfsError (Unit {0})
  unfolding commit
  mkdir v path parents =
      let p = normalize_path path in
      if parents
      then (let r = mem_mkdir_parents v.root p in (record v { root = r.0 }, r.1))
      else commit v (mem_mkdir v.root p)

  unfoldable pub remove : Vfs W → Str → Bool → Vfs W × Result VfsError (Unit {0})
  unfolding with_host commit
  remove v path recursive =
      let p = normalize_path path in
      elim (mounted v.mounts p) [
        | some (point, rel) ↦ with_host v (point.remove rel v.host)
        | none ↦ commit v (mem_remove v.root p recursive)
      ]

  is_mounted : Vfs W → Str → Bool
  is_mounted v p = elim (find_mount v.mounts p) [ some r ↦ true | none ↦ false ]

  -- The node is taken out first, and stays out if it cannot be put in.
  unfoldable pub rename : Vfs W → Str → Str → Vfs W × Result VfsError (Unit {0})
  unfolding is_mounted commit
  rename v from to =
      let p = normalize_path from in
      let q = normalize_path to in
      if is_mounted v p || is_mounted v q
      then (v, err (mount (codes "rename across mount points not supported")))
      else elim (mem_remove_node v.root p) [
        | ok r ↦ commit (record v { root = r.0 }) (mem_set_node r.0 q r.1)
        | err e ↦ (v, err e)
      ]

  unfoldable pub copy : Vfs W → Str → Str → Vfs W × Result VfsError (Unit {0})
  unfolding read_file write_file
  copy v from to =
      let r = read_file v (normalize_path from) in
      elim r.1 [ ok bytes ↦ write_file r.0 (normalize_path to) bytes | err e ↦ (r.0, err e) ]
