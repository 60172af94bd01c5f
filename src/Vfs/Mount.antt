-- ===== src/Vfs/Mount.antt =====
-- The mounts of crates/wasm_shell/src/vfs.rs: the host's callbacks, the table of mounts, and the search
-- for the mount that a path belongs to. What a callback does to the host is a change of a value of `W`.
pub mod Longest
pub mod Added
pub mod Root
use wasm_shell.Base.Utf8.{byte_len}
use wasm_shell.Base.{
  ℕ, suc, ◌+◌, Bool, false, ◌&&◌, Option, none, some, List, [], ◌∷◌, ◌++◌, Str, str_eq, starts_with,
  length, drop, get_elem?, leb, Result, ◌==◌, if◌then◌else◌,
}
use wasm_shell.Vfs.Path.{VfsError, normalize_path}
use wasm_shell.Vfs.Tree.{Stat}

-- The trait that the host implements.
pub record MountPoint (W : Type 0) : Type 0 where
  pub read : Str → W → Result VfsError (List ℕ) × W
  pub write : Str → List ℕ → W → Result VfsError (Unit {0}) × W
  pub list : Str → W → Result VfsError (List Str) × W
  pub stat : Str → W → Result VfsError Stat × W
  pub remove : Str → W → Result VfsError (Unit {0}) × W

pub record MountEntry (W : Type 0) : Type 0 where
  pub vpath : Str
  pub point : MountPoint W

starts_slash : Str → Bool
starts_slash [] = false
starts_slash (c ∷ s) = c == b'/'

-- The path below a mount, if the mount covers the path.
unfoldable pub relative : Str → Str → Option Str
unfolding starts_slash
relative vpath path =
    if str_eq path vpath
    then some []
    else if starts_with path vpath && starts_slash (drop (length vpath) path)
    then some (drop (length vpath) path)
    else none

module _ {W : Type 0} where
  -- `retain(|m| m.vpath != vpath)`
  pub retain_other : Str → List (MountEntry W) → List (MountEntry W)
  retain_other vpath [] = []
  retain_other vpath (m ∷ ms) =
      let rest = retain_other vpath ms in if str_eq m.vpath vpath then rest else m ∷ rest

  -- A stable sort, longest virtual path first.
  pub insert_mount : MountEntry W → List (MountEntry W) → List (MountEntry W)
  insert_mount e [] = e ∷ []
  insert_mount e (m ∷ ms) =
      let rest = insert_mount e ms in
      if leb (byte_len m.vpath) (byte_len e.vpath) then e ∷ (m ∷ ms) else m ∷ rest

  pub sort_mounts : List (MountEntry W) → List (MountEntry W)
  sort_mounts [] = []
  sort_mounts (m ∷ ms) = insert_mount m (sort_mounts ms)

  unfoldable pub add_mount : List (MountEntry W) → Str → MountPoint W → List (MountEntry W)
  unfolding retain_other sort_mounts insert_mount
  add_mount mounts virtual_path point =
      let vpath = normalize_path virtual_path in
      sort_mounts (retain_other vpath mounts ++ record { vpath = vpath; point = point } ∷ [])

  -- The loop of `find_mount` from index `i` on.
  pub find_mount_from : ℕ → List (MountEntry W) → Str → Option (ℕ × Str)
  find_mount_from i [] path = none
  find_mount_from i (m ∷ ms) path = elim (relative m.vpath path) [
    | some rel ↦ some (i, rel)
    | none ↦ find_mount_from (suc i) ms path
  ]

  unfoldable pub find_mount : List (MountEntry W) → Str → Option (ℕ × Str)
  unfolding find_mount_from relative
  find_mount mounts path = find_mount_from 0 mounts path

  -- The callbacks at the index found. The index is always in range.
  pub point_at : List (MountEntry W) → Option (ℕ × Str) → Option (MountPoint W × Str)
  point_at mounts none = none
  point_at mounts (some (i, rel)) = elim (get_elem? mounts i) [
    | some m ↦ some (m.point, rel)
    | none ↦ none
  ]

  unfoldable pub mounted : List (MountEntry W) → Str → Option (MountPoint W × Str)
  unfolding point_at find_mount
  mounted mounts path = point_at mounts (find_mount mounts path)
