-- ===== src/Vfs/Mount/Root.antt =====
-- A mount registered at `/`, for `find_mount` in crates/wasm_shell/src/vfs.rs.
use wasm_shell.Base.{◌≡◌, ◌≢◌, refl, none, List, [], ◌∷◌, arith, Str, starts_with, All}
use wasm_shell.Vfs.Path.{slash, normalize_path, render_path}
use wasm_shell.Vfs.Path.Normal.{
  IsPlain, segments, segments-IsPlain, normalize_path-segments, render_path-slashes,
}
use wasm_shell.Vfs.Mount.{MountPoint, add_mount, relative, find_mount}

relative-slash :
    (s : Str) (ss : List Str) → IsPlain s → relative slash (render_path (s ∷ ss)) ≡ none
unfolding relative starts_with
relative-slash [] ss h = absurd (h.nonempty refl)
relative-slash (c ∷ s) ss h = rw (render_path-slashes (c ∷ s) ss) (ground (arith, h.no_slash.0))

module _ {W : Type 0} (virtual_path : Str) (point : MountPoint W)
    (at_root : normalize_path virtual_path ≡ slash) where
  only_root :
      (s : Str) (ss : List Str)
      → IsPlain s
      → find_mount (add_mount [] virtual_path point) (render_path (s ∷ ss)) ≡ none
  unfolding find_mount add_mount
  only_root s ss h = rw at_root (ground (arith, relative-slash s ss h))

  -- With one mount, registered at a path that normalizes to `/`, a path below the root belongs to no mount.
  find_mount-root :
      (path : Str)
      → segments path ≢ []
      → find_mount (add_mount [] virtual_path point) (normalize_path path) ≡ none
  find_mount-root path n =
      rw (normalize_path-segments path) (split (segments path) (segments-IsPlain path) n)
    where
      split :
          (ss : List Str)
          → All IsPlain ss
          → ss ≢ []
          → find_mount (add_mount [] virtual_path point) (render_path ss) ≡ none
      split [] a n = absurd (n refl)
      split (s ∷ ss) a n = only_root s ss a.0
