-- ===== src/Vfs/Mount/Longest.antt =====
-- The order of the table of mounts, and the search in it, in crates/wasm_shell/src/vfs.rs.
use wasm_shell.Base.Utf8.{byte_len}
use wasm_shell.Base.{
  ℕ, zero, suc, ◌+◌, ◌≤◌, ◌≡◌, refl, true, some, inl, inr, List, [], ◌∷◌, ◌++◌, append-nil, arith,
  Str, starts_with, length, drop, get_elem?, All, Option-cases, Bool-cases, leb, subst,
}
use mathlib.Core.Option.{some-injective}
use wasm_shell.Vfs.Path.{normalize_path}
use wasm_shell.Vfs.Mount.{
  MountPoint, MountEntry, relative, retain_other, insert_mount, sort_mounts, add_mount,
  find_mount_from, find_mount,
}

starts_with-drop : (s t : Str) → starts_with s t ≡ true → s ≡ t ++ drop (length t) s
unfolding starts_with
starts_with-drop s [] h = refl
starts_with-drop [] (y ∷ t) h = cc
starts_with-drop (x ∷ s) (y ∷ t) h = ground (arith, starts_with-drop s t)

-- The path is the mount's path with the relative path behind it.
pub relative-append : (vpath path rel : Str) → relative vpath path ≡ some rel → path ≡ vpath ++ rel
unfolding relative
relative-append vpath path rel h = ground (arith, starts_with-drop path vpath, append-nil vpath)

module _ {W : Type 0} where
  -- No later mount has a longer path.
  abbrev pub IsSorted : List (MountEntry W) → Type 0
  IsSorted [] = Unit
  IsSorted (m ∷ ms) = All (λ e. byte_len e.vpath ≤ byte_len m.vpath) ms × IsSorted ms

  pub All-insert_mount :
      (P : MountEntry W → Type 0) (e : MountEntry W) (ms : List (MountEntry W))
      → P e
      → All P ms
      → All P (insert_mount e ms)
  unfolding insert_mount
  All-insert_mount P e [] p a = (p, tt)
  All-insert_mount P e (m ∷ ms) p a = ground (arith, All-insert_mount P e ms p a.1)

  pub All-sort_mounts :
      (P : MountEntry W → Type 0) (ms : List (MountEntry W)) → All P ms → All P (sort_mounts ms)
  unfolding sort_mounts
  All-sort_mounts P [] a = tt
  All-sort_mounts P (m ∷ ms) a =
      All-insert_mount P m (sort_mounts ms) a.0 (All-sort_mounts P ms a.1)

  All-mono :
      (P Q : MountEntry W → Type 0) (ms : List (MountEntry W))
      → ((e : MountEntry W) → P e → Q e)
      → All P ms
      → All Q ms
  All-mono P Q [] f a = tt
  All-mono P Q (m ∷ ms) f a = (f m a.0, All-mono P Q ms f a.1)

  insert_mount-IsSorted :
      (e : MountEntry W) (ms : List (MountEntry W)) → IsSorted ms → IsSorted (insert_mount e ms)
  unfolding insert_mount
  insert_mount-IsSorted e [] s = (tt, tt)
  insert_mount-IsSorted e (m ∷ ms) s =
      elim (Bool-cases (leb (byte_len m.vpath) (byte_len e.vpath))) [
        | inl before ↦
            let fits : byte_len m.vpath ≤ byte_len e.vpath = ground arith in
            rw before (
              (
                fits,
                All-mono _ (λ x. byte_len x.vpath ≤ byte_len e.vpath) ms (λ x h. omega arith) s.0,
              ),
              s,
            )
        | inr after ↦
            let fits : byte_len e.vpath ≤ byte_len m.vpath = ground arith in
            rw after (
              All-insert_mount (λ x. byte_len x.vpath ≤ byte_len m.vpath) e ms fits s.0,
              insert_mount-IsSorted e ms s.1,
            )
      ]

  sort_mounts-IsSorted : (ms : List (MountEntry W)) → IsSorted (sort_mounts ms)
  unfolding sort_mounts
  sort_mounts-IsSorted [] = tt
  sort_mounts-IsSorted (m ∷ ms) = insert_mount-IsSorted m (sort_mounts ms) (sort_mounts-IsSorted ms)

  -- After every registration, whatever table there was before, no mount in the table has a longer path than
  -- one in front of it.
  pub add_mount-IsSorted :
      (mounts : List (MountEntry W)) (virtual_path : Str) (point : MountPoint W)
      → IsSorted (add_mount mounts virtual_path point)
  unfolding add_mount
  add_mount-IsSorted mounts virtual_path point = sort_mounts-IsSorted (
      retain_other (normalize_path virtual_path) mounts
      ++ record { vpath = normalize_path virtual_path; point = point } ∷ [])

  pub All-get_elem? :
      (P : MountEntry W → Type 0) (ms : List (MountEntry W)) (j : ℕ) (e : MountEntry W)
      → All P ms
      → get_elem? ms j ≡ some e
      → P e
  All-get_elem? P [] j e a g = cc
  All-get_elem? P (m ∷ ms) zero e a g = subst P (some-injective m e g) a.0
  All-get_elem? P (m ∷ ms) (suc j) e a g = All-get_elem? P ms j e a.1 g

  found_here :
      (k : ℕ) (m : MountEntry W) (ms : List (MountEntry W)) (path rel : Str)
      → relative m.vpath path ≡ some rel
      → find_mount_from k (m ∷ ms) path ≡ some (k + 0, rel)
  unfolding find_mount_from
  found_here k m ms path rel q = ground arith

  find_mount_from-longest :
      (k : ℕ) (ms : List (MountEntry W)) (path : Str) (j : ℕ) (e' : MountEntry W) (rel' : Str)
      → IsSorted ms
      → get_elem? ms j ≡ some e'
      → relative e'.vpath path ≡ some rel'
      → (i : ℕ) × (rel : Str) × (e : MountEntry W) × (find_mount_from k ms path ≡ some (k + i, rel))
        × (get_elem? ms i ≡ some e)
        × (relative e.vpath path ≡ some rel)
        × (byte_len e'.vpath ≤ byte_len e.vpath)
  unfolding find_mount_from
  find_mount_from-longest k [] path j e' rel' s g r = cc
  find_mount_from-longest k (m ∷ ms) path zero e' rel' s g r =
      let e : m ≡ e' = some-injective m e' g in
      let q : relative m.vpath path ≡ some rel' = rw e r in
      (0, rel', m, found_here k m ms path rel' q, refl, q, rw e (omega arith))
  find_mount_from-longest k (m ∷ ms) path (suc j) e' rel' s g r =
      elim (Option-cases (relative m.vpath path)) [
        | inr (rel, q) ↦ (
          0,
          rel,
          m,
          found_here k m ms path rel q,
          refl,
          q,
          All-get_elem? (λ x. byte_len x.vpath ≤ byte_len m.vpath) ms j e' s.0 g,
        )
        | inl q ↦
            let (i, rel, e, f, at, cov, long) =
              find_mount_from-longest (suc k) ms path j e' rel' s.1 g r in
            (suc i, rel, e, ground (arith, f, q), at, cov, long)
      ]

  pub find_mount-longest :
      (mounts : List (MountEntry W)) (path : Str) (j : ℕ) (e' : MountEntry W) (rel' : Str)
      → IsSorted mounts
      → get_elem? mounts j ≡ some e'
      → relative e'.vpath path ≡ some rel'
      → (i : ℕ) × (rel : Str) × (e : MountEntry W) × (find_mount mounts path ≡ some (i, rel))
        × (get_elem? mounts i ≡ some e)
        × (path ≡ e.vpath ++ rel)
        × (byte_len e'.vpath ≤ byte_len e.vpath)
  unfolding find_mount
  find_mount-longest mounts path j e' rel' s g r =
      let (i, rel, e, f, at, cov, long) = find_mount_from-longest 0 mounts path j e' rel' s g r in
      (i, rel, e, ground (arith, f), at, relative-append e.vpath path rel cov, long)
