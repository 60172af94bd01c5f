-- ===== src/Vfs/Mount/Added.antt =====
-- Registration and then search, in crates/wasm_shell/src/vfs.rs.
use wasm_shell.Base.Utf8.{byte_len, byte_len-append, byte_len-eq-zero}
use wasm_shell.Base.{
  ℕ, zero, suc, ◌≡◌, refl, sym, ap, ◌∙◌, some, inl, inr, List, [], ◌∷◌, ◌++◌, append-nil, arith,
  Str, str_eq, get_elem?, All, All-append, Bool-cases, leb,
}
use wasm_shell.Vfs.Path.{normalize_path}
use wasm_shell.Vfs.Mount.{
  MountPoint, MountEntry, relative, retain_other, insert_mount, sort_mounts, add_mount, mounted,
  point_at,
}
use wasm_shell.Vfs.Mount.Longest.{
  All-sort_mounts, All-get_elem?, add_mount-IsSorted, find_mount-longest,
}

relative_self : (path : Str) → relative path path ≡ some []
unfolding relative
relative_self path = ground arith

module _ {W : Type 0} where
  abbrev Has : MountEntry W → List (MountEntry W) → Type 0
  Has e ms = (j : ℕ) × (get_elem? ms j ≡ some e)

  insert_mount_self : (e : MountEntry W) (ms : List (MountEntry W)) → Has e (insert_mount e ms)
  unfolding insert_mount
  insert_mount_self e [] = (0, refl)
  insert_mount_self e (m ∷ ms) = elim (Bool-cases (leb (byte_len m.vpath) (byte_len e.vpath))) [
    | inl b ↦ (0, rw b)
    | inr b ↦ let (j, h) = insert_mount_self e ms in (suc j, rw b h)
  ]

  insert_mount-Has :
      (x e : MountEntry W) (ms : List (MountEntry W)) → Has x ms → Has x (insert_mount e ms)
  unfolding insert_mount
  insert_mount-Has x e [] (j, h) = cc
  insert_mount-Has x e (m ∷ ms) (zero, h) =
      elim (Bool-cases (leb (byte_len m.vpath) (byte_len e.vpath))) [
        | inl b ↦ (1, rw b h)
        | inr b ↦ (0, rw b h)
      ]
  insert_mount-Has x e (m ∷ ms) (suc j, h) =
      elim (Bool-cases (leb (byte_len m.vpath) (byte_len e.vpath))) [
        | inl b ↦ (suc (suc j), rw b h)
        | inr b ↦ let (i, g) = insert_mount-Has x e ms (j, h) in (suc i, rw b g)
      ]

  sort_mounts-append_one :
      (ms : List (MountEntry W)) (e : MountEntry W) → Has e (sort_mounts (ms ++ e ∷ []))
  unfolding sort_mounts
  sort_mounts-append_one [] e = insert_mount_self e []
  sort_mounts-append_one (m ∷ ms) e =
      insert_mount-Has e m (sort_mounts (ms ++ e ∷ [])) (sort_mounts-append_one ms e)

  retain_other-All :
      (P : MountEntry W → Type 0) (vpath : Str) (ms : List (MountEntry W))
      → All (λ e. e.vpath ≡ vpath → P e) (retain_other vpath ms)
  unfolding retain_other
  retain_other-All P vpath [] = tt
  retain_other-All P vpath (m ∷ ms) = elim (Bool-cases (str_eq m.vpath vpath)) [
    | inl b ↦ rw b (retain_other-All P vpath ms)
    | inr b ↦ rw b (λ p. absurd (ground arith), retain_other-All P vpath ms)
  ]

  -- Whatever was mounted before, the path of the new mount is answered by the new callbacks, with the empty
  -- relative path.
  mounted-add_mount :
      (mounts : List (MountEntry W)) (virtual_path : Str) (point : MountPoint W)
      → mounted (add_mount mounts virtual_path point) (normalize_path virtual_path)
        ≡ some (point, [])
  unfolding mounted point_at
  mounted-add_mount mounts virtual_path point =
      let p = normalize_path virtual_path in
      let new : MountEntry W = record { vpath = p; point = point } in
      let others = retain_other p mounts in
      let (j, has) = sort_mounts-append_one others new in
      let (i, rel, e, found, at, split, long) =
        find_mount-longest (add_mount mounts virtual_path point) p j new []
          (add_mount-IsSorted mounts virtual_path point) (unfold add_mount in has)
          (relative_self p) in
      let none_left : rel ≡ [] =
        byte_len-eq-zero rel (omega (arith, byte_len-append e.vpath rel, ap byte_len split)) in
      let same : e.vpath ≡ p =
        sym (split ∙ ap (λ r. e.vpath ++ r) none_left ∙ append-nil e.vpath) in
      let only : e ≡ new =
        All-get_elem? (λ x. x.vpath ≡ p → x ≡ new) (add_mount mounts virtual_path point) i e
          (unfold add_mount in
            All-sort_mounts (λ x. x.vpath ≡ p → x ≡ new) (others ++ new ∷ [])
              (All-append (λ x. x.vpath ≡ p → x ≡ new) others (new ∷ [])
                (retain_other-All (λ x. x ≡ new) p mounts) (λ _. refl, tt)))
          at same in
      rw (found, point_at, at, none_left, only)
