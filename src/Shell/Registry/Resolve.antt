-- ===== src/Shell/Registry/Resolve.antt =====
-- What `resolve` and `find_path` of crates/wasm_shell/src/registry.rs have to do with one another and with `add`.
use wasm_shell.Base.{
  ◌≡◌, refl, Option, none, some, List, [], ◌∷◌, ◌++◌, Str, codes, contains_char, split, All,
  trim_end_matches, arith, Bool-cases, inl, inr,
}
use wasm_shell.Base.Map.{Map, lookup, insert, lookup-insert_same}
use wasm_shell.Vfs.Path.{normalize_path}
use wasm_shell.Shell.Registry.{
  canonical_program_path, in_dir, add, resolve_in, resolve, present, find_path_in, find_path,
}

module _ {P : Type 0} where
  at_path : Map P → Option Str → Option P
  at_path programs none = none
  at_path programs (some path) = lookup path programs

  resolve_in-find_path_in :
      (programs : Map P) (name : Str) (dirs : List Str)
      → resolve_in programs name dirs ≡ at_path programs (find_path_in programs name dirs)
  unfolding resolve_in find_path_in at_path present
  resolve_in-find_path_in programs name [] = refl
  resolve_in-find_path_in programs name (dir ∷ dirs) =
      ground (arith, resolve_in-find_path_in programs name dirs)

  -- For every table of programs, every name and every `$PATH`, `resolve` finds the program registered at the
  -- path that `find_path` gives, and none where that gives none.
  pub resolve-find_path :
      (programs : Map P) (name path_var : Str)
      → resolve programs name path_var
        ≡ elim (find_path programs name path_var) [ none ↦ none | some path ↦ lookup path programs ]
  unfolding resolve find_path at_path present
  resolve-find_path programs name path_var =
      ground (arith, resolve_in-find_path_in programs name (split b':' path_var))

  -- No directory of the list has a program of the name.
  abbrev pub NoneIn : Map P → Str → List Str → Type 0
  NoneIn programs name dirs = All (λ dir. lookup (in_dir name dir) programs ≡ none) dirs

  pub resolve_in-none :
      (programs : Map P) (name : Str) (dirs : List Str)
      → NoneIn programs name dirs
      → resolve_in programs name dirs ≡ none
  unfolding resolve_in
  resolve_in-none programs name [] h = refl
  resolve_in-none programs name (dir ∷ dirs) (h, hs) =
      rw (h, resolve_in) (resolve_in-none programs name dirs hs)

  resolve_in-head :
      (programs : Map P) (name dir : Str) (dirs : List Str) (f : P)
      → lookup (in_dir name dir) programs ≡ some f
      → resolve_in programs name (dir ∷ dirs) ≡ some f
  unfolding resolve_in
  resolve_in-head programs name dir dirs f h = ground (arith, h)

  -- A program that has been added, under a bare name or under a path, is the one that its name runs with the
  -- default `$PATH`, whatever was registered before.
  resolve-add :
      (programs : Map P) (name : Str) (f : P)
      → resolve (add programs name f) name (codes "/usr/bin:/bin:/usr/local/bin") ≡ some f
  unfolding resolve add canonical_program_path split in_dir trim_end_matches
  resolve-add programs name f = elim (Bool-cases (contains_char b'/' name)) [
    | inl h ↦ rw (h) (lookup-insert_same (normalize_path name) f programs)
    | inr h ↦ rw (h) (
        resolve_in-head (insert (codes "/usr/bin/" ++ name) f programs) name (codes "/usr/bin")
          (codes "/bin" ∷ codes "/usr/local/bin" ∷ []) f
          (lookup-insert_same (codes "/usr/bin/" ++ name) f programs))
  ]
