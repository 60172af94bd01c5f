-- ===== src/Shell/Registry.antt =====
-- crates/wasm_shell/src/registry.rs. The registry is a map, whatever its callbacks are.
pub mod Resolve
use wasm_shell.Base.{
  Option, none, some, List, [], ◌∷◌, ◌++◌, Str, codes, contains_char, split, trim_end_matches,
  if◌then◌else◌,
}
use wasm_shell.Base.Map.{Map, lookup, insert}
use wasm_shell.Vfs.Path.{normalize_path}

unfoldable pub canonical_program_path : Str → Str
canonical_program_path name =
    if contains_char b'/' name then normalize_path name else codes "/usr/bin/" ++ name

-- The path of a name in a directory of `$PATH`.
unfoldable pub in_dir : Str → Str → Str
in_dir name dir = trim_end_matches b'/' dir ++ b'/' ∷ name

module _ {P : Type 0} where
  unfoldable pub add : Map P → Str → P → Map P
  unfolding canonical_program_path
  add programs name f = insert (canonical_program_path name) f programs

  -- The loop of `resolve` over the directories.
  unfoldable pub resolve_in : Map P → Str → List Str → Option P
  unfolding in_dir
  resolve_in programs name [] = none
  resolve_in programs name (dir ∷ dirs) = elim (lookup (in_dir name dir) programs) [
    | some f ↦ some f
    | none ↦ resolve_in programs name dirs
  ]

  unfoldable pub resolve : Map P → Str → Str → Option P
  unfolding resolve_in
  resolve programs name path_var =
      if contains_char b'/' name
      then lookup (normalize_path name) programs
      else resolve_in programs name (split b':' path_var)

  -- The path, if there is a program at it.
  unfoldable pub present : Map P → Str → Option Str
  present programs path = elim (lookup path programs) [ some f ↦ some path | none ↦ none ]

  unfoldable pub find_path_in : Map P → Str → List Str → Option Str
  unfolding in_dir present
  find_path_in programs name [] = none
  find_path_in programs name (dir ∷ dirs) = elim (present programs (in_dir name dir)) [
    | some path ↦ some path
    | none ↦ find_path_in programs name dirs
  ]

  unfoldable pub find_path : Map P → Str → Str → Option Str
  unfolding find_path_in present
  find_path programs name path_var =
      if contains_char b'/' name
      then present programs (normalize_path name)
      else find_path_in programs name (split b':' path_var)
