-- ===== src/Vfs/Path.antt =====
-- The path utilities of crates/wasm_shell/src/vfs.rs, lines 54 to 100, and `VfsError`.
pub mod Normal
use wasm_shell.Base.{
  ℕ, Bool, ◌||◌, Option, none, some, List, [], ◌∷◌, ◌++◌, Str, codes, str_eq, starts_with, split,
  join, trim_start_matches, init, Result, ok, err, ◌==◌, if◌then◌else◌,
}

-- crates/wasm_shell/src/error.rs. `panic` is no error of the source: it stands for a failed `unwrap`.
pub data VfsError : Type 0 where
  not_found not_a_dir not_a_file already_exists permission_denied is_a_dir not_empty invalid_path
        mount :
      Str → VfsError
  panic : VfsError

abbrev pub slash : Str
slash = b'/' ∷ []

abbrev pub dot : Str
dot = b'.' ∷ []

abbrev pub dot_dot : Str
dot_dot = b'.' ∷ b'.' ∷ []

-- one round of the loop over the pieces of the path
pub push_segment : List Str → Str → List Str
push_segment parts seg =
    if str_eq seg [] || str_eq seg dot
    then parts
    else if str_eq seg dot_dot
    then init parts
    else parts ++ seg ∷ []

pub collapse : List Str → List Str → List Str
unfolding push_segment
collapse parts [] = parts
collapse parts (seg ∷ segs) = collapse (push_segment parts seg) segs

pub render_path : List Str → Str
render_path [] = slash
render_path (s ∷ ss) = b'/' ∷ join slash (s ∷ ss)

unfoldable pub normalize_path : Str → Str
unfolding collapse render_path
normalize_path path = render_path (collapse [] (split b'/' path))

unfoldable pub resolve_path : Str → Str → Str
unfolding normalize_path
resolve_path cwd path =
    if starts_with path slash then normalize_path path else normalize_path (cwd ++ (b'/' ∷ path))

-- `filter(|s| !s.is_empty())`
pub non_empty : List Str → List Str
non_empty [] = []
non_empty ([] ∷ ss) = non_empty ss
non_empty ((c ∷ s) ∷ ss) = (c ∷ s) ∷ non_empty ss

unfoldable pub path_components : Str → List Str
unfolding non_empty
path_components path = non_empty (split b'/' (trim_start_matches b'/' path))

-- `str::rsplit_once`, continued from the result for the rest of the text
rsplit_step : Bool → ℕ → Str → Option (Str × Str) → Option (Str × Str)
rsplit_step here x s (some (a, b)) = some (x ∷ a, b)
rsplit_step here x s none = if here then some ([], s) else none

pub rsplit_once : ℕ → Str → Option (Str × Str)
unfolding rsplit_step
rsplit_once c [] = none
rsplit_once c (x ∷ s) = rsplit_step (x == c) x s (rsplit_once c s)

pub parent_or_root : Str → Str
parent_or_root [] = slash
parent_or_root (c ∷ s) = c ∷ s

-- A normalized absolute path as its parent and its file name.
unfoldable pub split_parent : Str → Result VfsError (Str × Str)
unfolding rsplit_once parent_or_root
split_parent path =
    if str_eq path slash
    then err (invalid_path (codes "no parent of root"))
    else elim (rsplit_once b'/' path) [
      | some (parent, name) ↦ ok (parent_or_root parent, name)
      | none ↦ err panic
    ]
