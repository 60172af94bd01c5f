-- ===== src/Bash/Names.antt =====
-- The scans of text in crates/bash_parser/src/parser.rs that no state takes part in: names, assignments, the operator
-- in `${…}` and balanced delimiters.
pub mod Shorter
pub mod Balanced
use wasm_shell.Base.{
  ℕ, ◌+◌, ◌-◌, Bool, true, false, not, ◌&&◌, ◌||◌, Option, none, some, [], ◌∷◌, Str, codes, ◌++◌,
  ◌==◌, if◌then◌else◌, starts_with, Result, ok, err, ◌>>=◌,
}
use wasm_shell.Base.Utf8.{len_utf8, byte_len}
use wasm_shell.Bash.Error.{ParseError, parse_error, panic, eof_span}
use wasm_shell.Bash.Lexer.Word.{is_alpha, is_name_char}

unfoldable pub cons_front : ℕ → Option (Str × Str) → Option (Str × Str)
cons_front c none = none
cons_front c (some (a, b)) = some (c ∷ a, b)

-- The text in front of the first `d`, and behind it; `str::find` with the two slices.
unfoldable pub split_at : ℕ → Str → Option (Str × Str)
unfolding cons_front
split_at d [] = none
split_at d (c ∷ s) = let more = split_at d s in if c == d then some ([], s) else cons_front c more

all_name_chars : Str → Bool
all_name_chars [] = true
all_name_chars (c ∷ s) = is_name_char c && all_name_chars s

unfoldable pub is_valid_name : Str → Bool
unfolding all_name_chars
is_valid_name [] = false
is_valid_name (c ∷ s) = (is_alpha c || c == b'_') && all_name_chars (c ∷ s)

named : Option (Str × Str) → Option (Str × Str)
named none = none
named (some (name, value)) = if is_valid_name name then some (name, value) else none

-- `NAME=value`
unfoldable pub split_assignment : Str → Option (Str × Str)
unfolding named
split_assignment s = named (split_at b'=' s)

is_operator : ℕ → Bool
is_operator c = c == b'-' || c == b'=' || c == b'+' || c == b'?'

starts_operator : Str → Bool
starts_operator [] = false
starts_operator (c ∷ s) = is_operator c

operator_from : Bool → Str → Option (Str × Str)
unfolding is_operator starts_operator cons_front
operator_from first [] = none
operator_from first (c ∷ s) =
    let more = cons_front c (operator_from false s) in
    if c == b':'
    then (if starts_operator s then some ([], c ∷ s) else more)
    else if is_operator c && not first
    then some ([], c ∷ s)
    else more

-- The text in front of the operator, and from it on; a bare operator in front of everything is none.
unfoldable pub find_var_operator : Str → Option (Str × Str)
unfolding operator_from
find_var_operator s = operator_from true s

unmatched : Str → ℕ → Result ParseError (Str × ℕ)
unmatched close_str pos =
    err (parse_error (eof_span pos) (codes "unmatched `" ++ (close_str ++ codes "`")))

more_text : ℕ → Str × ℕ → Result ParseError (Str × ℕ)
more_text c (inner, consumed) = ok (c ∷ inner, consumed)

-- `extract_balanced`, `i` bytes behind its start. It looks at single bytes: where the depth is 1, a character of several
-- bytes is cut, which panics.
unfoldable pub balanced_text : ℕ → ℕ → Str → ℕ → ℕ → ℕ → Str → Result ParseError (Str × ℕ)
unfolding unmatched more_text
balanced_text opening closing close_str base depth i [] = unmatched close_str (base + i)
balanced_text opening closing close_str base depth i (c ∷ s) =
    let deeper = balanced_text opening closing close_str base (depth + 1) (i + 1) s in
    let shallower = balanced_text opening closing close_str base (depth - 1) (i + 1) s in
    let same = balanced_text opening closing close_str base depth (i + len_utf8 c) s in
    if depth == 1 && starts_with (c ∷ s) close_str
    then ok ([], i + byte_len close_str)
    else if c == opening
    then deeper >>= more_text c
    else if c == closing
    then (if depth - 1 == 0 then ok ([], i + 1) else (shallower >>= more_text c))
    else if depth == 1 && not (len_utf8 c == 1)
    then err panic
    else (same >>= more_text c)

unfoldable pub extract_balanced : Str → ℕ → ℕ → ℕ → Str → Result ParseError (Str × ℕ)
unfolding balanced_text
extract_balanced s opening closing base close_str =
    balanced_text opening closing close_str base 1 0 s
