-- ===== src/Bash/Lexer/Heredoc.antt =====
-- `Lexer::collect_heredoc_bodies` in crates/bash_parser/src/lexer.rs.
pub mod RoundTrip
pub mod Bounds
use wasm_shell.Base.{
  ℕ, zero, suc, ◌-◌, Bool, true, false, List, [], ◌∷◌, ◌++◌, Str, codes, if◌then◌else◌, length,
  Result, ok, err, ◌>>=◌, str_eq, trim_start_matches,
}
use wasm_shell.Bash.Error.{ParseError, parse_error, no_fuel, new_span}
use wasm_shell.Bash.Lexer.Scan.{Lexer, eat, skip_while, slice}
use wasm_shell.Bash.Lexer.Next.{not_char}

-- A heredoc on the current line: its delimiter, whether that is quoted, and whether it is `<<-`.
pub record Pending : Type 0 where
  pub delimiter : Str
  pub quoted : Bool
  pub strip_tabs : Bool

-- A line as it is compared with the delimiter.
unfoldable pub stripped : Bool → Str → Str
stripped strip_tabs line = if strip_tabs then trim_start_matches 9 line else line

is_empty : Str → Bool
is_empty [] = true
is_empty (c ∷ s) = false

missing_delimiter : ℕ → Str → Lexer → Result ParseError (Str × Lexer)
missing_delimiter start delimiter l = err (
    parse_error (new_span start (l.pos - start))
      (codes "unterminated heredoc: missing delimiter `" ++ (delimiter ++ codes "`")))

-- The lines up to the delimiter, in a body that starts at `start`. A round takes the end of a line or is the last.
unfoldable pub body_lines : ℕ → Pending → ℕ → Str → Lexer → Result ParseError (Str × Lexer)
unfolding is_empty missing_delimiter
body_lines zero h start body l = err no_fuel
body_lines (suc fuel) h start body l =
    let e = skip_while (not_char b'\n') l.pos l.rest in
    let line = slice l e in
    let nl = eat b'\n' e.pos e.rest in
    let grown = body ++ (line ++ (if nl.0 then b'\n' ∷ [] else [])) in
    let more = body_lines fuel h start grown nl.1 in
    if str_eq (stripped h.strip_tabs line) h.delimiter
    then ok (body, nl.1)
    else if is_empty nl.1.rest
    then missing_delimiter start h.delimiter nl.1
    else more

abbrev heredoc_body : Pending → Lexer → Result ParseError (Str × Lexer)
heredoc_body h l = body_lines (suc (length l.rest)) h l.pos [] l

unfoldable pub collect_heredoc_bodies : List Pending → Lexer → Result ParseError (List Str × Lexer)
unfolding body_lines
collect_heredoc_bodies [] l = ok ([], l)
collect_heredoc_bodies (h ∷ hs) l = heredoc_body h l >>= λ (body, after).
    collect_heredoc_bodies hs after >>= λ (bodies, last). ok (body ∷ bodies, last)
