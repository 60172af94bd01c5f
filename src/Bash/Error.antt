-- ===== src/Bash/Error.antt =====
-- crates/bash_parser/src/error.rs: spans of bytes in the source text, and the error of the lexer and the parser.
use wasm_shell.Base.{ℕ, ◌+◌, ◌-◌, Str, codes, ◌++◌, ltb, if◌then◌else◌}
use wasm_shell.Base.Int.{show_ℕ}

pub record Span : Type 0 where
  pub start : ℕ
  pub len : ℕ

abbrev pub new_span : ℕ → ℕ → Span
new_span start len = record { start = start; len = len }

abbrev pub eof_span : ℕ → Span
eof_span pos = new_span pos 0

abbrev pub end_of : Span → ℕ
end_of s = s.start + s.len

unfoldable pub merge : Span → Span → Span
merge a b =
    let first = if ltb b.start a.start then b.start else a.start in
    let last = if ltb (end_of a) (end_of b) then end_of b else end_of a in
    new_span first (last - first)

-- `panic` is a panic of the program, `no_fuel` a loop of the model that has used up its fuel.
pub data ParseError : Type 0 where
  parse_error : Span → Str → ParseError
  panic no_fuel : ParseError

-- `Display` of a `ParseError`
unfoldable pub show_error : ParseError → Str
show_error (parse_error s message) =
    codes "parse error at "
    ++ (show_ℕ s.start ++ (codes ".." ++ (show_ℕ (end_of s) ++ (codes ": " ++ message))))
show_error panic = codes "panic"
show_error no_fuel = codes "no fuel"
