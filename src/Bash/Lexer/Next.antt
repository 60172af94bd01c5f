-- ===== src/Bash/Lexer/Next.antt =====
-- `Lexer::next_token` in crates/bash_parser/src/lexer.rs.
pub mod Bounds
pub mod RoundTrip
use wasm_shell.Base.{
  ℕ, zero, suc, ◌-◌, Bool, false, not, [], ◌∷◌, Str, codes, ◌==◌, if◌then◌else◌, ◌||◌, ◌&&◌, Option,
  none, some, ok, err,
}
use wasm_shell.Base.Int.{is_digit}
use wasm_shell.Bash.Error.{parse_error, no_fuel, eof_span}
use wasm_shell.Bash.Lexer.Token.{
  TokenKind, single_quote, double_quote_open, pipe, or_or, and_and, amp, semi, semi_semi, lparen,
  rparen, lbrace, rbrace, bang, newline, eof,
}
use wasm_shell.Bash.Lexer.Scan.{Lexer, at, past, eat, skip_while, slice}
use wasm_shell.Bash.Lexer.Word.{Lexed, span_from, emit, lex_word}
use wasm_shell.Bash.Lexer.Redirect.{skip_inline, lex_redirect}
use wasm_shell.Bash.Lexer.Fragment.{lex_dq_fragment}

abbrev pub not_char : ℕ → ℕ → Bool
not_char d c = not (c == d)

-- A token of two characters if `d` follows, else one of one character.
one_or_two : ℕ → TokenKind → TokenKind → ℕ → Lexer → Lexed
unfolding span_from
one_or_two d two one start l =
    let r = eat d l.pos l.rest in if r.0 then emit two start r.1 else emit one start r.1

-- `'…'`, with the opening quote at `start`: the text, and the lexer where the closing quote stands or is missing.
single_quoted_end : ℕ → Str → ℕ → Str → Lexed
unfolding span_from
single_quoted_end start text pos [] =
    err (parse_error (span_from start (at pos [])) (codes "unterminated single-quoted string"))
single_quoted_end start text pos (c ∷ s) = emit (single_quote text) start (past pos c s)

unfoldable pub lex_single_quote : ℕ → ℕ → Str → Lexed
unfolding single_quoted_end
lex_single_quote start pos s =
    let l = skip_while (not_char b'\'') pos s in
    single_quoted_end start (slice (at pos s) l) l.pos l.rest

starts_redirect : Str → Bool
starts_redirect [] = false
starts_redirect (c ∷ s) = c == b'<' || c == b'>'

-- `is_fd_redirect`, where the text starts with a digit
unfoldable pub is_fd_redirect : Str → Bool
unfolding starts_redirect
is_fd_redirect s = starts_redirect (skip_while is_digit 0 s).rest

-- The token of a character that is one whatever follows.
unfoldable pub single_token : ℕ → Option TokenKind
single_token c =
    if c == b'\n'
    then some newline
    else if c == b'('
    then some lparen
    else if c == b')'
    then some rparen
    else if c == b'{'
    then some lbrace
    else if c == b'}'
    then some rbrace
    else if c == b'!'
    then some bang
    else if c == b'"'
    then some double_quote_open
    else none

-- The rest of the cases of `next_token` but for a comment; the lexer stands at `start`.
unfoldable pub other_token : ℕ → ℕ → Str → Lexed
unfolding one_or_two lex_single_quote lex_redirect is_fd_redirect
other_token start c s =
    let after = past start c s in
    if c == b';'
    then one_or_two b';' semi_semi semi start after
    else if c == b'&'
    then one_or_two b'&' and_and amp start after
    else if c == b'|'
    then one_or_two b'|' or_or pipe start after
    else if c == b'\''
    then lex_single_quote start after.pos s
    else if c == b'<' || c == b'>'
    then lex_redirect start (c ∷ s)
    else if is_digit c && is_fd_redirect (c ∷ s)
    then lex_redirect start (c ∷ s)
    else lex_word start (c ∷ s)

unfoldable pub token_at : ℕ → ℕ → Str → Lexed
unfolding single_token other_token span_from
token_at start c s = elim (single_token c) [
  | some k ↦ emit k start (past start c s)
  | none ↦ other_token start c s
]

-- The call behind a comment meets the end of a line or of the text, so that two rounds are enough.
unfoldable pub token_from : (ℕ → Str → Lexed) → ℕ → Str → Lexed
unfolding token_at
token_from again start [] = ok (record { kind = eof; span = eof_span start }, at start [])
token_from again start (c ∷ s) =
    let l = skip_while (not_char b'\n') start (c ∷ s) in
    if c == b'#' then again l.pos l.rest else token_at start c s

unfoldable pub plain_token : ℕ → ℕ → Str → Lexed
unfolding skip_inline token_from
plain_token zero pos s = err no_fuel
plain_token (suc rounds) pos s =
    let l = skip_inline pos s in token_from (λ p r. plain_token rounds p r) l.pos l.rest

-- `next_token`
unfoldable pub next_token : Bool → Lexer → Lexed
unfolding plain_token lex_dq_fragment
next_token in_dq l = if in_dq then lex_dq_fragment l.pos l.rest else plain_token 2 l.pos l.rest
