-- ===== src/Bash/Lexer/Word.antt =====
-- The words of the lexer in crates/bash_parser/src/lexer.rs: `lex_word`, with the expansions that it takes in whole.
pub mod Bounds
use wasm_shell.Base.{
  ℕ, zero, suc, ◌+◌, ◌-◌, Bool, not, [], ◌∷◌, ◌++◌, Str, codes, ◌==◌, leb, length, if◌then◌else◌,
  ◌||◌, ◌&&◌, Option, none, some, Result, ok, err, ◌>>=◌,
}
use wasm_shell.Base.Int.{is_digit}
use wasm_shell.Base.Utf8.{len_utf8}
use wasm_shell.Bash.Error.{ParseError, parse_error, no_fuel, Span, new_span, eof_span}
use wasm_shell.Bash.Lexer.Token.{TokenKind, word, Token}
use wasm_shell.Bash.Lexer.Scan.{Lexer, at, past, skip_one, skip_while, slice}

unfoldable pub is_alpha : ℕ → Bool
is_alpha c = (leb b'a' c && leb c b'z') || (leb b'A' c && leb c b'Z')

-- `is_ascii_alphanumeric`, or an underscore
unfoldable pub is_name_char : ℕ → Bool
unfolding is_alpha
is_name_char c = is_digit c || is_alpha c || c == b'_'

unfoldable pub is_special : ℕ → Bool
is_special c = c == b'@' || c == b'*' || c == b'#' || c == b'?' || c == b'$' || c == b'!'

unfoldable pub is_word_char : ℕ → Bool
is_word_char c = not (
    c == b' '
    || c == 9
    || c == b'\n'
    || c == b'|'
    || c == b'&'
    || c == b';'
    || c == b'('
    || c == b')'
    || c == b'{'
    || c == b'}'
    || c == b'<'
    || c == b'>'
    || c == b'"'
    || c == b'\'')

abbrev pub Scanned : Type 0
Scanned = Result ParseError Lexer

unterminated : ℕ → ℕ → ℕ → Scanned
unterminated err_pos opening closing = err (
    parse_error (eof_span err_pos)
      (codes "unterminated `" ++ (opening ∷ (codes "..." ++ (closing ∷ codes "`")))))

-- `consume_balanced_depth`, and its inner loop inside single quotes.
unfoldable mutual
  unfolding unterminated

  pub balanced : ℕ → ℕ → ℕ → ℕ → ℕ → Str → Scanned
  balanced err_pos opening closing depth pos [] = unterminated err_pos opening closing
  balanced err_pos opening closing depth pos (c ∷ s) =
      let next = pos + len_utf8 c in
      let quote = quoted err_pos opening closing depth next s in
      let deeper = balanced err_pos opening closing (depth + 1) next s in
      let shallower = balanced err_pos opening closing (depth - 1) next s in
      let same = balanced err_pos opening closing depth next s in
      if c == b'\''
      then quote
      else if c == opening
      then deeper
      else if c == closing
      then (if depth - 1 == 0 then ok (past pos c s) else shallower)
      else same

  quoted : ℕ → ℕ → ℕ → ℕ → ℕ → Str → Scanned
  quoted err_pos opening closing depth pos [] = unterminated err_pos opening closing
  quoted err_pos opening closing depth pos (c ∷ s) =
      let outside = balanced err_pos opening closing depth (pos + len_utf8 c) s in
      let inside = quoted err_pos opening closing depth (pos + len_utf8 c) s in
      if c == b'\'' then outside else inside

unfoldable pub consume_balanced_depth : ℕ → ℕ → ℕ → Lexer → Scanned
unfolding balanced
consume_balanced_depth opening closing depth l = balanced l.pos opening closing depth l.pos l.rest

-- Behind `$(`
paren : ℕ → Str → Scanned
unfolding consume_balanced_depth
paren pos [] = consume_balanced_depth b'(' b')' 1 (at pos [])
paren pos (c ∷ s) =
    if c == b'('
    then consume_balanced_depth b'(' b')' 2 (past pos c s)
    else consume_balanced_depth b'(' b')' 1 (at pos (c ∷ s))

-- Behind `$`
unfoldable pub dollar : ℕ → Str → Scanned
unfolding paren consume_balanced_depth is_name_char is_special is_alpha
dollar pos [] = ok (at pos [])
dollar pos (c ∷ s) =
    if c == b'{'
    then consume_balanced_depth b'{' b'}' 1 (past pos c s)
    else if c == b'('
    then paren (pos + len_utf8 c) s
    else if is_alpha c || c == b'_'
    then ok (skip_while is_name_char (pos + len_utf8 c) s)
    else if is_digit c || is_special c
    then ok (past pos c s)
    else ok (at pos (c ∷ s))

-- Behind a backtick: up to the next one or the end of the line.
unfoldable pub backtick : ℕ → Str → Lexer
backtick pos [] = at pos []
backtick pos (c ∷ []) = if c == b'\n' then at pos (c ∷ []) else past pos c []
backtick pos (c ∷ (d ∷ s)) =
    let escaped = backtick (pos + len_utf8 c + len_utf8 d) s in
    let more = backtick (pos + len_utf8 c) (d ∷ s) in
    if c == b'\n'
    then at pos (c ∷ (d ∷ s))
    else if c == b'\\'
    then escaped
    else if c == b'`'
    then past pos c (d ∷ s)
    else more

-- One round of the loop of `lex_word`; `none` ends it.
unfoldable pub word_step : ℕ → ℕ → Str → Result ParseError (Option Lexer)
unfolding dollar backtick is_word_char
word_step pos c s =
    if c == b'\\'
    then ok (some (skip_one (pos + len_utf8 c) s))
    else if c == b'$'
    then (dollar (pos + len_utf8 c) s >>= λ l. ok (some l))
    else if c == b'`'
    then ok (some (backtick (pos + len_utf8 c) s))
    else if is_word_char c
    then ok (some (past pos c s))
    else ok none

unfoldable pub word_loop : ℕ → ℕ → Str → Scanned
word_loop fuel pos [] = ok (at pos [])
word_loop zero pos (c ∷ s) = err no_fuel
word_loop (suc fuel) pos (c ∷ s) = word_step pos c s >>= λ next. elim next [
  | none ↦ ok (at pos (c ∷ s))
  | some l ↦ word_loop fuel l.pos l.rest
]

abbrev pub Lexed : Type 0
Lexed = Result ParseError (Token × Lexer)

unfoldable pub span_from : ℕ → Lexer → Span
span_from start l = new_span start (l.pos - start)

-- A token from `start` to the lexer.
abbrev pub emit : TokenKind → ℕ → Lexer → Lexed
emit k start l = ok (record { kind = k; span = span_from start l }, l)

-- `lex_word`: a round takes a character at least, so their number is fuel enough.
unfoldable pub lex_word : ℕ → Str → Lexed
unfolding word_loop span_from
lex_word start s = word_loop (length s) start s >>= λ l. emit (word (slice (at start s) l)) start l
