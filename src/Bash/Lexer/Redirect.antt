-- ===== src/Bash/Lexer/Redirect.antt =====
-- `lex_redirect` and `lex_heredoc_delimiter` in crates/bash_parser/src/lexer.rs.
pub mod Bounds
use wasm_shell.Base.{
  ℕ, ◌-◌, Bool, true, false, not, [], ◌∷◌, Str, codes, ◌==◌, if◌then◌else◌, ◌||◌, Option, Result,
  ok, err, ◌>>=◌,
}
use wasm_shell.Base.Int.{is_digit, parse_digits}
use wasm_shell.Bash.Error.{ParseError, parse_error, eof_span}
use wasm_shell.Bash.Lexer.Token.{
  RedirectOp, less, greater, greater_greater, less_greater, greater_pipe, greater_amp, less_amp,
  TokenKind, redirect, here_doc,
}
use wasm_shell.Bash.Lexer.Scan.{Lexer, at, past, eat, skip_while, slice}
use wasm_shell.Bash.Lexer.Word.{Lexed, span_from, emit, lex_word}

unfoldable pub is_inline_space : ℕ → Bool
is_inline_space c = c == b' ' || c == 9

-- `skip_whitespace_inline`
unfoldable pub skip_inline : ℕ → Str → Lexer
unfolding is_inline_space
skip_inline pos s = skip_while is_inline_space pos s

abbrev pub Delimited : Type 0
Delimited = Result ParseError ((Str × Bool) × Lexer)

quote_or_newline : ℕ → ℕ → Bool
quote_or_newline quote c = not (c == quote || c == b'\n')

unterminated_quote : ℕ → Lexer → Delimited
unfolding span_from
unterminated_quote start l =
    err (parse_error (span_from start l) (codes "unterminated heredoc delimiter quote"))

quoted_end : ℕ → Str → ℕ → Str → Delimited
unfolding unterminated_quote
quoted_end start text pos [] = unterminated_quote start (at pos [])
quoted_end start text pos (c ∷ s) =
    if c == b'\n'
    then unterminated_quote start (at pos (c ∷ s))
    else ok ((text, true), past pos c s)

-- Behind the opening quote
quoted_delimiter : ℕ → ℕ → Lexer → Delimited
unfolding quote_or_newline quoted_end
quoted_delimiter start quote l =
    let e = skip_while (quote_or_newline quote) l.pos l.rest in
    quoted_end start (slice l e) e.pos e.rest

not_blank : ℕ → Bool
not_blank c = not (c == b'\n' || c == b' ' || c == 9)

bare_delimiter : Lexer → Delimited
unfolding not_blank
bare_delimiter l =
    let e = skip_while not_blank l.pos l.rest in
    if e.pos == l.pos
    then err (parse_error (eof_span e.pos) (codes "expected heredoc delimiter after <<"))
    else ok ((slice l e, false), e)

unfoldable pub lex_heredoc_delimiter : Lexer → Delimited
unfolding quoted_delimiter bare_delimiter
lex_heredoc_delimiter l =
    let single = eat b'\'' l.pos l.rest in
    let double = eat b'"' l.pos l.rest in
    if single.0
    then quoted_delimiter l.pos b'\'' single.1
    else if double.0
    then quoted_delimiter l.pos b'"' double.1
    else bare_delimiter l

-- `<<`, with the lexer behind it
lex_heredoc : ℕ → Option ℕ → Lexer → Lexed
unfolding lex_heredoc_delimiter skip_inline span_from
lex_heredoc start fd l =
    let dash = eat b'-' l.pos l.rest in
    lex_heredoc_delimiter (skip_inline dash.1.pos dash.1.rest) >>= λ ((delimiter, quoted), after).
    emit (here_doc fd delimiter quoted dash.0) start after

abbrev redirect_token : Option ℕ → RedirectOp → TokenKind
redirect_token fd op = redirect (record { fd = fd; op = op })

-- Behind `<`
lex_less : ℕ → Option ℕ → Lexer → Lexed
unfolding lex_heredoc span_from
lex_less start fd l =
    let again = eat b'<' l.pos l.rest in
    let gt = eat b'>' l.pos l.rest in
    let and = eat b'&' l.pos l.rest in
    if again.0
    then lex_heredoc start fd again.1
    else if gt.0
    then emit (redirect_token fd less_greater) start gt.1
    else if and.0
    then emit (redirect_token fd less_amp) start and.1
    else emit (redirect_token fd less) start l

-- Behind `>`
lex_greater : ℕ → Option ℕ → Lexer → Lexed
unfolding span_from
lex_greater start fd l =
    let again = eat b'>' l.pos l.rest in
    let bar = eat b'|' l.pos l.rest in
    let and = eat b'&' l.pos l.rest in
    if again.0
    then emit (redirect_token fd greater_greater) start again.1
    else if bar.0
    then emit (redirect_token fd greater_pipe) start bar.1
    else if and.0
    then emit (redirect_token fd greater_amp) start and.1
    else emit (redirect_token fd greater) start l

-- `str::parse::<u32>` of digits
u32_of_digits : Str → Option ℕ
u32_of_digits digits = parse_digits 4294967296 digits

redirect_at : ℕ → Option ℕ → Str → ℕ → Str → Lexed
unfolding lex_less lex_greater
redirect_at start fd whole pos [] = lex_word start whole
redirect_at start fd whole pos (c ∷ s) =
    if c == b'<'
    then lex_less start fd (past pos c s)
    else if c == b'>'
    then lex_greater start fd (past pos c s)
    else lex_word start whole

-- `lex_redirect`, always called at the token's start and with no file descriptor of its own: empty digits are no
-- number either. Where no operator follows the digits, the text is a word after all.
unfoldable pub lex_redirect : ℕ → Str → Lexed
unfolding u32_of_digits redirect_at
lex_redirect start s =
    let l = skip_while is_digit start s in
    redirect_at start (u32_of_digits (slice (at start s) l)) s l.pos l.rest
