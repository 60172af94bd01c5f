-- ===== src/Bash/Lexer/Fragment.antt =====
-- `lex_dq_fragment` and `unescape_dq` in crates/bash_parser/src/lexer.rs: the text inside double quotes.
pub mod Bounds
use wasm_shell.Base.{ℕ, ◌+◌, ◌-◌, Bool, [], ◌∷◌, Str, codes, ◌==◌, if◌then◌else◌, ◌||◌, err}
use wasm_shell.Base.Utf8.{len_utf8}
use wasm_shell.Bash.Error.{parse_error, eof_span}
use wasm_shell.Bash.Lexer.Token.{dq_text, double_quote_close}
use wasm_shell.Bash.Lexer.Scan.{Lexer, at, past, slice}
use wasm_shell.Bash.Lexer.Word.{Lexed, span_from, emit, lex_word}

-- What a text fragment inside double quotes means.
unfoldable pub unescape_dq : Str → Str
unescape_dq [] = []
unescape_dq (c ∷ []) = c ∷ []
unescape_dq (c ∷ (d ∷ s)) =
    let escaped = unescape_dq s in
    let plain = unescape_dq (d ∷ s) in
    if c == b'\\'
    then (if d == b'"' || d == b'\\' || d == b'$' || d == b'`'
        then d ∷ escaped
        else if d == b'\n'
        then escaped
        else c ∷ (d ∷ escaped))
    else c ∷ plain

unfoldable pub ends_fragment : ℕ → Bool
ends_fragment c = c == b'"' || c == b'$' || c == b'`'

-- The end of a text fragment inside double quotes.
unfoldable pub fragment_end : ℕ → Str → Lexer
unfolding ends_fragment
fragment_end pos [] = at pos []
fragment_end pos (c ∷ []) = if ends_fragment c then at pos (c ∷ []) else past pos c []
fragment_end pos (c ∷ (d ∷ s)) =
    let escaped = fragment_end (pos + len_utf8 c + len_utf8 d) s in
    let more = fragment_end (pos + len_utf8 c) (d ∷ s) in
    if ends_fragment c then at pos (c ∷ (d ∷ s)) else if c == b'\\' then escaped else more

unfoldable pub lex_dq_fragment : ℕ → Str → Lexed
unfolding fragment_end unescape_dq span_from
lex_dq_fragment start [] =
    err (parse_error (eof_span start) (codes "unterminated double-quoted string"))
lex_dq_fragment start (c ∷ s) =
    let l = fragment_end start (c ∷ s) in
    if c == b'"'
    then emit double_quote_close start (past start c s)
    else if c == b'$' || c == b'`'
    then lex_word start (c ∷ s)
    else emit (dq_text (unescape_dq (slice (at start (c ∷ s)) l))) start l
