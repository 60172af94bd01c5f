-- ===== src/Bash/Lexer/Redirect/Bounds.antt =====
-- Redirect operators and the delimiters of heredocs stay inside the text.
use wasm_shell.Base.{ℕ, ◌≤◌, true, Option, [], ◌∷◌, Str, length, ◌==◌, ◌≡◌, arith, ap, ◌||◌}
use wasm_shell.Base.Int.{is_digit}
use wasm_shell.Base.Utf8.{byte_len, byte_len-append}
use wasm_shell.Bash.Error.{eof_span}
use wasm_shell.Bash.Lexer.Token.{
  less, greater, greater_greater, less_greater, greater_pipe, greater_amp, less_amp, TokenKind,
  here_doc,
}
use wasm_shell.Bash.Lexer.Scan.{
  Lexer, at, past, eat, skip_while, Reaches, Reaches_here, Reaches_past, Reaches_trans,
  skip_while-Reaches, eat-Reaches, slice,
}
use wasm_shell.Bash.Lexer.Places.{
  Within, Ensures, Ensures-bind, Ensures-from, Moves, Moves_past, Reaches-length, TokenAt, Holds,
}
use wasm_shell.Bash.Lexer.Word.{emit, span_from, is_word_char, lex_word}
use wasm_shell.Bash.Lexer.Word.Bounds.{Lexes, emit-TokenAt, Moves-text, lex_word-Lexes}
use wasm_shell.Bash.Lexer.Redirect.{
  Delimited, is_inline_space, skip_inline, quote_or_newline, unterminated_quote, quoted_end,
  quoted_delimiter, not_blank, bare_delimiter, lex_heredoc_delimiter, lex_heredoc, redirect_token,
  lex_less, lex_greater, u32_of_digits, redirect_at, lex_redirect,
}

-- A token that holds nothing of its text.
abbrev pub Op : TokenKind → Type 0
Op k = (t : Str) → 1 ≤ length t → Holds k t

-- Such a token, which starts where `b` stands.
pub emit-Lexes :
    {l : Lexer} (b : Lexer) (k : TokenKind) → Op k → Moves b l → Lexes b (emit k b.pos l)
emit-Lexes b k op (r, m) = emit-TokenAt k (Reaches_here b) r (op r.text (Moves-text r m))

pub Moves_trans : {a b c : Lexer} → Moves a b → Reaches b c → Moves a c
Moves_trans (r, m) q = (Reaches_trans r q, omega (arith, Reaches-length q))

pub skip_inline-Reaches : (pos : ℕ) (s : Str) → Reaches (at pos s) (skip_inline pos s)
unfolding skip_inline
skip_inline-Reaches pos s = skip_while-Reaches is_inline_space s pos

abbrev Delimits : Lexer → Delimited → Type 0
Delimits a r = Ensures a (λ (_, l). Reaches a l) r

pub span_from-Within : {a b : Lexer} → Reaches a b → Within a (span_from a.pos b)
unfolding span_from
span_from-Within {a} {b} r =
    (omega arith, omega (arith, r.moves, byte_len-append r.text b.rest, ap byte_len r.splits))

quoted_end-Delimits :
    {a : Lexer} (text : Str) (pos : ℕ) (s : Str)
    → Reaches a (at pos s)
    → Delimits a (quoted_end a.pos text pos s)
unfolding quoted_end unterminated_quote
quoted_end-Delimits text pos [] r = span_from-Within r
quoted_end-Delimits text pos (c ∷ s) r =
    let missing = span_from-Within r in
    let closed = Reaches_trans r (Reaches_past pos c s) in ground arith

quoted_delimiter-Delimits :
    {a : Lexer} (quote : ℕ) (l : Lexer) → Reaches a l → Delimits a (quoted_delimiter a.pos quote l)
unfolding quoted_delimiter
quoted_delimiter-Delimits {a} quote l r =
    let e = skip_while (quote_or_newline quote) l.pos l.rest in
    quoted_end-Delimits (slice l e) e.pos e.rest
      (Reaches_trans r (skip_while-Reaches (quote_or_newline quote) l.rest l.pos))

bare_delimiter-Delimits : (l : Lexer) → Delimits l (bare_delimiter l)
unfolding bare_delimiter
bare_delimiter-Delimits l =
    let r = skip_while-Reaches not_blank l.rest l.pos in
    let here = span_from-Within r in
    let low : Within l (eof_span (skip_while not_blank l.pos l.rest).pos) = (
      omega (arith, r.moves),
      omega (
        arith,
        r.moves,
        byte_len-append r.text (skip_while not_blank l.pos l.rest).rest,
        ap byte_len r.splits,
      ),
    ) in
    ground arith

lex_heredoc_delimiter-Delimits : (l : Lexer) → Delimits l (lex_heredoc_delimiter l)
unfolding lex_heredoc_delimiter
lex_heredoc_delimiter-Delimits l =
    let single =
      quoted_delimiter-Delimits b'\'' (eat b'\'' l.pos l.rest).1 (eat-Reaches b'\'' l.pos l.rest) in
    let double =
      quoted_delimiter-Delimits b'"' (eat b'"' l.pos l.rest).1 (eat-Reaches b'"' l.pos l.rest) in
    let bare = bare_delimiter-Delimits l in ground arith

lex_heredoc-Lexes :
    (b : Lexer) (fd : Option ℕ) (l : Lexer) → Moves b l → Lexes b (lex_heredoc b.pos fd l)
unfolding lex_heredoc
lex_heredoc-Lexes b fd l r =
    let dash = eat b'-' l.pos l.rest in
    let e = skip_inline dash.1.pos dash.1.rest in
    let to = Moves_trans r (
      Reaches_trans (eat-Reaches b'-' l.pos l.rest) (skip_inline-Reaches dash.1.pos dash.1.rest)) in
    Ensures-bind b (λ (_, after). Moves b after) (λ (t, after). TokenAt b t after)
      (lex_heredoc_delimiter e) _
      (Ensures-from (λ (_, after). Reaches e after) (λ (_, after). Moves b after)
        (lex_heredoc_delimiter e) to.0 (λ x q. Moves_trans to q) (lex_heredoc_delimiter-Delimits e))
      (λ ((delimiter, quoted), after) q.
        emit-Lexes b (here_doc fd delimiter quoted dash.0) (λ t h. h) q)

lex_less-Lexes : (b : Lexer) (fd : Option ℕ) (l : Lexer) → Moves b l → Lexes b (lex_less b.pos fd l)
unfolding lex_less
lex_less-Lexes b fd l r =
    let after = λ (d : ℕ). Moves_trans r (eat-Reaches d l.pos l.rest) in
    let heredoc = lex_heredoc-Lexes b fd (eat b'<' l.pos l.rest).1 (after b'<') in
    let both = emit-Lexes b (redirect_token fd less_greater) (λ t h. h) (after b'>') in
    let dup = emit-Lexes b (redirect_token fd less_amp) (λ t h. h) (after b'&') in
    let plain = emit-Lexes b (redirect_token fd less) (λ t h. h) r in ground arith

lex_greater-Lexes :
    (b : Lexer) (fd : Option ℕ) (l : Lexer) → Moves b l → Lexes b (lex_greater b.pos fd l)
unfolding lex_greater
lex_greater-Lexes b fd l r =
    let after = λ (d : ℕ). Moves_trans r (eat-Reaches d l.pos l.rest) in
    let append = emit-Lexes b (redirect_token fd greater_greater) (λ t h. h) (after b'>') in
    let clobber = emit-Lexes b (redirect_token fd greater_pipe) (λ t h. h) (after b'|') in
    let dup = emit-Lexes b (redirect_token fd greater_amp) (λ t h. h) (after b'&') in
    let plain = emit-Lexes b (redirect_token fd greater) (λ t h. h) r in ground arith

redirect_at-Lexes :
    (b : Lexer) (fd : Option ℕ) (pos : ℕ) (s : Str)
    → Reaches b (at pos s)
    → Lexes b (lex_word b.pos b.rest)
    → Lexes b (redirect_at b.pos fd b.rest pos s)
unfolding redirect_at
redirect_at-Lexes b fd pos [] r w = w
redirect_at-Lexes b fd pos (c ∷ s) r w =
    let m : Moves b (past pos c s) =
      (Reaches_trans r (Reaches_past pos c s), omega (arith, Reaches-length r)) in
    let less = lex_less-Lexes b fd (past pos c s) m in
    let greater = lex_greater-Lexes b fd (past pos c s) m in ground arith

pub lex_redirect_op-Lexes :
    (start c : ℕ) (s : Str)
    → (c == b'<' || c == b'>') ≡ true
    → Lexes (at start (c ∷ s)) (lex_redirect start (c ∷ s))
unfolding lex_redirect redirect_at skip_while
lex_redirect_op-Lexes start c s h =
    let m = Moves_past start c s (Reaches_here (past start c s)) in
    let fd = u32_of_digits (slice (at start (c ∷ s)) (skip_while is_digit start (c ∷ s))) in
    let less = lex_less-Lexes (at start (c ∷ s)) fd (past start c s) m in
    let greater = lex_greater-Lexes (at start (c ∷ s)) fd (past start c s) m in ground arith

pub lex_redirect_fd-Lexes :
    (start c : ℕ) (s : Str)
    → is_word_char c ≡ true
    → Lexes (at start (c ∷ s)) (lex_redirect start (c ∷ s))
unfolding lex_redirect
lex_redirect_fd-Lexes start c s h =
    let l = skip_while is_digit start (c ∷ s) in
    redirect_at-Lexes (at start (c ∷ s)) (u32_of_digits (slice (at start (c ∷ s)) l)) l.pos l.rest
      (skip_while-Reaches is_digit (c ∷ s) start) (lex_word-Lexes start c s h)
