-- ===== src/Bash/Lexer/Next/RoundTrip.antt =====
-- Quoted text is read back, whatever follows it.
use wasm_shell.Base.{
  ℕ, ◌+◌, Bool, true, false, [], ◌∷◌, ◌++◌, Str, ◌==◌, if◌then◌else◌, ok, ◌≡◌, refl, arith,
  Bool-cases, inl, inr, ap, ap₂, ◌∙◌, ◌||◌, All, Lacks,
}
use wasm_shell.Base.Utf8.{len_utf8, byte_len}
use wasm_shell.Bash.Error.{new_span}
use wasm_shell.Bash.Lexer.Token.{single_quote, dq_text}
use wasm_shell.Bash.Lexer.Scan.{at, skip_while, slice, slice-Reaches}
use wasm_shell.Bash.Lexer.Word.{emit, span_from}
use wasm_shell.Bash.Lexer.Redirect.{is_inline_space, skip_inline}
use wasm_shell.Bash.Lexer.Fragment.{unescape_dq, ends_fragment, fragment_end, lex_dq_fragment}
use wasm_shell.Bash.Lexer.Next.{
  not_char, single_quoted_end, lex_single_quote, token_at, other_token, single_token, token_from,
  plain_token, next_token,
}

-- The loop stops behind a text that it passes, at a character that it does not pass.
pub skip_while-append :
    (p : ℕ → Bool) (t : Str) (d : ℕ) (u : Str) (pos : ℕ)
    → All (λ c. p c ≡ true) t
    → p d ≡ false
    → skip_while p pos (t ++ d ∷ u) ≡ at (pos + byte_len t) (d ∷ u)
unfolding skip_while byte_len
skip_while-append p [] d u pos h n = rw n (ap (λ k. at k (d ∷ u)) (omega arith))
skip_while-append p (c ∷ t) d u pos h n =
    rw (h.0)
      (skip_while-append p t d u (pos + len_utf8 c) h.1 n ∙ ap (λ k. at k (d ∷ u)) (omega arith))

pub slice-between :
    (pos k : ℕ) (t r : Str) → k ≡ pos + byte_len t → slice (at pos (t ++ r)) (at k r) ≡ t
slice-between pos k t r e = slice-Reaches (record { text = t; splits = refl; moves = e })

pub Lacks-not_char : (d : ℕ) (t : Str) → Lacks d t → All (λ c. not_char d c ≡ true) t
Lacks-not_char d [] h = tt
Lacks-not_char d (c ∷ t) h = (ground (arith, h.0), Lacks-not_char d t h.1)

lex_single_quote-append :
    (start pos : ℕ) (t r : Str)
    → Lacks b'\'' t
    → lex_single_quote start pos (t ++ b'\'' ∷ r)
      ≡ emit (single_quote t) start (at (pos + byte_len t + 1) r)
unfolding lex_single_quote single_quoted_end len_utf8
lex_single_quote-append start pos t r h =
    let e = skip_while-append (not_char b'\'') t b'\'' r pos (Lacks-not_char b'\'' t h) refl in
    rw (e, slice-between pos (pos + byte_len t) t (b'\'' ∷ r) refl) refl

-- `'…'` is one token, whatever the quotes hold but a quote, and whatever follows.
pub next_token-single_quote :
    (pos : ℕ) (t r : Str)
    → Lacks b'\'' t
    → next_token false (at pos (b'\'' ∷ (t ++ b'\'' ∷ r)))
      ≡ ok (
        record { kind = single_quote t; span = new_span pos (byte_len t + 2) },
        at (pos + (byte_len t + 2)) r,
      )
unfolding next_token plain_token skip_inline skip_while is_inline_space token_from token_at
    single_token other_token span_from len_utf8
next_token-single_quote pos t r h =
    lex_single_quote-append pos (pos + 1) t r h
    ∙ ap₂ (λ n k. ok (record { kind = single_quote t; span = new_span pos n }, at k r))
        (omega arith) (omega arith)

-- The characters that a backslash protects inside double quotes.
abbrev pub is_protected : ℕ → Bool
is_protected c = c == b'"' || c == b'\\' || c == b'$' || c == b'`'

abbrev pub escape_dq : Str → Str
escape_dq [] = []
escape_dq (c ∷ t) = if is_protected c then b'\\' ∷ (c ∷ escape_dq t) else c ∷ escape_dq t

fragment_end-plain :
    (pos c : ℕ) (s : Str)
    → is_protected c ≡ false
    → fragment_end pos (c ∷ s) ≡ fragment_end (pos + len_utf8 c) s
unfolding fragment_end ends_fragment
fragment_end-plain pos c [] h = ground arith
fragment_end-plain pos c (d ∷ s) h = ground arith

fragment_end-escaped :
    (pos c : ℕ) (s : Str)
    → fragment_end pos (b'\\' ∷ (c ∷ s)) ≡ fragment_end (pos + 1 + len_utf8 c) s
unfolding fragment_end ends_fragment len_utf8
fragment_end-escaped pos c s = refl

unescape_dq-plain :
    (c : ℕ) (s : Str) → is_protected c ≡ false → unescape_dq (c ∷ s) ≡ c ∷ unescape_dq s
unfolding unescape_dq
unescape_dq-plain c [] h = refl
unescape_dq-plain c (d ∷ s) h = ground arith

unescape_dq-escaped :
    (c : ℕ) (s : Str) → is_protected c ≡ true → unescape_dq (b'\\' ∷ (c ∷ s)) ≡ c ∷ unescape_dq s
unfolding unescape_dq
unescape_dq-escaped c s h = ground arith

fragment_end-quote : (pos : ℕ) (r : Str) → fragment_end pos (b'"' ∷ r) ≡ at pos (b'"' ∷ r)
unfolding fragment_end ends_fragment
fragment_end-quote pos [] = refl
fragment_end-quote pos (c ∷ r) = refl

fragment_end-escape_dq :
    (t r : Str) (pos : ℕ)
    → fragment_end pos (escape_dq t ++ b'"' ∷ r) ≡ at (pos + byte_len (escape_dq t)) (b'"' ∷ r)
unfolding byte_len len_utf8
fragment_end-escape_dq [] r pos = fragment_end-quote pos r ∙ ap (λ k. at k (b'"' ∷ r)) (omega arith)
fragment_end-escape_dq (c ∷ t) r pos = elim (Bool-cases (is_protected c)) [
  | inl y ↦ rw y (
      fragment_end-escaped pos c (escape_dq t ++ b'"' ∷ r)
      ∙ fragment_end-escape_dq t r (pos + 1 + len_utf8 c)
      ∙ ap (λ k. at k (b'"' ∷ r)) (omega arith))
  | inr n ↦ rw n (
      fragment_end-plain pos c (escape_dq t ++ b'"' ∷ r) n
      ∙ fragment_end-escape_dq t r (pos + len_utf8 c)
      ∙ ap (λ k. at k (b'"' ∷ r)) (omega arith))
]

unescape_dq-escape_dq : (t : Str) → unescape_dq (escape_dq t) ≡ t
unescape_dq-escape_dq [] = unfold unescape_dq in refl
unescape_dq-escape_dq (c ∷ t) = elim (Bool-cases (is_protected c)) [
  | inl y ↦ rw y (unescape_dq-escaped c (escape_dq t) y ∙ ap (λ u. c ∷ u) (unescape_dq-escape_dq t))
  | inr n ↦ rw n (unescape_dq-plain c (escape_dq t) n ∙ ap (λ u. c ∷ u) (unescape_dq-escape_dq t))
]

lex_dq_fragment-text :
    (pos c : ℕ) (s : Str)
    → ends_fragment c ≡ false
    → let l = fragment_end pos (c ∷ s) in
      lex_dq_fragment pos (c ∷ s) ≡ emit (dq_text (unescape_dq (slice (at pos (c ∷ s)) l))) pos l
unfolding lex_dq_fragment ends_fragment
lex_dq_fragment-text pos c s h = ground arith

-- A fragment that ends where `l` stands.
fragment-Reaches :
    (pos c : ℕ) (s r : Str)
    → ends_fragment c ≡ false
    → fragment_end pos (c ∷ (s ++ r)) ≡ at (pos + byte_len (c ∷ s)) r
    → lex_dq_fragment pos (c ∷ (s ++ r))
      ≡ ok (
        record { kind = dq_text (unescape_dq (c ∷ s)); span = new_span pos (byte_len (c ∷ s)) },
        at (pos + byte_len (c ∷ s)) r,
      )
unfolding span_from
fragment-Reaches pos c s r h e =
    lex_dq_fragment-text pos c (s ++ r) h
    ∙ rw (e, slice-between pos (pos + byte_len (c ∷ s)) (c ∷ s) r refl)
        (ap
          (λ n. ok (
            record { kind = dq_text (unescape_dq (c ∷ s)); span = new_span pos n },
            at (pos + byte_len (c ∷ s)) r,
          ))
          (omega arith))

plain-ends_fragment : (c : ℕ) → is_protected c ≡ false → ends_fragment c ≡ false
unfolding ends_fragment
plain-ends_fragment c h = ground arith

backslash-ends_fragment : ends_fragment b'\\' ≡ false
unfolding ends_fragment
backslash-ends_fragment = refl

-- Any text that is not empty, with a backslash in front of each double quote, backslash, dollar sign and
-- backtick, is inside double quotes one fragment up to the closing quote, and the fragment holds the text.
pub next_token-escape_dq :
    (pos c : ℕ) (t r : Str)
    → next_token true (at pos (escape_dq (c ∷ t) ++ b'"' ∷ r))
      ≡ ok (
        record { kind = dq_text (c ∷ t); span = new_span pos (byte_len (escape_dq (c ∷ t))) },
        at (pos + byte_len (escape_dq (c ∷ t))) (b'"' ∷ r),
      )
unfolding next_token
next_token-escape_dq pos c t r =
    let e = fragment_end-escape_dq (c ∷ t) r pos in
    let u = unescape_dq-escape_dq (c ∷ t) in
    elim (Bool-cases (is_protected c)) [
      | inl y ↦ rw y (
          fragment-Reaches pos b'\\' (c ∷ escape_dq t) (b'"' ∷ r) backslash-ends_fragment
            (rw y at e)
          ∙ rw (rw y at u) refl)
      | inr n ↦ rw n (
          fragment-Reaches pos c (escape_dq t) (b'"' ∷ r) (plain-ends_fragment c n) (rw n at e)
          ∙ rw (rw n at u) refl)
    ]
