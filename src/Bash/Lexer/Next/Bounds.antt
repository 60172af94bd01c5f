-- ===== src/Bash/Lexer/Next/Bounds.antt =====
-- Tokens lie in the text one behind the other, and so do the places of errors.
use wasm_shell.Base.{
  ℕ, suc, ◌+◌, Bool, true, false, none, some, [], ◌∷◌, ◌++◌, Str, ◌==◌, ◌≡◌, refl, arith,
  Bool-cases, Option-cases, inl, inr, ap, sym, append_assoc, ◌∙◌, ◌||◌,
}
use wasm_shell.Base.Utf8.{len_utf8, byte_len, byte_len-append}
use wasm_shell.Bash.Error.{eof_span}
use wasm_shell.Bash.Lexer.Token.{
  TokenKind, single_quote, pipe, or_or, and_and, amp, semi, semi_semi, eof,
}
use wasm_shell.Bash.Lexer.Scan.{
  Lexer, at, past, skip_while, Reaches, Reaches_here, Reaches_trans, Reaches_step,
  skip_while-Reaches, skip_while_stops, eat-Reaches, slice, slice-Reaches,
}
use wasm_shell.Bash.Lexer.Places.{Ensures-from, Moves, Moves_past, TokenAt}
use wasm_shell.Bash.Lexer.Word.{Lexed, is_word_char}
use wasm_shell.Bash.Lexer.Word.Bounds.{Lexes, emit-TokenAt, lex_word-Lexes}
use wasm_shell.Bash.Lexer.Redirect.{is_inline_space, skip_inline}
use wasm_shell.Bash.Lexer.Redirect.Bounds.{
  Op, emit-Lexes, Moves_trans, skip_inline-Reaches, lex_redirect_op-Lexes, lex_redirect_fd-Lexes,
  span_from-Within,
}
use wasm_shell.Bash.Lexer.Fragment.Bounds.{lex_dq_fragment-Lexes}
use wasm_shell.Bash.Lexer.Next.{
  not_char, one_or_two, single_quoted_end, lex_single_quote, single_token, other_token, token_at,
  token_from, plain_token, next_token,
}

not_char-eq : (d c : ℕ) → not_char d c ≡ false → c ≡ d
not_char-eq d c h = ground arith

one_or_two-Lexes :
    (b : Lexer) (d : ℕ) (two one : TokenKind) (l : Lexer)
    → Op two
    → Op one
    → Moves b l
    → Lexes b (one_or_two d two one b.pos l)
unfolding one_or_two
one_or_two-Lexes b d two one l h k m =
    let long = emit-Lexes b two h (Moves_trans m (eat-Reaches d l.pos l.rest)) in
    let short = emit-Lexes b one k (Moves_trans m (eat-Reaches d l.pos l.rest)) in ground arith

-- The text between quotes, with the quotes.
quoted_text-Reaches :
    (start q pos d : ℕ) (s u : Str) (r : Reaches (past start q s) (at pos (d ∷ u)))
    → Reaches (at start (q ∷ s)) (past pos d u)
unfolding byte_len
quoted_text-Reaches start q pos d s u r = record {
  text = q ∷ (r.text ++ d ∷ []);
  splits = ap (λ x. q ∷ x) (r.splits ∙ sym (append_assoc r.text (d ∷ []) u));
  moves = omega (arith, r.moves, byte_len-append r.text (d ∷ []));
}

single_quoted_end-Lexes :
    (start q : ℕ) (s text : Str) (pos : ℕ) (u : Str) (r : Reaches (past start q s) (at pos u))
    → text ≡ r.text
    → q ≡ b'\''
    → ((d : ℕ) (v : Str) → u ≡ d ∷ v → d ≡ b'\'')
    → Lexes (at start (q ∷ s)) (single_quoted_end start text pos u)
unfolding single_quoted_end quoted_text-Reaches
single_quoted_end-Lexes start q s text pos [] r h e k = span_from-Within (Reaches_step start q s r)
single_quoted_end-Lexes start q s text pos (d ∷ u) r h e k =
    emit-TokenAt (single_quote text) (Reaches_here (at start (q ∷ s)))
      (quoted_text-Reaches start q pos d s u r) (simp (h, e, k d u refl))

lex_single_quote-Lexes :
    (start c : ℕ) (s : Str)
    → c ≡ b'\''
    → Lexes (at start (c ∷ s)) (lex_single_quote start (start + len_utf8 c) s)
unfolding lex_single_quote
lex_single_quote-Lexes start c s e =
    let next = start + len_utf8 c in
    let l = skip_while (not_char b'\'') next s in
    let r = skip_while-Reaches (not_char b'\'') s next in
    single_quoted_end-Lexes start c s (slice (at next s) l) l.pos l.rest r (slice-Reaches r) e
      (λ d u h. not_char-eq b'\'' d (skip_while_stops (not_char b'\'') s next d u h))

abbrev is_operator : ℕ → Bool
is_operator c = c == b';' || c == b'&' || c == b'|' || c == b'\'' || c == b'<' || c == b'>'

-- What no other case takes starts a word; the white space is skipped before.
word_start :
    (c : ℕ)
    → single_token c ≡ none
    → is_operator c ≡ false
    → is_inline_space c ≡ false
    → is_word_char c ≡ true
unfolding single_token is_word_char is_inline_space
word_start c s o i = ground arith

module _ (start c : ℕ) (s : Str) where
  other_token-word :
      is_operator c ≡ false
      → is_word_char c ≡ true
      → Lexes (at start (c ∷ s)) (other_token start c s)
  unfolding other_token
  other_token-word o h =
      let word = lex_word-Lexes start c s h in
      let redirect = lex_redirect_fd-Lexes start c s h in ground arith

  other_token-quote : c ≡ b'\'' → Lexes (at start (c ∷ s)) (other_token start c s)
  unfolding other_token
  other_token-quote e = let quote = lex_single_quote-Lexes start c s e in ground arith

  other_token-redirect :
      (c == b'<' || c == b'>') ≡ true → Lexes (at start (c ∷ s)) (other_token start c s)
  unfolding other_token
  other_token-redirect h = let redirect = lex_redirect_op-Lexes start c s h in ground arith

  other_token-pair :
      (c == b';' || c == b'&' || c == b'|') ≡ true
      → Lexes (at start (c ∷ s)) (other_token start c s)
  unfolding other_token
  other_token-pair h =
      let b = at start (c ∷ s) in
      let m = Moves_past start c s (Reaches_here (past start c s)) in
      let semis = one_or_two-Lexes b b';' semi_semi semi (past start c s) (λ t h. h) (λ t h. h) m in
      let amps = one_or_two-Lexes b b'&' and_and amp (past start c s) (λ t h. h) (λ t h. h) m in
      let bars = one_or_two-Lexes b b'|' or_or pipe (past start c s) (λ t h. h) (λ t h. h) m in
      ground arith

  other_token-Lexes :
      single_token c ≡ none
      → is_inline_space c ≡ false
      → Lexes (at start (c ∷ s)) (other_token start c s)
  other_token-Lexes n i = elim (Bool-cases (c == b'<' || c == b'>')) [
    | inl r ↦ other_token-redirect r
    | inr r ↦ elim (Bool-cases (c == b';' || c == b'&' || c == b'|')) [
      | inl p ↦ other_token-pair p
      | inr p ↦ elim (Bool-cases (c == b'\'')) [
        | inl q ↦ other_token-quote (ground arith)
        | inr q ↦
            let o : is_operator c ≡ false = ground arith in other_token-word o (word_start c n o i)
      ]
    ]
  ]

  single_token-Op : (k : TokenKind) → single_token c ≡ some k → Op k
  unfolding single_token
  single_token-Op k h = λ t p. ground arith

  token_at-Lexes : is_inline_space c ≡ false → Lexes (at start (c ∷ s)) (token_at start c s)
  unfolding token_at
  token_at-Lexes i = elim (Option-cases (single_token c)) [
    | inl n ↦ rw (n, token_at) (other_token-Lexes n i)
    | inr (k, e) ↦
        rw (e, token_at)
          (emit-Lexes (at start (c ∷ s)) k (single_token-Op k e)
            (Moves_past start c s (Reaches_here (past start c s))))
  ]

Lexes-Reaches : {a b : Lexer} (r : Lexed) → Reaches a b → Lexes b r → Lexes a r
Lexes-Reaches {a} {b} r p h =
    Ensures-from (λ (t, l). TokenAt b t l) (λ (t, l). TokenAt a t l) r p
      (λ (t, l) k. record {
        begins = k.begins;
        skipped = Reaches_trans p k.skipped;
        taken = k.taken;
        span_is = k.span_is;
        holds = k.holds;
      })
      h

-- The text is at its end, or `c` comes next.
abbrev pub NextIs : ℕ → Str → Type 0
NextIs c [] = Unit
NextIs c (d ∷ s) = d ≡ c

pub skip_comment-NextIs :
    (pos : ℕ) (s : Str) → NextIs b'\n' (skip_while (not_char b'\n') pos s).rest
unfolding skip_while
skip_comment-NextIs pos [] = tt
skip_comment-NextIs pos (c ∷ s) = elim (Bool-cases (not_char b'\n' c)) [
  | inl y ↦ rw y (skip_comment-NextIs (pos + len_utf8 c) s)
  | inr n ↦ rw n (not_char-eq b'\n' c n)
]

eof-Lexes : (pos : ℕ) → TokenAt (at pos []) (record { kind = eof; span = eof_span pos }) (at pos [])
unfolding byte_len
eof-Lexes pos = record {
  begins = at pos [];
  skipped = Reaches_here (at pos []);
  taken = record { text = []; splits = refl; moves = omega arith };
  span_is = refl;
  holds = refl;
}

module _ (again : ℕ → Str → Lexed) (start c : ℕ) (s : Str) (i : is_inline_space c ≡ false) where
  token_from-Lexes :
      Lexes
        (at start (c ∷ s))
        (let l = skip_while (not_char b'\n') start (c ∷ s) in again l.pos l.rest)
      → Lexes (at start (c ∷ s)) (token_from again start (c ∷ s))
  unfolding token_from
  token_from-Lexes h = let plain = token_at-Lexes start c s i in ground arith

  token_from-plain : (c == b'#') ≡ false → Lexes (at start (c ∷ s)) (token_from again start (c ∷ s))
  unfolding token_from
  token_from-plain n = rw n (token_at-Lexes start c s i)

skip_inline-stays :
    (pos c : ℕ) (s : Str) → is_inline_space c ≡ false → skip_inline pos (c ∷ s) ≡ at pos (c ∷ s)
unfolding skip_inline skip_while
skip_inline-stays pos c s h = rw h refl

newline_plain : (c : ℕ) → c ≡ b'\n' → (is_inline_space c ≡ false) × ((c == b'#') ≡ false)
unfolding is_inline_space
newline_plain c h = (ground arith, ground arith)

-- Behind a comment there is the end of the line, or of the text.
plain_token-at_newline :
    (rounds pos : ℕ) (s : Str) → NextIs b'\n' s → Lexes (at pos s) (plain_token (suc rounds) pos s)
unfolding plain_token token_from skip_inline skip_while
plain_token-at_newline rounds pos [] h = eof-Lexes pos
plain_token-at_newline rounds pos (c ∷ s) h =
    let (i, n) = newline_plain c h in
    rw (skip_inline-stays pos c s i, plain_token)
      (token_from-plain (λ p r. plain_token rounds p r) pos c s i n)

-- A token, where no blank stands in front of it.
token_from_any :
    (pos : ℕ) (s : Str)
    → ((c : ℕ) (u : Str) → s ≡ c ∷ u → is_inline_space c ≡ false)
    → Lexes (at pos s) (token_from (λ p r. plain_token 1 p r) pos s)
unfolding token_from
token_from_any pos [] i = eof-Lexes pos
token_from_any pos (c ∷ s) i =
    let l = skip_while (not_char b'\n') pos (c ∷ s) in
    token_from-Lexes (λ p r. plain_token 1 p r) pos c s (i c s refl)
      (Lexes-Reaches (plain_token 1 l.pos l.rest) (skip_while-Reaches (not_char b'\n') (c ∷ s) pos)
        (plain_token-at_newline 0 l.pos l.rest (skip_comment-NextIs pos (c ∷ s))))

plain_token-Lexes : (pos : ℕ) (s : Str) → Lexes (at pos s) (plain_token 2 pos s)
unfolding plain_token skip_inline
plain_token-Lexes pos s =
    let l = skip_inline pos s in
    Lexes-Reaches (token_from (λ p r. plain_token 1 p r) l.pos l.rest) (skip_inline-Reaches pos s)
      (token_from_any l.pos l.rest (λ c u e. skip_while_stops is_inline_space s pos c u e))

-- In both modes and from every place, the lexer gives a token or an error, and its fuel is enough. The token's
-- span is the text between the end of what is skipped and the place where the lexer stands then; it is empty
-- for the end of the text only; a word is this text itself, single-quoted text is it without the quotes, a
-- fragment inside double quotes is it unescaped. An error's span lies in the text that remains.
pub next_token-Lexes : (in_dq : Bool) (l : Lexer) → Lexes l (next_token in_dq l)
unfolding next_token
next_token-Lexes true l = lex_dq_fragment-Lexes l.pos l.rest
next_token-Lexes false l = plain_token-Lexes l.pos l.rest
