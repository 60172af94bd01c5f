-- ===== src/Bash/Names/Balanced.antt =====
-- What `extract_balanced` takes for the inside of `$(…)`.
use wasm_shell.Base.{
  ℕ, suc, ◌+◌, Bool, true, false, [], ◌∷◌, ◌++◌, Str, ◌==◌, if◌then◌else◌, Result, ok, err, ◌>>=◌,
  ◌≡◌, refl, arith, ap, ap₂, append-nil, sym, ◌∙◌, ◌≢◌, append_assoc, starts_with,
}
use wasm_shell.Base.Utf8.{len_utf8, byte_len, byte_len-append}
use wasm_shell.Bash.Error.{ParseError, panic}
use wasm_shell.Bash.Names.{balanced_text, more_text, extract_balanced}

-- Neither parenthesis
abbrev pub is_plain : ℕ → Bool
is_plain c = if c == b'(' then false else if c == b')' then false else true

-- Text whose parentheses match.
pub data Balanced : Str → Type 0 where
  nil : Balanced []
  char : {c : ℕ} {s : Str} → is_plain c ≡ true → Balanced s → Balanced (c ∷ s)
  nest : {s t : Str} → Balanced s → Balanced t → Balanced (b'(' ∷ (s ++ b')' ∷ t))

-- The same, where a character outside all parentheses is a single byte.
pub data Extracts : Str → Type 0 where
  nil : Extracts []
  char : {c : ℕ} {s : Str} → is_plain c ≡ true → len_utf8 c ≡ 1 → Extracts s → Extracts (c ∷ s)
  nest : {s t : Str} → Balanced s → Extracts t → Extracts (b'(' ∷ (s ++ b')' ∷ t))

-- A result, with the text in front of it.
abbrev prefixed : Str → Result ParseError (Str × ℕ) → Result ParseError (Str × ℕ)
prefixed [] r = r
prefixed (c ∷ s) r = prefixed s r >>= more_text c

prefixed-append :
    (s t : Str) (r : Result ParseError (Str × ℕ)) → prefixed (s ++ t) r ≡ prefixed s (prefixed t r)
prefixed-append [] t r = refl
prefixed-append (c ∷ s) t r = ap (λ x. x >>= more_text c) (prefixed-append s t r)

prefixed-ok : (s t : Str) (n : ℕ) → prefixed s (ok (t, n)) ≡ ok (s ++ t, n)
unfolding more_text
prefixed-ok [] t n = refl
prefixed-ok (c ∷ s) t n = ap (λ x. x >>= more_text c) (prefixed-ok s t n)

abbrev scan : ℕ → ℕ → ℕ → Str → Result ParseError (Str × ℕ)
scan base depth i s = balanced_text b'(' b')' (b')' ∷ []) base depth i s

module _ (base depth i : ℕ) (s : Str) where
  scan_open :
      scan base (suc depth) i (b'(' ∷ s)
      ≡ (scan base (suc (suc depth)) (i + 1) s >>= more_text b'(')
  unfolding balanced_text starts_with
  scan_open = ground arith

  scan_close :
      scan base (suc (suc depth)) i (b')' ∷ s)
      ≡ (scan base (suc depth) (i + 1) s >>= more_text b')')
  unfolding balanced_text starts_with
  scan_close = ground arith

  scan_char :
      (c : ℕ)
      → is_plain c ≡ true
      → (depth ≡ 0 → len_utf8 c ≡ 1)
      → scan base (suc depth) i (c ∷ s) ≡ (scan base (suc depth) (i + len_utf8 c) s >>= more_text c)
  unfolding balanced_text starts_with
  scan_char c h k = ground arith

scan_end : (base i : ℕ) (s : Str) → scan base 1 i (b')' ∷ s) ≡ ok ([], i + 1)
unfolding balanced_text starts_with byte_len len_utf8
scan_end base i s = refl

-- Matching parentheses inside others are passed as a whole.
scan-Balanced :
    (base : ℕ) {s : Str} (b : Balanced s) (r : Str) (depth i : ℕ)
    → scan base (suc (suc depth)) i (s ++ r)
      ≡ prefixed s (scan base (suc (suc depth)) (i + byte_len s) r)
unfolding byte_len len_utf8
scan-Balanced base nil r depth i = ap (λ n. scan base (suc (suc depth)) n r) (omega arith)
scan-Balanced base (char {c} {s} h b) r depth i =
    scan_char base (suc depth) i (s ++ r) c h (λ e. absurd (omega arith))
    ∙ ap (λ x. x >>= more_text c)
        (scan-Balanced base b r depth (i + len_utf8 c)
          ∙ ap (λ n. prefixed s (scan base (suc (suc depth)) n r)) (omega arith))
scan-Balanced base (nest {s} {t} b d) r depth i =
    scan_open base (suc depth) i ((s ++ b')' ∷ t) ++ r)
    ∙ ap (λ x. x >>= more_text b'(')
        (ap (λ u. scan base (suc (suc (suc depth))) (i + 1) u) (append_assoc s (b')' ∷ t) r)
          ∙ scan-Balanced base b (b')' ∷ (t ++ r)) (suc depth) (i + 1)
          ∙ ap (λ x. prefixed s x)
              (scan_close base (suc depth) (i + 1 + byte_len s) (t ++ r)
                ∙ ap (λ x. x >>= more_text b')')
                    (scan-Balanced base d r depth (i + 1 + byte_len s + 1)
                      ∙ ap (λ n. prefixed t (scan base (suc (suc depth)) n r))
                          (omega (arith, byte_len-append s (b')' ∷ t)))))
          ∙ sym (prefixed-append s (b')' ∷ t) _))

scan-Extracts :
    (base : ℕ) {s : Str} (b : Extracts s) (r : Str) (i : ℕ)
    → scan base 1 i (s ++ r) ≡ prefixed s (scan base 1 (i + byte_len s) r)
unfolding byte_len len_utf8
scan-Extracts base nil r i = ap (λ n. scan base 1 n r) (omega arith)
scan-Extracts base (char {c} {s} h k b) r i =
    scan_char base 0 i (s ++ r) c h (λ e. k)
    ∙ ap (λ x. x >>= more_text c)
        (scan-Extracts base b r (i + len_utf8 c)
          ∙ ap (λ n. prefixed s (scan base 1 n r)) (omega arith))
scan-Extracts base (nest {s} {t} b d) r i =
    scan_open base 0 i ((s ++ b')' ∷ t) ++ r)
    ∙ ap (λ x. x >>= more_text b'(')
        (ap (λ u. scan base 2 (i + 1) u) (append_assoc s (b')' ∷ t) r)
          ∙ scan-Balanced base b (b')' ∷ (t ++ r)) 0 (i + 1)
          ∙ ap (λ x. prefixed s x)
              (scan_close base 0 (i + 1 + byte_len s) (t ++ r)
                ∙ ap (λ x. x >>= more_text b')')
                    (scan-Extracts base d r (i + 1 + byte_len s + 1)
                      ∙ ap (λ n. prefixed t (scan base 1 n r))
                          (omega (arith, byte_len-append s (b')' ∷ t)))))
          ∙ sym (prefixed-append s (b')' ∷ t) _))

-- The text inside `$(…)` is what stands in front of the matching parenthesis, and what is consumed is one byte
-- more: the parentheses in the text match, at any depth, and outside of them the text is ASCII.
pub extract_balanced-Extracts :
    (base : ℕ) {s : Str} (b : Extracts s) (r : Str)
    → extract_balanced (s ++ b')' ∷ r) b'(' b')' base (b')' ∷ []) ≡ ok (s, byte_len s + 1)
unfolding extract_balanced
extract_balanced-Extracts base {s} b r =
    scan-Extracts base b (b')' ∷ r) 0
    ∙ ap (λ x. prefixed s x) (scan_end base (0 + byte_len s) r)
    ∙ prefixed-ok s [] (0 + byte_len s + 1)
    ∙ ap₂ (λ t n. ok (t, n)) (append-nil s) (omega arith)

prefixed-panic : (s : Str) → prefixed s (err panic) ≡ err panic
prefixed-panic [] = refl
prefixed-panic (c ∷ s) = ap (λ x. x >>= more_text c) (prefixed-panic s)

scan-wide : (base i c : ℕ) (r : Str) → len_utf8 c ≢ 1 → scan base 1 i (c ∷ r) ≡ err panic
unfolding balanced_text starts_with len_utf8
scan-wide base i c r h = ground arith

-- A character of more than one byte inside `$(…)` and outside inner parentheses makes the parser panic,
-- whatever follows it.
pub extract_balanced-panics :
    (base c : ℕ) {s : Str} (b : Extracts s) (r : Str)
    → len_utf8 c ≢ 1
    → extract_balanced (s ++ c ∷ r) b'(' b')' base (b')' ∷ []) ≡ err panic
unfolding extract_balanced
extract_balanced-panics base c {s} b r h =
    scan-Extracts base b (c ∷ r) 0
    ∙ ap (λ x. prefixed s x) (scan-wide base (0 + byte_len s) c r h)
    ∙ prefixed-panic s
