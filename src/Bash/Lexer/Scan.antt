-- ===== src/Bash/Lexer/Scan.antt =====
-- The primitives of the lexer in crates/bash_parser/src/lexer.rs, and what a loop over the text passes.
use wasm_shell.Base.{
  ℕ, ◌+◌, ◌-◌, Bool, true, false, [], ◌∷◌, ◌++◌, Str, ◌==◌, if◌then◌else◌, ◌≡◌, refl, ◌≤◌, arith,
  Bool-cases, inl, inr, append_assoc, ap, ◌∙◌, sym,
}
use wasm_shell.Base.Utf8.{len_utf8, byte_len, byte_len-append}

-- The position, and the text from there on.
pub record Lexer : Type 0 where
  pub pos : ℕ
  pub rest : Str

unfoldable pub new_lexer : Str → Lexer
new_lexer src = record { pos = 0; rest = src }

abbrev pub at : ℕ → Str → Lexer
at pos s = record { pos = pos; rest = s }

-- The lexer after the character in front of `s`.
abbrev pub past : ℕ → ℕ → Str → Lexer
past pos c s = at (pos + len_utf8 c) s

-- Past the next character, whatever it is; `advance`.
unfoldable pub skip_one : ℕ → Str → Lexer
skip_one pos [] = at pos []
skip_one pos (c ∷ s) = past pos c s

-- Whether the next character is `d`, and the lexer past it if so.
unfoldable pub eat : ℕ → ℕ → Str → Bool × Lexer
eat d pos [] = (false, at pos [])
eat d pos (c ∷ s) = if c == d then (true, past pos c s) else (false, at pos (c ∷ s))

-- The loop that advances while the next character satisfies `p`.
unfoldable pub skip_while : (ℕ → Bool) → ℕ → Str → Lexer
skip_while p pos [] = at pos []
skip_while p pos (c ∷ s) =
    let more = skip_while p (pos + len_utf8 c) s in if p c then more else at pos (c ∷ s)

-- The first `n` bytes, whole characters.
unfoldable pub take_bytes : Str → ℕ → Str
take_bytes [] n = []
take_bytes (c ∷ s) n = let more = take_bytes s (n - len_utf8 c) in if n == 0 then [] else c ∷ more

-- `src[start..pos]`
abbrev pub slice : Lexer → Lexer → Str
slice a b = take_bytes a.rest (b.pos - a.pos)

-- What lies between a lexer and a later one.
pub record Reaches (a b : Lexer) : Type 0 where
  pub text : Str
  pub splits : a.rest ≡ text ++ b.rest
  pub moves : b.pos ≡ a.pos + byte_len text

pub Reaches_here : (a : Lexer) → Reaches a a
unfolding byte_len
Reaches_here a = record { text = []; splits = refl; moves = omega arith }

pub Reaches_past : (pos c : ℕ) (s : Str) → Reaches (at pos (c ∷ s)) (past pos c s)
unfolding byte_len
Reaches_past pos c s = record { text = c ∷ []; splits = refl; moves = omega arith }

pub Reaches_trans : {a b c : Lexer} → Reaches a b → Reaches b c → Reaches a c
Reaches_trans r s = record {
  text = r.text ++ s.text;
  splits = r.splits ∙ ap (λ u. r.text ++ u) s.splits ∙ sym (append_assoc r.text s.text _);
  moves = omega (arith, r.moves, s.moves, byte_len-append r.text s.text);
}

pub Reaches_step :
    {b : Lexer} (pos c : ℕ) (s : Str) → Reaches (past pos c s) b → Reaches (at pos (c ∷ s)) b
Reaches_step pos c s r = Reaches_trans (Reaches_past pos c s) r

len_utf8_pos : (c : ℕ) → 1 ≤ len_utf8 c
unfolding len_utf8
len_utf8_pos c = ground arith

take_bytes-append : (t r : Str) → take_bytes (t ++ r) (byte_len t) ≡ t
unfolding take_bytes byte_len
take_bytes-append [] [] = refl
take_bytes-append [] (c ∷ r) = refl
take_bytes-append (c ∷ t) r = ground (arith, len_utf8_pos c, take_bytes-append t r)

-- The slice between two lexers is the text that lies between them.
pub slice-Reaches : {a b : Lexer} (r : Reaches a b) → slice a b ≡ r.text
slice-Reaches {a} {b} r =
    let n : b.pos - a.pos ≡ byte_len r.text = omega (arith, r.moves) in
    rw (r.splits, n) (take_bytes-append r.text b.rest)

pub skip_while-Reaches :
    (p : ℕ → Bool) (s : Str) (pos : ℕ) → Reaches (at pos s) (skip_while p pos s)
unfolding skip_while
skip_while-Reaches p [] pos = Reaches_here (at pos [])
skip_while-Reaches p (c ∷ s) pos = elim (Bool-cases (p c)) [
  | inl y ↦ rw y (Reaches_step pos c s (skip_while-Reaches p s (pos + len_utf8 c)))
  | inr n ↦ rw n (Reaches_here (at pos (c ∷ s)))
]

pub skip_one-Reaches : (pos : ℕ) (s : Str) → Reaches (at pos s) (skip_one pos s)
unfolding skip_one
skip_one-Reaches pos [] = Reaches_here (at pos [])
skip_one-Reaches pos (c ∷ s) = Reaches_past pos c s

pub eat-Reaches : (d pos : ℕ) (s : Str) → Reaches (at pos s) (eat d pos s).1
unfolding eat
eat-Reaches d pos [] = Reaches_here (at pos [])
eat-Reaches d pos (c ∷ s) = elim (Bool-cases (c == d)) [
  | inl y ↦ rw y (Reaches_past pos c s)
  | inr n ↦ rw n (Reaches_here (at pos (c ∷ s)))
]

-- Where the loop ends before the end of the text, the next character ends it.
pub skip_while_stops :
    (p : ℕ → Bool) (s : Str) (pos d : ℕ) (u : Str) → (skip_while p pos s).rest ≡ d ∷ u → p d ≡ false
unfolding skip_while
skip_while_stops p [] pos d u h = cc
skip_while_stops p (c ∷ s) pos d u h = elim (Bool-cases (p c)) [
  | inl y ↦ skip_while_stops p s (pos + len_utf8 c) d u (rw y at h)
  | inr n ↦ ground (arith, rw n at h)
]
