-- ===== src/Bash/Lexer/Word/Bounds.antt =====
-- The scanner of words stays inside the text: what it passes lies between its lexers, and so do its errors.
use wasm_shell.Base.{
  ℕ, zero, suc, ◌+◌, ◌-◌, ◌≤◌, ◌<◌, true, false, Option, none, some, [], ◌∷◌, Str, length, ◌==◌, ok,
  err, ◌≡◌, refl, arith, Bool-cases, inl, inr, length-append, ap,
}
use wasm_shell.Base.Utf8.{len_utf8}
use wasm_shell.Bash.Lexer.Token.{TokenKind, word}
use wasm_shell.Bash.Error.{new_span, eof_span, parse_error}
use wasm_shell.Bash.Lexer.Scan.{
  Lexer, at, past, Reaches, Reaches_here, Reaches_past, Reaches_trans, Reaches_step,
  skip_while-Reaches, skip_one-Reaches, slice, slice-Reaches,
}
use wasm_shell.Bash.Lexer.Word.{
  Scanned, unterminated, balanced, quoted, consume_balanced_depth, paren, dollar, backtick,
  word_step, word_loop, span_from, Lexed, lex_word, is_name_char, is_word_char,
}
use wasm_shell.Bash.Lexer.Places.{
  Ensures, Ensures-bind, Ensures-from, Passes, Passes-Reaches, Moves, Moves_past, Reaches-length,
  TokenAt, Holds,
}

-- The scan behind `opening` reports the place behind it, which is no part of the text that remains.
abbrev FromOpening : ℕ → Lexer → Scanned → Type 0
FromOpening err_pos a (ok l) = Reaches a l
FromOpening err_pos a (err e) = (m : Str) × (e ≡ parse_error (eof_span err_pos) m)

FromOpening-past :
    (err_pos pos c : ℕ) (s : Str) (r : Scanned)
    → FromOpening err_pos (past pos c s) r
    → FromOpening err_pos (at pos (c ∷ s)) r
FromOpening-past e pos c s (ok l) h = Reaches_step pos c s h
FromOpening-past e pos c s (err x) h = h

module _ (err_pos opening closing : ℕ) where
  mutual
    unfolding balanced quoted unterminated

    balanced-FromOpening :
        (s : Str) (depth pos : ℕ)
        → FromOpening err_pos (at pos s) (balanced err_pos opening closing depth pos s)
    balanced-FromOpening [] depth pos = (_, refl)
    balanced-FromOpening (c ∷ s) depth pos =
        let next = pos + len_utf8 c in
        let q = FromOpening-past err_pos pos c s _ (quoted-FromOpening s depth next) in
        let d = FromOpening-past err_pos pos c s _ (balanced-FromOpening s (depth + 1) next) in
        let u = FromOpening-past err_pos pos c s _ (balanced-FromOpening s (depth - 1) next) in
        let b = FromOpening-past err_pos pos c s _ (balanced-FromOpening s depth next) in
        let p = Reaches_past pos c s in ground arith

    quoted-FromOpening :
        (s : Str) (depth pos : ℕ)
        → FromOpening err_pos (at pos s) (quoted err_pos opening closing depth pos s)
    quoted-FromOpening [] depth pos = (_, refl)
    quoted-FromOpening (c ∷ s) depth pos =
        let next = pos + len_utf8 c in
        let q = FromOpening-past err_pos pos c s _ (quoted-FromOpening s depth next) in
        let b = FromOpening-past err_pos pos c s _ (balanced-FromOpening s depth next) in
        ground arith

pub consume_balanced_depth-Passes :
    (opening closing depth : ℕ) (l : Lexer)
    → Passes l (consume_balanced_depth opening closing depth l)
unfolding consume_balanced_depth
consume_balanced_depth-Passes opening closing depth l =
    placed l (balanced l.pos opening closing depth l.pos l.rest)
      (balanced-FromOpening l.pos opening closing l.rest depth l.pos)
  where
    placed : (a : Lexer) (r : Scanned) → FromOpening a.pos a r → Passes a r
    placed a (ok l) h = h
    placed a (err e) (m, p) = rw p (omega arith, omega arith)

paren-double :
    (pos c : ℕ) (s : Str)
    → (c == b'(') ≡ true
    → paren pos (c ∷ s) ≡ consume_balanced_depth b'(' b')' 2 (past pos c s)
unfolding paren
paren-double pos c s h = rw h refl

paren-single :
    (pos c : ℕ) (s : Str)
    → (c == b'(') ≡ false
    → paren pos (c ∷ s) ≡ consume_balanced_depth b'(' b')' 1 (at pos (c ∷ s))
unfolding paren
paren-single pos c s h = rw h refl

paren-Passes : (pos : ℕ) (s : Str) → Passes (at pos s) (paren pos s)
paren-Passes pos [] = unfold paren in consume_balanced_depth-Passes b'(' b')' 1 (at pos [])
paren-Passes pos (c ∷ s) =
    let two =
      Passes-Reaches _ (Reaches_past pos c s)
        (consume_balanced_depth-Passes b'(' b')' 2 (past pos c s)) in
    let one = consume_balanced_depth-Passes b'(' b')' 1 (at pos (c ∷ s)) in
    elim (Bool-cases (c == b'(')) as (λ x. Passes (at pos (c ∷ s)) (paren pos (c ∷ s))) [
      | inl y ↦ rw (paren-double pos c s y) two
      | inr n ↦ rw (paren-single pos c s n) one
    ]

dollar-Passes : (pos : ℕ) (s : Str) → Passes (at pos s) (dollar pos s)
unfolding dollar
dollar-Passes pos [] = Reaches_here (at pos [])
dollar-Passes pos (c ∷ s) =
    let p = Reaches_past pos c s in
    let here = Reaches_here (at pos (c ∷ s)) in
    let brace = Passes-Reaches _ p (consume_balanced_depth-Passes b'{' b'}' 1 (past pos c s)) in
    let round = Passes-Reaches _ p (paren-Passes (pos + len_utf8 c) s) in
    let name = Reaches_trans p (skip_while-Reaches is_name_char s (pos + len_utf8 c)) in
    ground arith

backtick-Reaches : (s : Str) (pos : ℕ) → Reaches (at pos s) (backtick pos s)
unfolding backtick
backtick-Reaches [] pos = Reaches_here (at pos [])
backtick-Reaches (c ∷ []) pos =
    let p = Reaches_past pos c [] in let here = Reaches_here (at pos (c ∷ [])) in ground arith
backtick-Reaches (c ∷ (d ∷ s)) pos =
    let next = pos + len_utf8 c in
    let p = Reaches_past pos c (d ∷ s) in
    let here = Reaches_here (at pos (c ∷ (d ∷ s))) in
    let more = Reaches_trans p (backtick-Reaches (d ∷ s) next) in
    let escaped =
      Reaches_trans p (Reaches_step next d s (backtick-Reaches s (next + len_utf8 d))) in
    ground arith

abbrev StepMoves : ℕ → ℕ → Str → Option Lexer → Type 0
StepMoves pos c s none = is_word_char c ≡ false
StepMoves pos c s (some l) = Moves (at pos (c ∷ s)) l

word_step-StepMoves :
    (pos c : ℕ) (s : Str) → Ensures (at pos (c ∷ s)) (StepMoves pos c s) (word_step pos c s)
unfolding word_step
word_step-StepMoves pos c s =
    let one = Moves_past pos c s (Reaches_here (past pos c s)) in
    let two = Moves_past pos c s (skip_one-Reaches (pos + len_utf8 c) s) in
    let tick = Moves_past pos c s (backtick-Reaches s (pos + len_utf8 c)) in
    let expansion =
      Ensures-bind (at pos (c ∷ s)) (λ l. Moves (at pos (c ∷ s)) l) (StepMoves pos c s)
        (dollar (pos + len_utf8 c) s) (λ l. ok (some l))
        (Ensures-from (λ l. Reaches (past pos c s) l) (λ l. Moves (at pos (c ∷ s)) l) _
          (Reaches_past pos c s) (λ l r. Moves_past pos c s r) (dollar-Passes (pos + len_utf8 c) s))
        (λ l h. h) in
    ground arith

after_round :
    (pos c : ℕ) (s : Str) (again : Lexer → Scanned) (o : Option Lexer)
    → StepMoves pos c s o
    → ((l : Lexer) → Moves (at pos (c ∷ s)) l → Passes l (again l))
    → Passes (at pos (c ∷ s)) (elim o [ none ↦ ok (at pos (c ∷ s)) | some l ↦ again l ])
after_round pos c s again none m k = Reaches_here (at pos (c ∷ s))
after_round pos c s again (some l) m k = Passes-Reaches _ m.0 (k l m)

pub word_loop-Passes :
    (fuel : ℕ) (s : Str) (pos : ℕ) → length s ≤ fuel → Passes (at pos s) (word_loop fuel pos s)
unfolding word_loop
word_loop-Passes fuel [] pos h = Reaches_here (at pos [])
word_loop-Passes zero (c ∷ s) pos h = absurd (omega arith)
word_loop-Passes (suc fuel) (c ∷ s) pos h =
    Ensures-bind (at pos (c ∷ s)) (StepMoves pos c s) (λ l. Reaches (at pos (c ∷ s)) l)
      (word_step pos c s) _ (word_step-StepMoves pos c s)
      λ o m.
        after_round pos c s (λ l. word_loop fuel l.pos l.rest) o m
          λ l (r, q). word_loop-Passes fuel l.rest l.pos (omega arith)

module _ (pos c : ℕ) (s : Str) (starts : is_word_char c ≡ true) where
  moved :
      (o : Option Lexer)
      → StepMoves pos c s o
      → Ensures
          (at pos (c ∷ s))
          (λ l. Moves (at pos (c ∷ s)) l)
          (elim o [ none ↦ ok (at pos (c ∷ s)) | some l ↦ word_loop (length s) l.pos l.rest ])
  moved none m = cc
  moved (some l) (r, m) =
      Ensures-from (λ e. Reaches l e) (λ e. Moves (at pos (c ∷ s)) e) _ r
        (λ e q. (Reaches_trans r q, omega (arith, Reaches-length q)))
        (word_loop-Passes (length s) l.rest l.pos (omega arith))

  -- A word starts with a character of a word, so that it is not empty.
  word_loop-Moves :
      Ensures
        (at pos (c ∷ s))
        (λ l. Moves (at pos (c ∷ s)) l)
        (word_loop (suc (length s)) pos (c ∷ s))
  unfolding word_loop
  word_loop-Moves =
      Ensures-bind (at pos (c ∷ s)) (StepMoves pos c s) (λ l. Moves (at pos (c ∷ s)) l)
        (word_step pos c s) _ (word_step-StepMoves pos c s) moved

abbrev pub Lexes : Lexer → Lexed → Type 0
Lexes a r = Ensures a (λ (t, l). TokenAt a t l) r

-- What `emit` gives, when the text that it has taken is what the token holds.
pub emit-TokenAt :
    {a b l : Lexer} (k : TokenKind) (skipped : Reaches a b) (taken : Reaches b l)
    → Holds k taken.text
    → TokenAt a (record { kind = k; span = span_from b.pos l }) l
unfolding span_from
emit-TokenAt {a} {b} {l} k skipped taken h = record {
  begins = b;
  skipped = skipped;
  taken = taken;
  span_is = ap (new_span b.pos) (omega (arith, taken.moves));
  holds = h;
}

pub Moves-text : {a l : Lexer} (r : Reaches a l) → length l.rest < length a.rest → 1 ≤ length r.text
Moves-text {a} {l} r h = omega (arith, ap length r.splits, length-append r.text l.rest)

pub lex_word-Lexes :
    (pos c : ℕ) (s : Str) → is_word_char c ≡ true → Lexes (at pos (c ∷ s)) (lex_word pos (c ∷ s))
unfolding lex_word
lex_word-Lexes pos c s starts =
    Ensures-bind (at pos (c ∷ s)) (λ l. Moves (at pos (c ∷ s)) l)
      (λ (t, l). TokenAt (at pos (c ∷ s)) t l) (word_loop (suc (length s)) pos (c ∷ s)) _
      (word_loop-Moves pos c s starts)
      λ l (r, m).
        emit-TokenAt (word (slice (at pos (c ∷ s)) l)) (Reaches_here (at pos (c ∷ s))) r
          (slice-Reaches r, Moves-text r m)
