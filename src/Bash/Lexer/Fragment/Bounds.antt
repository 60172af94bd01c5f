-- ===== src/Bash/Lexer/Fragment/Bounds.antt =====
-- Fragments inside double quotes stay inside the text.
use wasm_shell.Base.{
  ℕ, ◌+◌, true, false, [], ◌∷◌, Str, ◌==◌, ◌≡◌, arith, Bool-cases, inl, inr, ap, ◌||◌,
}
use wasm_shell.Base.Utf8.{len_utf8}
use wasm_shell.Bash.Lexer.Token.{dq_text, double_quote_close}
use wasm_shell.Bash.Lexer.Scan.{
  at, past, Reaches, Reaches_here, Reaches_past, Reaches_trans, Reaches_step, slice, slice-Reaches,
}
use wasm_shell.Bash.Lexer.Places.{Moves, Moves_past}
use wasm_shell.Bash.Lexer.Word.{emit, is_word_char}
use wasm_shell.Bash.Lexer.Word.Bounds.{Lexes, emit-TokenAt, Moves-text, lex_word-Lexes}
use wasm_shell.Bash.Lexer.Redirect.Bounds.{emit-Lexes}
use wasm_shell.Bash.Lexer.Fragment.{unescape_dq, ends_fragment, fragment_end, lex_dq_fragment}

fragment_end-Reaches : (s : Str) (pos : ℕ) → Reaches (at pos s) (fragment_end pos s)
unfolding fragment_end
fragment_end-Reaches [] pos = Reaches_here (at pos [])
fragment_end-Reaches (c ∷ []) pos =
    let p = Reaches_past pos c [] in let here = Reaches_here (at pos (c ∷ [])) in ground arith
fragment_end-Reaches (c ∷ (d ∷ s)) pos =
    let next = pos + len_utf8 c in
    let p = Reaches_past pos c (d ∷ s) in
    let here = Reaches_here (at pos (c ∷ (d ∷ s))) in
    let more = Reaches_trans p (fragment_end-Reaches (d ∷ s) next) in
    let escaped =
      Reaches_trans p (Reaches_step next d s (fragment_end-Reaches s (next + len_utf8 d))) in
    ground arith

fragment_end-Moves :
    (pos c : ℕ) (s : Str)
    → ends_fragment c ≡ false
    → Moves (at pos (c ∷ s)) (fragment_end pos (c ∷ s))
fragment_end-Moves pos c [] h =
    unfold fragment_end in (let m = Moves_past pos c [] (Reaches_here (past pos c [])) in rw h m)
fragment_end-Moves pos c (d ∷ s) h =
    let next = pos + len_utf8 c in
    let more = Moves_past pos c (d ∷ s) (fragment_end-Reaches (d ∷ s) next) in
    let escaped =
      Moves_past pos c (d ∷ s)
        (Reaches_step next d s (fragment_end-Reaches s (next + len_utf8 d))) in
    unfold fragment_end in ground arith

expansion_start : (c : ℕ) → (c == b'$' || c == b'`') ≡ true → is_word_char c ≡ true
unfolding is_word_char
expansion_start c h = ground arith

plain_start :
    (c : ℕ) → (c == b'"') ≡ false → (c == b'$' || c == b'`') ≡ false → ends_fragment c ≡ false
unfolding ends_fragment
plain_start c h k = ground arith

text-Lexes :
    (pos c : ℕ) (s : Str)
    → ends_fragment c ≡ false
    → let l = fragment_end pos (c ∷ s) in
      Lexes (at pos (c ∷ s)) (emit (dq_text (unescape_dq (slice (at pos (c ∷ s)) l))) pos l)
text-Lexes pos c s h =
    let (r, m) = fragment_end-Moves pos c s h in
    emit-TokenAt (dq_text (unescape_dq (slice (at pos (c ∷ s)) (fragment_end pos (c ∷ s)))))
      (Reaches_here (at pos (c ∷ s))) r (ap unescape_dq (slice-Reaches r), Moves-text r m)

pub lex_dq_fragment-Lexes : (pos : ℕ) (s : Str) → Lexes (at pos s) (lex_dq_fragment pos s)
unfolding lex_dq_fragment
lex_dq_fragment-Lexes pos [] = (omega arith, omega arith)
lex_dq_fragment-Lexes pos (c ∷ s) = elim (Bool-cases (c == b'"')) [
  | inl y ↦ rw y (
      emit-Lexes (at pos (c ∷ s)) double_quote_close (λ t h. h)
        (Moves_past pos c s (Reaches_here (past pos c s))))
  | inr n ↦ rw n (elim (Bool-cases (c == b'$' || c == b'`')) [
    | inl e ↦ rw e (lex_word-Lexes pos c s (expansion_start c e))
    | inr k ↦ rw k (text-Lexes pos c s (plain_start c n k))
  ])
]
