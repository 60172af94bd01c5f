-- ===== src/Bash/WordParts/Fuel.antt =====
-- The fuel of words, in crates/bash_parser/src/parser.rs, with a parser of scripts for shorter texts.
use wasm_shell.Base.{
  ℕ, zero, suc, ◌+◌, ◌-◌, ◌≤◌, ◌<◌, Bool, false, [], ◌∷◌, ◌++◌, Str, length, arith,
}
use wasm_shell.Base.Utf8.{len_utf8}
use wasm_shell.Bash.Ast.{Script, Word, next_word, command_subst, next_part, dq_command_subst}
use wasm_shell.Bash.Action.{◌>>=◌, return}
use wasm_shell.Bash.Lexer.Scan.{Lexer, at}
use wasm_shell.Bash.Words.{Queue, Run, parse_dollar, parse_backtick}
use wasm_shell.Bash.Words.Fuel.{Safe, SafeBelow, Safe-bind, parse_backtick-Safe, parse_dollar-Safe}
use wasm_shell.Bash.WordParts.{
  advance_chars, simplify_word_parts, word_to_dq_part, push_literal, push_dq_literal, escaped,
  word_parts, parse_word_str, dq_word_parts, parse_dq_word_parts,
}

advance_chars-length : (s : Str) (i n : ℕ) → length (advance_chars i s n).rest ≤ length s
unfolding advance_chars
advance_chars-length [] i n = omega arith
advance_chars-length (c ∷ s) i n =
    ground (arith, advance_chars-length s (i + len_utf8 c) (n - len_utf8 c))

module _ (I : Queue → Type 0) (parse : Str → Run Script) (n : ℕ) (inner : SafeBelow I n parse) where
  escaped-length : (i : ℕ) (s : Str) → length (escaped parse i s).1.rest ≤ length s
  unfolding escaped
  escaped-length i [] = omega arith
  escaped-length i (d ∷ s) = omega arith

  -- An expansion, with the rest of the loop for texts that are no longer than `s`.
  expansion-Safe :
      {X : Type 0} (words : Str → ℕ → Run Word) (rest : Lexer → Run X) (build : Word → X → X)
      (s : Str) (base i : ℕ)
      → length s ≤ n
      → ((t : Str) (b : ℕ) → length t < length s → Safe I (words t b))
      → ((l : Lexer) → length l.rest ≤ length s → Safe I (rest l))
      → Safe I {A = X} (
          parse_dollar parse words s base >>= λ (w, m).
          rest (advance_chars i s (m - 1)) >>= λ ws. return (build w ws))
  expansion-Safe words rest build s base i h k r =
      Safe-bind I (parse_dollar parse words s base) _
        (parse_dollar-Safe I parse n inner words (length s) k s base h (omega arith))
        (λ (w, m).
          Safe-bind I (rest (advance_chars i s (m - 1))) (λ ws. return (build w ws))
            (r (advance_chars i s (m - 1)) (advance_chars-length s i (m - 1))) (λ ws q j. j))

  backticks-Safe :
      {X : Type 0} (rest : Lexer → Run X) (build : Script → X → X) (s : Str) (base i : ℕ)
      → length s ≤ n
      → ((l : Lexer) → length l.rest ≤ length s → Safe I (rest l))
      → Safe I {A = X} (
          parse_backtick parse s base >>= λ (script, m).
          rest (advance_chars i s m) >>= λ ws. return (build script ws))
  backticks-Safe rest build s base i h r =
      Safe-bind I (parse_backtick parse s base) _ (parse_backtick-Safe I parse n inner s base h)
        (λ (script, m).
          Safe-bind I (rest (advance_chars i s m)) (λ ws. return (build script ws))
            (r (advance_chars i s m) (advance_chars-length s i m)) (λ ws q j. j))

  word_parts-Safe :
      (fuel : ℕ) (inside_dq : Bool) (base i : ℕ) (collected s : Str)
      → length s ≤ fuel
      → length s ≤ n
      → Safe I (word_parts parse fuel inside_dq base i collected s)
  unfolding word_parts
  word_parts-Safe fuel inside_dq base i collected [] h k q j = j
  word_parts-Safe zero inside_dq base i collected (c ∷ s) h k q j = absurd (omega arith)
  word_parts-Safe (suc fuel) inside_dq base i collected (c ∷ s) h k q j =
      let rest = λ (lit : Str) (l : Lexer) (m : length l.rest ≤ length s).
        word_parts-Safe fuel inside_dq base l.pos lit l.rest (omega arith) (omega arith) in
      let next = i + len_utf8 c in
      let e = escaped parse next s in
      let esc = rest (collected ++ e.0) e.1 (escaped-length next s) q j in
      let plain = rest (collected ++ c ∷ []) (at next s) (omega arith) q j in
      let dollar =
        expansion-Safe _ (λ l. word_parts parse fuel inside_dq base l.pos [] l.rest)
          (λ w ws. push_literal collected (next_word w ws)) s (base + i) next (omega arith)
          (λ t b m.
            Safe-bind I (word_parts parse fuel false b 0 [] t)
              (λ ws. return (simplify_word_parts ws))
              (word_parts-Safe fuel false b 0 [] t (omega arith) (omega arith)) (λ ws r v. v))
          (λ l m. rest [] l m) q j in
      let tick =
        backticks-Safe (λ l. word_parts parse fuel inside_dq base l.pos [] l.rest)
          (λ script ws. push_literal collected (next_word (command_subst script) ws)) s
          (base + i + 1) next (omega arith) (λ l m. rest [] l m) q j in
      ground arith

  pub parse_word_str-Safe :
      (s : Str) (base : ℕ) → length s ≤ n → Safe I (parse_word_str parse s base)
  unfolding parse_word_str
  parse_word_str-Safe s base h =
      Safe-bind I (word_parts parse (length s) false base 0 [] s)
        (λ ws. return (simplify_word_parts ws))
        (word_parts-Safe (length s) false base 0 [] s (omega arith) h) (λ ws q j. j)

  dq_word_parts-Safe :
      (fuel base i : ℕ) (collected s : Str)
      → length s ≤ fuel
      → length s ≤ n
      → Safe I (dq_word_parts parse fuel base i collected s)
  unfolding dq_word_parts
  dq_word_parts-Safe fuel base i collected [] h k q j = j
  dq_word_parts-Safe zero base i collected (c ∷ s) h k q j = absurd (omega arith)
  dq_word_parts-Safe (suc fuel) base i collected (c ∷ s) h k q j =
      let rest = λ (lit : Str) (l : Lexer) (m : length l.rest ≤ length s).
        dq_word_parts-Safe fuel base l.pos lit l.rest (omega arith) (omega arith) in
      let next = i + len_utf8 c in
      let plain = rest (collected ++ c ∷ []) (at next s) (omega arith) q j in
      let dollar =
        expansion-Safe (parse_word_str parse) (λ l. dq_word_parts parse fuel base l.pos [] l.rest)
          (λ w ps. push_dq_literal collected (next_part (word_to_dq_part w) ps)) s (base + i) next
          (omega arith) (λ t b m. parse_word_str-Safe t b (omega arith)) (λ l m. rest [] l m) q j in
      let tick =
        backticks-Safe (λ l. dq_word_parts parse fuel base l.pos [] l.rest)
          (λ script ps. push_dq_literal collected (next_part (dq_command_subst script) ps)) s
          (base + i + 1) next (omega arith) (λ l m. rest [] l m) q j in
      ground arith

  pub parse_dq_word_parts-Safe :
      (s : Str) (base : ℕ) → length s ≤ n → Safe I (parse_dq_word_parts parse s base)
  unfolding parse_dq_word_parts
  parse_dq_word_parts-Safe s base h = dq_word_parts-Safe (length s) base 0 [] s (omega arith) h
