-- ===== src/Bash/WordParts.antt =====
-- `parse_word_parts` and `parse_dq_word_parts` in crates/bash_parser/src/parser.rs, which split a word at its expansions.
pub mod Fuel
use wasm_shell.Base.{
  ℕ, zero, suc, ◌+◌, ◌-◌, Bool, false, not, ◌&&◌, [], ◌∷◌, Str, ◌++◌, ◌==◌, if◌then◌else◌, length,
}
use wasm_shell.Base.Utf8.{len_utf8}
use wasm_shell.Bash.Error.{no_fuel}
use wasm_shell.Bash.Ast.{
  Script, Word, Words, literal, variable, command_subst, arith_subst, concat, no_words, next_word,
  DqPart, Parts, dq_literal, dq_variable, dq_command_subst, dq_arith_subst, no_parts, next_part,
}
use wasm_shell.Bash.Lexer.Scan.{Lexer, at}
use wasm_shell.Bash.Action.{◌>>=◌, return, fail}
use wasm_shell.Bash.Words.{Run, parse_dollar, parse_backtick}

-- `advance_chars`, with the position of the iterator
unfoldable pub advance_chars : ℕ → Str → ℕ → Lexer
advance_chars i [] n = at i []
advance_chars i (c ∷ s) n =
    let more = advance_chars (i + len_utf8 c) s (n - len_utf8 c) in
    if n == 0 then at i (c ∷ s) else more

unfoldable pub simplify_word_parts : Words → Word
simplify_word_parts no_words = literal []
simplify_word_parts (next_word w no_words) = w
simplify_word_parts (next_word w (next_word v ws)) = concat (next_word w (next_word v ws))

unfoldable pub word_to_dq_part : Word → DqPart
word_to_dq_part (literal s) = dq_literal s
word_to_dq_part (variable v) = dq_variable v
word_to_dq_part (command_subst s) = dq_command_subst s
word_to_dq_part (arith_subst s) = dq_arith_subst s
word_to_dq_part w = dq_literal []

-- The literal collected so far, unless it is empty.
push_literal : Str → Words → Words
push_literal [] ws = ws
push_literal (c ∷ s) ws = next_word (literal (c ∷ s)) ws

push_dq_literal : Str → Parts → Parts
push_dq_literal [] ps = ps
push_dq_literal (c ∷ s) ps = next_part (dq_literal (c ∷ s)) ps

module _ (parse : Str → Run Script) where
  -- Behind a backslash: what joins the literal, and what remains.
  escaped : ℕ → Str → Str × Lexer
  escaped i [] = ([], at i [])
  escaped i (d ∷ s) = (if d == b'\n' then [] else d ∷ [], at (i + len_utf8 d) s)

  -- The loop of `parse_word_parts`, at byte `i` and with the literal collected so far.
  unfoldable pub word_parts : ℕ → Bool → ℕ → ℕ → Str → Str → Run Words
  unfolding push_literal parse_dollar parse_backtick escaped advance_chars
  word_parts fuel inside_dq base i collected [] = return (push_literal collected no_words)
  word_parts zero inside_dq base i collected (c ∷ s) = fail no_fuel
  word_parts (suc fuel) inside_dq base i collected (c ∷ s) =
      let words = λ (t : Str) (at_base : ℕ).
        word_parts fuel false at_base 0 [] t >>= λ ws. return (simplify_word_parts ws) in
      let rest = λ (lit : Str) (l : Lexer). word_parts fuel inside_dq base l.pos lit l.rest in
      let next = i + len_utf8 c in
      let esc = escaped next s in
      if c == b'\\' && not inside_dq
      then rest (collected ++ esc.0) esc.1
      else if c == b'$'
      then (parse_dollar parse words s (base + i) >>= λ (w, n).
          rest [] (advance_chars next s (n - 1)) >>= λ ws.
          return (push_literal collected (next_word w ws)))
      else if c == b'`'
      then (parse_backtick parse s (base + i + 1) >>= λ (script, n).
          rest [] (advance_chars next s n) >>= λ ws.
          return (push_literal collected (next_word (command_subst script) ws)))
      else rest (collected ++ c ∷ []) (at next s)

  -- `parse_word_str`, `parse_word_str_inner`
  unfoldable pub parse_word_str : Str → ℕ → Run Word
  unfolding word_parts simplify_word_parts
  parse_word_str s base =
      word_parts (length s) false base 0 [] s >>= λ ws. return (simplify_word_parts ws)

  -- The loop of `parse_dq_word_parts`.
  unfoldable pub dq_word_parts : ℕ → ℕ → ℕ → Str → Str → Run Parts
  unfolding push_dq_literal parse_dollar parse_backtick advance_chars word_to_dq_part parse_word_str
  dq_word_parts fuel base i collected [] = return (push_dq_literal collected no_parts)
  dq_word_parts zero base i collected (c ∷ s) = fail no_fuel
  dq_word_parts (suc fuel) base i collected (c ∷ s) =
      let rest = λ (lit : Str) (l : Lexer). dq_word_parts fuel base l.pos lit l.rest in
      let next = i + len_utf8 c in
      if c == b'$'
      then (parse_dollar parse parse_word_str s (base + i) >>= λ (w, n).
          rest [] (advance_chars next s (n - 1)) >>= λ ps.
          return (push_dq_literal collected (next_part (word_to_dq_part w) ps)))
      else if c == b'`'
      then (parse_backtick parse s (base + i + 1) >>= λ (script, n).
          rest [] (advance_chars next s n) >>= λ ps.
          return (push_dq_literal collected (next_part (dq_command_subst script) ps)))
      else rest (collected ++ c ∷ []) (at next s)

  unfoldable pub parse_dq_word_parts : Str → ℕ → Run Parts
  unfolding dq_word_parts
  parse_dq_word_parts s base = dq_word_parts (length s) base 0 [] s
