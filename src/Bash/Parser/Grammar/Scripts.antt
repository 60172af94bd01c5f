-- ===== src/Bash/Parser/Grammar/Scripts.antt =====
-- The fuel of scripts, in crates/bash_parser/src/parser.rs.
use wasm_shell.Base.{
  ℕ, zero, suc, ◌≤◌, ◌<◌, Bool, true, false, some, Str, ◌≡◌, sym, ◌∙◌, arith, Bool-cases, inl, inr,
}
use wasm_shell.Bash.Ast.{Script, next_command, Command}
use wasm_shell.Bash.Lexer.Token.{TokenKind, or_or, and_and, Token}
use wasm_shell.Bash.Action.{◌>>=◌, ◌>>◌, return}
use wasm_shell.Bash.Words.{Run}
use wasm_shell.Bash.Words.Fuel.{SafeBelow}
use wasm_shell.Bash.Parser.{Parser, Parse, is_newline, skip_newlines}
use wasm_shell.Bash.Parser.Fuel.{left, QueueOk, Ok, After, Quits, Quits-bind, skip_newlines-Quits}
use wasm_shell.Bash.Parser.Simple.{case_of}
use wasm_shell.Bash.Parser.Grammar.{
  is_amp, is_semi, is_pipe, ends_script, skip_list_separator, parse_list_item, script_loop,
  parse_script,
}
use wasm_shell.Bash.Parser.Grammar.Steps.{
  skip_list_separator-Step, skip_newlines-Step, skip_list_separator-Quits,
}
use wasm_shell.Bash.Parser.Grammar.Fuel.{then-Quits, peek-then}
use wasm_shell.Bash.Parser.Grammar.Steps.{Step-then}
use wasm_shell.Bash.Parser.Grammar.Items.{EndsItem, parse_list_item-Step}

-- A token that stays where it is ends a script.
covered :
    (k : TokenKind) → EndsItem k → is_semi k ≡ false → is_newline k ≡ false → ends_script k ≡ true
unfolding case_of is_pipe is_amp is_semi is_newline ends_script
covered and_and (c, o, y) h l = absurd o
covered or_or (c, o, y) h l = absurd o
covered k ((c, d), o, y) h l = ground arith

module _ (n m : ℕ) (b : Bool) (fits : n ≤ m) (parse : Str → Run Script) (fuel : ℕ)
    (inner : SafeBelow (QueueOk m b) n parse) where
  abbrev EndsAfter : ℕ → Type 0
  EndsAfter rounds =
      (p : Parser)
      → Ok n m b p
      → left p < rounds
      → Quits n m b (λ _ s. After n m b p s) (script_loop parse fuel rounds p)

  abbrev lines : ℕ → Parse Script
  lines rounds = skip_newlines fuel false >> script_loop parse fuel rounds

  lines-Quits :
      (rounds : ℕ)
      → rounds ≤ fuel
      → EndsAfter rounds
      → (p : Parser) → Ok n m b p
      → left p < rounds
      → Quits n m b (λ _ s. After n m b p s) (lines rounds p)
  lines-Quits rounds f more p k h =
      then-Quits n m b p (skip_newlines fuel false p) _
        (skip_newlines-Quits n m b fits fuel false p k (omega arith))
        (λ x s i j. more s i (omega arith))

  -- Behind an item and its separator, with the commands that follow.
  abbrev following : ℕ → Command → Parse Script
  following rounds c = script_loop parse fuel rounds >>= λ cs. return (next_command c cs)

  following-Quits :
      (rounds : ℕ)
      → EndsAfter rounds
      → (c : Command) (p : Parser) → Ok n m b p
      → left p < rounds
      → Quits n m b (λ _ s. After n m b p s) (following rounds c p)
  following-Quits rounds more c p k h =
      Quits-bind n m b (λ _ s. After n m b p s) (λ _ s. After n m b p s)
        (script_loop parse fuel rounds p) _ (more p k h) (λ cs s d. d)

  -- Behind an item that has taken its token.
  behind_item-Quits :
      (rounds : ℕ)
      → rounds ≤ fuel
      → EndsAfter rounds
      → (c : Command) (p : Parser) → Ok n m b p
      → left p < rounds
      → Quits n m b
          (λ _ s. After n m b p s)
          ((skip_list_separator >> (skip_newlines fuel false >> following rounds c)) p)
  behind_item-Quits rounds f more c p k h =
      then-Quits n m b p (skip_list_separator p) _ (skip_list_separator-Quits n m b p k) (λ x s i j.
        then-Quits n m b s (skip_newlines fuel false s) _
          (skip_newlines-Quits n m b fits fuel false s i (omega arith))
          (λ y u i' j'. following-Quits rounds more c u i' (omega arith)))

  -- Behind an item that has not.
  at_separator-Quits :
      (rounds : ℕ)
      → rounds ≤ fuel
      → EndsAfter rounds
      → (c : Command) (p : Parser) (t : Token) → Ok n m b p
      → p.peeked ≡ some t
      → left p < suc rounds
      → left p < fuel
      → EndsItem t.kind
      → ends_script t.kind ≡ false
      → Quits n m b
          (λ _ s. After n m b p s)
          ((skip_list_separator >> (skip_newlines fuel false >> following rounds c)) p)
  at_separator-Quits rounds f more c p t k e h l o y =
      Step-then n m b (is_semi t.kind ≡ false) p (skip_list_separator p) _
        (skip_list_separator-Step n m b p t k e)
        (λ x s i less.
          then-Quits n m b s (skip_newlines fuel false s) _
            (skip_newlines-Quits n m b fits fuel false s i (omega arith))
            (λ z u i' j'. following-Quits rounds more c u i' (omega arith)))
        (λ x no_semi.
          Step-then n m b (is_newline t.kind ≡ false) p (skip_newlines fuel false p) _
            (skip_newlines-Step n m b p t k e fits fuel false l)
            (λ z s i less. following-Quits rounds more c s i (omega arith))
            (λ z no_newline.
              let e : true ≡ false = sym (covered t.kind o no_semi no_newline) ∙ y in ground arith))

  item-Quits :
      (rounds : ℕ)
      → rounds ≤ fuel
      → EndsAfter rounds
      → (p : Parser) (t : Token) → Ok n m b p
      → p.peeked ≡ some t
      → left p < suc rounds
      → left p < fuel
      → ends_script t.kind ≡ false
      → Quits n m b
          (λ _ s. After n m b p s)
          ((parse_list_item parse fuel (lines rounds) >>= λ c.
              skip_list_separator >> (skip_newlines fuel false >> following rounds c))
            p)
  item-Quits rounds f more p t k e h l y =
      Step-then n m b (EndsItem t.kind) p (parse_list_item parse fuel (lines rounds) p) _
        (parse_list_item-Step n m b fits parse fuel inner (lines rounds) rounds
          (lines-Quits rounds f more) p t k e l (omega arith))
        (λ c s i less. behind_item-Quits rounds f more c s i (omega arith))
        (λ c o. at_separator-Quits rounds f more c p t k e h l o y)

  script_loop-Quits : (rounds : ℕ) → rounds ≤ fuel → EndsAfter rounds
  unfolding script_loop
  script_loop-Quits zero f p k h = absurd (omega arith)
  script_loop-Quits (suc rounds) f p k h = peek-then n m b p _ k (λ t q i j e.
      elim (Bool-cases (ends_script t.kind)) [
        | inl y ↦ rw y (i, omega arith)
        | inr y ↦ rw y (
            item-Quits rounds (omega arith) (script_loop-Quits rounds (omega arith)) q t i e
              (omega arith) (omega arith) y)
      ])

  pub parse_script-Quits :
      (p : Parser)
      → Ok n m b p
      → left p < fuel
      → Quits n m b (λ _ s. After n m b p s) (parse_script parse fuel fuel p)
  unfolding parse_script
  parse_script-Quits p k h =
      lines-Quits fuel (omega arith) (script_loop-Quits fuel (omega arith)) p k h
