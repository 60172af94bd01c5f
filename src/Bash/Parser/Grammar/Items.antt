-- ===== src/Bash/Parser/Grammar/Items.antt =====
-- The fuel of lists, in crates/bash_parser/src/parser.rs, and the token that they start at.
use wasm_shell.Base.{
  ℕ, zero, suc, ◌≤◌, ◌<◌, Bool, true, false, some, Str, ok, if◌then◌else◌, ◌≡◌, refl, ap, sym,
  arith, subst, Bool-cases, inl, inr,
}
use wasm_shell.Bash.Ast.{Script, Command, and_then, or_else, background}
use wasm_shell.Bash.Lexer.Token.{TokenKind, or_or, and_and, amp, Token}
use wasm_shell.Bash.Action.{◌>>=◌, ◌>>◌, return}
use wasm_shell.Bash.Action.Fuel.{Ends-mono}
use wasm_shell.Bash.Words.{Run}
use wasm_shell.Bash.Words.Fuel.{SafeBelow}
use wasm_shell.Bash.Parser.{Parser, Parse, peek, next, skip_newlines}
use wasm_shell.Bash.Parser.Fuel.{
  cost_of, left, QueueOk, Ok, After, Quits, peek_again, next-peeked, taken, taken-Ok, taken_left,
  skip_newlines-Quits,
}
use wasm_shell.Bash.Parser.Grammar.{
  is_amp, parse_pipeline_cmd, right_operand, joined, and_or_loop, parse_list_item,
}
use wasm_shell.Bash.Parser.Grammar.Steps.{Step, Step-bind, taken-Step}
use wasm_shell.Bash.Parser.Grammar.Fuel.{then-Quits, peek-then}
use wasm_shell.Bash.Parser.Grammar.Pipelines.{
  EndsPipeline, parse_pipeline_cmd-Step, parse_pipeline_cmd-Quits,
}

-- The token is neither `&&` nor `||`.
abbrev pub EndsList : TokenKind → Type 0
EndsList and_and = ⊥
EndsList or_or = ⊥
EndsList k = Unit

-- The token ends an item of a script.
abbrev pub EndsItem : TokenKind → Type 0
EndsItem k = EndsPipeline k × EndsList k × (is_amp k ≡ false)

module _ (n m : ℕ) (b : Bool) (fits : n ≤ m) (parse : Str → Run Script) (fuel : ℕ)
    (inner : SafeBelow (QueueOk m b) n parse) (script : Parse Script) (room : ℕ)
    (script-Quits : (p : Parser)
      → Ok n m b p
      → left p < room
      → Quits n m b (λ _ s. After n m b p s) (script p)) where
  cost_of-amp : (j : TokenKind) → is_amp j ≡ true → cost_of j ≡ 1
  unfolding is_amp
  cost_of-amp amp h = refl
  cost_of-amp j h = ground arith

  abbrev Fine : {A : Type 0} → Parse A → Type 0
  Fine run =
      (p : Parser)
      → Ok n m b p
      → left p < fuel
      → left p ≤ room
      → Quits n m b (λ _ s. After n m b p s) (run p)

  -- At `&&` or `||`.
  right_operand-Quits :
      (p : Parser) (t : Token)
      → Ok n m b p
      → p.peeked ≡ some t
      → cost_of t.kind ≡ 1
      → left p < fuel
      → left p ≤ room
      → Quits n m b (λ _ s. After n m b (taken n m b p) s) (right_operand parse fuel script p)
  unfolding right_operand
  right_operand-Quits p t k e c h l =
      let d = taken_left n m b p t e in
      rw (next-peeked n m b p t e) (
        then-Quits n m b (taken n m b p) (skip_newlines fuel false (taken n m b p)) _
          (skip_newlines-Quits n m b fits fuel false (taken n m b p) (taken-Ok n m b p k)
            (omega arith))
          (λ x s i j.
            parse_pipeline_cmd-Quits n m b fits parse fuel inner script room script-Quits s i
              (omega arith) (omega arith)))

  joined-Step :
      (from : Command) (again : Command → Parse Command) (j : TokenKind) (p : Parser) (t : Token)
      → t.kind ≡ j
      → Ok n m b p
      → p.peeked ≡ some t
      → left p < fuel
      → left p ≤ room
      → ((c : Command) (s : Parser)
          → Ok n m b s
          → left s < left p
          → Quits n m b (λ _ u. After n m b s u) (again c s))
      → Quits n m b
          (λ _ s. Step n m b (EndsList t.kind) p s)
          (joined parse fuel script from again j p)
  unfolding joined
  joined-Step from again and_and p t z k e h l more =
      let d = taken_left n m b p t e in
      let c : cost_of t.kind ≡ 1 = ap cost_of z in
      taken-Step n m b p t k e (EndsList t.kind) _ c (
        then-Quits n m b (taken n m b p) (right_operand parse fuel script p) _
          (right_operand-Quits p t k e c h l)
          (λ right s i j. more (and_then from right) s i (omega arith)))
  joined-Step from again or_or p t z k e h l more =
      let d = taken_left n m b p t e in
      let c : cost_of t.kind ≡ 1 = ap cost_of z in
      taken-Step n m b p t k e (EndsList t.kind) _ c (
        then-Quits n m b (taken n m b p) (right_operand parse fuel script p) _
          (right_operand-Quits p t k e c h l)
          (λ right s i j. more (or_else from right) s i (omega arith)))
  joined-Step from again j p t z k e h l more =
      ((k, omega arith), inr (refl, subst EndsList (sym z) tt))

  and_or_loop-Quits :
      (rounds : ℕ) (from : Command) (p : Parser)
      → Ok n m b p
      → left p < rounds
      → left p < fuel
      → left p ≤ room
      → Quits n m b (λ _ s. After n m b p s) (and_or_loop parse fuel script rounds from p)
  unfolding and_or_loop
  and_or_loop-Quits zero from p k j h l = absurd (omega arith)
  and_or_loop-Quits (suc rounds) from p k j h l = peek-then n m b p _ k (λ t q i a e.
      Ends-mono (λ s. QueueOk m b s.queue) (λ _ s. Step n m b (EndsList t.kind) q s)
        (λ _ s. After n m b q s)
        (joined parse fuel script from (λ c. and_or_loop parse fuel script rounds c) t.kind q)
        (λ x s c. c.0)
        (joined-Step from _ t.kind q t refl i e (omega arith) (omega arith)
          (λ c s o less. and_or_loop-Quits rounds c s o (omega arith) (omega arith) (omega arith))))

  and_or_loop-Step :
      (rounds : ℕ) (from : Command) (p : Parser) (t : Token)
      → Ok n m b p
      → p.peeked ≡ some t
      → left p < rounds
      → left p < fuel
      → left p ≤ room
      → Quits n m b
          (λ _ s. Step n m b (EndsList t.kind) p s)
          (and_or_loop parse fuel script rounds from p)
  unfolding and_or_loop
  and_or_loop-Step zero from p t k e j h l = absurd (omega arith)
  and_or_loop-Step (suc rounds) from p t k e j h l = rw (peek_again n m b p t e) (
      joined-Step from _ t.kind p t refl k e h l
        (λ c s o less. and_or_loop-Quits rounds c s o (omega arith) (omega arith) (omega arith)))

  -- Behind the list.
  abbrev ended : Command → Parse Command
  ended from = peek >>= λ t. if is_amp t.kind then next >> return (background from) else return from

  ended-Quits :
      (from : Command) (p : Parser)
      → Ok n m b p
      → Quits n m b (λ _ s. After n m b p s) (ended from p)
  ended-Quits from p k = peek-then n m b p _ k (λ t q i j e. elim (Bool-cases (is_amp t.kind)) [
    | inl y ↦
        let l = taken_left n m b q t e in
        rw (y, next-peeked n m b q t e) (taken-Ok n m b q i, omega arith)
    | inr y ↦ rw y (i, omega arith)
  ])

  ended-Step :
      (from : Command) (p : Parser) (t : Token)
      → Ok n m b p
      → p.peeked ≡ some t
      → Quits n m b (λ _ s. Step n m b (is_amp t.kind ≡ false) p s) (ended from p)
  ended-Step from p t k e = elim (Bool-cases (is_amp t.kind)) [
    | inl y ↦
        rw (peek_again n m b p t e, y, next-peeked n m b p t e)
          (taken-Step n m b p t k e (true ≡ false) (ok (background from), taken n m b p)
            (cost_of-amp t.kind y) (taken-Ok n m b p k, omega arith))
    | inr y ↦ rw (peek_again n m b p t e, y) ((k, omega arith), inr (refl, refl))
  ]

  -- At a token.
  pub parse_list_item-Step :
      (p : Parser) (t : Token)
      → Ok n m b p
      → p.peeked ≡ some t
      → left p < fuel
      → left p ≤ room
      → Quits n m b (λ _ s. Step n m b (EndsItem t.kind) p s) (parse_list_item parse fuel script p)
  unfolding parse_list_item
  parse_list_item-Step p t k e h l =
      Step-bind n m b (EndsPipeline t.kind) (EndsItem t.kind) p
        (parse_pipeline_cmd parse fuel script p) _
        (parse_pipeline_cmd-Step n m b fits parse fuel inner script room script-Quits p t k e h l)
        (λ first s i j.
          then-Quits n m b s (and_or_loop parse fuel script fuel first s) _
            (and_or_loop-Quits fuel first s i (omega arith) (omega arith) (omega arith))
            (λ from u i' j'. ended-Quits from u i'))
        (λ first z.
          Step-bind n m b (EndsList t.kind) (EndsItem t.kind) p
            (and_or_loop parse fuel script fuel first p) _
            (and_or_loop-Step fuel first p t k e h h l) (λ from u i' j'. ended-Quits from u i')
            (λ from o.
              Ends-mono (λ s. QueueOk m b s.queue) (λ _ s. Step n m b (is_amp t.kind ≡ false) p s)
                (λ _ s. Step n m b (EndsItem t.kind) p s) (ended from p)
                (λ x s (a, d).
                  (a, elim d [ inl less ↦ inl less | inr (same, y) ↦ inr (same, (z, o, y)) ]))
                (ended-Step from p t k e)))
