-- ===== src/Bash/Parser/Grammar/Pipelines.antt =====
-- The fuel of pipelines, in crates/bash_parser/src/parser.rs, and the token that they start at.
use wasm_shell.Base.{
  ℕ, zero, suc, ◌≤◌, ◌<◌, Bool, true, false, some, Str, if◌then◌else◌, ◌≡◌, refl, arith, Bool-cases,
  inl, inr,
}
use wasm_shell.Bash.Ast.{Script, Command, simple, pipeline, Stages, next_stage}
use wasm_shell.Bash.Lexer.Token.{TokenKind, pipe, bang, Token}
use wasm_shell.Bash.Action.{◌>>=◌, ◌>>◌, return}
use wasm_shell.Bash.Words.{Run}
use wasm_shell.Bash.Words.Fuel.{SafeBelow}
use wasm_shell.Bash.Parser.{Parser, Parse, next, skip_newlines}
use wasm_shell.Bash.Parser.Fuel.{
  cost_of, left, QueueOk, Ok, After, Quits, peek_again, next-peeked, taken, taken-Ok, taken_left,
  Quits-bind, Quits-After, skip_newlines-Quits,
}
use wasm_shell.Bash.Parser.Simple.{ends, case_of}
use wasm_shell.Bash.Parser.Grammar.{
  is_bang, is_pipe, command_to_simple, single_stage, parse_command, more_stages, parse_pipeline,
  parse_pipeline_cmd,
}
use wasm_shell.Bash.Parser.Grammar.Steps.{Step, Step-bind, taken-Step}
use wasm_shell.Bash.Parser.Grammar.Fuel.{
  command_to_simple-Quits, then-Quits, peek-then, parse_command-Step, parse_command-Quits,
}

-- The token ends a command and is no `|`.
abbrev pub EndsPipeline : TokenKind → Type 0
EndsPipeline k = (case_of k ≡ ends) × (is_pipe k ≡ false)

module _ (n m : ℕ) (b : Bool) (fits : n ≤ m) (parse : Str → Run Script) (fuel : ℕ)
    (inner : SafeBelow (QueueOk m b) n parse) (script : Parse Script) (room : ℕ)
    (script-Quits : (p : Parser)
      → Ok n m b p
      → left p < room
      → Quits n m b (λ _ s. After n m b p s) (script p)) where
  cost_of-pipe : (j : TokenKind) → is_pipe j ≡ true → cost_of j ≡ 1
  unfolding is_pipe
  cost_of-pipe pipe h = refl
  cost_of-pipe j h = ground arith

  cost_of-bang : (j : TokenKind) → is_bang j ≡ true → cost_of j ≡ 1
  unfolding is_bang
  cost_of-bang bang h = refl
  cost_of-bang j h = ground arith

  -- A stage behind `|`, and the stages behind it.
  abbrev stage : ℕ → Parse Stages
  stage rounds =
      next
      >> (skip_newlines fuel false
          >> (parse_command parse fuel script >>= λ c. command_to_simple c >>= λ sc.
              more_stages parse fuel script rounds >>= λ scs. return (next_stage sc scs)))

  abbrev MoreFine : ℕ → Type 0
  MoreFine rounds =
      (p : Parser)
      → Ok n m b p
      → left p < rounds
      → left p < fuel
      → left p ≤ room
      → Quits n m b (λ _ s. After n m b p s) (more_stages parse fuel script rounds p)

  stage-Quits :
      (rounds : ℕ)
      → MoreFine rounds
      → (p : Parser) (t : Token) → Ok n m b p
      → p.peeked ≡ some t
      → cost_of t.kind ≡ 1
      → left p < suc rounds
      → left p < fuel
      → left p ≤ room
      → Quits n m b (λ _ s. After n m b (taken n m b p) s) (stage rounds p)
  stage-Quits rounds more p t k e c j h l =
      let d = taken_left n m b p t e in
      rw (next-peeked n m b p t e) (
        then-Quits n m b (taken n m b p) (skip_newlines fuel false (taken n m b p)) _
          (skip_newlines-Quits n m b fits fuel false (taken n m b p) (taken-Ok n m b p k)
            (omega arith))
          (λ x s u v.
            then-Quits n m b s (parse_command parse fuel script s) _
              (parse_command-Quits n m b fits parse fuel inner script room script-Quits s u
                (omega arith) (omega arith))
              (λ w r u' v'.
                then-Quits n m b r (command_to_simple w r) _ (command_to_simple-Quits n m b w r u')
                  (λ sc r' f g.
                    then-Quits n m b r' (more_stages parse fuel script rounds r') _
                      (more r' f (omega arith) (omega arith) (omega arith))
                      (λ scs z o o'. (o, omega arith))))))

  more_stages-Quits : (rounds : ℕ) → MoreFine rounds
  unfolding more_stages
  more_stages-Quits zero p k j h l = absurd (omega arith)
  more_stages-Quits (suc rounds) p k j h l = peek-then n m b p _ k (λ t q i a e.
      elim (Bool-cases (is_pipe t.kind)) [
        | inl y ↦
            let d = taken_left n m b q t e in
            rw y (
              Quits-After n m b q (taken n m b q) _ (taken-Ok n m b q i, omega arith)
                (stage-Quits rounds (more_stages-Quits rounds) q t i e (cost_of-pipe t.kind y)
                  (omega arith) (omega arith) (omega arith)))
        | inr y ↦ rw y (i, omega arith)
      ])

  more_stages_at-Quits :
      (rounds : ℕ) (p : Parser) (t : Token)
      → Ok n m b p
      → p.peeked ≡ some t
      → is_pipe t.kind ≡ true
      → left p < rounds
      → left p < fuel
      → left p ≤ room
      → Quits n m b (λ _ s. After n m b (taken n m b p) s) (more_stages parse fuel script rounds p)
  unfolding more_stages
  more_stages_at-Quits zero p t k e y j h l = absurd (omega arith)
  more_stages_at-Quits (suc rounds) p t k e y j h l =
      rw (peek_again n m b p t e, y)
        (stage-Quits rounds (more_stages-Quits rounds) p t k e (cost_of-pipe t.kind y) j h l)

  -- Behind the first command.
  abbrev stages_of : Bool → Command → Token → Parse Command
  stages_of negated first t =
      if is_pipe t.kind
      then (command_to_simple first >>= λ sc. more_stages parse fuel script fuel >>= λ scs.
          return (pipeline (next_stage sc scs) negated))
      else return (single_stage negated first)

  stages_of-Quits :
      (negated : Bool) (first : Command) (t : Token) (p : Parser)
      → Ok n m b p
      → left p < fuel
      → left p ≤ room
      → Quits n m b (λ _ s. After n m b p s) (stages_of negated first t p)
  stages_of-Quits negated first t p k h l = elim (Bool-cases (is_pipe t.kind)) [
    | inl y ↦ rw y (
        then-Quits n m b p (command_to_simple first p) _ (command_to_simple-Quits n m b first p k)
          (λ sc r f g.
            then-Quits n m b r (more_stages parse fuel script fuel r) _
              (more_stages-Quits fuel r f (omega arith) (omega arith) (omega arith))
              (λ scs z o o'. (o, omega arith))))
    | inr y ↦ rw y (k, omega arith)
  ]

  piped-Quits :
      (negated : Bool) (first : Command) (p : Parser) (t : Token)
      → Ok n m b p
      → p.peeked ≡ some t
      → is_pipe t.kind ≡ true
      → left p < fuel
      → left p ≤ room
      → Quits n m b
          (λ _ s. After n m b (taken n m b p) s)
          ((command_to_simple first >>= λ sc. more_stages parse fuel script fuel >>= λ scs.
              return (pipeline (next_stage sc scs) negated))
            p)
  unfolding command_to_simple
  piped-Quits negated (simple sc) p t k e y h l =
      Quits-bind n m b (λ _ s. After n m b (taken n m b p) s) (λ _ s. After n m b (taken n m b p) s)
        (more_stages parse fuel script fuel p) _ (more_stages_at-Quits fuel p t k e y h h l)
        (λ scs s c. c)
  piped-Quits negated c p t k e y h l = (tt, k.2)

  stages_of-Step :
      (negated : Bool) (first : Command) (p : Parser) (t : Token)
      → Ok n m b p
      → p.peeked ≡ some t
      → case_of t.kind ≡ ends
      → left p < fuel
      → left p ≤ room
      → Quits n m b (λ _ s. Step n m b (EndsPipeline t.kind) p s) (stages_of negated first t p)
  stages_of-Step negated first p t k e z h l = elim (Bool-cases (is_pipe t.kind)) [
    | inl y ↦ rw y (
        taken-Step n m b p t k e ((case_of t.kind ≡ ends) × (true ≡ false)) _
          (cost_of-pipe t.kind y) (piped-Quits negated first p t k e y h l))
    | inr y ↦ rw y ((k, omega arith), inr (refl, (z, refl)))
  ]

  -- At a token.
  pub parse_pipeline-Step :
      (negated : Bool) (p : Parser) (t : Token)
      → Ok n m b p
      → p.peeked ≡ some t
      → left p < fuel
      → left p ≤ room
      → Quits n m b
          (λ _ s. Step n m b (EndsPipeline t.kind) p s)
          (parse_pipeline parse fuel script negated p)
  unfolding parse_pipeline
  parse_pipeline-Step negated p t k e h l =
      Step-bind n m b (case_of t.kind ≡ ends) (EndsPipeline t.kind) p
        (parse_command parse fuel script p) _
        (parse_command-Step n m b fits parse fuel inner script room script-Quits p t k e h l)
        (λ first s i j.
          peek-then n m b s _ i
            (λ t' q i' j' e'. stages_of-Quits negated first t' q i' (omega arith) (omega arith)))
        (λ first z. rw (peek_again n m b p t e) (stages_of-Step negated first p t k e z h l))

  parse_pipeline-Quits :
      (negated : Bool) (p : Parser)
      → Ok n m b p
      → left p < fuel
      → left p ≤ room
      → Quits n m b (λ _ s. After n m b p s) (parse_pipeline parse fuel script negated p)
  unfolding parse_pipeline
  parse_pipeline-Quits negated p k h l =
      then-Quits n m b p (parse_command parse fuel script p) _
        (parse_command-Quits n m b fits parse fuel inner script room script-Quits p k h l)
        (λ first s i j.
          peek-then n m b s _ i
            (λ t' q i' j' e'. stages_of-Quits negated first t' q i' (omega arith) (omega arith)))

  pub parse_pipeline_cmd-Step :
      (p : Parser) (t : Token)
      → Ok n m b p
      → p.peeked ≡ some t
      → left p < fuel
      → left p ≤ room
      → Quits n m b
          (λ _ s. Step n m b (EndsPipeline t.kind) p s)
          (parse_pipeline_cmd parse fuel script p)
  unfolding parse_pipeline_cmd
  parse_pipeline_cmd-Step p t k e h l = elim (Bool-cases (is_bang t.kind)) [
    | inl y ↦
        let d = taken_left n m b p t e in
        rw (peek_again n m b p t e, y, next-peeked n m b p t e)
          (taken-Step n m b p t k e (EndsPipeline t.kind) _ (cost_of-bang t.kind y) (
            parse_pipeline-Quits true (taken n m b p) (taken-Ok n m b p k) (omega arith)
              (omega arith)))
    | inr y ↦ rw (peek_again n m b p t e, y) (parse_pipeline-Step false p t k e h l)
  ]

  pub parse_pipeline_cmd-Quits :
      (p : Parser)
      → Ok n m b p
      → left p < fuel
      → left p ≤ room
      → Quits n m b (λ _ s. After n m b p s) (parse_pipeline_cmd parse fuel script p)
  unfolding parse_pipeline_cmd
  parse_pipeline_cmd-Quits p k h l = peek-then n m b p _ k (λ t q i j e.
      elim (Bool-cases (is_bang t.kind)) [
        | inl y ↦
            let d = taken_left n m b q t e in
            rw (y, next-peeked n m b q t e)
              (Quits-After n m b q (taken n m b q) _ (taken-Ok n m b q i, omega arith)
                (parse_pipeline-Quits true (taken n m b q) (taken-Ok n m b q i) (omega arith)
                  (omega arith)))
        | inr y ↦ rw y (parse_pipeline-Quits false q i (omega arith) (omega arith))
      ])
