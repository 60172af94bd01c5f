-- ===== src/Bash/Parser/Grammar/Fuel.antt =====
-- The fuel of a command, in crates/bash_parser/src/parser.rs, and the token that it starts at.
use wasm_shell.Base.{
  ℕ, ◌≤◌, ◌<◌, Bool, false, Option, none, some, Str, Result, ◌≡◌, refl, ap, arith, inl, inr,
}
use wasm_shell.Bash.Error.{ParseError, Span}
use wasm_shell.Bash.Ast.{Script, Command, simple}
use wasm_shell.Bash.Lexer.Token.{TokenKind, word, lparen, rparen, lbrace, rbrace, eof, Token}
use wasm_shell.Bash.Action.{continue_with}
use wasm_shell.Bash.Action.Fuel.{Ends-mono}
use wasm_shell.Bash.Words.{Run}
use wasm_shell.Bash.Words.Fuel.{SafeBelow}
use wasm_shell.Bash.Parser.{Parser, Parse, peek, skip_newlines}
use wasm_shell.Bash.Parser.Fuel.{
  cost_of, left, QueueOk, Ok, After, Quits, At, peek-Quits, peek_again, next-peeked, taken,
  taken-Ok, taken_left, Quits-bind, Quits-After, skip_newlines-Quits,
}
use wasm_shell.Bash.Parser.Simple.{
  Case, ends, takes_redirect, takes_word, refused, case_of, parse_simple_command,
}
use wasm_shell.Bash.Parser.Simple.Fuel.{Progress, Moves, parse_simple_command-Quits}
use wasm_shell.Bash.Parser.Grammar.{
  skip_list_separator, unsupported, command_to_simple, close_subshell, close_group, parse_subshell,
  parse_group, command_of_word, command_from, parse_command,
}
use wasm_shell.Bash.Parser.Grammar.Steps.{Step, taken-Step, skip_list_separator-Quits}

module _ (n m : ℕ) (b : Bool) where
  -- A closing token, or the error that it is missing.
  close_subshell-Quits :
      (start : Span) (t : Token) (j : TokenKind) (p : Parser)
      → Ok n m b p
      → p.peeked ≡ some t
      → Quits n m b (λ _ s. After n m b p s) (close_subshell start t j p)
  unfolding close_subshell
  close_subshell-Quits start t rparen p k e =
      let l = taken_left n m b p t e in
      rw (next-peeked n m b p t e) (taken-Ok n m b p k, omega arith)
  close_subshell-Quits start t eof p k e = (tt, k.2)
  close_subshell-Quits start t j p k e = (tt, k.2)

  close_group-Quits :
      (start : Span) (t : Token) (j : TokenKind) (p : Parser)
      → Ok n m b p
      → p.peeked ≡ some t
      → Quits n m b (λ _ s. After n m b p s) (close_group start t j p)
  unfolding close_group
  close_group-Quits start t rbrace p k e =
      let l = taken_left n m b p t e in
      rw (next-peeked n m b p t e) (taken-Ok n m b p k, omega arith)
  close_group-Quits start t eof p k e = (tt, k.2)
  close_group-Quits start t j p k e = (tt, k.2)

  pub command_to_simple-Quits :
      (c : Command) (p : Parser)
      → Ok n m b p
      → Quits n m b (λ _ s. After n m b p s) (command_to_simple c p)
  unfolding command_to_simple
  command_to_simple-Quits (simple sc) p k = (k, omega arith)
  command_to_simple-Quits c p k = (tt, k.2)

  -- A computation, and one behind it.
  pub then-Quits :
      {A B : Type 0} (p : Parser) (r : Result ParseError A × Parser) (rest : A → Parse B)
      → Quits n m b (λ _ s. After n m b p s) r
      → ((a : A) (s : Parser)
          → Ok n m b s
          → left s ≤ left p
          → Quits n m b (λ _ u. After n m b s u) (rest a s))
      → Quits n m b (λ _ s. After n m b p s) (continue_with r rest)
  then-Quits p r rest h k =
      Quits-bind n m b (λ _ s. After n m b p s) (λ _ s. After n m b p s) r rest h
        (λ a s (i, j). Quits-After n m b p s (rest a s) (i, j) (k a s i j))

  -- A look at the next token, and what depends on it.
  pub peek-then :
      {B : Type 0} (p : Parser) (rest : Token → Parse B)
      → Ok n m b p
      → ((t : Token) (q : Parser)
          → Ok n m b q
          → left q ≤ left p
          → q.peeked ≡ some t
          → Quits n m b (λ _ u. After n m b q u) (rest t q))
      → Quits n m b (λ _ s. After n m b p s) (continue_with (peek p) rest)
  peek-then p rest k h =
      Quits-bind n m b (λ t q. At n m b p t q) (λ _ s. After n m b p s) (peek p) rest
        (peek-Quits n m b p k)
        (λ t q ((i, j), e). Quits-After n m b p q (rest t q) (i, j) (h t q i j e))

  module _ (fits : n ≤ m) (parse : Str → Run Script) (fuel : ℕ)
      (inner : SafeBelow (QueueOk m b) n parse) (script : Parse Script) (room : ℕ)
      (script-Quits : (p : Parser)
        → Ok n m b p
        → left p < room
        → Quits n m b (λ _ s. After n m b p s) (script p)) where
    parse_subshell-Quits :
        (p : Parser) (t : Token)
        → Ok n m b p
        → p.peeked ≡ some t
        → left (taken n m b p) < fuel
        → left (taken n m b p) < room
        → Quits n m b (λ _ s. After n m b (taken n m b p) s) (parse_subshell parse fuel script p)
    unfolding parse_subshell
    parse_subshell-Quits p t k e h l =
        rw (peek_again n m b p t e, next-peeked n m b p t e)
          (then-Quits (taken n m b p) (skip_newlines fuel false (taken n m b p)) _
            (skip_newlines-Quits n m b fits fuel false (taken n m b p) (taken-Ok n m b p k) h)
            (λ x s i j. then-Quits s (script s) _ (script-Quits s i (omega arith)) (λ body u i' j'.
              peek-then u _ i' (λ v w i'' j'' f.
                then-Quits w (close_subshell t.span v v.kind w) _
                  (close_subshell-Quits t.span v v.kind w i'' f) (λ y z o o'. (o, omega arith))))))

    parse_group-Quits :
        (p : Parser) (t : Token)
        → Ok n m b p
        → p.peeked ≡ some t
        → left (taken n m b p) < fuel
        → left (taken n m b p) < room
        → Quits n m b (λ _ s. After n m b (taken n m b p) s) (parse_group parse fuel script p)
    unfolding parse_group
    parse_group-Quits p t k e h l =
        rw (peek_again n m b p t e, next-peeked n m b p t e)
          (then-Quits (taken n m b p) (skip_newlines fuel false (taken n m b p)) _
            (skip_newlines-Quits n m b fits fuel false (taken n m b p) (taken-Ok n m b p k) h)
            (λ x s i j. then-Quits s (script s) _ (script-Quits s i (omega arith)) (λ body u i' j'.
              then-Quits u (skip_list_separator u) _ (skip_list_separator-Quits n m b u i')
                (λ y v o o'.
                  then-Quits v (skip_newlines fuel false v) _
                    (skip_newlines-Quits n m b fits fuel false v o (omega arith))
                    (λ z w d d'. peek-then w _ d (λ t' q i'' j'' f.
                      then-Quits q (close_group t.span t' t'.kind q) _
                        (close_group-Quits t.span t' t'.kind q i'' f)
                        (λ a r g g'. (g, omega arith))))))))

    Progress-Step :
        (p s : Parser) (t : Token) (c : Case)
        → case_of t.kind ≡ c
        → After n m b p s
        → Progress n m b parse fuel inner c p s
        → Step n m b (case_of t.kind ≡ ends) p s
    Progress-Step p s t ends z a g = (a, inr (g, z))
    Progress-Step p s t takes_redirect z a g = (a, inl g)
    Progress-Step p s t refused z a g = (a, inl g)
    Progress-Step p s t (takes_word w) z a g = (a, inl g)

    simple-Step :
        (p : Parser) (t : Token)
        → Ok n m b p
        → p.peeked ≡ some t
        → left p < fuel
        → Quits n m b
            (λ _ s. Step n m b (case_of t.kind ≡ ends) p s)
            (parse_simple_command parse fuel p)
    simple-Step p t k e h =
        Ends-mono (λ s. QueueOk m b s.queue) (λ _ s. Moves n m b parse fuel inner t p s)
          (λ _ s. Step n m b (case_of t.kind ≡ ends) p s) (parse_simple_command parse fuel p)
          (λ x s (a, g). Progress-Step p s t (case_of t.kind) refl a g)
          (parse_simple_command-Quits n m b parse fuel inner p t k e h)

    command_of_word-Step :
        (o : Option Str) (p : Parser) (t : Token)
        → Ok n m b p
        → p.peeked ≡ some t
        → left p < fuel
        → Quits n m b
            (λ _ s. Step n m b (case_of t.kind ≡ ends) p s)
            (command_of_word parse fuel script t.span o p)
    unfolding command_of_word
    command_of_word-Step none p t k e h = simple-Step p t k e h
    command_of_word-Step (some message) p t k e h = (tt, k.2)

    command_from-Step :
        (j : TokenKind) (p : Parser) (t : Token)
        → t.kind ≡ j
        → Ok n m b p
        → p.peeked ≡ some t
        → left p < fuel
        → left p ≤ room
        → Quits n m b
            (λ _ s. Step n m b (case_of t.kind ≡ ends) p s)
            (command_from parse fuel script t j p)
    unfolding command_from
    command_from-Step lparen p t z k e h l =
        let c = taken_left n m b p t e in
        let d : cost_of t.kind ≡ 1 = ap cost_of z in
        taken-Step n m b p t k e (case_of t.kind ≡ ends) (parse_subshell parse fuel script p) d
          (parse_subshell-Quits p t k e (omega arith) (omega arith))
    command_from-Step lbrace p t z k e h l =
        let c = taken_left n m b p t e in
        let d : cost_of t.kind ≡ 1 = ap cost_of z in
        taken-Step n m b p t k e (case_of t.kind ≡ ends) (parse_group parse fuel script p) d
          (parse_group-Quits p t k e (omega arith) (omega arith))
    command_from-Step (word w) p t z k e h l = command_of_word-Step (unsupported w) p t k e h
    command_from-Step j p t z k e h l = simple-Step p t k e h

    -- At a token.
    pub parse_command-Step :
        (p : Parser) (t : Token)
        → Ok n m b p
        → p.peeked ≡ some t
        → left p < fuel
        → left p ≤ room
        → Quits n m b
            (λ _ s. Step n m b (case_of t.kind ≡ ends) p s)
            (parse_command parse fuel script p)
    unfolding parse_command
    parse_command-Step p t k e h l =
        rw (peek_again n m b p t e) (command_from-Step t.kind p t refl k e h l)

    pub parse_command-Quits :
        (p : Parser)
        → Ok n m b p
        → left p < fuel
        → left p ≤ room
        → Quits n m b (λ _ s. After n m b p s) (parse_command parse fuel script p)
    unfolding parse_command
    parse_command-Quits p k h l = peek-then p _ k (λ t q i j e.
        Ends-mono (λ s. QueueOk m b s.queue) (λ _ s. Step n m b (case_of t.kind ≡ ends) q s)
          (λ _ s. After n m b q s) (command_from parse fuel script t t.kind q) (λ x s c. c.0)
          (command_from-Step t.kind q t refl i e (omega arith) (omega arith)))
