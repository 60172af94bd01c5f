-- ===== src/Bash/Parser/Grammar/Steps.antt =====
-- What a part of the grammar in crates/bash_parser/src/parser.rs does at a token: it takes it, or stays where it is.
use wasm_shell.Base.{
  ℕ, zero, suc, ◌≤◌, ◌<◌, Bool, true, false, some, Result, ok, ◌≡◌, refl, sym, arith, subst,
  Bool-cases, ◌⊎◌, inl, inr,
}
use wasm_shell.Bash.Error.{ParseError}
use wasm_shell.Bash.Lexer.Token.{TokenKind, semi, Token}
use wasm_shell.Bash.Action.{continue_with}
use wasm_shell.Bash.Action.Fuel.{Ends-mono}
use wasm_shell.Bash.Parser.{Parser, Parse, peek, is_newline, skip_newlines}
use wasm_shell.Bash.Parser.Fuel.{
  cost_of, left, QueueOk, Ok, After, Quits, At, peek-Quits, peek_again, next-peeked, taken,
  taken-Ok, taken_left, Quits-bind, Quits-After, skip_newlines-Quits, skip_newline-Quits,
  cost_of-newline,
}
use wasm_shell.Bash.Parser.Grammar.{is_semi, skip_list_separator}

module _ (n m : ℕ) (b : Bool) where
  -- Less is left, or nothing has happened and `C` holds.
  abbrev pub Step : Type 0 → Parser → Parser → Type 0
  Step C p s = After n m b p s × ((left s < left p) ⊎ ((s ≡ p) × C))

  pub Step-After :
      {A : Type 0} (C : Type 0) (p q : Parser) (r : Result ParseError A × Parser)
      → Ok n m b q
      → left q < left p
      → Quits n m b (λ _ s. After n m b q s) r
      → Quits n m b (λ _ s. Step C p s) r
  Step-After C p q r k h c =
      Ends-mono (λ s. QueueOk m b s.queue) (λ _ s. After n m b q s) (λ _ s. Step C p s) r
        (λ x s (i, j). ((i, omega arith), inl (omega arith))) c

  -- A step, and what follows it: from where it leads, or from where it started.
  pub Step-bind :
      {A B : Type 0} (C D : Type 0) (p : Parser) (r : Result ParseError A × Parser)
      (rest : A → Parse B)
      → Quits n m b (λ _ s. Step C p s) r
      → ((a : A) (s : Parser)
          → Ok n m b s
          → left s ≤ left p
          → Quits n m b (λ _ u. After n m b s u) (rest a s))
      → ((a : A) → C → Quits n m b (λ _ s. Step D p s) (rest a p))
      → Quits n m b (λ _ s. Step D p s) (continue_with r rest)
  Step-bind C D p r rest h away here =
      Quits-bind n m b (λ _ s. Step C p s) (λ _ s. Step D p s) r rest h
        (λ a s ((i, j), o). elim o [
          | inl less ↦ Step-After D p s (rest a s) i less (away a s i j)
          | inr (e, c) ↦ subst (λ q. Quits n m b (λ _ u. Step D p u) (rest a q)) (sym e) (here a c)
        ])

  -- A step, and what follows it with less left.
  pub Step-then :
      {A B : Type 0} (C : Type 0) (p : Parser) (r : Result ParseError A × Parser)
      (rest : A → Parse B)
      → Quits n m b (λ _ s. Step C p s) r
      → ((a : A) (s : Parser)
          → Ok n m b s
          → left s < left p
          → Quits n m b (λ _ u. After n m b s u) (rest a s))
      → ((a : A) → C → Quits n m b (λ _ s. After n m b p s) (rest a p))
      → Quits n m b (λ _ s. After n m b p s) (continue_with r rest)
  Step-then C p r rest h away here =
      Quits-bind n m b (λ _ s. Step C p s) (λ _ s. After n m b p s) r rest h
        (λ a s ((i, j), o). elim o [
          | inl less ↦ Quits-After n m b p s (rest a s) (i, j) (away a s i less)
          | inr (e, c) ↦
              subst (λ q. Quits n m b (λ _ u. After n m b p u) (rest a q)) (sym e) (here a c)
        ])

  module _ (p : Parser) (t : Token) (k : Ok n m b p) (e : p.peeked ≡ some t) where
    -- The token is taken first.
    pub taken-Step :
        {A : Type 0} (C : Type 0) (r : Result ParseError A × Parser)
        → cost_of t.kind ≡ 1
        → Quits n m b (λ _ s. After n m b (taken n m b p) s) r
        → Quits n m b (λ _ s. Step C p s) r
    taken-Step C r one h =
        let l = taken_left n m b p t e in
        Step-After C p (taken n m b p) r (taken-Ok n m b p k) (omega arith) h

    cost_of-semi : (j : TokenKind) → is_semi j ≡ true → cost_of j ≡ 1
    unfolding is_semi
    cost_of-semi semi h = refl
    cost_of-semi j h = ground arith

    pub skip_list_separator-Step :
        Quits n m b (λ _ s. Step (is_semi t.kind ≡ false) p s) (skip_list_separator p)
    unfolding skip_list_separator
    skip_list_separator-Step = elim (Bool-cases (is_semi t.kind)) [
      | inl y ↦
          rw (peek_again n m b p t e, y, next-peeked n m b p t e)
            (taken-Step (true ≡ false) (ok true, taken n m b p) (cost_of-semi t.kind y)
              (taken-Ok n m b p k, omega arith))
      | inr y ↦ rw (peek_again n m b p t e, y) ((k, omega arith), inr (refl, refl))
    ]

    pub skip_newlines-Step :
        (fits : n ≤ m) (fuel : ℕ) (any : Bool)
        → left p < fuel
        → Quits n m b (λ _ s. Step (is_newline t.kind ≡ false) p s) (skip_newlines fuel any p)
    unfolding skip_newlines
    skip_newlines-Step fits zero any h = absurd (omega arith)
    skip_newlines-Step fits (suc fuel) any h = elim (Bool-cases (is_newline t.kind)) [
      | inl y ↦
          let l = taken_left n m b p t e in
          let c = cost_of-newline n m b fits t.kind y in
          rw (peek_again n m b p t e, y)
            (taken-Step (true ≡ false) _ c (
              skip_newline-Quits n m b fits p t (skip_newlines fuel true) k e
                (λ r s d. skip_newlines-Quits n m b fits fuel true r s (omega arith))))
      | inr y ↦ rw (peek_again n m b p t e, y) ((k, omega arith), inr (refl, refl))
    ]

  pub skip_list_separator-Quits :
      (p : Parser) → Ok n m b p → Quits n m b (λ _ s. After n m b p s) (skip_list_separator p)
  unfolding skip_list_separator
  skip_list_separator-Quits p k =
      Quits-bind n m b (λ t q. At n m b p t q) (λ _ s. After n m b p s) (peek p) _
        (peek-Quits n m b p k)
        (λ t q ((i, j), e). elim (Bool-cases (is_semi t.kind)) [
          | inl y ↦
              let l = taken_left n m b q t e in
              rw (y, next-peeked n m b q t e) (taken-Ok n m b q i, omega arith)
          | inr y ↦ rw y (i, j)
        ])
