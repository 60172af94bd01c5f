-- ===== src/Bash/Words/Fuel.antt =====
-- The fuel of expansions, in crates/bash_parser/src/parser.rs, with a parser of scripts for shorter texts.
use wasm_shell.Base.{
  ℕ, ◌+◌, ◌≤◌, ◌<◌, Option, none, some, [], ◌∷◌, Str, length, trim, Result, ok, err, arith, subst,
  Option-cases, inl, inr, trim-length, codes,
}
use wasm_shell.Base.Utf8.{byte_len}
use wasm_shell.Bash.Error.{ParseError}
use wasm_shell.Bash.Ast.{Script, Word, variable, command_subst, arith_subst, SpecialVar}
use wasm_shell.Bash.Action.{◌>>=◌, return, lift}
use wasm_shell.Bash.Action.Fuel.{Yields, Ends, Ends-bind}
use wasm_shell.Bash.Names.{split_at, find_var_operator, extract_balanced}
use wasm_shell.Bash.Names.Shorter.{
  Parts, Cut, split_at-Parts, find_var_operator-Cut, extract_balanced-Inside,
}
use wasm_shell.Bash.Words.{
  Queue, Run, parse_backtick, brace_operator, brace_expr, parse_brace_var, arith_paren,
  command_paren, parse_paren, special_or_name, special_of, parse_dollar, operator_of, operation,
  length_name,
}

module _ (I : Queue → Type 0) where
  -- A computation that keeps `I` and does not use up its fuel.
  abbrev pub Safe : {A : Type 0} → Run A → Type 0
  Safe m = (q : Queue) → I q → Ends I (λ _ r. I r) (m q)

  pub Safe-bind :
      {A B : Type 0} (m : Run A) (next : A → Run B)
      → Safe m
      → ((a : A) → Safe (next a))
      → Safe (m >>= next)
  Safe-bind m next h k q i =
      Ends-bind I (λ _ r. I r) (λ _ r. I r) (m q) next (h q i) (λ a s j. k a s j)

  pub Safe-lift :
      {A B : Type 0} (P : A → Type 0) (r : Result ParseError A) (next : A → Run B)
      → Yields P r
      → ((a : A) → P a → Safe (next a))
      → Safe (lift r >>= next)
  Safe-lift P (ok a) next h k q i = k a h q i
  Safe-lift P (err e) next h k q i = (h, i)

  -- The parser of texts that are shorter than `n`.
  abbrev pub SafeBelow : {A : Type 0} → ℕ → (Str → Run A) → Type 0
  SafeBelow n p = (t : Str) → length t < n → Safe (p t)

  module _ (parse : Str → Run Script) (n : ℕ) (inner : SafeBelow n parse) where
    trimmed-Safe : (t : Str) → length t < n → Safe (parse (trim t))
    trimmed-Safe t h = inner (trim t) (omega (arith, trim-length t))

    pub parse_backtick-Safe :
        (s : Str) (base : ℕ) → length s ≤ n → Safe (parse_backtick parse s base)
    unfolding parse_backtick
    parse_backtick-Safe s base h q i = elim (Option-cases (split_at b'`' s)) [
      | inl e ↦ rw (e, parse_backtick) (tt, i)
      | inr ((text, after), e) ↦
          let k = subst (λ o. Parts s o) e (split_at-Parts b'`' s) in
          rw (e, parse_backtick)
            (Safe-bind (parse (trim text)) (λ script. return (script, byte_len text + 1))
              (trimmed-Safe text (omega arith)) (λ script r j. j) q i)
    ]

    arith_paren-Safe : (s : Str) (base : ℕ) → Safe (arith_paren parse s base)
    unfolding arith_paren
    arith_paren-Safe s base =
        Safe-lift _ (extract_balanced s b'(' b')' (base + 3) (codes "))"))
          (λ (t, m). return (arith_subst t, 3 + m))
          (extract_balanced-Inside s b'(' b')' (base + 3) (codes "))")) (λ a k q i. i)

    command_paren-Safe : (s : Str) (base : ℕ) → length s ≤ n → Safe (command_paren parse s base)
    unfolding command_paren
    command_paren-Safe s base h =
        Safe-lift (λ (t, m). length t < length s)
          (extract_balanced s b'(' b')' (base + 2) (codes ")"))
          (λ (t, m). parse (trim t) >>= λ script. return (command_subst script, 2 + m))
          (extract_balanced-Inside s b'(' b')' (base + 2) (codes ")"))
          (λ (t, m) k.
            Safe-bind (parse (trim t)) (λ script. return (command_subst script, 2 + m))
              (trimmed-Safe t (omega arith)) (λ script q i. i))

    parse_paren-Safe : (s : Str) (base : ℕ) → length s ≤ n → Safe (parse_paren parse s base)
    unfolding parse_paren
    parse_paren-Safe [] base h q i = command_paren-Safe [] base h q i
    parse_paren-Safe (c ∷ s) base h q i =
        let two = arith_paren-Safe s base q i in
        let one = command_paren-Safe (c ∷ s) base h q i in ground arith

    module _ (words : Str → ℕ → Run Word) (k : ℕ)
        (safe : (t : Str) (base : ℕ) → length t < k → Safe (words t base)) where
      operator_of-length : (s : Str) → length (operator_of s).1.1 ≤ length s
      unfolding operator_of
      operator_of-length [] = omega arith
      operator_of-length (c ∷ []) = omega arith
      operator_of-length (c ∷ (d ∷ s)) = ground arith

      brace_operator-Safe :
          (base : ℕ) (s : Str) → length s < k → Safe (brace_operator parse words base s)
      unfolding brace_operator
      brace_operator-Safe base s h q i = elim (Option-cases (find_var_operator s)) [
        | inl e ↦ rw (e, brace_operator) i
        | inr ((x, from), e) ↦
            let c = subst (λ o. Cut s o) e (find_var_operator-Cut s) in
            let o = operator_of from in
            rw (e, brace_operator)
              (Safe-bind (words o.1.1 (base + byte_len x + o.1.0)) (λ w. return (operation o.0 x w))
                (safe o.1.1 _ (omega (arith, operator_of-length from))) (λ w r j. j) q i)
      ]

      brace_expr-Safe : (base : ℕ) (s : Str) → length s < k → Safe (brace_expr parse words base s)
      unfolding brace_expr
      brace_expr-Safe base [] h q i = (tt, i)
      brace_expr-Safe base (c ∷ s) h q i = elim (Option-cases (length_name (c ∷ s))) [
        | inl e ↦ rw (e, brace_expr) (brace_operator-Safe base (c ∷ s) h q i)
        | inr (x, e) ↦ rw (e, brace_expr) i
      ]

      parse_brace_var-Safe :
          (s : Str) (base : ℕ) → length s ≤ k → Safe (parse_brace_var parse words s base)
      unfolding parse_brace_var
      parse_brace_var-Safe s base h q i = elim (Option-cases (split_at b'}' s)) [
        | inl e ↦ rw (e, parse_brace_var) (tt, i)
        | inr ((x, after), e) ↦
            let c = subst (λ o. Parts s o) e (split_at-Parts b'}' s) in
            rw (e, parse_brace_var)
              (Safe-bind (brace_expr parse words base x) (λ v. return (v, byte_len x))
                (brace_expr-Safe base x (omega arith)) (λ v r j. j) q i)
      ]

      special_or_name-Safe : (s : Str) (o : Option SpecialVar) → Safe (special_or_name parse s o)
      unfolding special_or_name
      special_or_name-Safe s none q i = i
      special_or_name-Safe s (some v) q i = i

      brace-Safe :
          (s : Str) (base : ℕ)
          → length s ≤ k
          → Safe {A = Word × ℕ}
              (parse_brace_var parse words s base >>= λ (e, m). return (variable e, 2 + m + 1))
      brace-Safe s base h =
          Safe-bind (parse_brace_var parse words s base) (λ (e, m). return (variable e, 2 + m + 1))
            (parse_brace_var-Safe s base h) (λ (e, m) q i. i)

      -- An expansion whose text is `s`.
      pub parse_dollar-Safe :
          (s : Str) (base : ℕ)
          → length s ≤ n
          → length s ≤ k
          → Safe (parse_dollar parse words s base)
      unfolding parse_dollar
      parse_dollar-Safe [] base h l q i = i
      parse_dollar-Safe (c ∷ s) base h l q i =
          let round = parse_paren-Safe s base (omega arith) q i in
          let brace = brace-Safe s (base + 2) (omega arith) q i in
          let other = special_or_name-Safe (c ∷ s) (special_of c) q i in ground arith
