-- ===== src/Shell/Arith/Fuel.antt =====
-- The loops of the evaluator end: the fuel that `tokenize_arith` and `parse_tokens` give is enough for every
-- input, and more fuel changes no result.
use wasm_shell.Base.{
  ℕ, zero, suc, ◌+◌, ◌*◌, ◌≤◌, ◌<◌, ◌≡◌, ◌≢◌, refl, true, Option, none, some, List, [], ◌∷◌, Str,
  length, arith, Result, ok, err, ◌>>=◌, if_cases, ◌==◌, ◌||◌, codes, ◌++◌,
}
use wasm_shell.Base.Map.{Map}
use wasm_shell.Base.Int.{ℤ, pos, is_digit, parse_digits, two_63}
use wasm_shell.Shell.Arith.{
  ArithError, message, panic, no_fuel, ATok, num, plus, minus, star, slash, percent, star_star,
  lparen, rparen, Parsed, span_digits, number_token, star_token, operator, next_token,
  tokenize_from, tokenize_arith, keep_token, continues, apply_binop, parse_expr, parse_loop,
  parse_prefix, parse_tokens, parse_fuel, parse_arith, eval_arith, trim, expand_arith_vars, finish,
  close_paren, negate,
}

-- A result that is not for want of fuel, and leaves fewer than `n` tokens.
abbrev pub Ends : ℕ → Parsed → Type 0
Ends n (ok r) = length r.1 < n
Ends n (err no_fuel) = ⊥
Ends n (err e) = Unit

-- The rules by which the results are put together.
pub Ends-bind :
    (n k : ℕ) (m : Parsed) (f : ℤ × List ATok → Parsed)
    → Ends n m
    → ((r : ℤ × List ATok) → length r.1 < n → Ends k (f r))
    → Ends k (m >>= f)
Ends-bind n k (ok r) f e h = h r e
Ends-bind n k (err no_fuel) f e h = e
Ends-bind n k (err (message s)) f e h = tt
Ends-bind n k (err panic) f e h = tt

pub Ends-mono : (n k : ℕ) (m : Parsed) → n ≤ k → Ends n m → Ends k m
Ends-mono n k (ok r) h e = omega arith
Ends-mono n k (err no_fuel) h e = e
Ends-mono n k (err (message s)) h e = tt
Ends-mono n k (err panic) h e = tt

pub Ends-close_paren : (n : ℕ) (r : ℤ × List ATok) → length r.1 < n → Ends n (close_paren r)
unfolding parse_prefix
Ends-close_paren n (v, rparen ∷ ts) h = omega arith
Ends-close_paren n (v, ts) h = tt

binop-fuel : (op : ATok) (a b : ℤ) → apply_binop op a b ≢ err no_fuel
unfolding apply_binop
binop-fuel plus a b h = cc
binop-fuel minus a b h = cc
binop-fuel star a b h = cc
binop-fuel slash a b h = ground arith
binop-fuel percent a b h = ground arith
binop-fuel star_star a b h = ground arith
binop-fuel (num n) a b h = cc
binop-fuel lparen a b h = cc
binop-fuel rparen a b h = cc

pub Ends-binop :
    (k : ℕ) (op : ATok) (a b : ℤ) (f : ℤ → Parsed)
    → ((v : ℤ) → Ends k (f v))
    → Ends k (apply_binop op a b >>= f)
Ends-binop k op a b f h = step (apply_binop op a b) (binop-fuel op a b)
  where
    step : (m : Result ArithError ℤ) → m ≢ err no_fuel → Ends k (m >>= f)
    step (ok v) ne = h v
    step (err no_fuel) ne = absurd (ne refl)
    step (err (message s)) ne = tt
    step (err panic) ne = tt

mutual
  unfolding parse_expr

  pub parse_expr-Ends :
      (fuel : ℕ) (ts : List ATok) (min_bp : ℕ)
      → 2 * length ts + 2 ≤ fuel
      → Ends (suc (length ts)) (parse_expr fuel ts min_bp)
  parse_expr-Ends zero ts min_bp h = absurd (omega arith)
  parse_expr-Ends (suc fuel) ts min_bp h =
      Ends-bind (length ts) (suc (length ts)) (parse_prefix fuel ts) _
        (parse_prefix-Ends fuel ts (omega arith))
        (λ r lt.
          Ends-mono (suc (length r.1)) (suc (length ts)) _ (omega arith)
            (parse_loop-Ends fuel r.0 r.1 min_bp (omega arith)))

  pub parse_loop-Ends :
      (fuel : ℕ) (lhs : ℤ) (ts : List ATok) (min_bp : ℕ)
      → 2 * length ts + 2 ≤ fuel
      → Ends (suc (length ts)) (parse_loop fuel lhs ts min_bp)
  parse_loop-Ends zero lhs ts min_bp h = absurd (omega arith)
  parse_loop-Ends (suc fuel) lhs [] min_bp h = omega arith
  parse_loop-Ends (suc fuel) lhs (op ∷ ts) min_bp h =
      elim (continues op min_bp)
        as (λ c. Ends (suc (suc (length ts))) (elim c [
          | none ↦ ok (lhs, op ∷ ts)
          | some rbp ↦ parse_expr fuel ts rbp >>= λ r.
              apply_binop op lhs r.0 >>= λ v. parse_loop fuel v r.1 min_bp
        ])) [
          | none ↦ omega arith
          | some rbp ↦
              Ends-bind (suc (length ts)) (suc (suc (length ts))) (parse_expr fuel ts rbp) _
                (parse_expr-Ends fuel ts rbp (omega arith))
                (λ r lt. Ends-binop (suc (suc (length ts))) op lhs r.0 _ (λ v.
                  Ends-mono (suc (length r.1)) (suc (suc (length ts))) _ (omega arith)
                    (parse_loop-Ends fuel v r.1 min_bp (omega arith))))
        ]

  pub parse_prefix-Ends :
      (fuel : ℕ) (ts : List ATok)
      → 2 * length ts + 1 ≤ fuel
      → Ends (length ts) (parse_prefix fuel ts)
  parse_prefix-Ends zero ts h = absurd (omega arith)
  parse_prefix-Ends (suc fuel) [] h = tt
  parse_prefix-Ends (suc fuel) (num n ∷ ts) h = omega arith
  parse_prefix-Ends (suc fuel) (minus ∷ ts) h =
      Ends-bind (length ts) (suc (length ts)) (parse_prefix fuel ts) negate
        (parse_prefix-Ends fuel ts (omega arith)) (λ r lt. omega arith)
  parse_prefix-Ends (suc fuel) (plus ∷ ts) h =
      Ends-mono (length ts) (suc (length ts)) _ (omega arith)
        (parse_prefix-Ends fuel ts (omega arith))
  parse_prefix-Ends (suc fuel) (lparen ∷ ts) h =
      Ends-bind (suc (length ts)) (suc (length ts)) (parse_expr fuel ts 0) close_paren
        (parse_expr-Ends fuel ts 0 (omega arith)) (λ r lt. Ends-close_paren (suc (length ts)) r lt)
  parse_prefix-Ends (suc fuel) (star ∷ ts) h = tt
  parse_prefix-Ends (suc fuel) (slash ∷ ts) h = tt
  parse_prefix-Ends (suc fuel) (percent ∷ ts) h = tt
  parse_prefix-Ends (suc fuel) (star_star ∷ ts) h = tt
  parse_prefix-Ends (suc fuel) (rparen ∷ ts) h = tt

finish-fuel : (n : ℕ) (m : Parsed) → Ends n m → (m >>= finish) ≢ err no_fuel
unfolding finish
finish-fuel n (ok (v, [])) e h = cc
finish-fuel n (ok (v, t ∷ ts)) e h = cc
finish-fuel n (err no_fuel) e h = e
finish-fuel n (err (message s)) e h = cc
finish-fuel n (err panic) e h = cc

-- The parser has fuel enough for every list of tokens.
pub parse_tokens-fuel : (ts : List ATok) → parse_tokens ts ≢ err no_fuel
unfolding parse_tokens
parse_tokens-fuel ts =
    finish-fuel (suc (length ts)) (parse_expr (parse_fuel ts) ts 0)
      (parse_expr-Ends (parse_fuel ts) ts 0 (omega arith))

length-span_digits : (s : Str) → length (span_digits s).1 ≤ length s
unfolding span_digits
length-span_digits [] = omega arith
length-span_digits (c ∷ s) = ground (arith, length-span_digits s)

length-span_digits_cons :
    (c : ℕ) (s : Str) → is_digit c ≡ true → length (span_digits (c ∷ s)).1 ≤ length s
unfolding span_digits
length-span_digits_cons c s h = ground (arith, length-span_digits s)

-- A token takes at least one character, and reading it takes no fuel.
abbrev Shrinks : {A : Type 0} → ℕ → Result ArithError (A × Str) → Type 0
Shrinks n (ok r) = length r.1 ≤ n
Shrinks n (err no_fuel) = ⊥
Shrinks n (err e) = Unit

number-Shrinks :
    (n : ℕ) (digits rest : Str)
    → length rest ≤ n
    → Shrinks n (number_token digits >>= λ t. ok (some t, rest))
unfolding number_token
number-Shrinks n digits rest h =
    elim (parse_digits two_63 digits)
      as (λ o. Shrinks {A = Option ATok} n (
        elim o [
          | some k ↦ ok (num (pos k))
          | none ↦ err (message (codes "number too large to fit in target type"))
        ]
        >>= λ t. ok (some t, rest))) [ some k ↦ h | none ↦ tt ]

star-Shrinks : (s : Str) → Shrinks (length s) (star_token s)
unfolding star_token
star-Shrinks [] = omega arith
star-Shrinks (d ∷ s) =
    if_cases (Shrinks (suc (length s))) (d == b'*') _ _ (λ _. omega arith) (λ _. omega arith)

operator-Shrinks :
    (c : ℕ) (s : Str) (o : Option ATok)
    → Shrinks {A = Option ATok} (length s) (elim o [
      | some t ↦ ok (some t, s)
      | none ↦ err (message (codes "unexpected char in arithmetic: " ++ c ∷ []))
    ])
operator-Shrinks c s (some t) = omega arith
operator-Shrinks c s none = tt

next_token-Shrinks : (c : ℕ) (s : Str) → Shrinks (length s) (next_token c s)
unfolding next_token
next_token-Shrinks c s =
    if_cases (Shrinks (length s)) (c == b' ' || c == 9) _ _ (λ _. omega arith)
      λ _.
        if_cases (Shrinks (length s)) (is_digit c) _ _
          (λ d. number-Shrinks (length s) _ _ (length-span_digits_cons c s d))
          λ _.
            if_cases (Shrinks (length s)) (c == b'*') _ _ (λ _. star-Shrinks s)
              λ _. operator-Shrinks c s (operator c)

tokenize-bind :
    (n : ℕ) (m : Result ArithError (Option ATok × Str)) (f : Str → Result ArithError (List ATok))
    → Shrinks n m
    → ((s : Str) → length s ≤ n → f s ≢ err no_fuel)
    → (m >>= λ r. f r.1 >>= λ ts. ok (keep_token r.0 ts)) ≢ err no_fuel
tokenize-bind n (ok (t, s)) f h k = step (f s) (k s h)
  where
    step :
        (m : Result ArithError (List ATok))
        → m ≢ err no_fuel
        → (m >>= λ ts. ok (keep_token t ts)) ≢ err no_fuel
    step (ok ts) ne = cc
    step (err e) ne = λ p. ne (ground (arith, p))
tokenize-bind n (err no_fuel) f h k = absurd h
tokenize-bind n (err (message s)) f h k = cc
tokenize-bind n (err panic) f h k = cc

tokenize_from-fuel : (fuel : ℕ) (s : Str) → length s ≤ fuel → tokenize_from fuel s ≢ err no_fuel
unfolding tokenize_from
tokenize_from-fuel zero [] h = cc
tokenize_from-fuel (suc fuel) [] h = cc
tokenize_from-fuel zero (c ∷ s) h = absurd (omega arith)
tokenize_from-fuel (suc fuel) (c ∷ s) h =
    tokenize-bind (length s) (next_token c s) (tokenize_from fuel) (next_token-Shrinks c s)
      (λ s' le. tokenize_from-fuel fuel s' (omega arith))

parse-bind :
    (m : Result ArithError (List ATok)) → m ≢ err no_fuel → (m >>= parse_tokens) ≢ err no_fuel
parse-bind (ok ts) ne = parse_tokens-fuel ts
parse-bind (err e) ne = λ p. ne (ground (arith, p))

-- The evaluator ends on every expression and in every environment: with a value, an error message or a panic,
-- and never for want of fuel.
pub eval_arith-fuel : (expr : Str) (env : Map Str) → eval_arith expr env ≢ err no_fuel
unfolding eval_arith parse_arith tokenize_arith
eval_arith-fuel expr env =
    let s = trim (expand_arith_vars expr env) in
    parse-bind (tokenize_from (length s) s) (tokenize_from-fuel (length s) s (omega arith))
