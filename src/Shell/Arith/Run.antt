-- ===== src/Shell/Arith/Run.antt =====
-- With fuel enough the amount of it does not matter: the equations of the parser without fuel.
use wasm_shell.Base.{
  ℕ, zero, suc, ◌+◌, ◌*◌, ◌≤◌, ◌<◌, ◌≡◌, refl, sym, ◌∙◌, ap, none, some, List, [], ◌∷◌, length,
  arith, Result, ok, err, ◌>>=◌,
}
use wasm_shell.Base.Int.{ℤ}
use wasm_shell.Shell.Arith.{
  ArithError, ATok, num, plus, minus, lparen, Parsed, continues, apply_binop, parse_expr,
  parse_loop, parse_prefix, close_paren, negate,
}
use wasm_shell.Shell.Arith.Fuel.{Ends, parse_expr-Ends, parse_prefix-Ends}

bind_agree :
    (n : ℕ) (m m' : Parsed) (f g : ℤ × List ATok → Parsed)
    → m ≡ m'
    → Ends n m
    → ((r : ℤ × List ATok) → length r.1 < n → f r ≡ g r)
    → (m >>= f) ≡ (m' >>= g)
bind_agree n (ok r) m' f g p e h = rw (← p) (h r e)
bind_agree n (err x) m' f g p e h = rw (← p) refl

binop_agree :
    (m : Result ArithError ℤ) (f g : ℤ → Parsed) → ((v : ℤ) → f v ≡ g v) → (m >>= f) ≡ (m >>= g)
binop_agree (ok v) f g h = h v
binop_agree (err x) f g h = refl

mutual
  unfolding parse_expr

  parse_expr_agree :
      (a b : ℕ) (ts : List ATok) (min_bp : ℕ)
      → 2 * length ts + 2 ≤ a
      → 2 * length ts + 2 ≤ b
      → parse_expr a ts min_bp ≡ parse_expr b ts min_bp
  parse_expr_agree zero b ts min_bp h k = absurd (omega arith)
  parse_expr_agree (suc a) zero ts min_bp h k = absurd (omega arith)
  parse_expr_agree (suc a) (suc b) ts min_bp h k =
      bind_agree (length ts) (parse_prefix a ts) (parse_prefix b ts) _ _
        (parse_prefix_agree a b ts (omega arith) (omega arith))
        (parse_prefix-Ends a ts (omega arith))
        (λ r lt. parse_loop_agree a b r.0 r.1 min_bp (omega arith) (omega arith))

  parse_loop_agree :
      (a b : ℕ) (lhs : ℤ) (ts : List ATok) (min_bp : ℕ)
      → 2 * length ts + 2 ≤ a
      → 2 * length ts + 2 ≤ b
      → parse_loop a lhs ts min_bp ≡ parse_loop b lhs ts min_bp
  parse_loop_agree zero b lhs ts min_bp h k = absurd (omega arith)
  parse_loop_agree (suc a) zero lhs ts min_bp h k = absurd (omega arith)
  parse_loop_agree (suc a) (suc b) lhs [] min_bp h k = refl
  parse_loop_agree (suc a) (suc b) lhs (op ∷ ts) min_bp h k =
      elim (continues op min_bp)
        as (λ c.
          ◌≡◌ {A = Parsed}
            (elim c [
              | none ↦ ok (lhs, op ∷ ts)
              | some rbp ↦ parse_expr a ts rbp >>= λ r.
                  apply_binop op lhs r.0 >>= λ v. parse_loop a v r.1 min_bp
            ])
            (elim c [
              | none ↦ ok (lhs, op ∷ ts)
              | some rbp ↦ parse_expr b ts rbp >>= λ r.
                  apply_binop op lhs r.0 >>= λ v. parse_loop b v r.1 min_bp
            ])) [
              | none ↦ refl
              | some rbp ↦
                  bind_agree (suc (length ts)) (parse_expr a ts rbp) (parse_expr b ts rbp) _ _
                    (parse_expr_agree a b ts rbp (omega arith) (omega arith))
                    (parse_expr-Ends a ts rbp (omega arith))
                    (λ r lt.
                      binop_agree (apply_binop op lhs r.0) _ _
                        (λ v. parse_loop_agree a b v r.1 min_bp (omega arith) (omega arith)))
            ]

  parse_prefix_agree :
      (a b : ℕ) (ts : List ATok)
      → 2 * length ts + 1 ≤ a
      → 2 * length ts + 1 ≤ b
      → parse_prefix a ts ≡ parse_prefix b ts
  parse_prefix_agree zero b ts h k = absurd (omega arith)
  parse_prefix_agree (suc a) zero ts h k = absurd (omega arith)
  parse_prefix_agree (suc a) (suc b) (minus ∷ ts) h k =
      ap (λ m. m >>= negate) (parse_prefix_agree a b ts (omega arith) (omega arith))
  parse_prefix_agree (suc a) (suc b) (plus ∷ ts) h k =
      parse_prefix_agree a b ts (omega arith) (omega arith)
  parse_prefix_agree (suc a) (suc b) (lparen ∷ ts) h k =
      ap (λ m. m >>= close_paren) (parse_expr_agree a b ts 0 (omega arith) (omega arith))
  parse_prefix_agree (suc a) (suc b) _ h k = refl

-- The parser with fuel enough for its tokens.
pub expr : List ATok → ℕ → Parsed
expr ts min_bp = parse_expr (2 * length ts + 2) ts min_bp

pub loop : ℤ → List ATok → ℕ → Parsed
loop lhs ts min_bp = parse_loop (2 * length ts + 2) lhs ts min_bp

pub prefix : List ATok → Parsed
prefix ts = parse_prefix (2 * length ts + 1) ts

pub expr-eq-parse_expr :
    (fuel : ℕ) (ts : List ATok) (min_bp : ℕ)
    → 2 * length ts + 2 ≤ fuel
    → parse_expr fuel ts min_bp ≡ expr ts min_bp
unfolding expr
expr-eq-parse_expr fuel ts min_bp h =
    parse_expr_agree fuel (2 * length ts + 2) ts min_bp h (omega arith)

loop-eq-parse_loop :
    (fuel : ℕ) (lhs : ℤ) (ts : List ATok) (min_bp : ℕ)
    → 2 * length ts + 2 ≤ fuel
    → parse_loop fuel lhs ts min_bp ≡ loop lhs ts min_bp
unfolding loop
loop-eq-parse_loop fuel lhs ts min_bp h =
    parse_loop_agree fuel (2 * length ts + 2) lhs ts min_bp h (omega arith)

prefix-eq-parse_prefix :
    (fuel : ℕ) (ts : List ATok) → 2 * length ts + 1 ≤ fuel → parse_prefix fuel ts ≡ prefix ts
unfolding prefix
prefix-eq-parse_prefix fuel ts h = parse_prefix_agree fuel (2 * length ts + 1) ts h (omega arith)

-- The equations.
pub expr_lem :
    (ts : List ATok) (min_bp : ℕ) → expr ts min_bp ≡ (prefix ts >>= λ r. loop r.0 r.1 min_bp)
unfolding parse_expr
expr_lem ts min_bp =
    let n = 2 * length ts + 1 in
    sym (expr-eq-parse_expr (suc n) ts min_bp (omega arith))
    ∙ bind_agree (length ts) (parse_prefix n ts) (prefix ts) _ _
        (prefix-eq-parse_prefix n ts (omega arith)) (parse_prefix-Ends n ts (omega arith))
        (λ r lt. loop-eq-parse_loop n r.0 r.1 min_bp (omega arith))

pub loop-nil : (lhs : ℤ) (min_bp : ℕ) → loop lhs [] min_bp ≡ ok (lhs, [])
unfolding loop parse_loop
loop-nil lhs min_bp = refl

pub loop_stop :
    (lhs : ℤ) (op : ATok) (ts : List ATok) (min_bp : ℕ)
    → continues op min_bp ≡ none
    → loop lhs (op ∷ ts) min_bp ≡ ok (lhs, op ∷ ts)
unfolding parse_loop
loop_stop lhs op ts min_bp h =
    sym (loop-eq-parse_loop (suc (2 * length ts + 4)) lhs (op ∷ ts) min_bp (omega arith))
    ∙ ground (arith, h)

pub loop_op :
    (lhs : ℤ) (op : ATok) (ts : List ATok) (min_bp rbp : ℕ)
    → continues op min_bp ≡ some rbp
    → loop lhs (op ∷ ts) min_bp
      ≡ (expr ts rbp >>= λ r. apply_binop op lhs r.0 >>= λ v. loop v r.1 min_bp)
unfolding parse_loop
loop_op lhs op ts min_bp rbp h =
    let n = 2 * length ts + 4 in
    sym (loop-eq-parse_loop (suc n) lhs (op ∷ ts) min_bp (omega arith))
    ∙ rw (h, parse_loop)
        (bind_agree (suc (length ts)) (parse_expr n ts rbp) (expr ts rbp) _ _
          (expr-eq-parse_expr n ts rbp (omega arith)) (parse_expr-Ends n ts rbp (omega arith))
          (λ r lt.
            binop_agree (apply_binop op lhs r.0) _ _
              (λ v. loop-eq-parse_loop n v r.1 min_bp (omega arith))))

pub prefix-num : (n : ℤ) (ts : List ATok) → prefix (num n ∷ ts) ≡ ok (n, ts)
unfolding parse_prefix
prefix-num n ts =
    sym (prefix-eq-parse_prefix (suc (2 * length ts + 2)) (num n ∷ ts) (omega arith)) ∙ refl

pub prefix-minus : (ts : List ATok) → prefix (minus ∷ ts) ≡ (prefix ts >>= negate)
unfolding parse_prefix
prefix-minus ts =
    let n = 2 * length ts + 2 in
    sym (prefix-eq-parse_prefix (suc n) (minus ∷ ts) (omega arith))
    ∙ ap (λ m. m >>= negate) (prefix-eq-parse_prefix n ts (omega arith))

pub prefix-lparen : (ts : List ATok) → prefix (lparen ∷ ts) ≡ (expr ts 0 >>= close_paren)
unfolding parse_prefix
prefix-lparen ts =
    let n = 2 * length ts + 2 in
    sym (prefix-eq-parse_prefix (suc n) (lparen ∷ ts) (omega arith))
    ∙ ap (λ m. m >>= close_paren) (expr-eq-parse_expr n ts 0 (omega arith))
