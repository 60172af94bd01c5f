-- ===== src/Shell/Arith/Grammar.antt =====
-- The parser of crates/wasm_shell/src/expand.rs on the tokens of an expression.
use wasm_shell.Base.{
  ℕ, zero, ◌+◌, ◌*◌, ◌≤◌, ◌<◌, ◌≡◌, refl, sym, ◌∙◌, ap, none, some, List, [], ◌∷◌, ◌++◌,
  append_assoc, arith, ok, ◌>>=◌, >>=-assoc, >>=-ext, >>=-ok, append-nil, lt-or-le, inl, inr, subst,
  length,
}
use wasm_shell.Base.Int.{ℤ, pos, ◌-ℤ◌, wrap_64}
use wasm_shell.Shell.Arith.{
  ATok, minus, lparen, rparen, binding, continues, apply_binop, close_paren, negate, finish,
  parse_tokens,
}
use wasm_shell.Shell.Arith.Run.{
  expr, loop, prefix, expr-eq-parse_expr, expr_lem, loop-nil, loop_stop, loop_op, prefix-num,
  prefix-minus, prefix-lparen,
}
use wasm_shell.Shell.Arith.Expr.{
  BinOp, Expr, lit, neg, bin, token, eval, level, left_level, right_level, in_parens, show_at, show,
  level_max, left-below-right, level-right, left_level-min, add, sub, mul, div, rem, pow,
}

-- The loop with the least binding power `m` stops in front of the tokens.
Halts : List ATok → ℕ → Type 0
Halts [] m = zero ≡ zero
Halts (t ∷ ts) m = continues t m ≡ none

-- It stops so behind every operator of the level `k` or more.
Stops : ℕ → List ATok → Type 0
Stops k ts = (op : BinOp) → k ≤ level op → Halts ts (right_level op)

Halts-loop : (v : ℤ) (ts : List ATok) (m : ℕ) → Halts ts m → loop v ts m ≡ ok (v, ts)
unfolding Halts
Halts-loop v [] m h = loop-nil v m
Halts-loop v (t ∷ ts) m h = loop_stop v t ts m h

continues-token :
    (op : BinOp) (m : ℕ) → m ≤ level op → continues (token op) m ≡ some (right_level op)
unfolding continues binding token level right_level
continues-token add m h = ground (arith, h)
continues-token sub m h = ground (arith, h)
continues-token mul m h = ground (arith, h)
continues-token div m h = ground (arith, h)
continues-token rem m h = ground (arith, h)
continues-token pow m h = ground (arith, h)

halts-token : (op : BinOp) (m : ℕ) → level op < m → continues (token op) m ≡ none
unfolding continues binding token level
halts-token add m h = ground (arith, h)
halts-token sub m h = ground (arith, h)
halts-token mul m h = ground (arith, h)
halts-token div m h = ground (arith, h)
halts-token rem m h = ground (arith, h)
halts-token pow m h = ground (arith, h)

-- Behind the left operand of `op` the loop stops at `op`.
Stops-left : (op : BinOp) (ts : List ATok) → Stops (left_level op) (token op ∷ ts)
unfolding Stops Halts
Stops-left op ts op' h = halts-token op (right_level op') (left-below-right op op' h)

Stops-right :
    (k : ℕ) (op : BinOp) (ts : List ATok) → k ≤ level op → Stops k ts → Stops (right_level op) ts
unfolding Stops
Stops-right k op ts h s op' h' = (let e = level-right op op' h' in s op' (omega arith))

-- Between parentheses the loop stops at the closing one.
Stops-rparen : (ts : List ATok) → Stops 0 (rparen ∷ ts)
unfolding Stops Halts continues binding
Stops-rparen ts op h = refl

-- The tokens of `bin op l r` without parentheses around them.
body : BinOp → Expr → Expr → List ATok
body op l r = show_at (left_level op) l ++ token op ∷ show_at (right_level op) r

-- The prefix parser reads `e`, and leaves `ts`.
ReadsPrefix : Expr → List ATok → List ATok → Type 0
ReadsPrefix e e_ts ts = prefix (e_ts ++ ts) ≡ (eval e >>= λ v. ok (v, ts))

-- The expression parser reads `e`, and goes on with its loop.
Reads : Expr → List ATok → ℕ → List ATok → Type 0
Reads e e_ts m ts = expr (e_ts ++ ts) m ≡ (eval e >>= λ v. loop v ts m)

Reads-of-prefix :
    (e : Expr) (e_ts ts : List ATok) (m : ℕ) → ReadsPrefix e e_ts ts → Reads e e_ts m ts
unfolding Reads ReadsPrefix
Reads-of-prefix e e_ts ts m h =
    expr_lem (e_ts ++ ts) m
    ∙ ap (λ x. x >>= λ r. loop r.0 r.1 m) h
    ∙ >>=-assoc (eval e) (λ v. ok (v, ts)) (λ r. loop r.0 r.1 m)

Halts-rparen : (ts : List ATok) → Halts (rparen ∷ ts) 0
unfolding Halts continues binding
Halts-rparen ts = refl

Reads-parens :
    (e : Expr) (e_ts ts : List ATok)
    → Reads e e_ts 0 (rparen ∷ ts)
    → ReadsPrefix e (in_parens e_ts) ts
unfolding Reads ReadsPrefix in_parens close_paren
Reads-parens e e_ts ts h =
    ap (λ x. prefix (lparen ∷ x)) (append_assoc e_ts (rparen ∷ []) ts)
    ∙ prefix-lparen (e_ts ++ rparen ∷ ts)
    ∙ ap (λ x. x >>= close_paren) h
    ∙ >>=-assoc (eval e) (λ v. loop v (rparen ∷ ts) 0) close_paren
    ∙ >>=-ext (eval e) _ _
        (λ v. ap (λ x. x >>= close_paren) (Halts-loop v (rparen ∷ ts) 0 (Halts-rparen ts)))

reads_neg :
    (e : Expr) (e_ts ts : List ATok) → ReadsPrefix e e_ts ts → ReadsPrefix (neg e) (minus ∷ e_ts) ts
unfolding ReadsPrefix eval negate
reads_neg e e_ts ts h =
    prefix-minus (e_ts ++ ts)
    ∙ ap (λ x. x >>= negate) h
    ∙ >>=-assoc (eval e) (λ v. ok (v, ts)) negate
    ∙ sym (>>=-assoc (eval e) (λ v. ok (wrap_64 (pos 0 -ℤ v))) (λ v. ok (v, ts)))

Reads-bin :
    (op : BinOp) (l r : Expr) (m : ℕ) (ts : List ATok)
    → Reads l (show_at (left_level op) l) m (token op ∷ show_at (right_level op) r ++ ts)
    → Reads r (show_at (right_level op) r) (right_level op) ts
    → m ≤ level op
    → Halts ts (right_level op)
    → Reads (bin op l r) (body op l r) m ts
unfolding Reads body eval
Reads-bin op l r m ts hl hr le halts =
    let o = right_level op in
    let r_ts = show_at o r in
    ap (λ x. expr x m) (append_assoc (show_at (left_level op) l) (token op ∷ r_ts) ts)
    ∙ hl
    ∙ >>=-ext (eval l) _ _ (λ a.
      loop_op a (token op) (r_ts ++ ts) m o (continues-token op m le)
      ∙ ap (λ x. x >>= λ p. apply_binop (token op) a p.0 >>= λ v. loop v p.1 m) hr
      ∙ >>=-assoc (eval r) (λ v. loop v ts o)
          (λ p. apply_binop (token op) a p.0 >>= λ v. loop v p.1 m)
      ∙ >>=-ext (eval r) _ _ (λ b.
        ap (λ x. x >>= λ p. apply_binop (token op) a p.0 >>= λ v. loop v p.1 m)
          (Halts-loop b ts o halts))
      ∙ sym (>>=-assoc (eval r) (λ b. apply_binop (token op) a b) (λ v. loop v ts m)))
    ∙ sym (>>=-assoc (eval l) (λ a. eval r >>= λ b. apply_binop (token op) a b) (λ v. loop v ts m))

show_at-parens :
    (k : ℕ) (op : BinOp) (l r : Expr)
    → level op < k
    → show_at k (bin op l r) ≡ in_parens (body op l r)
unfolding show_at body
show_at-parens k op l r h = ground (arith, h)

show_at-plain :
    (k : ℕ) (op : BinOp) (l r : Expr) → k ≤ level op → show_at k (bin op l r) ≡ body op l r
unfolding show_at body
show_at-plain k op l r h = ground (arith, h)

Stops-mono : (k k' : ℕ) (ts : List ATok) → k ≤ k' → Stops k ts → Stops k' ts
unfolding Stops
Stops-mono k k' ts le s op h = s op (omega arith)

-- With the least binding power `m` the parser reads what is shown at the level `m` or more, if the loop stops
-- behind it.
ReadsAll : Expr → Type 0
ReadsAll e = (k m : ℕ) (ts : List ATok) → m ≤ k → Stops k ts → Reads e (show_at k e) m ts

Reads-body :
    (op : BinOp) (l r : Expr)
    → ReadsAll l
    → ReadsAll r
    → (m : ℕ) (ts : List ATok) → m ≤ level op
    → Stops (level op) ts
    → Reads (bin op l r) (body op l r) m ts
unfolding ReadsAll Stops
Reads-body op l r hl hr m ts le s =
    Reads-bin op l r m ts
      (hl (left_level op) m _ (let min = left_level-min op in omega arith) (Stops-left op _))
      (hr (right_level op) (right_level op) ts (omega arith)
        (Stops-right (level op) op ts (omega arith) s))
      le (s op (omega arith))

reads_enclosed :
    (k : ℕ) (op : BinOp) (l r : Expr) (ts : List ATok)
    → ReadsAll l
    → ReadsAll r
    → level op < k
    → ReadsPrefix (bin op l r) (show_at k (bin op l r)) ts
reads_enclosed k op l r ts hl hr lt =
    subst (λ e_ts. ReadsPrefix (bin op l r) e_ts ts) (sym (show_at-parens k op l r lt))
      (Reads-parens (bin op l r) (body op l r) ts (
        Reads-body op l r hl hr 0 (rparen ∷ ts) (omega arith)
          (Stops-mono 0 (level op) (rparen ∷ ts) (omega arith) (Stops-rparen ts))))

reads_shown : (op : BinOp) (l r : Expr) → ReadsAll l → ReadsAll r → ReadsAll (bin op l r)
unfolding ReadsAll
reads_shown op l r hl hr k m ts le s = elim (lt-or-le (level op) k) [
  | inl lt ↦
      Reads-of-prefix (bin op l r) (show_at k (bin op l r)) ts m
        (reads_enclosed k op l r ts hl hr lt)
  | inr ge ↦
      subst (λ e_ts. Reads (bin op l r) e_ts m ts) (sym (show_at-plain k op l r ge))
        (Reads-body op l r hl hr m ts (omega arith) (Stops-mono k (level op) ts ge s))
]

-- An operand of `-` is a number, another `-` or in parentheses.
reads_all : (e : Expr) → ((ts : List ATok) → ReadsPrefix e (show_at 31 e) ts) × ReadsAll e
unfolding show_at ReadsPrefix eval ReadsAll
reads_all (lit n) = (
  prefix-num n,
  λ k m ts le s. Reads-of-prefix (lit n) (show_at k (lit n)) ts m (prefix-num n ts),
)
reads_all (neg e) =
    let h : (ts : List ATok) → ReadsPrefix (neg e) (show_at 31 (neg e)) ts =
      λ ts. reads_neg e (show_at 31 e) ts ((reads_all e).0 ts) in
    (h, λ k m ts le s. Reads-of-prefix (neg e) (show_at k (neg e)) ts m (h ts))
reads_all (bin op l r) =
    let hl = (reads_all l).1 in
    let hr = (reads_all r).1 in
    (
      (λ ts. reads_enclosed 31 op l r ts hl hr (let le = level_max op in omega arith)),
      reads_shown op l r hl hr,
    )

-- For every expression of the binary operators and the minus sign, the parser computes from the expression's
-- tokens, with only the parentheses that its operators ask for, the value of the expression or its first
-- error: `*`, `/`, `%` before `+`, `-` and from the left, `**` before all of them and from the right, a sign
-- before all.
pub parse_tokens-show : (e : Expr) → parse_tokens (show e) ≡ eval e
unfolding parse_tokens show finish ReadsAll Reads Stops Halts
parse_tokens-show e =
    let ts = show_at 0 e in
    ap (λ x. x >>= finish)
      (expr-eq-parse_expr (2 * length ts + 2) ts 0 (omega arith)
        ∙ ap (λ x. expr x 0) (sym (append-nil ts))
        ∙ (reads_all e).1 0 0 [] (omega arith) (λ op h. refl))
    ∙ >>=-assoc (eval e) (λ v. loop v [] 0) finish
    ∙ >>=-ext (eval e) _ _ (λ v. ap (λ x. x >>= finish) (loop-nil v 0))
    ∙ >>=-ok (eval e)
