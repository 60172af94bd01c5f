-- ===== src/Shell/Arith/Expr.antt =====
-- The grammar that `parse_expr` in crates/wasm_shell/src/expand.rs is to read: expressions, their value, and their
-- tokens with no more parentheses than the precedence of the operators asks for.
use wasm_shell.Base.{
  ℕ, suc, ◌≤◌, ◌<◌, List, [], ◌∷◌, ◌++◌, arith, Result, ok, ◌>>=◌, if◌then◌else◌, ltb,
}
use wasm_shell.Base.Int.{ℤ, pos, ◌-ℤ◌, wrap_64}
use wasm_shell.Shell.Arith.{
  ArithError, ATok, num, plus, minus, star, slash, percent, star_star, lparen, rparen, apply_binop,
}

pub data BinOp : Type 0 where
  add sub mul div rem pow : BinOp

pub data Expr : Type 0 where
  lit : ℤ → Expr
  neg : Expr → Expr
  bin : BinOp → Expr → Expr → Expr

unfoldable pub token : BinOp → ATok
token add = plus
token sub = minus
token mul = star
token div = slash
token rem = percent
token pow = star_star

-- The value, or the first error from the left: `i64` arithmetic, with no parser in it.
unfoldable pub eval : Expr → Result ArithError ℤ
unfolding token apply_binop
eval (lit n) = ok n
eval (neg e) = eval e >>= λ v. ok (wrap_64 (pos 0 -ℤ v))
eval (bin op l r) = eval l >>= λ a. eval r >>= λ b. apply_binop (token op) a b

-- How tightly an operator binds, and the least tightness its operands may have without parentheses. `**` groups to
-- the right, all others to the left.
unfoldable pub level : BinOp → ℕ
level add = 10
level sub = 10
level mul = 20
level div = 20
level rem = 20
level pow = 30

unfoldable pub left_level : BinOp → ℕ
unfolding level
left_level pow = 31
left_level op = level op

unfoldable pub right_level : BinOp → ℕ
unfolding level
right_level pow = 29
right_level op = suc (level op)

unfoldable pub in_parens : List ATok → List ATok
in_parens ts = lparen ∷ ts ++ rparen ∷ []

-- The tokens of an expression whose surroundings ask for the level `k`.
unfoldable pub show_at : ℕ → Expr → List ATok
unfolding token level left_level right_level in_parens
show_at k (lit n) = num n ∷ []
show_at k (neg e) = minus ∷ show_at 31 e
show_at k (bin op l r) =
    let ts = show_at (left_level op) l ++ token op ∷ show_at (right_level op) r in
    if ltb (level op) k then in_parens ts else ts

unfoldable pub show : Expr → List ATok
unfolding show_at
show e = show_at 0 e

pub right_level-bound : (op : BinOp) (n : ℕ) → n ≤ level op → n ≤ 20 → n < right_level op
unfolding level right_level
right_level-bound add n h k = omega arith
right_level-bound sub n h k = omega arith
right_level-bound mul n h k = omega arith
right_level-bound div n h k = omega arith
right_level-bound rem n h k = omega arith
right_level-bound pow n h k = omega arith

pub level_max : (op : BinOp) → level op ≤ 30
unfolding level
level_max add = omega arith
level_max sub = omega arith
level_max mul = omega arith
level_max div = omega arith
level_max rem = omega arith
level_max pow = omega arith

pub left-below-right : (op op' : BinOp) → left_level op ≤ level op' → level op < right_level op'
unfolding level left_level
left-below-right add op' h = right_level-bound op' 10 h (omega arith)
left-below-right sub op' h = right_level-bound op' 10 h (omega arith)
left-below-right mul op' h = right_level-bound op' 20 h (omega arith)
left-below-right div op' h = right_level-bound op' 20 h (omega arith)
left-below-right rem op' h = right_level-bound op' 20 h (omega arith)
left-below-right pow op' h = (let k = level_max op' in absurd (omega arith))

pub top_level : (op : BinOp) → 29 ≤ level op → 30 ≤ level op
unfolding level
top_level add h = absurd (omega arith)
top_level sub h = absurd (omega arith)
top_level mul h = absurd (omega arith)
top_level div h = absurd (omega arith)
top_level rem h = absurd (omega arith)
top_level pow h = omega arith

pub level-right : (op op' : BinOp) → right_level op ≤ level op' → level op ≤ level op'
unfolding level right_level
level-right add op' h = omega arith
level-right sub op' h = omega arith
level-right mul op' h = omega arith
level-right div op' h = omega arith
level-right rem op' h = omega arith
level-right pow op' h = top_level op' h

pub left_level-min : (op : BinOp) → level op ≤ left_level op
unfolding level left_level
left_level-min add = omega arith
left_level-min sub = omega arith
left_level-min mul = omega arith
left_level-min div = omega arith
left_level-min rem = omega arith
left_level-min pow = omega arith
