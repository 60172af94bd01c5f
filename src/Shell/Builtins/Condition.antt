-- ===== src/Shell/Builtins/Condition.antt =====
-- `test` in crates/wasm_shell/src/builtins.rs. An expression is evaluated with fuel for its operators.
pub mod Fuel
use wasm_shell.Base.{
  ℕ, zero, suc, ◌+◌, Bool, true, false, not, Option, none, some, List, [], ◌∷◌, Str, codes, str_eq,
  if◌then◌else◌, ◌||◌, ◌==◌, ltb, trim, length, Result, ok, err,
}
use wasm_shell.Base.Int.{ℤ, pos, negsuc, neg_ℕ, parse_digits, two_63}
use wasm_shell.Vfs.Path
use wasm_shell.Vfs.Path.{VfsError}
use wasm_shell.Vfs.Tree.{Stat}
use wasm_shell.Shell.State.{ExitCode, success, failure, ShellError, panic, no_fuel}
use wasm_shell.Shell.Context.{Context, stat}
use wasm_shell.Shell.Builtins.Env.{Builtin}

-- `str::parse::<i64>` with 0 for what is no number
num_or_zero : Option ℕ → (ℕ → ℤ) → ℤ
num_or_zero none f = pos 0
num_or_zero (some n) f = f n

unfoldable pub parse_i64_or_zero : Str → ℤ
unfolding num_or_zero
parse_i64_or_zero [] = pos 0
parse_i64_or_zero (c ∷ s) =
    if c == b'-'
    then num_or_zero (parse_digits (two_63 + 1) s) (λ n. neg_ℕ n)
    else num_or_zero (parse_digits two_63 (if c == b'+' then s else c ∷ s)) (λ n. pos n)

unfoldable pub parse_num : Str → ℤ
unfolding parse_i64_or_zero
parse_num s = parse_i64_or_zero (trim s)

unfoldable pub eq_num : ℤ → ℤ → Bool
eq_num (pos a) (pos b) = a == b
eq_num (negsuc a) (negsuc b) = a == b
eq_num a b = false

unfoldable pub lt_num : ℤ → ℤ → Bool
lt_num (pos a) (pos b) = ltb a b
lt_num (negsuc a) (negsuc b) = ltb b a
lt_num (negsuc a) (pos b) = true
lt_num (pos a) (negsuc b) = false

pub is_empty : Str → Bool
is_empty [] = true
is_empty (c ∷ s) = false

found_at : Str → Option (List Str × List Str) → Option (List Str × List Str)
found_at a none = none
found_at a (some (before, after)) = some (a ∷ before, after)

-- The arguments in front of the first `op` and behind it.
unfoldable pub split_args : Str → List Str → Option (List Str × List Str)
unfolding found_at
split_args op [] = none
split_args op (a ∷ args) =
    let more = split_args op args in if str_eq a op then some ([], args) else found_at a more

-- What a comparison of `left` and `right` gives.
unfoldable pub binary : Str → Str → Str → Bool
unfolding parse_num eq_num lt_num
binary left op right =
    let l = parse_num left in
    let r = parse_num right in
    if str_eq op (codes "=") || str_eq op (codes "==")
    then str_eq left right
    else if str_eq op (codes "!=")
    then not (str_eq left right)
    else if str_eq op (codes "-eq")
    then eq_num l r
    else if str_eq op (codes "-ne")
    then not (eq_num l r)
    else if str_eq op (codes "-lt")
    then lt_num l r
    else if str_eq op (codes "-gt")
    then lt_num r l
    else if str_eq op (codes "-le")
    then not (lt_num r l)
    else if str_eq op (codes "-ge")
    then not (lt_num l r)
    else false

unfoldable pub stat_holds : (Stat → Bool) → Result VfsError Stat → Bool
stat_holds f (ok s) = f s
stat_holds f (err e) = false

without_bracket : List Str → List Str
without_bracket [] = []
without_bracket (a ∷ []) = if str_eq a (codes "]") then [] else a ∷ []
without_bracket (a ∷ b ∷ args) = a ∷ without_bracket (b ∷ args)

-- The arguments behind the name, for `[` without a last `]`.
test_args : List Str → Result ShellError (List Str)
unfolding without_bracket
test_args [] = err panic
test_args (name ∷ args) = ok (if str_eq name (codes "[") then without_bracket args else args)

-- A condition, whose stat may change what a mount's callbacks share.
abbrev pub Test : Type 0 → Type 0
Test W = Context W → Context W × Result ShellError Bool

module _ {W : Type 0} where
  abbrev pub answer : Bool → Test W
  answer b ctx = (ctx, ok b)

  unfoldable pub then_test :
      Context W × Result ShellError Bool → (Bool → Test W) → Context W × Result ShellError Bool
  then_test (ctx, ok b) next = next b ctx
  then_test (ctx, err e) next = (ctx, err e)

  -- A panic of the filesystem is one here.
  unfoldable pub tested :
      (Stat → Bool) → Context W × Result VfsError Stat → Context W × Result ShellError Bool
  tested f (ctx, err Path.panic) = (ctx, err panic)
  tested f (ctx, r) = (ctx, ok (stat_holds f r))

  unfoldable pub negated : Test W → Test W
  unfolding then_test
  negated run ctx = then_test (run ctx) (λ b. answer (not b))

  unfoldable pub unary : Str → Str → Test W → Test W
  unfolding negated tested is_empty stat_holds
  unary op operand again =
      if str_eq op (codes "!")
      then negated again
      else if str_eq op (codes "-n")
      then answer (not (is_empty operand))
      else if str_eq op (codes "-z")
      then answer (is_empty operand)
      else if str_eq op (codes "-f")
      then (λ ctx. tested (λ s. s.is_file) (stat ctx operand))
      else if str_eq op (codes "-d")
      then (λ ctx. tested (λ s. s.is_dir) (stat ctx operand))
      else if str_eq op (codes "-e")
      then (λ ctx. tested (λ s. true) (stat ctx operand))
      else if str_eq op (codes "-r") || str_eq op (codes "-w") || str_eq op (codes "-x")
      then (λ ctx. tested (λ s. true) (stat ctx operand))
      else if str_eq op (codes "-s")
      then (λ ctx. tested (λ s. ltb 0 s.size) (stat ctx operand))
      else answer (not (is_empty op))

  -- An expression without `-o` and `-a`, with the evaluation of what is behind its first argument.
  unfoldable pub by_length : (List Str → Test W) → List Str → Test W
  unfolding unary binary is_empty negated
  by_length eval [] = answer false
  by_length eval (a ∷ []) = answer (not (is_empty a))
  by_length eval (op ∷ operand ∷ []) = unary op operand (eval (operand ∷ []))
  by_length eval (left ∷ op ∷ right ∷ []) =
      if str_eq left (codes "!")
      then negated (eval (op ∷ right ∷ []))
      else answer (binary left op right)
  by_length eval (a ∷ b ∷ c ∷ d ∷ args) =
      if str_eq a (codes "!") then negated (eval (b ∷ c ∷ d ∷ args)) else answer false

  -- Both sides are evaluated.
  unfoldable pub both_sides :
      (Bool → Bool → Bool) → (List Str → Test W) → List Str → List Str → Test W
  unfolding then_test
  both_sides f eval before after ctx =
      then_test (eval before ctx) (λ l c. then_test (eval after c) (λ r. answer (f l r)))

  pub and_test : (List Str → Test W) → List Str → Option (List Str × List Str) → Test W
  unfolding both_sides by_length
  and_test eval args none = by_length eval args
  and_test eval args (some (before, after)) =
      both_sides (λ l r. if l then r else false) eval before after

  pub or_test : (List Str → Test W) → List Str → Option (List Str × List Str) → Test W
  unfolding both_sides and_test split_args
  or_test eval args none = and_test eval args (split_args (codes "-a") args)
  or_test eval args (some (before, after)) =
      both_sides (λ l r. if l then true else r) eval before after

  unfoldable pub eval_test : ℕ → List Str → Test W
  unfolding or_test split_args
  eval_test zero args ctx = (ctx, err no_fuel)
  eval_test (suc fuel) [] ctx = (ctx, ok false)
  eval_test (suc fuel) (a ∷ args) ctx =
      or_test (λ rest c. eval_test fuel rest c) (a ∷ args) (split_args (codes "-o") (a ∷ args)) ctx

  exit_of : Context W × Result ShellError Bool → Context W × Result ShellError ExitCode
  exit_of (ctx, ok b) = (ctx, ok (if b then success else failure))
  exit_of (ctx, err e) = (ctx, err e)

  -- With as much fuel as there are arguments, and one more.
  test_from : List Str → Builtin W
  unfolding exit_of eval_test
  test_from args ctx = exit_of (eval_test (suc (length args)) args ctx)

  unfoldable pub builtin_test : Builtin W
  unfolding test_from test_args
  builtin_test ctx = elim (test_args ctx.args) [
    | ok args ↦ test_from args ctx
    | err e ↦ (ctx, err e)
  ]
