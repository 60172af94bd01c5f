-- ===== src/Shell/Builtins/Condition/Fuel.antt =====
-- The fuel of a condition, for `eval_test` in crates/wasm_shell/src/builtins.rs.
use wasm_shell.Base.{
  ℕ, zero, suc, ◌≤◌, ◌<◌, Bool, true, false, Option, none, some, List, [], ◌∷◌, Str, codes, str_eq,
  length, if◌then◌else◌, ◌||◌, Result, ok, err, arith, Bool-cases, inl, inr,
}
use wasm_shell.Vfs.Path
use wasm_shell.Vfs.Path.{VfsError}
use wasm_shell.Vfs.Tree.{Stat}
use wasm_shell.Shell.State.{ShellError, panic}
use wasm_shell.Shell.Context.{Context, stat}
use wasm_shell.Shell.Builtins.Condition.{
  Test, found_at, split_args, then_test, tested, negated, unary, by_length, both_sides, and_test,
  or_test, eval_test,
}

-- Both parts are shorter than the whole.
Within : List Str → Option (List Str × List Str) → Type 0
Within args none = Unit
Within args (some (before, after)) = (length before < length args) × (length after < length args)

found_at-Within :
    (a : Str) (args : List Str) (o : Option (List Str × List Str))
    → Within args o
    → Within (a ∷ args) (found_at a o)
unfolding found_at Within
found_at-Within a args none h = tt
found_at-Within a args (some (before, after)) (h, k) = (omega arith, omega arith)

split_args-Within : (op : Str) (args : List Str) → Within args (split_args op args)
unfolding split_args Within
split_args-Within op [] = tt
split_args-Within op (a ∷ args) = elim (Bool-cases (str_eq a op)) [
  | inl y ↦ rw y (omega arith, omega arith)
  | inr n ↦ rw n (found_at-Within a args (split_args op args) (split_args-Within op args))
]

module _ {W : Type 0} where
  -- An answer, or a panic.
  abbrev pub Answers : Context W × Result ShellError Bool → Type 0
  Answers (ctx, ok b) = Unit
  Answers (ctx, err panic) = Unit
  Answers (ctx, err e) = ⊥

  abbrev Answering : Test W → Type 0
  Answering run = (ctx : Context W) → Answers (run ctx)

  then_test-Answers :
      (r : Context W × Result ShellError Bool) (next : Bool → Test W)
      → Answers r
      → ((b : Bool) → Answering (next b))
      → Answers (then_test r next)
  unfolding then_test
  then_test-Answers (ctx, ok b) next h k = k b ctx
  then_test-Answers (ctx, err e) next h k = h

  tested-Answers : (f : Stat → Bool) (r : Context W × Result VfsError Stat) → Answers (tested f r)
  unfolding tested
  tested-Answers f (ctx, ok s) = tt
  tested-Answers f (ctx, err Path.panic) = tt
  tested-Answers f (ctx, err e) = tt

  negated-Answering : (run : Test W) → Answering run → Answering (negated run)
  unfolding negated
  negated-Answering run h ctx = then_test-Answers (run ctx) _ (h ctx) (λ b c. tt)

  either : (c : Bool) (x y : Test W) → Answering x → Answering y → Answering (if c then x else y)
  either true x y h k = h
  either false x y h k = k

  unary-Answering :
      (op operand : Str) (again : Test W) → Answering again → Answering (unary op operand again)
  unfolding unary
  unary-Answering op operand again h =
      either (str_eq op (codes "!")) _ _ (negated-Answering again h) (
        either (str_eq op (codes "-n")) _ _ (λ c. tt)
          (either (str_eq op (codes "-z")) _ _ (λ c. tt)
            (either (str_eq op (codes "-f")) _ _ (λ c. tested-Answers _ (stat c operand))
              (either (str_eq op (codes "-d")) _ _ (λ c. tested-Answers _ (stat c operand))
                (either (str_eq op (codes "-e")) _ _ (λ c. tested-Answers _ (stat c operand))
                  (either
                    (str_eq op (codes "-r") || str_eq op (codes "-w") || str_eq op (codes "-x")) _ _
                    (λ c. tested-Answers _ (stat c operand))
                    (either (str_eq op (codes "-s")) _ _ (λ c. tested-Answers _ (stat c operand))
                      (λ c. tt))))))))

  module _ (n : ℕ) (eval : List Str → Test W)
      (inner : (args : List Str) → length args < n → Answering (eval args)) where
    by_length-Answering : (args : List Str) → length args ≤ n → Answering (by_length eval args)
    unfolding by_length
    by_length-Answering [] h = λ c. tt
    by_length-Answering (a ∷ []) h = λ c. tt
    by_length-Answering (op ∷ operand ∷ []) h =
        unary-Answering op operand (eval (operand ∷ [])) (inner (operand ∷ []) (omega arith))
    by_length-Answering (left ∷ op ∷ right ∷ []) h =
        either (str_eq left (codes "!")) _ _
          (negated-Answering (eval (op ∷ right ∷ [])) (inner (op ∷ right ∷ []) (omega arith)))
          (λ c. tt)
    by_length-Answering (a ∷ b ∷ c ∷ d ∷ args) h =
        either (str_eq a (codes "!")) _ _
          (negated-Answering (eval (b ∷ c ∷ d ∷ args)) (inner (b ∷ c ∷ d ∷ args) (omega arith)))
          (λ c. tt)

    both_sides-Answering :
        (f : Bool → Bool → Bool) (before after : List Str)
        → length before < n
        → length after < n
        → Answering (both_sides f eval before after)
    unfolding both_sides
    both_sides-Answering f before after h k ctx =
        then_test-Answers (eval before ctx) _ (inner before h ctx)
          (λ l c. then_test-Answers (eval after c) _ (inner after k c) (λ r c'. tt))

    and_test-Answering :
        (args : List Str) (o : Option (List Str × List Str))
        → length args ≤ n
        → Within args o
        → Answering (and_test eval args o)
    unfolding and_test Within
    and_test-Answering args none h w = by_length-Answering args h
    and_test-Answering args (some (before, after)) h (u, v) =
        both_sides-Answering _ before after (omega arith) (omega arith)

    or_test-Answering :
        (args : List Str) (o : Option (List Str × List Str))
        → length args ≤ n
        → Within args o
        → Answering (or_test eval args o)
    unfolding or_test Within
    or_test-Answering args none h w =
        and_test-Answering args (split_args (codes "-a") args) h
          (split_args-Within (codes "-a") args)
    or_test-Answering args (some (before, after)) h (u, v) =
        both_sides-Answering _ before after (omega arith) (omega arith)

  -- The evaluation of a condition of the `test` command ends with an answer, or a panic of the filesystem,
  -- with one unit of fuel more than there are arguments, or with more.
  pub eval_test-Answers :
      (fuel : ℕ) (args : List Str) (ctx : Context W)
      → length args < fuel
      → Answers (eval_test fuel args ctx)
  unfolding eval_test
  eval_test-Answers zero args ctx h = absurd (omega arith)
  eval_test-Answers (suc fuel) [] ctx h = tt
  eval_test-Answers (suc fuel) (a ∷ args) ctx h =
      or_test-Answering fuel (λ rest c. eval_test fuel rest c)
        (λ rest k c. eval_test-Answers fuel rest c k) (a ∷ args)
        (split_args (codes "-o") (a ∷ args)) (omega arith)
        (split_args-Within (codes "-o") (a ∷ args)) ctx
