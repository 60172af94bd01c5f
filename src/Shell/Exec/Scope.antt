-- ===== src/Shell/Exec/Scope.antt =====
-- What a subshell and the assignments in front of a command leave behind, in crates/wasm_shell/src/exec.rs.
use wasm_shell.Base.{
  ◌≡◌, refl, sym, ◌∙◌, ap, true, Option, none, some, List, [], ◌∷◌, Str, Result, ok, if◌then◌else◌,
  str_eq, arith, subst,
}
use wasm_shell.Base.Map.{lookup, insert, remove, lookup-insert, lookup-remove}
use wasm_shell.Bash.Ast.{
  subshell, Script, simple_command, name, Assignments, no_assignments, next_assignment, Word,
  single_quoted, Words, Redirects,
}
use wasm_shell.Shell.State.{
  ExitCode, success, ShellError, Io, Shell, attempt, get_env, set_env, unset_env,
}
use wasm_shell.Shell.Steps.{run_program, Dispatch, DeferredWrite, Saved, flush, restore}
use wasm_shell.Shell.Exec.{
  expand_word, expand_words, assign, apply_redirections, execute_commands, execute_command,
  execute_simple,
}
use wasm_shell.Shell.Exec.Control.{continue-eq-ok, continue_ok}

-- The value that is put back last for a variable, or the one that it has.
restored_value : Str → Saved → Option Str → Option Str
restored_value x [] val = val
restored_value x ((y, old) ∷ saved) val = restored_value x saved (if str_eq x y then old else val)

module _ {W : Type 0} where
  restore-lookup :
      (x : Str) (saved : Saved) (sh sh' : Shell W)
      → restore saved sh ≡ (sh', ok tt)
      → lookup x sh'.shared.env ≡ restored_value x saved (lookup x sh.shared.env)
  unfolding restore restored_value set_env unset_env
  restore-lookup x [] sh sh' h = ap (λ r. lookup x r.0.shared.env) (sym h)
  restore-lookup x ((y, some old) ∷ saved) sh sh' h =
      restore-lookup x saved
        (record sh { shared = record sh.shared { env = insert y old sh.shared.env } }) sh' h
      ∙ ap (restored_value x saved) (lookup-insert x y old sh.shared.env)
  restore-lookup x ((y, none) ∷ saved) sh sh' h =
      restore-lookup x saved
        (record sh { shared = record sh.shared { env = remove y sh.shared.env } }) sh' h
      ∙ ap (restored_value x saved) (lookup-remove x y sh.shared.env)

  same_value :
      {A : Type 0} (r : Shell W × Result ShellError A) {s s' : Shell W} {v v' : A}
      → r ≡ (s, ok v)
      → r ≡ (s', ok v')
      → v ≡ v'
  same_value r h k = cc

  module _ (d : Dispatch W) where
    -- When a subshell ends with a code, the environment and the working directory are those from before it,
    -- whatever ran in it.
    pub subshell-restores :
        (s : Script) (i : Io) (sh sh' : Shell W) (code : ExitCode)
        → execute_command d (subshell s) i sh ≡ (sh', ok code)
        → (sh'.shared.env ≡ sh.shared.env) × (sh'.shared.cwd ≡ sh.shared.cwd)
    unfolding execute_commands
    subshell-restores s i sh sh' code h =
        let (sh₁, x, e, k) = continue-eq-ok (execute_commands d success s i sh) _ h in
        (ap (λ r. r.0.shared.env) (sym k), ap (λ r. r.0.shared.cwd) (sym k))

    run_program-restores :
        (c : Str) (args : List Str) (saved : Saved) (r : Io × List DeferredWrite) (sh sh' : Shell W)
        (code : ExitCode)
        → run_program d c args saved r sh ≡ (sh', ok code)
        → (sh₁ : Shell W) × (restore saved sh₁ ≡ (sh', ok tt))
    unfolding run_program
    run_program-restores c args saved (i, deferred) sh sh' code h =
        let (sh₁, c₁, e₁, k₁) = continue-eq-ok (attempt (d c args i) sh) _ h in
        let (sh₂, u₂, e₂, k₂) = continue-eq-ok (flush deferred sh₁) _ k₁ in
        let (sh₃, u₃, e₃, k₃) = continue-eq-ok (restore saved sh₂) _ k₂ in
        (sh₂, subst (λ s. restore saved sh₂ ≡ (s, ok tt)) (ap (λ r. r.0) k₃) e₃)

    simple-restores :
        (a : Assignments) (w : Word) (args : Words) (rs : Redirects) (i : Io) (sh sh' sh₁ : Shell W)
        (code : ExitCode) (saved : Saved)
        → execute_simple d (simple_command a (name w) args rs) i sh ≡ (sh', ok code)
        → assign d true a sh ≡ (sh₁, ok saved)
        → (sh₂ : Shell W) × (restore saved sh₂ ≡ (sh', ok tt))
    unfolding execute_commands
    simple-restores a w args rs i sh sh' sh₁ code saved h p =
        let (s₁, v₁, e₁, k₁) = continue-eq-ok (assign d true a sh) _ h in
        let (s₂, v₂, e₂, k₂) = continue-eq-ok (expand_word d w s₁) _ k₁ in
        let (s₃, v₃, e₃, k₃) = continue-eq-ok (expand_words d args s₂) _ k₂ in
        let (s₄, v₄, e₄, k₄) = continue-eq-ok (apply_redirections d rs i [] s₃) _ k₃ in
        let (s₅, e₅) = run_program-restores _ _ v₁ v₄ s₄ sh' code k₄ in
        (s₅, subst (λ v. restore v s₅ ≡ (sh', ok tt)) (same_value (assign d true a sh) e₁ p) e₅)

    assign-one :
        (x : Str) (v : Word) (sh sh₁ : Shell W) (value : Str)
        → expand_word d v sh ≡ (sh₁, ok value)
        → assign d true (next_assignment x v no_assignments) sh ≡ (
          record sh₁ { shared = record sh₁.shared { env = insert x value sh₁.shared.env } },
          ok ((x, lookup x sh₁.shared.env) ∷ []),
        )
    unfolding execute_commands get_env set_env
    assign-one x v sh sh₁ value e = continue_ok (expand_word d v sh) _ e

    -- A variable assigned once in front of a command, `x=word command arguments redirections`, has, when the
    -- command ends with a code, the value that it had when the word had been expanded, or none if it had none,
    -- whatever the command did to it.
    pub assigned-restored :
        (x : Str) (v w : Word) (args : Words) (rs : Redirects) (i : Io) (sh sh₁ sh' : Shell W)
        (value : Str) (code : ExitCode)
        → expand_word d v sh ≡ (sh₁, ok value)
        → execute_simple d
            (simple_command (next_assignment x v no_assignments) (name w) args rs)
            i
            sh
          ≡ (sh', ok code)
        → lookup x sh'.shared.env ≡ lookup x sh₁.shared.env
    unfolding execute_commands get_env set_env restored_value
    assigned-restored x v w args rs i sh sh₁ sh' value code e h =
        let old = lookup x sh₁.shared.env in
        let (sh₃, r) =
          simple-restores (next_assignment x v no_assignments) w args rs i sh sh' _ code
            ((x, old) ∷ []) h (assign-one x v sh sh₁ value e) in
        restore-lookup x ((x, old) ∷ []) sh₃ sh' r ∙ ground arith

    -- A variable assigned twice in front of a command, `x='a' x='b' command`, has the first of the two values
    -- when the command has ended with a code.
    pub assigned_twice_leaks :
        (x a b : Str) (w : Word) (args : Words) (rs : Redirects) (i : Io) (sh sh' : Shell W)
        (code : ExitCode)
        → execute_simple d
            (simple_command
              (next_assignment x
                (single_quoted a)
                (next_assignment x (single_quoted b) no_assignments))
              (name w)
              args
              rs)
            i
            sh
          ≡ (sh', ok code)
        → lookup x sh'.shared.env ≡ some a
    unfolding execute_commands get_env set_env restored_value
    assigned_twice_leaks x a b w args rs i sh sh' code h =
        let old = lookup x sh.shared.env in
        let env₁ = insert x a sh.shared.env in
        let sh₂ = record sh { shared = record sh.shared { env = insert x b env₁ } } in
        let saved = (x, old) ∷ (x, lookup x env₁) ∷ [] in
        let (sh₃, r) =
          simple-restores
            (next_assignment x (single_quoted a)
              (next_assignment x (single_quoted b) no_assignments))
            w args rs i sh sh' sh₂ code saved h refl in
        restore-lookup x saved sh₃ sh' r ∙ ground (arith, lookup-insert x x a sh.shared.env)
