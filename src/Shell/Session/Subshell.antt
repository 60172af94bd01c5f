-- ===== src/Shell/Session/Subshell.antt =====
-- `exit` in a subshell, in crates/wasm_shell/src/exec.rs.
use wasm_shell.Base.{
  ℕ, suc, none, ◌≡◌, refl, ap, ◌∙◌, List, Str, codes, get_elem?, Result, ok, err, str_dec,
}
use wasm_shell.Base.Map.{lookup}
use wasm_shell.Bash.Ast.{
  Script, no_commands, next_command, append_script, subshell, simple, single_quoted,
}
use wasm_shell.Bash.Fill.Quoted.{as_words, plain_command}
use wasm_shell.Shell.State.{ExitCode, success, exit, Io, Shell, continue_with}
use wasm_shell.Shell.Steps.{run_program, flush, restore}
use wasm_shell.Shell.Exec.{execute_script, execute_commands, execute_simple}
use wasm_shell.Shell.Exec.Control.{execute_commands-append, continue_err}
use wasm_shell.Shell.Dispatch.{dispatch, dispatch_builtin, or_else_run, exit_code}
use wasm_shell.Shell.Session.Quoted.{execute_simple-plain}

-- `exit` with arguments
abbrev pub exits : List Str → Script
exits args =
    next_command (simple (plain_command (single_quoted (codes "exit")) (as_words args))) no_commands

module _ {W : Type 0} where
  exits-ends :
      (parse : Str → Result Str Script) (fuel : ℕ) (code : ExitCode) (args : List Str) (i : Io)
      (sh : Shell W)
      → lookup (codes "exit") sh.shared.aliases ≡ none
      → execute_commands (dispatch parse (suc fuel)) code (exits args) i sh
        ≡ (sh, err (exit (exit_code (get_elem? args 0))))
  unfolding execute_commands run_program flush restore dispatch dispatch_builtin or_else_run str_dec
  exits-ends parse fuel code args i sh alias =
      continue_err
        (execute_simple (dispatch parse (suc fuel))
          (plain_command (single_quoted (codes "exit")) (as_words args)) i sh)
        _ (execute_simple-plain (dispatch parse (suc fuel)) (codes "exit") args i sh alias ∙ refl)

  -- Where a script ends with a code and leaves no alias of the name `exit`, the subshell of this script and an
  -- `exit` command with any arguments behind it, `(script; exit args)`, with any commands behind the subshell,
  -- ends the whole run with `exit`'s code: no command behind the subshell runs, and the shell, its variables
  -- and its directory included, is as the script in the subshell has left it.
  pub subshell_exit_leaks :
      (parse : Str → Result Str Script) (fuel : ℕ) (s rest : Script) (args : List Str) (i : Io)
      (sh sh' : Shell W) (code : ExitCode)
      → execute_script (dispatch parse (suc fuel)) s i sh ≡ (sh', ok code)
      → lookup (codes "exit") sh'.shared.aliases ≡ none
      → execute_script
          (dispatch parse (suc fuel))
          (next_command (subshell (append_script s (exits args))) rest)
          i
          sh
        ≡ (sh', err (exit (exit_code (get_elem? args 0))))
  unfolding execute_script execute_commands
  subshell_exit_leaks parse fuel s rest args i sh sh' code runs alias =
      let d = dispatch parse (suc fuel) in
      let inside : execute_commands d success (append_script s (exits args)) i sh
          ≡ (sh', err (exit (exit_code (get_elem? args 0)))) =
        execute_commands-append d success s (exits args) i sh
        ∙ ap (λ r. continue_with r (λ c. execute_commands d c (exits args) i)) runs
        ∙ exits-ends parse fuel code args i sh' alias in
      rw inside refl
