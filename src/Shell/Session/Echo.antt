-- ===== src/Shell/Session/Echo.antt =====
-- From the text of an `echo` command to what it prints.
use wasm_shell.Base.{
  ℕ, suc, false, none, some, ◌≡◌, refl, ap, ◌∙◌, List, ◌∷◌, Str, codes, join, Result, ok, All,
  Lacks, Lacks-of_test, contains_char, str_dec,
}
use wasm_shell.Base.Map.{lookup}
use wasm_shell.Base.Utf8.{into_bytes}
use wasm_shell.Bash.Ast.{Script}
use wasm_shell.Bash.Fill.{parse_source}
use wasm_shell.Bash.Fill.Quoted.{quote_words}
use wasm_shell.Shell.State.{Io, Shell, success, write_to, set_last_exit}
use wasm_shell.Shell.Context.{stdout}
use wasm_shell.Shell.Registry
use wasm_shell.Shell.Steps.{run_program, flush, restore}
use wasm_shell.Shell.Exec.{execute_script}
use wasm_shell.Shell.Dispatch.{
  dispatch, dispatch_builtin, or_else_run, run_registered, run_found, call_program, returned,
  path_var,
}
use wasm_shell.Shell.Session.Quoted.{exec-quote_words}
use wasm_shell.Shell.Builtins.Env.{program, print, after_name, echo_words, builtin_echo}
use wasm_shell.Shell.Builtins.Env.Echo.{is_option, echo_options_stop}

module _ {W : Type 0} where
  -- The words and a newline are written.
  abbrev pub echoed : Io → List Str → Shell W → Shell W
  echoed i ws sh = record sh {
    world =
        write_to i.stdout (into_bytes (codes "\n"))
          (write_to i.stdout (into_bytes (join (codes " ") ws)) sh.world);
  }

  dispatch-echo :
      (parse : Str → Result Str Script) (fuel : ℕ) (w : Str) (ws : List Str) (i : Io) (sh : Shell W)
      → Registry.resolve sh.registry (codes "echo") (path_var sh) ≡ some (program builtin_echo)
      → is_option w ≡ false
      → dispatch parse (suc fuel) (codes "echo") (codes "echo" ∷ w ∷ ws) i sh
        ≡ (echoed i (w ∷ ws) sh, ok success)
  unfolding dispatch dispatch_builtin or_else_run run_registered run_found call_program returned
      program builtin_echo after_name echo_words print str_dec stdout
  dispatch-echo parse fuel w ws i sh found plain =
      ap (λ o. run_found o (codes "echo") (codes "echo" ∷ w ∷ ws) i sh) found
      ∙ rw (echo_options_stop false false w ws plain) refl

  -- An `echo` command with words in single quotes, none of which holds a quote and of which the first is no
  -- option, parses, and where `echo` is no alias and resolves to the built-in program, its execution writes
  -- the words with a space between each two and a newline to standard output, ends with the code 0, leaves 0
  -- in `$?` and changes nothing else, whatever characters the words hold.
  pub exec-echo :
      (parse : Str → Result Str Script) (fuel : ℕ) (w : Str) (ws : List Str) (i : Io) (sh : Shell W)
      → All (Lacks b'\'') (w ∷ ws)
      → lookup (codes "echo") sh.shared.aliases ≡ none
      → Registry.resolve sh.registry (codes "echo") (path_var sh) ≡ some (program builtin_echo)
      → is_option w ≡ false
      → (script : Script) × (parse_source (quote_words (codes "echo" ∷ w ∷ ws)) ≡ ok script)
        × (execute_script (dispatch parse (suc fuel)) script i sh
            ≡ (record (echoed i (w ∷ ws) sh) { last_exit = success }, ok success))
  unfolding run_program flush restore set_last_exit contains_char
  exec-echo parse fuel w ws i sh q alias found plain =
      let (script, parsed, runs) =
        exec-quote_words (dispatch parse (suc fuel)) (codes "echo") (w ∷ ws) i sh
          (Lacks-of_test _ (codes "echo") refl, q) alias in
      (script, parsed, runs ∙ rw (dispatch-echo parse fuel w ws i sh found plain) refl)
