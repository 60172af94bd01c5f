-- ===== src/Shell/Session/Unknown.antt =====
-- From the text of a command that nobody knows to the code 127, through crates/bash_parser and exec.rs.
use wasm_shell.Base.{
  ℕ, suc, false, none, ◌≡◌, refl, ap, ◌∙◌, List, ◌∷◌, ◌++◌, Str, codes, split, Result, ok, All,
  Lacks, contains_char, arith,
}
use wasm_shell.Base.Int.{pos}
use wasm_shell.Base.Map.{lookup}
use wasm_shell.Base.Utf8.{into_bytes}
use wasm_shell.Bash.Ast.{Script, append_script}
use wasm_shell.Bash.Fill.{parse_source}
use wasm_shell.Bash.Fill.Quoted.{quote_words}
use wasm_shell.Shell.State.{Io, Shell, success, write_to, write_all, set_last_exit, continue_with}
use wasm_shell.Shell.Registry
use wasm_shell.Shell.Registry.Resolve.{NoneIn, resolve_in-none}
use wasm_shell.Shell.Steps.{run_program, flush, restore}
use wasm_shell.Shell.Exec.{execute_script, execute_commands}
use wasm_shell.Shell.Exec.Control.{execute_commands-append}
use wasm_shell.Shell.Dispatch.{
  dispatch, dispatch_builtin, or_else_run, run_registered, run_found, not_found, complain, say,
  path_var, shell_intrinsics, is_one_of,
}
use wasm_shell.Shell.Session.Quoted.{exec-quote_words}

module _ {W : Type 0} where
  -- The shell with the message and the code.
  abbrev pub refused : Io → Str → Shell W → Shell W
  refused i x sh = record sh {
    world = write_to i.stderr (into_bytes (x ++ codes ": command not found\n")) sh.world;
    last_exit = pos 127;
  }

  no_intrinsic :
      (parse : Str → Result Str Script) (fuel : ℕ) (x : Str) (args : List Str) (i : Io)
      → is_one_of x shell_intrinsics ≡ false
      → dispatch_builtin {W = W} parse (dispatch parse fuel) x args i ≡ none
  unfolding is_one_of dispatch_builtin
  no_intrinsic parse fuel x args i h = ground arith

  unresolved :
      (sh : Shell W) (x : Str)
      → contains_char b'/' x ≡ false
      → NoneIn sh.registry x (split b':' (path_var sh))
      → Registry.resolve sh.registry x (path_var sh) ≡ none
  unfolding Registry.resolve
  unresolved sh x plain h = rw plain (resolve_in-none sh.registry x (split b':' (path_var sh)) h)

  dispatch-unknown :
      (parse : Str → Result Str Script) (fuel : ℕ) (x : Str) (args : List Str) (i : Io)
      (sh : Shell W)
      → is_one_of x shell_intrinsics ≡ false
      → contains_char b'/' x ≡ false
      → NoneIn sh.registry x (split b':' (path_var sh))
      → dispatch parse (suc fuel) x args i sh ≡ (
        record sh {
          world = write_to i.stderr (into_bytes (x ++ codes ": command not found\n")) sh.world;
        },
        ok (pos 127),
      )
  unfolding dispatch or_else_run run_registered run_found not_found complain say write_all
  dispatch-unknown parse fuel x args i sh intrinsic plain h =
      ap (λ o. or_else_run o (run_registered x args i) sh)
        (no_intrinsic parse fuel x args i intrinsic)
      ∙ ap (λ o. run_found o x args i sh) (unresolved sh x plain h)
      ∙ rw plain refl

  -- A command line of words in single quotes, none of which holds a quote, whose first word holds no slash and
  -- is neither an alias nor an intrinsic, nor, under any directory of `$PATH`, a registered program, parses;
  -- its execution writes only the message that the command is not found, to standard error, leaves 127 in
  -- `$?`, changes nothing else and ends with the code 127; and a script with more commands behind it goes on
  -- with these, from there.
  pub exec-unknown :
      (parse : Str → Result Str Script) (fuel : ℕ) (x : Str) (args : List Str) (i : Io)
      (sh : Shell W)
      → All (Lacks b'\'') (x ∷ args)
      → lookup x sh.shared.aliases ≡ none
      → is_one_of x shell_intrinsics ≡ false
      → contains_char b'/' x ≡ false
      → NoneIn sh.registry x (split b':' (path_var sh))
      → (script : Script) × (parse_source (quote_words (x ∷ args)) ≡ ok script)
        × (execute_script (dispatch parse (suc fuel)) script i sh ≡ (refused i x sh, ok (pos 127)))
        × ((rest : Script)
            → execute_script (dispatch parse (suc fuel)) (append_script script rest) i sh
              ≡ execute_commands (dispatch parse (suc fuel)) (pos 127) rest i (refused i x sh))
  unfolding run_program flush restore set_last_exit execute_script
  exec-unknown parse fuel x args i sh q alias intrinsic plain h =
      let d = dispatch parse (suc fuel) in
      let (script, parsed, runs) = exec-quote_words d x args i sh q alias in
      let ends : execute_script d script i sh ≡ (refused i x sh, ok (pos 127)) =
        runs ∙ rw (dispatch-unknown parse fuel x (x ∷ args) i sh intrinsic plain h) refl in
      (
        script,
        parsed,
        ends,
        λ rest.
            execute_commands-append d success script rest i sh
            ∙ ap (λ r. continue_with r (λ code. execute_commands d code rest i)) ends,
      )
