-- ===== src/Shell/Session/SelfSource.antt =====
-- A file that sources itself, in crates/wasm_shell/src/exec.rs.
use wasm_shell.Base.{
  ℕ, zero, suc, none, some, ◌≡◌, refl, ◌∙◌, List, [], ◌∷◌, Str, codes, Result, ok, err, Lacks,
  Lacks-of_test, contains_char, str_dec,
}
use wasm_shell.Base.Map.{lookup}
use wasm_shell.Base.Utf8.{from_utf8}
use wasm_shell.Vfs.Path.{resolve_path}
use wasm_shell.Vfs.Ops
use wasm_shell.Bash.Ast.{Script, no_commands, next_command, simple, single_quoted}
use wasm_shell.Bash.Fill.{parse_source}
use wasm_shell.Bash.Fill.Quoted.{quote_words, as_words, plain_command, parse_source-quote_words}
use wasm_shell.Shell.State.{no_fuel, Io, Shell, with_fs, settle, resolve}
use wasm_shell.Shell.Steps.{run_program, flush, restore, Dispatch}
use wasm_shell.Shell.Exec.{execute_script, execute_commands, execute_simple}
use wasm_shell.Shell.Exec.Control.{continue_err}
use wasm_shell.Shell.Dispatch.{
  dispatch, dispatch_builtin, or_else_run, source, source_path, source_bytes, source_text,
  source_parsed,
}
use wasm_shell.Shell.Session.Quoted.{execute_simple-plain}

-- `source` of a path, as a text and as a script.
abbrev pub source_line : Str → Str
source_line path = quote_words (codes "source" ∷ path ∷ [])

abbrev sourcing : Str → Script
sourcing path =
    next_command (simple (plain_command (single_quoted (codes "source")) (as_words (path ∷ []))))
      no_commands

module _ {W : Type 0} (parse : Str → Result Str Script) (path : Str) (bytes : List ℕ) (i : Io)
    (sh : Shell W) (no_alias : lookup (codes "source") sh.shared.aliases ≡ none)
    (reads : Ops.read_file sh.world.fs (resolve_path sh.shared.cwd path) ≡ (sh.world.fs, ok bytes))
    (text : from_utf8 bytes ≡ some (source_line path))
    (parses : parse (source_line path) ≡ ok (sourcing path)) where
  source-unfolds :
      (d : Dispatch W)
      → source parse d (codes "source" ∷ path ∷ []) i sh ≡ execute_script d (sourcing path) i sh
  unfolding source source_path source_bytes source_text source_parsed with_fs settle resolve
  source-unfolds d = rw (reads, text, parses) refl

  runs_source :
      (d : Dispatch W)
      → d (codes "source") (codes "source" ∷ path ∷ []) i sh ≡ (sh, err no_fuel)
      → execute_script d (sourcing path) i sh ≡ (sh, err no_fuel)
  unfolding execute_script execute_commands run_program flush restore
  runs_source d h =
      continue_err
        (execute_simple d (plain_command (single_quoted (codes "source")) (as_words (path ∷ []))) i
          sh)
        _ (execute_simple-plain d (codes "source") (path ∷ []) i sh no_alias ∙ rw h refl)

  dispatch-source_self :
      (fuel : ℕ)
      → dispatch parse fuel (codes "source") (codes "source" ∷ path ∷ []) i sh ≡ (sh, err no_fuel)
  unfolding dispatch dispatch_builtin or_else_run str_dec
  dispatch-source_self zero = refl
  dispatch-source_self (suc fuel) =
      source-unfolds (dispatch parse fuel)
      ∙ runs_source (dispatch parse fuel) (dispatch-source_self fuel)

module _ {W : Type 0} where
  -- A file that sources itself never ends. Where a path without a single quote reads as UTF-8 text that is the
  -- command `source` with this path, both in single quotes, the read changes nothing, `source` is no alias,
  -- and the parser of the session does what `parse_source` does on this text, the text parses, and the script
  -- runs out of fuel however much there is, with the shell as it was.
  pub source_self-never_ends :
      (parse : Str → Result Str Script) (path : Str) (bytes : List ℕ) (i : Io) (sh : Shell W)
      → Lacks b'\'' path
      → lookup (codes "source") sh.shared.aliases ≡ none
      → Ops.read_file sh.world.fs (resolve_path sh.shared.cwd path) ≡ (sh.world.fs, ok bytes)
      → from_utf8 bytes ≡ some (source_line path)
      → ((s : Script) → parse_source (source_line path) ≡ ok s → parse (source_line path) ≡ ok s)
      → (script : Script) × (parse (source_line path) ≡ ok script)
        × ((fuel : ℕ) → execute_script (dispatch parse fuel) script i sh ≡ (sh, err no_fuel))
  unfolding contains_char
  source_self-never_ends parse path bytes i sh q no_alias reads text agrees =
      let parses = agrees (sourcing path) (
        parse_source-quote_words (codes "source") (path ∷ [])
          (Lacks-of_test _ (codes "source") refl, (q, tt))) in
      (
        sourcing path,
        parses,
        λ fuel.
            runs_source parse path bytes i sh no_alias reads text parses (dispatch parse fuel)
              (dispatch-source_self parse path bytes i sh no_alias reads text parses fuel),
      )
