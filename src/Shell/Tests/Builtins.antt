-- ===== src/Shell/Tests/Builtins.antt =====
-- The built-in programs on concrete arguments.
use wasm_shell.Base.{
  ◌≡◌, ◌↔◌, refl, arith, true, none, some, [], ◌∷◌, Str, List, codes, join, ok, err, contains_char,
  Lacks-of_test, if◌then◌else◌, str_dec, split, trim_end_matches,
}
use wasm_shell.Shell.State.{Shell, success}
use wasm_shell.Vfs.Path.{resolve_path}
use wasm_shell.Shell.Context.{Context, get_env, stat, stdout}
use wasm_shell.Shell.Builtins.Text.{escape_backslashes}
use wasm_shell.Shell.Builtins.Glob.{glob_match_bytes, Matches, glob_match_bytes-Matches}
use wasm_shell.Shell.Builtins.Env.{
  print, cd_target, operands, builtin_cd, builtin_echo, builtin_export, builtin_unset,
}
use wasm_shell.Shell.Builtins.Env.Directory.{Moved, cd-Moved}
use wasm_shell.Shell.Builtins.Env.Echo.{echo-escape_backslashes}
use wasm_shell.Shell.Builtins.Env.Variables.{mem, export-get_env, unset-get_env}
use wasm_shell.Shell.Builtins.Condition.{eval_test}
use wasm_shell.Shell.Builtins.Condition.Fuel.{Answers, eval_test-Answers}
use wasm_shell.Base.Map.{lookup}
use wasm_shell.Bash.Ast.{Script}
use wasm_shell.Bash.Fill.{parse_source}
use wasm_shell.Bash.Fill.Quoted.{quote_words}
use wasm_shell.Shell.Registry
use wasm_shell.Shell.Exec.{execute_script}
use wasm_shell.Shell.Dispatch.{dispatch, path_var}
use wasm_shell.Shell.Session.Echo.{echoed, exec-echo}
use wasm_shell.Shell.Builtins.Register.{environment_programs}
use wasm_shell.Shell.Tests.{shell, streams}

-- A program called with `args`.
abbrev called : List Str → Context (Unit {0})
called args = record { args = args; shared = shell.shared; world = shell.world; io = streams }

glob_match_bytes-Matches_example :
    (glob_match_bytes (codes "a*?c") (codes "abxyc") ≡ true)
    ↔ Matches (codes "a*?c") (codes "abxyc")
glob_match_bytes-Matches_example = glob_match_bytes-Matches (codes "a*?c") (codes "abxyc")

finds : glob_match_bytes (codes "a*?c") (codes "abxyc") ≡ true
unfolding glob_match_bytes
finds = refl

eval_test-Answers_example :
    Answers (eval_test 5 (codes "x" ∷ codes "-o" ∷ codes "-d" ∷ codes "/" ∷ []) (called []))
eval_test-Answers_example =
    eval_test-Answers 5 (codes "x" ∷ codes "-o" ∷ codes "-d" ∷ codes "/" ∷ []) (called [])
      (omega arith)

abbrev cd_root : Context (Unit {0})
cd_root = called (codes "cd" ∷ codes "/" ∷ [])

cd-Moved_example :
    Moved
      (resolve_path cd_root.shared.cwd (cd_target cd_root (operands cd_root.args)))
      (stat cd_root (resolve_path cd_root.shared.cwd (cd_target cd_root (operands cd_root.args))))
      cd_root
      (builtin_cd cd_root)
cd-Moved_example = cd-Moved cd_root

abbrev echoing : Context (Unit {0})
echoing = called (codes "echo" ∷ codes "-e" ∷ codes "a\\\\n" ∷ codes "b" ∷ [])

echo-escape_backslashes_example : builtin_echo echoing ≡ (
  print
      (stdout echoing)
      (codes "\n")
      (print (stdout echoing) (join (codes " ") (codes "a\\n" ∷ codes "b" ∷ [])) echoing),
  ok success,
)
unfolding escape_backslashes str_dec
echo-escape_backslashes_example =
    echo-escape_backslashes echoing (codes "echo") (codes "a\\n") (codes "b" ∷ []) refl refl

abbrev exporting : Context (Unit {0})
exporting = called (codes "export" ∷ codes "y" ∷ codes "x=1=2" ∷ [])

export-get_env_example : get_env (builtin_export exporting).0 (codes "x") ≡ some (codes "1=2")
unfolding contains_char
export-get_env_example =
    export-get_env exporting (codes "export") (codes "x") (codes "1=2") (codes "y" ∷ [])
      (Lacks-of_test _ (codes "x") refl) refl

abbrev unsetting : Context (Unit {0})
unsetting = called (codes "unset" ∷ codes "x" ∷ [])

unset-get_env_example :
    get_env (builtin_unset unsetting).0 (codes "x")
    ≡ (if mem (codes "x") (operands unsetting.args) then none else get_env unsetting (codes "x"))
unset-get_env_example = unset-get_env unsetting (codes "x")

-- A shell with the programs on its state, whose `echo` is the one of `builtins.rs`.
abbrev equipped : Shell (Unit {0})
equipped = record shell { registry = environment_programs }

exec-echo_example :
    (script : Script) × (parse_source (quote_words (codes "echo" ∷ codes "a $b" ∷ codes "c" ∷ []))
      ≡ ok script)
    × (execute_script (dispatch (λ s. err s) 1) script streams equipped ≡ (
      record (echoed streams (codes "a $b" ∷ codes "c" ∷ []) equipped) { last_exit = success },
      ok success,
    ))
unfolding contains_char lookup Registry.resolve path_var str_dec split trim_end_matches
exec-echo_example =
    exec-echo (λ s. err s) 0 (codes "a $b") (codes "c" ∷ []) streams equipped
      (Lacks-of_test _ (codes "a $b") refl, (Lacks-of_test _ (codes "c") refl, tt)) refl refl refl
