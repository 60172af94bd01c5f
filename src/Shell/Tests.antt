-- ===== src/Shell/Tests.antt =====
-- Runs of the shell on concrete scripts.
mod Files
mod Builtins
mod Sessions
use wasm_shell.Base.{
  ℕ, ◌≡◌, ◌≢◌, refl, subst, none, some, [], ◌∷◌, Str, codes, Result, ok, err, arith, split,
  contains_char, trim_end_matches, str_dec, Lacks-of_test,
}
use Prim.Native.String.{String}
use wasm_shell.Base.Map.{Map, lookup, insert, remove}
use wasm_shell.Base.Int.{pos}
use wasm_shell.Base.Utf8.{into_bytes}
use wasm_shell.Vfs.Path.{not_found}
use wasm_shell.Vfs.Tree.{dir, end}
use wasm_shell.Vfs.Tree
use wasm_shell.Vfs.Ops
use wasm_shell.Shell.Arith.{no_fuel, eval_arith, parse_tokens}
use wasm_shell.Shell.Arith.Fuel.{eval_arith-fuel}
use wasm_shell.Shell.Arith.Expr.{Expr, lit, neg, bin, add, sub, mul, pow, show, eval}
use wasm_shell.Shell.Arith.Grammar.{parse_tokens-show}
use wasm_shell.Bash.Ast.{
  Command, simple, subshell, Script, no_commands, next_command, append_script, SimpleCommand,
  simple_command, name, no_assignments, next_assignment, Word, single_quoted, no_words,
  no_redirects,
}
use wasm_shell.Bash.Fill.{parse_source}
use wasm_shell.Bash.Fill.Quoted.{quote_words}
use wasm_shell.Shell.Session.Quoted.{exec-quote_words}
use wasm_shell.Shell.State
use wasm_shell.Shell.State.{
  ◌>>=◌, ◌>>◌, return, exit, Io, Program, Shell, write_to, write_all, contents, set_env, get_env,
  set_last_exit, unset_env, resolve,
}
use wasm_shell.Shell.Context
use wasm_shell.Shell.Registry
use wasm_shell.Shell.Registry.Resolve.{resolve-find_path}
use wasm_shell.Shell.Steps.{run_program, Dispatch, flush, restore, expand_alias}
use wasm_shell.Shell.Exec.{
  execute_command, execute_commands, execute_script, execute_simple, expand_word,
}
use wasm_shell.Shell.Exec.Control.{execute_script-append_stops}
use wasm_shell.Shell.Exec.Scope.{subshell-restores, assigned-restored, assigned_twice_leaks}
use wasm_shell.Shell.Dispatch
use wasm_shell.Shell.Dispatch.{
  dispatch, dispatch_builtin, run_registered, call_program, path_var, exit_code, complain, say,
}
use wasm_shell.Shell.Dispatch.Grows.{
  Grows-set, AppendsOnly, AllAppend, Advances, execute_script-Advances,
}

-- Arithmetic

-- (1 + 2) * -(2 ** 3 ** 2) - 4 - 5
abbrev formula : Expr
formula =
    bin sub
      (bin sub
        (bin mul (bin add (lit (pos 1)) (lit (pos 2)))
          (neg (bin pow (lit (pos 2)) (bin pow (lit (pos 3)) (lit (pos 2))))))
        (lit (pos 4)))
      (lit (pos 5))

parse_tokens-show_example : parse_tokens (show formula) ≡ eval formula
parse_tokens-show_example = parse_tokens-show formula

eval_arith-fuel_example : eval_arith (codes "2 * $x") ((codes "x", codes "21") ∷ []) ≢ err no_fuel
eval_arith-fuel_example = eval_arith-fuel (codes "2 * $x") ((codes "x", codes "21") ∷ [])

-- The registry

abbrev two : Map ℕ
two = (codes "/usr/bin/a", 1) ∷ (codes "/bin/b", 2) ∷ []

resolve-find_path_example :
    Registry.resolve two (codes "b") (codes "/usr/bin:/bin")
    ≡ elim (Registry.find_path two (codes "b") (codes "/usr/bin:/bin")) [
      | none ↦ none
      | some path ↦ lookup path two
    ]
resolve-find_path_example = resolve-find_path two (codes "b") (codes "/usr/bin:/bin")

-- A shell with one program, which writes `h` and sets `x`.

abbrev hello : Program (Unit {0})
hello args i shared world = (
  (
    record shared { env = insert (codes "x") (codes "h") shared.env },
    write_to i.stdout (104 ∷ []) world,
  ),
  ok (pos 0),
)

abbrev shell : Shell (Unit {0})
shell = record {
  world = record { fs = record { root = dir end; mounts = []; host = tt }; buffers = [] ∷ [] ∷ [] };
  registry = (codes "/usr/bin/hello", hello) ∷ [];
  shared = record { env = []; cwd = b'/' ∷ []; aliases = [] };
  last_exit = pos 0;
}

abbrev streams : Io
streams = record { stdin = record { data_bytes = []; position = 0 }; stdout = 0; stderr = 1 }

-- The command of a name, and a script of one command.
abbrev call : String → Command
call c =
    simple (simple_command no_assignments (name (single_quoted (codes c))) no_words no_redirects)

abbrev only : Command → Script
only c = next_command c no_commands

abbrev parser : Str → Result Str Script
parser src = ok (only (call "hello"))

abbrev run : Dispatch (Unit {0})
run = dispatch parser 1

-- `exit` as the command of a script.
abbrev leave : Command
leave =
    simple
      (simple_command no_assignments (name (single_quoted (codes "exit"))) no_words no_redirects)

leaves : execute_script run (only leave) streams shell ≡ (shell, err (exit (pos 0)))
unfolding execute_script execute_commands run_program dispatch dispatch_builtin expand_alias lookup
    exit_code str_dec
leaves = refl

execute_script-append_stops_example :
    execute_script run (append_script (only leave) (only (call "hello"))) streams shell
    ≡ (shell, err (exit (pos 0)))
execute_script-append_stops_example =
    execute_script-append_stops run (only leave) (only (call "hello")) streams shell shell
      (exit (pos 0)) leaves

abbrev greeted : Shell (Unit {0})
greeted = record shell {
  world = record shell.world { buffers = (104 ∷ []) ∷ [] ∷ [] };
  shared = record shell.shared { env = (codes "x", codes "h") ∷ [] };
}

greets : execute_script run (only (call "hello")) streams shell ≡ (greeted, ok (pos 0))
unfolding execute_script execute_commands run_program flush restore dispatch dispatch_builtin
    run_registered call_program Registry.resolve Registry.resolve_in Registry.in_dir lookup split
    contains_char str_dec trim_end_matches expand_alias set_last_exit insert write_to path_var
    contents
greets = refl

-- The shell behind an unknown command.
abbrev refused : Shell (Unit {0})
refused = record shell {
  world = record shell.world { buffers = [] ∷ codes "no: command not found\n" ∷ [] };
  last_exit = pos 127;
}

refuses : execute_script run (only (call "no")) streams shell ≡ (refused, ok (pos 127))
unfolding execute_script execute_commands run_program flush restore dispatch dispatch_builtin
    run_registered call_program Registry.resolve Registry.resolve_in Registry.in_dir lookup split
    contains_char str_dec trim_end_matches expand_alias set_last_exit insert write_to path_var
    contents Dispatch.not_found complain say write_all into_bytes
refuses = refl

abbrev contained : Shell (Unit {0})
contained = record greeted { shared = shell.shared }

contains :
    execute_command run (subshell (only (call "hello"))) streams shell ≡ (contained, ok (pos 0))
unfolding execute_script execute_commands run_program flush restore dispatch dispatch_builtin
    run_registered call_program Registry.resolve Registry.resolve_in Registry.in_dir lookup split
    contains_char str_dec trim_end_matches expand_alias set_last_exit insert write_to path_var
    contents
contains = refl

subshell-restores_example :
    (contained.shared.env ≡ shell.shared.env) × (contained.shared.cwd ≡ shell.shared.cwd)
subshell-restores_example =
    subshell-restores run (only (call "hello")) streams shell contained (pos 0) contains

abbrev hello_then_leave : Script
hello_then_leave = next_command (call "hello") (only leave)

greets_and_leaves :
    execute_script run hello_then_leave streams shell ≡ (greeted, err (exit (pos 0)))
unfolding execute_script execute_commands run_program flush restore dispatch dispatch_builtin
    run_registered call_program Registry.resolve Registry.resolve_in Registry.in_dir lookup split
    contains_char str_dec trim_end_matches expand_alias set_last_exit insert write_to path_var
    contents exit_code
greets_and_leaves = refl

-- Assignments

abbrev quoted : String → Word
quoted s = single_quoted (codes s)

abbrev assigned : SimpleCommand
assigned =
    simple_command (next_assignment (codes "x") (quoted "1") no_assignments) (name (quoted "hello"))
      no_words no_redirects

assigns : execute_simple run assigned streams shell ≡ (contained, ok (pos 0))
unfolding execute_script execute_commands run_program flush restore dispatch dispatch_builtin
    run_registered call_program Registry.resolve Registry.resolve_in Registry.in_dir lookup split
    contains_char str_dec trim_end_matches expand_alias set_last_exit insert write_to path_var
    contents execute_simple set_env get_env unset_env remove
assigns = refl

assigned-restored_example :
    lookup (codes "x") contained.shared.env ≡ lookup (codes "x") shell.shared.env
unfolding expand_word
assigned-restored_example =
    assigned-restored run (codes "x") (quoted "1") (quoted "hello") no_words no_redirects streams
      shell shell contained (codes "1") (pos 0) refl assigns

abbrev kept : Shell (Unit {0})
kept = record greeted { shared = record shell.shared { env = (codes "x", codes "1") ∷ [] } }

assigns_twice :
    execute_simple run
      (simple_command
        (next_assignment
          (codes "x")
          (quoted "1")
          (next_assignment (codes "x") (quoted "2") no_assignments))
        (name (quoted "hello"))
        no_words
        no_redirects)
      streams
      shell
    ≡ (kept, ok (pos 0))
unfolding execute_script execute_commands run_program flush restore dispatch dispatch_builtin
    run_registered call_program Registry.resolve Registry.resolve_in Registry.in_dir lookup split
    contains_char str_dec trim_end_matches expand_alias set_last_exit insert write_to path_var
    contents execute_simple set_env get_env unset_env remove
assigns_twice = refl

assigned_twice_leaks_example : lookup (codes "x") kept.shared.env ≡ some (codes "1")
assigned_twice_leaks_example =
    assigned_twice_leaks run (codes "x") (codes "1") (codes "2") (quoted "hello") no_words
      no_redirects streams shell kept (pos 0) assigns_twice

-- Output

hello-AppendsOnly : AppendsOnly hello
unfolding AppendsOnly write_to contents
hello-AppendsOnly args i shared world = Grows-set world.buffers i.stdout (104 ∷ [])

all_append : AllAppend shell.registry
unfolding AllAppend lookup
all_append x p h = subst AppendsOnly (ground (arith, h)) hello-AppendsOnly

execute_script-Advances_example :
    Advances shell (execute_script run hello_then_leave streams shell).0
execute_script-Advances_example =
    execute_script-Advances (Unit {0}) parser 1 hello_then_leave streams shell all_append

-- A command of quoted words
exec-quote_words_example :
    (script : Script) × (parse_source (quote_words (codes "hello" ∷ codes "a b" ∷ [])) ≡ ok script)
    × (execute_script run script streams shell
        ≡ (run_program run (codes "hello") (codes "hello" ∷ codes "a b" ∷ []) [] (streams, [])
              >>= λ code. set_last_exit code >> return code)
            shell)
unfolding contains_char lookup
exec-quote_words_example =
    exec-quote_words run (codes "hello") (codes "a b" ∷ []) streams shell
      (Lacks-of_test _ (codes "hello") refl, (Lacks-of_test _ (codes "a b") refl, tt)) refl
