-- ===== src/Shell/Tests/Sessions.antt =====
-- Commands from their text, on concrete words.
use wasm_shell.Base.{
  ℕ, ◌≡◌, refl, [], ◌∷◌, Str, codes, Result, ok, err, contains_char, Lacks-of_test, str_dec, split,
  trim_end_matches, trim_start_matches, starts_with, join,
}
use wasm_shell.Base.Int.{pos, parse_i32}
use wasm_shell.Base.Map.{lookup}
use wasm_shell.Base.Utf8.{into_bytes, from_utf8}
use wasm_shell.Vfs.Path.{path_components, normalize_path, resolve_path}
use wasm_shell.Vfs.Tree
use wasm_shell.Vfs.Tree.{dir, file, end, entry, mem_read, node_at}
use wasm_shell.Vfs.Mount.{mounted}
use wasm_shell.Vfs.Ops
use wasm_shell.Bash.Ast.{Script, next_command, append_script, subshell}
use wasm_shell.Bash.Fill.{parse_source}
use wasm_shell.Bash.Fill.Quoted.{quote_words}
use wasm_shell.Shell.State.{Shell, exit, no_fuel}
use wasm_shell.Shell.Registry
use wasm_shell.Shell.Exec.{execute_script, execute_commands}
use wasm_shell.Shell.Dispatch.{dispatch, path_var, is_one_of, exit_code}
use wasm_shell.Shell.Session.Unknown.{refused, exec-unknown}
use wasm_shell.Shell.Session.Subshell.{exits, subshell_exit_leaks}
use wasm_shell.Shell.Session.SelfSource.{source_line, source_self-never_ends}
use wasm_shell.Shell.Tests.{shell, streams, run, parser, greeted, greets, only, call}

exec-unknown_example :
    (script : Script) × (parse_source (quote_words (codes "no" ∷ codes "a b" ∷ [])) ≡ ok script)
    × (execute_script run script streams shell ≡ (refused streams (codes "no") shell, ok (pos 127)))
    × ((rest : Script)
        → execute_script run (append_script script rest) streams shell
          ≡ execute_commands run (pos 127) rest streams (refused streams (codes "no") shell))
unfolding contains_char lookup path_var split is_one_of Registry.in_dir str_dec trim_end_matches
exec-unknown_example =
    exec-unknown parser 0 (codes "no") (codes "a b" ∷ []) streams shell
      (Lacks-of_test _ (codes "no") refl, (Lacks-of_test _ (codes "a b") refl, tt)) refl refl refl
      (refl, (refl, (refl, tt)))

subshell_exit_leaks_example :
    execute_script run
      (next_command
        (subshell (append_script (only (call "hello")) (exits (codes "3" ∷ []))))
        (only (call "no")))
      streams
      shell
    ≡ (greeted, err (exit (pos 3)))
unfolding exit_code lookup parse_i32
subshell_exit_leaks_example =
    subshell_exit_leaks parser 0 (only (call "hello")) (only (call "no")) (codes "3" ∷ []) streams
      shell greeted (pos 0) greets refl

-- The file `f` sources itself.
abbrev self_text : Str
self_text = source_line (codes "f")

abbrev looping : Shell (Unit {0})
looping = record shell {
  world = record shell.world {
    fs = record {
      root = dir (entry (codes "f") (file (into_bytes self_text)) end);
      mounts = [];
      host = tt;
    };
  };
}

abbrev strict : Str → Result Str Script
strict src = elim (parse_source src) [ ok s ↦ ok s | err e ↦ err (codes "error") ]

source_self-never_ends_example :
    (script : Script) × (strict self_text ≡ ok script)
    × ((fuel : ℕ)
        → execute_script (dispatch strict fuel) script streams looping ≡ (looping, err no_fuel))
unfolding contains_char lookup Ops.read_file mounted mem_read node_at path_components split
    trim_start_matches normalize_path resolve_path starts_with str_dec join Tree.get from_utf8
    into_bytes
source_self-never_ends_example =
    source_self-never_ends strict (codes "f") (into_bytes self_text) streams looping
      (Lacks-of_test _ (codes "f") refl) refl refl refl (λ s h. rw (h, strict) refl)
