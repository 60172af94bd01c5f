-- ===== src/Shell/Tests/Files.antt =====
-- Runs of the shell that write files.
use wasm_shell.Base.{
  List, ℕ, ◌≡◌, refl, none, [], ◌∷◌, Str, codes, ok, err, arith, split, contains_char,
  trim_end_matches, str_dec, starts_with, join, trim_start_matches, str_lt,
}
use wasm_shell.Base.Map.{lookup, insert}
use wasm_shell.Base.Int.{pos}
use wasm_shell.Vfs.Path.{not_found, normalize_path, resolve_path, path_components, split_parent}
use wasm_shell.Vfs.Tree.{dir, file, end, entry, node_at, mem_set_node, modify_at, mem_read}
use wasm_shell.Vfs.Tree
use wasm_shell.Vfs.Mount.{mounted, find_mount}
use wasm_shell.Vfs.Ops
use wasm_shell.Vfs.Ops.Unmounted.{node_of}
use wasm_shell.Vfs.Path.Normal.{segments}
use wasm_shell.Vfs.Ops.{Vfs, read_file}
use wasm_shell.Bash.Ast.{
  SimpleCommand, simple_command, name, no_assignments, no_words, no_redirects, next_redirect, write,
  append, to_word,
}
use wasm_shell.Shell.State.{
  Shell, write_to, contents, new_writer, bytes_of, set_last_exit, resolve, with_fs, settle, or_fail,
}
use wasm_shell.Shell.Context
use wasm_shell.Shell.Context.{Context}
use wasm_shell.Shell.Context.Files.{set_cwd-write_file}
use wasm_shell.Shell.Registry
use wasm_shell.Shell.Steps.{
  run_program, flush, restore, expand_alias, redirect_path, redirect_output, fd_of,
}
use wasm_shell.Shell.Exec.{execute_commands, execute_script, execute_simple}
use wasm_shell.Shell.Exec.Redirect.{redirect-read_back, redirect-append}
use wasm_shell.Shell.Dispatch.{dispatch, dispatch_builtin, run_registered, call_program, path_var}
use wasm_shell.Shell.Tests.{shell, streams, run, greeted, quoted}

-- Redirections

abbrev wrote : Shell (Unit {0})
wrote = record greeted { world = record shell.world { buffers = [] ∷ [] ∷ (104 ∷ []) ∷ [] } }

abbrev saved_file : Shell (Unit {0})
saved_file = record wrote {
  world = record wrote.world {
    fs = record { root = dir (entry (codes "f") (file (104 ∷ [])) end); mounts = []; host = tt };
  };
}

abbrev redirected : SimpleCommand
redirected =
    simple_command no_assignments (name (quoted "hello")) no_words
      (next_redirect none write (to_word (quoted "f")) no_redirects)

redirects : execute_simple run redirected streams shell ≡ (saved_file, ok (pos 0))
unfolding execute_script execute_commands run_program flush restore dispatch dispatch_builtin
    run_registered call_program Registry.resolve Registry.resolve_in Registry.in_dir lookup split
    contains_char str_dec trim_end_matches expand_alias set_last_exit insert write_to path_var
    contents execute_simple resolve_path normalize_path redirect_path resolve starts_with join
    new_writer bytes_of with_fs redirect_output fd_of settle or_fail Ops.write_file Ops.mem_write
    mounted find_mount path_components node_at mem_set_node split_parent modify_at
    trim_start_matches Tree.get Tree.insert str_lt
redirects = refl

writes_h :
    run
      (codes "hello")
      (codes "hello" ∷ [])
      (record streams { stdout = 2 })
      (record shell { world = record shell.world { buffers = [] ∷ [] ∷ [] ∷ [] } })
    ≡ (wrote, ok (pos 0))
unfolding execute_script execute_commands run_program flush restore dispatch dispatch_builtin
    run_registered call_program Registry.resolve Registry.resolve_in Registry.in_dir lookup split
    contains_char str_dec trim_end_matches expand_alias set_last_exit insert write_to path_var
    contents
writes_h = refl

f_free :
    node_of wrote.world.fs (resolve_path shell.shared.cwd (codes "f"))
    ≡ err (not_found (codes "/f"))
unfolding resolve_path starts_with join normalize_path segments node_at split str_dec Tree.get
f_free = refl

redirect-read_back_example :
    read_file saved_file.world.fs (codes "/f") ≡ (saved_file.world.fs, ok (104 ∷ []))
unfolding resolve_path expand_alias lookup contents starts_with join str_dec normalize_path mounted
    find_mount node_at path_components split trim_start_matches Tree.get
redirect-read_back_example =
    redirect-read_back run (codes "hello") (codes "f") streams shell wrote saved_file (pos 0)
      (pos 0) writes_h redirects refl (λ k p. ground (arith, f_free, p))

abbrev disk : List ℕ → Vfs (Unit {0})
disk bytes = record { root = dir (entry (codes "f") (file bytes) end); mounts = []; host = tt }

abbrev with_file : Shell (Unit {0})
with_file = record shell { world = record shell.world { fs = disk (1 ∷ []) } }

abbrev wrote_more : Shell (Unit {0})
wrote_more = record wrote { world = record wrote.world { fs = disk (1 ∷ []) } }

abbrev appended_file : Shell (Unit {0})
appended_file = record wrote { world = record wrote.world { fs = disk (1 ∷ 104 ∷ []) } }

appends :
    execute_simple run
      (simple_command no_assignments
        (name (quoted "hello"))
        no_words
        (next_redirect none append (to_word (quoted "f")) no_redirects))
      streams
      with_file
    ≡ (appended_file, ok (pos 0))
unfolding execute_script execute_commands run_program flush restore dispatch dispatch_builtin
    run_registered call_program Registry.resolve Registry.resolve_in Registry.in_dir lookup split
    contains_char str_dec trim_end_matches expand_alias set_last_exit insert write_to path_var
    contents execute_simple resolve_path normalize_path redirect_path resolve starts_with join
    new_writer bytes_of with_fs redirect_output fd_of settle or_fail Ops.write_file read_file
    mem_read Ops.mem_write mounted find_mount path_components node_at mem_set_node split_parent
    modify_at trim_start_matches Tree.get Tree.insert str_lt
appends = refl

writes_more :
    run
      (codes "hello")
      (codes "hello" ∷ [])
      (record streams { stdout = 2 })
      (record with_file { world = record with_file.world { buffers = [] ∷ [] ∷ [] ∷ [] } })
    ≡ (wrote_more, ok (pos 0))
unfolding execute_script execute_commands run_program flush restore dispatch dispatch_builtin
    run_registered call_program Registry.resolve Registry.resolve_in Registry.in_dir lookup split
    contains_char str_dec trim_end_matches expand_alias set_last_exit insert write_to path_var
    contents
writes_more = refl

f_there :
    node_of (disk (1 ∷ [])) (resolve_path with_file.shared.cwd (codes "f")) ≡ ok (file (1 ∷ []))
unfolding resolve_path starts_with join normalize_path segments node_at split str_dec Tree.get
f_there = refl

redirect-append_example :
    read_file appended_file.world.fs (codes "/f") ≡ (appended_file.world.fs, ok (1 ∷ 104 ∷ []))
unfolding resolve_path expand_alias lookup contents starts_with join str_dec normalize_path mounted
    find_mount node_at path_components split trim_start_matches Tree.get read_file mem_read
redirect-append_example =
    redirect-append run (codes "hello") (codes "f") streams with_file wrote_more appended_file
      (pos 0) (pos 0) (1 ∷ []) writes_more appends refl (λ k p. ground (arith, f_there, p)) refl

-- A program's context

abbrev context : Vfs (Unit {0}) → Str → Context (Unit {0})
context fs cwd = record {
  args = [];
  shared = record { env = []; cwd = cwd; aliases = [] };
  world = record { fs = fs; buffers = [] };
  io = streams;
}

context_writes :
    Context.write_file
      (Context.set_cwd (context (disk (1 ∷ [])) (codes "/tmp")) (codes "/"))
      (codes "f")
      (7 ∷ [])
    ≡ (context (disk (7 ∷ [])) (codes "/"), ok tt)
unfolding execute_script execute_commands run_program flush restore dispatch dispatch_builtin
    run_registered call_program Registry.resolve Registry.resolve_in Registry.in_dir lookup split
    contains_char str_dec trim_end_matches expand_alias set_last_exit insert write_to path_var
    contents execute_simple resolve_path normalize_path redirect_path resolve starts_with join
    new_writer bytes_of with_fs redirect_output fd_of settle or_fail Context.write_file
    Context.set_cwd Ops.write_file Ops.mem_write mounted find_mount path_components node_at
    mem_set_node split_parent modify_at trim_start_matches Tree.get Tree.insert str_lt
context_writes = refl

set_cwd-write_file_example :
    (read_file (disk (7 ∷ [])) (resolve_path (codes "/") (codes "f"))
      ≡ (disk (7 ∷ []), ok (7 ∷ [])))
    × (Context.read_file (context (disk (7 ∷ [])) (codes "/")) (codes "f")
        ≡ (context (disk (7 ∷ [])) (codes "/"), ok (7 ∷ [])))
unfolding mounted find_mount
set_cwd-write_file_example =
    set_cwd-write_file (context (disk (1 ∷ [])) (codes "/tmp"))
      (context (disk (7 ∷ [])) (codes "/")) (codes "/") (codes "f") (7 ∷ []) context_writes refl
      (λ k p. ground (arith, f_there, p))
