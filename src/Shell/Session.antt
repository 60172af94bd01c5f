-- ===== src/Shell/Session.antt =====
-- `Shell` in crates/wasm_shell/src/shell.rs: a new shell, registration, mounts and `exec`.
pub mod Quoted
pub mod Echo
pub mod Unknown
pub mod Subshell
pub mod SelfSource
use wasm_shell.Base.{ℕ, List, [], ◌∷◌, Str, codes, Result, ok, err}
use wasm_shell.Base.Map.{Map}
use wasm_shell.Vfs.Path.{VfsError}
use wasm_shell.Vfs.Mount.{MountPoint}
use wasm_shell.Vfs.Ops.{Vfs, new_vfs, mount_at}
use wasm_shell.Bash.Ast.{Script}
use wasm_shell.Shell.State.{
  ExitCode, success, ShellError, parse, exit, new_reader, Program, Shell, Exec, ◌>>=◌, ◌>>◌, return,
  fail, with_result, set_last_exit, new_writer, bytes_of,
}
use wasm_shell.Shell.Registry.{add}
use wasm_shell.Shell.Exec.{execute_script}
use wasm_shell.Shell.Dispatch.{dispatch, default_path}

pub record ExecOutput : Type 0 where
  pub code : ExitCode
  pub out : List ℕ
  pub errors : List ℕ

-- The code of a finished script: the one that it ends with, or the one of its `exit`.
unfoldable pub exit_status : Result ShellError ExitCode → Result ShellError ExitCode
exit_status (ok c) = ok c
exit_status (err (exit n)) = ok n
exit_status (err e) = err e

-- The environment of a new shell.
abbrev default_env : Map Str
default_env =
    (codes "PATH", default_path)
    ∷ (codes "HOME", codes "/home")
    ∷ (codes "TMPDIR", codes "/tmp")
    ∷ []

module _ {W : Type 0} where
  unfoldable pub add_program : Shell W → Str → Program W → Shell W
  add_program sh name f = record sh { registry = add sh.registry name f }

  unfoldable pub mount : Shell W → Str → MountPoint W → Shell W
  mount sh virtual_path point = record sh {
    world = record sh.world { fs = mount_at sh.world.fs virtual_path point };
  }

  add_programs : Shell W → List (Str × Program W) → Shell W
  unfolding add_program
  add_programs sh [] = sh
  add_programs sh ((name, f) ∷ programs) = add_programs (add_program sh name f) programs

  -- The shell on the filesystem, if there is one.
  new_with : Result VfsError (Vfs W) → (Vfs W → Shell W) → Result VfsError (Shell W)
  new_with (ok fs) f = ok (f fs)
  new_with (err e) f = err e

  -- `Shell::new`, with what `builtins::register` adds.
  unfoldable pub new_shell : W → List (Str × Program W) → Result VfsError (Shell W)
  unfolding add_programs new_with
  new_shell host builtins = new_with (new_vfs host) (λ fs.
      (add_programs
        (record {
          world = record { fs = fs; buffers = [] };
          registry = [];
          shared = record { env = default_env; cwd = b'/' ∷ []; aliases = [] };
          last_exit = success;
        })
        builtins))

  -- The rest of `exec` when the text is parsed. The script's own error is the result, but for `exit`.
  exec_parsed : (Str → Result Str Script) → ℕ → List ℕ → Result Str Script → Exec W ExecOutput
  unfolding exit_status
  exec_parsed parser fuel input (err m) = fail (parse m)
  exec_parsed parser fuel input (ok script) = new_writer >>= λ out. new_writer >>= λ errors.
      with_result exit_status (
        execute_script (dispatch parser fuel) script
          (record { stdin = new_reader input; stdout = out; stderr = errors }))
      >>= λ code.
          set_last_exit code
          >> (bytes_of out >>= λ o.
              bytes_of errors >>= λ e. return (record { code = code; out = o; errors = e }))

  unfoldable pub exec_with_stdin : (Str → Result Str Script) → ℕ → Str → List ℕ → Exec W ExecOutput
  unfolding exec_parsed
  exec_with_stdin parser fuel src input = exec_parsed parser fuel input (parser src)

  unfoldable pub exec : (Str → Result Str Script) → ℕ → Str → Exec W ExecOutput
  unfolding exec_with_stdin
  exec parser fuel src = exec_with_stdin parser fuel src []
