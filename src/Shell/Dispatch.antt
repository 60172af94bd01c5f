-- ===== src/Shell/Dispatch.antt =====
-- `dispatch_builtin` and `dispatch` of crates/wasm_shell/src/exec.rs. The fuel bounds how deep `source` and `xargs`
-- nest; no other command takes any. `parse` is `bash_parser::parse`, with its error as it is displayed.
pub mod Related
pub mod Grows
use wasm_shell.Base.{
  ℕ, zero, suc, ◌+◌, Bool, false, ◌&&◌, ◌||◌, Option, none, some, List, [], ◌∷◌, ◌++◌, Str, codes,
  length, get_elem?, contains_char, drop, str_eq, Result, ok, err, if◌then◌else◌, ltb, leb, ◌==◌,
  is_ok,
}
use wasm_shell.Base.Map.{lookup}
use wasm_shell.Base.Int.{pos, parse_i32}
use wasm_shell.Base.Utf8.{from_utf8, from_utf8_lossy, into_bytes}
use wasm_shell.Vfs.Path.{VfsError}
use wasm_shell.Vfs.Ops
use wasm_shell.Bash.Ast.{Script}
use wasm_shell.Shell.State.{
  ExitCode, success, failure, ShellError, exit, Io, Shared, World, Program, Shell, Exec, ◌>>=◌,
  ◌>>◌, return, fail, resolve, write_all, with_fs, show_vfs_error, read_to_end, at_end, Writer,
}
use wasm_shell.Shell.Registry.{find_path}
use wasm_shell.Shell.Registry
use wasm_shell.Shell.Steps.{Dispatch, split_words}
use wasm_shell.Shell.Exec.{execute_script}

abbrev pub default_path : Str
default_path = codes "/usr/bin:/bin:/usr/local/bin"

-- White space as `char::is_whitespace` has it.
is_whitespace : ℕ → Bool
is_whitespace c =
    (leb 9 c && leb c 13)
    || c == 32
    || c == 0x85
    || c == 0xA0
    || c == 0x1680
    || (leb 0x2000 c && leb c 0x200A)
    || c == 0x2028
    || c == 0x2029
    || c == 0x202F
    || c == 0x205F
    || c == 0x3000

-- `i32` of the argument, or 0.
unfoldable pub exit_code : Option Str → ExitCode
exit_code none = pos 0
exit_code (some s) = elim (parse_i32 s) [ some n ↦ n | none ↦ pos 0 ]

which_code : Option Str → ExitCode → ExitCode
which_code (some p) code = code
which_code none code = failure

or_echo : Option Str → Str
or_echo none = codes "echo"
or_echo (some x) = x

abbrev pub shell_intrinsics : List Str
shell_intrinsics =
    codes "exit" ∷ codes "source" ∷ codes "." ∷ codes "xargs" ∷ codes "which" ∷ codes "type" ∷ []

unfoldable pub is_one_of : Str → List Str → Bool
is_one_of s [] = false
is_one_of s (t ∷ ts) = str_eq s t || is_one_of s ts

module _ {W : Type 0} where
  unfoldable pub path_var : Shell W → Str
  path_var sh = elim (lookup (codes "PATH") sh.shared.env) [
    | some path ↦ path
    | none ↦ default_path
  ]

  unfoldable pub say : Writer → Str → Exec W (Unit {0})
  say w text = write_all w (into_bytes text)

  -- A message to standard error, and the exit code.
  unfoldable pub complain : Io → Str → ExitCode → Exec W ExitCode
  unfolding say
  complain io text code = say io.stderr text >> return code

  -- What `which` writes for a name, whose path may have been found.
  which_line : Option Str → Str → Io → Exec W (Unit {0})
  unfolding say
  which_line (some p) x io = say io.stdout (p ++ codes "\n")
  which_line none x io = say io.stderr (x ++ codes ": not found\n")

  -- The loop of `which`.
  which_each : ExitCode → List Str → Io → Exec W ExitCode
  unfolding path_var which_line which_code
  which_each code [] io = return code
  which_each code (x ∷ xs) io = λ sh.
      (let p = find_path sh.registry x (path_var sh) in
          which_line p x io >> which_each (which_code p code) xs io)
        sh

  unfoldable pub which : List Str → Io → Exec W ExitCode
  unfolding which_each
  which args io =
      if ltb (length args) 2
      then complain io (codes "which: missing argument\n") failure
      else which_each success (drop 1 args) io

  -- What `type` says of a name.
  type_line : Str → Shell W → Str
  unfolding is_one_of path_var
  type_line x sh = elim (lookup x sh.shared.aliases) [
    | some val ↦ x ++ codes " is aliased to `" ++ val ++ codes "'\n"
    | none ↦
        if is_one_of x shell_intrinsics
        then x ++ codes " is a shell builtin\n"
        else elim (find_path sh.registry x (path_var sh)) [
          | some p ↦ x ++ codes " is " ++ p ++ codes "\n"
          | none ↦ x ++ codes ": not found\n"
        ]
  ]

  type_each : List Str → Io → Exec W ExitCode
  unfolding type_line
  type_each [] io = return success
  type_each (x ∷ xs) io = λ sh. (say io.stdout (type_line x sh) >> type_each xs io) sh

  unfoldable pub type : List Str → Io → Exec W ExitCode
  unfolding type_each
  type args io =
      if ltb (length args) 2
      then complain io (codes "type: missing argument\n") failure
      else type_each (drop 1 args) io

  unfoldable pub not_found : Str → Io → Exec W ExitCode
  not_found name io =
      if contains_char b'/' name
      then (resolve name >>= λ resolved. with_fs (λ v. Ops.stat v resolved) >>= λ r.
          complain io
            (codes "wasm_shell: "
              ++ name
              ++ (if is_ok r
                  then codes ": Permission denied\n"
                  else codes ": No such file or directory\n"))
            (pos 126))
      else complain io (name ++ codes ": command not found\n") (pos 127)

  -- A callback's changes to the environment, the directory and the aliases count only if it succeeds.
  unfoldable pub returned :
      Shell W
      → (Shared × World W) × Result ShellError ExitCode
      → Shell W × Result ShellError ExitCode
  returned sh ((shared, world), ok code) = (record sh { shared = shared; world = world }, ok code)
  returned sh ((shared, world), err e) = (record sh { world = world }, err e)

  unfoldable pub call_program : Program W → List Str → Io → Exec W ExitCode
  unfolding returned
  call_program program args io = λ sh. returned sh (program args io sh.shared sh.world)

  unfoldable pub run_found : Option (Program W) → Str → List Str → Io → Exec W ExitCode
  unfolding not_found call_program
  run_found (some program) name args io = call_program program args io
  run_found none name args io = not_found name io

  unfoldable pub run_registered : Str → List Str → Io → Exec W ExitCode
  unfolding run_found path_var
  run_registered name args io =
      λ sh. run_found (Registry.resolve sh.registry name (path_var sh)) name args io sh

  -- The rest is for the commands that run others, by `inner`.
  unfoldable pub source_parsed : Dispatch W → Io → Result Str Script → Exec W ExitCode
  source_parsed inner io (err m) = complain io (codes "source: " ++ m ++ codes "\n") failure
  source_parsed inner io (ok script) = execute_script inner script io

  unfoldable pub source_text :
      (Str → Result Str Script) → Dispatch W → Io → Option Str → Exec W ExitCode
  unfolding source_parsed
  source_text parse inner io none = complain io (codes "source: file is not valid UTF-8\n") failure
  source_text parse inner io (some src) = source_parsed inner io (parse src)

  unfoldable pub source_bytes :
      (Str → Result Str Script) → Dispatch W → Str → Io → Result VfsError (List ℕ) → Exec W ExitCode
  unfolding source_text
  source_bytes parse inner path io (err e) =
      complain io (codes "source: " ++ path ++ codes ": " ++ show_vfs_error e ++ codes "\n") failure
  source_bytes parse inner path io (ok bytes) = source_text parse inner io (from_utf8 bytes)

  unfoldable pub source_path :
      (Str → Result Str Script) → Dispatch W → Io → Option Str → Exec W ExitCode
  unfolding source_bytes
  source_path parse inner io none = complain io (codes "source: filename required\n") failure
  source_path parse inner io (some path) = resolve path >>= λ resolved.
      with_fs (λ v. Ops.read_file v resolved) >>= source_bytes parse inner path io

  unfoldable pub source : (Str → Result Str Script) → Dispatch W → List Str → Io → Exec W ExitCode
  unfolding source_path
  source parse inner args io = source_path parse inner io (get_elem? args 1)

  xargs_tokens : Dispatch W → List Str → Io → List Str → Exec W ExitCode
  unfolding or_echo
  xargs_tokens inner args io [] = return success
  xargs_tokens inner args io (t ∷ ts) =
      let cmd_name = or_echo (get_elem? args 1) in
      inner cmd_name (cmd_name ∷ drop 2 args ++ t ∷ ts) (record io { stdin = at_end io.stdin })

  unfoldable pub xargs : Dispatch W → List Str → Io → Exec W ExitCode
  unfolding is_whitespace xargs_tokens
  xargs inner args io =
      xargs_tokens inner args io
        (split_words is_whitespace (from_utf8_lossy (read_to_end io.stdin)))

  unfoldable pub dispatch_builtin :
      (Str → Result Str Script) → Dispatch W → Str → List Str → Io → Option (Exec W ExitCode)
  unfolding source xargs which type exit_code
  dispatch_builtin parse inner name args io =
      if str_eq name (codes "exit")
      then some (fail (exit (exit_code (get_elem? args 1))))
      else if str_eq name (codes "source") || str_eq name (codes ".")
      then some (source parse inner args io)
      else if str_eq name (codes "xargs")
      then some (xargs inner args io)
      else if str_eq name (codes "which")
      then some (which args io)
      else if str_eq name (codes "type")
      then some (type args io)
      else none

  unfoldable pub or_else_run : Option (Exec W ExitCode) → Exec W ExitCode → Exec W ExitCode
  or_else_run (some run) other = run
  or_else_run none other = other

  unfoldable pub dispatch : (Str → Result Str Script) → ℕ → Dispatch W
  unfolding dispatch_builtin run_registered or_else_run
  dispatch parse zero name args io = fail ShellError.no_fuel
  dispatch parse (suc fuel) name args io =
      or_else_run (dispatch_builtin parse (dispatch parse fuel) name args io)
        (run_registered name args io)
