-- ===== src/Shell/Builtins/Env.antt =====
-- The programs of crates/wasm_shell/src/builtins.rs that read and change the shell's own state.
pub mod Variables
pub mod Directory
pub mod Echo
use wasm_shell.Base.{
  ◌+◌, Bool, true, false, Option, none, some, List, [], ◌∷◌, ◌++◌, Str, codes, str_eq, str_lt, join,
  if◌then◌else◌, ◌||◌, Result, ok, err,
}
use wasm_shell.Base.Map.{Map}
use wasm_shell.Base.Utf8.{into_bytes}
use wasm_shell.Vfs.Path
use wasm_shell.Vfs.Path.{VfsError, resolve_path}
use wasm_shell.Vfs.Tree.{Stat}
use wasm_shell.Bash.Names.{split_at}
use wasm_shell.Shell.State.{
  ExitCode, success, failure, ShellError, panic, show_vfs_error, Writer, Program, write_to,
}
use wasm_shell.Shell.Context.{
  Context, get_env, set_env, unset_env, set_cwd, get_alias, set_alias, unset_alias, stat, stdout,
  stderr,
}
use wasm_shell.Shell.Builtins.Text.{interpret_escapes}

-- A program on its context.
abbrev pub Builtin : Type 0 → Type 0
Builtin W = Context W → Context W × Result ShellError ExitCode

-- `&ctx.args[1..]`
unfoldable pub after_name : List Str → Result ShellError (List Str)
after_name [] = err panic
after_name (name ∷ args) = ok args

-- `skip(1)`
unfoldable pub operands : List Str → List Str
operands [] = []
operands (name ∷ args) = args

unwrap_or : Option Str → Str → Str
unwrap_or none d = d
unwrap_or (some s) d = s

-- The options of `echo`: no newline, escapes, and the arguments behind them.
unfoldable pub echo_options : Bool → Bool → List Str → Bool × Bool × List Str
echo_options no_newline escape [] = (no_newline, escape, [])
echo_options no_newline escape (a ∷ args) =
    if str_eq a (codes "-n")
    then echo_options true escape args
    else if str_eq a (codes "-e")
    then echo_options no_newline true args
    else if str_eq a (codes "-E")
    then echo_options no_newline false args
    else if str_eq a (codes "-ne") || str_eq a (codes "-en")
    then echo_options true true args
    else (no_newline, escape, a ∷ args)

-- A pair goes in front of the first greater one.
insert_sorted : Str × Str → Map Str → Map Str
insert_sorted p [] = p ∷ []
insert_sorted p (q ∷ m) =
    let rest = insert_sorted p m in if str_lt p.0 q.0 then p ∷ q ∷ m else q ∷ rest

-- `EnvMap::to_vec`, and the sort of a snapshot
unfoldable pub to_vec : Map Str → List (Str × Str)
unfolding insert_sorted
to_vec [] = []
to_vec (p ∷ m) = insert_sorted p (to_vec m)

alias_line : Str → Str → Str
alias_line name val = codes "alias " ++ name ++ codes "='" ++ val ++ codes "'\n"

module _ {W : Type 0} where
  -- As the shell calls it.
  unfoldable pub program : Builtin W → Program W
  program run args io shared world =
      let r = run (record { args = args; shared = shared; world = world; io = io }) in
      ((r.0.shared, r.0.world), r.1)

  -- `write_all(..).await.ok()`
  unfoldable pub print : Writer → Str → Context W → Context W
  print w text ctx = record ctx { world = write_to w (into_bytes text) ctx.world }

  -- `unwrap_or_else` on the first operand
  pub cd_target : Context W → List Str → Str
  unfolding get_env unwrap_or
  cd_target ctx [] = unwrap_or (get_env ctx (codes "HOME")) (codes "/")
  cd_target ctx (target ∷ args) = target

  cd_to : Str → Str → Context W × Result VfsError Stat → Context W × Result ShellError ExitCode
  unfolding print
  cd_to target new_cwd (ctx, err Path.panic) = (ctx, err panic)
  cd_to target new_cwd (ctx, err e) = (
    print (stderr ctx) (codes "cd: " ++ target ++ codes ": " ++ show_vfs_error e ++ codes "\n") ctx,
    ok failure,
  )
  cd_to target new_cwd (ctx, ok s) = if s.is_dir then (set_cwd ctx new_cwd, ok success) else (
    print (stderr ctx) (codes "cd: " ++ target ++ codes ": not a directory\n") ctx,
    ok failure,
  )

  unfoldable pub builtin_cd : Builtin W
  unfolding cd_target cd_to operands
  builtin_cd ctx =
      let target = cd_target ctx (operands ctx.args) in
      let new_cwd = resolve_path ctx.shared.cwd target in cd_to target new_cwd (stat ctx new_cwd)

  unfoldable pub builtin_pwd : Builtin W
  unfolding print
  builtin_pwd ctx = (print (stdout ctx) (ctx.shared.cwd ++ codes "\n") ctx, ok success)

  unset_all : List Str → Context W → Context W
  unset_all [] ctx = ctx
  unset_all (name ∷ args) ctx = unset_all args (unset_env ctx name)

  unfoldable pub builtin_unset : Builtin W
  unfolding unset_all operands
  builtin_unset ctx = (unset_all (operands ctx.args) ctx, ok success)

  -- `split_once('=')`, and what `export` does with it
  export_pair : Option (Str × Str) → Context W → Context W
  export_pair none ctx = ctx
  export_pair (some (k, v)) ctx = set_env ctx k v

  unfoldable pub export_all : List Str → Context W → Context W
  unfolding export_pair
  export_all [] ctx = ctx
  export_all (arg ∷ args) ctx = export_all args (export_pair (split_at b'=' arg) ctx)

  env_lines : List (Str × Str) → Context W → Context W
  unfolding print
  env_lines [] ctx = ctx
  env_lines ((k, v) ∷ m) ctx =
      env_lines m (print (stdout ctx) (k ++ codes "=" ++ v ++ codes "\n") ctx)

  unfoldable pub builtin_env : Builtin W
  unfolding env_lines to_vec
  builtin_env ctx = (env_lines (to_vec ctx.shared.env) ctx, ok success)

  export_from : List Str → Builtin W
  unfolding builtin_env export_all
  export_from [] ctx = builtin_env ctx
  export_from (arg ∷ args) ctx = (export_all (arg ∷ args) ctx, ok success)

  unfoldable pub builtin_export : Builtin W
  unfolding export_from operands
  builtin_export ctx = export_from (operands ctx.args) ctx

  alias_lines : List (Str × Str) → Context W → Context W
  unfolding print alias_line
  alias_lines [] ctx = ctx
  alias_lines ((name, val) ∷ m) ctx = alias_lines m (print (stdout ctx) (alias_line name val) ctx)

  -- An alias that is asked for.
  show_alias : Str → Option Str → Context W × ExitCode → Context W × ExitCode
  unfolding print alias_line
  show_alias arg (some val) (ctx, code) = (print (stdout ctx) (alias_line arg val) ctx, code)
  show_alias arg none (ctx, code) =
      (print (stderr ctx) (codes "alias: " ++ arg ++ codes ": not found\n") ctx, failure)

  alias_arg : Str → Option (Str × Str) → Context W × ExitCode → Context W × ExitCode
  unfolding show_alias get_alias
  alias_arg arg (some (name, val)) (ctx, code) = (set_alias ctx name val, code)
  alias_arg arg none (ctx, code) = show_alias arg (get_alias ctx arg) (ctx, code)

  alias_all : List Str → Context W × ExitCode → Context W × ExitCode
  unfolding alias_arg
  alias_all [] r = r
  alias_all (arg ∷ args) r = alias_all args (alias_arg arg (split_at b'=' arg) r)

  -- The exit code as a result.
  ended : Context W × ExitCode → Context W × Result ShellError ExitCode
  ended (ctx, code) = (ctx, ok code)

  alias_from : List Str → Builtin W
  unfolding alias_lines alias_all to_vec ended
  alias_from [] ctx = (alias_lines (to_vec ctx.shared.aliases) ctx, ok success)
  alias_from (arg ∷ args) ctx = ended (alias_all (arg ∷ args) (ctx, success))

  unfoldable pub builtin_alias : Builtin W
  unfolding alias_from operands
  builtin_alias ctx = alias_from (operands ctx.args) ctx

  unset_aliases : List (Str × Str) → Context W → Context W
  unset_aliases [] ctx = ctx
  unset_aliases ((name, val) ∷ m) ctx = unset_aliases m (unset_alias ctx name)

  unset_found : Str → Option Str → Context W × ExitCode → Context W × ExitCode
  unfolding print
  unset_found arg (some val) (ctx, code) = (unset_alias ctx arg, code)
  unset_found arg none (ctx, code) =
      (print (stderr ctx) (codes "unalias: " ++ arg ++ codes ": not found\n") ctx, failure)

  unalias_arg : Str → Context W × ExitCode → Context W × ExitCode
  unfolding unset_aliases unset_found get_alias
  unalias_arg arg (ctx, code) =
      if str_eq arg (codes "-a")
      then (unset_aliases ctx.shared.aliases ctx, code)
      else unset_found arg (get_alias ctx arg) (ctx, code)

  unalias_all : List Str → Context W × ExitCode → Context W × ExitCode
  unfolding unalias_arg
  unalias_all [] r = r
  unalias_all (arg ∷ args) r = unalias_all args (unalias_arg arg r)

  unfoldable pub builtin_unalias : Builtin W
  unfolding unalias_all ended operands
  builtin_unalias ctx = ended (unalias_all (operands ctx.args) (ctx, success))

  unfoldable pub echo_words : Context W → Bool × Bool × List Str → Context W
  unfolding print interpret_escapes
  echo_words ctx (no_newline, escape, rest) =
      let text = join (codes " ") rest in
      let written = print (stdout ctx) (if escape then interpret_escapes text else text) ctx in
      if no_newline then written else print (stdout ctx) (codes "\n") written

  unfoldable pub builtin_echo : Builtin W
  unfolding after_name echo_words echo_options
  builtin_echo ctx = elim (after_name ctx.args) [
    | ok args ↦ (echo_words ctx (echo_options false false args), ok success)
    | err e ↦ (ctx, err e)
  ]

  pub builtin_true : Builtin W
  builtin_true ctx = (ctx, ok success)

  pub builtin_false : Builtin W
  builtin_false ctx = (ctx, ok failure)
