-- ===== src/Shell/Context.antt =====
-- `ProgramContext` in crates/wasm_shell/src/shell.rs: what a registered program does with the shell. A method that
-- changes something returns the new context.
pub mod Files
use wasm_shell.Base.{ℕ, Bool, Option, List, Str, Result}
use wasm_shell.Base.Map.{lookup, insert, remove}
use wasm_shell.Vfs.Path.{VfsError, resolve_path}
use wasm_shell.Vfs.Tree.{Stat}
use wasm_shell.Vfs.Ops
use wasm_shell.Vfs.Ops.{Vfs}
use wasm_shell.Shell.State.{Reader, Writer, Io, Shared, World}

pub record Context (W : Type 0) : Type 0 where
  pub args : List Str
  pub shared : Shared
  pub world : World W
  pub io : Io

module _ {W : Type 0} where
  unfoldable pub get_env : Context W → Str → Option Str
  get_env ctx key = lookup key ctx.shared.env

  unfoldable pub set_env : Context W → Str → Str → Context W
  set_env ctx key value = record ctx {
    shared = record ctx.shared { env = insert key value ctx.shared.env };
  }

  unfoldable pub unset_env : Context W → Str → Context W
  unset_env ctx key = record ctx { shared = record ctx.shared { env = remove key ctx.shared.env } }

  unfoldable pub set_cwd : Context W → Str → Context W
  set_cwd ctx path = record ctx { shared = record ctx.shared { cwd = path } }

  unfoldable pub get_alias : Context W → Str → Option Str
  get_alias ctx name = lookup name ctx.shared.aliases

  unfoldable pub set_alias : Context W → Str → Str → Context W
  set_alias ctx name value = record ctx {
    shared = record ctx.shared { aliases = insert name value ctx.shared.aliases };
  }

  unfoldable pub unset_alias : Context W → Str → Context W
  unset_alias ctx name = record ctx {
    shared = record ctx.shared { aliases = remove name ctx.shared.aliases };
  }

  -- An operation of the filesystem.
  unfoldable pub on_fs :
      {A : Type 0} → Context W → Vfs W × Result VfsError A → Context W × Result VfsError A
  on_fs ctx r = (record ctx { world = record ctx.world { fs = r.0 } }, r.1)

  -- A path as the program means it.
  unfoldable pub resolved : Context W → Str → Str
  resolved ctx path = resolve_path ctx.shared.cwd path

  unfoldable pub read_file : Context W → Str → Context W × Result VfsError (List ℕ)
  unfolding on_fs resolved
  read_file ctx path = on_fs ctx (Ops.read_file ctx.world.fs (resolved ctx path))

  unfoldable pub write_file : Context W → Str → List ℕ → Context W × Result VfsError (Unit {0})
  unfolding on_fs resolved
  write_file ctx path bytes = on_fs ctx (Ops.write_file ctx.world.fs (resolved ctx path) bytes)

  unfoldable pub list_dir : Context W → Str → Context W × Result VfsError (List Str)
  unfolding on_fs resolved
  list_dir ctx path = on_fs ctx (Ops.list_dir ctx.world.fs (resolved ctx path))

  unfoldable pub stat : Context W → Str → Context W × Result VfsError Stat
  unfolding on_fs resolved
  stat ctx path = on_fs ctx (Ops.stat ctx.world.fs (resolved ctx path))

  unfoldable pub mkdir : Context W → Str → Bool → Context W × Result VfsError (Unit {0})
  unfolding on_fs resolved
  mkdir ctx path parents = on_fs ctx (Ops.mkdir ctx.world.fs (resolved ctx path) parents)

  unfoldable pub remove_path : Context W → Str → Bool → Context W × Result VfsError (Unit {0})
  unfolding on_fs resolved
  remove_path ctx path recursive = on_fs ctx (Ops.remove ctx.world.fs (resolved ctx path) recursive)

  unfoldable pub rename : Context W → Str → Str → Context W × Result VfsError (Unit {0})
  unfolding on_fs resolved
  rename ctx from to = on_fs ctx (Ops.rename ctx.world.fs (resolved ctx from) (resolved ctx to))

  unfoldable pub copy : Context W → Str → Str → Context W × Result VfsError (Unit {0})
  unfolding on_fs resolved
  copy ctx from to = on_fs ctx (Ops.copy ctx.world.fs (resolved ctx from) (resolved ctx to))

  unfoldable pub stdin : Context W → Reader
  stdin ctx = ctx.io.stdin

  unfoldable pub stdout : Context W → Writer
  stdout ctx = ctx.io.stdout

  unfoldable pub stderr : Context W → Writer
  stderr ctx = ctx.io.stderr
