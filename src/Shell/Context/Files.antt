-- ===== src/Shell/Context/Files.antt =====
-- Files under relative paths, for `ProgramContext` in crates/wasm_shell/src/shell.rs.
use wasm_shell.Base.{ℕ, ◌≡◌, ◌≢◌, ap, sym, ◌∙◌, none, List, Str, ok}
use wasm_shell.Vfs.Path.{normalize_path, resolve_path}
use wasm_shell.Vfs.Tree.{device, DeviceKind}
use wasm_shell.Vfs.Mount.{mounted}
use wasm_shell.Vfs.Ops
use wasm_shell.Vfs.Ops.Unmounted.{node_of}
use wasm_shell.Vfs.Ops.Write.{read_file-write_file}
use wasm_shell.Shell.Context.{Context, set_cwd, write_file, read_file, on_fs, resolved}

module _ {W : Type 0} where
  -- What a program has written under a path after changing its directory, where the path in that directory is
  -- on no mount and no device and the write succeeded, is read back from the filesystem under the full path,
  -- and by the program under the path that it wrote.
  pub set_cwd-write_file :
      (ctx ctx' : Context W) (dir path : Str) (bytes : List ℕ)
      → write_file (set_cwd ctx dir) path bytes ≡ (ctx', ok tt)
      → mounted ctx.world.fs.mounts (normalize_path (resolve_path dir path)) ≡ none
      → ((k : DeviceKind) → node_of ctx.world.fs (resolve_path dir path) ≢ ok (device k))
      → (Ops.read_file ctx'.world.fs (resolve_path dir path) ≡ (ctx'.world.fs, ok bytes))
        × (read_file ctx' path ≡ (ctx', ok bytes))
  unfolding write_file read_file set_cwd on_fs resolved
  set_cwd-write_file ctx ctx' dir path bytes h free no_device =
      let r : Ops.read_file ctx'.world.fs (resolve_path dir path) ≡ (ctx'.world.fs, ok bytes) =
        read_file-write_file ctx.world.fs (resolve_path dir path) bytes free ctx'.world.fs
          (ap (λ x. (x.0.world.fs, x.1)) h) no_device in
      (
        r,
        ap (λ c. on_fs ctx' (Ops.read_file ctx'.world.fs (resolve_path c path)))
              (ap (λ x. x.0.shared.cwd) (sym h))
            ∙ ap (on_fs ctx') r,
      )
