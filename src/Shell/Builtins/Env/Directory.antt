-- ===== src/Shell/Builtins/Env/Directory.antt =====
-- `cd` in crates/wasm_shell/src/builtins.rs.
use wasm_shell.Base.{
  Bool, true, false, Str, if◌then◌else◌, Result, ok, err, ◌≡◌, refl, ap, sym, ◌∙◌, ◌⊎◌, inl, inr,
}
use wasm_shell.Vfs.Path
use wasm_shell.Vfs.Path.{VfsError, resolve_path}
use wasm_shell.Vfs.Tree.{Stat}
use wasm_shell.Shell.State.{Shared, success, failure, ExitCode, ShellError, panic}
use wasm_shell.Shell.Context.{Context, stat, set_cwd, on_fs}
use wasm_shell.Shell.Builtins.Env.{print, cd_target, cd_to, builtin_cd, operands}

abbrev is_dir_of : Result VfsError Stat → Bool
is_dir_of (ok st) = st.is_dir
is_dir_of (err e) = false

module _ {W : Type 0} where
  -- The directory is `p` now, which a stat gave as one; or it failed, and the shell's state is as before.
  abbrev pub Moved :
      Str
      → Context W × Result VfsError Stat
      → Context W
      → Context W × Result ShellError ExitCode
      → Type 0
  Moved p s ctx (ctx', ok code) =
      ((code ≡ success)
        × (ctx'.shared ≡ record ctx.shared { cwd = p })
        × ((st : Stat) × (s.1 ≡ ok st) × (st.is_dir ≡ true)))
      ⊎ ((code ≡ failure)
          × (ctx'.shared ≡ ctx.shared)
          × ((st : Stat) → s.1 ≡ ok st → st.is_dir ≡ false))
  Moved p s ctx (ctx', err e) = (e ≡ panic) × (s.1 ≡ err Path.panic) × (ctx'.shared ≡ ctx.shared)

  Moved-if :
      (b : Bool) (p : Str) (s : Context W × Result VfsError Stat) (ctx : Context W)
      (x y : Context W × Result ShellError ExitCode)
      → (b ≡ true → Moved p s ctx x)
      → (b ≡ false → Moved p s ctx y)
      → Moved p s ctx (if b then x else y)
  Moved-if true p s ctx x y h k = h refl
  Moved-if false p s ctx x y h k = k refl

  cd_to-Moved :
      (target p : Str) (ctx : Context W) (s : Context W × Result VfsError Stat)
      → s.0.shared ≡ ctx.shared
      → Moved p s ctx (cd_to target p s)
  unfolding cd_to print set_cwd
  cd_to-Moved target p ctx (c, err Path.panic) e = (refl, refl, e)
  cd_to-Moved target p ctx (c, ok st) e =
      Moved-if st.is_dir p (c, ok st) ctx (set_cwd c p, ok success) (_, ok failure)
        (λ y. inl (refl, ap {A = Shared} (λ s. record s { cwd = p }) e, (st, refl, y)))
        (λ n. inr (refl, e, λ st' f. sym (ap is_dir_of f) ∙ n))
  cd_to-Moved target p ctx (c, err x) e = inr (refl, e, λ st' f. sym (ap is_dir_of f))

  -- `cd` with its target resolved in the working directory: where a stat of that path gives a directory, the
  -- command succeeds, that path is the working directory, and the variables and aliases stay; where it gives
  -- anything else, the command fails, or panics where the stat does, and directory, variables and aliases stay
  -- as they were.
  pub cd-Moved :
      (ctx : Context W)
      → Moved
          (resolve_path ctx.shared.cwd (cd_target ctx (operands ctx.args)))
          (stat ctx (resolve_path ctx.shared.cwd (cd_target ctx (operands ctx.args))))
          ctx
          (builtin_cd ctx)
  unfolding builtin_cd stat on_fs
  cd-Moved ctx =
      let p = resolve_path ctx.shared.cwd (cd_target ctx (operands ctx.args)) in
      cd_to-Moved (cd_target ctx (operands ctx.args)) p ctx (stat ctx p) refl
