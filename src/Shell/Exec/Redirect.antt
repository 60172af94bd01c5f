-- ===== src/Shell/Exec/Redirect.antt =====
-- Output redirections in crates/wasm_shell/src/exec.rs: what the file holds when the command is done.
use wasm_shell.Base.{
  ℕ, true, ◌≡◌, ◌≢◌, sym, ◌∙◌, ap, false, none, List, [], ◌∷◌, ◌++◌, Str, Result, ok, err, length,
  subst,
}
use wasm_shell.Vfs.Path.{VfsError, normalize_path, resolve_path}
use wasm_shell.Vfs.Path
use wasm_shell.Vfs.Tree.{device, DeviceKind}
use wasm_shell.Vfs.Mount.{mounted}
use wasm_shell.Vfs.Ops.{Vfs, read_file, write_file}
use wasm_shell.Vfs.Ops.Unmounted.{node_of}
use wasm_shell.Vfs.Ops.Write.{read_file-write_file}
use wasm_shell.Bash.Ast.{
  write, append, simple_command, name, no_assignments, single_quoted, no_words, no_redirects,
  next_redirect, to_word,
}
use wasm_shell.Shell.State.{
  ◌>>=◌, return, ExitCode, ShellError, Io, Writer, Shell, attempt, caught, resolve, continue_with,
  contents, new_writer, bytes_of, with_fs, settle, or_fail,
}
use wasm_shell.Shell.Steps.{
  run_program, Dispatch, DeferredWrite, expand_alias, deferred_data, flush, restore, redirect_path,
  redirect_output, fd_of,
}
use wasm_shell.Shell.Exec.{execute_simple}
use wasm_shell.Shell.Exec.Control.{continue-eq-ok, continue_ok}

module _ {W : Type 0} where
  -- A deferred write that succeeds wrote the file.
  settled-ok :
      (r : Vfs W × Result VfsError (Unit {0})) (sh sh' : Shell W)
      → continue_with (record sh { world = record sh.world { fs = r.0 } }, settle r.1) or_fail
        ≡ (sh', ok tt)
      → r ≡ (sh'.world.fs, ok tt)
  unfolding settle or_fail
  settled-ok (v, ok tt) sh sh' h = ap (λ r. (r.0.world.fs, ok tt)) h
  settled-ok (v, err Path.panic) sh sh' h = cc
  settled-ok (v, err _) sh sh' h = cc

  written-settled :
      (path : Str) (bytes : List ℕ) (sh sh' : Shell W)
      → (with_fs (λ v. write_file v path bytes) >>= or_fail >>= λ _. return tt) sh ≡ (sh', ok tt)
      → write_file sh.world.fs path bytes ≡ (sh'.world.fs, ok tt)
  unfolding with_fs
  written-settled path bytes sh sh' h =
      let (s₁, u, e, k) =
        continue-eq-ok (continue_with (with_fs (λ v. write_file v path bytes) sh) or_fail) _ h in
      subst (λ s. write_file sh.world.fs path bytes ≡ (s.world.fs, ok tt)) (ap (λ r. r.0) k)
        (settled-ok _ sh s₁ e)

  flush-write :
      (path : Str) (buf : Writer) (sh sh' : Shell W)
      → flush (record { path = path; buf = buf; append_it = false } ∷ []) sh ≡ (sh', ok tt)
      → write_file sh.world.fs path (contents buf sh.world.buffers) ≡ (sh'.world.fs, ok tt)
  unfolding flush deferred_data bytes_of
  flush-write path buf sh sh' h = written-settled path (contents buf sh.world.buffers) sh sh' h

  flush-append :
      (path : Str) (buf : Writer) (old : List ℕ) (sh sh' : Shell W)
      → read_file sh.world.fs path ≡ (sh.world.fs, ok old)
      → flush (record { path = path; buf = buf; append_it = true } ∷ []) sh ≡ (sh', ok tt)
      → write_file sh.world.fs path (old ++ contents buf sh.world.buffers) ≡ (sh'.world.fs, ok tt)
  unfolding flush deferred_data bytes_of with_fs settle
  flush-append path buf old sh sh' r h =
      let bytes = contents buf sh.world.buffers in
      let e : deferred_data (record { path = path; buf = buf; append_it = true }) sh
          ≡ (sh, ok (old ++ bytes)) =
        continue_ok (with_fs (λ v. read_file v path) sh) _
          (ap (λ x. (record sh { world = record sh.world { fs = x.0 } }, settle x.1)) r) in
      written-settled path (old ++ bytes) sh sh' (
        sym
          (continue_ok (deferred_data (record { path = path; buf = buf; append_it = true }) sh) _ e)
        ∙ h)

  same_state :
      {A : Type 0} (r : Shell W × Result ShellError A) {s s' : Shell W} {v v' : A}
      → r ≡ (s, ok v)
      → r ≡ (s', ok v')
      → s ≡ s'
  same_state r h k = ap (λ x. x.0) (sym h ∙ k)

  module _ (d : Dispatch W) where
    run_program-flush :
        (c : Str) (args : List Str) (i : Io) (deferred : List DeferredWrite) (sh sh₁ sh' : Shell W)
        (code code' : ExitCode)
        → d c args i sh ≡ (sh₁, ok code')
        → run_program d c args [] (i, deferred) sh ≡ (sh', ok code)
        → flush deferred sh₁ ≡ (sh', ok tt)
    unfolding run_program restore
    run_program-flush c args i deferred sh sh₁ sh' code code' p h =
        let (s₁, c₁, e₁, k₁) = continue-eq-ok (attempt (d c args i) sh) _ h in
        let (s₂, u₂, e₂, k₂) = continue-eq-ok (flush deferred s₁) _ k₁ in
        let same = same_state (attempt (d c args i) sh) e₁ (ap (λ r. (r.0, caught r.1)) p) in
        let e₃ = subst (λ s. flush deferred s ≡ (s₂, ok u₂)) same e₂ in
        subst (λ s. flush deferred sh₁ ≡ (s, ok tt)) (ap (λ r. r.0) k₂) e₃

    -- After `'c' > 'p'` ends with a code, where the command itself ended with one, and `p` is on no mount and
    -- no device, the file holds exactly what the command wrote to its standard output: `sh₁` is the shell as
    -- the command leaves it, run with a new buffer for its output, and the path is relative to the directory
    -- from before.
    pub redirect-read_back :
        (c p : Str) (i : Io) (sh sh₁ sh' : Shell W) (code code' : ExitCode)
        → d
            (expand_alias sh.shared.aliases c).0
            ((expand_alias sh.shared.aliases c).0 ∷ (expand_alias sh.shared.aliases c).1 ++ [])
            (record i { stdout = length sh.world.buffers })
            (record sh { world = record sh.world { buffers = sh.world.buffers ++ [] ∷ [] } })
          ≡ (sh₁, ok code')
        → execute_simple d
            (simple_command no_assignments
              (name (single_quoted c))
              no_words
              (next_redirect none write (to_word (single_quoted p)) no_redirects))
            i
            sh
          ≡ (sh', ok code)
        → mounted sh₁.world.fs.mounts (normalize_path (resolve_path sh.shared.cwd p)) ≡ none
        → ((k : DeviceKind) → node_of sh₁.world.fs (resolve_path sh.shared.cwd p) ≢ ok (device k))
        → read_file sh'.world.fs (resolve_path sh.shared.cwd p)
          ≡ (sh'.world.fs, ok (contents (length sh.world.buffers) sh₁.world.buffers))
    unfolding execute_simple resolve redirect_path redirect_output new_writer fd_of
    redirect-read_back c p i sh sh₁ sh' code code' ran h free no_device =
        let path = resolve_path sh.shared.cwd p in
        let n = length sh.world.buffers in
        read_file-write_file sh₁.world.fs path (contents n sh₁.world.buffers) free sh'.world.fs
          (flush-write path n sh₁ sh' (
            run_program-flush _ _ _ (record { path = path; buf = n; append_it = false } ∷ []) _ sh₁
              sh' code code' ran h))
          no_device

    -- After `'c' >> 'p'` ends with a code, where the command itself ended with one, and `p` is on no mount and
    -- a file that the command leaves readable, the file holds what it held when the command ended, followed by
    -- what the command wrote to its standard output: `sh₁` is the shell as the command leaves it, run with a
    -- new buffer for its output.
    pub redirect-append :
        (c p : Str) (i : Io) (sh sh₁ sh' : Shell W) (code code' : ExitCode) (old : List ℕ)
        → d
            (expand_alias sh.shared.aliases c).0
            ((expand_alias sh.shared.aliases c).0 ∷ (expand_alias sh.shared.aliases c).1 ++ [])
            (record i { stdout = length sh.world.buffers })
            (record sh { world = record sh.world { buffers = sh.world.buffers ++ [] ∷ [] } })
          ≡ (sh₁, ok code')
        → execute_simple d
            (simple_command no_assignments
              (name (single_quoted c))
              no_words
              (next_redirect none append (to_word (single_quoted p)) no_redirects))
            i
            sh
          ≡ (sh', ok code)
        → mounted sh₁.world.fs.mounts (normalize_path (resolve_path sh.shared.cwd p)) ≡ none
        → ((k : DeviceKind) → node_of sh₁.world.fs (resolve_path sh.shared.cwd p) ≢ ok (device k))
        → read_file sh₁.world.fs (resolve_path sh.shared.cwd p) ≡ (sh₁.world.fs, ok old)
        → read_file sh'.world.fs (resolve_path sh.shared.cwd p)
          ≡ (sh'.world.fs, ok (old ++ contents (length sh.world.buffers) sh₁.world.buffers))
    unfolding execute_simple resolve redirect_path redirect_output new_writer fd_of
    redirect-append c p i sh sh₁ sh' code code' old ran h free no_device reads =
        let path = resolve_path sh.shared.cwd p in
        let n = length sh.world.buffers in
        read_file-write_file sh₁.world.fs path (old ++ contents n sh₁.world.buffers) free
          sh'.world.fs
          (flush-append path n old sh₁ sh' reads (
            run_program-flush _ _ _ (record { path = path; buf = n; append_it = true } ∷ []) _ sh₁
              sh' code code' ran h))
          no_device
