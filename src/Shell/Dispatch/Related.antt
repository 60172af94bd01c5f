-- ===== src/Shell/Dispatch/Related.antt =====
-- The simulation of runs carried over to `dispatch` of crates/wasm_shell/src/exec.rs: related inner dispatchers give
-- related ones, if the registered programs are related to themselves.
use wasm_shell.Base.{
  ℕ, suc, Bool, true, false, ◌||◌, Option, none, some, List, [], ◌∷◌, Str, Result, ok, err,
  if◌then◌else◌, codes, str_eq, get_elem?,
}
use wasm_shell.Base.Utf8.{from_utf8, from_utf8_lossy}
use wasm_shell.Vfs.Path.{VfsError}
use wasm_shell.Bash.Ast.{Script}
use wasm_shell.Shell.State.{ExitCode, success, failure, exit, Io, Exec, read_to_end}
use wasm_shell.Shell.Steps.{Dispatch, split_words}
use wasm_shell.Shell.Exec.{execute_script}
use wasm_shell.Shell.Exec.Simulation.{
  Simulation, return-Alike, resolve-Alike, execute_commands-Rel, if-Rel,
}
use wasm_shell.Shell.Dispatch.{
  say, complain, which_each, which, type_each, type, run_registered, source, xargs,
  dispatch_builtin, dispatch, exit_code, is_whitespace, which_line, not_found, source_parsed,
  source_text, source_bytes, source_path, xargs_tokens, or_else_run,
}

-- Two chances of a command, each with another computation for when there is none.
record OptRel {W : Type 0} (s : Simulation W) (o o' : Option (Exec W ExitCode)) : Type 0 where
  otherwise : {m m' : Exec W ExitCode} → s.Rel m m' → s.Rel (or_else_run o m) (or_else_run o' m')

module _ {W : Type 0} (s : Simulation W) where
  open s use {Rel, of_value, of_bind, of_read, of_write_all, of_with_fs}

  complain-Alike :
      (i : Io) (text : Str) (code : ExitCode) → Rel (complain i text code) (complain i text code)
  unfolding complain say
  complain-Alike i text code = of_bind (of_write_all _ _) (λ _. return-Alike s code)

  which_line-Alike :
      (o : Option Str) (x : Str) (i : Io) → Rel (which_line {W = W} o x i) (which_line o x i)
  unfolding which_line say
  which_line-Alike (some p) x i = of_write_all _ _
  which_line-Alike none x i = of_write_all _ _

  which_each-Alike :
      (xs : List Str) (code : ExitCode) (i : Io) → Rel (which_each code xs i) (which_each code xs i)
  unfolding which_each
  which_each-Alike [] code i = return-Alike s code
  which_each-Alike (x ∷ xs) code i =
      of_read (λ sh. of_bind (which_line-Alike _ x i) (λ _. which_each-Alike xs _ i))

  type_each-Alike : (xs : List Str) (i : Io) → Rel (type_each {W = W} xs i) (type_each xs i)
  unfolding type_each say
  type_each-Alike [] i = return-Alike s success
  type_each-Alike (x ∷ xs) i =
      of_read (λ sh. of_bind (of_write_all _ _) (λ _. type_each-Alike xs i))

  which-Alike : (args : List Str) (i : Io) → Rel (which {W = W} args i) (which args i)
  unfolding which
  which-Alike args i = if-Rel s _ (complain-Alike i _ failure) (which_each-Alike _ success i)

  type-Alike : (args : List Str) (i : Io) → Rel (type {W = W} args i) (type args i)
  unfolding type
  type-Alike args i = if-Rel s _ (complain-Alike i _ failure) (type_each-Alike _ i)

  pub not_found-Alike : (x : Str) (i : Io) → Rel (not_found {W = W} x i) (not_found x i)
  unfolding not_found
  not_found-Alike x i =
      if-Rel s _
        (of_bind (resolve-Alike s x) (λ path. of_bind (of_with_fs _) (λ r. complain-Alike i _ _)))
        (complain-Alike i _ _)

  module _ (parse : Str → Result Str Script) (d d' : Dispatch W)
      (h : (x : Str) (args : List Str) (i : Io) → Rel (d x args i) (d' x args i)) where
    source_parsed-Rel :
        (i : Io) (r : Result Str Script) → Rel (source_parsed d i r) (source_parsed d' i r)
    unfolding source_parsed execute_script
    source_parsed-Rel i (err m) = complain-Alike i _ failure
    source_parsed-Rel i (ok script) = execute_commands-Rel s d d' h success script i

    source_text-Rel :
        (i : Io) (r : Option Str) → Rel (source_text parse d i r) (source_text parse d' i r)
    unfolding source_text
    source_text-Rel i none = complain-Alike i _ failure
    source_text-Rel i (some src) = source_parsed-Rel i (parse src)

    source_bytes-Rel :
        (path : Str) (i : Io) (r : Result VfsError (List ℕ))
        → Rel (source_bytes parse d path i r) (source_bytes parse d' path i r)
    unfolding source_bytes
    source_bytes-Rel path i (err e) = complain-Alike i _ failure
    source_bytes-Rel path i (ok bytes) = source_text-Rel i (from_utf8 bytes)

    source_path-Rel :
        (i : Io) (r : Option Str) → Rel (source_path parse d i r) (source_path parse d' i r)
    unfolding source_path
    source_path-Rel i none = complain-Alike i _ failure
    source_path-Rel i (some path) =
        of_bind (resolve-Alike s path)
          (λ resolved. of_bind (of_with_fs _) (source_bytes-Rel path i))

    xargs_tokens-Rel :
        (args : List Str) (i : Io) (ts : List Str)
        → Rel (xargs_tokens d args i ts) (xargs_tokens d' args i ts)
    unfolding xargs_tokens
    xargs_tokens-Rel args i [] = return-Alike s success
    xargs_tokens-Rel args i (t ∷ ts) = h _ _ _

    some-OptRel : {run run' : Exec W ExitCode} → Rel run run' → OptRel s (some run) (some run')
    unfolding or_else_run
    some-OptRel r = record { otherwise = λ p. r }

    if-OptRel :
        (b : Bool) {o o' n n' : Option (Exec W ExitCode)}
        → OptRel s o o'
        → OptRel s n n'
        → OptRel s (if b then o else n) (if b then o' else n')
    if-OptRel true p q = p
    if-OptRel false p q = q

    none-OptRel : OptRel s none none
    unfolding or_else_run
    none-OptRel = record { otherwise = λ p. p }

    dispatch_builtin-Rel :
        (x : Str) (args : List Str) (i : Io)
        → OptRel s (dispatch_builtin parse d x args i) (dispatch_builtin parse d' x args i)
    unfolding dispatch_builtin source xargs
    dispatch_builtin-Rel x args i =
        if-OptRel (str_eq x (codes "exit"))
          (some-OptRel (of_value (λ sh. err (exit (exit_code (get_elem? args 1))))))
          (if-OptRel (str_eq x (codes "source") || str_eq x (codes "."))
            (some-OptRel (source_path-Rel i (get_elem? args 1)))
            (if-OptRel (str_eq x (codes "xargs"))
              (some-OptRel (
                xargs_tokens-Rel args i
                  (split_words is_whitespace (from_utf8_lossy (read_to_end i.stdin)))))
              (if-OptRel (str_eq x (codes "which")) (some-OptRel (which-Alike args i)) (
                if-OptRel (str_eq x (codes "type")) (some-OptRel (type-Alike args i))
                  none-OptRel))))

  pub dispatch-Rel :
      (parse : Str → Result Str Script) (n n' : ℕ)
      → ((x : Str) (args : List Str) (i : Io)
          → Rel (run_registered {W = W} x args i) (run_registered x args i))
      → ((x : Str) (args : List Str) (i : Io)
          → Rel (dispatch {W = W} parse n x args i) (dispatch parse n' x args i))
      → (x : Str) (args : List Str) (i : Io)
      → Rel (dispatch {W = W} parse (suc n) x args i) (dispatch parse (suc n') x args i)
  unfolding dispatch
  dispatch-Rel parse n n' registered h x args i =
      (dispatch_builtin-Rel parse (dispatch parse n) (dispatch parse n') h x args i).otherwise
        (registered x args i)
