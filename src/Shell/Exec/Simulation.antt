-- ===== src/Shell/Exec/Simulation.antt =====
-- Runs of the same syntax with two dispatchers, for crates/wasm_shell/src/exec.rs and expand.rs: a relation of
-- computations that the primitive ones respect, and that sequencing respects, holds of the two runs.
use wasm_shell.Base.{
  ℕ, ◌≡◌, refl, Bool, true, false, none, some, List, [], ◌∷◌, Str, Result, ok, err, if◌then◌else◌,
}
use wasm_shell.Base.Int.{is_zero}
use wasm_shell.Vfs.Path.{VfsError}
use wasm_shell.Vfs.Ops.{Vfs}
use wasm_shell.Bash.Ast.{
  RedirectKind, read, Command, simple, pipeline, and_then, or_else, sequence, background, subshell,
  group, Script, no_commands, next_command, Stages, no_stages, next_stage, SimpleCommand,
  simple_command, no_name, name, Assignments, no_assignments, next_assignment, Word, literal,
  single_quoted, double_quoted, variable, command_subst, arith_subst, heredoc, concat, Words,
  no_words, next_word, DqPart, dq_literal, dq_variable, dq_command_subst, dq_arith_subst, Parts,
  no_parts, next_part, VarExpr, simple_var, default_if_unset, assign_if_unset, alternate_if_set,
  error_if_unset, length_var, special_var, HeredocBody, raw_body, body_parts, Redirects,
  no_redirects, next_redirect, RedirectTarget, to_word, to_fd, close_fd, from_heredoc,
}
use wasm_shell.Shell.State.{
  ExitCode, success, ShellError, Io, Writer, Shell, Exec, ◌>>=◌, return, modify, attempt, get_env,
  set_env, unset_env, set_last_exit, resolve, new_writer, bytes_of, with_fs, or_fail, write_all,
}
use wasm_shell.Shell.Steps.{
  run_program, Dispatch, DeferredWrite, Saved, expand_literal, expand_arith, exec_capture, restore,
  deferred_data, flush, redirect_path, no_more,
}
use wasm_shell.Shell.Exec.{
  expand_word, expand_concat, expand_words, expand_dq_part, expand_parts, expand_var,
  expand_heredoc, assign, execute_commands, execute_command, execute_stages, execute_simple,
  apply_redirections, apply_redirect,
}

-- A change that touches neither the programs nor what they share by reference.
pub record IsLocal {W : Type 0} (f : Shell W → Shell W) : Type 0 where
  pub world_kept : (sh : Shell W) → (f sh).world ≡ sh.world
  pub registry_kept : (sh : Shell W) → (f sh).registry ≡ sh.registry

pub record Simulation (W : Type 0) : Type 1 where
  pub Rel : {A : Type 0} → Exec W A → Exec W A → Type 0
  pub of_value :
      {A : Type 0} (f : Shell W → Result ShellError A) → Rel (λ sh. (sh, f sh)) (λ sh. (sh, f sh))
  pub of_bind :
      {A B : Type 0} {m m' : Exec W A} {f f' : A → Exec W B}
      → Rel m m'
      → ((a : A) → Rel (f a) (f' a))
      → Rel (m >>= f) (m' >>= f')
  pub of_read :
      {A : Type 0} {f f' : Shell W → Exec W A}
      → ((sh : Shell W) → Rel (f sh) (f' sh))
      → Rel (λ sh. f sh sh) (λ sh. f' sh sh)
  pub of_modify : (f : Shell W → Shell W) → IsLocal f → Rel (modify f) (modify f)
  pub of_new_writer : Rel new_writer new_writer
  pub of_write_all : (w : Writer) (bytes : List ℕ) → Rel (write_all w bytes) (write_all w bytes)
  pub of_with_fs :
      {A : Type 0} (f : Vfs W → Vfs W × Result VfsError A) → Rel (with_fs f) (with_fs f)
  pub of_attempt : {A : Type 0} {m m' : Exec W A} → Rel m m' → Rel (attempt m) (attempt m')

module _ {W : Type 0} (s : Simulation W) where
  open s use {Rel, of_value, of_bind, of_read, of_modify, of_new_writer, of_with_fs, of_attempt}

  pub if-Rel :
      {A : Type 0} (b : Bool) {m m' n n' : Exec W A}
      → Rel m m'
      → Rel n n'
      → Rel (if b then m else n) (if b then m' else n')
  if-Rel true p q = p
  if-Rel false p q = q

  pub return-Alike : {A : Type 0} (a : A) → Rel {A = A} (return a) (return a)
  return-Alike a = of_value (λ sh. ok a)

  pub get_env-Alike : (x : Str) → Rel (get_env x) (get_env x)
  unfolding get_env
  get_env-Alike x = of_value _

  pub resolve-Alike : (x : Str) → Rel (resolve x) (resolve x)
  unfolding resolve
  resolve-Alike x = of_value _

  pub bytes_of-Alike : (x : Writer) → Rel (bytes_of x) (bytes_of x)
  unfolding bytes_of
  bytes_of-Alike x = of_value _

  pub set_env-Alike : (x y : Str) → Rel (set_env x y) (set_env x y)
  unfolding set_env
  set_env-Alike x y = of_modify _ (record { world_kept = λ sh. refl; registry_kept = λ sh. refl })

  unset_env-Alike : (x : Str) → Rel (unset_env x) (unset_env x)
  unfolding unset_env
  unset_env-Alike x = of_modify _ (record { world_kept = λ sh. refl; registry_kept = λ sh. refl })

  pub set_last_exit-Alike : (c : ExitCode) → Rel (set_last_exit c) (set_last_exit c)
  unfolding set_last_exit
  set_last_exit-Alike c =
      of_modify _ (record { world_kept = λ sh. refl; registry_kept = λ sh. refl })

  or_fail-Alike : {A : Type 0} (r : Result VfsError A) → Rel (or_fail {W = W} r) (or_fail r)
  unfolding or_fail
  or_fail-Alike (ok a) = of_value _
  or_fail-Alike (err e) = of_value _

  expand_literal-Alike : (x : Str) → Rel (expand_literal x) (expand_literal x)
  unfolding expand_literal
  expand_literal-Alike x =
      if-Rel _ (of_bind (get_env-Alike _) (λ home. return-Alike _)) (return-Alike x)

  expand_arith-Alike : (x : Str) → Rel (expand_arith x) (expand_arith x)
  unfolding expand_arith
  expand_arith-Alike x = of_value _

  restore-Alike : (saved : Saved) → Rel (restore saved) (restore saved)
  unfolding restore
  restore-Alike [] = return-Alike tt
  restore-Alike ((x, some old) ∷ saved) = of_bind (set_env-Alike x old) (λ _. restore-Alike saved)
  restore-Alike ((x, none) ∷ saved) = of_bind (unset_env-Alike x) (λ _. restore-Alike saved)

  deferred_data-Alike : (dw : DeferredWrite) → Rel (deferred_data {W = W} dw) (deferred_data dw)
  unfolding deferred_data
  deferred_data-Alike dw =
      of_bind (bytes_of-Alike _) (λ bytes.
        if-Rel _ (of_bind (of_with_fs _) (λ existing. return-Alike _)) (return-Alike bytes))

  flush-Alike : (deferred : List DeferredWrite) → Rel (flush deferred) (flush deferred)
  unfolding flush
  flush-Alike [] = return-Alike tt
  flush-Alike (dw ∷ deferred) =
      of_bind (deferred_data-Alike dw)
        (λ bytes. of_bind (of_bind (of_with_fs _) or_fail-Alike) (λ _. flush-Alike deferred))

  redirect_path-Alike :
      (kind : RedirectKind) (fd : ℕ) (path : Str) (i : Io) (deferred : List DeferredWrite)
      → Rel (redirect_path kind fd path i deferred) (redirect_path kind fd path i deferred)
  unfolding redirect_path
  redirect_path-Alike read fd path i deferred =
      of_bind (of_bind (of_with_fs _) or_fail-Alike) (λ bytes. return-Alike _)
  redirect_path-Alike _ fd path i deferred = of_bind of_new_writer (λ buf. return-Alike _)

  capture-Rel :
      {run run' : Io → Exec W ExitCode}
      → ((i : Io) → Rel (run i) (run' i))
      → Rel (exec_capture run) (exec_capture run')
  unfolding exec_capture
  capture-Rel h =
      of_bind of_new_writer
        (λ out. of_bind of_new_writer (λ discarded. of_bind (h _) (λ code. bytes_of-Alike out)))

  module _ (d d' : Dispatch W)
      (h : (x : Str) (args : List Str) (i : Io) → Rel (d x args i) (d' x args i)) where
    run_program-Rel :
        (x : Str) (args : List Str) (saved : Saved) (r : Io × List DeferredWrite)
        → Rel (run_program d x args saved r) (run_program d' x args saved r)
    unfolding run_program
    run_program-Rel x args saved (i, deferred) = of_bind (of_attempt (h x args i)) (λ code.
        of_bind (flush-Alike deferred) (λ _. of_bind (restore-Alike saved) (λ _. of_value _)))

    mutual
      unfolding execute_commands

      expand_word-Rel : (w : Word) → Rel (expand_word d w) (expand_word d' w)
      expand_word-Rel (literal x) = expand_literal-Alike x
      expand_word-Rel (single_quoted x) = return-Alike x
      expand_word-Rel (double_quoted parts) = expand_parts-Rel parts
      expand_word-Rel (variable x) = expand_var-Rel x
      expand_word-Rel (command_subst c) =
          of_bind (capture-Rel (λ i. execute_commands-Rel success c i)) (λ bytes. return-Alike _)
      expand_word-Rel (arith_subst x) = expand_arith-Alike x
      expand_word-Rel (heredoc x) = expand_heredoc-Rel x
      expand_word-Rel (concat ws) = expand_concat-Rel ws

      expand_concat-Rel : (ws : Words) → Rel (expand_concat d ws) (expand_concat d' ws)
      expand_concat-Rel no_words = return-Alike []
      expand_concat-Rel (next_word w ws) =
          of_bind (expand_word-Rel w) (λ x. of_bind (expand_concat-Rel ws) (λ y. return-Alike _))

      expand_words-Rel : (ws : Words) → Rel (expand_words d ws) (expand_words d' ws)
      expand_words-Rel no_words = return-Alike []
      expand_words-Rel (next_word w ws) =
          of_bind (expand_word-Rel w) (λ x. of_bind (expand_words-Rel ws) (λ y. return-Alike _))

      expand_dq_part-Rel : (p : DqPart) → Rel (expand_dq_part d p) (expand_dq_part d' p)
      expand_dq_part-Rel (dq_literal x) = return-Alike x
      expand_dq_part-Rel (dq_variable x) = expand_var-Rel x
      expand_dq_part-Rel (dq_command_subst c) =
          of_bind (capture-Rel (λ i. execute_commands-Rel success c i)) (λ bytes. return-Alike _)
      expand_dq_part-Rel (dq_arith_subst x) = expand_arith-Alike x

      expand_parts-Rel : (ps : Parts) → Rel (expand_parts d ps) (expand_parts d' ps)
      expand_parts-Rel no_parts = return-Alike []
      expand_parts-Rel (next_part p ps) =
          of_bind (expand_dq_part-Rel p) (λ x. of_bind (expand_parts-Rel ps) (λ y. return-Alike _))

      expand_var-Rel : (v : VarExpr) → Rel (expand_var d v) (expand_var d' v)
      expand_var-Rel (simple_var x) = of_bind (get_env-Alike x) (λ val. return-Alike _)
      expand_var-Rel (default_if_unset x w) =
          of_bind (get_env-Alike x) (λ val. if-Rel _ (expand_word-Rel w) (return-Alike _))
      expand_var-Rel (assign_if_unset x w) = of_bind (get_env-Alike x) (λ val.
          if-Rel _
            (of_bind (expand_word-Rel w) (λ y. of_bind (set_env-Alike x y) (λ _. return-Alike y)))
            (return-Alike _))
      expand_var-Rel (alternate_if_set x w) =
          of_bind (get_env-Alike x) (λ val. if-Rel _ (return-Alike _) (expand_word-Rel w))
      expand_var-Rel (error_if_unset x w) =
          of_bind (get_env-Alike x)
            (λ val. if-Rel _ (of_bind (expand_word-Rel w) (λ y. of_value _)) (return-Alike _))
      expand_var-Rel (length_var x) = of_bind (get_env-Alike x) (λ val. return-Alike _)
      expand_var-Rel (special_var x) = of_value _

      expand_heredoc-Rel : (b : HeredocBody) → Rel (expand_heredoc d b) (expand_heredoc d' b)
      expand_heredoc-Rel (raw_body x) = return-Alike x
      expand_heredoc-Rel (body_parts ps) = expand_parts-Rel ps

      assign-Rel : (named : Bool) (a : Assignments) → Rel (assign d named a) (assign d' named a)
      assign-Rel named no_assignments = return-Alike []
      assign-Rel named (next_assignment x w rest) = of_bind (expand_word-Rel w) (λ value.
          of_bind (get_env-Alike x) (λ old.
            of_bind (set_env-Alike x value)
              (λ _. of_bind (assign-Rel named rest) (λ saved. return-Alike _))))

      pub execute_commands-Rel :
          (code : ExitCode) (c : Script) (i : Io)
          → Rel (execute_commands d code c i) (execute_commands d' code c i)
      execute_commands-Rel code no_commands i = return-Alike code
      execute_commands-Rel code (next_command c rest) i =
          of_bind (execute_command-Rel c i)
            (λ code'. of_bind (set_last_exit-Alike code') (λ _. execute_commands-Rel code' rest i))

      execute_command-Rel :
          (c : Command) (i : Io) → Rel (execute_command d c i) (execute_command d' c i)
      execute_command-Rel (simple c) i = execute_simple-Rel c i
      execute_command-Rel (pipeline stages negated) i =
          of_bind (execute_stages-Rel success stages i) (λ code. return-Alike _)
      execute_command-Rel (and_then left right) i = of_bind (execute_command-Rel left i) (λ code.
          of_bind (set_last_exit-Alike code)
            (λ _. if-Rel (is_zero code) (execute_command-Rel right i) (return-Alike code)))
      execute_command-Rel (or_else left right) i = of_bind (execute_command-Rel left i) (λ code.
          of_bind (set_last_exit-Alike code)
            (λ _. if-Rel (is_zero code) (return-Alike code) (execute_command-Rel right i)))
      execute_command-Rel (sequence c) i = execute_commands-Rel success c i
      execute_command-Rel (background c) i = execute_command-Rel c i
      execute_command-Rel (subshell c) i = of_read (λ sh.
          of_bind (execute_commands-Rel success c i) (λ code.
            of_bind (of_modify _ (record { world_kept = λ sh'. refl; registry_kept = λ sh'. refl }))
              (λ _. return-Alike code)))
      execute_command-Rel (group c) i = execute_commands-Rel success c i

      execute_stages-Rel :
          (code : ExitCode) (c : Stages) (i : Io)
          → Rel (execute_stages d code c i) (execute_stages d' code c i)
      execute_stages-Rel code no_stages i = return-Alike code
      execute_stages-Rel code (next_stage c rest) i =
          of_bind (if-Rel (no_more rest) (return-Alike _) of_new_writer) (λ out.
            of_bind (execute_simple-Rel c _) (λ code'.
              of_bind (set_last_exit-Alike code')
                (λ _. of_bind (bytes_of-Alike out) (λ bytes. execute_stages-Rel code' rest _))))

      execute_simple-Rel :
          (c : SimpleCommand) (i : Io) → Rel (execute_simple d c i) (execute_simple d' c i)
      execute_simple-Rel (simple_command a no_name _ _) i =
          of_bind (assign-Rel false a) (λ saved. return-Alike success)
      execute_simple-Rel (simple_command a (name w) args redirects) i =
          of_bind (assign-Rel true a) (λ saved. of_bind (expand_word-Rel w) (λ raw_name.
            of_read (λ sh. of_bind (expand_words-Rel args) (λ rest.
              of_bind (apply_redirections-Rel redirects i []) (run_program-Rel _ _ saved)))))

      apply_redirections-Rel :
          (r : Redirects) (i : Io) (deferred : List DeferredWrite)
          → Rel (apply_redirections d r i deferred) (apply_redirections d' r i deferred)
      apply_redirections-Rel no_redirects i deferred = return-Alike _
      apply_redirections-Rel (next_redirect fd kind target rest) i deferred =
          of_bind (apply_redirect-Rel kind _ target i deferred)
            (λ r. apply_redirections-Rel rest r.0 r.1)

      apply_redirect-Rel :
          (kind : RedirectKind) (fd : ℕ) (target : RedirectTarget) (i : Io)
          (deferred : List DeferredWrite)
          → Rel
              (apply_redirect d kind fd target i deferred)
              (apply_redirect d' kind fd target i deferred)
      apply_redirect-Rel kind fd (to_word w) i deferred =
          of_bind (of_bind (expand_word-Rel w) resolve-Alike)
            (λ path. redirect_path-Alike kind fd path i deferred)
      apply_redirect-Rel kind fd (to_fd target) i deferred = return-Alike _
      apply_redirect-Rel kind fd close_fd i deferred = return-Alike _
      apply_redirect-Rel read fd (from_heredoc b) i deferred =
          of_bind (expand_heredoc-Rel b) (λ body. return-Alike _)
      apply_redirect-Rel _ fd (from_heredoc b) i deferred = return-Alike _
