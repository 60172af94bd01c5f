-- ===== src/Shell/Exec/Control.antt =====
-- Sequencing, `&&`, `||` and `exit` in crates/wasm_shell/src/exec.rs.
use wasm_shell.Base.{◌≡◌, refl, sym, ◌∙◌, ap, Result, ok, err, Bool-cases, inl, inr}
use wasm_shell.Base.Int.{is_zero}
use wasm_shell.Bash.Ast.{
  Command, and_then, or_else, Script, no_commands, next_command, append_script,
}
use wasm_shell.Shell.State.{
  ExitCode, success, ShellError, Io, Shell, Exec, ◌>>=◌, continue_with, set_last_exit,
}
use wasm_shell.Shell.Steps.{Dispatch}
use wasm_shell.Shell.Exec.{execute_commands, execute_command, execute_script}

module _ {W : Type 0} where
  continue_assoc :
      {A B C : Type 0} (r : Shell W × Result ShellError A) (f : A → Exec W B) (g : B → Exec W C)
      → continue_with (continue_with r f) g ≡ continue_with r (λ a. f a >>= g)
  continue_assoc (sh, ok a) f g = refl
  continue_assoc (sh, err e) f g = refl

  continue_ext :
      {A B : Type 0} (r : Shell W × Result ShellError A) (f g : A → Exec W B)
      → ((a : A) (sh : Shell W) → f a sh ≡ g a sh)
      → continue_with r f ≡ continue_with r g
  continue_ext (sh, ok a) f g h = h a sh
  continue_ext (sh, err e) f g h = refl

  pub continue-eq-ok :
      {A B : Type 0} (r : Shell W × Result ShellError A) (f : A → Exec W B) {sh' : Shell W} {b : B}
      → continue_with r f ≡ (sh', ok b)
      → (sh₁ : Shell W) × (a : A) × (r ≡ (sh₁, ok a)) × (f a sh₁ ≡ (sh', ok b))
  continue-eq-ok (sh, ok a) f h = (sh, a, refl, h)
  continue-eq-ok (sh, err e) f h = cc

  pub continue_ok :
      {A B : Type 0} (r : Shell W × Result ShellError A) (f : A → Exec W B) {sh' : Shell W} {a : A}
      → r ≡ (sh', ok a)
      → continue_with r f ≡ f a sh'
  continue_ok r f h = ap (λ x. continue_with x f) h

  pub continue_err :
      {A B : Type 0} (r : Shell W × Result ShellError A) (f : A → Exec W B) {sh' : Shell W}
      {e : ShellError}
      → r ≡ (sh', err e)
      → continue_with r f ≡ (sh', err e)
  continue_err r f h = ap (λ x. continue_with x f) h

  module _ (d : Dispatch W) where
    pub execute_commands-append :
        (code : ExitCode) (s t : Script) (i : Io) (sh : Shell W)
        → execute_commands d code (append_script s t) i sh
          ≡ (execute_commands d code s i >>= λ code'. execute_commands d code' t i) sh
    unfolding execute_commands append_script
    execute_commands-append code no_commands t i sh = refl
    execute_commands-append code (next_command c s) t i sh =
        continue_ext (execute_command d c i sh) _ _ (λ code' sh'.
          continue_ext (set_last_exit code' sh') _ _
            (λ _ sh''. execute_commands-append code' s t i sh'')
          ∙ sym (
              continue_assoc (set_last_exit code' sh') (λ _. execute_commands d code' s i)
                (λ x. execute_commands d x t i)))
        ∙ sym (continue_assoc (execute_command d c i sh) _ (λ x. execute_commands d x t i))

    -- When a script ends in an error, which the `exit` command makes too, no command behind it runs: what
    -- would follow changes neither the state nor the result.
    pub execute_script-append_stops :
        (s t : Script) (i : Io) (sh sh' : Shell W) (e : ShellError)
        → execute_script d s i sh ≡ (sh', err e)
        → execute_script d (append_script s t) i sh ≡ (sh', err e)
    unfolding execute_script
    execute_script-append_stops s t i sh sh' e h =
        execute_commands-append success s t i sh
        ∙ ap (λ r. continue_with r (λ code. execute_commands d code t i)) h

    commands-last_exit :
        (code : ExitCode) (s : Script) (i : Io) (sh sh' : Shell W) (code' : ExitCode)
        → sh.last_exit ≡ code
        → execute_commands d code s i sh ≡ (sh', ok code')
        → sh'.last_exit ≡ code'
    unfolding execute_commands set_last_exit
    commands-last_exit code no_commands i sh sh' code' p h = cc
    commands-last_exit code (next_command c s) i sh sh' code' p h =
        let (sh₁, x, e, k) = continue-eq-ok (execute_command d c i sh) _ h in
        commands-last_exit x s i (record sh₁ { last_exit = x }) sh' code' refl k

    -- A script with a command in it that ends with a code leaves that code in `$?`.
    execute_script-last_exit :
        (c : Command) (s : Script) (i : Io) (sh sh' : Shell W) (code : ExitCode)
        → execute_script d (next_command c s) i sh ≡ (sh', ok code)
        → sh'.last_exit ≡ code
    unfolding execute_script execute_commands set_last_exit
    execute_script-last_exit c s i sh sh' code h =
        let (sh₁, x, e, k) = continue-eq-ok (execute_command d c i sh) _ h in
        commands-last_exit x s i (record sh₁ { last_exit = x }) sh' code refl k

    -- `(a && b) && c` and `a && (b && c)` are the same computation.
    and_then_assoc :
        (a b c : Command) (i : Io) (sh : Shell W)
        → execute_command d (and_then (and_then a b) c) i sh
          ≡ execute_command d (and_then a (and_then b c)) i sh
    unfolding execute_commands set_last_exit
    and_then_assoc a b c i sh =
        continue_assoc (execute_command d a i sh) _ _
        ∙ continue_ext (execute_command d a i sh) _ _ (λ x sh₁. elim (Bool-cases (is_zero x)) [
          | inl z ↦ rw (z) refl
          | inr z ↦ rw (z, z) refl
        ])

    -- `(a || b) || c` and `a || (b || c)` are the same computation.
    or_else_assoc :
        (a b c : Command) (i : Io) (sh : Shell W)
        → execute_command d (or_else (or_else a b) c) i sh
          ≡ execute_command d (or_else a (or_else b c)) i sh
    unfolding execute_commands set_last_exit
    or_else_assoc a b c i sh =
        continue_assoc (execute_command d a i sh) _ _
        ∙ continue_ext (execute_command d a i sh) _ _ (λ x sh₁. elim (Bool-cases (is_zero x)) [
          | inl z ↦ rw (z, z) refl
          | inr z ↦ rw (z) refl
        ])
