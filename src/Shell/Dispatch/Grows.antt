-- ===== src/Shell/Dispatch/Grows.antt =====
-- What a script cannot do, for crates/wasm_shell/src/exec.rs: take back output or change the registered programs.
use wasm_shell.Base.{
  ℕ, zero, suc, ◌≡◌, refl, sym, ◌∙◌, ap, subst, inl, inr, Option, none, some, List, [], ◌∷◌, ◌++◌,
  Str, Result, ok, err, arith, append-nil, append_assoc, get_elem?, set, Option-cases,
}
use wasm_shell.Base.Map.{Map, lookup}
use wasm_shell.Bash.Ast.{Script}
use wasm_shell.Shell.State.{
  ExitCode, success, ShellError, Io, Shared, World, Program, Shell, Exec, continue_with, contents,
  new_writer, write_to, write_all, with_fs,
}
use wasm_shell.Shell.Registry
use wasm_shell.Shell.Registry.Resolve.{resolve-find_path}
use wasm_shell.Shell.Exec.{execute_script}
use wasm_shell.Shell.Exec.Simulation.{Simulation, IsLocal, execute_commands-Rel}
use wasm_shell.Shell.Dispatch.{
  dispatch, run_registered, run_found, call_program, returned, path_var,
}
use wasm_shell.Shell.Dispatch.Related.{dispatch-Rel, not_found-Alike}

-- Every buffer is still there, and starts with what it held.
unfoldable pub Grows : List (List ℕ) → List (List ℕ) → Type 0
Grows b b' =
    (w : ℕ) (bytes : List ℕ)
    → get_elem? b w ≡ some bytes
    → (more : List ℕ) × (get_elem? b' w ≡ some (bytes ++ more))

Grows-refl : (b : List (List ℕ)) → Grows b b
unfolding Grows
Grows-refl b w bytes h = ([], h ∙ ap (λ x. some x) (sym (append-nil bytes)))

Grows-trans : (a b c : List (List ℕ)) → Grows a b → Grows b c → Grows a c
unfolding Grows
Grows-trans a b c p q w bytes h =
    let (more, e) = p w bytes h in
    let (more', e') = q w (bytes ++ more) e in
    (more ++ more', e' ∙ ap (λ x. some x) (append_assoc bytes more more'))

Grows-append : (b c : List (List ℕ)) → Grows b (b ++ c)
unfolding Grows
Grows-append [] c w bytes h = cc
Grows-append (x ∷ b) c zero bytes h = ([], h ∙ ap (λ y. some y) (sym (append-nil bytes)))
Grows-append (x ∷ b) c (suc w) bytes h = Grows-append b c w bytes h

pub Grows-set :
    (b : List (List ℕ)) (w : ℕ) (more : List ℕ) → Grows b (set b w (contents w b ++ more))
unfolding Grows contents
Grows-set [] w more v bytes h = cc
Grows-set (x ∷ b) zero more zero bytes h = (more, ground (arith, h))
Grows-set (x ∷ b) zero more (suc v) bytes h = ([], h ∙ ap (λ y. some y) (sym (append-nil bytes)))
Grows-set (x ∷ b) (suc w) more zero bytes h = ([], h ∙ ap (λ y. some y) (sym (append-nil bytes)))
Grows-set (x ∷ b) (suc w) more (suc v) bytes h = Grows-set b w more v bytes h

module _ {W : Type 0} where
  -- A program only appends to the buffers.
  unfoldable pub AppendsOnly : Program W → Type 0
  AppendsOnly p =
      (args : List Str) (i : Io) (shared : Shared) (world : World W)
      → Grows world.buffers (p args i shared world).0.1.buffers

  unfoldable pub AllAppend : Map (Program W) → Type 0
  AllAppend programs = (x : Str) (p : Program W) → lookup x programs ≡ some p → AppendsOnly p

  pub record Advances (sh sh' : Shell W) : Type 0 where
    pub grows : Grows sh.world.buffers sh'.world.buffers
    pub registry_kept : sh'.registry ≡ sh.registry

  Advances-refl : (sh : Shell W) → Advances sh sh
  Advances-refl sh = record { grows = Grows-refl _; registry_kept = refl }

  Advances-trans : (a b c : Shell W) → Advances a b → Advances b c → Advances a c
  Advances-trans a b c p q = record {
    grows = Grows-trans _ _ _ p.grows q.grows;
    registry_kept = q.registry_kept ∙ p.registry_kept;
  }

  unfoldable pub Safe : {A : Type 0} → Exec W A → Exec W A → Type 0
  Safe m m' = (sh : Shell W) → AllAppend sh.registry → Advances sh (m sh).0

  Safe-continue :
      {A B : Type 0} (sh : Shell W) (r : Shell W × Result ShellError A) (f : A → Exec W B)
      → AllAppend sh.registry
      → Advances sh r.0
      → ((a : A) (sh'' : Shell W) → AllAppend sh''.registry → Advances sh'' (f a sh'').0)
      → Advances sh (continue_with r f).0
  Safe-continue sh (sh', ok a) f all p q =
      Advances-trans sh sh' _ p (q a sh' (subst AllAppend (sym p.registry_kept) all))
  Safe-continue sh (sh', err e) f all p q = p

  local-Advances : (f : Shell W → Shell W) → IsLocal f → (sh : Shell W) → Advances sh (f sh)
  local-Advances f l sh = record {
    grows = subst (λ w. Grows sh.world.buffers w.buffers) (sym (l.world_kept sh)) (Grows-refl _);
    registry_kept = l.registry_kept sh;
  }

  Safe-Simulation : Simulation W
  unfolding Safe new_writer write_all write_to with_fs
  Safe-Simulation = record {
    Rel = Safe;
    of_value = λ f sh all. Advances-refl sh;
    of_bind = λ {A} {B} {m} {m'} {f} {f'} p q sh all. Safe-continue sh (m sh) f all (p sh all) q;
    of_read = λ h sh all. h sh sh all;
    of_modify = λ f l sh all. local-Advances f l sh;
    of_new_writer = λ sh all. record { grows = Grows-append _ _; registry_kept = refl };
    of_write_all = λ w bytes sh all. record { grows = Grows-set _ w bytes; registry_kept = refl };
    of_with_fs = λ f sh all. record { grows = Grows-refl _; registry_kept = refl };
    of_attempt = λ p sh all. p sh all;
  }

  -- A program that is resolved is registered.
  resolve-registered :
      (programs : Map (Program W)) (x path : Str) (p : Program W)
      → Registry.resolve programs x path ≡ some p
      → (y : Str) × (lookup y programs ≡ some p)
  resolve-registered programs x path p h =
      let e = resolve-find_path programs x path in
      elim (Option-cases (Registry.find_path programs x path)) [
        | inl n ↦ absurd (ground (arith, e, n, h))
        | inr (q, f) ↦ (q, ground (arith, e, f, h))
      ]

  returned-Advances :
      (sh : Shell W) (shared : Shared) (world : World W) (r : Result ShellError ExitCode)
      → Grows sh.world.buffers world.buffers
      → Advances sh (returned sh ((shared, world), r)).0
  unfolding returned
  returned-Advances sh shared world (ok code) g = record { grows = g; registry_kept = refl }
  returned-Advances sh shared world (err e) g = record { grows = g; registry_kept = refl }

  run_found-Advances :
      (o : Option (Program W)) (x : Str) (args : List Str) (i : Io) (sh : Shell W)
      → AllAppend sh.registry
      → ((p : Program W) → o ≡ some p → AppendsOnly p)
      → Advances sh (run_found o x args i sh).0
  unfolding run_found call_program AppendsOnly Safe Safe-Simulation
  run_found-Advances none x args i sh all h = not_found-Alike Safe-Simulation x i sh all
  run_found-Advances (some p) x args i sh all h =
      let r = p args i sh.shared sh.world in
      returned-Advances sh r.0.0 r.0.1 r.1 (h p refl args i sh.shared sh.world)

run_registered-Safe :
    (W : Type 0) (x : Str) (args : List Str) (i : Io)
    → Safe (run_registered {W = W} x args i) (run_registered x args i)
unfolding run_registered Safe AllAppend
run_registered-Safe W x args i sh all =
    run_found-Advances _ x args i sh all
      (λ p h. let (y, e) = resolve-registered sh.registry x (path_var sh) p h in all y p e)

dispatch-Safe :
    (W : Type 0) (parse : Str → Result Str Script) (n : ℕ) (x : Str) (args : List Str) (i : Io)
    → Safe (dispatch {W = W} parse n x args i) (dispatch parse n x args i)
unfolding dispatch Safe Safe-Simulation
dispatch-Safe W parse zero x args i sh all = Advances-refl sh
dispatch-Safe W parse (suc n) x args i sh all =
    dispatch-Rel Safe-Simulation parse n n (run_registered-Safe W) (dispatch-Safe W parse n) x args
      i sh all

-- If every registered program only appends to the buffers, then whatever script runs, and however it ends,
-- every buffer still starts with what it held, and the registered programs are the same.
pub execute_script-Advances :
    (W : Type 0) (parse : Str → Result Str Script) (n : ℕ) (script : Script) (i : Io) (sh : Shell W)
    → AllAppend sh.registry
    → Advances sh (execute_script (dispatch parse n) script i sh).0
unfolding execute_script Safe Safe-Simulation
execute_script-Advances W parse n script i sh all =
    execute_commands-Rel Safe-Simulation (dispatch parse n) (dispatch parse n)
      (dispatch-Safe W parse n) success script i sh all
