-- ===== src/Shell/Builtins/Env/Variables.antt =====
-- `export` and `unset` in crates/wasm_shell/src/builtins.rs: what they leave in the environment.
use wasm_shell.Base.{
  ℕ, Bool, true, false, none, some, List, [], ◌∷◌, ◌++◌, Str, str_eq, if◌then◌else◌, ◌==◌, ◌≡◌,
  refl, ap, ◌∙◌, arith, Lacks,
}
use wasm_shell.Base.Map.{lookup, lookup-insert_same, lookup-remove}
use wasm_shell.Bash.Names.{split_at, cons_front}
use wasm_shell.Shell.Context.{Context, get_env, set_env, unset_env}
use wasm_shell.Shell.Builtins.Env.{
  export_pair, export_all, export_from, builtin_export, unset_all, builtin_unset, operands,
}

split_at-append_sep : (c : ℕ) (s t : Str) → Lacks c s → split_at c (s ++ c ∷ t) ≡ some (s, t)
unfolding split_at cons_front
split_at-append_sep c [] t h = ground arith
split_at-append_sep c (d ∷ s) t (h, hs) =
    let e = split_at-append_sep c s t hs in
    let n : (d == c) ≡ false = ground arith in rw (n, e, cons_front) refl

-- The name is among the names.
unfoldable pub mem : Str → List Str → Bool
mem key [] = false
mem key (name ∷ names) = if str_eq key name then true else mem key names

module _ {W : Type 0} where
  export_all-append :
      (before after : List Str) (ctx : Context W)
      → export_all (before ++ after) ctx ≡ export_all after (export_all before ctx)
  unfolding export_all
  export_all-append [] after ctx = refl
  export_all-append (arg ∷ before) after ctx =
      export_all-append before after (export_pair (split_at b'=' arg) ctx)

  export_from-append :
      (before : List Str) (arg : Str) (ctx : Context W)
      → (export_from (before ++ arg ∷ []) ctx).0 ≡ export_all (before ++ arg ∷ []) ctx
  unfolding export_from
  export_from-append [] arg ctx = refl
  export_from-append (first ∷ before) arg ctx = refl

  export_all-get_env :
      (k v : Str) (ctx : Context W)
      → Lacks b'=' k
      → get_env (export_all ((k ++ b'=' ∷ v) ∷ []) ctx) k ≡ some v
  unfolding export_all export_pair set_env get_env
  export_all-get_env k v ctx h =
      rw (split_at-append_sep b'=' k v h) (lookup-insert_same k v ctx.shared.env)

  -- After `export` with a last operand `k=v`, where the name `k` has no `=`, `k` has the value `v`, whatever
  -- characters `v` holds and whatever operands stand in front.
  pub export-get_env :
      (ctx : Context W) (name k v : Str) (before : List Str)
      → Lacks b'=' k
      → ctx.args ≡ name ∷ before ++ (k ++ b'=' ∷ v) ∷ []
      → get_env (builtin_export ctx).0 k ≡ some v
  unfolding builtin_export operands
  export-get_env ctx name k v before h e =
      let arg = k ++ b'=' ∷ v in
      ap (λ args. get_env (export_from (operands args) ctx).0 k) e
      ∙ ap (λ c. get_env c k)
          (export_from-append before arg ctx ∙ export_all-append before (arg ∷ []) ctx)
      ∙ export_all-get_env k v (export_all before ctx) h

  unset_all-lookup :
      (names : List Str) (key : Str) (ctx : Context W)
      → lookup key (unset_all names ctx).shared.env
        ≡ (if mem key names then none else lookup key ctx.shared.env)
  unfolding unset_all mem unset_env
  unset_all-lookup [] key ctx = refl
  unset_all-lookup (name ∷ names) key ctx =
      let h = unset_all-lookup names key (unset_env ctx name) in
      let i = lookup-remove key name ctx.shared.env in ground arith

  -- After `unset` with any operands none of them has a value, and every other variable has the value that it
  -- had.
  pub unset-get_env :
      (ctx : Context W) (key : Str)
      → get_env (builtin_unset ctx).0 key
        ≡ (if mem key (operands ctx.args) then none else get_env ctx key)
  unfolding builtin_unset get_env
  unset-get_env ctx key = unset_all-lookup (operands ctx.args) key ctx
