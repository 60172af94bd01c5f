-- ===== src/Shell/Builtins/Register.antt =====
-- `register` in crates/wasm_shell/src/builtins.rs: the paths of the programs that are modelled.
use wasm_shell.Base.{List, [], ◌∷◌, Str, codes}
use wasm_shell.Shell.State.{Program}
use wasm_shell.Shell.Builtins.Env.{
  program, builtin_cd, builtin_pwd, builtin_env, builtin_export, builtin_unset, builtin_echo,
  builtin_true, builtin_false, builtin_alias, builtin_unalias,
}
use wasm_shell.Shell.Builtins.Condition.{builtin_test}

-- Environment
abbrev pub environment_programs : {W : Type 0} → List (Str × Program W)
environment_programs =
    (codes "/usr/bin/cd", program builtin_cd)
    ∷ (codes "/usr/bin/pwd", program builtin_pwd)
    ∷ (codes "/usr/bin/env", program builtin_env)
    ∷ (codes "/usr/bin/export", program builtin_export)
    ∷ (codes "/usr/bin/unset", program builtin_unset)
    ∷ (codes "/usr/bin/echo", program builtin_echo)
    ∷ []

abbrev pub condition_programs : {W : Type 0} → List (Str × Program W)
condition_programs =
    (codes "/usr/bin/true", program builtin_true)
    ∷ (codes "/usr/bin/false", program builtin_false)
    ∷ (codes "/usr/bin/test", program builtin_test)
    ∷ []

abbrev pub alias_programs : {W : Type 0} → List (Str × Program W)
alias_programs =
    (codes "/usr/bin/alias", program builtin_alias)
    ∷ (codes "/usr/bin/unalias", program builtin_unalias)
    ∷ []
