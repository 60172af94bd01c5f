-- ===== src/Shell/Exec.antt =====
-- Expansion of words and execution of commands: crates/wasm_shell/src/expand.rs, lines 1 to 179, and exec.rs, lines
-- 14 to 346. Both recurse on the syntax; `dispatch`, which may run another script, is an argument.
pub mod Simulation
pub mod Control
pub mod Scope
pub mod Redirect
use wasm_shell.Base.{ℕ, ◌+◌, Bool, true, false, List, [], ◌∷◌, ◌++◌, Str, ok, if◌then◌else◌}
use wasm_shell.Base.Int.{is_zero, show_ℕ}
use wasm_shell.Base.Utf8.{into_bytes}
use wasm_shell.Base.Utf8.{byte_len}
use wasm_shell.Vfs.Ops
use wasm_shell.Shell.Arith
use wasm_shell.Bash.Ast.{
  RedirectKind, read, Command, simple, pipeline, and_then, or_else, sequence, background, subshell,
  group, Script, no_commands, next_command, Stages, no_stages, next_stage, SimpleCommand,
  simple_command, no_name, name, Assignments, no_assignments, next_assignment, Word, literal,
  single_quoted, double_quoted, variable, command_subst, arith_subst, heredoc, concat, Words,
  no_words, next_word, DqPart, dq_literal, dq_variable, dq_command_subst, dq_arith_subst, Parts,
  no_parts, next_part, VarExpr, simple_var, default_if_unset, assign_if_unset, alternate_if_set,
  error_if_unset, length_var, special_var, HeredocBody, raw_body, body_parts, Redirects,
  no_redirects, next_redirect, RedirectTarget, to_word, to_fd, close_fd, from_heredoc,
}
use wasm_shell.Shell.State.{
  ExitCode, success, io, new_reader, Io, Exec, ◌>>=◌, ◌>>◌, return, fail, modify, get_env, set_env,
  set_last_exit, resolve, new_writer, bytes_of,
}
use wasm_shell.Shell.Steps.{
  DeferredWrite, Dispatch, Saved, captured_text, duplicate_fd, exec_capture, expand_alias,
  expand_arith, expand_literal, expand_special, fd_of, is_unset, negated_code, no_more, or_empty,
  redirect_path, unset_message, run_program,
}

module _ {W : Type 0} (dispatch : Dispatch W) where
  unfoldable mutual
    unfolding expand_special expand_literal expand_arith captured_text unset_message no_more
        exec_capture redirect_path run_program expand_alias is_unset or_empty fd_of duplicate_fd
        negated_code

    pub expand_word : Word → Exec W Str
    expand_word (literal s) = expand_literal s
    expand_word (single_quoted s) = return s
    expand_word (double_quoted parts) = expand_parts parts
    expand_word (variable x) = expand_var x
    expand_word (command_subst s) =
        exec_capture (λ i. execute_commands success s i) >>= λ bytes. return (captured_text bytes)
    expand_word (arith_subst expr) = expand_arith expr
    expand_word (heredoc h) = expand_heredoc h
    expand_word (concat ws) = expand_concat ws

    pub expand_concat : Words → Exec W Str
    expand_concat no_words = return []
    expand_concat (next_word w ws) =
        expand_word w >>= λ s. expand_concat ws >>= λ t. return (s ++ t)

    pub expand_words : Words → Exec W (List Str)
    expand_words no_words = return []
    expand_words (next_word w ws) = expand_word w >>= λ s. expand_words ws >>= λ t. return (s ∷ t)

    pub expand_dq_part : DqPart → Exec W Str
    expand_dq_part (dq_literal s) = return s
    expand_dq_part (dq_variable x) = expand_var x
    expand_dq_part (dq_command_subst s) =
        exec_capture (λ i. execute_commands success s i) >>= λ bytes. return (captured_text bytes)
    expand_dq_part (dq_arith_subst expr) = expand_arith expr

    pub expand_parts : Parts → Exec W Str
    expand_parts no_parts = return []
    expand_parts (next_part p ps) =
        expand_dq_part p >>= λ s. expand_parts ps >>= λ t. return (s ++ t)

    pub expand_var : VarExpr → Exec W Str
    expand_var (simple_var x) = get_env x >>= λ val. return (or_empty val)
    expand_var (default_if_unset x w) =
        get_env x >>= λ val. if is_unset val then expand_word w else return (or_empty val)
    expand_var (assign_if_unset x w) = get_env x >>= λ val.
        if is_unset val
        then (expand_word w >>= λ s. set_env x s >> return s)
        else return (or_empty val)
    expand_var (alternate_if_set x w) =
        get_env x >>= λ val. if is_unset val then return [] else expand_word w
    expand_var (error_if_unset x w) = get_env x >>= λ val.
        if is_unset val
        then (expand_word w >>= λ s. fail (io (unset_message x s)))
        else return (or_empty val)
    expand_var (length_var x) = get_env x >>= λ val. return (show_ℕ (byte_len (or_empty val)))
    expand_var (special_var x) = λ sh. (sh, ok (expand_special x sh))

    pub expand_heredoc : HeredocBody → Exec W Str
    expand_heredoc (raw_body s) = return s
    expand_heredoc (body_parts ps) = expand_parts ps

    -- The assignments in front of a command, and what they replaced; `named` is whether there is a command's name.
    pub assign : Bool → Assignments → Exec W Saved
    assign named no_assignments = return []
    assign named (next_assignment x w rest) = expand_word w >>= λ value. get_env x >>= λ old.
        set_env x value
        >> (assign named rest >>= λ saved. return (if named then (x, old) ∷ saved else saved))

    -- The rest of `execute_script` and of the loop of a sequence, with the code that it has.
    pub execute_commands : ExitCode → Script → Io → Exec W ExitCode
    execute_commands code no_commands i = return code
    execute_commands code (next_command c s) i =
        execute_command c i >>= λ code'. set_last_exit code' >> execute_commands code' s i

    pub execute_command : Command → Io → Exec W ExitCode
    execute_command (simple c) i = execute_simple c i
    execute_command (pipeline stages negated) i =
        execute_stages success stages i >>= λ code. return (negated_code negated code)
    execute_command (and_then left right) i = execute_command left i >>= λ code.
        set_last_exit code >> (if is_zero code then execute_command right i else return code)
    execute_command (or_else left right) i = execute_command left i >>= λ code.
        set_last_exit code >> (if is_zero code then return code else execute_command right i)
    execute_command (sequence s) i = execute_commands success s i
    execute_command (background c) i = execute_command c i
    execute_command (subshell s) i = λ sh.
        (execute_commands success s i >>= λ code.
        modify (λ sh'. record sh' {
          shared = record sh'.shared { env = sh.shared.env; cwd = sh.shared.cwd };
        })
        >> return code)
          sh
    execute_command (group s) i = execute_commands success s i

    -- The stages that are left, the bundle's input being the first one's.
    pub execute_stages : ExitCode → Stages → Io → Exec W ExitCode
    execute_stages code no_stages i = return code
    execute_stages code (next_stage c rest) i =
        (if no_more rest then return i.stdout else new_writer) >>= λ out.
        execute_simple c (record i { stdout = out }) >>= λ code'.
        set_last_exit code'
        >> (bytes_of out >>= λ bytes.
            execute_stages code' rest (record i { stdin = new_reader bytes }))

    pub execute_simple : SimpleCommand → Io → Exec W ExitCode
    execute_simple (simple_command assignments no_name _ _) i =
        assign false assignments >>= λ saved. return success
    execute_simple (simple_command assignments (name w) args redirects) i =
        assign true assignments >>= λ saved. expand_word w >>= λ raw_name sh.
        (let c = expand_alias sh.shared.aliases raw_name in
            expand_words args >>= λ rest.
            apply_redirections redirects i []
            >>= run_program dispatch c.0 (c.0 ∷ c.1 ++ rest) saved)
          sh

    pub apply_redirections : Redirects → Io → List DeferredWrite → Exec W (Io × List DeferredWrite)
    apply_redirections no_redirects i deferred = return (i, deferred)
    apply_redirections (next_redirect fd kind target rest) i deferred =
        apply_redirect kind (fd_of fd kind) target i deferred >>= λ r.
        apply_redirections rest r.0 r.1

    pub apply_redirect :
        RedirectKind
        → ℕ
        → RedirectTarget
        → Io
        → List DeferredWrite
        → Exec W (Io × List DeferredWrite)
    apply_redirect kind fd (to_word w) i deferred =
        expand_word w >>= resolve >>= λ path. redirect_path kind fd path i deferred
    apply_redirect kind fd (to_fd target) i deferred = return (duplicate_fd i fd target, deferred)
    apply_redirect kind fd close_fd i deferred = return (i, deferred)
    apply_redirect read fd (from_heredoc h) i deferred = expand_heredoc h >>= λ body.
        return (record i { stdin = new_reader (into_bytes body) }, deferred)
    apply_redirect kind fd (from_heredoc h) i deferred = return (i, deferred)

  unfoldable pub execute_script : Script → Io → Exec W ExitCode
  unfolding execute_commands
  execute_script s i = execute_commands success s i
