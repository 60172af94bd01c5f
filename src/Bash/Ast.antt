-- ===== src/Bash/Ast.antt =====
-- crates/bash_parser/src/ast.rs. A list of commands, of words and so on is a data type beside the one of its
-- elements. The delimiter, the quoting and the tabs of a heredoc, which only the parser reads, are left out.
use wasm_shell.Base.{ℕ, Bool, Option, Str}

pub data SpecialVar : Type 0 where
  zero_var star_var at_var hash_var pid_var last_exit_var last_bg_pid_var : SpecialVar
  positional : ℕ → SpecialVar

pub data RedirectKind : Type 0 where
  write append read read_write clobber : RedirectKind

mutual
  pub data Command : Type 0 where
    simple : SimpleCommand → Command
    -- the stages, and whether the pipeline is negated
    pipeline : Stages → Bool → Command
    and_then or_else : Command → Command → Command
    sequence : Script → Command
    background : Command → Command
    subshell group : Script → Command

  pub data Script : Type 0 where
    no_commands : Script
    next_command : Command → Script → Script

  pub data Stages : Type 0 where
    no_stages : Stages
    next_stage : SimpleCommand → Stages → Stages

  pub data SimpleCommand : Type 0 where
    simple_command : Assignments → OptName → Words → Redirects → SimpleCommand

  pub data OptName : Type 0 where
    no_name : OptName
    name : Word → OptName

  pub data Assignments : Type 0 where
    no_assignments : Assignments
    next_assignment : Str → Word → Assignments → Assignments

  pub data Word : Type 0 where
    literal single_quoted : Str → Word
    double_quoted : Parts → Word
    variable : VarExpr → Word
    command_subst : Script → Word
    arith_subst : Str → Word
    heredoc : HeredocBody → Word
    concat : Words → Word

  pub data Words : Type 0 where
    no_words : Words
    next_word : Word → Words → Words

  pub data DqPart : Type 0 where
    dq_literal : Str → DqPart
    dq_variable : VarExpr → DqPart
    dq_command_subst : Script → DqPart
    dq_arith_subst : Str → DqPart

  pub data Parts : Type 0 where
    no_parts : Parts
    next_part : DqPart → Parts → Parts

  pub data VarExpr : Type 0 where
    simple_var : Str → VarExpr
    default_if_unset assign_if_unset alternate_if_set error_if_unset : Str → Word → VarExpr
    length_var : Str → VarExpr
    special_var : SpecialVar → VarExpr

  pub data HeredocBody : Type 0 where
    raw_body : Str → HeredocBody
    body_parts : Parts → HeredocBody

  pub data Redirects : Type 0 where
    no_redirects : Redirects
    next_redirect : Option ℕ → RedirectKind → RedirectTarget → Redirects → Redirects

  pub data RedirectTarget : Type 0 where
    to_word : Word → RedirectTarget
    to_fd : ℕ → RedirectTarget
    close_fd : RedirectTarget
    from_heredoc : HeredocBody → RedirectTarget

-- `cmds1` followed by `cmds2`
unfoldable pub append_script : Script → Script → Script
append_script no_commands t = t
append_script (next_command c s) t = next_command c (append_script s t)
