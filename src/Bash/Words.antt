-- ===== src/Bash/Words.antt =====
-- The words of crates/bash_parser/src/parser.rs: the text of a word token as literals and expansions. The parser of a
-- whole script, which a command substitution calls, is an argument.
pub mod Fuel
use wasm_shell.Base.{
  ℕ, ◌+◌, ◌-◌, Bool, ◌&&◌, Option, none, some, List, [], ◌∷◌, Str, codes, ◌==◌, if◌then◌else◌, trim,
}
use wasm_shell.Base.Int.{is_digit}
use wasm_shell.Base.Utf8.{byte_len}
use wasm_shell.Bash.Error.{parse_error, new_span, eof_span}
use wasm_shell.Bash.Ast.{
  Script, Word, literal, variable, command_subst, arith_subst, VarExpr, simple_var,
  default_if_unset, assign_if_unset, alternate_if_set, error_if_unset, length_var, special_var,
  SpecialVar, zero_var, positional, star_var, at_var, hash_var, pid_var, last_exit_var,
  last_bg_pid_var,
}
use wasm_shell.Bash.Lexer.Scan.{at, skip_while, slice}
use wasm_shell.Bash.Lexer.Word.{is_name_char}
use wasm_shell.Bash.Action.{Action, ◌>>=◌, return, fail, lift}
use wasm_shell.Bash.Names.{split_at, is_valid_name, find_var_operator, extract_balanced}

-- `HEREDOC_QUEUE`: the bodies with whether each is quoted, and whether it is borrowed.
pub record Queue : Type 0 where
  pub bodies : List (Bool × Str)
  pub borrowed : Bool

abbrev pub Run : Type 0 → Type 0
Run A = Action Queue A

-- The variable of a single character behind `$`.
unfoldable pub special_of : ℕ → Option SpecialVar
special_of c =
    if is_digit c
    then some (if c == b'0' then zero_var else positional (c - b'0'))
    else if c == b'*'
    then some star_var
    else if c == b'@'
    then some at_var
    else if c == b'#'
    then some hash_var
    else if c == b'$'
    then some pid_var
    else if c == b'?'
    then some last_exit_var
    else if c == b'!'
    then some last_bg_pid_var
    else none

name_after_dollar : Str → Word × ℕ
name_after_dollar [] = (literal (codes "$"), 1)
name_after_dollar (c ∷ s) = (variable (simple_var (c ∷ s)), 1 + byte_len (c ∷ s))

-- The expression of an operator, and how many bytes the operator takes; the text behind it.
operator_of : Str → ℕ × (ℕ × Str)
operator_of [] = (0, (0, []))
operator_of (c ∷ []) = (c, (1, []))
operator_of (c ∷ (d ∷ s)) = if c == b':' then (d, (2, s)) else (c, (1, d ∷ s))

operation : ℕ → Str → Word → VarExpr
operation op name w =
    if op == b'-'
    then default_if_unset name w
    else if op == b'='
    then assign_if_unset name w
    else if op == b'+'
    then alternate_if_set name w
    else error_if_unset name w

length_name : Str → Option Str
length_name [] = none
length_name (c ∷ s) = if c == b'#' && is_valid_name s then some s else none

module _ (parse : Str → Run Script) where
  -- Behind a backtick: the script, and the bytes with the closing one.
  unfoldable pub parse_backtick : Str → ℕ → Run (Script × ℕ)
  parse_backtick s base = elim (split_at b'`' s) [
    | none ↦ fail (
        parse_error (eof_span (base + byte_len s))
          (codes "unterminated backtick command substitution"))
    | some (text, after) ↦ parse (trim text) >>= λ script. return (script, byte_len text + 1)
  ]

  -- The operator forms, with the parser of the operator's word.
  brace_operator : (Str → ℕ → Run Word) → ℕ → Str → Run VarExpr
  unfolding operator_of operation
  brace_operator words base inner = elim (find_var_operator inner) [
    | none ↦ return (simple_var inner)
    | some (name, from) ↦
        let (op, (width, text)) = operator_of from in
        words text (base + byte_len name + width) >>= λ w. return (operation op name w)
  ]

  brace_expr : (Str → ℕ → Run Word) → ℕ → Str → Run VarExpr
  unfolding brace_operator length_name
  brace_expr words base [] =
      fail (parse_error (new_span base 1) (codes "empty variable expression `${}`"))
  brace_expr words base (c ∷ s) = elim (length_name (c ∷ s)) [
    | some name ↦ return (length_var name)
    | none ↦ brace_operator words base (c ∷ s)
  ]

  -- Behind `${`: the expression, and the bytes up to the first `}`.
  unfoldable pub parse_brace_var : (Str → ℕ → Run Word) → Str → ℕ → Run (VarExpr × ℕ)
  unfolding brace_expr
  parse_brace_var words s base = elim (split_at b'}' s) [
    | none ↦ fail (parse_error (eof_span (base + byte_len s)) (codes "unclosed `${`"))
    | some (inner, after) ↦ brace_expr words base inner >>= λ e. return (e, byte_len inner)
  ]

  -- Behind `$((`, and behind `$(`
  arith_paren : Str → ℕ → Run (Word × ℕ)
  arith_paren s base = lift (extract_balanced s b'(' b')' (base + 3) (codes "))")) >>= λ (inner, n).
      return (arith_subst inner, 3 + n)

  command_paren : Str → ℕ → Run (Word × ℕ)
  command_paren s base =
      lift (extract_balanced s b'(' b')' (base + 2) (codes ")")) >>= λ (inner, n).
      parse (trim inner) >>= λ script. return (command_subst script, 2 + n)

  parse_paren : Str → ℕ → Run (Word × ℕ)
  unfolding arith_paren command_paren
  parse_paren [] base = command_paren [] base
  parse_paren (c ∷ s) base = if c == b'(' then arith_paren s base else command_paren (c ∷ s) base

  variable_name : Str → Str
  variable_name s = slice (at 0 s) (skip_while is_name_char 0 s)

  special_or_name : Str → Option SpecialVar → Run (Word × ℕ)
  unfolding name_after_dollar variable_name
  special_or_name s (some v) = return (variable (special_var v), 2)
  special_or_name s none = return (name_after_dollar (variable_name s))

  -- Behind `$`: the expansion, and the bytes with the `$`.
  unfoldable pub parse_dollar : (Str → ℕ → Run Word) → Str → ℕ → Run (Word × ℕ)
  unfolding parse_paren parse_brace_var special_or_name special_of
  parse_dollar words [] base = return (literal (codes "$"), 1)
  parse_dollar words (c ∷ s) base =
      if c == b'('
      then parse_paren s base
      else if c == b'{'
      then (parse_brace_var words s (base + 2) >>= λ (e, n). return (variable e, 2 + n + 1))
      else special_or_name (c ∷ s) (special_of c)
