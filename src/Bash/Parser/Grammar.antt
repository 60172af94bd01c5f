-- ===== src/Bash/Parser/Grammar.antt =====
-- The grammar in crates/bash_parser/src/parser.rs, from a list of commands to a single one. The script inside a
-- subshell or a group is an argument, and `fuel` bounds the rounds of each loop.
pub mod Steps
pub mod Fuel
pub mod Pipelines
pub mod Items
pub mod Scripts
use wasm_shell.Base.{
  ℕ, zero, suc, Bool, true, false, Str, codes, str_eq, if◌then◌else◌, ◌||◌, Option, none, some,
}
use wasm_shell.Bash.Error.{parse_error, no_fuel, Span, eof_span}
use wasm_shell.Bash.Ast.{
  Script, no_commands, next_command, Command, simple, pipeline, and_then, or_else, background,
  subshell, group, SimpleCommand, Stages, no_stages, next_stage,
}
use wasm_shell.Bash.Lexer.Token.{
  TokenKind, word, pipe, or_or, and_and, amp, semi, lparen, rparen, lbrace, rbrace, bang, eof,
  Token,
}
use wasm_shell.Bash.Action.{◌>>=◌, ◌>>◌, return, fail, get}
use wasm_shell.Bash.Words.{Run}
use wasm_shell.Bash.Parser.{Parse, peek, next, skip_newlines}
use wasm_shell.Bash.Parser.Simple.{parse_simple_command}

-- The kinds of token that the grammar asks for.
unfoldable pub is_amp : TokenKind → Bool
is_amp amp = true
is_amp k = false

unfoldable pub is_semi : TokenKind → Bool
is_semi semi = true
is_semi k = false

unfoldable pub is_bang : TokenKind → Bool
is_bang bang = true
is_bang k = false

unfoldable pub is_pipe : TokenKind → Bool
is_pipe pipe = true
is_pipe k = false

unfoldable pub ends_script : TokenKind → Bool
ends_script eof = true
ends_script rparen = true
ends_script rbrace = true
ends_script k = false

unfoldable pub skip_list_separator : Parse Bool
unfolding is_semi
skip_list_separator = peek >>= λ t. if is_semi t.kind then next >> return true else return false

-- The construct that a first word starts, if it is one that is not supported.
unfoldable pub unsupported : Str → Option Str
unsupported w =
    if str_eq w (codes "if")
    then some (codes "if statements are not supported — use && / || for conditionals")
    else if str_eq w (codes "for") || str_eq w (codes "while") || str_eq w (codes "until")
    then some (codes "loops are not supported in this shell")
    else if str_eq w (codes "case")
    then some (codes "case statements are not supported")
    else if str_eq w (codes "select")
    then some (codes "select is not supported")
    else none

pub command_to_simple : Command → Parse SimpleCommand
command_to_simple (simple sc) = return sc
command_to_simple c = get >>= λ p. fail (
    parse_error (eof_span p.lexer.pos)
      (codes "only simple commands are supported as pipeline stages"))

-- A pipeline of one stage; `!` before another command than a simple one has no effect.
unfoldable pub single_stage : Bool → Command → Command
single_stage true (simple sc) = pipeline (next_stage sc no_stages) true
single_stage negated c = c

close_subshell : Span → Token → TokenKind → Parse (Unit {0})
close_subshell start t rparen = next >> return tt
close_subshell start t eof = fail (parse_error start (codes "unclosed subshell, missing `)`"))
close_subshell start t k = fail (parse_error t.span (codes "expected `)` to close subshell"))

close_group : Span → Token → TokenKind → Parse (Unit {0})
close_group start t rbrace = next >> return tt
close_group start t eof = fail (parse_error start (codes "unclosed group, missing `}`"))
close_group start t k = fail (parse_error t.span (codes "expected `}` to close group"))

module _ (parse : Str → Run Script) (fuel : ℕ) (inner : Parse Script) where
  unfoldable pub parse_subshell : Parse Command
  unfolding close_subshell
  parse_subshell = peek >>= λ opening.
      next
      >> (skip_newlines fuel false
          >> (inner >>= λ body.
              peek >>= λ t. close_subshell opening.span t t.kind >> return (subshell body)))

  unfoldable pub parse_group : Parse Command
  unfolding close_group skip_list_separator
  parse_group = peek >>= λ opening.
      next
      >> (skip_newlines fuel false
          >> (inner >>= λ body.
              skip_list_separator
              >> (skip_newlines fuel false
                  >> (peek >>= λ t. close_group opening.span t t.kind >> return (group body)))))

  -- A command that starts with a word.
  command_of_word : Span → Option Str → Parse Command
  command_of_word span none = parse_simple_command parse fuel
  command_of_word span (some message) = fail (parse_error span message)

  command_from : Token → TokenKind → Parse Command
  unfolding parse_subshell parse_group command_of_word unsupported
  command_from t lparen = parse_subshell
  command_from t lbrace = parse_group
  command_from t (word w) = command_of_word t.span (unsupported w)
  command_from t k = parse_simple_command parse fuel

  unfoldable pub parse_command : Parse Command
  unfolding command_from
  parse_command = peek >>= λ t. command_from t t.kind

  -- The stages behind the first.
  unfoldable pub more_stages : ℕ → Parse Stages
  unfolding is_pipe parse_command command_to_simple
  more_stages zero = fail no_fuel
  more_stages (suc rounds) =
      let rest = more_stages rounds in
      let stage =
        next
        >> (skip_newlines fuel false
            >> (parse_command >>= λ c.
                command_to_simple c >>= λ sc. rest >>= λ scs. return (next_stage sc scs))) in
      peek >>= λ t. if is_pipe t.kind then stage else return no_stages

  unfoldable pub parse_pipeline : Bool → Parse Command
  unfolding is_pipe parse_command command_to_simple more_stages single_stage
  parse_pipeline negated = parse_command >>= λ first. peek >>= λ t.
      if is_pipe t.kind
      then (command_to_simple first >>= λ sc.
          more_stages fuel >>= λ scs. return (pipeline (next_stage sc scs) negated))
      else return (single_stage negated first)

  unfoldable pub parse_pipeline_cmd : Parse Command
  unfolding is_bang parse_pipeline
  parse_pipeline_cmd =
      peek >>= λ t. if is_bang t.kind then next >> parse_pipeline true else parse_pipeline false

  -- The operand behind `&&` or `||`.
  pub right_operand : Parse Command
  unfolding parse_pipeline_cmd
  right_operand = next >> (skip_newlines fuel false >> parse_pipeline_cmd)

  pub joined : Command → (Command → Parse Command) → TokenKind → Parse Command
  unfolding right_operand
  joined left again and_and = right_operand >>= λ right. again (and_then left right)
  joined left again or_or = right_operand >>= λ right. again (or_else left right)
  joined left again k = return left

  -- The loop of `parse_list_item`, with what stands on the left.
  unfoldable pub and_or_loop : ℕ → Command → Parse Command
  unfolding joined
  and_or_loop zero left = fail no_fuel
  and_or_loop (suc rounds) left =
      let again = λ (c : Command). and_or_loop rounds c in peek >>= λ t. joined left again t.kind

  unfoldable pub parse_list_item : Parse Command
  unfolding parse_pipeline_cmd and_or_loop is_amp
  parse_list_item = parse_pipeline_cmd >>= λ first. and_or_loop fuel first >>= λ left.
      peek >>= λ t. if is_amp t.kind then next >> return (background left) else return left

module _ (parse : Str → Run Script) (fuel : ℕ) where
  -- The loop of `parse_script`, in which a subshell or a group takes a unit of its fuel.
  unfoldable pub script_loop : ℕ → Parse Script
  unfolding ends_script parse_list_item skip_list_separator
  script_loop zero = fail no_fuel
  script_loop (suc rounds) =
      let rest = script_loop rounds in
      let inner = skip_newlines fuel false >> rest in
      let items = parse_list_item parse fuel inner >>= λ c.
      skip_list_separator
      >> (skip_newlines fuel false >> (rest >>= λ cs. return (next_command c cs))) in
      peek >>= λ t. if ends_script t.kind then return no_commands else items

  unfoldable pub parse_script : ℕ → Parse Script
  unfolding script_loop
  parse_script rounds = skip_newlines fuel false >> script_loop rounds
