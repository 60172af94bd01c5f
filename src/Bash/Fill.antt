-- ===== src/Bash/Fill.antt =====
-- The end of crates/bash_parser/src/parser.rs: the bodies of the heredocs go, in the order of the text, into the
-- redirections that wait for them; and `parse` itself.
pub mod Quoted
pub mod Fuel
use wasm_shell.Base.{
  ℕ, zero, suc, ◌+◌, ◌*◌, Bool, true, false, Option, none, some, List, [], ◌∷◌, Str, Result, ok,
  err, length, if◌then◌else◌,
}
use wasm_shell.Bash.Error.{ParseError, parse_error, panic, no_fuel}
use wasm_shell.Bash.Ast.{
  Script, no_commands, next_command, Command, simple, pipeline, and_then, or_else, sequence,
  background, subshell, group, Stages, no_stages, next_stage, SimpleCommand, simple_command, Parts,
  no_parts, next_part, dq_literal, HeredocBody, raw_body, body_parts, Redirects, no_redirects,
  next_redirect, RedirectTarget, from_heredoc,
}
use wasm_shell.Bash.Action.{Action, ◌>>=◌, return, lift}
use wasm_shell.Bash.Words.{Queue, Run}
use wasm_shell.Bash.WordParts.{parse_dq_word_parts}
use wasm_shell.Bash.Parser.{Parser, new_parser}
use wasm_shell.Bash.Parser.Grammar.{parse_script}

-- The bodies that remain.
abbrev pub Bodies : Type 0
Bodies = List (Bool × Str)

abbrev pub Fill : Type 0 → Type 0
Fill A = Action Bodies A

-- `queue.next()`
pub next_body : Fill (Option (Bool × Str))
next_body [] = (ok none, [])
next_body (b ∷ bs) = (ok (some b), bs)

-- `unwrap_or_else`: text that does not parse is a literal. Panics go through.
pub or_literal : Str → Result ParseError Parts → Result ParseError Parts
or_literal body (ok ps) = ok ps
or_literal body (err (parse_error span message)) = ok (next_part (dq_literal body) no_parts)
or_literal body (err panic) = err panic
or_literal body (err no_fuel) = err no_fuel

module _ (parse : Str → Run Script) where
  -- The parts of a body, while the queue is borrowed.
  unfoldable pub heredoc_parts : Str → Result ParseError Parts
  unfolding or_literal
  heredoc_parts body =
      or_literal body (parse_dq_word_parts parse body 0 (record { bodies = []; borrowed = true })).0

  pub filled_body : HeredocBody → Option (Bool × Str) → Result ParseError HeredocBody
  unfolding heredoc_parts
  filled_body old none = ok old
  filled_body old (some (true, body)) = ok (raw_body body)
  filled_body old (some (false, body)) = elim (heredoc_parts body) [
    | ok ps ↦ ok (body_parts ps)
    | err e ↦ err e
  ]

  pub fill_target : RedirectTarget → Fill RedirectTarget
  unfolding filled_body next_body
  fill_target (from_heredoc old) =
      next_body >>= λ b. lift (filled_body old b) >>= λ body. return (from_heredoc body)
  fill_target target = return target

  pub fill_redirects : Redirects → Fill Redirects
  unfolding fill_target
  fill_redirects no_redirects = return no_redirects
  fill_redirects (next_redirect fd kind target rs) =
      let rest = fill_redirects rs in
      fill_target target >>= λ t. rest >>= λ more. return (next_redirect fd kind t more)

  -- `fill_heredocs_in_simple`
  unfoldable pub fill_simple : SimpleCommand → Fill SimpleCommand
  unfolding fill_redirects
  fill_simple (simple_command assigned n ws rs) =
      fill_redirects rs >>= λ more. return (simple_command assigned n ws more)

  pub fill_stages : Stages → Fill Stages
  unfolding fill_simple
  fill_stages no_stages = return no_stages
  fill_stages (next_stage sc scs) =
      let rest = fill_stages scs in
      fill_simple sc >>= λ c. rest >>= λ more. return (next_stage c more)

  -- `fill_heredocs_in_cmd` and `fill_heredocs_in_script`
  unfoldable mutual
    unfolding fill_simple fill_stages

    pub fill_command : Command → Fill Command
    fill_command (simple sc) = fill_simple sc >>= λ c. return (simple c)
    fill_command (pipeline scs negated) = fill_stages scs >>= λ more. return (pipeline more negated)
    fill_command (and_then a b) =
        fill_command a >>= λ l. fill_command b >>= λ r. return (and_then l r)
    fill_command (or_else a b) =
        fill_command a >>= λ l. fill_command b >>= λ r. return (or_else l r)
    fill_command (sequence s) = fill_script s >>= λ t. return (sequence t)
    fill_command (background c) = fill_command c >>= λ d. return (background d)
    fill_command (subshell s) = fill_script s >>= λ t. return (subshell t)
    fill_command (group s) = fill_script s >>= λ t. return (group t)

    pub fill_script : Script → Fill Script
    fill_script no_commands = return no_commands
    fill_script (next_command c s) =
        fill_command c >>= λ d. fill_script s >>= λ t. return (next_command d t)

  -- `fill_heredoc_bodies` drains the queue, and panics when it is borrowed already.
  unfoldable pub fill_heredoc_bodies : Script → Run Script
  unfolding fill_script
  fill_heredoc_bodies script queue =
      if queue.borrowed
      then (err panic, queue)
      else ((fill_script script queue.bodies).0, record { bodies = []; borrowed = false })

  -- The rest of `parse`; an error leaves the queue as it is.
  pub finish_parse : Result ParseError Script × Parser → Result ParseError Script × Queue
  unfolding fill_heredoc_bodies
  finish_parse (err e, p) = (err e, p.queue)
  finish_parse (ok script, p) = fill_heredoc_bodies script p.queue

-- More than the tokens of the text.
abbrev pub rounds_of : Str → ℕ
rounds_of src = length src + 2

-- `parse`, with `depth` as the fuel of the command substitutions inside one another.
unfoldable pub parse : ℕ → Str → Run Script
unfolding finish_parse
parse zero src queue = (err no_fuel, queue)
parse (suc depth) src queue =
    let inner = λ (t : Str) (q : Queue). parse depth t q in
    finish_parse inner (parse_script inner (rounds_of src) (rounds_of src) (new_parser src queue))

-- More than the depth of substitutions: one is shorter than the text around it, or than a heredoc's body in that.
abbrev pub depth_of : Str → ℕ
depth_of src = 2 * length src + 3

-- A script by itself, as a thread that has parsed nothing before sees it.
unfoldable pub parse_source : Str → Result ParseError Script
unfolding parse
parse_source src = (parse (depth_of src) src (record { bodies = []; borrowed = false })).0
