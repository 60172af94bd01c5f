-- ===== src/Shell/Session/Quoted.antt =====
-- From the text of a command to the call of its program: the lexer, the parser, the expansion and the execution.
use wasm_shell.Base.{◌≡◌, refl, ap, none, List, [], ◌∷◌, Str, ok, All, Lacks}
use wasm_shell.Base.Map.{Map, lookup}
use wasm_shell.Bash.Ast.{Script, no_commands, next_command, simple, single_quoted}
use wasm_shell.Bash.Fill.{parse_source}
use wasm_shell.Bash.Fill.Quoted.{quote_words, as_words, plain_command, parse_source-quote_words}
use wasm_shell.Shell.State.{Io, Shell, ◌>>=◌, ◌>>◌, continue_with, return, set_last_exit}
use wasm_shell.Shell.Steps.{Dispatch, run_program, expand_alias}
use wasm_shell.Shell.Exec.{expand_words, execute_simple, execute_commands, execute_script}

expand_words-as_words :
    {W : Type 0} (d : Dispatch W) (args : List Str) (sh : Shell W)
    → expand_words d (as_words args) sh ≡ (sh, ok args)
unfolding expand_words
expand_words-as_words d [] sh = refl
expand_words-as_words d (a ∷ args) sh =
    ap (λ r. continue_with r (λ rest. return (a ∷ rest))) (expand_words-as_words d args sh)

expand_alias-none :
    (aliases : Map Str) (p : Str) → lookup p aliases ≡ none → expand_alias aliases p ≡ (p, [])
unfolding expand_alias
expand_alias-none aliases p h = rw (h, expand_alias) refl

pub execute_simple-plain :
    {W : Type 0} (d : Dispatch W) (p : Str) (args : List Str) (i : Io) (sh : Shell W)
    → lookup p sh.shared.aliases ≡ none
    → execute_simple d (plain_command (single_quoted p) (as_words args)) i sh
      ≡ run_program d p (p ∷ args) [] (i, []) sh
unfolding execute_simple
execute_simple-plain d p args i sh h =
    rw (expand_alias-none sh.shared.aliases p h, expand_words-as_words d args sh) refl

-- A command line of words in single quotes, none of which holds a quote, parses, and its execution is the run
-- of the program of the first word with exactly these words as its arguments, whatever characters they hold,
-- where the first word is no alias: no word is split, expanded or taken for an operator.
pub exec-quote_words :
    {W : Type 0} (d : Dispatch W) (p : Str) (args : List Str) (i : Io) (sh : Shell W)
    → All (Lacks b'\'') (p ∷ args)
    → lookup p sh.shared.aliases ≡ none
    → (script : Script) × (parse_source (quote_words (p ∷ args)) ≡ ok script)
      × (execute_script d script i sh
          ≡ (run_program d p (p ∷ args) [] (i, []) >>= λ code. set_last_exit code >> return code)
              sh)
unfolding execute_script execute_commands
exec-quote_words d p args i sh q h = (
  next_command (simple (plain_command (single_quoted p) (as_words args))) no_commands,
  parse_source-quote_words p args q,
  rw (execute_simple-plain d p args i sh h) refl,
)
