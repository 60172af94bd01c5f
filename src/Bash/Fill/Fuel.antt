-- ===== src/Bash/Fill/Fuel.antt =====
-- The fuel of `parse` in crates/bash_parser/src/parser.rs: a substitution is shorter than the text that it stands in.
use wasm_shell.Base.{
  ℕ, zero, suc, ◌+◌, ◌≤◌, ◌<◌, Bool, true, false, Option, none, some, [], ◌∷◌, Str, length, Result,
  ok, err, if◌then◌else◌, ◌≡◌, ◌≢◌, refl, ap, sym, ◌∙◌, arith, subst, All,
}
use wasm_shell.Bash.Error.{ParseError, parse_error, panic, no_fuel}
use wasm_shell.Bash.Ast.{
  Script, no_commands, next_command, Command, simple, pipeline, and_then, or_else, sequence,
  background, subshell, group, Stages, no_stages, next_stage, SimpleCommand, simple_command, Parts,
  HeredocBody, body_parts, Redirects, no_redirects, next_redirect, RedirectTarget, from_heredoc,
}
use wasm_shell.Bash.Action.{◌>>=◌, return, lift}
use wasm_shell.Bash.Action.Fuel.{Yields, Ends, Ends-bind}
use wasm_shell.Bash.Lexer.Scan.{new_lexer}
use wasm_shell.Bash.Words.{Queue, Run}
use wasm_shell.Bash.Words.Fuel.{Safe, SafeBelow}
use wasm_shell.Bash.WordParts.{parse_dq_word_parts}
use wasm_shell.Bash.WordParts.Fuel.{parse_dq_word_parts-Safe}
use wasm_shell.Bash.Parser.{Parser, new_parser}
use wasm_shell.Bash.Parser.Fuel.{QueueOk, After, Quits}
use wasm_shell.Bash.Parser.Grammar.{parse_script}
use wasm_shell.Bash.Parser.Grammar.Scripts.{parse_script-Quits}
use wasm_shell.Bash.Fill.{
  Bodies, Fill, next_body, or_literal, heredoc_parts, filled_body, fill_target, fill_redirects,
  fill_simple, fill_stages, fill_command, fill_script, fill_heredoc_bodies, finish_parse, rounds_of,
  parse, depth_of,
}

-- The bodies have at most `m` characters.
abbrev Short : ℕ → Bodies → Type 0
Short m bs = All (λ x. length x.1 ≤ m) bs

module _ (parse : Str → Run Script) (m : ℕ) (inner : SafeBelow (QueueOk m true) m parse) where
  abbrev Fills : {A : Type 0} → Fill A → Type 0
  Fills run = (bs : Bodies) → Short m bs → Ends (Short m) (λ _ s. Short m s) (run bs)

  Fills-bind :
      {A B : Type 0} (run : Fill A) (next : A → Fill B)
      → Fills run
      → ((a : A) → Fills (next a))
      → Fills (run >>= next)
  Fills-bind run next h k bs i =
      Ends-bind (Short m) (λ _ s. Short m s) (λ _ s. Short m s) (run bs) next (h bs i)
        (λ a s j. k a s j)

  or_literal-Yields :
      (body : Str) (r : Result ParseError Parts × Queue)
      → Ends (QueueOk m true) (λ _ q. QueueOk m true q) r
      → Yields (λ _. Unit) (or_literal body r.0)
  unfolding or_literal
  or_literal-Yields body (ok ps, q) h = tt
  or_literal-Yields body (err (parse_error span message), q) h = tt
  or_literal-Yields body (err panic, q) h = tt
  or_literal-Yields body (err no_fuel, q) h = h.0

  heredoc_parts-Yields :
      (body : Str) → length body ≤ m → Yields (λ _. Unit) (heredoc_parts parse body)
  unfolding heredoc_parts
  heredoc_parts-Yields body h =
      or_literal-Yields body
        (parse_dq_word_parts parse body 0 (record { bodies = []; borrowed = true }))
        (parse_dq_word_parts-Safe (QueueOk m true) parse m inner body 0 h
          (record { bodies = []; borrowed = true }) (refl, tt))

  as_body-Yields :
      (r : Result ParseError Parts)
      → Yields (λ _. Unit) r
      → Yields {A = HeredocBody} (λ _. Unit) (elim r [ ok ps ↦ ok (body_parts ps) | err e ↦ err e ])
  as_body-Yields (ok ps) h = tt
  as_body-Yields (err e) h = h

  abbrev ShortBody : Option (Bool × Str) → Type 0
  ShortBody none = Unit
  ShortBody (some x) = length x.1 ≤ m

  filled_body-Yields :
      (old : HeredocBody) (o : Option (Bool × Str))
      → ShortBody o
      → Yields (λ _. Unit) (filled_body parse old o)
  unfolding filled_body
  filled_body-Yields old none h = tt
  filled_body-Yields old (some (true, body)) h = tt
  filled_body-Yields old (some (false, body)) h =
      as_body-Yields (heredoc_parts parse body) (heredoc_parts-Yields body h)

  lift-Fills : {A : Type 0} (r : Result ParseError A) → Yields (λ _. Unit) r → Fills (lift r)
  lift-Fills (ok a) h bs i = i
  lift-Fills (err e) h bs i = (h, i)

  body-Fills :
      (old : HeredocBody)
      → Fills
          (next_body >>= λ b. lift (filled_body parse old b) >>= λ body. return (from_heredoc body))
  unfolding next_body filled_body
  body-Fills old [] i = i
  body-Fills old (x ∷ bs) (h, i) =
      Fills-bind (lift (filled_body parse old (some x))) (λ body. return (from_heredoc body))
        (lift-Fills (filled_body parse old (some x)) (filled_body-Yields old (some x) h))
        (λ body bs' j. j) bs i

  fill_target-Fills : (target : RedirectTarget) → Fills (fill_target parse target)
  unfolding fill_target
  fill_target-Fills (from_heredoc old) bs i = body-Fills old bs i
  fill_target-Fills target bs i = i

  fill_redirects-Fills : (rs : Redirects) → Fills (fill_redirects parse rs)
  unfolding fill_redirects
  fill_redirects-Fills no_redirects = λ bs i. i
  fill_redirects-Fills (next_redirect fd kind target rs) =
      Fills-bind (fill_target parse target) _ (fill_target-Fills target)
        (λ t. Fills-bind (fill_redirects parse rs) _ (fill_redirects-Fills rs) (λ more bs i. i))

  fill_simple-Fills : (sc : SimpleCommand) → Fills (fill_simple parse sc)
  unfolding fill_simple
  fill_simple-Fills (simple_command assigned n ws rs) =
      Fills-bind (fill_redirects parse rs) _ (fill_redirects-Fills rs) (λ more bs i. i)

  fill_stages-Fills : (scs : Stages) → Fills (fill_stages parse scs)
  unfolding fill_stages
  fill_stages-Fills no_stages = λ bs i. i
  fill_stages-Fills (next_stage sc scs) =
      Fills-bind (fill_simple parse sc) _ (fill_simple-Fills sc)
        (λ c. Fills-bind (fill_stages parse scs) _ (fill_stages-Fills scs) (λ more bs i. i))

  mutual
    unfolding fill_command

    fill_command-Fills : (c : Command) → Fills (fill_command parse c)
    fill_command-Fills (simple sc) =
        Fills-bind (fill_simple parse sc) _ (fill_simple-Fills sc) (λ d bs i. i)
    fill_command-Fills (pipeline scs negated) =
        Fills-bind (fill_stages parse scs) _ (fill_stages-Fills scs) (λ more bs i. i)
    fill_command-Fills (and_then a b) =
        Fills-bind (fill_command parse a) _ (fill_command-Fills a)
          (λ l. Fills-bind (fill_command parse b) _ (fill_command-Fills b) (λ r bs i. i))
    fill_command-Fills (or_else a b) =
        Fills-bind (fill_command parse a) _ (fill_command-Fills a)
          (λ l. Fills-bind (fill_command parse b) _ (fill_command-Fills b) (λ r bs i. i))
    fill_command-Fills (sequence s) =
        Fills-bind (fill_script parse s) _ (fill_script-Fills s) (λ t bs i. i)
    fill_command-Fills (background c) =
        Fills-bind (fill_command parse c) _ (fill_command-Fills c) (λ d bs i. i)
    fill_command-Fills (subshell s) =
        Fills-bind (fill_script parse s) _ (fill_script-Fills s) (λ t bs i. i)
    fill_command-Fills (group s) =
        Fills-bind (fill_script parse s) _ (fill_script-Fills s) (λ t bs i. i)

    pub fill_script-Fills : (s : Script) → Fills (fill_script parse s)
    fill_script-Fills no_commands = λ bs i. i
    fill_script-Fills (next_command c s) =
        Fills-bind (fill_command parse c) _ (fill_command-Fills c)
          (λ d. Fills-bind (fill_script parse s) _ (fill_script-Fills s) (λ t bs i. i))

-- The queue keeps its form, whatever the fill yields.
drained :
    (m : ℕ) (b : Bool) (r : Result ParseError Script × Bodies)
    → b ≡ false
    → Ends (Short m) (λ _ s. Short m s) r
    → Ends (QueueOk m b) (λ _ q. QueueOk m b q) (r.0, record { bodies = []; borrowed = false })
drained m b (ok s, bs) e h = (sym e, tt)
drained m b (err x, bs) e h = (h.0, (sym e, tt))

module _ (parse : Str → Run Script) (n m : ℕ) (b : Bool)
    (inner : b ≡ false → SafeBelow (QueueOk m true) m parse) where
  Ends-if :
      (c : Bool) (x y : Result ParseError Script × Queue)
      → (c ≡ true → Ends (QueueOk m b) (λ _ q. QueueOk m b q) x)
      → (c ≡ false → Ends (QueueOk m b) (λ _ q. QueueOk m b q) y)
      → Ends (QueueOk m b) (λ _ q. QueueOk m b q) (if c then x else y)
  Ends-if true x y h k = h refl
  Ends-if false x y h k = k refl

  fill_heredoc_bodies-Ends :
      (script : Script) (queue : Queue)
      → QueueOk m b queue
      → Ends (QueueOk m b) (λ _ q. QueueOk m b q) (fill_heredoc_bodies parse script queue)
  unfolding fill_heredoc_bodies
  fill_heredoc_bodies-Ends script queue (e, a) =
      Ends-if queue.borrowed (err panic, queue) _ (λ y. (tt, (e, a)))
        (λ y.
          let z : b ≡ false = sym e ∙ y in
          drained m b (fill_script parse script queue.bodies) z
            (fill_script-Fills parse m (inner z) script queue.bodies a))

  finish_parse-Ends :
      (r : Result ParseError Script × Parser) (p : Parser)
      → Quits n m b (λ _ s. After n m b p s) r
      → Ends (QueueOk m b) (λ _ q. QueueOk m b q) (finish_parse parse r)
  unfolding finish_parse
  finish_parse-Ends (err e, q) p h = h
  finish_parse-Ends (ok script, q) p (k, l) = fill_heredoc_bodies-Ends script q.queue k.2

-- What the bodies need over the text itself, unless they are being parsed already.
abbrev room_of : Bool → ℕ → ℕ
room_of true m = 0
room_of false m = m + 1

room_of-unborrowed : (b : Bool) (m : ℕ) → b ≡ false → room_of b m ≡ m + 1
room_of-unborrowed b m e = ap (λ c. room_of c m) e

pub parse-Safe :
    (depth m : ℕ) (b : Bool) (src : Str)
    → length src ≤ m
    → length src + room_of b m < depth
    → Safe (QueueOk m b) (parse depth src)
unfolding parse new_parser new_lexer
parse-Safe zero m b src h l q k = absurd (omega arith)
parse-Safe (suc depth) m b src h l q k =
    finish_parse-Ends (λ t r. parse depth t r) (length src) m b
      (λ e t less.
        let r = room_of-unborrowed b m e in parse-Safe depth m true t (omega arith) (omega arith))
      (parse_script (λ t r. parse depth t r) (rounds_of src) (rounds_of src) (new_parser src q))
      (new_parser src q)
      (parse_script-Quits (length src) m b h (λ t r. parse depth t r) (rounds_of src)
        (λ t less. parse-Safe depth m b t (omega arith) (omega arith)) (new_parser src q)
        (omega arith, tt, k) (omega arith))

Ends-Yields :
    (m : ℕ) (b : Bool) (r : Result ParseError Script × Queue)
    → Ends (QueueOk m b) (λ _ q. QueueOk m b q) r
    → Yields (λ _. Unit) r.0
Ends-Yields m b (ok s, q) h = tt
Ends-Yields m b (err e, q) h = h.0

-- The parser ends on every text: with as many units of fuel as twice its characters and three, or more, it
-- yields a script, an error or a panic, and never for want of fuel, in whatever way the text nests subshells,
-- quotes, command substitutions and heredocs.
pub parse-within_fuel :
    (depth : ℕ) (src : Str)
    → depth_of src ≤ depth
    → (parse depth src (record { bodies = []; borrowed = false })).0 ≢ err no_fuel
parse-within_fuel depth src h e =
    let run = parse depth src (record { bodies = []; borrowed = false }) in
    let m = length src in
    subst (λ r. Yields (λ _. Unit) r) e
      (Ends-Yields m false run (
        parse-Safe depth m false src (omega arith) (omega arith)
          (record { bodies = []; borrowed = false }) (refl, tt)))
