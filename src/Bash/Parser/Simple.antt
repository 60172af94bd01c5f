-- ===== src/Bash/Parser/Simple.antt =====
-- Simple commands and redirections in crates/bash_parser/src/parser.rs.
pub mod Fuel
use wasm_shell.Base.{
  ℕ, zero, suc, ◌+◌, Bool, true, false, not, ◌&&◌, Option, none, some, [], ◌∷◌, ◌++◌, Str, codes,
  ◌==◌, str_eq, if◌then◌else◌, contains_char,
}
use wasm_shell.Base.Int.{parse_digits}
use wasm_shell.Base.Utf8.{byte_len}
use wasm_shell.Bash.Error.{ParseError, parse_error, no_fuel, Span}
use wasm_shell.Bash.Ast.{
  Script, Command, simple, SimpleCommand, simple_command, no_name, name, Assignments,
  no_assignments, next_assignment, Word, Words, no_words, next_word, no_parts, HeredocBody,
  raw_body, body_parts, Redirects, no_redirects, next_redirect, RedirectTarget, to_word, to_fd,
  close_fd, from_heredoc, RedirectKind, write, append, read, read_write, clobber,
}
use wasm_shell.Bash.Lexer.Token.{
  RedirectOp, less, greater, greater_greater, less_greater, greater_pipe, greater_amp, less_amp,
  RedirectToken, TokenKind, word, single_quote, double_quote_open, pipe, or_or, and_and, amp, semi,
  lparen, rparen, rbrace, newline, redirect, here_doc, eof, Token,
}
use wasm_shell.Bash.Lexer.Heredoc.{Pending}
use wasm_shell.Bash.Action.{◌>>=◌, ◌>>◌, return, fail, get, modify}
use wasm_shell.Bash.Names.{split_assignment}
use wasm_shell.Bash.Words.{Run}
use wasm_shell.Bash.WordParts.{parse_word_str}
use wasm_shell.Bash.Parser.{Parse, on_queue, peek, next, parse_word, debug_kind}

-- A redirection: the file descriptor, the kind and the target.
abbrev pub Redirect : Type 0
Redirect = Option ℕ × (RedirectKind × RedirectTarget)

fd_or : Option ℕ → ℕ → Option ℕ
fd_or (some n) d = some n
fd_or none d = some d

-- `str::parse::<u32>`, with an optional sign
unfoldable pub parse_u32 : Str → Option ℕ
parse_u32 [] = none
parse_u32 (c ∷ s) = parse_digits 4294967296 (if c == b'+' then s else c ∷ s)

-- The default file descriptor and the kind of an operator that takes a path.
path_operator : RedirectOp → Option (ℕ × RedirectKind)
path_operator less = some (0, read)
path_operator greater = some (1, write)
path_operator greater_greater = some (1, append)
path_operator less_greater = some (0, read_write)
path_operator greater_pipe = some (1, clobber)
path_operator greater_amp = none
path_operator less_amp = none

-- The same for one that duplicates a file descriptor.
dup_operator : RedirectOp → ℕ × RedirectKind
dup_operator less_amp = (0, read)
dup_operator op = (1, write)

module _ (parse : Str → Run Script) (fuel : ℕ) where
  dup_word : Option ℕ → RedirectKind → Parse Redirect
  dup_word fd kind = parse_word parse fuel >>= λ w. return (fd, (kind, to_word w))

  dup_target : Option ℕ → RedirectKind → Str → Parse Redirect
  unfolding parse_u32 dup_word
  dup_target fd kind w = elim (parse_u32 w) [
    | some n ↦ next >> return (fd, (kind, to_fd n))
    | none ↦ dup_word fd kind
  ]

  dup_from : Option ℕ → RedirectKind → TokenKind → Parse Redirect
  unfolding dup_target
  dup_from fd kind (word w) =
      if str_eq w (b'-' ∷ []) then (next >> return (fd, (kind, close_fd))) else dup_target fd kind w
  dup_from fd kind k = dup_word fd kind

  unfoldable pub parse_dup_redirect : Option ℕ → RedirectKind → Parse Redirect
  unfolding dup_from
  parse_dup_redirect fd kind = peek >>= λ t. dup_from fd kind t.kind

  operator_redirect : RedirectToken → Parse Redirect
  unfolding fd_or path_operator dup_operator
  operator_redirect r = elim (path_operator r.op) [
    | some (d, kind) ↦ parse_word parse fuel >>= λ w. return (fd_or r.fd d, (kind, to_word w))
    | none ↦ let (d, kind) = dup_operator r.op in parse_dup_redirect (fd_or r.fd d) kind
  ]

  -- A body until the right one is filled in.
  empty_body : Bool → HeredocBody
  empty_body quoted = if quoted then raw_body [] else body_parts no_parts

  redirect_from : Token → TokenKind → Parse Redirect
  unfolding operator_redirect empty_body fd_or
  redirect_from t (redirect r) = operator_redirect r
  redirect_from t (here_doc fd delimiter quoted strip_tabs) =
      let h : Pending = record {
        delimiter = delimiter;
        quoted = quoted;
        strip_tabs = strip_tabs;
      } in
      modify (λ p. record p { pending_heredocs = p.pending_heredocs ++ h ∷ [] })
      >> return (fd_or fd 0, (read, from_heredoc (empty_body quoted)))
  redirect_from t k = fail (parse_error t.span (codes "expected redirect operator"))

  unfoldable pub parse_redirect : Parse Redirect
  unfolding redirect_from
  parse_redirect = next >>= λ t. redirect_from t t.kind

unfoldable pub add_word : Word → Words → Words
add_word w no_words = next_word w no_words
add_word w (next_word v ws) = next_word v (add_word w ws)

add_assignment : Str → Word → Assignments → Assignments
add_assignment x w no_assignments = next_assignment x w no_assignments
add_assignment x w (next_assignment y v more) = next_assignment y v (add_assignment x w more)

add_redirect : Redirect → Redirects → Redirects
add_redirect (fd, (kind, target)) no_redirects = next_redirect fd kind target no_redirects
add_redirect r (next_redirect fd kind target rs) = next_redirect fd kind target (add_redirect r rs)

-- The name is the first word, the others are arguments.
unfoldable pub push_word : Word → SimpleCommand → SimpleCommand
unfolding add_word
push_word w (simple_command assigned no_name ws rs) = simple_command assigned (name w) ws rs
push_word w (simple_command assigned (name v) ws rs) =
    simple_command assigned (name v) (add_word w ws) rs

unfoldable pub push_redirect : Redirect → SimpleCommand → SimpleCommand
unfolding add_redirect
push_redirect r (simple_command assigned n ws rs) = simple_command assigned n ws (add_redirect r rs)

unfoldable pub push_assignment : Str → Word → SimpleCommand → SimpleCommand
unfolding add_assignment
push_assignment x w (simple_command assigned n ws rs) =
    simple_command (add_assignment x w assigned) n ws rs

unfoldable pub saw_name : SimpleCommand → Bool
saw_name (simple_command assigned no_name ws rs) = false
saw_name (simple_command assigned (name w) ws rs) = true

abbrev pub empty_command : SimpleCommand
empty_command = simple_command no_assignments no_name no_words no_redirects

-- What the loop of `parse_simple_command` does at a token.
pub data Case : Type 0 where
  ends takes_redirect refused : Case
  takes_word : Option Str → Case

unfoldable pub case_of : TokenKind → Case
case_of eof = ends
case_of newline = ends
case_of semi = ends
case_of amp = ends
case_of and_and = ends
case_of or_or = ends
case_of pipe = ends
case_of rparen = ends
case_of rbrace = ends
case_of (redirect r) = takes_redirect
case_of (here_doc fd delimiter quoted strip_tabs) = takes_redirect
case_of (word w) = takes_word (some w)
case_of (single_quote s) = takes_word none
case_of double_quote_open = takes_word none
case_of k = refused

unfoldable pub is_lparen : TokenKind → Bool
is_lparen lparen = true
is_lparen k = false

-- A name without an expansion, which a function definition may have.
unfoldable pub is_plain_name : Str → Bool
is_plain_name w =
    not (contains_char b'$' w)
    && not (contains_char b'(' w)
    && not (contains_char b'{' w)
    && not (contains_char b'`' w)

-- The check for `name()`, which looks one token ahead and goes back.
refuse_function : Span → Parse (Unit {0})
unfolding is_lparen
refuse_function span = get >>= λ saved.
    next
    >> (peek >>= λ t.
        if is_lparen t.kind
        then fail (parse_error span (codes "shell function definitions are not supported"))
        else modify (λ p. record p { peeked = saved.peeked; lexer = saved.lexer }))

check_function : Bool → Span → Option Str → Parse (Unit {0})
unfolding refuse_function is_plain_name
check_function named span none = return tt
check_function named span (some w) =
    if not named && is_plain_name w then refuse_function span else return tt

assignment_of : Bool → Option Str → Option (Str × Str)
assignment_of named none = none
assignment_of named (some w) = if named then none else split_assignment w

unexpected_in_command : Token → ParseError
unexpected_in_command t =
    parse_error t.span (codes "unexpected token " ++ (debug_kind t.kind ++ codes " in command"))

module _ (parse : Str → Run Script) (fuel : ℕ) where
  assignment_or_word : SimpleCommand → Token → Option Str → Parse SimpleCommand
  unfolding check_function assignment_of push_assignment push_word saw_name
  assignment_or_word sc t w = elim (assignment_of (saw_name sc) w) [
    | some (x, value) ↦
        next
        >> (on_queue (parse_word_str parse value (t.span.start + byte_len x + 1)) >>= λ v.
            return (push_assignment x v sc))
    | none ↦
        check_function (saw_name sc) t.span w
        >> (parse_word parse fuel >>= λ v. return (push_word v sc))
  ]

  -- A token in the loop of `parse_simple_command`, with the rest of the loop.
  at_case :
      (SimpleCommand → Parse SimpleCommand) → SimpleCommand → Token → Case → Parse SimpleCommand
  unfolding assignment_or_word parse_redirect push_redirect unexpected_in_command
  at_case again sc t ends = return sc
  at_case again sc t takes_redirect = parse_redirect parse fuel >>= λ r. again (push_redirect r sc)
  at_case again sc t (takes_word w) = assignment_or_word sc t w >>= again
  at_case again sc t refused = fail (unexpected_in_command t)

  -- The loop of `parse_simple_command`.
  unfoldable pub simple_loop : ℕ → SimpleCommand → Parse SimpleCommand
  unfolding case_of at_case
  simple_loop zero sc = fail no_fuel
  simple_loop (suc rounds) sc =
      let again = λ (more : SimpleCommand). simple_loop rounds more in
      peek >>= λ t. at_case again sc t (case_of t.kind)

  unfoldable pub parse_simple_command : Parse Command
  unfolding simple_loop
  parse_simple_command = simple_loop fuel empty_command >>= λ sc. return (simple sc)
