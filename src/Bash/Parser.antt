-- ===== src/Bash/Parser.antt =====
-- `Parser` in crates/bash_parser/src/parser.rs: its state, its tokens and its words.
pub mod Fuel
pub mod WordFuel
pub mod Simple
pub mod Grammar
use wasm_shell.Base.{
  ℕ, zero, suc, ◌+◌, Bool, true, false, Option, none, some, List, [], ◌∷◌, ◌++◌, Str, codes, Result,
  ok, err, if◌then◌else◌,
}
use wasm_shell.Bash.Error.{ParseError, parse_error, panic, no_fuel, Span}
use wasm_shell.Bash.Ast.{
  Script, Word, Words, Parts, concat, single_quoted, double_quoted, no_words, next_word, no_parts,
  next_part, dq_literal,
}
use wasm_shell.Bash.Lexer.Token.{
  TokenKind, word, single_quote, dq_text, double_quote_open, double_quote_close, pipe, or_or,
  and_and, amp, semi, semi_semi, lparen, rparen, lbrace, rbrace, bang, newline, redirect, here_doc,
  eof, Token,
}
use wasm_shell.Bash.Lexer.Scan.{Lexer, new_lexer}
use wasm_shell.Bash.Lexer.Next.{next_token}
use wasm_shell.Bash.Lexer.Heredoc.{Pending, collect_heredoc_bodies}
use wasm_shell.Bash.Action.{Action, ◌>>=◌, ◌>>◌, return, fail, get, modify}
use wasm_shell.Bash.Words.{Queue, Run}
use wasm_shell.Bash.WordParts.{simplify_word_parts, parse_word_str, parse_dq_word_parts}

pub record Parser : Type 0 where
  pub lexer : Lexer
  pub peeked : Option Token
  pub in_dq : Bool
  pub pending_heredocs : List Pending
  -- `HEREDOC_QUEUE`, which all the parsers of a thread share
  pub queue : Queue

unfoldable pub new_parser : Str → Queue → Parser
new_parser src queue = record {
  lexer = new_lexer src;
  peeked = none;
  in_dq = false;
  pending_heredocs = [];
  queue = queue;
}

abbrev pub Parse : Type 0 → Type 0
Parse A = Action Parser A

-- A computation on the shared queue.
unfoldable pub on_queue : {A : Type 0} → Run A → Parse A
on_queue m p = let r = m p.queue in (r.0, record p { queue = r.1 })

-- The next token of the text.
lexed : Result ParseError (Token × Lexer) → Parse Token
lexed (err e) p = (err e, p)
lexed (ok (t, l)) p = (ok t, record p { lexer = l })

peek_from : Option Token → Parse Token
unfolding lexed
peek_from (some t) = return t
peek_from none = get >>= λ p. lexed (next_token p.in_dq p.lexer) >>= λ t.
    modify (λ q. record q { peeked = some t }) >> return t

unfoldable pub peek : Parse Token
unfolding peek_from
peek = get >>= λ p. peek_from p.peeked

next_from : Option Token → Parse Token
unfolding lexed
next_from (some t) = modify (λ q. record q { peeked = none }) >> return t
next_from none = get >>= λ p. lexed (next_token p.in_dq p.lexer)

unfoldable pub next : Parse Token
unfolding next_from
next = get >>= λ p. next_from p.peeked

queued : List Pending → List Str → List (Bool × Str)
queued (h ∷ hs) (body ∷ bodies) = (h.quoted, body) ∷ queued hs bodies
queued hs bodies = []

-- The bodies join the queue; a borrowed queue panics.
push_bodies : List Pending → List Str → Parse (Unit {0})
unfolding queued
push_bodies hs bodies p = if p.queue.borrowed then (err panic, p) else (
  ok tt,
  record p { queue = record p.queue { bodies = p.queue.bodies ++ queued hs bodies } },
)

collected : Result ParseError (List Str × Lexer) → Parse (List Str)
collected (err e) p = (err e, p)
collected (ok (bodies, l)) p = (ok bodies, record p { lexer = l })

flush_pending : List Pending → Parse (Unit {0})
unfolding push_bodies collected
flush_pending [] = return tt
flush_pending (h ∷ hs) =
    modify (λ p. record p { pending_heredocs = [] })
    >> (get >>= λ p. collected (collect_heredoc_bodies (h ∷ hs) p.lexer) >>= λ bodies.
        push_bodies (h ∷ hs) bodies)

unfoldable pub flush_heredocs : Parse (Unit {0})
unfolding flush_pending
flush_heredocs = get >>= λ p. flush_pending p.pending_heredocs

unfoldable pub is_newline : TokenKind → Bool
is_newline newline = true
is_newline k = false

-- Whether a newline was skipped.
unfoldable pub skip_newlines : ℕ → Bool → Parse Bool
unfolding is_newline
skip_newlines zero any = fail no_fuel
skip_newlines (suc fuel) any =
    let more = next >> (flush_heredocs >> skip_newlines fuel true) in
    peek >>= λ t. if is_newline t.kind then more else return any

-- The name of a token's kind, as `Debug` writes a kind without data.
unfoldable pub debug_kind : TokenKind → Str
debug_kind (word s) = codes "Word"
debug_kind (single_quote s) = codes "SingleQuote"
debug_kind (dq_text s) = codes "DQText"
debug_kind double_quote_open = codes "DoubleQuoteOpen"
debug_kind double_quote_close = codes "DoubleQuoteClose"
debug_kind pipe = codes "Pipe"
debug_kind or_or = codes "OrOr"
debug_kind and_and = codes "AndAnd"
debug_kind amp = codes "Amp"
debug_kind semi = codes "Semi"
debug_kind semi_semi = codes "SemiSemi"
debug_kind lparen = codes "LParen"
debug_kind rparen = codes "RParen"
debug_kind lbrace = codes "LBrace"
debug_kind rbrace = codes "RBrace"
debug_kind bang = codes "Bang"
debug_kind newline = codes "Newline"
debug_kind (redirect r) = codes "Redirect"
debug_kind (here_doc fd delimiter quoted strip_tabs) = codes "HereDoc"
debug_kind eof = codes "Eof"

unfoldable pub append_parts : Parts → Parts → Parts
append_parts no_parts qs = qs
append_parts (next_part p ps) qs = next_part p (append_parts ps qs)

unexpected_in_quotes : Token → ParseError
unfolding debug_kind
unexpected_in_quotes t =
    parse_error t.span
      (codes "unexpected token " ++ (debug_kind t.kind ++ codes " inside double-quoted string"))

module _ (parse : Str → Run Script) (fuel : ℕ) where
  -- A token inside double quotes, with the rest of the loop.
  quoted_part : Span → Parse Parts → Token → TokenKind → Parse Parts
  unfolding append_parts unexpected_in_quotes
  quoted_part opening rest t double_quote_close = next >> return no_parts
  quoted_part opening rest t (dq_text s) =
      next >> (rest >>= λ ps. return (next_part (dq_literal s) ps))
  quoted_part opening rest t (word w) =
      next
      >> (on_queue (parse_dq_word_parts parse w t.span.start) >>= λ qs.
          rest >>= λ ps. return (append_parts qs ps))
  quoted_part opening rest t eof =
      fail (parse_error opening (codes "unterminated double-quoted string"))
  quoted_part opening rest t k = fail (unexpected_in_quotes t)

  -- The loop of `parse_double_quoted`, with the span of the opening quote.
  quoted_parts : ℕ → Span → Parse Parts
  unfolding quoted_part
  quoted_parts zero opening = fail no_fuel
  quoted_parts (suc rounds) opening =
      let rest = quoted_parts rounds opening in peek >>= λ t. quoted_part opening rest t t.kind

  unfoldable pub parse_double_quoted : Parse Word
  unfolding quoted_parts
  parse_double_quoted = peek >>= λ t. get >>= λ p.
      next
      >> (modify (λ q. record q { in_dq = true })
          >> (quoted_parts fuel t.span >>= λ ps.
              modify (λ q. record q { in_dq = p.in_dq }) >> return (double_quoted ps)))

  -- The parts of a word, which join those of the word that is parsed.
  word_to_parts : Word → Words
  word_to_parts (concat ws) = ws
  word_to_parts w = next_word w no_words

  word_from : Token → TokenKind → Parse Words
  unfolding word_to_parts
  word_from t (single_quote s) = next >> return (next_word (single_quoted s) no_words)
  word_from t double_quote_open = parse_double_quoted >>= λ w. return (next_word w no_words)
  word_from t (word w) =
      next >> (on_queue (parse_word_str parse w t.span.start) >>= λ v. return (word_to_parts v))
  word_from t k = return no_words

  -- `parse_word`, whose loop ends after one token.
  unfoldable pub parse_word : Parse Word
  unfolding word_from
  parse_word = peek >>= λ t. word_from t t.kind >>= λ ws. return (simplify_word_parts ws)
