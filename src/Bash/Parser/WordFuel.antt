-- ===== src/Bash/Parser/WordFuel.antt =====
-- The fuel of words and of double quotes, in the parser of crates/bash_parser/src/parser.rs.
use wasm_shell.Base.{
  ℕ, zero, suc, ◌≤◌, ◌<◌, Bool, true, some, Str, Result, ok, err, ◌≡◌, refl, arith, subst,
}
use wasm_shell.Bash.Error.{ParseError, Span}
use wasm_shell.Bash.Ast.{Script, Parts, next_part, dq_literal}
use wasm_shell.Bash.Lexer.Token.{
  TokenKind, word, single_quote, dq_text, double_quote_open, double_quote_close, eof, Token,
}
use wasm_shell.Bash.Action.{return}
use wasm_shell.Bash.Action.Fuel.{Ends}
use wasm_shell.Bash.Words.{Queue, Run}
use wasm_shell.Bash.Words.Fuel.{Safe, SafeBelow}
use wasm_shell.Bash.WordParts.{simplify_word_parts, parse_word_str, parse_dq_word_parts}
use wasm_shell.Bash.WordParts.Fuel.{parse_word_str-Safe, parse_dq_word_parts-Safe}
use wasm_shell.Bash.Parser.{
  Parser, Parse, on_queue, peek, append_parts, quoted_part, quoted_parts, parse_double_quoted,
  word_from, parse_word,
}
use wasm_shell.Bash.Parser.Fuel.{
  cost_of, KindShort, PeekShort, left, QueueOk, Ok, After, Quits, At, peek-Quits, peek_again,
  next-peeked, taken, taken-Ok, taken_left, Quits-bind, Quits-After, After-trans,
}

module _ (n m : ℕ) (b : Bool) where
  queue_of-Quits :
      {A : Type 0} (p : Parser) (r : Result ParseError A × Queue)
      → Ok n m b p
      → Ends (QueueOk m b) (λ _ q. QueueOk m b q) r
      → Quits n m b {A = A} (λ _ q. After n m b p q) (r.0, record p { queue = r.1 })
  queue_of-Quits p (ok a, q) (k, s, _) h = ((k, s, h), omega arith)
  queue_of-Quits p (err e, q) k h = h

  pub on_queue-Quits :
      {A : Type 0} (run : Run A) (p : Parser)
      → Ok n m b p
      → Safe (QueueOk m b) run
      → Quits n m b (λ _ q. After n m b p q) (on_queue run p)
  unfolding on_queue
  on_queue-Quits run p k h = queue_of-Quits p (run p.queue) k (h p.queue k.2)

  pub peeked_short : (p : Parser) (t : Token) → Ok n m b p → p.peeked ≡ some t → KindShort n t.kind
  peeked_short p t (k, s, q) e = subst (λ o. PeekShort n o) e s

  module _ (parse : Str → Run Script) (fuel : ℕ) (inner : SafeBelow (QueueOk m b) n parse) where
    quoted_part-Quits :
        (opening : Span) (rest : Parse Parts) (t : Token) (k : TokenKind) (q : Parser)
        → Ok n m b q
        → q.peeked ≡ some t
        → KindShort n k
        → (cost_of k ≡ 1
            → (r : Parser) → Ok n m b r
            → left r ≤ left (taken n m b q)
            → Quits n m b (λ _ s. After n m b r s) (rest r))
        → Quits n m b
            (λ _ s. After n m b (taken n m b q) s)
            (quoted_part parse fuel opening rest t k q)
    unfolding quoted_part
    quoted_part-Quits opening rest t double_quote_close q i e s h =
        rw (next-peeked n m b q t e) (taken-Ok n m b q i, omega arith)
    quoted_part-Quits opening rest t (dq_text u) q i e s h = rw (next-peeked n m b q t e) (
        Quits-bind n m b (λ _ r. After n m b (taken n m b q) r)
          (λ _ r. After n m b (taken n m b q) r) (rest (taken n m b q))
          (λ ps. return (next_part (dq_literal u) ps))
          (h refl (taken n m b q) (taken-Ok n m b q i) (omega arith)) (λ ps r j. j))
    quoted_part-Quits opening rest t (word w) q i e s h = rw (next-peeked n m b q t e) (
        Quits-bind n m b (λ _ r. After n m b (taken n m b q) r)
          (λ _ r. After n m b (taken n m b q) r)
          (on_queue (parse_dq_word_parts parse w t.span.start) (taken n m b q)) _
          (on_queue-Quits (parse_dq_word_parts parse w t.span.start) (taken n m b q)
            (taken-Ok n m b q i)
            (parse_dq_word_parts-Safe (QueueOk m b) parse n inner w t.span.start s))
          (λ qs r (j, l).
            Quits-bind n m b (λ _ u. After n m b r u) (λ _ u. After n m b (taken n m b q) u)
              (rest r) (λ ps. return (append_parts qs ps)) (h refl r j l)
              (λ ps u c. After-trans n m b (taken n m b q) r u (j, l) c)))
    quoted_part-Quits opening rest t eof q i e s h = (tt, i.2)
    quoted_part-Quits opening rest t k q i e s h = (tt, i.2)

    quoted_parts-Quits :
        (rounds : ℕ) (opening : Span) (p : Parser)
        → Ok n m b p
        → left p < rounds
        → Quits n m b (λ _ s. After n m b p s) (quoted_parts parse fuel rounds opening p)
    unfolding quoted_parts
    quoted_parts-Quits zero opening p k h = absurd (omega arith)
    quoted_parts-Quits (suc rounds) opening p k h =
        Quits-bind n m b (λ t q. At n m b p t q) (λ _ s. After n m b p s) (peek p) _
          (peek-Quits n m b p k)
          (λ t q ((i, j), e).
            let l = taken_left n m b q t e in
            Quits-After n m b p (taken n m b q) _ (taken-Ok n m b q i, omega arith)
              (quoted_part-Quits opening (quoted_parts parse fuel rounds opening) t t.kind q i e
                (peeked_short q t i e)
                (λ c r s d. quoted_parts-Quits rounds opening r s (omega arith))))

    -- At an opening quote.
    parse_double_quoted-Quits :
        (p : Parser) (t : Token)
        → Ok n m b p
        → p.peeked ≡ some t
        → left (taken n m b p) < fuel
        → Quits n m b (λ _ s. After n m b (taken n m b p) s) (parse_double_quoted parse fuel p)
    unfolding parse_double_quoted
    parse_double_quoted-Quits p t k e h =
        rw (peek_again n m b p t e, next-peeked n m b p t e)
          (Quits-bind n m b (λ _ s. After n m b (taken n m b p) s)
            (λ _ s. After n m b (taken n m b p) s)
            (quoted_parts parse fuel fuel t.span (record (taken n m b p) { in_dq = true })) _
            (quoted_parts-Quits fuel t.span (record (taken n m b p) { in_dq = true })
              (taken-Ok n m b p k) h)
            (λ ps s c. c))

    -- Behind the token that is looked at, if it makes a word.
    abbrev pub behind : TokenKind → Parser → Parser
    behind (word w) p = taken n m b p
    behind (single_quote s) p = taken n m b p
    behind double_quote_open p = taken n m b p
    behind k p = p

    word_from-Quits :
        (t : Token) (k : TokenKind) (q : Parser)
        → Ok n m b q
        → q.peeked ≡ some t
        → KindShort n k
        → (cost_of k ≡ 1 → left (taken n m b q) < fuel)
        → Quits n m b (λ _ s. After n m b (behind k q) s) (word_from parse fuel t k q)
    unfolding word_from
    word_from-Quits t (word w) q i e s h = rw (next-peeked n m b q t e) (
        Quits-bind n m b (λ _ r. After n m b (taken n m b q) r)
          (λ _ r. After n m b (taken n m b q) r)
          (on_queue (parse_word_str parse w t.span.start) (taken n m b q)) _
          (on_queue-Quits (parse_word_str parse w t.span.start) (taken n m b q) (taken-Ok n m b q i)
            (parse_word_str-Safe (QueueOk m b) parse n inner w t.span.start s))
          (λ v r c. c))
    word_from-Quits t (single_quote u) q i e s h =
        rw (next-peeked n m b q t e) (taken-Ok n m b q i, omega arith)
    word_from-Quits t double_quote_open q i e s h =
        Quits-bind n m b (λ _ r. After n m b (taken n m b q) r)
          (λ _ r. After n m b (taken n m b q) r) (parse_double_quoted parse fuel q) _
          (parse_double_quoted-Quits q t i e (h refl)) (λ w r c. c)
    word_from-Quits t k q i e s h = (i, omega arith)

    -- At a token.
    pub parse_word_at-Quits :
        (p : Parser) (t : Token)
        → Ok n m b p
        → p.peeked ≡ some t
        → left p ≤ fuel
        → Quits n m b (λ _ s. After n m b (behind t.kind p) s) (parse_word parse fuel p)
    unfolding parse_word
    parse_word_at-Quits p t k e h =
        let l = taken_left n m b p t e in
        rw (peek_again n m b p t e) (
          Quits-bind n m b (λ _ s. After n m b (behind t.kind p) s)
            (λ _ s. After n m b (behind t.kind p) s) (word_from parse fuel t t.kind p)
            (λ ws. return (simplify_word_parts ws))
            (word_from-Quits t t.kind p k e (peeked_short p t k e) (λ c. omega (arith, c)))
            (λ ws s c. c))

    pub behind-After : (k : TokenKind) (p : Parser) → Ok n m b p → After n m b p (behind k p)
    behind-After (word w) p i = (taken-Ok n m b p i, omega arith)
    behind-After (single_quote s) p i = (taken-Ok n m b p i, omega arith)
    behind-After double_quote_open p i = (taken-Ok n m b p i, omega arith)
    behind-After k p i = (i, omega arith)

    pub parse_word-Quits :
        (p : Parser)
        → Ok n m b p
        → left p ≤ fuel
        → Quits n m b (λ _ s. After n m b p s) (parse_word parse fuel p)
    unfolding parse_word
    parse_word-Quits p k h =
        Quits-bind n m b (λ t q. At n m b p t q) (λ _ s. After n m b p s) (peek p) _
          (peek-Quits n m b p k)
          (λ t q ((i, j), e).
            let l = taken_left n m b q t e in
            Quits-bind n m b (λ _ s. After n m b p s) (λ _ s. After n m b p s)
              (word_from parse fuel t t.kind q) (λ ws. return (simplify_word_parts ws))
              (Quits-After n m b p (behind t.kind q) (word_from parse fuel t t.kind q)
                (After-trans n m b p q (behind t.kind q) (i, j) (behind-After t.kind q i))
                (word_from-Quits t t.kind q i e (peeked_short q t i e) (λ c. omega (arith, c))))
              (λ ws s c. c))
