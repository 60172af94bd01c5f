-- ===== src/Bash/Parser/Fuel.antt =====
-- The state of the parser in crates/bash_parser/src/parser.rs on a text of at most `n` characters, and what is left of it.
use wasm_shell.Base.{
  ℕ, zero, suc, ◌+◌, ◌≤◌, ◌<◌, Bool, true, false, Option, none, some, List, [], ◌∷◌, ◌++◌, Str,
  length, if◌then◌else◌, Result, ok, err, ◌≡◌, refl, ap, arith, All, All-append, length-append,
  Bool-cases, inl, inr,
}
use wasm_shell.Bash.Error.{ParseError, parse_error, panic, no_fuel}
use wasm_shell.Bash.Lexer.Token.{TokenKind, word, single_quote, dq_text, newline, eof, Token}
use wasm_shell.Bash.Lexer.Scan.{Lexer}
use wasm_shell.Bash.Lexer.Places.{Ensures, TokenAt, Holds, Reaches-length}
use wasm_shell.Bash.Lexer.Next.{next_token}
use wasm_shell.Bash.Lexer.Next.Bounds.{next_token-Lexes}
use wasm_shell.Bash.Lexer.Heredoc.{Pending, collect_heredoc_bodies}
use wasm_shell.Bash.Lexer.Heredoc.Bounds.{Collected, collect_heredoc_bodies-Collected}
use wasm_shell.Bash.Action.{◌>>=◌, ◌>>◌, return, modify, continue_with}
use wasm_shell.Bash.Action.Fuel.{Yields, Ends, Ends-bind, Ends-mono}
use wasm_shell.Bash.Words.{Queue}
use wasm_shell.Bash.Parser.{
  Parser, Parse, lexed, peek_from, peek, next_from, next, queued, push_bodies, collected,
  flush_pending, flush_heredocs, is_newline, skip_newlines,
}

-- What a token counts for.
abbrev pub cost_of : TokenKind → ℕ
cost_of eof = 0
cost_of k = 1

abbrev pub KindShort : ℕ → TokenKind → Type 0
KindShort n (word w) = length w ≤ n
KindShort n k = Unit

abbrev pub PeekShort : ℕ → Option Token → Type 0
PeekShort n none = Unit
PeekShort n (some t) = KindShort n t.kind

abbrev pub cost : Option Token → ℕ
cost none = 0
cost (some t) = cost_of t.kind

-- What is left: the characters, and a token that is looked at.
abbrev pub left : Parser → ℕ
left p = cost p.peeked + length p.lexer.rest

Holds-fits :
    (k : TokenKind) (text : Str)
    → Holds k text
    → (cost_of k ≤ length text) × KindShort (length text) k
Holds-fits (word w) text (e, h) = (h, omega (arith, ap length e))
Holds-fits (single_quote q) text e = (omega (arith, ap length e), tt)
Holds-fits (dq_text q) text (e, h) = (h, tt)
Holds-fits eof text e = (omega arith, tt)
Holds-fits k text h = (h, tt)

KindShort-mono : (m n : ℕ) (k : TokenKind) → m ≤ n → KindShort m k → KindShort n k
KindShort-mono m n (word w) h s = omega arith
KindShort-mono m n k h s = ground arith

-- A token with the lexer behind it, from a text of length `n`.
abbrev Fits : ℕ → Result ParseError (Token × Lexer) → Type 0
Fits n r = Yields (λ (t, l). (cost_of t.kind + length l.rest ≤ n) × KindShort n t.kind) r

next_token-Fits : (in_dq : Bool) (l : Lexer) → Fits (length l.rest) (next_token in_dq l)
next_token-Fits in_dq l = fits (next_token in_dq l) (next_token-Lexes in_dq l)
  where
    fits :
        (r : Result ParseError (Token × Lexer))
        → Ensures l (λ (t, k). TokenAt l t k) r
        → Fits (length l.rest) r
    fits (ok (t, k)) h =
        let (c, s) = Holds-fits t.kind h.taken.text h.holds in
        let e = ap length h.taken.splits in
        let a = length-append h.taken.text k.rest in
        let r = Reaches-length h.skipped in
        (omega arith, KindShort-mono (length h.taken.text) (length l.rest) t.kind (omega arith) s)
    fits (err (parse_error s m)) h = tt
    fits (err panic) h = tt
    fits (err no_fuel) h = h

-- The queue holds bodies of at most `m` characters, and is borrowed or not.
abbrev pub QueueOk : ℕ → Bool → Queue → Type 0
QueueOk m b q = (q.borrowed ≡ b) × All (λ x. length x.1 ≤ m) q.bodies

module _ (n m : ℕ) (b : Bool) where
  abbrev pub Ok : Parser → Type 0
  Ok p = (length p.lexer.rest ≤ n) × PeekShort n p.peeked × QueueOk m b p.queue

  -- Where the parser may be after it has been at `p`.
  abbrev pub After : Parser → Parser → Type 0
  After p r = Ok r × (left r ≤ left p)

  abbrev pub Quits : {A : Type 0} → (A → Parser → Type 0) → Result ParseError A × Parser → Type 0
  Quits P r = Ends (λ p. QueueOk m b p.queue) P r

  -- At a token, with the place where that is.
  abbrev pub At : Parser → Token → Parser → Type 0
  At p t r = After p r × (r.peeked ≡ some t)

  lexed-Quits :
      (p : Parser) (r : Result ParseError (Token × Lexer))
      → Ok p
      → p.peeked ≡ none
      → Fits (length p.lexer.rest) r
      → Quits
          (λ t q. At p t q)
          ((lexed r >>= λ t. modify (λ q. record q { peeked = some t }) >> return t) p)
  unfolding lexed
  lexed-Quits p (ok (t, l)) (k, s, q) e (f, g) = (
    ((omega arith, KindShort-mono (length p.lexer.rest) n t.kind k g, q), omega (arith, ap cost e)),
    refl,
  )
  lexed-Quits p (err e) (k, s, q) e' f = (f, q)

  peek_from-Quits :
      (o : Option Token) (p : Parser)
      → Ok p
      → p.peeked ≡ o
      → Quits (λ t q. At p t q) (peek_from o p)
  unfolding peek_from
  peek_from-Quits (some t) p k e = ((k, omega arith), e)
  peek_from-Quits none p k e =
      lexed-Quits p (next_token p.in_dq p.lexer) k e (next_token-Fits p.in_dq p.lexer)

  pub peek-Quits : (p : Parser) → Ok p → Quits (λ t q. At p t q) (peek p)
  unfolding peek
  peek-Quits p k = peek_from-Quits p.peeked p k refl

  -- A token that is looked at is looked at again.
  pub peek_again : (p : Parser) (t : Token) → p.peeked ≡ some t → peek p ≡ (ok t, p)
  unfolding peek peek_from
  peek_again p t e = rw e refl

  pub next-peeked :
      (p : Parser) (t : Token) → p.peeked ≡ some t → next p ≡ (ok t, record p { peeked = none })
  unfolding next next_from
  next-peeked p t e = rw e refl

  -- Behind the token that is looked at.
  abbrev pub taken : Parser → Parser
  taken p = record p { peeked = none }

  pub taken-Ok : (p : Parser) → Ok p → Ok (taken p)
  taken-Ok p (k, s, q) = (k, tt, q)

  pub taken_left :
      (p : Parser) (t : Token) → p.peeked ≡ some t → left p ≡ cost_of t.kind + left (taken p)
  taken_left p t e = omega (arith, ap cost e)

  pub Quits-bind :
      {A B : Type 0} (P : A → Parser → Type 0) (Q : B → Parser → Type 0)
      (r : Result ParseError A × Parser) (rest : A → Parse B)
      → Quits P r
      → ((a : A) (p : Parser) → P a p → Quits Q (rest a p))
      → Quits Q (continue_with r rest)
  Quits-bind P Q r rest h k = Ends-bind (λ p. QueueOk m b p.queue) P Q r rest h k

  pub Quits-if :
      {A : Type 0} (P : A → Parser → Type 0) (c : Bool) (x y : Result ParseError A × Parser)
      → Quits P x
      → Quits P y
      → Quits P (if c then x else y)
  Quits-if P true x y h k = h
  Quits-if P false x y h k = k

  pub After-trans : (p q r : Parser) → After p q → After q r → After p r
  After-trans p q r (k, l) (i, j) = (i, omega arith)

  -- The same result from a place further back.
  pub Quits-After :
      {A : Type 0} (p q : Parser) (r : Result ParseError A × Parser)
      → After p q
      → Quits (λ _ s. After q s) r
      → Quits (λ _ s. After p s) r
  Quits-After p q r a h =
      Ends-mono (λ s. QueueOk m b s.queue) (λ _ s. After q s) (λ _ s. After p s) r
        (λ x s c. After-trans p q s a c) h

  queued-All :
      (hs : List Pending) (bodies : List Str)
      → All (λ t. length t ≤ n) bodies
      → n ≤ m
      → All (λ x. length x.1 ≤ m) (queued hs bodies)
  unfolding queued
  queued-All [] bodies h k = tt
  queued-All (p ∷ hs) [] h k = tt
  queued-All (p ∷ hs) (t ∷ bodies) (h, hs') k = (omega arith, queued-All hs bodies hs' k)

  push_bodies-Quits :
      (hs : List Pending) (bodies : List Str) (p : Parser)
      → Ok p
      → All (λ t. length t ≤ n) bodies
      → n ≤ m
      → Quits (λ _ q. After p q) (push_bodies hs bodies p)
  unfolding push_bodies
  push_bodies-Quits hs bodies p (k, s, (e, a)) h l =
      let q = record p.queue { bodies = p.queue.bodies ++ queued hs bodies } in
      Quits-if (λ _ r. After p r) p.queue.borrowed (err panic, p) (ok tt, record p { queue = q })
        (tt, (e, a))
        (
          (
            k,
            s,
            (
              e,
              All-append (λ x. length x.1 ≤ m) p.queue.bodies (queued hs bodies) a
                  (queued-All hs bodies h l),
            ),
          ),
          omega arith,
        )

  collected-Quits :
      (hs : List Pending) (p : Parser) (r : Result ParseError (List Str × Lexer))
      → Ok p
      → Collected n p.lexer r
      → n ≤ m
      → Quits (λ _ q. After p q) ((collected r >>= λ bodies. push_bodies hs bodies) p)
  unfolding collected
  collected-Quits hs p (ok (bodies, l)) (k, s, q) (a, c) h =
      Quits-After p (record p { lexer = l }) (push_bodies hs bodies (record p { lexer = l }))
        ((omega arith, s, q), omega arith)
        (push_bodies-Quits hs bodies (record p { lexer = l }) (omega arith, s, q) a h)
  collected-Quits hs p (err e) (k, s, q) c h = (c, q)

  flush_pending-Quits :
      (hs : List Pending) (p : Parser)
      → Ok p
      → n ≤ m
      → Quits (λ _ q. After p q) (flush_pending hs p)
  unfolding flush_pending
  flush_pending-Quits [] p k h = (k, omega arith)
  flush_pending-Quits (w ∷ hs) p (k, s, q) h =
      collected-Quits (w ∷ hs) (record p { pending_heredocs = [] })
        (collect_heredoc_bodies (w ∷ hs) p.lexer) (k, s, q)
        (collect_heredoc_bodies-Collected n (w ∷ hs) p.lexer k) h

  module _ (fits : n ≤ m) where
    flush_heredocs-Quits : (p : Parser) → Ok p → Quits (λ _ q. After p q) (flush_heredocs p)
    unfolding flush_heredocs
    flush_heredocs-Quits p k = flush_pending-Quits p.pending_heredocs p k fits

    -- With the parser of the lines behind.
    pub skip_newline-Quits :
        (p : Parser) (t : Token) (rest : Parse Bool)
        → Ok p
        → p.peeked ≡ some t
        → ((q : Parser) → Ok q → left q ≤ left (taken p) → Quits (λ _ r. After q r) (rest q))
        → Quits (λ _ r. After (taken p) r) ((next >> (flush_heredocs >> rest)) p)
    skip_newline-Quits p t rest k e h = rw (next-peeked p t e) (
        Quits-bind (λ _ q. After (taken p) q) (λ _ r. After (taken p) r) (flush_heredocs (taken p))
          (λ _. rest) (flush_heredocs-Quits (taken p) (taken-Ok p k))
          (λ u q (i, j). Quits-After (taken p) q (rest q) (i, j) (h q i j)))

    pub cost_of-newline : (k : TokenKind) → is_newline k ≡ true → cost_of k ≡ 1
    unfolding is_newline
    cost_of-newline newline h = refl
    cost_of-newline k h = ground arith

    pub skip_newlines-Quits :
        (fuel : ℕ) (any : Bool) (p : Parser)
        → Ok p
        → left p < fuel
        → Quits (λ _ r. After p r) (skip_newlines fuel any p)
    unfolding skip_newlines
    skip_newlines-Quits zero any p k h = absurd (omega arith)
    skip_newlines-Quits (suc fuel) any p k h =
        Quits-bind (λ t q. At p t q) (λ _ r. After p r) (peek p) _ (peek-Quits p k)
          (λ t q ((i, j), e). elim (Bool-cases (is_newline t.kind)) [
            | inl y ↦
                let l = taken_left q t e in
                let c = cost_of-newline t.kind y in
                rw y (
                  Quits-After p (taken q) _ (taken-Ok q i, omega arith)
                    (skip_newline-Quits q t (skip_newlines fuel true) i e
                      (λ r s d. skip_newlines-Quits fuel true r s (omega arith))))
            | inr y ↦ rw y (i, j)
          ])
