-- ===== src/Bash/Parser/Simple/Fuel.antt =====
-- The fuel of simple commands and redirections, in crates/bash_parser/src/parser.rs.
use wasm_shell.Base.{
  ℕ, zero, suc, ◌+◌, ◌≤◌, ◌<◌, Bool, true, false, not, ◌&&◌, Option, none, some, [], ◌∷◌, Str,
  str_eq, length, ◌≡◌, refl, ◌∙◌, arith, subst, Bool-cases, Option-cases, inl, inr,
}
use wasm_shell.Base.Utf8.{byte_len}
use wasm_shell.Bash.Error.{Span}
use wasm_shell.Bash.Ast.{Script, simple, SimpleCommand, RedirectKind, to_fd, close_fd}
use wasm_shell.Bash.Lexer.Token.{
  RedirectToken, TokenKind, word, single_quote, dq_text, double_quote_open, redirect, here_doc, eof,
  Token,
}
use wasm_shell.Bash.Action.{◌>>=◌, ◌>>◌, return}
use wasm_shell.Bash.Action.Fuel.{Ends-mono}
use wasm_shell.Bash.Names.Shorter.{Parts, split_assignment-Parts}
use wasm_shell.Bash.Words.{Run}
use wasm_shell.Bash.Words.Fuel.{SafeBelow}
use wasm_shell.Bash.WordParts.{parse_word_str}
use wasm_shell.Bash.WordParts.Fuel.{parse_word_str-Safe}
use wasm_shell.Bash.Parser.{Parser, Parse, on_queue, peek, next, parse_word}
use wasm_shell.Bash.Parser.Fuel.{
  cost_of, KindShort, left, QueueOk, Ok, After, Quits, At, peek-Quits, peek_again, next-peeked,
  taken, taken-Ok, taken_left, Quits-bind, Quits-After, After-trans,
}
use wasm_shell.Bash.Parser.WordFuel.{
  on_queue-Quits, peeked_short, behind, parse_word_at-Quits, parse_word-Quits,
}
use wasm_shell.Bash.Parser.Simple.{
  fd_or, parse_u32, path_operator, dup_operator, dup_word, dup_target, dup_from, parse_dup_redirect,
  operator_redirect, redirect_from, parse_redirect, push_word, push_redirect, push_assignment,
  saw_name, empty_command, Case, ends, takes_redirect, refused, takes_word, case_of, is_lparen,
  is_plain_name, refuse_function, check_function, assignment_of, assignment_or_word, at_case,
  simple_loop, parse_simple_command,
}

module _ (n m : ℕ) (b : Bool) (parse : Str → Run Script) (fuel : ℕ)
    (inner : SafeBelow (QueueOk m b) n parse) where
  -- From here, with as many characters and tokens left as there is fuel.
  abbrev Fine : {A : Type 0} → Parse A → Type 0
  Fine run =
      (p : Parser) → Ok n m b p → left p ≤ fuel → Quits n m b (λ _ s. After n m b p s) (run p)

  dup_word-Fine : (fd : Option ℕ) (kind : RedirectKind) → Fine (dup_word parse fuel fd kind)
  unfolding dup_word
  dup_word-Fine fd kind p k h =
      Quits-bind n m b (λ _ s. After n m b p s) (λ _ s. After n m b p s) (parse_word parse fuel p) _
        (parse_word-Quits n m b parse fuel inner p k h) (λ w s c. c)

  take_next :
      {A : Type 0} (p : Parser) (t : Token) (x : A)
      → Ok n m b p
      → p.peeked ≡ some t
      → Quits n m b (λ _ s. After n m b p s) ((next >> return x) p)
  take_next p t x k e =
      let l = taken_left n m b p t e in
      rw (next-peeked n m b p t e) (taken-Ok n m b p k, omega arith)

  dup_target-Quits :
      (fd : Option ℕ) (kind : RedirectKind) (w : Str) (p : Parser) (t : Token)
      → Ok n m b p
      → left p ≤ fuel
      → p.peeked ≡ some t
      → Quits n m b (λ _ s. After n m b p s) (dup_target parse fuel fd kind w p)
  unfolding dup_target
  dup_target-Quits fd kind w p t k h e = elim (Option-cases (parse_u32 w)) [
    | inl z ↦ rw (z, dup_target) (dup_word-Fine fd kind p k h)
    | inr (x, z) ↦ rw (z, dup_target) (take_next p t (fd, (kind, to_fd x)) k e)
  ]

  dup_from-Quits :
      (fd : Option ℕ) (kind : RedirectKind) (j : TokenKind) (p : Parser) (t : Token)
      → Ok n m b p
      → left p ≤ fuel
      → p.peeked ≡ some t
      → Quits n m b (λ _ s. After n m b p s) (dup_from parse fuel fd kind j p)
  unfolding dup_from
  dup_from-Quits fd kind (word w) p t k h e = elim (Bool-cases (str_eq w (b'-' ∷ []))) [
    | inl y ↦ rw (y, dup_from) (take_next p t (fd, (kind, close_fd)) k e)
    | inr y ↦ rw (y, dup_from) (dup_target-Quits fd kind w p t k h e)
  ]
  dup_from-Quits fd kind j p t k h e = dup_word-Fine fd kind p k h

  parse_dup_redirect-Fine :
      (fd : Option ℕ) (kind : RedirectKind) → Fine (parse_dup_redirect parse fuel fd kind)
  unfolding parse_dup_redirect
  parse_dup_redirect-Fine fd kind p k h =
      Quits-bind n m b (λ t q. At n m b p t q) (λ _ s. After n m b p s) (peek p) _
        (peek-Quits n m b p k)
        (λ t q ((i, j), e).
          Quits-After n m b p q _ (i, j) (dup_from-Quits fd kind t.kind q t i (omega arith) e))

  operator_redirect-Fine : (r : RedirectToken) → Fine (operator_redirect parse fuel r)
  unfolding operator_redirect
  operator_redirect-Fine r p k h = elim (Option-cases (path_operator r.op)) [
    | inl e ↦
        rw (e, operator_redirect)
          (parse_dup_redirect-Fine (fd_or r.fd (dup_operator r.op).0) (dup_operator r.op).1 p k h)
    | inr ((d, kind), e) ↦
        rw (e, operator_redirect)
          (Quits-bind n m b (λ _ s. After n m b p s) (λ _ s. After n m b p s)
            (parse_word parse fuel p) _ (parse_word-Quits n m b parse fuel inner p k h)
            (λ w s c. c))
  ]

  redirect_from-Fine : (t : Token) (k : TokenKind) → Fine (redirect_from parse fuel t k)
  unfolding redirect_from
  redirect_from-Fine t (redirect r) p k h = operator_redirect-Fine r p k h
  redirect_from-Fine t (here_doc fd delimiter quoted strip_tabs) p k h = (k, omega arith)
  redirect_from-Fine t j p k h = (tt, k.2)

  -- At an operator.
  parse_redirect-Quits :
      (p : Parser) (t : Token)
      → Ok n m b p
      → p.peeked ≡ some t
      → left p ≤ fuel
      → Quits n m b (λ _ s. After n m b (taken n m b p) s) (parse_redirect parse fuel p)
  unfolding parse_redirect
  parse_redirect-Quits p t k e h =
      let l = taken_left n m b p t e in
      rw (next-peeked n m b p t e)
        (redirect_from-Fine t t.kind (taken n m b p) (taken-Ok n m b p k) (omega arith))

  -- The check for a function definition comes back to where it was.
  abbrev Back : Parser → Parser → Type 0
  Back p r = After n m b p r × (r.peeked ≡ p.peeked)

  refuse_function-Quits :
      (span : Span) (p : Parser) (t : Token)
      → Ok n m b p
      → p.peeked ≡ some t
      → Quits n m b (λ _ r. Back p r) (refuse_function span p)
  unfolding refuse_function
  refuse_function-Quits span p t k e = rw (next-peeked n m b p t e) (
      Quits-bind n m b (λ u q. At n m b (taken n m b p) u q) (λ _ r. Back p r)
        (peek (taken n m b p)) _ (peek-Quits n m b (taken n m b p) (taken-Ok n m b p k))
        (λ u q ((i, j), f). elim (Bool-cases (is_lparen u.kind)) [
          | inl y ↦ rw y (tt, i.2)
          | inr y ↦ rw y (((k.0, k.1, i.2), omega arith), refl)
        ]))

  check_function-Quits :
      (seen : Bool) (span : Span) (w : Option Str) (p : Parser) (t : Token)
      → Ok n m b p
      → p.peeked ≡ some t
      → Quits n m b (λ _ r. Back p r) (check_function seen span w p)
  unfolding check_function
  check_function-Quits seen span none p t k e = ((k, omega arith), refl)
  check_function-Quits seen span (some w) p t k e =
      elim (Bool-cases (not seen && is_plain_name w)) [
        | inl y ↦ rw (y, check_function) (refuse_function-Quits span p t k e)
        | inr y ↦ rw (y, check_function) ((k, omega arith), refl)
      ]

  -- The word of a token is short.
  abbrev CaseShort : Case → Type 0
  CaseShort (takes_word (some w)) = length w ≤ n
  CaseShort c = Unit

  case_of-Short : (k : TokenKind) → KindShort n k → CaseShort (case_of k)
  unfolding case_of
  case_of-Short (word w) h = h
  case_of-Short (single_quote s) h = tt
  case_of-Short (dq_text s) h = tt
  case_of-Short k h = tt

  assignment_of-Parts :
      (seen : Bool) (w x v : Str) → assignment_of seen (some w) ≡ some (x, v) → length v ≤ length w
  unfolding assignment_of
  assignment_of-Parts true w x v e = cc
  assignment_of-Parts false w x v e =
      let c = subst (λ o. Parts w o) e (split_assignment-Parts w) in omega arith

  assignment_of-short :
      (seen : Bool) (w : Option Str) (x v : Str)
      → CaseShort (takes_word w)
      → assignment_of seen w ≡ some (x, v)
      → length v ≤ n
  assignment_of-short seen none x v h e = unfold assignment_of in cc
  assignment_of-short seen (some w) x v h e = omega (arith, assignment_of-Parts seen w x v e)

  -- The kinds of token that a word starts with.
  abbrev WordLike : TokenKind → Type 0
  WordLike k = (cost_of k ≡ 1) × ((r : Parser) → behind n m b parse fuel inner k r ≡ taken n m b r)

  case_of-WordLike : (k : TokenKind) (w : Option Str) → case_of k ≡ takes_word w → WordLike k
  unfolding case_of
  case_of-WordLike (word u) w e = (refl, λ r. refl)
  case_of-WordLike (single_quote u) w e = (refl, λ r. refl)
  case_of-WordLike double_quote_open w e = (refl, λ r. refl)
  case_of-WordLike k w e = cc

  module _ (sc : SimpleCommand) (p : Parser) (t : Token) (w : Option Str) (k : Ok n m b p)
      (e : p.peeked ≡ some t) (h : left p ≤ fuel) where
    assignment-Quits :
        (x v : Str)
        → length v ≤ n
        → Quits n m b {A = SimpleCommand}
            (λ _ s. After n m b (taken n m b p) s)
            ((next
                >> (on_queue (parse_word_str parse v (t.span.start + byte_len x + 1)) >>= λ u.
                    return (push_assignment x u sc)))
              p)
    assignment-Quits x v c = rw (next-peeked n m b p t e) (
        Quits-bind n m b (λ _ s. After n m b (taken n m b p) s)
          (λ _ s. After n m b (taken n m b p) s)
          (on_queue (parse_word_str parse v (t.span.start + byte_len x + 1)) (taken n m b p)) _
          (on_queue-Quits n m b (parse_word_str parse v (t.span.start + byte_len x + 1))
            (taken n m b p) (taken-Ok n m b p k)
            (parse_word_str-Safe (QueueOk m b) parse n inner v (t.span.start + byte_len x + 1) c))
          (λ u s j. j))

    named_word-Quits :
        WordLike t.kind
        → Quits n m b {A = SimpleCommand}
            (λ _ s. After n m b (taken n m b p) s)
            ((check_function (saw_name sc) t.span w
                >> (parse_word parse fuel >>= λ v. return (push_word v sc)))
              p)
    named_word-Quits (one, skips) =
        Quits-bind n m b (λ _ r. Back p r) (λ _ s. After n m b (taken n m b p) s)
          (check_function (saw_name sc) t.span w p) _
          (check_function-Quits (saw_name sc) t.span w p t k e)
          (λ u r ((i, j), f).
            let g = f ∙ e in
            let l = taken_left n m b p t e in
            let l' = taken_left n m b r t g in
            Quits-bind n m b (λ _ s. After n m b (taken n m b p) s)
              (λ _ s. After n m b (taken n m b p) s) (parse_word parse fuel r) _
              (Quits-After n m b (taken n m b p) (taken n m b r) (parse_word parse fuel r)
                (taken-Ok n m b r i, omega arith)
                (rw (skips r) at
                  (parse_word_at-Quits n m b parse fuel inner r t i g (omega arith))))
              (λ v s c. c))

    -- At a word.
    assignment_or_word-Quits :
        CaseShort (takes_word w)
        → WordLike t.kind
        → Quits n m b
            (λ _ s. After n m b (taken n m b p) s)
            (assignment_or_word parse fuel sc t w p)
    unfolding assignment_or_word
    assignment_or_word-Quits c d = elim (Option-cases (assignment_of (saw_name sc) w)) [
      | inl z ↦ rw (z, assignment_or_word) (named_word-Quits d)
      | inr ((x, v), z) ↦
          rw (z, assignment_or_word)
            (assignment-Quits x v (assignment_of-short (saw_name sc) w x v c z))
    ]

  -- What the loop of a simple command leaves: nothing of it where the command ends, and less where it goes on.
  abbrev pub Progress : Case → Parser → Parser → Type 0
  Progress ends p r = r ≡ p
  Progress c p r = left r < left p

  abbrev pub Moves : Token → Parser → Parser → Type 0
  Moves t p r = After n m b p r × Progress (case_of t.kind) p r

  abbrev EndsAfter : ℕ → Type 0
  EndsAfter rounds =
      (sc : SimpleCommand) (p : Parser)
      → Ok n m b p
      → left p < rounds
      → left p ≤ fuel
      → Quits n m b (λ _ s. After n m b p s) (simple_loop parse fuel rounds sc p)

  cost_of-takes_redirect : (k : TokenKind) → case_of k ≡ takes_redirect → cost_of k ≡ 1
  unfolding case_of
  cost_of-takes_redirect eof e = cc
  cost_of-takes_redirect k e = ground arith

  module _ (rounds : ℕ) (loop : EndsAfter rounds) (sc : SimpleCommand) (p : Parser) (t : Token)
      (k : Ok n m b p) (e : p.peeked ≡ some t) (h : left p < suc rounds) (l : left p ≤ fuel) where
    -- The rest of the loop, when the token is taken.
    again-Quits :
        {A : Type 0} (run : Parse A) (push : A → SimpleCommand)
        → cost_of t.kind ≡ 1
        → Quits n m b (λ _ s. After n m b (taken n m b p) s) (run p)
        → Quits n m b {A = SimpleCommand}
            (λ _ s. After n m b p s × (left s < left p))
            ((run >>= λ x. simple_loop parse fuel rounds (push x)) p)
    again-Quits run push one c =
        let d = taken_left n m b p t e in
        Quits-bind n m b (λ _ s. After n m b (taken n m b p) s)
          (λ _ s. After n m b p s × (left s < left p)) (run p) _ c
          (λ x q (i, j).
            Ends-mono (λ s. QueueOk m b s.queue) (λ _ s. After n m b q s)
              (λ _ s. After n m b p s × (left s < left p))
              (simple_loop parse fuel rounds (push x) q)
              (λ y s (u, v). ((u, omega arith), omega arith))
              (loop (push x) q i (omega arith) (omega arith)))

    at_case-Quits :
        (c : Case)
        → case_of t.kind ≡ c
        → CaseShort c
        → Quits n m b
            (λ _ s. After n m b p s × Progress c p s)
            (at_case parse fuel (λ more. simple_loop parse fuel rounds more) sc t c p)
    unfolding at_case
    at_case-Quits ends z s = ((k, omega arith), refl)
    at_case-Quits takes_redirect z s =
        again-Quits (parse_redirect parse fuel) (λ r. push_redirect r sc)
          (cost_of-takes_redirect t.kind z) (parse_redirect-Quits p t k e l)
    at_case-Quits (takes_word w) z s =
        let d = case_of-WordLike t.kind w z in
        again-Quits (assignment_or_word parse fuel sc t w) (λ more. more) d.0
          (assignment_or_word-Quits sc p t w k e l s d)
    at_case-Quits refused z s = (tt, k.2)

    simple_loop_at-Quits :
        Quits n m b (λ _ s. Moves t p s) (simple_loop parse fuel (suc rounds) sc p)
    unfolding simple_loop
    simple_loop_at-Quits =
        rw (peek_again n m b p t e)
          (at_case-Quits (case_of t.kind) refl (case_of-Short t.kind (peeked_short n m b p t k e)))

  simple_loop-Quits : (rounds : ℕ) → EndsAfter rounds
  unfolding simple_loop
  simple_loop-Quits zero sc p k h l = absurd (omega arith)
  simple_loop-Quits (suc rounds) sc p k h l =
      Quits-bind n m b (λ t q. At n m b p t q) (λ _ s. After n m b p s) (peek p) _
        (peek-Quits n m b p k)
        (λ t q ((i, j), e).
          Ends-mono (λ s. QueueOk m b s.queue)
            (λ _ s. After n m b q s × Progress (case_of t.kind) q s) (λ _ s. After n m b p s)
            (at_case parse fuel (λ more. simple_loop parse fuel rounds more) sc t (case_of t.kind)
              q)
            (λ x s (c, d). After-trans n m b p q s (i, j) c)
            (at_case-Quits rounds (simple_loop-Quits rounds) sc q t i e (omega arith) (omega arith)
              (case_of t.kind) refl (case_of-Short t.kind (peeked_short n m b q t i e))))

  -- At a token.
  pub parse_simple_command-Quits :
      (p : Parser) (t : Token)
      → Ok n m b p
      → p.peeked ≡ some t
      → left p < fuel
      → Quits n m b (λ _ s. Moves t p s) (parse_simple_command parse fuel p)
  unfolding parse_simple_command
  parse_simple_command-Quits p t k e h =
      Quits-bind n m b (λ _ s. Moves t p s) (λ _ s. Moves t p s)
        (simple_loop parse fuel fuel empty_command p) (λ sc. return (simple sc)) (at_token fuel h)
        (λ sc s c. c)
    where
      at_token :
          (rounds : ℕ)
          → left p < rounds
          → Quits n m b (λ _ s. Moves t p s) (simple_loop parse fuel rounds empty_command p)
      at_token zero j = absurd (omega arith)
      at_token (suc rounds) j =
          simple_loop_at-Quits rounds (simple_loop-Quits rounds) empty_command p t k e j
            (omega arith)
