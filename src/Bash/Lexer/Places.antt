-- ===== src/Bash/Lexer/Places.antt =====
-- What it means that the lexer stays inside the text.
use wasm_shell.Base.{
  ℕ, ◌+◌, ◌≤◌, ◌<◌, [], ◌∷◌, ◌++◌, Str, length, Result, ok, err, ◌>>=◌, ◌≡◌, arith, length-append,
  ap,
}
use wasm_shell.Base.Utf8.{byte_len, byte_len-append}
use wasm_shell.Bash.Error.{Span, new_span, end_of, ParseError, parse_error, panic, no_fuel}
use wasm_shell.Bash.Lexer.Token.{TokenKind, word, single_quote, dq_text, eof, Token}
use wasm_shell.Bash.Lexer.Fragment.{unescape_dq}
use wasm_shell.Bash.Lexer.Scan.{Lexer, at, past, Reaches, Reaches_trans, Reaches_step}
use wasm_shell.Bash.Lexer.Word.{Scanned}

-- The span lies in the text that the lexer has before it.
abbrev pub Within : Lexer → Span → Type 0
Within a s = (a.pos ≤ s.start) × (end_of s ≤ a.pos + byte_len a.rest)

-- An error with a place in the text; neither a panic nor a loop without fuel.
abbrev pub Placed : Lexer → ParseError → Type 0
Placed a (parse_error s m) = Within a s
Placed a panic = ⊥
Placed a no_fuel = ⊥

-- The result satisfies `P`, or the error has a place in the text before `a`.
abbrev pub Ensures : {A : Type 0} → Lexer → (A → Type 0) → Result ParseError A → Type 0
Ensures a P (ok x) = P x
Ensures a P (err e) = Placed a e

pub Within-Reaches : {a b : Lexer} (s : Span) → Reaches a b → Within b s → Within a s
Within-Reaches s r (low, high) =
    (omega (arith, r.moves), omega (arith, r.moves, byte_len-append r.text _, ap byte_len r.splits))

pub Placed-Reaches : {a b : Lexer} (e : ParseError) → Reaches a b → Placed b e → Placed a e
Placed-Reaches (parse_error s m) r h = Within-Reaches s r h
Placed-Reaches panic r h = absurd h
Placed-Reaches no_fuel r h = absurd h

module _ {A B : Type 0} where
  pub Ensures-bind :
      (a : Lexer) (P : A → Type 0) (Q : B → Type 0) (r : Result ParseError A)
      (f : A → Result ParseError B)
      → Ensures a P r
      → ((x : A) → P x → Ensures a Q (f x))
      → Ensures a Q (r >>= f)
  Ensures-bind a P Q (ok x) f h k = k x h
  Ensures-bind a P Q (err e) f h k = h

pub Ensures-from :
    {A : Type 0} {a b : Lexer} (P Q : A → Type 0) (r : Result ParseError A)
    → Reaches a b
    → ((x : A) → P x → Q x)
    → Ensures b P r
    → Ensures a Q r
Ensures-from P Q (ok x) p k h = k x h
Ensures-from P Q (err e) p k h = Placed-Reaches e p h

abbrev pub Passes : Lexer → Scanned → Type 0
Passes a r = Ensures a (λ l. Reaches a l) r

pub Passes-Reaches : {a b : Lexer} (r : Scanned) → Reaches a b → Passes b r → Passes a r
Passes-Reaches {a} {b} r p h =
    Ensures-from (λ l. Reaches b l) (λ l. Reaches a l) r p (λ l q. Reaches_trans p q) h

-- A round that goes on takes a character at least.
abbrev pub Moves : Lexer → Lexer → Type 0
Moves a l = Reaches a l × (length l.rest < length a.rest)

pub Reaches-length : {a l : Lexer} → Reaches a l → length l.rest ≤ length a.rest
Reaches-length {a} {l} r = omega (arith, ap length r.splits, length-append r.text l.rest)

pub Moves_past :
    {l : Lexer} (pos c : ℕ) (s : Str) → Reaches (past pos c s) l → Moves (at pos (c ∷ s)) l
Moves_past pos c s r = (Reaches_step pos c s r, omega (arith, Reaches-length r))

-- What a token holds of the text that it is read from. All tokens but the end take a character at least.
abbrev pub Holds : TokenKind → Str → Type 0
Holds (word w) text = (w ≡ text) × (1 ≤ length text)
Holds (single_quote q) text = text ≡ b'\'' ∷ (q ++ b'\'' ∷ [])
Holds (dq_text q) text = (q ≡ unescape_dq text) × (1 ≤ length text)
Holds eof text = text ≡ []
Holds k text = 1 ≤ length text

-- The token of the text between two lexers, behind what is skipped after `a`.
pub record TokenAt (a : Lexer) (t : Token) (l : Lexer) : Type 0 where
  pub begins : Lexer
  pub skipped : Reaches a begins
  pub taken : Reaches begins l
  pub span_is : t.span ≡ new_span begins.pos (byte_len taken.text)
  pub holds : Holds t.kind taken.text
