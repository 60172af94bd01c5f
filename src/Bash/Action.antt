-- ===== src/Bash/Action.antt =====
-- Computations of crates/bash_parser/src/parser.rs: they change a state, which outlives their errors.
pub mod Fuel
use wasm_shell.Base.{Result, ok, err}
use wasm_shell.Bash.Error.{ParseError}

abbrev pub Action : Type 0 → Type 0 → Type 0
Action S A = S → Result ParseError A × S

module _ {S : Type 0} where
  abbrev pub continue_with :
      {A B : Type 0} → Result ParseError A × S → (A → Action S B) → Result ParseError B × S
  continue_with (ok a, s) next = next a s
  continue_with (err e, s) next = (err e, s)

  infixl 5 ◌>>=◌ ◌>>◌
  abbrev pub ◌>>=◌ : {A B : Type 0} → Action S A → (A → Action S B) → Action S B
  m >>= next = λ s. continue_with (m s) next

  abbrev pub ◌>>◌ : {A B : Type 0} → Action S A → Action S B → Action S B
  m >> k = m >>= λ _. k

  abbrev pub return : {A : Type 0} → A → Action S A
  return a = λ s. (ok a, s)

  abbrev pub fail : {A : Type 0} → ParseError → Action S A
  fail e = λ s. (err e, s)

  abbrev pub lift : {A : Type 0} → Result ParseError A → Action S A
  lift r = λ s. (r, s)

  abbrev pub get : Action S S
  get = λ s. (ok s, s)

  abbrev pub modify : (S → S) → Action S (Unit {0})
  modify f = λ s. (ok tt, f s)
