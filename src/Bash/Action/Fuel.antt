-- ===== src/Bash/Action/Fuel.antt =====
-- Computations of crates/bash_parser/src/parser.rs, and the error that stands for a want of fuel.
use wasm_shell.Base.{ok, err, Result}
use wasm_shell.Bash.Error.{ParseError, no_fuel}
use wasm_shell.Bash.Action.{Action, continue_with}

-- An error of the program.
abbrev pub HasFuel : ParseError → Type 0
HasFuel no_fuel = ⊥
HasFuel e = Unit

-- The same of a mere result.
abbrev pub Yields : {A : Type 0} → (A → Type 0) → Result ParseError A → Type 0
Yields P (ok a) = P a
Yields P (err e) = HasFuel e

module _ {S : Type 0} (I : S → Type 0) where
  -- The result and the state satisfy `P`, or the error is one of the program and its state satisfies `I`.
  abbrev pub Ends : {A : Type 0} → (A → S → Type 0) → Result ParseError A × S → Type 0
  Ends P (ok a, s) = P a s
  Ends P (err e, s) = HasFuel e × I s

  pub Ends-bind :
      {A B : Type 0} (P : A → S → Type 0) (Q : B → S → Type 0) (r : Result ParseError A × S)
      (next : A → Action S B)
      → Ends P r
      → ((a : A) (s : S) → P a s → Ends Q (next a s))
      → Ends Q (continue_with r next)
  Ends-bind P Q (ok a, s) next h k = k a s h
  Ends-bind P Q (err e, s) next h k = h

  pub Ends-mono :
      {A : Type 0} (P Q : A → S → Type 0) (r : Result ParseError A × S)
      → ((a : A) (s : S) → P a s → Q a s)
      → Ends P r
      → Ends Q r
  Ends-mono P Q (ok a, s) k h = k a s h
  Ends-mono P Q (err e, s) k h = h
