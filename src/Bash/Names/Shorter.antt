-- ===== src/Bash/Names/Shorter.antt =====
-- What the scans of text give is no longer than the text.
use wasm_shell.Base.{
  ℕ, suc, ◌+◌, ◌-◌, ◌≤◌, ◌<◌, Bool, true, false, Option, none, some, [], ◌∷◌, Str, length, Result,
  ok, err, ◌>>=◌, arith,
}
use wasm_shell.Base.Utf8.{len_utf8}
use wasm_shell.Bash.Error.{ParseError}
use wasm_shell.Bash.Action.Fuel.{Yields}
use wasm_shell.Bash.Names.{
  split_at, named, split_assignment, cons_front, find_var_operator, operator_from, balanced_text,
  extract_balanced, unmatched, more_text,
}

-- The two texts around something taken out of `s`.
abbrev pub Parts : Str → Option (Str × Str) → Type 0
Parts s none = Unit
Parts s (some (a, b)) = length a + length b < length s

Parts-cons_front :
    (c : ℕ) (s : Str) (o : Option (Str × Str)) → Parts s o → Parts (c ∷ s) (cons_front c o)
unfolding cons_front
Parts-cons_front c s none h = tt
Parts-cons_front c s (some (a, b)) h = omega arith

pub split_at-Parts : (d : ℕ) (s : Str) → Parts s (split_at d s)
unfolding split_at
split_at-Parts d [] = tt
split_at-Parts d (c ∷ s) =
    let later = Parts-cons_front c s (split_at d s) (split_at-Parts d s) in
    let here : 0 + length s < suc (length s) = omega arith in ground arith

-- The two parts of `s`.
abbrev pub Cut : Str → Option (Str × Str) → Type 0
Cut s none = Unit
Cut s (some (a, b)) = length a + length b ≤ length s

Cut-cons_front : (c : ℕ) (s : Str) (o : Option (Str × Str)) → Cut s o → Cut (c ∷ s) (cons_front c o)
unfolding cons_front
Cut-cons_front c s none h = tt
Cut-cons_front c s (some (a, b)) h = omega arith

operator_from-Cut : (first : Bool) (s : Str) → Cut s (operator_from first s)
unfolding operator_from
operator_from-Cut first [] = tt
operator_from-Cut first (c ∷ s) =
    let later = Cut-cons_front c s (operator_from false s) (operator_from-Cut false s) in
    let here : 0 + suc (length s) ≤ suc (length s) = omega arith in ground arith

pub find_var_operator-Cut : (s : Str) → Cut s (find_var_operator s)
unfolding find_var_operator
find_var_operator-Cut s = operator_from-Cut true s

-- The inside of a balanced text, or an error of the program.
abbrev pub Inside : Str → Result ParseError (Str × ℕ) → Type 0
Inside s r = Yields (λ (inner, n). length inner < length s) r

Inside-more_text :
    (c : ℕ) (s : Str) (r : Result ParseError (Str × ℕ))
    → Inside s r
    → Inside (c ∷ s) (r >>= more_text c)
unfolding more_text
Inside-more_text c s (ok (inner, n)) h = omega arith
Inside-more_text c s (err e) h = h

module _ (opening closing base : ℕ) (close_str : Str) where
  balanced_text-Inside :
      (s : Str) (depth i : ℕ) → Inside s (balanced_text opening closing close_str base depth i s)
  unfolding balanced_text unmatched
  balanced_text-Inside [] depth i = tt
  balanced_text-Inside (c ∷ s) depth i =
      let deeper = Inside-more_text c s _ (balanced_text-Inside s (depth + 1) (i + 1)) in
      let shallower = Inside-more_text c s _ (balanced_text-Inside s (depth - 1) (i + 1)) in
      let same = Inside-more_text c s _ (balanced_text-Inside s depth (i + len_utf8 c)) in
      let here : 0 < suc (length s) = omega arith in ground arith

pub extract_balanced-Inside :
    (s : Str) (opening closing base : ℕ) (close_str : Str)
    → Inside s (extract_balanced s opening closing base close_str)
unfolding extract_balanced
extract_balanced-Inside s opening closing base close_str =
    balanced_text-Inside opening closing base close_str s 1 0

named-Parts : (s : Str) (o : Option (Str × Str)) → Parts s o → Parts s (named o)
unfolding named
named-Parts s none h = tt
named-Parts s (some (name, value)) h = ground arith

pub split_assignment-Parts : (s : Str) → Parts s (split_assignment s)
unfolding split_assignment
split_assignment-Parts s = named-Parts s (split_at b'=' s) (split_at-Parts b'=' s)
