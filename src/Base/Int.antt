-- ===== src/Base/Int.antt =====
-- Signed integers over the native numbers, two's complement words, and decimal text.
use Prim.Native.Nat.{ℕ, zero, suc, ◌+◌, ◌-◌, ◌*◌, ◌/◌, ◌%◌, ◌<◌}
use mathlib.Core.Path.{◌≡◌}
use mathlib.Core.Bool.{Bool, true, false}
use mathlib.Core.Option.{Option, none, some}
use mathlib.Core.List.{[], ◌∷◌}
use native.Mathlib.Omega.{arith}
use wasm_shell.Base.Tests.{ltb, leb, ◌==◌, if◌then◌else◌, Bool-cases}
use mathlib.Core.Logic.{inl, inr}
use wasm_shell.Base.Text.{Str}

-- `negsuc n` is -(n + 1).
pub data ℤ : Type 0 where
  pos : ℕ → ℤ
  negsuc : ℕ → ℤ

abbrev pub pos_part : ℤ → ℕ
pos_part (pos n) = n
pos_part (negsuc n) = 0

abbrev pub neg_part : ℤ → ℕ
neg_part (pos n) = 0
neg_part (negsuc n) = suc n

-- a - b, as an integer.
abbrev pub sub_ℕ : ℕ → ℕ → ℤ
sub_ℕ a b = if leb b a then pos (a - b) else negsuc (b - a - 1)

infixl 65 ◌+ℤ◌ ◌-ℤ◌
infixl 70 ◌*ℤ◌
unfoldable pub ◌+ℤ◌ : ℤ → ℤ → ℤ
a +ℤ b = sub_ℕ (pos_part a + pos_part b) (neg_part a + neg_part b)

unfoldable pub ◌-ℤ◌ : ℤ → ℤ → ℤ
a -ℤ b = sub_ℕ (pos_part a + neg_part b) (neg_part a + pos_part b)

unfoldable pub ◌*ℤ◌ : ℤ → ℤ → ℤ
a *ℤ b =
    sub_ℕ (pos_part a * pos_part b + neg_part a * neg_part b)
      (pos_part a * neg_part b + neg_part a * pos_part b)

unfoldable pub pow_ℤ : ℤ → ℕ → ℤ
unfolding ◌*ℤ◌
pow_ℤ a zero = pos 1
pow_ℤ a (suc n) = a *ℤ pow_ℤ a n

abbrev pub abs : ℤ → ℕ
abs (pos n) = n
abs (negsuc n) = suc n

abbrev pub is_neg : ℤ → Bool
is_neg (pos n) = false
is_neg (negsuc n) = true

abbrev pub is_zero : ℤ → Bool
is_zero a = abs a == 0

abbrev pub neg_ℕ : ℕ → ℤ
neg_ℕ n = sub_ℕ 0 n

-- Division rounds towards zero, and the remainder has the sign of the dividend.
unfoldable pub div_ℤ : ℤ → ℤ → ℤ
div_ℤ (pos a) (pos b) = pos (a / b)
div_ℤ (pos a) (negsuc b) = neg_ℕ (a / suc b)
div_ℤ (negsuc a) (pos b) = neg_ℕ (suc a / b)
div_ℤ (negsuc a) (negsuc b) = pos (suc a / suc b)

unfoldable pub rem_ℤ : ℤ → ℤ → ℤ
rem_ℤ (pos a) b = pos (a % abs b)
rem_ℤ (negsuc a) b = neg_ℕ (suc a % abs b)

abbrev pub two_63 : ℕ
two_63 = 9223372036854775808

abbrev pub two_64 : ℕ
two_64 = 18446744073709551616

-- The two's complement bits of an integer, and the integer of such bits.
abbrev pub bits_64 : ℤ → ℕ
bits_64 (pos n) = n % two_64
bits_64 (negsuc n) = two_64 - 1 - n % two_64

abbrev pub of_bits_64 : ℕ → ℤ
of_bits_64 n = if ltb n two_63 then pos n else negsuc (two_64 - 1 - n)

-- What an `i64` operation that wraps around makes of an exact result.
unfoldable pub wrap_64 : ℤ → ℤ
wrap_64 a = of_bits_64 (bits_64 a)

-- The values of an `i64`.
pub data InRange64 : ℤ → Type 0 where
  nonneg : {n : ℕ} → n < two_63 → InRange64 (pos n)
  negative : {n : ℕ} → n < two_63 → InRange64 (negsuc n)

of_bits_64-InRange : (n : ℕ) → n < two_64 → InRange64 (of_bits_64 n)
of_bits_64-InRange n h = elim (Bool-cases (ltb n two_63)) [
  | inl small ↦ rw small (nonneg (ground arith))
  | inr large ↦ rw large (negative (ground arith))
]

bits_64-lt : (a : ℤ) → bits_64 a < two_64
bits_64-lt (pos n) = omega arith
bits_64-lt (negsuc n) = omega arith

pub wrap_64-InRange : (a : ℤ) → InRange64 (wrap_64 a)
unfolding wrap_64
wrap_64-InRange a = of_bits_64-InRange (bits_64 a) (bits_64-lt a)

pub wrap_64_id : {a : ℤ} → InRange64 a → wrap_64 a ≡ a
unfolding wrap_64
wrap_64_id (nonneg h) = ground arith
wrap_64_id (negative h) = ground arith

abbrev pub is_digit : ℕ → Bool
is_digit c = if leb b'0' c then leb c b'9' else false

-- Decimal digits, most significant first, of a number below `10 ^ fuel`.
digits_onto : ℕ → ℕ → Str → Str
digits_onto zero n out = out
digits_onto (suc fuel) n out =
    let more = digits_onto fuel (n / 10) ((b'0' + n % 10) ∷ out) in
    if n / 10 == 0 then (b'0' + n % 10) ∷ out else more

-- `to_string` of a number below `10 ^ 20`, so of every 64-bit value.
unfoldable pub show_ℕ : ℕ → Str
unfolding digits_onto
show_ℕ n = digits_onto 20 n []

unfoldable pub show_ℤ : ℤ → Str
unfolding show_ℕ
show_ℤ (pos n) = show_ℕ n
show_ℤ (negsuc n) = b'-' ∷ show_ℕ (suc n)

-- The value of a text of digits; `none` at any other character.
unfoldable pub digits_value : ℕ → Str → Option ℕ
digits_value acc [] = some acc
digits_value acc (c ∷ s) =
    let rest = digits_value (acc * 10 + (c - b'0')) s in if is_digit c then rest else none

-- Digits, at least one, of a number below `limit`: what `str::parse` accepts behind a sign.
unfoldable pub parse_digits : ℕ → Str → Option ℕ
unfolding digits_value
parse_digits limit [] = none
parse_digits limit (c ∷ s) = elim (digits_value 0 (c ∷ s)) [
  | none ↦ none
  | some n ↦ if ltb n limit then some n else none
]

-- `str::parse::<i32>`, with an optional sign
unfoldable pub parse_i32 : Str → Option ℤ
unfolding parse_digits
parse_i32 [] = none
parse_i32 (c ∷ s) =
    if c == b'-'
    then elim (parse_digits 2147483649 s) [ none ↦ none | some n ↦ some (neg_ℕ n) ]
    else elim (parse_digits 2147483648 (if c == b'+' then s else c ∷ s)) [
      | none ↦ none
      | some n ↦ some (pos n)
    ]
