-- ===== src/Base/Outcome.antt =====
-- `Result<T, E>` with `?` as `do`, and operations that change a state and may fail.
use mathlib.Core.Path.{◌≡◌, refl}
use mathlib.Core.Bool.{Bool, true, false}

-- The error's type comes first, as the computations that follow one another share it.
pub data Result (E A : Type 0) : Type 0 where
  ok : (value : A) → Result E A
  err : (problem : E) → Result E A

infixl 5 ◌>>=◌
abbrev pub ◌>>=◌ : {E A B : Type 0} (r : Result E A) (next : A → Result E B) → Result E B
(err problem) >>= next = err problem
(ok value) >>= next = next value

-- `Result::is_ok`
abbrev pub is_ok : {E A : Type 0} → Result E A → Bool
is_ok (err problem) = false
is_ok (ok value) = true

pub >>=-eq-ok :
    {E A B : Type 0} (r : Result E A) (next : A → Result E B) {out : B}
    (ends : (r >>= next) ≡ ok out)
    → (value : A) × (r ≡ ok value) × (next value ≡ ok out)
>>=-eq-ok (err problem) next ends = cc
>>=-eq-ok (ok value) next ends = (value, refl, ends)

pub >>=-assoc :
    {E A B C : Type 0} (m : Result E A) (f : A → Result E B) (g : B → Result E C)
    → ((m >>= f) >>= g) ≡ (m >>= λ x. f x >>= g)
>>=-assoc (ok x) f g = refl
>>=-assoc (err e) f g = refl

pub >>=-ext :
    {E A B : Type 0} (m : Result E A) (f g : A → Result E B)
    → ((a : A) → f a ≡ g a)
    → (m >>= f) ≡ (m >>= g)
>>=-ext (ok x) f g h = h x
>>=-ext (err e) f g h = refl

pub >>=-ok : {E A : Type 0} (m : Result E A) → (m >>= λ a. ok a) ≡ m
>>=-ok (ok x) = refl
>>=-ok (err e) = refl
