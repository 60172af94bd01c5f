-- ===== src/Base/Text.antt =====
-- Text as a list of code points, and what the program uses of Rust's `str`.
use Prim.Native.Nat.{ℕ, suc, ◌≤◌}
use Prim.Native.Char.{code}
use Prim.Native.String.{String}
use mathlib.Core.Path.{◌≡◌, refl, subst}
use mathlib.Core.Logic.{◌≢◌, ite}
use mathlib.Core.Bool.{Bool, true, false, ◌&&◌, ◌||◌}
use mathlib.Core.List.{List, [], ◌∷◌, ◌++◌}
use native.Mathlib.Omega.{arith}
use native.Mathlib.Decide.{ℕ_discrete}
use wasm_shell.Base.Tests.{◌==◌, ltb, leb, if◌then◌else◌}
use wasm_shell.Base.Lists.{All, length}

abbrev pub Str : Type 0
Str = List ℕ

-- The code points of a text; `String` has its own `[]` and `∷`.
abbrev pub codes : String → Str
codes String.[] = []
codes (String.◌∷◌ c s) = code c ∷ codes s

pub str_beq : Str → Str → Bool
str_beq [] [] = true
str_beq [] (y ∷ t) = false
str_beq (x ∷ s) [] = false
str_beq (x ∷ s) (y ∷ t) = (x == y) && str_beq s t

pub str_beq-eq : (s t : Str) → str_beq s t ≡ true → s ≡ t
unfolding str_beq
str_beq-eq [] [] h = refl
str_beq-eq [] (y ∷ t) h = cc
str_beq-eq (x ∷ s) [] h = cc
str_beq-eq (x ∷ s) (y ∷ t) h = ground (arith, str_beq-eq s t)

str_beq_refl : (s : Str) → str_beq s s ≡ true
unfolding str_beq
str_beq_refl [] = refl
str_beq_refl (x ∷ s) = ground (arith, str_beq_refl s)

pub str_beq-of_eq : (s t : Str) → s ≡ t → str_beq s t ≡ true
str_beq-of_eq s t p = subst (λ u. str_beq s u ≡ true) p (str_beq_refl s)

dec_of : (b : Bool) (s t : Str) → (b ≡ true → s ≡ t) → (s ≡ t → b ≡ true) → Dec (s ≡ t)
dec_of true s t f g = yes (f refl)
dec_of false s t f g = no (λ p. cc (g p))

-- Equality of texts as a decision, so that a split on it yields the equation or its negation.
unfoldable pub str_dec : Discrete Str
unfolding dec_of str_beq
str_dec s t = dec_of (str_beq s t) s t (str_beq-eq s t) (str_beq-of_eq s t)

abbrev pub str_eq : Str → Str → Bool
str_eq s t = ite (str_dec s t) true false

-- `str::starts_with`
unfoldable pub starts_with : Str → Str → Bool
starts_with s [] = true
starts_with [] (y ∷ t) = false
starts_with (x ∷ s) (y ∷ t) = (x == y) && starts_with s t

-- `str::contains` of one character
unfoldable pub contains_char : ℕ → Str → Bool
contains_char c [] = false
contains_char c (x ∷ s) = (x == c) || contains_char c s

cons_head : ℕ → List Str → List Str
cons_head x [] = (x ∷ []) ∷ []
cons_head x (s ∷ ss) = (x ∷ s) ∷ ss

-- `str::split` at one character: one piece more than there are separators.
unfoldable pub split : ℕ → Str → List Str
unfolding cons_head
split c [] = [] ∷ []
split c (x ∷ xs) = let rest = split c xs in if x == c then [] ∷ rest else cons_head x rest

-- `[_]::join`
unfoldable pub join : Str → List Str → Str
join sep [] = []
join sep (s ∷ []) = s
join sep (s ∷ (t ∷ ts)) = s ++ (sep ++ join sep (t ∷ ts))

-- `str::trim_start_matches` of one character
unfoldable pub trim_start_matches : ℕ → Str → Str
trim_start_matches c [] = []
trim_start_matches c (x ∷ xs) =
    let rest = trim_start_matches c xs in if x == c then rest else x ∷ xs

abbrev or_char : ℕ → Bool → Str → Str
or_char x trailing [] = if trailing then [] else x ∷ []
or_char x trailing (y ∷ ys) = x ∷ (y ∷ ys)

-- `str::trim_end_matches` of one character
unfoldable pub trim_end_matches : ℕ → Str → Str
trim_end_matches c [] = []
trim_end_matches c (x ∷ xs) = or_char x (x == c) (trim_end_matches c xs)

-- `str::trim` at ASCII white space
is_white : ℕ → Bool
is_white c = c == b' ' || (leb 9 c && leb c 13)

trim_start : Str → Str
trim_start [] = []
trim_start (c ∷ s) = let rest = trim_start s in if is_white c then rest else c ∷ s

drop_end : Bool → ℕ → Str → Str
drop_end white c [] = if white then [] else c ∷ []
drop_end white c (d ∷ s) = c ∷ (d ∷ s)

trim_end : Str → Str
trim_end [] = []
trim_end (c ∷ s) = drop_end (is_white c) c (trim_end s)

unfoldable pub trim : Str → Str
unfolding trim_start trim_end drop_end is_white
trim s = trim_end (trim_start s)

-- `str`'s order: the first difference decides.
unfoldable pub str_lt : Str → Str → Bool
str_lt s [] = false
str_lt [] (y ∷ t) = true
str_lt (x ∷ s) (y ∷ t) = if x == y then str_lt s t else ltb x y

-- No character of the text is `c`.
abbrev pub Lacks : ℕ → Str → Type 0
Lacks c = All (λ x. x ≢ c)

split-cons_ne :
    (c x : ℕ) (s t : Str) (ss : List Str)
    → x ≢ c
    → split c s ≡ t ∷ ss
    → split c (x ∷ s) ≡ (x ∷ t) ∷ ss
unfolding split
split-cons_ne c x s t ss h e = ground arith

pub split-append_sep : (c : ℕ) (s t : Str) → Lacks c s → split c (s ++ c ∷ t) ≡ s ∷ split c t
unfolding split
split-append_sep c [] t h = ground arith
split-append_sep c (x ∷ s) t h =
    split-cons_ne c x (s ++ c ∷ t) s (split c t) h.0 (split-append_sep c s t h.1)

pub split_lacking : (c : ℕ) (s : Str) → Lacks c s → split c s ≡ s ∷ []
unfolding split
split_lacking c [] h = refl
split_lacking c (x ∷ s) h = split-cons_ne c x s s [] h.0 (split_lacking c s h.1)

cons_head-Lacks :
    (c x : ℕ) (ss : List Str) → x ≢ c → All (Lacks c) ss → All (Lacks c) (cons_head x ss)
unfolding cons_head
cons_head-Lacks c x [] h a = ((h, tt), tt)
cons_head-Lacks c x (s ∷ ss) h a = ((h, a.0), a.1)

pub split-Lacks : (c : ℕ) (s : Str) → All (Lacks c) (split c s)
unfolding split
split-Lacks c [] = (tt, tt)
split-Lacks c (x ∷ s) = elim (ℕ_discrete x c) [
  | yes p ↦ let e : (x == c) ≡ true = ground arith in rw e (tt, split-Lacks c s)
  | no n ↦
      let e : (x == c) ≡ false = ground arith in
      rw e (cons_head-Lacks c x (split c s) n (split-Lacks c s))
]

pub str_eq-true : (s t : Str) → s ≡ t → str_eq s t ≡ true
str_eq-true s t p = elim (str_dec s t) as (λ d. ite d true false ≡ true) [
  | yes q ↦ refl
  | no n ↦ absurd (n p)
]

pub str_eq-false : (s t : Str) → s ≢ t → str_eq s t ≡ false
str_eq-false s t p = elim (str_dec s t) as (λ d. ite d true false ≡ false) [
  | yes q ↦ absurd (p q)
  | no n ↦ refl
]

pub Lacks-of_test : (c : ℕ) (s : Str) → contains_char c s ≡ false → Lacks c s
unfolding contains_char
Lacks-of_test c [] h = tt
Lacks-of_test c (x ∷ s) h = (ground arith, Lacks-of_test c s (ground arith))

trim_start-length : (s : Str) → length (trim_start s) ≤ length s
unfolding trim_start
trim_start-length [] = omega arith
trim_start-length (c ∷ s) = ground (arith, trim_start-length s)

drop_end-length : (white : Bool) (c : ℕ) (s : Str) → length (drop_end white c s) ≤ suc (length s)
unfolding drop_end
drop_end-length white c [] = ground arith
drop_end-length white c (d ∷ s) = omega arith

trim_end-length : (s : Str) → length (trim_end s) ≤ length s
unfolding trim_end
trim_end-length [] = omega arith
trim_end-length (c ∷ s) =
    omega (arith, drop_end-length (is_white c) c (trim_end s), trim_end-length s)

pub trim-length : (s : Str) → length (trim s) ≤ length s
unfolding trim
trim-length s = omega (arith, trim_end-length (trim_start s), trim_start-length s)
