-- ===== src/Shell/Builtins/Glob.antt =====
-- `glob_match` in crates/wasm_shell/src/builtins.rs.
use wasm_shell.Base.{
  ℕ, Bool, true, false, List, [], ◌∷◌, ◌++◌, Str, if◌then◌else◌, ◌==◌, ◌&&◌, ◌||◌, ◌≡◌, refl, ap,
  sym, arith, subst, Bool-cases, inl, inr, ◌↔◌,
}
use wasm_shell.Base.Utf8.{into_bytes}

-- `*`: the rest of the pattern at some place in the text.
star_bytes : (List ℕ → Bool) → List ℕ → Bool
star_bytes rest [] = rest []
star_bytes rest (t ∷ text) = rest (t ∷ text) || star_bytes rest text

any_byte : (List ℕ → Bool) → List ℕ → Bool
any_byte rest [] = false
any_byte rest (t ∷ text) = rest text

one_byte : ℕ → (List ℕ → Bool) → List ℕ → Bool
one_byte p rest [] = false
one_byte p rest (t ∷ text) = (p == t) && rest text

unfoldable pub glob_match_bytes : List ℕ → List ℕ → Bool
unfolding star_bytes any_byte one_byte
glob_match_bytes [] [] = true
glob_match_bytes [] (t ∷ text) = false
glob_match_bytes (p ∷ pat) text =
    let rest = λ (u : List ℕ). glob_match_bytes pat u in
    if p == b'*'
    then star_bytes rest text
    else if p == b'?'
    then any_byte rest text
    else one_byte p rest text

unfoldable pub glob_match : Str → Str → Bool
unfolding glob_match_bytes
glob_match pattern text = glob_match_bytes (into_bytes pattern) (into_bytes text)

-- Any bytes, and a text of `P` behind them.
abbrev pub Starred : (List ℕ → Type 0) → List ℕ → Type 0
Starred P text = (skipped : List ℕ) × (u : List ℕ) × (text ≡ skipped ++ u) × P u

-- One byte of `C`, and a text of `P` behind it.
abbrev pub Headed : (ℕ → Type 0) → (List ℕ → Type 0) → List ℕ → Type 0
Headed C P text = (t : ℕ) × (u : List ℕ) × (text ≡ t ∷ u) × C t × P u

abbrev pub Part : ℕ → (List ℕ → Type 0) → List ℕ → Type 0
Part p P =
    if p == b'*'
    then Starred P
    else if p == b'?'
    then Headed (λ _. Unit) P
    else Headed (λ t. t ≡ p) P

-- The texts of a pattern: `*` stands for any bytes, `?` for any byte, any other byte for itself.
unfoldable pub Matches : List ℕ → List ℕ → Type 0
Matches [] text = text ≡ []
Matches (p ∷ pat) text = Part p (λ u. Matches pat u) text

-- `rest` decides `P`.
abbrev Decides : (List ℕ → Bool) → (List ℕ → Type 0) → Type 0
Decides rest P = (u : List ℕ) → (rest u ≡ true) ↔ P u

other : (x y : Bool) → x ≡ false → (x || y) ≡ true → y ≡ true
other x y e h = ground arith

same_head : (s t : ℕ) (u v : List ℕ) → s ∷ u ≡ t ∷ v → s ≡ t
same_head s t u v e = cc

same_tail : (s t : ℕ) (u v : List ℕ) → s ∷ u ≡ t ∷ v → u ≡ v
same_tail s t u v e = cc

module _ (rest : List ℕ → Bool) (P : List ℕ → Type 0) (d : Decides rest P) where
  holds : (u v : List ℕ) → u ≡ v → P u → rest v ≡ true
  holds u v e m = (d v).1 (subst P e m)

  star_bytes-found :
      (t : ℕ) (text : List ℕ)
      → (star_bytes rest text ≡ true → Starred P text)
      → (rest (t ∷ text) || star_bytes rest text) ≡ true
      → Starred P (t ∷ text)
  star_bytes-found t text again h = elim (Bool-cases (rest (t ∷ text))) [
    | inl y ↦ ([], t ∷ text, refl, (d (t ∷ text)).0 y)
    | inr n ↦
        let (skipped, u, e, m) = again (other (rest (t ∷ text)) (star_bytes rest text) n h) in
        (t ∷ skipped, u, ap (λ v. t ∷ v) e, m)
  ]

  star_bytes-of_split :
      (skipped u text : List ℕ) → text ≡ skipped ++ u → P u → star_bytes rest text ≡ true
  unfolding star_bytes
  star_bytes-of_split [] u [] e m = holds u [] (sym e) m
  star_bytes-of_split [] u (t ∷ text) e m = let h = holds u (t ∷ text) (sym e) m in ground arith
  star_bytes-of_split (s ∷ skipped) u [] e m = ground arith
  star_bytes-of_split (s ∷ skipped) u (t ∷ text) e m =
      let h = star_bytes-of_split skipped u text (same_tail t s text (skipped ++ u) e) m in
      ground arith

  star_bytes-Starred : Decides (λ u. star_bytes rest u) (Starred P)
  unfolding star_bytes
  star_bytes-Starred [] =
      (λ h. ([], [], refl, (d []).0 h), λ (skipped, u, e, m). star_bytes-of_split skipped u [] e m)
  star_bytes-Starred (t ∷ text) = (
    star_bytes-found t text (star_bytes-Starred text).0,
    λ (skipped, u, e, m). star_bytes-of_split skipped u (t ∷ text) e m,
  )

  any_byte-Headed : Decides (λ u. any_byte rest u) (Headed (λ _. Unit {0}) P)
  unfolding any_byte
  any_byte-Headed [] = (λ h. ground arith, λ (t, u, e, c, m). ground arith)
  any_byte-Headed (t ∷ text) = (
    λ h. (t, text, refl, tt, (d text).0 h),
    λ (s, u, e, c, m). holds u text (sym (same_tail t s text u e)) m,
  )

  one_byte-Headed : (p : ℕ) → Decides (λ u. one_byte p rest u) (Headed (λ t. t ≡ p) P)
  unfolding one_byte
  one_byte-Headed p [] = (λ h. ground arith, λ (t, u, e, c, m). ground arith)
  one_byte-Headed p (t ∷ text) = (
    λ h.
        let e : t ≡ p = ground arith in
        let r : rest text ≡ true = ground arith in (t, text, refl, e, (d text).0 r),
    λ (s, u, e, c, m).
        let h = holds u text (sym (same_tail t s text u e)) m in
        let i = same_head t s text u e in ground arith,
  )

cases_iff :
    (a b x y z : Bool) (text : List ℕ) (X Y Z : List ℕ → Type 0)
    → (x ≡ true) ↔ X text
    → (y ≡ true) ↔ Y text
    → (z ≡ true) ↔ Z text
    → ((if a then x else if b then y else z) ≡ true) ↔ (if a then X else if b then Y else Z) text
cases_iff true b x y z text X Y Z h i j = h
cases_iff false true x y z text X Y Z h i j = i
cases_iff false false x y z text X Y Z h i j = j

-- The glob matcher of `find` finds a match exactly where the pattern stands for the text, in which `*` stands
-- for any bytes, `?` for any byte and any other byte for itself.
pub glob_match_bytes-Matches :
    (pat text : List ℕ) → (glob_match_bytes pat text ≡ true) ↔ Matches pat text
unfolding glob_match_bytes Matches
glob_match_bytes-Matches [] [] = (λ h. refl, λ h. refl)
glob_match_bytes-Matches [] (t ∷ text) = (λ h. ground arith, λ h. ground arith)
glob_match_bytes-Matches (p ∷ pat) text =
    let rest = λ (u : List ℕ). glob_match_bytes pat u in
    let P = λ (u : List ℕ). Matches pat u in
    let d : Decides rest P = λ u. glob_match_bytes-Matches pat u in
    cases_iff (p == b'*') (p == b'?') (star_bytes rest text) (any_byte rest text)
      (one_byte p rest text) text (Starred P) (Headed (λ _. Unit) P) (Headed (λ t. t ≡ p) P)
      (star_bytes-Starred rest P d text) (any_byte-Headed rest P d text)
      (one_byte-Headed rest P d p text)
