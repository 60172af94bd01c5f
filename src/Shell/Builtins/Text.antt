-- ===== src/Shell/Builtins/Text.antt =====
-- The text functions of crates/wasm_shell/src/builtins.rs: the escapes of `echo -e` and the sets of `tr`.
use wasm_shell.Base.{
  ℕ, zero, suc, ◌+◌, ◌-◌, false, [], ◌∷◌, ◌++◌, Str, if◌then◌else◌, ◌==◌, ◌&&◌, ◌||◌, ltb, leb, ◌≡◌,
  refl, ap, ◌∙◌, arith, Bool-cases, inl, inr,
}

-- What a backslash and a character behind it stand for.
unfoldable pub escape_of : ℕ → Str
escape_of c =
    if c == b'n'
    then 0x0A ∷ []
    else if c == b't'
    then 0x09 ∷ []
    else if c == b'r'
    then 0x0D ∷ []
    else if c == b'\\'
    then b'\\' ∷ []
    else if c == b'a'
    then 0x07 ∷ []
    else if c == b'b'
    then 0x08 ∷ []
    else if c == b'e' || c == b'E'
    then 0x1B ∷ []
    else if c == b'f'
    then 0x0C ∷ []
    else if c == b'v'
    then 0x0B ∷ []
    else if c == b'0'
    then 0 ∷ []
    else b'\\' ∷ c ∷ []

-- A backslash at the end stands for itself.
unfoldable pub interpret_escapes : Str → Str
unfolding escape_of
interpret_escapes [] = []
interpret_escapes (c ∷ []) = c ∷ []
interpret_escapes (c ∷ d ∷ s) =
    let after = interpret_escapes s in
    let next = interpret_escapes (d ∷ s) in if c == b'\\' then escape_of d ++ after else c ∷ next

-- The characters from `cp` on, `count` code points long; a surrogate is no character.
char_range : ℕ → ℕ → Str
char_range zero cp = []
char_range (suc count) cp =
    let rest = char_range count (cp + 1) in
    if leb 0xD800 cp && ltb cp 0xE000 then rest else cp ∷ rest

-- A character behind a backslash in a set.
charset_escape : ℕ → ℕ
charset_escape c = if c == b'n' then 0x0A else if c == b't' then 0x09 else c

unfoldable pub expand_charset : Str → Str
unfolding char_range charset_escape
expand_charset [] = []
expand_charset (c ∷ []) = c ∷ []
expand_charset (c ∷ d ∷ []) =
    if c == b'\\' then charset_escape d ∷ [] else c ∷ expand_charset (d ∷ [])
expand_charset (c ∷ d ∷ e ∷ s) =
    let escaped = expand_charset (e ∷ s) in
    let ranged = expand_charset s in
    let single = expand_charset (d ∷ e ∷ s) in
    if c == b'\\'
    then charset_escape d ∷ escaped
    else if d == b'-'
    then char_range (e + 1 - c) c ++ ranged
    else c ∷ single

-- Every backslash twice.
unfoldable pub escape_backslashes : Str → Str
escape_backslashes [] = []
escape_backslashes (c ∷ s) =
    let rest = escape_backslashes s in if c == b'\\' then b'\\' ∷ b'\\' ∷ rest else c ∷ rest

interpret_escapes-plain :
    (c : ℕ) (s : Str) → (c == b'\\') ≡ false → interpret_escapes (c ∷ s) ≡ c ∷ interpret_escapes s
unfolding interpret_escapes
interpret_escapes-plain c [] n = refl
interpret_escapes-plain c (d ∷ s) n = rw n refl

-- A text with every backslash doubled is what `echo -e` makes of it.
pub interpret_escapes-escape_backslashes : (s : Str) → interpret_escapes (escape_backslashes s) ≡ s
unfolding interpret_escapes escape_backslashes escape_of
interpret_escapes-escape_backslashes [] = refl
interpret_escapes-escape_backslashes (c ∷ s) = elim (Bool-cases (c == b'\\')) [
  | inl y ↦
      let e : c ≡ b'\\' = ground arith in let h = interpret_escapes-escape_backslashes s in rw y cc
  | inr n ↦ rw n (
      interpret_escapes-plain c (escape_backslashes s) n
      ∙ ap (λ t. c ∷ t) (interpret_escapes-escape_backslashes s))
]
