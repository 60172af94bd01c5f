-- ===== src/Shell/Arith.antt =====
-- The evaluator of `$((…))` in crates/wasm_shell/src/expand.rs, lines 181 to 390. The position in the tokens is
-- the list of those that remain. An `i64` operation that overflows wraps around, as in a build without overflow
-- checks; a division that overflows panics in every build. Of an error message the part that names the offending
-- token is left out. The text is ASCII, as the tokenizer wants it.
pub mod Fuel
pub mod Run
pub mod Expr
pub mod Grammar
use wasm_shell.Base.{
  ℕ, zero, suc, ◌+◌, ◌-◌, ◌*◌, ◌%◌, Bool, false, ◌&&◌, ◌||◌, Option, none, some, List, [], ◌∷◌,
  ◌++◌, Str, codes, length, ltb, ◌==◌, Result, ok, err, ◌>>=◌, if◌then◌else◌, leb, trim,
}
use wasm_shell.Base.Map.{Map, lookup}
use wasm_shell.Base.Int.{
  ℤ, pos, negsuc, ◌+ℤ◌, ◌-ℤ◌, ◌*ℤ◌, pow_ℤ, div_ℤ, rem_ℤ, wrap_64, is_neg, is_zero, bits_64,
  is_digit, parse_digits, two_63,
}

-- An error message, a panic of the program, or a loop of the model that has used up its fuel.
pub data ArithError : Type 0 where
  message : Str → ArithError
  panic no_fuel : ArithError

pub data ATok : Type 0 where
  num : ℤ → ATok
  plus minus star slash percent star_star lparen rparen : ATok

is_name_char : ℕ → Bool
is_name_char c = is_digit c || (leb b'a' c && leb c b'z') || (leb b'A' c && leb c b'Z') || c == b'_'

-- The variable's value, or `0`.
var_or_zero : Map Str → Str → Str
var_or_zero env name = elim (lookup name env) [ some v ↦ v | none ↦ codes "0" ]

-- `expand_arith_vars` as a machine with three states: in plain text, in the name behind `${`, in a name behind
-- `$`. The names are collected in order.
pub data Mode : Type 0 where
  text dollar : Mode
  braced bare : Str → Mode

-- What stands for the rest of the text when it ends.
at_end : Map Str → Mode → Str
at_end env text = []
at_end env dollar = b'$' ∷ []
at_end env (braced name) = var_or_zero env name
at_end env (bare name) = var_or_zero env name

-- The state after a character, and what is written for it, when no name is open.
plain_char : ℕ → Mode × Str
plain_char c = if c == b'$' then (dollar, []) else (text, c ∷ [])

step_char : Map Str → Mode → ℕ → Mode × Str
step_char env text c = plain_char c
step_char env dollar c =
    if c == b'{'
    then (braced [], [])
    else if is_name_char c
    then (bare (c ∷ []), [])
    else (let r = plain_char c in (r.0, b'$' ∷ r.1))
step_char env (braced name) c =
    if c == b'}' then (text, var_or_zero env name) else (braced (name ++ c ∷ []), [])
step_char env (bare name) c =
    if is_name_char c
    then (bare (name ++ c ∷ []), [])
    else (let r = plain_char c in (r.0, var_or_zero env name ++ r.1))

expand_from : Map Str → Mode → Str → Str
expand_from env mode [] = at_end env mode
expand_from env mode (c ∷ s) = let r = step_char env mode c in r.1 ++ expand_from env r.0 s

unfoldable pub expand_arith_vars : Str → Map Str → Str
unfolding expand_from at_end step_char plain_char var_or_zero is_name_char
expand_arith_vars expr env = expand_from env text expr

-- The digits at the front, and what follows them.
pub span_digits : Str → Str × Str
span_digits [] = ([], [])
span_digits (c ∷ s) = let r = span_digits s in if is_digit c then (c ∷ r.0, r.1) else ([], c ∷ s)

pub number_token : Str → Result ArithError ATok
number_token digits = elim (parse_digits two_63 digits) [
  | some n ↦ ok (num (pos n))
  | none ↦ err (message (codes "number too large to fit in target type"))
]

-- The token of an operator's character, but for `*`.
pub operator : ℕ → Option ATok
operator c =
    if c == b'+'
    then some plus
    else if c == b'-'
    then some minus
    else if c == b'/'
    then some slash
    else if c == b'%'
    then some percent
    else if c == b'('
    then some lparen
    else if c == b')'
    then some rparen
    else none

pub star_token : Str → Result ArithError (Option ATok × Str)
star_token [] = ok (some star, [])
star_token (d ∷ s) = if d == b'*' then ok (some star_star, s) else ok (some star, d ∷ s)

-- The first token, if the character starts one, and the rest.
unfoldable pub next_token : ℕ → Str → Result ArithError (Option ATok × Str)
unfolding span_digits number_token operator star_token
next_token c s =
    if c == b' ' || c == 9
    then ok (none, s)
    else if is_digit c
    then (let r = span_digits (c ∷ s) in number_token r.0 >>= λ t. ok (some t, r.1))
    else if c == b'*'
    then star_token s
    else elim (operator c) [
      | some t ↦ ok (some t, s)
      | none ↦ err (message (codes "unexpected char in arithmetic: " ++ c ∷ []))
    ]

pub keep_token : Option ATok → List ATok → List ATok
keep_token none ts = ts
keep_token (some t) ts = t ∷ ts

pub tokenize_from : ℕ → Str → Result ArithError (List ATok)
unfolding next_token keep_token
tokenize_from fuel [] = ok []
tokenize_from zero (c ∷ s) = err no_fuel
tokenize_from (suc fuel) (c ∷ s) =
    next_token c s >>= λ r. tokenize_from fuel r.1 >>= λ ts. ok (keep_token r.0 ts)

unfoldable pub tokenize_arith : Str → Result ArithError (List ATok)
unfolding tokenize_from
tokenize_arith input = tokenize_from (length input) input

-- Left and right binding powers.
unfoldable pub binding : ATok → Option (ℕ × ℕ)
binding plus = some (10, 11)
binding minus = some (10, 11)
binding star = some (20, 21)
binding slash = some (20, 21)
binding percent = some (20, 21)
binding star_star = some (30, 29)
binding t = none

-- Whether the loop of `parse_expr` takes the token as an operator, and its right binding power if so.
unfoldable pub continues : ATok → ℕ → Option ℕ
unfolding binding
continues op min_bp = elim (binding op) [
  | none ↦ none
  | some (lbp, rbp) ↦ if ltb lbp min_bp then none else some rbp
]

-- i64::MIN divided by -1
overflows : ℤ → ℤ → Bool
overflows (negsuc a) (negsuc b) = a == two_63 - 1 && b == 0
overflows a b = false

-- `rhs as u32`
as_u32 : ℤ → ℕ
as_u32 a = bits_64 a % 4294967296

unfoldable pub apply_binop : ATok → ℤ → ℤ → Result ArithError ℤ
unfolding overflows as_u32
apply_binop plus a b = ok (wrap_64 (a +ℤ b))
apply_binop minus a b = ok (wrap_64 (a -ℤ b))
apply_binop star a b = ok (wrap_64 (a *ℤ b))
apply_binop slash a b =
    if is_zero b
    then err (message (codes "division by zero"))
    else if overflows a b
    then err panic
    else ok (div_ℤ a b)
apply_binop percent a b =
    if is_zero b
    then err (message (codes "modulo by zero"))
    else if overflows a b
    then err panic
    else ok (rem_ℤ a b)
apply_binop star_star a b = if is_neg b then ok (pos 0) else ok (wrap_64 (pow_ℤ a (as_u32 b)))
apply_binop t a b = err panic

abbrev pub Parsed : Type 0
Parsed = Result ArithError (ℤ × List ATok)

pub expected_number : Parsed
expected_number = err (message (codes "expected number or expression"))

pub close_paren : ℤ × List ATok → Parsed
close_paren (v, rparen ∷ ts) = ok (v, ts)
close_paren (v, ts) = err (message (codes "expected closing parenthesis"))

pub negate : ℤ × List ATok → Parsed
negate (v, ts) = ok (wrap_64 (pos 0 -ℤ v), ts)

unfoldable mutual
  unfolding negate close_paren expected_number

  pub parse_expr : ℕ → List ATok → ℕ → Parsed
  parse_expr zero ts min_bp = err no_fuel
  parse_expr (suc fuel) ts min_bp = parse_prefix fuel ts >>= λ r. parse_loop fuel r.0 r.1 min_bp

  -- The loop of `parse_expr`, with the left operand that it has.
  pub parse_loop : ℕ → ℤ → List ATok → ℕ → Parsed
  parse_loop zero lhs ts min_bp = err no_fuel
  parse_loop (suc fuel) lhs [] min_bp = ok (lhs, [])
  parse_loop (suc fuel) lhs (op ∷ ts) min_bp = elim (continues op min_bp) [
    | none ↦ ok (lhs, op ∷ ts)
    | some rbp ↦
        parse_expr fuel ts rbp >>= λ r. apply_binop op lhs r.0 >>= λ v. parse_loop fuel v r.1 min_bp
  ]

  pub parse_prefix : ℕ → List ATok → Parsed
  parse_prefix zero ts = err no_fuel
  parse_prefix (suc fuel) (num n ∷ ts) = ok (n, ts)
  parse_prefix (suc fuel) (minus ∷ ts) = parse_prefix fuel ts >>= negate
  parse_prefix (suc fuel) (plus ∷ ts) = parse_prefix fuel ts
  parse_prefix (suc fuel) (lparen ∷ ts) = parse_expr fuel ts 0 >>= close_paren
  parse_prefix (suc fuel) ts = expected_number

-- The whole list has to be read.
pub finish : ℤ × List ATok → Result ArithError ℤ
finish (v, []) = ok v
finish (v, t ∷ ts) = err (message (codes "unexpected token"))

-- Enough for every list of tokens: see `Arith.Fuel`.
abbrev pub parse_fuel : List ATok → ℕ
parse_fuel ts = 2 * length ts + 2

unfoldable pub parse_tokens : List ATok → Result ArithError ℤ
unfolding parse_expr finish
parse_tokens ts = parse_expr (parse_fuel ts) ts 0 >>= finish

unfoldable pub parse_arith : Str → Result ArithError ℤ
unfolding parse_tokens tokenize_arith
parse_arith input = tokenize_arith input >>= parse_tokens

unfoldable pub eval_arith : Str → Map Str → Result ArithError ℤ
unfolding parse_arith expand_arith_vars trim
eval_arith expr env = parse_arith (trim (expand_arith_vars expr env))
