-- ===== src/Base/Utf8.antt =====
-- `String::into_bytes`, `str::from_utf8` and `String::from_utf8_lossy`: text is a list of code points.
use wasm_shell.Base.Tests.{ltb, leb, ◌==◌, if◌then◌else◌}
use wasm_shell.Base.Lists.{length}
use wasm_shell.Base.Text.{Str}
use Prim.Native.Nat.{ℕ, zero, suc, ◌+◌, ◌-◌, ◌*◌, ◌/◌, ◌%◌}
use mathlib.Core.Bool.{◌&&◌}
use mathlib.Core.Option.{Option, none, some}
use mathlib.Core.List.{List, [], ◌∷◌, ◌++◌}
use mathlib.Core.Path.{◌≡◌, refl}
use native.Mathlib.Omega.{arith}

-- `char::len_utf8`
unfoldable pub len_utf8 : ℕ → ℕ
len_utf8 c = if ltb c 0x80 then 1 else if ltb c 0x800 then 2 else if ltb c 0x10000 then 3 else 4

-- `str::len`, in bytes
unfoldable pub byte_len : Str → ℕ
unfolding len_utf8
byte_len [] = 0
byte_len (c ∷ s) = len_utf8 c + byte_len s

pub byte_len-append : (s t : Str) → byte_len (s ++ t) ≡ byte_len s + byte_len t
unfolding byte_len
byte_len-append [] t = omega arith
byte_len-append (c ∷ s) t = omega (arith, byte_len-append s t)

pub byte_len-eq-zero : (s : Str) → byte_len s ≡ 0 → s ≡ []
unfolding byte_len
byte_len-eq-zero [] h = refl
byte_len-eq-zero (c ∷ s) h = ground arith

continuation : ℕ → ℕ
continuation n = 128 + n % 64

unfoldable pub encode_char : ℕ → List ℕ
unfolding continuation
encode_char c =
    if ltb c 0x80
    then c ∷ []
    else if ltb c 0x800
    then (192 + c / 64) ∷ continuation c ∷ []
    else if ltb c 0x10000
    then (224 + c / 4096) ∷ continuation (c / 64) ∷ continuation c ∷ []
    else (240 + c / 262144) ∷ continuation (c / 4096) ∷ continuation (c / 64) ∷ continuation c ∷ []

unfoldable pub into_bytes : Str → List ℕ
unfolding encode_char
into_bytes [] = []
into_bytes (c ∷ s) = encode_char c ++ into_bytes s

-- The bytes that have to follow, each between two bounds; what does not fit is left.
tail_bytes : List (ℕ × ℕ) → ℕ → List ℕ → Option ℕ × List ℕ
tail_bytes [] acc bytes = (some acc, bytes)
tail_bytes (r ∷ rs) acc [] = (none, [])
tail_bytes ((lo, hi) ∷ rs) acc (b ∷ bytes) =
    if leb lo b && leb b hi then tail_bytes rs (acc * 64 + (b - 128)) bytes else (none, b ∷ bytes)

abbrev any_tail : ℕ × ℕ
any_tail = (128, 191)

-- One character, if the bytes start with one, and what follows it; else what follows the longest part of one.
decode_char : ℕ → List ℕ → Option ℕ × List ℕ
unfolding tail_bytes
decode_char b bytes =
    if ltb b 0x80
    then (some b, bytes)
    else if leb 194 b && leb b 223
    then tail_bytes (any_tail ∷ []) (b - 192) bytes
    else if b == 224
    then tail_bytes ((160, 191) ∷ any_tail ∷ []) 0 bytes
    else if b == 237
    then tail_bytes ((128, 159) ∷ any_tail ∷ []) 13 bytes
    else if leb 225 b && leb b 239
    then tail_bytes (any_tail ∷ any_tail ∷ []) (b - 224) bytes
    else if b == 240
    then tail_bytes ((144, 191) ∷ any_tail ∷ any_tail ∷ []) 0 bytes
    else if leb 241 b && leb b 243
    then tail_bytes (any_tail ∷ any_tail ∷ any_tail ∷ []) (b - 240) bytes
    else if b == 244
    then tail_bytes ((128, 143) ∷ any_tail ∷ any_tail ∷ []) 4 bytes
    else (none, bytes)

-- `none` for each part that is no character. Every round takes a byte, so their number is fuel enough.
decode_from : ℕ → List ℕ → List (Option ℕ)
decode_from fuel [] = []
decode_from zero (b ∷ bytes) = []
decode_from (suc fuel) (b ∷ bytes) = let r = decode_char b bytes in r.0 ∷ decode_from fuel r.1

unfoldable pub decode : List ℕ → List (Option ℕ)
unfolding decode_from decode_char
decode bytes = decode_from (length bytes) bytes

all_some : List (Option ℕ) → Option Str
all_some [] = some []
all_some (none ∷ cs) = none
all_some (some c ∷ cs) = elim (all_some cs) [ none ↦ none | some s ↦ some (c ∷ s) ]

replaced : List (Option ℕ) → Str
replaced [] = []
replaced (none ∷ cs) = 0xFFFD ∷ replaced cs
replaced (some c ∷ cs) = c ∷ replaced cs

unfoldable pub from_utf8 : List ℕ → Option Str
unfolding decode all_some
from_utf8 bytes = all_some (decode bytes)

unfoldable pub from_utf8_lossy : List ℕ → Str
unfolding decode replaced
from_utf8_lossy bytes = replaced (decode bytes)
