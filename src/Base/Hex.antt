-- ===== src/Base/Hex.antt =====
-- Hexadecimal text: `Buffer.from(text, 'hex')` and `toString('hex')` on bytes, `toString(16)` and
-- `parseInt(text, 16)` on numbers.
pub mod Laws
pub mod Digits
use hc_pool.Base.Compare.{ltb, leb, ◌==◌, if◌then◌else◌, or_else}
use hc_pool.Base.Text.{Text}
use Prim.Native.Nat.{ℕ, zero, suc, ◌+◌, ◌-◌, ◌*◌, ◌/◌, ◌%◌, ◌^◌, bit_xor}
use mathlib.Core.Bool.{Bool, true, false, ◌&&◌, ◌||◌}
use mathlib.Core.Path.{◌≡◌, refl}
use mathlib.Core.Logic.{◌↔◌}
use mathlib.Core.Option
use mathlib.Core.Option.{Option, none, some}
use native.Mathlib.Omega.{arith}
use mathlib.Core.List.{List, [], ◌∷◌, ◌++◌}

abbrev pub Bytes : Type 0
Bytes = List ℕ

-- 0-9, a-f
unfoldable pub hex_digit : ℕ → ℕ
hex_digit n = if ltb n 10 then n + b'0' else n + 87

unfoldable pub digit_value : ℕ → Option ℕ
digit_value c =
    if leb b'0' c && leb c b'9'
    then some (c - b'0')
    else if leb b'a' c && leb c b'f'
    then some (c - 87)
    else if leb b'A' c && leb c b'F'
    then some (c - 55)
    else none

-- `bytes.toString('hex')`
unfoldable pub hex : Bytes → Text
hex [] = []
hex (b ∷ bs) = hex_digit (b / 16) ∷ hex_digit (b % 16) ∷ hex bs

-- `Buffer.from(text, 'hex')`: it stops at the first pair that is not two digits.
unfoldable pub unhex : Text → Bytes
unhex (c ∷ d ∷ s) = elim (digit_value c) [
  | none ↦ []
  | some h ↦ elim (digit_value d) [ none ↦ [] | some l ↦ (h * 16 + l) ∷ unhex s ]
]
unhex _ = []

-- `n.toString(16)`; `n + 1` rounds are enough for the digits of `n`.
to_hex_rounds : ℕ → ℕ → Text
to_hex_rounds zero n = []
to_hex_rounds (suc f) n =
    let higher = to_hex_rounds f (n / 16) ++ hex_digit (n % 16) ∷ [] in
    if ltb n 16 then hex_digit n ∷ [] else higher

unfoldable pub to_hex : ℕ → Text
unfolding to_hex_rounds
to_hex n = to_hex_rounds (suc n) n

-- The number that the longest prefix of digits stands for, after `acc`.
unfoldable pub read_digits : ℕ → Text → ℕ
read_digits acc [] = acc
read_digits acc (c ∷ s) = elim (digit_value c) [
  | none ↦ acc
  | some d ↦ read_digits (acc * 16 + d) s
]

-- An integer: `negsuc n` is -(n + 1).
pub data ℤ : Type 0 where
  pos : ℕ → ℤ
  negsuc : ℕ → ℤ

abbrev pub negate : ℕ → ℤ
negate zero = pos 0
negate (suc n) = negsuc n

-- White space that `parseInt` skips (of the ASCII range).
abbrev is_space : ℕ → Bool
is_space c = c == 32 || (leb 9 c && leb c 13)

unfoldable pub trim_start : Text → Text
trim_start [] = []
trim_start (c ∷ s) = if is_space c then trim_start s else c ∷ s

-- An optional 0x.
unfoldable pub skip_prefix : Text → Text
skip_prefix (c ∷ x ∷ s) = if c == b'0' && (x == b'x' || x == b'X') then s else c ∷ x ∷ s
skip_prefix s = s

-- `parseInt(text, 16)` where it is finite, and 0 for a text with no digits.
unfoldable pub parse_signed : Text → ℤ
parse_signed [] = pos 0
parse_signed (c ∷ s) =
    if c == b'-'
    then negate (read_digits 0 (skip_prefix s))
    else if c == b'+'
    then pos (read_digits 0 (skip_prefix s))
    else pos (read_digits 0 (skip_prefix (c ∷ s)))

unfoldable pub parse_hex : Text → ℤ
unfolding parse_signed
parse_hex s = parse_signed (trim_start s)

read_decimal : ℕ → Text → ℕ
read_decimal acc [] = acc
read_decimal acc (c ∷ s) =
    let more = read_decimal (acc * 10 + (c - b'0')) s in
    if leb b'0' c && leb c b'9' then more else acc

-- The longest prefix of decimal digits, if there is one.
decimal_prefix : Text → Option ℕ
unfolding read_decimal
decimal_prefix [] = none
decimal_prefix (c ∷ s) = if leb b'0' c && leb c b'9' then some (read_decimal 0 (c ∷ s)) else none

parse_signed10 : Text → Option ℤ
unfolding decimal_prefix
parse_signed10 [] = none
parse_signed10 (c ∷ s) =
    if c == b'-'
    then Option.map negate (decimal_prefix s)
    else if c == b'+'
    then Option.map pos (decimal_prefix s)
    else Option.map pos (decimal_prefix (c ∷ s))

-- `parseInt(text, 10)`; `none` is NaN.
unfoldable pub parse_decimal : Text → Option ℤ
unfolding parse_signed10 trim_start
parse_decimal s = parse_signed10 (trim_start s)

-- `n <= z`
abbrev pub leb_int : ℕ → ℤ → Bool
leb_int n (pos m) = leb n m
leb_int n (negsuc m) = false

-- `z.toString(16)`
unfoldable pub int_to_hex : ℤ → Text
unfolding to_hex
int_to_hex (pos n) = to_hex n
int_to_hex (negsuc n) = b'-' ∷ to_hex (suc n)

-- `===` on integers
unfoldable pub int_eq : ℤ → ℤ → Bool
int_eq (pos a) (pos b) = a == b
int_eq (negsuc a) (negsuc b) = a == b
int_eq _ _ = false

pub int_eq_iff : (a b : ℤ) → (int_eq a b ≡ true) ↔ (a ≡ b)
unfolding int_eq
int_eq_iff (pos a) b = ground arith
int_eq_iff (negsuc a) b = ground arith

-- `ToUint32`, and a 32-bit pattern read as a signed number.
abbrev pub to_u32 : ℤ → ℕ
to_u32 (pos n) = n % 2 ^ 32
to_u32 (negsuc n) = 2 ^ 32 - 1 - n % 2 ^ 32

abbrev pub from_i32 : ℕ → ℤ
from_i32 n = if ltb n (2 ^ 31) then pos n else negsuc (2 ^ 32 - 1 - n)

-- `a ^ b`
unfoldable pub xor32 : ℤ → ℤ → ℤ
xor32 a b = from_i32 (bit_xor (to_u32 a) (to_u32 b))
