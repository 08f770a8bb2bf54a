-- ===== src/Base/Hex/Laws.antt =====
-- Round trips of hexadecimal text.
use hc_pool.Base.Compare.{ltb, Bool-cases}
use hc_pool.Base.Text.{Text}
use hc_pool.Base.Lists.{length}
use hc_pool.Base.Hex.{Bytes, hex_digit, digit_value, hex, unhex, to_hex_rounds, to_hex, read_digits}
use Prim.Native.Nat.{ℕ, zero, suc, ◌+◌, ◌*◌, ◌/◌, ◌%◌, ◌<◌}
use mathlib.Core.Path.{◌≡◌, refl, ap, sym, ◌∙◌}
use mathlib.Core.Logic.{inl, inr}
use mathlib.Core.Option.{some}
use mathlib.Core.List.{[], ◌∷◌, ◌++◌, append_assoc, append-nil}
use native.Mathlib.Omega.{arith}

-- Every element is a byte.
abbrev pub AreBytes : Bytes → Type 0
AreBytes [] = Unit {0}
AreBytes (b ∷ bs) = (b < 256) × AreBytes bs

pub digit_value-hex_digit : (n : ℕ) → n < 16 → digit_value (hex_digit n) ≡ some n
unfolding digit_value hex_digit
digit_value-hex_digit n h = ground arith

pub unhex-hex_append : (bs : Bytes) (s : Text) → AreBytes bs → unhex (hex bs ++ s) ≡ bs ++ unhex s
unfolding hex unhex
unhex-hex_append [] s h = refl
unhex-hex_append (b ∷ bs) s (lt, h) = ground (
  arith,
  digit_value-hex_digit (b / 16) (omega arith),
  digit_value-hex_digit (b % 16) (omega arith),
  unhex-hex_append bs s h,
)

pub hex-append : (bs cs : Bytes) → hex (bs ++ cs) ≡ hex bs ++ hex cs
unfolding hex
hex-append [] cs = refl
hex-append (b ∷ bs) cs = rw (hex-append bs cs)

pub length-hex : (bs : Bytes) → length (hex bs) ≡ length bs * 2
unfolding hex
length-hex [] = refl
length-hex (b ∷ bs) = omega (arith, length-hex bs)

read_digits-hex_digit :
    (acc n : ℕ) (s : Text)
    → n < 16
    → read_digits acc (hex_digit n ∷ s) ≡ read_digits (acc * 16 + n) s
unfolding read_digits
read_digits-hex_digit acc n s h = rw (digit_value-hex_digit n h, read_digits)

read_digits-to_hex_rounds :
    (f n : ℕ) (s : Text) → n < f → read_digits 0 (to_hex_rounds f n ++ s) ≡ read_digits n s
unfolding to_hex_rounds
read_digits-to_hex_rounds zero n s h = elim h [ ]
read_digits-to_hex_rounds (suc f) n s h = elim (Bool-cases (ltb n 16)) [
  | inl small ↦
      rw small
        (read_digits-hex_digit 0 n s (ground arith) ∙ ap (λ m. read_digits m s) (omega arith))
  | inr large ↦
      rw (large, append_assoc (to_hex_rounds f (n / 16)) (hex_digit (n % 16) ∷ []) s)
        (read_digits-to_hex_rounds f (n / 16) (hex_digit (n % 16) ∷ s) (ground arith)
          ∙ read_digits-hex_digit (n / 16) (n % 16) s (omega arith)
          ∙ ap (λ m. read_digits m s) (omega arith))
]

pub read_digits-to_hex : (n : ℕ) → read_digits 0 (to_hex n) ≡ n
unfolding to_hex read_digits
read_digits-to_hex n =
    ap (read_digits 0) (sym (append-nil (to_hex_rounds (suc n) n)))
    ∙ read_digits-to_hex_rounds (suc n) n [] (omega arith)

-- Distinct numbers have distinct texts.
pub to_hex_injective : (m n : ℕ) → to_hex m ≡ to_hex n → m ≡ n
to_hex_injective m n e = sym (read_digits-to_hex m) ∙ ap (read_digits 0) e ∙ read_digits-to_hex n
