-- ===== src/Base/Hex/Digits.antt =====
-- Texts of hexadecimal digits in lower case: they are what `hex` writes of bytes.
use hc_pool.Base.{
  ℕ, zero, suc, ◌+◌, ◌*◌, ◌/◌, ◌%◌, ◌^◌, ◌≤◌, ◌<◌, ◌≡◌, refl, true, inl, inr, Bool-cases, [], ◌∷◌,
  ◌++◌, length, replicate, ltb, length-append, arith,
}
use native.Mathlib.Nat.{pow-succ'}
use hc_pool.Base.Text.{Text}
use hc_pool.Base.Hex.{Bytes, hex, hex_digit, to_hex, to_hex_rounds}
use hc_pool.Base.Hex.Laws.{AreBytes}

-- A digit is that of a number below 16.
abbrev pub IsDigit : ℕ → Type 0
IsDigit c = (n : ℕ) × (n < 16) × (c ≡ hex_digit n)

abbrev pub AreDigits : Text → Type 0
AreDigits [] = Unit {0}
AreDigits (c ∷ s) = IsDigit c × AreDigits s

pub hex_digit-IsDigit : (n : ℕ) → n < 16 → IsDigit (hex_digit n)
hex_digit-IsDigit n h = (n, h, refl)

pub ++-AreDigits : (s t : Text) → AreDigits s → AreDigits t → AreDigits (s ++ t)
++-AreDigits [] t h k = k
++-AreDigits (c ∷ s) t (d, h) k = (d, ++-AreDigits s t h k)

pub replicate-AreDigits : (n : ℕ) → AreDigits (replicate n b'0')
unfolding hex_digit
replicate-AreDigits zero = tt
replicate-AreDigits (suc n) = ((0, ground arith, refl), replicate-AreDigits n)

to_hex_rounds-AreDigits : (f n : ℕ) → AreDigits (to_hex_rounds f n)
unfolding to_hex_rounds
to_hex_rounds-AreDigits zero n = tt
to_hex_rounds-AreDigits (suc f) n = elim (Bool-cases (ltb n 16)) [
  | inl small ↦ rw small (hex_digit-IsDigit n (ground (arith, small)), tt)
  | inr large ↦ rw large (
      ++-AreDigits (to_hex_rounds f (n / 16)) (hex_digit (n % 16) ∷ [])
        (to_hex_rounds-AreDigits f (n / 16)) (hex_digit-IsDigit (n % 16) (omega arith), tt))
]

pub to_hex-AreDigits : (n : ℕ) → AreDigits (to_hex n)
unfolding to_hex
to_hex-AreDigits n = to_hex_rounds-AreDigits (suc n) n

length-to_hex_rounds : (f n k : ℕ) → n < 16 ^ suc k → length (to_hex_rounds f n) ≤ suc k
unfolding to_hex_rounds
length-to_hex_rounds zero n k h = omega arith
length-to_hex_rounds (suc f) n zero h =
    let small : ltb n 16 ≡ true = ground (arith, h) in rw small (omega arith)
length-to_hex_rounds (suc f) n (suc k) h = elim (Bool-cases (ltb n 16)) [
  | inl small ↦ rw small (omega arith)
  | inr large ↦
      let smaller : n / 16 < 16 ^ suc k = omega (arith, pow-succ' 16 (suc k), h) in
      rw large (
        omega (
          arith,
          length-append (to_hex_rounds f (n / 16)) (hex_digit (n % 16) ∷ []),
          length-to_hex_rounds f (n / 16) k smaller,
        ))
]

pub length-to_hex : (n k : ℕ) → n < 16 ^ suc k → length (to_hex n) ≤ suc k
unfolding to_hex
length-to_hex n k h = length-to_hex_rounds (suc n) n k h

-- Two digits for each byte.
pub AreDigits-hex :
    (k : ℕ) (s : Text)
    → AreDigits s
    → length s ≡ k * 2
    → (bs : Bytes) × (s ≡ hex bs) × (length bs ≡ k) × AreBytes bs
unfolding hex
AreDigits-hex zero [] h l = ([], refl, refl, tt)
AreDigits-hex zero (c ∷ s) h l = absurd (omega (arith, l))
AreDigits-hex (suc k) [] h l = absurd (omega (arith, l))
AreDigits-hex (suc k) (c ∷ []) h l = absurd (omega (arith, l))
AreDigits-hex (suc k) (c ∷ d ∷ s) ((m, hm, em), ((n, hn, en), h)) l =
    let (bs, same, size, bytes) = AreDigits-hex k s h (omega (arith, l)) in
    let high : (m * 16 + n) / 16 ≡ m = omega arith in
    let low : (m * 16 + n) % 16 ≡ n = omega arith in
    (
      (m * 16 + n) ∷ bs,
      rw (high, low) (cc (em, en, same)),
      omega (arith, size),
      (omega arith, bytes),
    )
