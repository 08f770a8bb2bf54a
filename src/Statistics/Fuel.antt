-- ===== src/Statistics/Fuel.antt =====
-- How deep `nearestPowerOfTwo` of src/models/StratumV1ClientStatistics.ts recurses on a finite value.
use Prim.Native.Nat.{bit_or, digits, bit_or-bitwise}
use hc_pool.Base.{
  ℕ, zero, suc, ◌+◌, ◌-◌, ◌*◌, ◌/◌, ◌%◌, ◌^◌, ◌≤◌, ◌<◌, ◌≡◌, sym, subst, max, true, false, arith,
  ◌==◌, ltb, leb, Bool-cases, inl, inr, is_some, ◌⊎◌,
}
use native.Mathlib.Nat.{lt-div-mul-add, div-lt_iff_lt-mul}
use hc_pool.Bucket.{grain}
use hc_pool.Difficulty.{ratio}
use hc_pool.Statistics.{highest_power, smear, nearest_power_of_two}

digits-ge : (n a b : ℕ) → a ≤ n → a ≤ digits (λ b. b) max n a b
digits-ge zero a b h = omega (arith, h)
digits-ge (suc n) zero b h = omega arith
digits-ge (suc n) (suc a) b h = omega (arith, h, digits-ge n (suc a / 2) (b / 2) (omega (arith, h)))

bit_or-ge : (a b : ℕ) → a ≤ bit_or a b
bit_or-ge a b = subst (λ x. a ≤ x) (sym (bit_or-bitwise a b)) (digits-ge a a b (omega arith))

half : (x : ℕ) → 0 < x → 0 < x - x / 2
half x h = omega arith

highest_power-pos : (n : ℕ) → 0 < n → n < 2 ^ 31 → 0 < highest_power n
unfolding highest_power
highest_power-pos n p h =
    let m = n % 2 ^ 32 in
    let x1 = smear 1 m in
    let x2 = smear 2 x1 in
    let x3 = smear 4 x2 in
    let x4 = smear 8 x3 in
    let whole : m ≡ n = omega (arith, h) in
    let low : leb (2 ^ 31) m ≡ false = ground (arith, whole, h) in
    let big : n ≤ smear 16 x4 = omega (
      arith,
      whole,
      bit_or-ge m (m / 2 ^ 1),
      bit_or-ge x1 (x1 / 2 ^ 2),
      bit_or-ge x2 (x2 / 2 ^ 4),
      bit_or-ge x3 (x3 / 2 ^ 8),
      bit_or-ge x4 (x4 / 2 ^ 16),
    ) in
    rw low (half (smear 16 x4) (omega (arith, big, p)))

at_least_one : (x n d : ℕ) → n < x * d + d → d ≤ n → 0 < x
at_least_one zero n d g h = absurd (omega (arith, g, h))
at_least_one (suc x) n d g h = omega arith

div_pos : (n d : ℕ) → 0 < d → d ≤ n → 0 < n / d
div_pos n d q h = at_least_one (n / d) n d (lt-div-mul-add q) h

div_lt : (n d c : ℕ) → 0 < d → n < c * d → n / d < c
div_lt n d c q h = (div-lt_iff_lt-mul q).1 h

-- `n` multiplied by 100, `k` times.
abbrev pub scaled : ℕ → ℕ → ℕ
scaled zero n = n
scaled (suc k) n = scaled k (n * 100)

at_one :
    (k min_diff n d : ℕ)
    → 0 < n
    → 0 < highest_power (n / d)
    → is_some (nearest_power_of_two (suc k) min_diff (ratio n d)) ≡ true
unfolding nearest_power_of_two
at_one k min_diff n d p r = ground (arith, p, r)

deeper_round :
    (fuel min_diff n d : ℕ)
    → is_some (nearest_power_of_two fuel min_diff (ratio (n * 100) d)) ≡ true
    → is_some (nearest_power_of_two (suc fuel) min_diff (ratio n d)) ≡ true
unfolding nearest_power_of_two
deeper_round fuel min_diff n d r = ground (arith, r)

nearest_power_of_two-rounds :
    (k min_diff n d : ℕ)
    → 0 < n
    → 0 < d
    → n < 2 ^ 31 * d
    → d ≤ scaled k n
    → is_some (nearest_power_of_two (suc k) min_diff (ratio n d)) ≡ true
nearest_power_of_two-rounds zero min_diff n d p q h e =
    at_one zero min_diff n d p
      (highest_power-pos (n / d) (div_pos n d q e) (div_lt n d (2 ^ 31) q h))
nearest_power_of_two-rounds (suc k) min_diff n d p q h e = elim (Bool-cases (leb d n)) [
  | inl y ↦
      at_one (suc k) min_diff n d p
        (highest_power-pos (n / d) (div_pos n d q (ground (arith, y))) (div_lt n d (2 ^ 31) q h))
  | inr y ↦
      let deeper =
        nearest_power_of_two-rounds k min_diff (n * 100) d (omega (arith, p)) q (ground (arith, y))
          e in
      deeper_round (suc k) min_diff n d deeper
]

scaled-ge : (k n : ℕ) → n ≤ scaled k n
scaled-ge zero n = omega arith
scaled-ge (suc k) n = omega (arith, scaled-ge k (n * 100))

below_or_returns :
    (k min_diff n d : ℕ)
    → (n * grain < min_diff * d) ⊎ (n ≡ 0)
    → is_some (nearest_power_of_two (suc k) min_diff (ratio n d)) ≡ true
unfolding nearest_power_of_two
below_or_returns k min_diff n d (inl h) = ground (arith, h)
below_or_returns k min_diff n d (inr h) = ground (arith, h)

mul_ge : (m d : ℕ) → 0 < m → d ≤ m * d
mul_ge zero d h = absurd (omega (arith, h))
mul_ge (suc m) d h = grind arith

-- With the fuel of 6 rounds or more, `nearestPowerOfTwo` returns on every finite value below 2^31, 0
-- and values below the smallest difficulty included, if the smallest difficulty is not 0.
pub nearest_power_of_two-returns :
    (k min_diff n d : ℕ)
    → 0 < min_diff
    → 0 < d
    → n < 2 ^ 31 * d
    → is_some (nearest_power_of_two (suc (suc (suc (suc (suc (suc k)))))) min_diff (ratio n d))
      ≡ true
nearest_power_of_two-returns k min_diff n d p q h =
    elim (Bool-cases (ltb (n * grain) (min_diff * d))) [
      | inl y ↦
          below_or_returns (suc (suc (suc (suc (suc k))))) min_diff n d (inl (ground (arith, y)))
      | inr y ↦ elim (Bool-cases (n == 0)) [
        | inl z ↦
            below_or_returns (suc (suc (suc (suc (suc k))))) min_diff n d (inr (ground (arith, z)))
        | inr z ↦
            let far : min_diff * d ≤ n * grain = ground (arith, y) in
            nearest_power_of_two-rounds (suc (suc (suc (suc (suc k))))) min_diff n d
              (ground (arith, z)) q h
              (omega
                (arith, mul_ge min_diff d p, far, scaled-ge k (n * 100 * 100 * 100 * 100 * 100)))
      ]
    ]
