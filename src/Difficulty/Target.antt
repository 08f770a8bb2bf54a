-- ===== src/Difficulty/Target.antt =====
-- What the two difficulties say of the hash and of the target of the block.
use hc_pool.Base.{
  ℕ, ◌-◌, Bool-cases, leb, ◌*◌, ◌/◌, ◌%◌, ◌^◌, ◌≤◌, ◌<◌, ◌≡◌, ◌↔◌, ◌⊎◌, inl, inr, refl, zero, suc,
  ap, true, false, arith, ◌==◌, if◌then◌else◌,
}
use hc_pool.Base.Hex.{Bytes}
use hc_pool.Difficulty.{
  Big, IsMonotone, same_ratio, Ratio, infinity, ratio_ge, le256, calculate_difficulty,
  expand_target, difficulty_of_target, calculate_difficulty_from_bits, calculate_network_difficulty,
}

-- The target of a compact `nBits`, with all 24 bits of its mantissa.
abbrev pub target_of_bits : ℕ → ℕ
target_of_bits n_bits =
    let exponent = n_bits / 2 ^ 24 % 256 in
    if leb exponent 3
    then n_bits % 2 ^ 24 / 2 ^ (8 * (3 - exponent))
    else n_bits % 2 ^ 24 * 2 ^ (8 * (exponent - 3))

expand_target-zero : (exponent : ℕ) → expand_target 0 exponent ≡ 0
unfolding expand_target
expand_target-zero exponent = ground arith

-- The difficulty of a number, as both functions compute it.
abbrev difficulty_at : Big → ℕ → ℕ → Ratio
difficulty_at big d n = if n == 0 then infinity else big d n

-- A mantissa of 0 has the target 0, so that one test decides.
difficulty_of_target_lem :
    (big : Big) (d m e : ℕ)
    → difficulty_of_target big d m e ≡ difficulty_at big d (expand_target m e)
unfolding difficulty_of_target
difficulty_of_target_lem big d m e = ground (arith, expand_target-zero e)

==-suc : (n : ℕ) → (suc n == 0) ≡ false
==-suc n = ground arith

difficulty_at-monotone :
    (big : Big) (d a b : ℕ)
    → IsMonotone big
    → a ≤ b
    → ratio_ge (difficulty_at big d a) (difficulty_at big d b) ≡ true
unfolding ratio_ge
difficulty_at-monotone big d zero b mono h = refl
difficulty_at-monotone big d (suc a) zero mono h = absurd (omega (arith, h))
difficulty_at-monotone big d (suc a) (suc b) mono h =
    rw (==-suc a, ==-suc b) (mono d (suc a) (suc b) (omega arith) h)

-- Of two numbers, the first has at least the difficulty of the second exactly when it is not
-- larger, or when rounding leaves no difference.
difficulty_at-ge_iff :
    (big : Big) (d a b : ℕ)
    → IsMonotone big
    → (ratio_ge (difficulty_at big d a) (difficulty_at big d b) ≡ true)
      ↔ ((a ≤ b) ⊎ (same_ratio (difficulty_at big d a) (difficulty_at big d b) ≡ true))
difficulty_at-ge_iff big d a b mono = (
  λ h. elim (Bool-cases (leb a b)) [
    | inl low ↦ inl (ground (arith, low))
    | inr high ↦ inr (rw (h, difficulty_at-monotone big d b a mono (ground (arith, high))) refl)
  ],
  λ h. elim h [
    | inl low ↦ difficulty_at-monotone big d a b mono low
    | inr same ↦ ground (arith, same)
  ],
)

-- A share counts as a block exactly when its hash, as a number, is at most the block's target, or
-- when the difficulties of the hash and of the target are rounded to the same number: a hash above
-- the target gets no further than that. A hash of 0 and a target of 0 are included. The condition
-- is that the rounding of the division keeps the order.
pub calculate_difficulty-block_iff :
    (big : Big) (diff1 n_bits : ℕ) (hash : Bytes)
    → IsMonotone big
    → (ratio_ge
          (calculate_difficulty big diff1 hash)
          (calculate_difficulty_from_bits big diff1 n_bits)
        ≡ true)
      ↔ ((le256 hash ≤ target_of_bits n_bits)
          ⊎ (same_ratio
                (calculate_difficulty big diff1 hash)
                (calculate_difficulty_from_bits big diff1 n_bits)
              ≡ true))
unfolding calculate_difficulty calculate_difficulty_from_bits expand_target
calculate_difficulty-block_iff big diff1 n_bits hash mono =
    rw (difficulty_of_target_lem big diff1 (n_bits % 2 ^ 24) (n_bits / 2 ^ 24 % 256))
      (difficulty_at-ge_iff big diff1 (le256 hash) (target_of_bits n_bits) mono)

-- The difficulty that the job service computes is the one that shares are held against, unless
-- bit 23 of the mantissa is set.
pub calculate_network_difficulty-eq :
    (big : Big) (diff1 n_bits : ℕ)
    → n_bits % 2 ^ 24 < 2 ^ 23
    → calculate_network_difficulty big diff1 n_bits
      ≡ calculate_difficulty_from_bits big diff1 n_bits
unfolding calculate_network_difficulty calculate_difficulty_from_bits
calculate_network_difficulty-eq big diff1 n_bits h =
    ap (λ m. difficulty_of_target big diff1 m (n_bits / 2 ^ 24 % 256)) (omega arith)
