-- ===== src/Difficulty.antt =====
-- src/utils/difficulty.utils.ts, and `calculateNetworkDifficulty` of
-- src/services/stratum-v1-jobs.service.ts. The package big.js is the parameter `Big`.
pub mod Target
use hc_pool.Base.{
  ℕ, ◌+◌, ◌-◌, ◌*◌, ◌/◌, ◌%◌, ◌^◌, ◌<◌, ◌≤◌, ◌≡◌, ◌&&◌, Bool, true, false, leb, ltb, ◌==◌,
  if◌then◌else◌, List, [], ◌∷◌,
}
use hc_pool.Base.Hex.{Bytes}
use hc_pool.Bucket.{grain}

-- A difficulty that is computed by a division, or `Number.POSITIVE_INFINITY`.
pub data Ratio : Type 0 where
  infinity : Ratio
  ratio : ℕ → ℕ → Ratio

-- `a >= b`
unfoldable pub ratio_ge : Ratio → Ratio → Bool
ratio_ge infinity b = true
ratio_ge (ratio n d) infinity = false
ratio_ge (ratio n d) (ratio m e) = leb (m * d) (n * e)

-- Whether two difficulties are the same number.
abbrev pub same_ratio : Ratio → Ratio → Bool
same_ratio a b = ratio_ge a b && ratio_ge b a

-- `Big(a).div(b).toNumber()` for a divisor that is not 0: the package rounds the quotient to 20
-- decimals and then to a double.
abbrev pub Big : Type 0
Big = ℕ → ℕ → Ratio

-- Rounding keeps the order of the quotients.
abbrev pub IsMonotone : Big → Type 0
IsMonotone big = (a b c : ℕ) → 0 < b → b ≤ c → ratio_ge (big a b) (big a c) ≡ true

-- A difficulty in grains, as a ratio.
abbrev pub in_grains : ℕ → Ratio
in_grains d = ratio d grain

-- `le256todouble`: the little-endian number of a hash.
unfoldable pub le256 : Bytes → ℕ
le256 [] = 0
le256 (b ∷ bs) = le256 bs * 256 + b

-- `calculateDifficulty`, at the hash of the header.
unfoldable pub calculate_difficulty : Big → ℕ → Bytes → Ratio
calculate_difficulty big diff1_target hash =
    let s64 = le256 hash in if s64 == 0 then infinity else big diff1_target s64

-- The target that a mantissa and an exponent stand for.
unfoldable pub expand_target : ℕ → ℕ → ℕ
expand_target mantissa exponent =
    if leb exponent 3
    then mantissa / 2 ^ (8 * (3 - exponent))
    else mantissa * 2 ^ (8 * (exponent - 3))

unfoldable pub difficulty_of_target : Big → ℕ → ℕ → ℕ → Ratio
difficulty_of_target big diff1_target mantissa exponent =
    if mantissa == 0
    then infinity
    else let target = expand_target mantissa exponent in
      if target == 0 then infinity else big diff1_target target

unfoldable pub calculate_difficulty_from_bits : Big → ℕ → ℕ → Ratio
calculate_difficulty_from_bits big diff1_target n_bits =
    difficulty_of_target big diff1_target (n_bits % 2 ^ 24) (n_bits / 2 ^ 24 % 256)

-- The job service masks one bit more of the mantissa.
unfoldable pub calculate_network_difficulty : Big → ℕ → ℕ → Ratio
calculate_network_difficulty big diff1_target n_bits =
    difficulty_of_target big diff1_target (n_bits % 2 ^ 23) (n_bits / 2 ^ 24 % 256)
