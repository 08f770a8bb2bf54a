-- ===== src/Base/Double.antt =====
-- Doubles that are not negative, as JavaScript computes with them.
use hc_pool.Base.{ℕ, zero, suc, ◌+◌, ◌-◌, ◌*◌, ◌/◌, ◌%◌, ◌^◌, ◌&&◌, ◌||◌, ltb, ◌==◌, if◌then◌else◌}

-- The number of bits; fuel above it is enough.
unfoldable pub bit_length : ℕ → ℕ → ℕ
bit_length zero n = 0
bit_length (suc fuel) n = let rest = bit_length fuel (n / 2) in if n == 0 then 0 else rest + 1

-- A double is a number of units of 2^-128: every double from 2^-75 up is one.
abbrev pub unit : ℕ
unit = 2 ^ 128

-- The double that is nearest to `n / d`, of two the one with an even mantissa; the mantissa has 53
-- bits. For a quotient from 2^-75 up to 2^384.
unfoldable pub round_double : ℕ → ℕ → ℕ
round_double n d =
    let ulp = 2 ^ (bit_length 512 (n * unit / d) - 53) in
    let mantissa = n * unit / (ulp * d) in
    let rest = n * unit % (ulp * d) in
    if ltb (ulp * d) (2 * rest) || (2 * rest == ulp * d && mantissa % 2 == 1)
    then (mantissa + 1) * ulp
    else mantissa * ulp
