-- ===== src/Signet/Sizes.antt =====
-- The sizes and numbers in a signet solution (`serializeCompactSize` and `serializeSignetData` of
-- src/services/signet-block-signing.service.ts) against their readers.
use hc_pool.Base.{
  ℕ, zero, suc, ◌+◌, ◌*◌, ◌<◌, ◌≡◌, ap, Option, none, some, [], ◌∷◌, ◌++◌, if◌then◌else◌, ltb, ◌==◌,
  arith,
}
use hc_pool.Base.Hex.{Bytes}
use hc_pool.Signet.Encoding.{returned, le_bytes, serialize_compact_size}

-- `k` bytes, the lowest first, and what follows them.
pub read_le : ℕ → Bytes → Option (ℕ × Bytes)
read_le zero bs = some (0, bs)
read_le (suc k) [] = none
read_le (suc k) (b ∷ bs) = elim (read_le k bs) [
  | none ↦ none
  | some (n, rest) ↦ some (b + n * 256, rest)
]

-- A size has to be written in the shortest way.
abbrev at_least : ℕ → Option (ℕ × Bytes) → Option (ℕ × Bytes)
at_least low none = none
at_least low (some (n, rest)) = if ltb n low then none else some (n, rest)

-- How a node reads a size.
unfoldable pub read_compact_size : Bytes → Option (ℕ × Bytes)
unfolding read_le
read_compact_size [] = none
read_compact_size (b ∷ bs) =
    if ltb b 253
    then some (b, bs)
    else if b == 253
    then at_least 253 (read_le 2 bs)
    else if b == 254
    then at_least 0x10000 (read_le 4 bs)
    else at_least 0x100000000 (read_le 8 bs)

read_le-two :
    (n : ℕ) (rest : Bytes) → n < 0x10000 → read_le 2 (le_bytes 2 n ++ rest) ≡ some (n, rest)
unfolding read_le le_bytes
read_le-two n rest h = ap (λ m. some (m, rest)) (omega arith)

read_le-four :
    (n : ℕ) (rest : Bytes) → n < 0x100000000 → read_le 4 (le_bytes 4 n ++ rest) ≡ some (n, rest)
unfolding read_le le_bytes
read_le-four n rest h = ap (λ m. some (m, rest)) (omega arith)

-- A size that is written is read back, with what follows it left over.
pub serialize_compact_size-read :
    (n : ℕ) (bytes rest : Bytes)
    → serialize_compact_size n ≡ returned bytes
    → read_compact_size (bytes ++ rest) ≡ some (n, rest)
unfolding serialize_compact_size read_compact_size
serialize_compact_size-read n bytes rest h = ground (arith, read_le-two n rest, read_le-four n rest)
