-- ===== src/Signet/Encoding.antt =====
-- Scripts, sizes and the bytes to sign in src/services/signet-block-signing.service.ts, and the
-- parts of bitcoinjs-lib and tiny-secp256k1 that the service calls, as the parameter `Library`.
use hc_pool.Base.{
  ◌≡◌, ◌⊎◌, inl, inr, refl, ℕ, zero, suc, ◌/◌, ◌%◌, ◌^◌, Bool, true, false, ◌&&◌, Option, none,
  some, List, [], ◌∷◌, length, take, replicate, if◌then◌else◌, ltb, leb, ◌==◌,
}
use hc_pool.Base.Text.{Text, text_eq}
use hc_pool.Base.Hex.{Bytes, ℤ, pos, negsuc, to_u32}
use hc_pool.Template.{Transaction, Block}
use hc_pool.Job.{set_at}

-- A part of a script as `script.decompile` returns it: a number or a buffer.
pub data Chunk : Type 0 where
  opcode : ℕ → Chunk
  push : Bytes → Chunk

-- `from_buffer` throws on bytes that are no transaction.
pub record Library : Type 0 where
  pub compile : List Chunk → Bytes
  pub decompile : Bytes → Option (List Chunk)
  pub to_buffer : Transaction → Bytes
  pub from_buffer : Bytes → Option Transaction
  pub get_hash : Transaction → Bytes
  pub calculate_merkle_root : List Transaction → Bytes
  pub hash_for_signature : Transaction → ℕ → Bytes → ℕ → Bytes
  pub encode_signature : Bytes → ℕ → Bytes
  pub is_private : Bytes → Bool
  pub point_from_scalar : Bytes → Bytes
  pub sign : Bytes → Bytes → Bytes

-- What is thrown; `thrown_by_library` is an exception of a call of bitcoinjs-lib or `Buffer`.
pub data Failure : Type 0 where
  key_required key_not_hex key_not_valid key_missing challenge_missing : Failure
  challenge_mismatch : Text → Text → Failure
  no_coinbase no_commitment size_overflow thrown_by_library : Failure

pub data Outcome (A : Type 0) : Type 0 where
  returned : A → Outcome A
  threw : Failure → Outcome A

infixl 5 ◌>>=◌ ◌>>◌
abbrev pub ◌>>=◌ : {A B : Type 0} → Outcome A → (A → Outcome B) → Outcome B
returned a >>= f = f a
threw e >>= f = threw e

pub >>=-eq-returned :
    {A B : Type 0} (m : Outcome A) (f : A → Outcome B) {b : B}
    → (m >>= f) ≡ returned b
    → (a : A) × (m ≡ returned a) × (f a ≡ returned b)
>>=-eq-returned (returned a) f h = (a, refl, h)
>>=-eq-returned (threw e) f h = cc

pub Outcome-cases :
    {A : Type 0} (o : Outcome A) → ((a : A) × (o ≡ returned a)) ⊎ ((e : Failure) × (o ≡ threw e))
Outcome-cases (returned a) = inl (a, refl)
Outcome-cases (threw e) = inr (e, refl)

pub returned_injective : {A : Type 0} {a b : A} → returned a ≡ returned b → a ≡ b
returned_injective h = cc

abbrev pub ◌>>◌ : {B : Type 0} → Outcome (Unit {0}) → Outcome B → Outcome B
m >> k = m >>= λ _. k

abbrev pub guard : Bool → Failure → Outcome (Unit {0})
guard true e = returned tt
guard false e = threw e

abbrev pub or_throw : {A : Type 0} → Option A → Failure → Outcome A
or_throw none e = threw e
or_throw (some a) e = returned a

abbrev pub segwit_witness_magic : Bytes
segwit_witness_magic = 0xaa ∷ 0x21 ∷ 0xa9 ∷ 0xed ∷ []

abbrev pub signet_header : Bytes
signet_header = 0xec ∷ 0xc7 ∷ 0xda ∷ 0xa2 ∷ []

abbrev pub op_return : ℕ
op_return = 0x6a

abbrev pub op_checksig : ℕ
op_checksig = 0xac

abbrev pub sighash_all : ℕ
sighash_all = 1

-- The lowest bytes of a number, the lowest first.
unfoldable pub le_bytes : ℕ → ℕ → Bytes
le_bytes zero n = []
le_bytes (suc k) n = (n % 256) ∷ le_bytes k (n / 256)

unfoldable pub serialize_compact_size : ℕ → Outcome Bytes
serialize_compact_size value =
    if ltb value 253
    then returned (value ∷ [])
    else if leb value 0xffff
    then returned (253 ∷ le_bytes 2 value)
    else if leb value 0xffffffff
    then returned (254 ∷ le_bytes 4 value)
    else threw size_overflow

-- `writeInt32LE` and `writeUInt32LE`, which throw out of range.
unfoldable pub int32_le : ℤ → Outcome Bytes
int32_le (pos n) = if ltb n (2 ^ 31) then returned (le_bytes 4 n) else threw thrown_by_library
int32_le (negsuc n) =
    if ltb n (2 ^ 31) then returned (le_bytes 4 (to_u32 (negsuc n))) else threw thrown_by_library

unfoldable pub uint32_le : ℤ → Outcome Bytes
uint32_le (pos n) = if ltb n (2 ^ 32) then returned (le_bytes 4 n) else threw thrown_by_library
uint32_le (negsuc n) = threw thrown_by_library

-- The hashes have 32 bytes, so that each `copy` stays in the buffer.
unfoldable pub serialize_signet_data : Block → Outcome Bytes
serialize_signet_data block = int32_le block.version >>= λ version.
    uint32_le block.timestamp >>= λ timestamp.
    let hashes =
      set_at 36 block.merkle_root (set_at 4 block.prev_hash (set_at 0 version (replicate 72 0))) in
    returned (set_at 68 timestamp hashes)

-- `chunks.find(chunk => Buffer.isBuffer(chunk) && chunk.length >= 36)`
unfoldable pub find_data_chunk : List Chunk → Option Bytes
find_data_chunk [] = none
find_data_chunk (opcode n ∷ cs) = find_data_chunk cs
find_data_chunk (push d ∷ cs) = if leb 36 (length d) then some d else find_data_chunk cs

abbrev has_magic : Option Bytes → Bool
has_magic none = false
has_magic (some d) = text_eq (take 4 d) segwit_witness_magic

-- The test of one output in the loop: OP_RETURN, and a first long chunk with the magic.
unfoldable pub is_commitment : Option (List Chunk) → Bool
is_commitment (some (opcode n ∷ c ∷ cs)) =
    n == op_return && has_magic (find_data_chunk (opcode n ∷ c ∷ cs))
is_commitment _ = false
