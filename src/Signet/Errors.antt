-- ===== src/Signet/Errors.antt =====
-- When `signBlock` of src/services/signet-block-signing.service.ts throws.
use hc_pool.Base.{
  ℕ, ◌^◌, ◌<◌, ◌≡◌, ◌↔◌, refl, ◌∙◌, subst, true, Option, some, List, [], ◌∷◌, ◌++◌, length, arith,
}
use hc_pool.Base.Text.{Text}
use hc_pool.Base.Hex.{Bytes, ℤ, pos, negsuc, to_u32}
use hc_pool.Template.{Transaction, Block}
use hc_pool.Signet.Encoding.{
  push, le_bytes, Library, returned, >>=-eq-returned, signet_header, sighash_all,
  serialize_compact_size, serialize_signet_data, int32_le, uint32_le,
}
use hc_pool.Signet.{
  SigningService, new, check_challenge, sign_checked, sign_block,
  find_witness_commitment_output_index, first_transaction, signet_solution,
  build_signed_input_script,
}
use hc_pool.Signet.Copies.{
  Reparses, with_pushed, sign_checked-Signed, clone_block-eq, sign_coinbase-eq,
}
use hc_pool.Signet.Keys.{new-HasKey, Names, check_challenge-returned, check_challenge-accepts}

-- A number that the header of a block can hold.
abbrev pub FitsInt32 : ℤ → Type 0
FitsInt32 (pos n) = n < 2 ^ 31
FitsInt32 (negsuc n) = n < 2 ^ 31

abbrev pub FitsUint32 : ℤ → Type 0
FitsUint32 (pos n) = n < 2 ^ 32
FitsUint32 (negsuc n) = ⊥

-- The outputs of the coinbase have a commitment.
abbrev pub HasCommitment : Library → Block → Type 0
HasCommitment lib b =
    (coinbase : Transaction) × (rest : List Transaction) × (i : ℕ) × (b.transactions
      ≡ coinbase ∷ rest)
    × (find_witness_commitment_output_index lib coinbase.outs ≡ some i)

-- A script with a signature of the library is shorter than 253 bytes.
abbrev pub ShortSignatures : Library → Type 0
ShortSignatures lib =
    (digest key : Bytes)
    → length (lib.compile (push (lib.encode_signature (lib.sign digest key) sighash_all) ∷ []))
      < 253

int32_le-FitsInt32 : (z : ℤ) → FitsInt32 z → (bs : Bytes) × (int32_le z ≡ returned bs)
unfolding int32_le
int32_le-FitsInt32 (pos n) h = (le_bytes 4 n, ground arith)
int32_le-FitsInt32 (negsuc n) h = (le_bytes 4 (to_u32 (negsuc n)), ground arith)

uint32_le-FitsUint32 : (z : ℤ) → FitsUint32 z → (bs : Bytes) × (uint32_le z ≡ returned bs)
unfolding uint32_le
uint32_le-FitsUint32 (pos n) h = (le_bytes 4 n, ground arith)
uint32_le-FitsUint32 (negsuc n) h = absurd h

serialize_compact_size-short : (n : ℕ) → n < 253 → serialize_compact_size n ≡ returned (n ∷ [])
unfolding serialize_compact_size
serialize_compact_size-short n h = ground arith

serialize_signet_data-returned :
    (b : Block)
    → FitsInt32 b.version
    → FitsUint32 b.timestamp
    → (bytes : Bytes) × (serialize_signet_data b ≡ returned bytes)
unfolding serialize_signet_data
serialize_signet_data-returned b v t =
    let (version, hv) = int32_le-FitsInt32 b.version v in
    let (time, ht) = uint32_le-FitsUint32 b.timestamp t in rw (hv, ht) (_, refl)

module _ (lib : Library) (short : ShortSignatures lib) where
  length-build_signed_input_script :
      (key challenge signet_data : Bytes)
      → length (build_signed_input_script lib key challenge signet_data) < 253
  unfolding build_signed_input_script
  length-build_signed_input_script key challenge signet_data = short _ key

  signet_solution-returned :
      (key challenge : Bytes) (b : Block)
      → FitsInt32 b.version
      → FitsUint32 b.timestamp
      → (solution : Bytes) × (signet_solution lib key challenge b ≡ returned solution)
  unfolding signet_solution
  signet_solution-returned key challenge b v t =
      let (bytes, h) = serialize_signet_data-returned b v t in
      let script = build_signed_input_script lib key challenge bytes in
      rw
        (
          h,
          serialize_compact_size-short (length script)
              (length-build_signed_input_script key challenge bytes),
        )
        (_, refl)

  sign_checked-returned :
      (key challenge : Bytes) (b : Block)
      → Reparses lib b.transactions
      → FitsInt32 b.version
      → FitsUint32 b.timestamp
      → HasCommitment lib b
      → (signed : Block) × (sign_checked lib key challenge b ≡ returned signed)
  unfolding sign_checked
  sign_checked-returned key challenge b h v t (coinbase, rest, i, same, found) =
      let parts = subst (Reparses lib) same h in
      let headed = with_pushed lib i signet_header coinbase b in
      let (solution, solved) = signet_solution-returned key challenge headed v t in
      let first : first_transaction b ≡ some coinbase = rw same refl in
      rw
        (
          clone_block-eq lib b h,
          first,
          found,
          sign_coinbase-eq lib key challenge b coinbase i h parts.0,
          solved,
        )
        (with_pushed lib i (signet_header ++ solution) coinbase b, refl)

  sign_block-enabled :
      (s : SigningService) (b : Block) (given : Option Text) (keys : Bytes × Bytes)
      → s.enabled ≡ true
      → check_challenge s given ≡ returned keys
      → sign_block lib s b given ≡ sign_checked lib keys.0 keys.1 b
  unfolding sign_block
  sign_block-enabled s b given keys on checked = simp (on, checked)

  -- With signing enabled a block is signed exactly when the node's challenge is the service's own
  -- and the coinbase has a witness commitment; in every other case `signBlock` throws. The version
  -- and the time of the block have to fit in 32 bits, and its transactions have to be read back as
  -- they were written.
  pub sign_block-returned_iff :
      (enable key given : Option Text) (s : SigningService) (b : Block)
      → new lib enable key ≡ returned s
      → s.enabled ≡ true
      → Reparses lib b.transactions
      → FitsInt32 b.version
      → FitsUint32 b.timestamp
      → ((signed : Block) × (sign_block lib s b given ≡ returned signed)) ↔ (
          ((challenge : Bytes) × (s.challenge_script ≡ some challenge) × Names given challenge)
          × HasCommitment lib b)
  unfolding sign_block check_challenge
  sign_block-returned_iff enable key given s b made on h v t =
      let has = new-HasKey lib enable key s made on in
      (
        λ (signed, e).
            let e1 = rw on at e in
            let (keys, checked, e2) = >>=-eq-returned (check_challenge s given) _ e1 in
            let (held, public, named) = check_challenge-returned s given keys checked in
            let parts = sign_checked-Signed lib keys.0 keys.1 b signed h e2 in
            (
              (keys.1, public, named),
              (parts.coinbase, parts.rest, parts.index, parts.transactions, parts.found),
            ),
        λ ((challenge, public, named), committed).
            let accepted =
              check_challenge-accepts s given has.key challenge has.private_key public named in
            let (signed, e) = sign_checked-returned has.key challenge b h v t committed in
            (signed, sign_block-enabled s b given (has.key, challenge) on accepted ∙ e),
      )
