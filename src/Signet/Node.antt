-- ===== src/Signet/Node.antt =====
-- A block on a signet as a node reads it, after BIP 325 and BIP 141. Nothing of the signing service
-- (src/services/signet-block-signing.service.ts) is used, but the parts of bitcoinjs-lib that write
-- and read scripts, transactions and merkle roots.
use hc_pool.Base.{
  ap, sym, ◌∙◌, ℕ, zero, suc, ◌/◌, ◌%◌, ◌≡◌, Bool, true, false, ◌&&◌, Option, none, some, List, [],
  ◌∷◌, ◌++◌, length, take, drop, replicate, if◌then◌else◌, ltb, ◌==◌,
}
use hc_pool.Base.Text.{text_eq, text_eq_refl}
use hc_pool.Base.Hex.{Bytes, to_u32}
use hc_pool.Template.{TxOut, Transaction, Block}
use hc_pool.Signet.Encoding.{Chunk, opcode, push, Library}
use hc_pool.Signet.Sizes.{read_compact_size}

abbrev bind : {A B : Type 0} → Option A → (A → Option B) → Option B
bind none f = none
bind (some a) f = f a

-- A node takes the first push that starts with the header and is longer for the solution, and
-- leaves only the header of it in the script.
abbrev has_solution : Bytes → Bool
has_solution d = ltb 4 (length d) && text_eq (take 4 d) (0xec ∷ 0xc7 ∷ 0xda ∷ 0xa2 ∷ [])

abbrev keep_chunk : Chunk → Option (List Chunk × Bytes) → Option (List Chunk × Bytes)
keep_chunk c none = none
keep_chunk c (some (cs, solution)) = some (c ∷ cs, solution)

unfoldable pub take_solution : List Chunk → Option (List Chunk × Bytes)
take_solution [] = none
take_solution (opcode n ∷ cs) = keep_chunk (opcode n) (take_solution cs)
take_solution (push d ∷ cs) =
    if has_solution d
    then some (push (0xec ∷ 0xc7 ∷ 0xda ∷ 0xa2 ∷ []) ∷ cs, drop 4 d)
    else keep_chunk (push d) (take_solution cs)

-- OP_RETURN and a push of 36 bytes that starts with the magic of BIP 141.
unfoldable pub has_commitment : Option (List Chunk) → Bool
has_commitment (some (opcode n ∷ push d ∷ cs)) =
    n == 0x6a && (length d == 36 && text_eq (take 4 d) (0xaa ∷ 0x21 ∷ 0xa9 ∷ 0xed ∷ []))
has_commitment _ = false

unfoldable pub script_at : ℕ → List TxOut → Option Bytes
script_at i [] = none
script_at zero (o ∷ os) = some o.script
script_at (suc i) (o ∷ os) = script_at i os

unfoldable pub set_script_at : ℕ → Bytes → List TxOut → List TxOut
set_script_at i script [] = []
set_script_at zero script (o ∷ os) = record o { script = script } ∷ os
set_script_at (suc i) script (o ∷ os) = o ∷ set_script_at i script os

-- The script of the solution, if nothing but an empty witness stands behind it.
unfoldable pub script_of_solution : Bytes → Option Bytes
script_of_solution solution =
    bind (read_compact_size solution)
      λ r. if text_eq (drop r.0 r.1) (0 ∷ []) then some (take r.0 r.1) else none

-- The lowest four bytes of a number, the lowest first.
abbrev pub four_bytes : ℕ → Bytes
four_bytes n = n % 256 ∷ n / 256 % 256 ∷ n / 256 / 256 % 256 ∷ n / 256 / 256 / 256 % 256 ∷ []

-- Version, parent, merkle root and time of the header: what a solution signs.
unfoldable pub block_data : Block → Bytes
block_data b =
    four_bytes (to_u32 b.version)
    ++ (b.prev_hash ++ (b.merkle_root ++ four_bytes (to_u32 b.timestamp)))

module _ (lib : Library) where
  -- The last output with a commitment.
  unfoldable pub get_witness_commitment_index : List TxOut → Option ℕ
  get_witness_commitment_index [] = none
  get_witness_commitment_index (o ∷ os) = elim (get_witness_commitment_index os) [
    | some i ↦ some (suc i)
    | none ↦ if has_commitment (lib.decompile o.script) then some 0 else none
  ]

  -- The coinbase without its solution, and the solution.
  unfoldable pub cleared_coinbase : Transaction → Option (Transaction × Bytes)
  cleared_coinbase tx = bind (get_witness_commitment_index tx.outs) λ i.
      bind (script_at i tx.outs) λ script. bind (lib.decompile script) λ chunks.
        bind (take_solution chunks) λ found.
          some (record tx { outs = set_script_at i (lib.compile found.0) tx.outs }, found.1)

  -- The two transactions of BIP 325: one with the challenge, and one that spends it.
  unfoldable pub bip325_to_spend : Bytes → Bytes → Transaction
  bip325_to_spend challenge signed_data = record {
    version = 0;
    locktime = 0;
    ins =
        record {
          hash = replicate 32 0;
          index = 0xffffffff;
          script = lib.compile (opcode 0 ∷ push signed_data ∷ []);
          sequence = 0;
          witness = [];
        }
        ∷ [];
    outs = record { script = challenge; value = 0 } ∷ [];
  }

  unfoldable pub bip325_to_sign : Bytes → Transaction
  bip325_to_sign id = record {
    version = 0;
    locktime = 0;
    ins = record { hash = id; index = 0; script = []; sequence = 0; witness = [] } ∷ [];
    outs = record { script = lib.compile (opcode 0x6a ∷ []); value = 0 } ∷ [];
  }

  -- Whether the script of the solution spends the challenge. The root that is signed is that of
  -- the transactions without the solution.
  unfoldable pub solves : (Bytes → Bytes → Transaction → Bool) → Bytes → Block → Option Bool
  solves verify_script challenge b = elim b.transactions [
    | [] ↦ none
    | coinbase ∷ rest ↦ bind (cleared_coinbase coinbase) λ cleared.
        bind (script_of_solution cleared.1) λ script.
          (let root = lib.calculate_merkle_root (cleared.0 ∷ rest) in
            let signed_data = block_data (record b { merkle_root = root }) in
            let spent = bip325_to_spend challenge signed_data in
            some (verify_script script challenge (bip325_to_sign (lib.get_hash spent))))
  ]

  -- What a node checks of a block on a signet with this challenge, the proof of work aside: the
  -- header has the root of the transactions, and the solution spends the challenge.
  unfoldable pub accepts : (Bytes → Bytes → Transaction → Bool) → Bytes → Block → Option Bool
  accepts verify_script challenge b =
      if text_eq b.merkle_root (lib.calculate_merkle_root b.transactions)
      then solves verify_script challenge b
      else some false

  pub accepts-from :
      (verify_script : Bytes → Bytes → Transaction → Bool) (challenge : Bytes) (b : Block)
      → b.merkle_root ≡ lib.calculate_merkle_root b.transactions
      → solves verify_script challenge b ≡ some true
      → accepts verify_script challenge b ≡ some true
  unfolding accepts
  accepts-from verify_script challenge b root h =
      let same : text_eq b.merkle_root (lib.calculate_merkle_root b.transactions) ≡ true =
        ap (λ z. text_eq b.merkle_root z) (sym root) ∙ text_eq_refl b.merkle_root in
      rw same h

  -- The check of the solution does not depend on the nonce, nor on the root in the header.
  pub solves-eq :
      (verify_script : Bytes → Bytes → Transaction → Bool) (challenge : Bytes) (a b : Block)
      → a.transactions ≡ b.transactions
      → a.version ≡ b.version
      → a.prev_hash ≡ b.prev_hash
      → a.timestamp ≡ b.timestamp
      → solves verify_script challenge a ≡ solves verify_script challenge b
  unfolding solves block_data
  solves-eq verify_script challenge a b t v p s = λ i.
      solves verify_script challenge
        (record a { transactions = t i; version = v i; prev_hash = p i; timestamp = s i })
