-- ===== src/Signet.antt =====
-- src/services/signet-block-signing.service.ts: the signing of signet blocks. Transactions, scripts
-- and signatures are those of bitcoinjs-lib and tiny-secp256k1, the parameter `Library`.
pub mod Encoding
pub mod Copies
pub mod Data
pub mod Keys
pub mod Locked
pub mod Refill
pub mod Room
pub mod Sizes
pub mod Node
pub mod Script
pub mod Verify
pub mod Errors
use mathlib.Core.List.{tail}
use hc_pool.Base.{
  ℕ, zero, suc, ◌+◌, ◌*◌, ◌/◌, ◌%◌, ◌^◌, Bool, true, false, not, ◌&&◌, Option, none, some, List, [],
  ◌∷◌, ◌++◌, length, take, replicate, if◌then◌else◌, ltb, leb, ◌==◌, or_else,
}
use hc_pool.Base.Text.{Text, codes, text_eq, lower, is_true}
use hc_pool.Base.Hex.{Bytes, ℤ, pos, negsuc, hex, unhex, to_u32}
use hc_pool.Template.{TxIn, TxOut, Transaction, Block}
use hc_pool.Job.{set_at}
use hc_pool.Profile.{trim, is_hex}
use hc_pool.Session.State.{Signer}
use hc_pool.Signet.Encoding.{
  Chunk, opcode, push, Library, Failure, key_required, key_not_hex, key_not_valid, key_missing,
  challenge_missing, challenge_mismatch, no_coinbase, no_commitment, thrown_by_library, Outcome,
  returned, threw, ◌>>=◌, ◌>>◌, guard, or_throw, signet_header, op_return, op_checksig, sighash_all,
  serialize_compact_size, serialize_signet_data, is_commitment,
}

pub record SigningService : Type 0 where
  pub enabled : Bool
  pub private_key : Option Bytes
  pub challenge_script : Option Bytes

-- `/^[0-9a-fA-F]{64}$/`
unfoldable pub is_key_hex : Text → Bool
is_key_hex s = is_hex (lower s) && length s == 64

abbrev is_empty : Text → Bool
is_empty [] = true
is_empty (c ∷ s) = false

abbrev pub challenge_of : Library → Bytes → Bytes
challenge_of lib key = lib.compile (push (lib.point_from_scalar key) ∷ opcode op_checksig ∷ [])

-- The constructor, from ENABLE_SIGNET_BLOCK_SIGNING and SIGNET_BLOCK_PRIVATE_KEY_HEX.
unfoldable pub new : Library → Option Text → Option Text → Outcome SigningService
new lib enable key =
    let enabled = is_true enable (codes "true") in
    let key_hex = trim (or_else key []) in
    let private_key = unhex key_hex in
    if is_empty key_hex
    then if enabled
      then threw key_required
      else returned (record { enabled = enabled; private_key = none; challenge_script = none })
    else if not (is_key_hex key_hex)
    then threw key_not_hex
    else if not (lib.is_private private_key)
    then threw key_not_valid
    else returned (record {
      enabled = enabled;
      private_key = some private_key;
      challenge_script = some (challenge_of lib private_key);
    })

unfoldable pub get_challenge_script_hex : SigningService → Option Text
get_challenge_script_hex s = elim s.challenge_script [ none ↦ none | some c ↦ some (hex c) ]

abbrev pub first_transaction : Block → Option Transaction
first_transaction block = elim block.transactions [ [] ↦ none | tx ∷ txs ↦ some tx ]

abbrev is_missing : Option Text → Bool
is_missing none = true
is_missing (some s) = is_empty s

-- The checks of the challenge; the keys are those that the constructor made.
unfoldable pub check_challenge : SigningService → Option Text → Outcome (Bytes × Bytes)
check_challenge s signet_challenge_hex = or_throw s.private_key key_missing >>= λ key.
    or_throw s.challenge_script key_missing >>= λ challenge.
    guard (not (is_missing signet_challenge_hex)) challenge_missing
    >> (let given = or_else signet_challenge_hex [] in
        guard (text_eq (lower given) (lower (hex challenge)))
          (challenge_mismatch (hex challenge) given)
        >> returned (key, challenge))

abbrev pub to_option : {A : Type 0} → Outcome A → Option A
to_option (returned a) = some a
to_option (threw e) = none

module _ (lib : Library) where
  unfoldable pub find_witness_commitment_output_index : List TxOut → Option ℕ
  find_witness_commitment_output_index [] = none
  find_witness_commitment_output_index (o ∷ os) =
      if is_commitment (lib.decompile o.script)
      then some 0
      else elim (find_witness_commitment_output_index os) [ none ↦ none | some i ↦ some (suc i) ]

  unfoldable pub append_push_data : Bytes → Bytes → Bytes
  append_push_data script bytes = script ++ lib.compile (push bytes ∷ [])

  -- `outs[i].script = this.appendPushData(outs[i].script, bytes)`
  unfoldable pub append_at : ℕ → Bytes → List TxOut → List TxOut
  append_at i bytes [] = []
  append_at zero bytes (o ∷ os) = record o { script = append_push_data o.script bytes } ∷ os
  append_at (suc i) bytes (o ∷ os) = o ∷ append_at i bytes os

  abbrev pub with_push : ℕ → Bytes → Transaction → Transaction
  with_push i bytes tx = record tx { outs = append_at i bytes tx.outs }

  -- `Transaction.fromBuffer(tx.toBuffer())`
  abbrev pub reparse : Transaction → Outcome Transaction
  reparse tx = or_throw (lib.from_buffer (lib.to_buffer tx)) thrown_by_library

  unfoldable pub reparse_all : List Transaction → Outcome (List Transaction)
  reparse_all [] = returned []
  reparse_all (tx ∷ txs) = reparse tx >>= λ t. reparse_all txs >>= λ ts. returned (t ∷ ts)

  unfoldable pub clone_block : Block → Outcome Block
  clone_block block =
      reparse_all block.transactions >>= λ txs. returned (record block { transactions = txs })

  -- The clone with another coinbase, and the merkle root of its transactions.
  unfoldable pub with_coinbase : Transaction → Block → Outcome Block
  with_coinbase coinbase block = clone_block block >>= λ cloned.
      let txs = coinbase ∷ tail cloned.transactions in
      returned (record cloned { transactions = txs; merkle_root = lib.calculate_merkle_root txs })

  abbrev pub to_spend : Bytes → Bytes → Transaction
  to_spend challenge signet_data = record {
    version = 0;
    locktime = 0;
    ins =
        record {
          hash = replicate 32 0;
          index = 0xffffffff;
          script = lib.compile (opcode 0 ∷ push signet_data ∷ []);
          sequence = 0;
          witness = [];
        }
        ∷ [];
    outs = record { script = challenge; value = 0 } ∷ [];
  }

  abbrev pub spend_of : Transaction → Transaction
  spend_of spent = record {
    version = 0;
    locktime = 0;
    ins =
        record { hash = lib.get_hash spent; index = 0; script = []; sequence = 0; witness = [] }
        ∷ [];
    outs = record { script = lib.compile (opcode op_return ∷ []); value = 0 } ∷ [];
  }

  unfoldable pub build_signed_input_script : Bytes → Bytes → Bytes → Bytes
  build_signed_input_script key challenge signet_data =
      let spend = spend_of (to_spend challenge signet_data) in
      let digest = lib.hash_for_signature spend 0 challenge sighash_all in
      lib.compile (push (lib.encode_signature (lib.sign digest key) sighash_all) ∷ [])

  -- The solution of a block whose coinbase has the header: the input script, and an empty witness.
  unfoldable pub signet_solution : Bytes → Bytes → Block → Outcome Bytes
  signet_solution key challenge block_with_header =
      serialize_signet_data block_with_header >>= λ signet_data.
      let script = build_signed_input_script key challenge signet_data in
      serialize_compact_size (length script) >>= λ size. returned (size ++ (script ++ 0 ∷ []))

  -- The part of `signBlock` behind its checks, for the cloned block.
  unfoldable pub sign_coinbase : Bytes → Bytes → Block → Transaction → ℕ → Outcome Block
  sign_coinbase key challenge base coinbase i = reparse coinbase >>= λ copied.
      with_coinbase (with_push i signet_header copied) base >>= λ block_with_header.
      signet_solution key challenge block_with_header >>= λ solution. reparse coinbase >>= λ again.
      with_coinbase (with_push i (signet_header ++ solution) again) base

  -- `signBlock` where signing is enabled and the challenge is checked.
  unfoldable pub sign_checked : Bytes → Bytes → Block → Outcome Block
  sign_checked key challenge block = clone_block block >>= λ base.
      or_throw (first_transaction base) no_coinbase >>= λ coinbase.
      or_throw (find_witness_commitment_output_index coinbase.outs) no_commitment >>= λ i.
      sign_coinbase key challenge base coinbase i

  unfoldable pub sign_block : SigningService → Block → Option Text → Outcome Block
  sign_block s block signet_challenge_hex =
      if not s.enabled
      then returned block
      else (check_challenge s signet_challenge_hex >>= λ keys. sign_checked keys.0 keys.1 block)

  -- The service as a session sees it.
  unfoldable pub signer_of : SigningService → Signer
  signer_of s = record {
    enabled = s.enabled;
    sign_block = λ block challenge. to_option (sign_block s block challenge);
  }
