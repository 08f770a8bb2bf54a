-- ===== src/Job.antt =====
-- src/models/MiningJob.ts
pub mod Coinbase
pub mod Payouts
pub mod Script
pub mod Slot
pub mod RoundTrip
pub mod Merkle
pub mod Lock
pub mod Fresh
pub mod Search
use mathlib.Core.List.{tail}
use hc_pool.Base.{
  ℕ, ◌+◌, ◌-◌, ◌*◌, ◌/◌, Bool, true, false, ◌&&◌, Option, none, some, List, [], ◌∷◌, ◌++◌, leb, ltb,
  if◌then◌else◌, length, replicate, take, drop, is_some, or_else, ◌==◌,
}
use hc_pool.Base.Text.{Text, codes, text_eq, lower, index_of}
use hc_pool.Base.Hex.{Bytes, ℤ, pos, negsuc, int_eq, xor32, hex, unhex, to_hex, int_to_hex}
use hc_pool.Template.{TxIn, TxOut, Transaction, Block, JobTemplate, Bitcoin, script_of, with_script}
use Coinbase.{JobConfig, AddressObject, build_coinbase, ◌>>=◌}

pub record MiningJob : Type 0 where
  pub job_id : Text
  pub coinbase_transaction : Transaction
  pub coinbase_part1 : Text
  pub coinbase_part2 : Text
  pub job_template_id : Text
  pub creation : ℕ
  pub owner_session_id : Text
  pub signet_locked : Bool
  pub locked_extra_nonce2 : Option Text
  pub locked_ntime : Option ℤ
  pub locked_version_mask : ℤ

-- `matchesLockedSubmission`
unfoldable pub matches_locked_submission : MiningJob → Text → ℤ → ℤ → Bool
matches_locked_submission job extra_nonce2 ntime version_mask =
    if job.signet_locked
    then elim job.locked_extra_nonce2 [
      | none ↦ false
      | some locked ↦ text_eq locked (lower extra_nonce2)
    ]
      && (elim job.locked_ntime [ none ↦ false | some t ↦ int_eq t ntime ]
          && int_eq job.locked_version_mask version_mask)
    else true

-- `buffer.set(bytes, offset)`, within the buffer
abbrev pub set_at : ℕ → Bytes → Bytes → Bytes
set_at offset bytes buffer = take offset buffer ++ (bytes ++ drop (offset + length bytes) buffer)

-- The text behind the place of the script in the serialised transaction, and in front of it.
abbrev pub part_one_index : Text → Text → ℕ
part_one_index serialized input_script = elim (index_of input_script serialized) [
  | none ↦ length input_script - 1
  | some i ↦ i + length input_script
]

unfoldable pub swap_endian_words : Bytes → Bytes
swap_endian_words [] = []
swap_endian_words (a ∷ []) = 0 ∷ []
swap_endian_words (a ∷ b ∷ []) = 0 ∷ 0 ∷ []
swap_endian_words (a ∷ b ∷ c ∷ []) = 0 ∷ c ∷ b ∷ []
swap_endian_words (a ∷ b ∷ c ∷ d ∷ s) = d ∷ c ∷ b ∷ a ∷ swap_endian_words s

-- `text.padStart(8, '0')`
abbrev pub pad_start8 : Text → Text
pad_start8 s = replicate (8 - length s) b'0' ++ s

-- The parameters of `mining.notify`.
pub record Notify : Type 0 where
  pub job_id : Text
  pub prev_hash : Text
  pub coinbase_part1 : Text
  pub coinbase_part2 : Text
  pub merkle_branch : List Text
  pub version : Text
  pub bits : Text
  pub ntime : Text
  pub clean_jobs : Bool

unfoldable pub response : MiningJob → JobTemplate → Notify
response job template =
    let mining_time =
      if job.signet_locked
      then or_else job.locked_ntime template.block.timestamp
      else template.block.timestamp in
    record {
      job_id = job.job_id;
      prev_hash = hex (swap_endian_words template.block.prev_hash);
      coinbase_part1 = job.coinbase_part1;
      coinbase_part2 = job.coinbase_part2;
      merkle_branch = template.merkle_branch;
      version = int_to_hex template.block.version;
      bits = to_hex template.block.bits;
      ntime = pad_start8 (int_to_hex mining_time);
      clean_jobs = template.clear_jobs;
    }

-- The fields as they are before the parts are built.
unfoldable pub initial : Text → Text → Text → Transaction → ℕ → MiningJob
initial job_id owner_session_id template_id tx now = record {
  job_id = job_id;
  coinbase_transaction = tx;
  coinbase_part1 = [];
  coinbase_part2 = [];
  job_template_id = template_id;
  creation = now;
  owner_session_id = owner_session_id;
  signet_locked = false;
  locked_extra_nonce2 = none;
  locked_ntime = none;
  locked_version_mask = pos 0;
}

module _ (btc : Bitcoin) where
  unfoldable pub rebuild_coinbase_parts : MiningJob → MiningJob
  rebuild_coinbase_parts job =
      let serialized = hex (btc.serialize job.coinbase_transaction) in
      let input_script = hex (script_of job.coinbase_transaction) in
      let index = part_one_index serialized input_script in
      record job {
        coinbase_part1 = take (index - 16) serialized;
        coinbase_part2 = drop index serialized;
      }

  -- The constructor, at the time `now`; `none` is a throw.
  unfoldable pub new :
      JobConfig → Text → Text → List AddressObject → JobTemplate → ℕ → Option MiningJob
  new config job_id owner_session_id addresses template now =
      build_coinbase btc config addresses template >>= λ tx.
      some (rebuild_coinbase_parts (initial job_id owner_session_id template.id tx now))

  -- The copy of the signed coinbase through its bytes is the transaction itself.
  unfoldable pub apply_signed_coinbase : MiningJob → Transaction → Text → ℤ → ℤ → MiningJob
  apply_signed_coinbase job signed extra_nonce2 ntime version_mask =
      rebuild_coinbase_parts (record job {
        coinbase_transaction = signed;
        signet_locked = true;
        locked_extra_nonce2 = some (lower extra_nonce2);
        locked_ntime = some ntime;
        locked_version_mask = version_mask;
      })

  -- One round of the loop of `calculateMerkleRootHash` on the 64-byte buffer.
  merkle_round : Bytes → Text → Bytes
  merkle_round both branch =
      let filled = set_at 32 (unhex branch) both in set_at 0 (btc.hash256 filled) filled

  merkle_rounds : Bytes → List Text → Bytes
  unfolding merkle_round
  merkle_rounds both [] = both
  merkle_rounds both (branch ∷ branches) = merkle_rounds (merkle_round both branch) branches

  unfoldable pub calculate_merkle_root_hash : Bytes → List Text → Bytes
  unfolding merkle_rounds
  calculate_merkle_root_hash new_root branches =
      take 32 (merkle_rounds (set_at 0 new_root (replicate 64 0)) branches)

  -- The last 16 digits of the script make room for the nonces.
  unfoldable pub nonce_script : Bytes → Text → Text → Bytes
  nonce_script script extra_nonce extra_nonce2 =
      let text = hex script in unhex (take (length text - 16) text ++ (extra_nonce ++ extra_nonce2))

  -- The coinbase is shared with the job, so its new script stays there.
  unfoldable pub copy_and_update_block :
      MiningJob → JobTemplate → ℤ → ℤ → Text → Text → ℤ → MiningJob × Block
  copy_and_update_block job template version_mask nonce extra_nonce extra_nonce2 timestamp =
      let old = job.coinbase_transaction in
      let coinbase = with_script (nonce_script (script_of old) extra_nonce extra_nonce2) old in
      (
        record job { coinbase_transaction = coinbase },
        record (template.block) {
          transactions = coinbase ∷ tail template.block.transactions;
          nonce = nonce;
          version =
              if int_eq version_mask (pos 0)
              then template.block.version
              else xor32 template.block.version version_mask;
          merkle_root = calculate_merkle_root_hash (btc.tx_hash coinbase) template.merkle_branch;
          timestamp = timestamp;
        },
      )
