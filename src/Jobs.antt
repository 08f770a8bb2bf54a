-- ===== src/Jobs.antt =====
-- src/services/stratum-v1-jobs.service.ts
pub mod Store
pub mod Emission
pub mod Race
use mathlib.Core.List.{reverse, tail}
use hc_pool.Base.{
  ℕ, suc, ◌+◌, ◌-◌, ◌*◌, ◌/◌, Bool, true, false, not, ◌&&◌, ◌||◌, Option, none, some, List, [], ◌∷◌,
  ◌++◌, map, leb, ltb, if◌then◌else◌, replicate, or_else, is_some,
}
use hc_pool.Base.Text.{Text, text_eq}
use hc_pool.Base.Table.{Table, empty, insert, remove_if}
use hc_pool.Base.Hex.{Bytes, ℤ, pos, negsuc, int_eq, hex, unhex, to_hex, read_digits, parse_decimal}
use hc_pool.Difficulty.{Big, calculate_network_difficulty}
use hc_pool.Template.{TxIn, TxOut, Transaction, Block, JobTemplate, Bitcoin}
use hc_pool.Job.{MiningJob}

abbrev pub state_ttl_ms : ℕ
state_ttl_ms = 300_000

pub record JobService : Type 0 where
  -- `lastIntervalCount`; `none` is undefined.
  pub last_interval_count : Option ℤ
  pub skip_next : Bool
  pub stale_job_grace_ms : ℕ
  pub latest_job_id : ℕ
  pub latest_job_template_id : ℕ
  pub jobs : Table MiningJob
  pub blocks : Table JobTemplate
  pub stale_template_since_ms : Table ℕ

-- `parseGraceMs`
unfoldable pub parse_grace_ms : Option Text → ℕ → ℕ
parse_grace_ms none default_value = default_value
parse_grace_ms (some raw) default_value = elim (parse_decimal raw) [
  | none ↦ default_value
  | some z ↦ elim z [ pos n ↦ n | negsuc n ↦ default_value ]
]

unfoldable pub start : Option Text → JobService
start raw_grace = record {
  last_interval_count = none;
  skip_next = false;
  stale_job_grace_ms = parse_grace_ms raw_grace 1500;
  latest_job_id = 1;
  latest_job_template_id = 1;
  jobs = empty;
  blocks = empty;
  stale_template_since_ms = empty;
}

-- Every template that is not stale yet becomes stale now.
unfoldable pub mark_templates_stale : ℕ → JobService → JobService
mark_templates_stale now s = record s {
  stale_template_since_ms = λ id. elim (s.blocks id) [
    | none ↦ s.stale_template_since_ms id
    | some template ↦ some (or_else (s.stale_template_since_ms id) now)
  ];
}

abbrev pub expired : ℕ → ℕ → Bool
expired now creation = ltb state_ttl_ms (now - creation)

unfoldable pub prune_old_state : ℕ → JobService → JobService
prune_old_state now s = record s {
  blocks = remove_if (λ id template. expired now template.creation) s.blocks;
  stale_template_since_ms = λ id. elim (s.blocks id) [
    | none ↦ s.stale_template_since_ms id
    | some template ↦ if expired now template.creation then none else s.stale_template_since_ms id
  ];
  jobs = remove_if (λ id job. expired now job.creation) s.jobs;
}

unfoldable pub get_job_template_by_id : JobService → Text → Option JobTemplate
get_job_template_by_id s id = s.blocks id

unfoldable pub add_job : MiningJob → JobService → JobService
add_job job s = record s {
  jobs = insert job.job_id job s.jobs;
  latest_job_id = s.latest_job_id + 1;
}

unfoldable pub get_job_by_id : JobService → Text → Option MiningJob
get_job_by_id s id = s.jobs id

unfoldable pub remove_jobs_by_session : Text → JobService → JobService
remove_jobs_by_session session_id s = record s {
  jobs = remove_if (λ id job. text_eq job.owner_session_id session_id) s.jobs;
}

unfoldable pub is_template_stale : JobService → Text → Bool
is_template_stale s id = is_some (s.stale_template_since_ms id)

unfoldable pub is_template_within_grace_window : JobService → Text → ℕ → Bool
is_template_within_grace_window s id now = elim (s.stale_template_since_ms id) [
  | none ↦ false
  | some since ↦ leb (now - since) s.stale_job_grace_ms
]

unfoldable pub get_next_template_id : JobService → Text
get_next_template_id s = to_hex s.latest_job_template_id

unfoldable pub get_next_id : JobService → Text
get_next_id s = to_hex s.latest_job_id

-- The `tap` at the end of the pipe: a template of a new block makes the others stale.
unfoldable pub record_template : ℕ → JobTemplate → JobService → JobService
record_template now template s =
    let marked = if template.clear_jobs then mark_templates_stale now s else s in
    let pruned = prune_old_state now marked in
    record pruned { blocks = insert template.id template pruned.blocks }

-- The first `map` of the pipe, as far as it decides: `none` where it returns null, and otherwise
-- whether the jobs are cleared.
unfoldable pub decide_emission : ℤ → JobService → JobService × Option Bool
decide_emission interval s =
    let clear_jobs : Bool = elim s.last_interval_count [
      | none ↦ false
      | some last ↦ int_eq last interval
    ] in
    let skip_next = clear_jobs || s.skip_next in
    if skip_next && not clear_jobs
    then (record s { skip_next = false }, none)
    else (record s { last_interval_count = some interval; skip_next = skip_next }, some clear_jobs)

-- What `getblocktemplate` returns.
pub record BlockTemplate : Type 0 where
  pub version : ℤ
  pub bits : Text
  pub previous_block_hash : Text
  pub transactions : List Text
  pub coinbase_value : ℕ
  pub min_time : ℕ
  pub height : ℕ
  pub signet_challenge : Option Text

-- bitcoinjs-lib and merkle-lib: `Transaction.fromHex`, the proof of the first leaf with its empty
-- entries, and the witness commitment. `fromHex` throws on a text that is no transaction.
pub record Builder : Type 0 where
  pub big : Big
  pub tx_from_hex : Text → Transaction
  pub merkle_proof : List Bytes → List (Option Bytes)
  pub witness_root : List Transaction → Bytes

abbrev present : List (Option Bytes) → List Bytes
present [] = []
present (none ∷ hs) = present hs
present (some h ∷ hs) = h ∷ present hs

abbrev all_but_last : List Bytes → List Bytes
all_but_last [] = []
all_but_last (h ∷ []) = []
all_but_last (h ∷ k ∷ hs) = h ∷ all_but_last (k ∷ hs)

abbrev last_or_empty : List Bytes → Bytes
last_or_empty [] = []
last_or_empty (h ∷ []) = h
last_or_empty (h ∷ k ∷ hs) = last_or_empty (k ∷ hs)

-- The empty coinbase that stands first in the template.
abbrev pub temp_coinbase : Bool → Transaction
temp_coinbase enable_segwit = record {
  version = 2;
  locktime = 0;
  ins =
      record {
        hash = replicate 32 0;
        index = 0xffffffff;
        script = [];
        sequence = 0xffffffff;
        witness = if enable_segwit then replicate 32 0 ∷ [] else [];
      }
      ∷ [];
  outs = [];
}

module _ (btc : Bitcoin) (builder : Builder) (enable_segwit : Bool) (diff1_target : ℕ) where
  -- The two `map`s build the template from the answer of the node, at the time `now` (ms).
  unfoldable pub build_template : BlockTemplate → Text → Bool → ℕ → JobTemplate
  build_template answer id clear_jobs now =
      let current_time = now / 1000 in
      let transactions =
        temp_coinbase enable_segwit ∷ map builder.tx_from_hex answer.transactions in
      let branches = present (builder.merkle_proof (map btc.tx_hash transactions)) in
      record {
        block = record {
          version = answer.version;
          prev_hash = reverse (unhex answer.previous_block_hash);
          merkle_root = last_or_empty branches;
          timestamp =
              pos (if ltb current_time answer.min_time then answer.min_time else current_time);
          bits = read_digits 0 answer.bits;
          nonce = pos 0;
          witness_commit = if enable_segwit then some (builder.witness_root transactions) else none;
          transactions = transactions;
        };
        merkle_branch = map hex (tail (all_but_last branches));
        id = id;
        creation = now;
        coinbase_value = answer.coinbase_value;
        network_difficulty =
            calculate_network_difficulty builder.big diff1_target (read_digits 0 answer.bits);
        height = answer.height;
        signet_challenge = answer.signet_challenge;
        clear_jobs = clear_jobs;
      }

  -- The rest of the pipe, behind `filter`.
  unfoldable pub publish :
      BlockTemplate → ℕ → JobService → Option Bool → JobService × Option JobTemplate
  publish answer now s none = (s, none)
  publish answer now s (some clear_jobs) =
      let template = build_template answer (get_next_template_id s) clear_jobs now in
      let counted = record s { latest_job_template_id = s.latest_job_template_id + 1 } in
      (record_template now template counted, some template)

  -- One emission of the pipe, from the interval's count and the node's answer: the template that
  -- the sessions receive, if there is one.
  unfoldable pub emit : ℤ → BlockTemplate → ℕ → JobService → JobService × Option JobTemplate
  emit interval answer now s =
      let decided = decide_emission interval s in publish answer now decided.0 decided.1
