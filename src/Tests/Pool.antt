-- ===== src/Tests/Pool.antt =====
-- The theorems on the bucket, the job service, the metrics and the statistics at concrete inputs.
use hc_pool.Base.{
  ℕ, ◌+◌, ◌-◌, ◌*◌, ◌≤◌, ◌≡◌, ◌↔◌, refl, true, false, none, some, List, [], ◌∷◌, arith,
}
use hc_pool.Base.Text.{codes, text_eq}
use hc_pool.Base.Hex.{pos, to_hex}
use hc_pool.Bucket.{grain, new, share_cost_units}
use hc_pool.Bucket.Rate.{Call, consume, update, spent, spent-le-rate}
use hc_pool.Bucket.Lockout.{locked_out, attempts}
use hc_pool.Job.{MiningJob}
use hc_pool.Jobs.{
  start, add_job, is_template_within_grace_window, mark_templates_stale, decide_emission,
  BlockTemplate, Builder,
}
use hc_pool.Jobs.Store
use hc_pool.Jobs.Store.{Reach, here, next, Step, emits, adds, leaves, Reach-IsValid}
use hc_pool.Jobs.Emission.{missed_new_block, grace_window_iff}
use hc_pool.Metrics.{no_metrics, snapshot, bucket_snapshot}
use hc_pool.Metrics.Totals.{
  Report, failure, success, bucket_accepted, bucket_rejected, apply_all, tally, is_failure,
  is_accepted, is_enforced, snapshot_totals,
}
use hc_pool.Statistics.{Statistics, Submission, get_suggested_difficulty}
use hc_pool.Statistics
use hc_pool.Base.{is_some}
use hc_pool.Difficulty.{ratio}
use hc_pool.Statistics.{nearest_power_of_two}
use hc_pool.Statistics.Fuel.{nearest_power_of_two-returns}
use hc_pool.Statistics.Suggest.{get_suggested_difficulty-diverges}
use hc_pool.Tests.Demo.{demo_bitcoin, demo_service, demo_job, demo_template}

abbrev calls : List (ℕ × Call)
calls =
    (1000, consume (5 * grain))
    ∷ (900, consume (5 * grain))
    ∷ (2000, update (20 * grain) grain)
    ∷ (3000, consume (9000 * grain))
    ∷ []

spent-le-rate_example : spent (new (10 * grain) grain 500) calls ≤ 20 * grain * (4000 - 500)
spent-le-rate_example =
    spent-le-rate (10 * grain) grain (20 * grain) 500 4000 calls (omega arith) (omega arith)
      (omega arith) (ground arith) (ground arith)

locked_out_example : spent (new grain grain 0) (attempts (5 * grain) (1000 ∷ 9000000 ∷ [])) ≡ 0
unfolding share_cost_units
locked_out_example =
    locked_out grain grain 0 (5 * grain) (1000 ∷ 9000000 ∷ []) (omega arith) (ground arith)

abbrev answer : BlockTemplate
answer = record {
  version = pos 4;
  bits = codes "1d00ffff";
  previous_block_hash = codes "00";
  transactions = [];
  coinbase_value = 50;
  min_time = 1;
  height = 7;
  signet_challenge = none;
}

abbrev builder : Builder
builder = record {
  big = ratio;
  tx_from_hex = λ t. record { version = 1; locktime = 0; ins = []; outs = [] };
  merkle_proof = λ hs. none ∷ [];
  witness_root = λ ts. [];
}

abbrev first_job : MiningJob
first_job = record demo_job { job_id = to_hex 1 }

started : Reach demo_bitcoin builder false 7 none (start none)
started = here

one_job : Reach demo_bitcoin builder false 7 none (add_job first_job (start none))
unfolding start
one_job = next started (adds first_job 1 refl (omega arith))

Reach-IsValid_example : Store.IsValid (add_job first_job (start none))
Reach-IsValid_example = Reach-IsValid one_job

missed_new_block_example :
    let skipped = decide_emission (pos 4) (decide_emission (pos 3) demo_service).0 in
    (skipped.1 ≡ none) × ((decide_emission (pos 4) skipped.0).1 ≡ some false)
missed_new_block_example = missed_new_block demo_service (pos 3) (pos 4) refl (cc)

grace_window_iff_example :
    (is_template_within_grace_window
        (mark_templates_stale 2600 (mark_templates_stale 2000 demo_service))
        (codes "1")
        3400
      ≡ true)
    ↔ (3400 ≤ 2000 + demo_service.stale_job_grace_ms)
unfolding text_eq
grace_window_iff_example =
    grace_window_iff demo_service (codes "1") demo_template 2000 2600 3400 refl refl

abbrev reports : List Report
reports =
    failure (codes "device_auth") (codes "x")
    ∷ success (codes "device_auth")
    ∷ bucket_accepted none none
    ∷ bucket_rejected none (some (codes "a")) true
    ∷ bucket_rejected (some (codes "d")) none false
    ∷ []

snapshot_totals_example :
    ((snapshot (apply_all no_metrics reports)).total ≡ tally is_failure reports)
    × ((bucket_snapshot (apply_all no_metrics reports)).accepted_total ≡ tally is_accepted reports)
    × ((bucket_snapshot (apply_all no_metrics reports)).rejected_enforced
        ≡ tally (is_enforced true) reports)
    × ((bucket_snapshot (apply_all no_metrics reports)).rejected_observe_only
        ≡ tally (is_enforced false) reports)
snapshot_totals_example = snapshot_totals reports

abbrev sub : Submission
sub = record { time = 900; difficulty = grain }

abbrev burst : Statistics
burst = record (Statistics.new 1000 grain 500) {
  submission_cache = sub ∷ sub ∷ sub ∷ sub ∷ sub ∷ [];
}

get_suggested_difficulty-diverges_example : get_suggested_difficulty 100 1000 grain burst ≡ none
unfolding Statistics.new
get_suggested_difficulty-diverges_example =
    get_suggested_difficulty-diverges 100 1000 grain burst (omega arith) refl (omega arith)

nearest_power_of_two-returns_example : is_some (nearest_power_of_two 6 grain (ratio 5 2)) ≡ true
nearest_power_of_two-returns_example =
    nearest_power_of_two-returns 0 grain 5 2 (omega arith) (omega arith) (omega arith)
