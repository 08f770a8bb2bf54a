-- ===== src/Metrics/Totals.antt =====
-- The totals count the calls, and each count is that of its key.
use hc_pool.Base.{ℕ, ◌+◌, ◌≡◌, refl, Bool, true, false, Option, List, [], ◌∷◌, if◌then◌else◌, arith}
use hc_pool.Base.Text.{Text, text_eq, text_eq_iff}
use hc_pool.Metrics.{
  Counter, count_of, bump, sum_values, Metrics, no_metrics, bump_stage, record_failure,
  record_success, total_failures, snapshot, record_bucket_acceptance, record_bucket_rejection,
  bucket_snapshot, bucket_key,
}

pub count_of-bump :
    (key k : Text) (c : Counter)
    → count_of (bump key c) k ≡ (if text_eq key k then count_of c k + 1 else count_of c k)
unfolding count_of bump
count_of-bump key k [] = ground arith
count_of-bump key k ((j, n) ∷ c) =
    ground (arith, text_eq_iff j key, text_eq_iff j k, text_eq_iff key k, count_of-bump key k c)

pub sum_values-bump : (key : Text) (c : Counter) → sum_values (bump key c) ≡ sum_values c + 1
unfolding sum_values bump
sum_values-bump key [] = refl
sum_values-bump key ((k, n) ∷ c) = ground (arith, sum_values-bump key c)

total_failures-bump :
    (stage reason : Text) (m : List (Text × Counter))
    → total_failures (bump_stage stage reason m) ≡ total_failures m + 1
unfolding total_failures bump_stage sum_values bump
total_failures-bump stage reason [] = refl
total_failures-bump stage reason ((s, c) ∷ m) =
    ground (arith, sum_values-bump reason c, total_failures-bump stage reason m)

-- What a session reports.
pub data Report : Type 0 where
  failure : Text → Text → Report
  success : Text → Report
  bucket_accepted : Option Text → Option Text → Report
  bucket_rejected : Option Text → Option Text → Bool → Report

pub apply : Metrics → Report → Metrics
apply m (failure stage reason) = record_failure stage reason m
apply m (success stage) = record_success stage m
apply m (bucket_accepted device class_id) = record_bucket_acceptance device class_id m
apply m (bucket_rejected device class_id enforced) =
    record_bucket_rejection device class_id enforced m

pub apply_all : Metrics → List Report → Metrics
apply_all m [] = m
apply_all m (r ∷ rs) = apply_all (apply m r) rs

-- How many of the reports pass a test.
pub tally : (Report → Bool) → List Report → ℕ
tally p [] = 0
tally p (r ∷ rs) = (if p r then 1 else 0) + tally p rs

abbrev pub is_failure : Report → Bool
is_failure (failure stage reason) = true
is_failure _ = false

abbrev pub is_enforced : Bool → Report → Bool
is_enforced true (bucket_rejected device class_id true) = true
is_enforced false (bucket_rejected device class_id false) = true
is_enforced _ _ = false

abbrev pub is_accepted : Report → Bool
is_accepted (bucket_accepted device class_id) = true
is_accepted _ = false

totals_from :
    (rs : List Report) (m : Metrics)
    → (total_failures (apply_all m rs).stage_failures
        ≡ total_failures m.stage_failures + tally is_failure rs)
      × (sum_values (apply_all m rs).bucket_accept
          ≡ sum_values m.bucket_accept + tally is_accepted rs)
      × (sum_values (apply_all m rs).bucket_reject
          ≡ sum_values m.bucket_reject + tally (is_enforced true) rs)
      × (sum_values (apply_all m rs).bucket_reject_observe_only
          ≡ sum_values m.bucket_reject_observe_only + tally (is_enforced false) rs)
unfolding apply_all tally apply record_failure record_success record_bucket_acceptance
    record_bucket_rejection
totals_from [] m = omega arith
totals_from (failure stage reason ∷ rs) m = omega (
  arith,
  totals_from rs (record_failure stage reason m),
  total_failures-bump stage reason m.stage_failures,
)
totals_from (success stage ∷ rs) m = omega (arith, totals_from rs (record_success stage m))
totals_from (bucket_accepted d c ∷ rs) m = omega (
  arith,
  totals_from rs (record_bucket_acceptance d c m),
  sum_values-bump (bucket_key d c) m.bucket_accept,
)
totals_from (bucket_rejected d c true ∷ rs) m = omega (
  arith,
  totals_from rs (record_bucket_rejection d c true m),
  sum_values-bump (bucket_key d c) m.bucket_reject,
)
totals_from (bucket_rejected d c false ∷ rs) m = omega (
  arith,
  totals_from rs (record_bucket_rejection d c false m),
  sum_values-bump (bucket_key d c) m.bucket_reject_observe_only,
)

-- After any sequence of reports to a fresh service, the snapshots' totals are the numbers of
-- failures, of shares that the bucket let through, and of shares that it refused with enforcement
-- and without.
pub snapshot_totals :
    (rs : List Report)
    → ((snapshot (apply_all no_metrics rs)).total ≡ tally is_failure rs)
      × ((bucket_snapshot (apply_all no_metrics rs)).accepted_total ≡ tally is_accepted rs)
      × ((bucket_snapshot (apply_all no_metrics rs)).rejected_enforced
          ≡ tally (is_enforced true) rs)
      × ((bucket_snapshot (apply_all no_metrics rs)).rejected_observe_only
          ≡ tally (is_enforced false) rs)
unfolding snapshot bucket_snapshot total_failures sum_values
snapshot_totals rs = omega (arith, totals_from rs no_metrics)
