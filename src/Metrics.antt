-- ===== src/Metrics.antt =====
-- src/services/mining-session-metrics.service.ts. A `Map` with counts is a list of entries in the
-- order of insertion.
pub mod Totals
use hc_pool.Base.{
  ℕ, ◌+◌, Bool, true, false, Option, none, some, List, [], ◌∷◌, ◌++◌, map, leb, ltb, if◌then◌else◌,
  or_else, is_some, sum,
}
use hc_pool.Base.Text.{Text, codes, text_eq, before, after}

abbrev pub Counter : Type 0
Counter = List (Text × ℕ)

-- `map.get(key) ?? 0`
unfoldable pub count_of : Counter → Text → ℕ
count_of [] key = 0
count_of ((k, n) ∷ c) key = if text_eq k key then n else count_of c key

-- `map.set(key, (map.get(key) ?? 0) + 1)`
unfoldable pub bump : Text → Counter → Counter
bump key [] = (key, 1) ∷ []
bump key ((k, n) ∷ c) = if text_eq k key then (k, n + 1) ∷ c else (k, n) ∷ bump key c

-- `[...map.values()].reduce((a, b) => a + b, 0)`
unfoldable pub sum_values : Counter → ℕ
sum_values [] = 0
sum_values ((k, n) ∷ c) = n + sum_values c

pub record Metrics : Type 0 where
  pub auth_failures : Counter
  pub stage_failures : List (Text × Counter)
  pub stage_successes : Counter
  pub bucket_accept : Counter
  pub bucket_reject : Counter
  pub bucket_reject_observe_only : Counter

abbrev pub no_metrics : Metrics
no_metrics = record {
  auth_failures = [];
  stage_failures = [];
  stage_successes = [];
  bucket_accept = [];
  bucket_reject = [];
  bucket_reject_observe_only = [];
}

unfoldable pub bump_stage : Text → Text → List (Text × Counter) → List (Text × Counter)
bump_stage stage reason [] = (stage, bump reason []) ∷ []
bump_stage stage reason ((s, c) ∷ m) =
    if text_eq s stage then (s, bump reason c) ∷ m else (s, c) ∷ bump_stage stage reason m

unfoldable pub record_failure : Text → Text → Metrics → Metrics
record_failure stage reason m = record m {
  auth_failures = bump (stage ++ b':' ∷ reason) m.auth_failures;
  stage_failures = bump_stage stage reason m.stage_failures;
}

unfoldable pub record_success : Text → Metrics → Metrics
record_success stage m = record m { stage_successes = bump stage m.stage_successes }

pub record FailureRecord : Type 0 where
  pub stage : Text
  pub reason : Text
  pub count : ℕ

abbrev failures_of : Text → Counter → List FailureRecord
failures_of stage [] = []
failures_of stage ((reason, n) ∷ c) =
    record { stage = stage; reason = reason; count = n } ∷ failures_of stage c

unfoldable pub all_failures : List (Text × Counter) → List FailureRecord
all_failures [] = []
all_failures ((stage, c) ∷ m) = failures_of stage c ++ all_failures m

unfoldable pub total_failures : List (Text × Counter) → ℕ
total_failures [] = 0
total_failures ((stage, c) ∷ m) = sum_values c + total_failures m

-- `sort((a, b) => b.count - a.count)`: the highest count first, and equal counts in their order.
module _ {ℓ} {A : Type ℓ} (count : A → ℕ) where
  pub insert_sorted : A → List A → List A
  insert_sorted a [] = a ∷ []
  insert_sorted a (b ∷ bs) = if ltb (count a) (count b) then b ∷ insert_sorted a bs else a ∷ b ∷ bs

  unfoldable pub sort_by_count : List A → List A
  unfolding insert_sorted
  sort_by_count [] = []
  sort_by_count (a ∷ as') = insert_sorted a (sort_by_count as')

pub record MetricsSnapshot : Type 0 where
  pub total : ℕ
  pub failures : List FailureRecord
  pub successes : Counter

unfoldable pub snapshot : Metrics → MetricsSnapshot
snapshot m = record {
  total = total_failures m.stage_failures;
  failures = sort_by_count (λ f. f.count) (all_failures m.stage_failures);
  successes = sort_by_count (λ s. s.1) m.stage_successes;
}

unfoldable pub bucket_key : Option Text → Option Text → Text
bucket_key device_id class_id =
    or_else class_id (codes "unknown") ++ b'|' ∷ or_else device_id (codes "unknown")

unfoldable pub record_bucket_acceptance : Option Text → Option Text → Metrics → Metrics
record_bucket_acceptance device_id class_id m = record m {
  bucket_accept = bump (bucket_key device_id class_id) m.bucket_accept;
}

unfoldable pub record_bucket_rejection : Option Text → Option Text → Bool → Metrics → Metrics
record_bucket_rejection device_id class_id true m = record m {
  bucket_reject = bump (bucket_key device_id class_id) m.bucket_reject;
}
record_bucket_rejection device_id class_id false m = record m {
  bucket_reject_observe_only = bump (bucket_key device_id class_id) m.bucket_reject_observe_only;
}

pub record DeviceCounts : Type 0 where
  pub class_id : Text
  pub device_id : Option Text
  pub accepted : ℕ
  pub rejected_enforced : ℕ
  pub rejected_observe_only : ℕ

abbrev has_key : Text → List Text → Bool
has_key key [] = false
has_key key (k ∷ ks) = if text_eq k key then true else has_key key ks

-- The `Set` of keys, in the order in which they are first met.
abbrev add_keys : Counter → List Text → List Text
add_keys [] seen = seen
add_keys ((k, n) ∷ c) seen = add_keys c (if has_key k seen then seen else seen ++ k ∷ [])

-- `key.split('|', 2)`
unfoldable pub device_counts : Metrics → Text → DeviceCounts
device_counts m key = record {
  class_id = before b'|' key;
  device_id = elim (after b'|' key) [ none ↦ none | some rest ↦ some (before b'|' rest) ];
  accepted = count_of m.bucket_accept key;
  rejected_enforced = count_of m.bucket_reject key;
  rejected_observe_only = count_of m.bucket_reject_observe_only key;
}

pub record BucketSnapshot : Type 0 where
  pub accepted_total : ℕ
  pub rejected_enforced : ℕ
  pub rejected_observe_only : ℕ
  pub per_device : List DeviceCounts

unfoldable pub bucket_snapshot : Metrics → BucketSnapshot
unfolding device_counts
bucket_snapshot m =
    let keys =
      add_keys m.bucket_reject_observe_only
        (add_keys m.bucket_reject (add_keys m.bucket_accept [])) in
    record {
      accepted_total = sum_values m.bucket_accept;
      rejected_enforced = sum_values m.bucket_reject;
      rejected_observe_only = sum_values m.bucket_reject_observe_only;
      per_device = map (device_counts m) keys;
    }
