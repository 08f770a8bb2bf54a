-- ===== src/Statistics.antt =====
-- src/models/StratumV1ClientStatistics.ts: the shares of a session, its time slots, and the
-- difficulty that it suggests. Difficulties are in grains, times in milliseconds.
pub mod Slots
pub mod Saves
pub mod Suggest
pub mod Fuel
use Prim.Native.Nat.{bit_or}
use hc_pool.Base.{
  ℕ, zero, suc, ◌+◌, ◌-◌, ◌*◌, ◌/◌, ◌%◌, ◌^◌, Bool, true, false, ◌&&◌, ◌||◌, Option, none, some,
  List, [], ◌∷◌, ◌++◌, ltb, leb, ◌==◌, if◌then◌else◌, maximum, length,
}
use hc_pool.Bucket.{grain}
use hc_pool.Difficulty.{Ratio, infinity, ratio}

abbrev pub cache_size : ℕ
cache_size = 30

pub record Submission : Type 0 where
  pub time : ℕ
  pub difficulty : ℕ

-- The time slots are none until the first share.
pub record Statistics : Type 0 where
  pub shares : ℕ
  pub accepted_count : ℕ
  pub submission_cache_start : ℕ
  pub submission_cache : List Submission
  pub current_time_slot : Option ℕ
  pub last_save : ℕ
  pub hash_rate : Ratio
  pub target_submission_per_second : ℕ
  pub min_diff : ℕ
  pub previous_time_slot_time : ℕ
  pub current_time_slot_time : ℕ
  pub previous_shares : ℕ

-- The constructor: the smallest rate is 0.001, the smallest difficulty one grain.
unfoldable pub new : ℕ → ℕ → ℕ → Statistics
new target_submission_per_second min_diff now = record {
  shares = 0;
  accepted_count = 0;
  submission_cache_start = now;
  submission_cache = [];
  current_time_slot = none;
  last_save = 0;
  hash_rate = ratio 0 1;
  target_submission_per_second = maximum target_submission_per_second (grain / 1000);
  min_diff = maximum min_diff 1;
  previous_time_slot_time = 0;
  current_time_slot_time = 0;
  previous_shares = 0;
}

-- What a share writes to the database: a row is inserted or updated under its time slot.
pub record Row : Type 0 where
  pub time : ℕ
  pub shares : ℕ
  pub accepted_count : ℕ

pub data Write : Type 0 where
  insert update : Row → Write

abbrev row_of : ℕ → Statistics → Row
row_of slot s = record { time = slot; shares = s.shares; accepted_count = s.accepted_count }

abbrev pub slot_of : ℕ → ℕ
slot_of now = now / 600_000 * 600_000

abbrev shift : List Submission → List Submission
shift [] = []
shift (x ∷ xs) = xs

unfoldable pub push_cache : ℕ → ℕ → List Submission → List Submission
push_cache now difficulty cache =
    (if ltb cache_size (length cache) then shift cache else cache)
    ++ record { time = now; difficulty = difficulty } ∷ []

-- `((previousShares + shares) * 2^32) / (time / 1000)`
unfoldable pub rate_of : ℕ → ℕ → Ratio
rate_of shares time =
    if time == 0 then infinity else ratio (shares * 4_294_967_296 * 1000) (time * grain)

-- A share in the running slot.
abbrev pub count_share : ℕ → Statistics → Statistics
count_share difficulty s = record s {
  shares = s.shares + difficulty;
  accepted_count = s.accepted_count + 1;
}

-- The first share of the session.
unfoldable pub first_share : ℕ → ℕ → Statistics → Statistics × List Write
first_share now difficulty s =
    let counted = count_share difficulty s in
    (
      record counted {
        previous_time_slot_time = now;
        current_time_slot_time = now;
        current_time_slot = some (slot_of now);
        last_save = now;
      },
      insert (row_of (slot_of now) counted) ∷ [],
    )

-- The first share of a new slot.
unfoldable pub next_slot : ℕ → ℕ → ℕ → Statistics → Statistics × List Write
next_slot now difficulty old_slot s =
    let moved = record s {
      previous_shares = s.shares;
      previous_time_slot_time = s.current_time_slot_time;
      current_time_slot_time = now;
      current_time_slot = some (slot_of now);
      shares = difficulty;
      accepted_count = 1;
      last_save = now;
    } in
    (moved, update (row_of old_slot s) ∷ insert (row_of (slot_of now) moved) ∷ [])

-- A share of the running slot, saved if the last save is more than a minute ago.
unfoldable pub same_slot : ℕ → ℕ → ℕ → Statistics → Statistics × List Write
same_slot now difficulty slot s =
    let counted = count_share difficulty s in
    if ltb (s.last_save + 60_000) now
    then (record counted { last_save = now }, update (row_of slot counted) ∷ [])
    else (
      if ltb 0 counted.shares
          then record counted {
            hash_rate =
                rate_of (counted.previous_shares + counted.shares)
                  (now - counted.previous_time_slot_time);
          }
          else counted,
      [],
    )

unfoldable pub add_shares : ℕ → ℕ → Statistics → Statistics × List Write
add_shares now target_difficulty s0 =
    let s = record s0 { submission_cache = push_cache now target_difficulty s0.submission_cache } in
    elim s0.current_time_slot [
      | none ↦ first_share now target_difficulty s
      | some slot ↦
          if slot == slot_of now
          then same_slot now target_difficulty slot s
          else next_slot now target_difficulty slot s
    ]

-- One of the shifts of `nearestPowerOfTwo`, on a number below 2^31.
abbrev pub smear : ℕ → ℕ → ℕ
smear k x = bit_or x (x / 2 ^ k)

-- The highest power of two in the 32-bit integer of `n`, as the shifts find it: a pattern with the
-- sign bit set smears to -1, and -1 - (-1) is 0. (`x >> 32` is `x >> 0`.)
unfoldable pub highest_power : ℕ → ℕ
highest_power n =
    let pattern = n % 2 ^ 32 in
    let x = smear 16 (smear 8 (smear 4 (smear 2 (smear 1 pattern)))) in
    if leb (2 ^ 31) pattern then 0 else x - x / 2

-- `nearestPowerOfTwo`: the recursion takes fuel, and none means that it ran out. The value
-- is a quotient, or infinity, whose integer part is 0; `some none` is null.
unfoldable pub nearest_power_of_two : ℕ → ℕ → Ratio → Option (Option Ratio)
nearest_power_of_two zero min_diff val = none
nearest_power_of_two (suc fuel) min_diff infinity = nearest_power_of_two fuel min_diff infinity
nearest_power_of_two (suc fuel) min_diff (ratio n d) =
    let res = highest_power (n / d) in
    let deeper = nearest_power_of_two fuel min_diff (ratio (n * 100) d) in
    if n == 0
    then some none
    else if ltb (n * grain) (min_diff * d)
    then some (some (ratio min_diff grain))
    else if res == 0 && ltb (n * 100 * grain) (min_diff * d)
    then some (some (ratio min_diff grain))
    else if res == 0
    then elim deeper [
      | none ↦ none
      | some none ↦ some (some (ratio 0 1))
      | some (some infinity) ↦ some (some infinity)
      | some (some (ratio m e)) ↦ some (some (ratio m (e * 100)))
    ]
    else some (some (ratio res 1))

abbrev pub sum_difficulty : List Submission → ℕ
sum_difficulty [] = 0
sum_difficulty (x ∷ xs) = x.difficulty + sum_difficulty xs

abbrev first_time : List Submission → ℕ
first_time [] = 0
first_time (x ∷ xs) = x.time

abbrev last_time : List Submission → ℕ
last_time [] = 0
last_time (x ∷ []) = x.time
last_time (x ∷ y ∷ xs) = last_time (y ∷ xs)

-- A number as JavaScript has it: NaN, a negative one, or one from 0 up to infinity.
pub data Target : Type 0 where
  not_a_number below_zero : Target
  from_zero : Ratio → Target

-- `difficultyPerSecond * targetSubmissionPerSecond`, without the sum's unit. In the same millisecond
-- it is a division by 0, of 0 as well; with a clock that was put back it is negative, or -0.
unfoldable pub target_difficulty : Statistics → Target
target_difficulty s =
    let amount = sum_difficulty s.submission_cache * s.target_submission_per_second in
    let start = first_time s.submission_cache in
    let end = last_time s.submission_cache in
    if start == end
    then if amount == 0 then not_a_number else from_zero infinity
    else if ltb start end
    then from_zero (ratio (amount * 1000) ((end - start) * grain * grain))
    else if amount == 0
    then from_zero (ratio 0 1)
    else below_zero

-- `clientDifficulty * 2 < target || clientDifficulty / 2 > target`
unfoldable pub is_far : ℕ → Ratio → Bool
is_far client_difficulty infinity = true
is_far client_difficulty (ratio n d) =
    ltb (client_difficulty * 2 * d) (n * grain) || ltb (n * grain * 2) (client_difficulty * d)

-- `none` is an exhausted stack, `some none` is null. Both comparisons with NaN are false; a negative
-- target is far from any difficulty, and `nearestPowerOfTwo` raises it to the smallest.
unfoldable pub get_suggested_difficulty : ℕ → ℕ → ℕ → Statistics → Option (Option Ratio)
get_suggested_difficulty fuel now client_difficulty s =
    if ltb (length s.submission_cache) 5
    then if ltb 60_000 (now - s.submission_cache_start)
      then nearest_power_of_two fuel s.min_diff (ratio client_difficulty (6 * grain))
      else some none
    else elim (target_difficulty s) [
      | not_a_number ↦ some none
      | below_zero ↦ some (some (ratio s.min_diff grain))
      | from_zero target ↦
          if is_far client_difficulty target
          then nearest_power_of_two fuel s.min_diff target
          else some none
    ]
