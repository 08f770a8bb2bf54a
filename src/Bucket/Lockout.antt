-- ===== src/Bucket/Lockout.antt =====
-- Which shares can ever pass: the bucket always has room for four shares at the difficulty floor,
-- and never passes a share that costs more than the bucket holds.
use hc_pool.Base.{ℕ, ◌-◌, ◌*◌, ◌≤◌, ◌<◌, ◌≡◌, refl, true, false, arith, List, [], ◌∷◌}
use hc_pool.Bucket.{
  TokenBucket, grain, compute_capacity, new, refill, try_consume, share_cost_units,
}
use hc_pool.Bucket.Bounds.{IsValid, try_consume_iff}
use hc_pool.Bucket.Rate.{Call, consume, apply, paid, spent}

-- A waiting time (ms) that the rate turns into at least the cost is enough for a share that the
-- bucket can hold.
pub try_consume_after_wait :
    (b : TokenBucket) (cost now : ℕ)
    → IsValid b
    → cost ≤ b.capacity_units
    → cost ≤ (now - b.last_refill_ms) * b.refill_per_sec
    → (try_consume b cost now).1 ≡ true
try_consume_after_wait b cost now v fits paid = (try_consume_iff b cost now v).1 (ground arith)

-- Four shares at the floor fit the bucket that is made for that floor.
pub capacity_holds_four :
    (rate floor : ℕ) → 4 * share_cost_units floor ≤ compute_capacity rate floor
unfolding compute_capacity share_cost_units
capacity_holds_four rate floor = ground arith

-- A share dearer than both terms of the capacity.
abbrev pub TooDear : ℕ → ℕ → ℕ → Type 0
TooDear rate floor difficulty =
    (rate * 3600000 < share_cost_units difficulty) × (4 * floor < difficulty)

abbrev pub attempts : ℕ → List ℕ → List (ℕ × Call)
attempts difficulty [] = []
attempts difficulty (now ∷ times) =
    (now, consume (share_cost_units difficulty)) ∷ attempts difficulty times

try_consume_too_dear :
    (b : TokenBucket) (cost now : ℕ)
    → b.capacity_units < cost
    → ((try_consume b cost now).1 ≡ false)
      × ((try_consume b cost now).0.capacity_units ≡ b.capacity_units)
unfolding try_consume refill
try_consume_too_dear b cost now h = ground arith

spent_too_dear :
    (b : TokenBucket) (difficulty : ℕ) (times : List ℕ)
    → b.capacity_units < share_cost_units difficulty
    → spent b (attempts difficulty times) ≡ 0
unfolding spent apply paid
spent_too_dear b difficulty [] h = refl
spent_too_dear b difficulty (now ∷ times) h =
    let (refused, same) = try_consume_too_dear b (share_cost_units difficulty) now h in
    ground (
      arith,
      refused,
      same,
      spent_too_dear (try_consume b (share_cost_units difficulty) now).0 difficulty times,
    )

capacity-lt_dear :
    (rate floor difficulty : ℕ)
    → TooDear rate floor difficulty
    → compute_capacity rate floor < share_cost_units difficulty
unfolding compute_capacity share_cost_units
capacity-lt_dear rate floor difficulty dear = ground arith

new_capacity :
    (target floor start : ℕ)
    → grain ≤ target
    → (new target floor start).capacity_units ≡ compute_capacity target floor
unfolding new
new_capacity target floor start g = ground arith

-- Once the session's difficulty is above four times the floor and a share costs more than an hour
-- of the target rate, no share passes, however many are tried and however long the miner waits.
pub locked_out :
    (target floor start difficulty : ℕ) (times : List ℕ)
    → grain ≤ target
    → TooDear target floor difficulty
    → spent (new target floor start) (attempts difficulty times) ≡ 0
locked_out target floor start difficulty times g dear =
    spent_too_dear (new target floor start) difficulty times
      (rw (new_capacity target floor start g) (capacity-lt_dear target floor difficulty dear))
