-- ===== src/Bucket.antt =====
-- src/models/TokenBucket.ts
-- Quantities that the source keeps as doubles are exact here: a difficulty or a hash rate counts
-- grains of 10^-10, and a unit of credit counts thousandths of a grain, so that milliseconds times
-- a rate is whole.
pub mod Bounds
pub mod Rate
pub mod Lockout
use hc_pool.Base.{
  ℕ, ◌+◌, ◌-◌, ◌*◌, ◌^◌, ◌≡◌, Bool, true, false, ltb, leb, if◌then◌else◌, maximum, minimum,
}

-- The number 1.
abbrev pub grain : ℕ
grain = 10_000_000_000

pub record TokenBucket : Type 0 where
  pub capacity_units : ℕ
  pub refill_per_sec : ℕ
  pub current_units : ℕ
  pub last_refill_ms : ℕ

unfoldable pub compute_capacity : ℕ → ℕ → ℕ
compute_capacity refill_per_sec pool_diff_floor =
    let one_hour_refill = refill_per_sec * 3600 * 1000 in
    let four_shares_at_floor = 4 * pool_diff_floor * 2 ^ 32 * 1000 in
    maximum one_hour_refill four_shares_at_floor

-- `new TokenBucket({ targetHashrateHs, poolDiffFloor })` at the time `now`.
unfoldable pub new : ℕ → ℕ → ℕ → TokenBucket
new target_hashrate_hs pool_diff_floor now =
    let rate = maximum grain target_hashrate_hs in
    record {
      capacity_units = compute_capacity rate pool_diff_floor;
      refill_per_sec = rate;
      current_units = 0;
      last_refill_ms = now;
    }

-- A clock that went back gives no credit, and the time of the last refill stays.
unfoldable pub refill : TokenBucket → ℕ → TokenBucket
refill b now =
    let delta = now - b.last_refill_ms in
    if leb delta 0 then b else record b {
      current_units = minimum b.capacity_units (b.current_units + delta * b.refill_per_sec);
      last_refill_ms = now;
    }

unfoldable pub update_params : TokenBucket → ℕ → ℕ → ℕ → TokenBucket
update_params b target_hashrate_hs pool_diff_floor now =
    let new_refill = maximum grain target_hashrate_hs in
    let new_capacity = compute_capacity new_refill pool_diff_floor in
    let r = refill b now in
    record r {
      refill_per_sec = new_refill;
      capacity_units = new_capacity;
      current_units = if ltb new_capacity r.current_units then new_capacity else r.current_units;
    }

unfoldable pub try_consume : TokenBucket → ℕ → ℕ → TokenBucket × Bool
try_consume b cost_units now =
    let r = refill b now in
    if ltb r.capacity_units cost_units
    then (r, false)
    else if ltb r.current_units cost_units
    then (r, false)
    else (record r { current_units = r.current_units - cost_units }, true)

pub record Snapshot : Type 0 where
  pub current_units : ℕ
  pub capacity_units : ℕ
  pub refill_per_sec : ℕ
  -- `drainPct` as a numerator and a denominator.
  pub drain_num : ℕ
  pub drain_den : ℕ

unfoldable pub snapshot : TokenBucket → ℕ → TokenBucket × Snapshot
snapshot b now =
    let r = refill b now in
    let filled = ltb 0 r.capacity_units in
    (
      r,
      record {
        current_units = r.current_units;
        capacity_units = r.capacity_units;
        refill_per_sec = r.refill_per_sec;
        drain_num = if filled then 100 * (r.capacity_units - r.current_units) else 0;
        drain_den = if filled then r.capacity_units else 1;
      },
    )

unfoldable pub share_cost_units : ℕ → ℕ
share_cost_units difficulty = difficulty * 2 ^ 32 * 1000
