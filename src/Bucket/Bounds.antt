-- ===== src/Bucket/Bounds.antt =====
-- What every operation of the bucket keeps, and what a consumption does.
use hc_pool.Base.{ℕ, ◌+◌, ◌-◌, ◌*◌, ◌≤◌, ◌≡◌, ◌↔◌, true, arith, minimum}
use hc_pool.Bucket.{TokenBucket, grain, compute_capacity, new, refill, update_params, try_consume}

-- The credit fits the bucket, the rate is at least one hash a second, and the bucket holds at
-- least what an hour brings.
pub record IsValid (b : TokenBucket) : Type 0 where
  pub fits : b.current_units ≤ b.capacity_units
  pub flows : grain ≤ b.refill_per_sec
  pub holds_hour : b.refill_per_sec * 3600000 ≤ b.capacity_units

pub new-IsValid : (target floor now : ℕ) → IsValid (new target floor now)
unfolding new compute_capacity
new-IsValid target floor now = ground arith

pub refill-IsValid : {b : TokenBucket} (now : ℕ) → IsValid b → IsValid (refill b now)
unfolding refill
refill-IsValid now v = ground arith

pub update_params-IsValid :
    {b : TokenBucket} (target floor now : ℕ)
    → IsValid b
    → IsValid (update_params b target floor now)
unfolding update_params compute_capacity
update_params-IsValid target floor now v = ground arith

pub try_consume-IsValid :
    {b : TokenBucket} (cost now : ℕ) → IsValid b → IsValid (try_consume b cost now).0
unfolding try_consume
try_consume-IsValid {b} cost now v = ground (arith, refill-IsValid {b = b} now v)

-- The credit after the time from the last refill to `now`.
abbrev pub credit_at : TokenBucket → ℕ → ℕ
credit_at b now =
    minimum b.capacity_units (b.current_units + (now - b.last_refill_ms) * b.refill_per_sec)

pub refill-credit_at :
    (b : TokenBucket) (now : ℕ) → IsValid b → (refill b now).current_units ≡ credit_at b now
unfolding refill
refill-credit_at b now v = ground arith

-- A share passes exactly when the credit covers its cost: what was left at the last refill and what
-- the rate brought since, up to the capacity. The bucket has to be valid.
pub try_consume_iff :
    (b : TokenBucket) (cost now : ℕ)
    → IsValid b
    → ((try_consume b cost now).1 ≡ true) ↔ (cost ≤ credit_at b now)
unfolding try_consume refill
try_consume_iff b cost now v = ground arith
