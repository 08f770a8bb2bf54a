-- ===== src/Bucket/Rate.antt =====
-- The bucket as a rate limit: what a history of calls can spend.
use hc_pool.Base.{ℕ, ◌+◌, ◌-◌, ◌*◌, ◌≤◌, ◌≡◌, ap, arith, if◌then◌else◌, List, [], ◌∷◌}
use hc_pool.Bucket.Bounds.{IsValid, new-IsValid, try_consume-IsValid, update_params-IsValid}
use hc_pool.Bucket.{TokenBucket, grain, new, refill, update_params, try_consume}

-- The calls that a session makes, each with the reading of the clock.
pub data Call : Type 0 where
  consume : ℕ → Call
  update : ℕ → ℕ → Call

unfoldable pub apply : TokenBucket → ℕ × Call → TokenBucket
apply b (now, consume cost) = (try_consume b cost now).0
apply b (now, update target floor) = update_params b target floor now

unfoldable pub paid : TokenBucket → ℕ × Call → ℕ
paid b (now, consume cost) = if (try_consume b cost now).1 then cost else 0
paid b (now, update target floor) = 0

unfoldable pub run : TokenBucket → List (ℕ × Call) → TokenBucket
run b [] = b
run b (c ∷ cs) = run (apply b c) cs

-- The cost of all the shares that were let through.
unfoldable pub spent : TokenBucket → List (ℕ × Call) → ℕ
spent b [] = 0
spent b (c ∷ cs) = paid b c + spent (apply b c) cs

-- No update in the history asks for more than the rate.
abbrev pub WithinRate : ℕ → List (ℕ × Call) → Type 0
WithinRate rate [] = Unit {0}
WithinRate rate ((now, consume cost) ∷ cs) = WithinRate rate cs
WithinRate rate ((now, update target floor) ∷ cs) = (target ≤ rate) × WithinRate rate cs

mul_mono : (d a b : ℕ) → a ≤ b → d * a ≤ d * b
mul_mono d a b h = grind arith

gain :
    (last now cur r rate : ℕ)
    → r ≤ rate
    → last ≤ now
    → cur + (now - last) * r + rate * last ≤ cur + rate * now
gain last now cur r rate h k =
    let split : now ≡ last + (now - last) = omega arith in
    let more : rate * now ≡ rate * last + rate * (now - last) =
      omega (arith, ap (λ (t : ℕ). rate * t) split) in
    omega (arith, mul_mono (now - last) r rate h, more)

refill_gain :
    (b : TokenBucket) (now rate : ℕ)
    → b.refill_per_sec ≤ rate
    → (refill b now).current_units + rate * b.last_refill_ms
      ≤ b.current_units + rate * (refill b now).last_refill_ms
unfolding refill
refill_gain b now rate h =
    ground (arith, gain b.last_refill_ms now b.current_units b.refill_per_sec rate h)

apply_gain :
    (b : TokenBucket) (c : ℕ × Call) (rate : ℕ)
    → b.refill_per_sec ≤ rate
    → paid b c + (apply b c).current_units + rate * b.last_refill_ms
      ≤ b.current_units + rate * (apply b c).last_refill_ms
unfolding apply paid try_consume update_params
apply_gain b (now, consume cost) rate h = ground (arith, refill_gain b now rate h)
apply_gain b (now, update target floor) rate h = ground (arith, refill_gain b now rate h)

apply-rate-le :
    (b : TokenBucket) (c : ℕ × Call) (cs : List (ℕ × Call)) (rate : ℕ)
    → grain ≤ rate
    → b.refill_per_sec ≤ rate
    → WithinRate rate (c ∷ cs)
    → (apply b c).refill_per_sec ≤ rate
unfolding apply try_consume update_params refill
apply-rate-le b (now, consume cost) cs rate g h w = ground arith
apply-rate-le b (now, update target floor) cs rate g h w = ground arith

WithinRate-tail :
    (rate : ℕ) (c : ℕ × Call) (cs : List (ℕ × Call)) → WithinRate rate (c ∷ cs) → WithinRate rate cs
WithinRate-tail rate (now, consume cost) cs w = w
WithinRate-tail rate (now, update target floor) cs w = w.1

spent_gain :
    (b : TokenBucket) (cs : List (ℕ × Call)) (rate : ℕ)
    → grain ≤ rate
    → b.refill_per_sec ≤ rate
    → WithinRate rate cs
    → spent b cs + rate * b.last_refill_ms ≤ b.current_units + rate * (run b cs).last_refill_ms
unfolding spent run
spent_gain b [] rate g h w = omega arith
spent_gain b (c ∷ cs) rate g h w = omega (
  arith,
  apply_gain b c rate h,
  spent_gain (apply b c) cs rate g (apply-rate-le b c cs rate g h w) (WithinRate-tail rate c cs w),
)

-- Every reading of the clock is at most `t`.
abbrev pub Until : ℕ → List (ℕ × Call) → Type 0
Until t [] = Unit {0}
Until t ((now, c) ∷ cs) = (now ≤ t) × Until t cs

apply-last-le :
    (b : TokenBucket) (now t : ℕ) (c : Call)
    → b.last_refill_ms ≤ t
    → now ≤ t
    → (apply b (now, c)).last_refill_ms ≤ t
unfolding apply try_consume update_params refill
apply-last-le b now t (consume cost) h k = ground arith
apply-last-le b now t (update target floor) h k = ground arith

run-last-le :
    (b : TokenBucket) (t : ℕ) (cs : List (ℕ × Call))
    → b.last_refill_ms ≤ t
    → Until t cs
    → (run b cs).last_refill_ms ≤ t
unfolding run
run-last-le b t [] h u = h
run-last-le b t ((now, c) ∷ cs) h (k, u) =
    run-last-le (apply b (now, c)) t cs (apply-last-le b now t c h k) u

-- From its creation at `start` up to the time `t`, whatever shares arrive and however often the
-- parameters change, a bucket lets through at most the cost that the highest rate pays for in
-- that time: a fresh session starts with no credit, and a clock that goes back gives none.
pub spent-le-rate :
    (target floor rate start t : ℕ) (cs : List (ℕ × Call))
    → grain ≤ rate
    → target ≤ rate
    → start ≤ t
    → WithinRate rate cs
    → Until t cs
    → spent (new target floor start) cs ≤ rate * (t - start)
unfolding new
spent-le-rate target floor rate start t cs g h k w u =
    let b = new target floor start in
    let split : t ≡ start + (t - start) = omega arith in
    omega (
      arith,
      spent_gain b cs rate g (ground arith) w,
      mul_mono rate (run b cs).last_refill_ms t (run-last-le b t cs k u),
      ap (λ (x : ℕ). rate * x) split,
    )

run-IsValid : (b : TokenBucket) (cs : List (ℕ × Call)) → IsValid b → IsValid (run b cs)
unfolding run apply
run-IsValid b [] v = v
run-IsValid b ((now, consume cost) ∷ cs) v =
    run-IsValid (try_consume b cost now).0 cs (try_consume-IsValid cost now v)
run-IsValid b ((now, update target floor) ∷ cs) v =
    run-IsValid (update_params b target floor now) cs (update_params-IsValid target floor now v)

-- However shares and updates follow on the creation of a bucket, its credit is at most its
-- capacity, its rate is at least one hash a second, and the capacity is at least an hour of it.
pub run-new-IsValid :
    (target floor start : ℕ) (cs : List (ℕ × Call)) → IsValid (run (new target floor start) cs)
run-new-IsValid target floor start cs =
    run-IsValid (new target floor start) cs (new-IsValid target floor start)
