-- ===== src/Statistics/Slots.antt =====
-- No share is lost between the time slots (`addShares`).
use hc_pool.Base.{ℕ, ◌+◌, ◌≤◌, ◌≡◌, List, [], ◌∷◌, length, arith, length-append}
use hc_pool.Statistics.{
  Statistics, Submission, Write, insert, update, new, push_cache, first_share, next_slot, same_slot,
  add_shares, cache_size,
}

-- What the writes of one share say about a slot that is over: its last update, which comes with
-- the insertion of the next slot.
pub closed_shares : List Write → ℕ
closed_shares (update r ∷ insert q ∷ []) = r.shares
closed_shares _ = 0

pub closed_count : List Write → ℕ
closed_count (update r ∷ insert q ∷ []) = r.accepted_count
closed_count _ = 0

-- The shares of a session: a time and a difficulty each.
pub run : Statistics → List (ℕ × ℕ) → Statistics
run s [] = s
run s ((now, d) ∷ cs) = run (add_shares now d s).0 cs

pub all_closed_shares : Statistics → List (ℕ × ℕ) → ℕ
all_closed_shares s [] = 0
all_closed_shares s ((now, d) ∷ cs) =
    closed_shares (add_shares now d s).1 + all_closed_shares (add_shares now d s).0 cs

pub all_closed_count : Statistics → List (ℕ × ℕ) → ℕ
all_closed_count s [] = 0
all_closed_count s ((now, d) ∷ cs) =
    closed_count (add_shares now d s).1 + all_closed_count (add_shares now d s).0 cs

unfoldable pub credited : List (ℕ × ℕ) → ℕ
credited [] = 0
credited ((now, d) ∷ cs) = d + credited cs

add_shares-balance :
    (s : Statistics) (now d : ℕ)
    → (closed_shares (add_shares now d s).1 + (add_shares now d s).0.shares ≡ s.shares + d)
      × (closed_count (add_shares now d s).1 + (add_shares now d s).0.accepted_count
          ≡ s.accepted_count + 1)
unfolding add_shares first_share next_slot same_slot closed_shares closed_count
add_shares-balance s now d = ground arith

balance_from :
    (s : Statistics) (cs : List (ℕ × ℕ))
    → (all_closed_shares s cs + (run s cs).shares ≡ s.shares + credited cs)
      × (all_closed_count s cs + (run s cs).accepted_count ≡ s.accepted_count + length cs)
unfolding all_closed_shares all_closed_count run credited
balance_from s [] = omega arith
balance_from s ((now, d) ∷ cs) =
    omega (arith, add_shares-balance s now d, balance_from (add_shares now d s).0 cs)

-- Whatever the times of the shares, the final rows of the slots that are over and the counters of
-- the running slot add up to the difficulty of all the shares and to their number.
pub run-balance :
    (target min_diff start : ℕ) (cs : List (ℕ × ℕ))
    → let s = new target min_diff start in
      (all_closed_shares s cs + (run s cs).shares ≡ credited cs)
      × (all_closed_count s cs + (run s cs).accepted_count ≡ length cs)
unfolding new
run-balance target min_diff start cs = omega (arith, balance_from (new target min_diff start) cs)

push_cache-length :
    (now d : ℕ) (cache : List Submission)
    → length cache ≤ cache_size + 1
    → length (push_cache now d cache) ≤ cache_size + 1
unfolding push_cache
push_cache-length now d [] h = ground arith
push_cache-length now d (x ∷ xs) h = ground (
  arith,
  length-append xs (record { time = now; difficulty = d } ∷ []),
  length-append (x ∷ xs) (record { time = now; difficulty = d } ∷ []),
)

add_shares-cache :
    (s : Statistics) (now d : ℕ)
    → (add_shares now d s).0.submission_cache ≡ push_cache now d s.submission_cache
unfolding add_shares first_share next_slot same_slot
add_shares-cache s now d = ground arith

-- The cache never holds more than 31 entries.
pub run-cache_bound :
    (s : Statistics) (cs : List (ℕ × ℕ))
    → length s.submission_cache ≤ cache_size + 1
    → length (run s cs).submission_cache ≤ cache_size + 1
unfolding run
run-cache_bound s [] h = h
run-cache_bound s ((now, d) ∷ cs) h =
    run-cache_bound (add_shares now d s).0 cs
      (rw (add_shares-cache s now d) (push_cache-length now d s.submission_cache h))
