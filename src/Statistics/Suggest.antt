-- ===== src/Statistics/Suggest.antt =====
-- Where the suggestion of a difficulty does not end.
use hc_pool.Base.{◌*◌, ◌<◌, ℕ, zero, suc, ◌≤◌, ◌≡◌, refl, none, arith, length}
use hc_pool.Difficulty.{infinity}
use hc_pool.Statistics.{
  sum_difficulty, Statistics, nearest_power_of_two, get_suggested_difficulty, target_difficulty,
  is_far, last_time, first_time,
}

nearest_power_of_two-infinity :
    (fuel min_diff : ℕ) → nearest_power_of_two fuel min_diff infinity ≡ none
unfolding nearest_power_of_two
nearest_power_of_two-infinity zero min_diff = refl
nearest_power_of_two-infinity (suc fuel) min_diff = nearest_power_of_two-infinity fuel min_diff

-- If the cache holds five shares or more, the first and the last came in the same millisecond, and
-- neither the sum of their difficulties nor the rate that is aimed at is 0, the recursion of `nearestPowerOfTwo` ends for no fuel: the stack of the process runs out.
pub get_suggested_difficulty-diverges :
    (fuel now client_difficulty : ℕ) (s : Statistics)
    → 5 ≤ length s.submission_cache
    → first_time s.submission_cache ≡ last_time s.submission_cache
    → 0 < sum_difficulty s.submission_cache * s.target_submission_per_second
    → get_suggested_difficulty fuel now client_difficulty s ≡ none
unfolding get_suggested_difficulty target_difficulty is_far
get_suggested_difficulty-diverges fuel now client_difficulty s h e p =
    ground (arith, nearest_power_of_two-infinity fuel s.min_diff)
