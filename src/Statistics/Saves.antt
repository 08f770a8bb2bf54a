-- ===== src/Statistics/Saves.antt =====
-- `addShares` of src/models/StratumV1ClientStatistics.ts where the database may fail: what an
-- exception of one of its calls leaves in the session.
use hc_pool.Base.{ℕ, ◌≡◌, refl, Bool, true, false, List, [], ◌∷◌, if◌then◌else◌}
use hc_pool.Statistics.{Statistics, Write, push_cache, add_shares}

-- The writes that are made, by whether the n-th call fails, with false for an exception. A single
-- write comes behind the change of the counters and before that of `lastSave`. At the turn of a time
-- slot, a failed update leaves the share uncounted, and a failed insert leaves `lastSave` as it was.
unfoldable pub make_writes :
    (ℕ → Bool) → Statistics → Statistics → Statistics → List Write → Bool × Statistics × List Write
make_writes fails uncounted unsaved saved [] = (true, saved, [])
make_writes fails uncounted unsaved saved (one ∷ []) =
    if fails 0 then (false, unsaved, []) else (true, saved, one ∷ [])
make_writes fails uncounted unsaved saved (one ∷ two ∷ more) =
    if fails 0
    then (false, uncounted, [])
    else if fails 1
    then (false, unsaved, one ∷ [])
    else (true, saved, one ∷ two ∷ more)

unfoldable pub save_shares : (ℕ → Bool) → ℕ → ℕ → Statistics → Bool × Statistics × List Write
save_shares fails now difficulty s =
    let r = add_shares now difficulty s in
    make_writes fails (record s { submission_cache = push_cache now difficulty s.submission_cache })
      (record (r.0) { last_save = s.last_save }) r.0 r.1

make_writes-saved :
    (fails : ℕ → Bool) (uncounted unsaved saved : Statistics) (ws : List Write)
    → ((n : ℕ) → fails n ≡ false)
    → make_writes fails uncounted unsaved saved ws ≡ (true, saved, ws)
unfolding make_writes
make_writes-saved fails uncounted unsaved saved [] h = refl
make_writes-saved fails uncounted unsaved saved (one ∷ []) h = rw (h 0) refl
make_writes-saved fails uncounted unsaved saved (one ∷ two ∷ more) h = rw (h 0, h 1) refl

-- Without a failure, a share is added and its writes are made.
pub save_shares-add_shares :
    (fails : ℕ → Bool) (now difficulty : ℕ) (s : Statistics)
    → ((n : ℕ) → fails n ≡ false)
    → save_shares fails now difficulty s
      ≡ (true, (add_shares now difficulty s).0, (add_shares now difficulty s).1)
unfolding save_shares
save_shares-add_shares fails now difficulty s h =
    make_writes-saved fails _ _ (add_shares now difficulty s).0 (add_shares now difficulty s).1 h
