-- ===== src/Jobs/Emission.antt =====
-- When a new block clears the jobs (the first `map` of the pipe), and which templates it makes
-- stale.
use hc_pool.Base.{ℕ, ◌+◌, ◌≤◌, ◌≡◌, ◌↔◌, ◌≢◌, Bool, true, false, not, none, some, arith}
use hc_pool.Base.Text.{Text, text_eq, text_eq_iff}
use hc_pool.Base.Hex.{ℤ, to_hex, int_eq_iff}
use hc_pool.Template.{JobTemplate, Bitcoin}
use hc_pool.Jobs.{
  JobService, mark_templates_stale, prune_old_state, is_template_stale,
  is_template_within_grace_window, get_next_template_id, record_template, decide_emission, publish,
  build_template, BlockTemplate, Builder,
}
use hc_pool.Jobs.Store.{IsValid}

-- A block that arrives while the interval's count is that of the last emission clears the jobs,
-- and the first tick behind it is skipped.
pub new_block_clears :
    (s : JobService) (i j : ℤ)
    → s.last_interval_count ≡ some i
    → i ≢ j
    → let s1 = decide_emission i s in
      let s2 = decide_emission j s1.0 in
      (s1.1 ≡ some true) × (s2.1 ≡ none) × (s2.0.last_interval_count ≡ some i)
unfolding decide_emission
new_block_clears s i j e h = ground (arith, int_eq_iff i i, int_eq_iff i j)

-- The skipped tick does not move the count, so a block that arrives before the next tick is sent
-- out as a refresh: the jobs are not cleared.
pub missed_new_block :
    (s : JobService) (i j : ℤ)
    → s.last_interval_count ≡ some i
    → i ≢ j
    → let skipped = decide_emission j (decide_emission i s).0 in
      (skipped.1 ≡ none) × ((decide_emission j skipped.0).1 ≡ some false)
unfolding decide_emission
missed_new_block s i j e h = ground (arith, int_eq_iff i i, int_eq_iff i j)

module _ (btc : Bitcoin) (builder : Builder) (segwit : Bool) (diff1 : ℕ) (answer : BlockTemplate)
    (now : ℕ) where
  -- With the jobs cleared every other stored template is stale, and the new one is not.
  pub publish-clear_stale :
      (s : JobService) (id : Text) (template : JobTemplate)
      → IsValid s
      → (publish btc builder segwit diff1 answer now s (some true)).0.blocks id ≡ some template
      → is_template_stale (publish btc builder segwit diff1 answer now s (some true)).0 id
        ≡ not (text_eq (get_next_template_id s) id)
  unfolding publish record_template is_template_stale build_template prune_old_state
      mark_templates_stale get_next_template_id
  publish-clear_stale s id template v stored = ground (
    arith,
    v.blocks_below s.latest_job_template_id,
    v.stale_known (to_hex s.latest_job_template_id),
    text_eq_iff (to_hex s.latest_job_template_id) id,
  )

  -- A refresh makes no template stale.
  pub publish-refresh_stale :
      (s : JobService) (id : Text)
      → is_template_stale (publish btc builder segwit diff1 answer now s (some false)).0 id ≡ true
      → is_template_stale s id ≡ true
  unfolding publish record_template is_template_stale build_template prune_old_state
  publish-refresh_stale s id h = ground arith

-- The time from which a template is stale is that of the first block after it: a later block does
-- not extend the window in which its shares still count.
pub grace_window_iff :
    (s : JobService) (id : Text) (template : JobTemplate) (first second now : ℕ)
    → s.blocks id ≡ some template
    → s.stale_template_since_ms id ≡ none
    → (is_template_within_grace_window
          (mark_templates_stale second (mark_templates_stale first s))
          id
          now
        ≡ true)
      ↔ (now ≤ first + s.stale_job_grace_ms)
unfolding mark_templates_stale is_template_within_grace_window
grace_window_iff s id template first second now stored fresh = ground arith
