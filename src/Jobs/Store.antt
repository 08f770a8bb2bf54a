-- ===== src/Jobs/Store.antt =====
-- What every operation of the job service keeps, and what the two maps answer afterwards.
use hc_pool.Base.{
  ℕ, ◌+◌, ◌≤◌, ◌<◌, ◌≡◌, refl, Bool, true, false, Option, none, some, arith, if◌then◌else◌,
}
use hc_pool.Base.Text.{Text, text_eq_iff}
use hc_pool.Base.Table.{insert}
use hc_pool.Base.Hex.{ℤ, to_hex}
use hc_pool.Base.Hex.Laws.{to_hex_injective}
use hc_pool.Template.{JobTemplate, Bitcoin}
use hc_pool.Job.{MiningJob}
use hc_pool.Jobs.{
  JobService, start, mark_templates_stale, prune_old_state, add_job, remove_jobs_by_session,
  get_next_template_id, record_template, decide_emission, publish, emit, build_template,
  BlockTemplate, Builder,
}

-- The ids that are still to be given out name nothing yet, and only templates that are stored are
-- stale.
pub record IsValid (s : JobService) : Type 0 where
  pub jobs_below : (n : ℕ) → s.latest_job_id ≤ n → s.jobs (to_hex n) ≡ none
  pub blocks_below : (n : ℕ) → s.latest_job_template_id ≤ n → s.blocks (to_hex n) ≡ none
  pub stale_known : (id : Text) → s.blocks id ≡ none → s.stale_template_since_ms id ≡ none

start-IsValid : (raw : Option Text) → IsValid (start raw)
unfolding start
start-IsValid raw = record {
  jobs_below = λ n h. refl;
  blocks_below = λ n h. refl;
  stale_known = λ id e. refl;
}

mark_templates_stale-IsValid :
    {s : JobService} (now : ℕ) → IsValid s → IsValid (mark_templates_stale now s)
unfolding mark_templates_stale
mark_templates_stale-IsValid now v = record {
  jobs_below = v.jobs_below;
  blocks_below = v.blocks_below;
  stale_known = λ id e. ground (arith, v.stale_known id);
}

prune_old_state-IsValid : {s : JobService} (now : ℕ) → IsValid s → IsValid (prune_old_state now s)
unfolding prune_old_state
prune_old_state-IsValid now v = record {
  jobs_below = λ n h. ground (arith, v.jobs_below n);
  blocks_below = λ n h. ground (arith, v.blocks_below n);
  stale_known = λ id e. ground (arith, v.stale_known id);
}

remove_jobs_by_session-IsValid :
    {s : JobService} (session : Text) → IsValid s → IsValid (remove_jobs_by_session session s)
unfolding remove_jobs_by_session
remove_jobs_by_session-IsValid session v = record {
  jobs_below = λ n h. ground (arith, v.jobs_below n);
  blocks_below = v.blocks_below;
  stale_known = v.stale_known;
}

-- The id of the new job was given out before, perhaps also to another job.
add_job-IsValid :
    {s : JobService} (job : MiningJob) (k : ℕ)
    → job.job_id ≡ to_hex k
    → k ≤ s.latest_job_id
    → IsValid s
    → IsValid (add_job job s)
unfolding add_job
add_job-IsValid {s} job k e le v = record {
  jobs_below = λ n h.
      ground (arith, v.jobs_below n, text_eq_iff job.job_id (to_hex n), to_hex_injective k n);
  blocks_below = v.blocks_below;
  stale_known = v.stale_known;
}

store-IsValid :
    {s : JobService} (template : JobTemplate) (k : ℕ)
    → template.id ≡ to_hex k
    → k < s.latest_job_template_id
    → IsValid s
    → IsValid (record s { blocks = insert template.id template s.blocks })
store-IsValid template k e lt v = record {
  jobs_below = v.jobs_below;
  blocks_below = λ n h.
      ground (arith, v.blocks_below n, text_eq_iff template.id (to_hex n), to_hex_injective k n);
  stale_known = λ id e'. ground (arith, v.stale_known id);
}

mark_if-IsValid :
    {s : JobService} (b : Bool) (now : ℕ)
    → IsValid s
    → IsValid (if b then mark_templates_stale now s else s)
mark_if-IsValid true now v = mark_templates_stale-IsValid now v
mark_if-IsValid false now v = v

mark_if-id :
    (s : JobService) (b : Bool) (now : ℕ)
    → (if b then mark_templates_stale now s else s).latest_job_template_id
      ≡ s.latest_job_template_id
unfolding mark_templates_stale
mark_if-id s true now = refl
mark_if-id s false now = refl

record_template-IsValid :
    {s : JobService} (now : ℕ) (template : JobTemplate) (k : ℕ)
    → template.id ≡ to_hex k
    → k < s.latest_job_template_id
    → IsValid s
    → IsValid (record_template now template s)
unfolding record_template prune_old_state
record_template-IsValid {s} now template k e lt v =
    store-IsValid template k e (omega (arith, mark_if-id s template.clear_jobs now)) (
      prune_old_state-IsValid {s = if template.clear_jobs then mark_templates_stale now s else s}
        now (mark_if-IsValid template.clear_jobs now v))

-- What the decision leaves alone.
pub record Frame (s u : JobService) : Type 0 where
  pub jobs : u.jobs ≡ s.jobs
  pub blocks : u.blocks ≡ s.blocks
  pub stale : u.stale_template_since_ms ≡ s.stale_template_since_ms
  pub job_id : u.latest_job_id ≡ s.latest_job_id
  pub template_id : u.latest_job_template_id ≡ s.latest_job_template_id
  pub grace : u.stale_job_grace_ms ≡ s.stale_job_grace_ms

pub decide_emission-Frame : (interval : ℤ) (s : JobService) → Frame s (decide_emission interval s).0
unfolding decide_emission
decide_emission-Frame interval s = record {
  jobs = ground arith;
  blocks = ground arith;
  stale = ground arith;
  job_id = ground arith;
  template_id = ground arith;
  grace = ground arith;
}

Frame-IsValid : {s u : JobService} → Frame s u → IsValid s → IsValid u
Frame-IsValid f v = record {
  jobs_below = λ n h. rw f.jobs (v.jobs_below n (rw f.job_id at h));
  blocks_below = λ n h. rw f.blocks (v.blocks_below n (rw f.template_id at h));
  stale_known = λ id e. rw f.stale (v.stale_known id (rw f.blocks at e));
}

count-IsValid :
    {s : JobService}
    → IsValid s
    → IsValid (record s { latest_job_template_id = s.latest_job_template_id + 1 })
count-IsValid v = record {
  jobs_below = v.jobs_below;
  blocks_below = λ n h. v.blocks_below n (omega arith);
  stale_known = v.stale_known;
}

publish-IsValid :
    (btc : Bitcoin) (builder : Builder) (segwit : Bool) (diff1 : ℕ) (answer : BlockTemplate)
    (now : ℕ) {s : JobService} (emission : Option Bool)
    → IsValid s
    → IsValid (publish btc builder segwit diff1 answer now s emission).0
unfolding publish get_next_template_id build_template
publish-IsValid btc builder segwit diff1 answer now none v = v
publish-IsValid btc builder segwit diff1 answer now {s} (some clear) v =
    record_template-IsValid now _ s.latest_job_template_id refl (omega arith) (count-IsValid v)

emit-IsValid :
    (btc : Bitcoin) (builder : Builder) (segwit : Bool) (diff1 : ℕ) (interval : ℤ)
    (answer : BlockTemplate) (now : ℕ) {s : JobService}
    → IsValid s
    → IsValid (emit btc builder segwit diff1 interval answer now s).0
unfolding emit
emit-IsValid btc builder segwit diff1 interval answer now {s} v =
    publish-IsValid btc builder segwit diff1 answer now (decide_emission interval s).1
      (Frame-IsValid (decide_emission-Frame interval s) v)

-- The operations of the sessions and of the pipe, in any order. A job is stored under an id that
-- was given out before; between the two another session may have stored one.
pub data Step (btc : Bitcoin) (builder : Builder) (segwit : Bool) (diff1 : ℕ) (s : JobService)
    : JobService → Type 0 where
  emits :
      (interval : ℤ) (answer : BlockTemplate) (now : ℕ)
      → Step btc builder segwit diff1 s (emit btc builder segwit diff1 interval answer now s).0
  adds :
      (job : MiningJob) (k : ℕ)
      → job.job_id ≡ to_hex k
      → k ≤ s.latest_job_id
      → Step btc builder segwit diff1 s (add_job job s)
  leaves : (session : Text) → Step btc builder segwit diff1 s (remove_jobs_by_session session s)

pub data Reach (btc : Bitcoin) (builder : Builder) (segwit : Bool) (diff1 : ℕ) (raw : Option Text)
    : JobService → Type 0 where
  here : Reach btc builder segwit diff1 raw (start raw)
  next :
      {s u : JobService}
      → Reach btc builder segwit diff1 raw s
      → Step btc builder segwit diff1 s u
      → Reach btc builder segwit diff1 raw u

Step-IsValid :
    {btc : Bitcoin} {builder : Builder} {segwit : Bool} {diff1 : ℕ} {s u : JobService}
    → Step btc builder segwit diff1 s u
    → IsValid s
    → IsValid u
Step-IsValid {btc} {builder} {segwit} {diff1} (emits interval answer now) v =
    emit-IsValid btc builder segwit diff1 interval answer now v
Step-IsValid (adds job k e le) v = add_job-IsValid job k e le v
Step-IsValid (leaves session) v = remove_jobs_by_session-IsValid session v

-- In every state that the service reaches, no id that it will give out names a job or a template
-- yet, and only stored templates are stale.
pub Reach-IsValid :
    {btc : Bitcoin} {builder : Builder} {segwit : Bool} {diff1 : ℕ} {raw : Option Text}
    {s : JobService}
    → Reach btc builder segwit diff1 raw s
    → IsValid s
Reach-IsValid {raw} here = start-IsValid raw
Reach-IsValid (next r st) = Step-IsValid st (Reach-IsValid r)
