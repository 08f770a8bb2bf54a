-- ===== src/Session/Race.antt =====
-- Two sessions of src/models/StratumV1Client.ts that make a job at once. A session takes the id of its
-- job before it waits for the signing, and stores the job behind that wait.
use hc_pool.Base.{
  or_else, ℕ, [], ◌≡◌, ◌+◌, refl, ap, sym, ◌∙◌, Bool, true, false, Option, none, some, inl, inr,
  Option-cases, arith,
}
use hc_pool.Base.Text.{Text, codes, text_eq, text_eq_refl}
use hc_pool.Template.{JobTemplate}
use hc_pool.Job.{
  MiningJob, new, initial, rebuild_coinbase_parts, copy_and_update_block, apply_signed_coinbase,
  response,
}
use hc_pool.Jobs.{JobService, add_job, get_job_by_id, get_next_id, remove_jobs_by_session}
use hc_pool.Messages.{MiningSubmitMessage, Line, notify}
use hc_pool.Session.State.{
  World, Setup, Env, write, destroy, drop_session, end_socket, destroy_socket, bind_result, pure,
}
use hc_pool.Session.Work.{make_job, prepare_signet_locked_job, deliver_job, session_of}
use hc_pool.Session.Submit.{refused, locate}
use hc_pool.Session.Score.{check_duplicate}
use hc_pool.Session.Frame.{Core, core, write-Kept}
use hc_pool.Session.Accept.{check_duplicate-Sound, locate_iff}

-- A job has the next id of the service and the id of its session.
make_job-ids :
    (setup : Setup) (env : Env) (w : World) (t : JobTemplate) (job : MiningJob)
    → make_job setup env w t ≡ some job
    → (job.job_id ≡ get_next_id w.service) × (job.owner_session_id ≡ session_of w.client)
unfolding make_job prepare_signet_locked_job copy_and_update_block apply_signed_coinbase new initial
    rebuild_coinbase_parts
make_job-ids setup env w t job e = ground arith

-- What is left when a session ends, or of a failed write, was there before.
removed-jobs :
    (session id : Text) (s : JobService) (job : MiningJob)
    → get_job_by_id (remove_jobs_by_session session s) id ≡ some job
    → get_job_by_id s id ≡ some job
unfolding remove_jobs_by_session get_job_by_id
removed-jobs session id s job e = ground arith

dropped-jobs :
    (session : Option Text) (id : Text) (w : World) (job : MiningJob)
    → get_job_by_id (drop_session session w).service id ≡ some job
    → get_job_by_id w.service id ≡ some job
dropped-jobs none id w job e = e
dropped-jobs (some session) id w job e = removed-jobs session id w.service job e

destroy-jobs :
    (id : Text) (w : World) (job : MiningJob)
    → get_job_by_id (destroy w).service id ≡ some job
    → get_job_by_id w.service id ≡ some job
unfolding destroy
destroy-jobs id w job e = dropped-jobs w.client.extra_nonce_and_session_id id w job e

write-jobs :
    (env : Env) (line : Line) (w : World) (id : Text) (job : MiningJob)
    → get_job_by_id (write env line w).1.service id ≡ some job
    → get_job_by_id w.service id ≡ some job
unfolding write end_socket destroy_socket
write-jobs env line w id job e =
    ground
      (arith, e, destroy-jobs id w job, destroy-jobs id (record w { writes = w.writes + 1 }) job)

module _ (setup : Setup) where
  bind_tt : (r : Option Bool × World) → (bind_result r (λ b. pure tt)).1 ≡ r.1
  bind_tt (none, w) = refl
  bind_tt (some b, w) = refl

  deliver_job-write :
      (env : Env) (t : JobTemplate) (job : MiningJob) (w : World)
      → (deliver_job setup env t job w).1
        ≡ (write env (notify (response job t)) (record w { service = add_job job w.service })).1
  unfolding deliver_job
  deliver_job-write env t job w =
      bind_tt (write env (notify (response job t)) (record w { service = add_job job w.service }))

  add_job-get :
      (job : MiningJob) (s : JobService) → get_job_by_id (add_job job s) job.job_id ≡ some job
  unfolding get_job_by_id add_job
  add_job-get job s = ground (arith, text_eq_refl job.job_id)

  -- Under the id of a job that was delivered there is this job, or none.
  deliver_job-job :
      (env : Env) (t : JobTemplate) (job found : MiningJob) (w : World)
      → get_job_by_id (deliver_job setup env t job w).1.service job.job_id ≡ some found
      → found ≡ job
  deliver_job-job env t job found w e =
      let line = notify (response job t) in
      let v = record w { service = add_job job w.service } in
      let same =
        ap (λ (z : World). get_job_by_id z.service job.job_id) (deliver_job-write env t job w) in
      let kept = write-jobs env line v job.job_id found (sym same ∙ e) in
      cc (kept, add_job-get job w.service)

  deliver_job-session :
      (env : Env) (t : JobTemplate) (job : MiningJob) (w : World)
      → session_of (deliver_job setup env t job w).1.client ≡ session_of w.client
  deliver_job-session env t job w =
      let v = record w { service = add_job job w.service } in
      ap (λ (z : World). session_of z.client) (deliver_job-write env t job w)
      ∙ ap (λ (k : Core). or_else k.session [])
          (write-Kept setup env (core w.client) (notify (response job t)) v refl)

locate-other :
    (s : JobService) (session : Text) (m : MiningSubmitMessage) (now : ℕ)
    → ((job : MiningJob)
        → get_job_by_id s m.job_id ≡ some job
        → text_eq job.owner_session_id session ≡ false)
    → locate s session m now ≡ refused (codes "Job not found")
unfolding locate
locate-other s session m now other = elim (Option-cases (get_job_by_id s m.job_id)) [
  | inl missing ↦ ground (arith, missing)
  | inr (job, there) ↦ ground (arith, there, other job there)
]

-- If two sessions of one service both make a job before either delivers its own, the jobs have one
-- id, and the second that is delivered takes the place of the first: a submission of the first
-- session that names its job is refused as "Job not found", so that the first miner's work on it is
-- never accepted. The sessions have different ids; whether the writes to their sockets succeed does
-- not matter.
pub shared_id-refused :
    (setup : Setup) (env env' later : Env) (a b : World) (t t' : JobTemplate)
    (mine theirs : MiningJob) (m : MiningSubmitMessage)
    → b.service ≡ a.service
    → text_eq (session_of b.client) (session_of a.client) ≡ false
    → make_job setup env a t ≡ some mine
    → make_job setup env' b t' ≡ some theirs
    → m.job_id ≡ mine.job_id
    → let first = (deliver_job setup env t mine a).1 in
      let second = (deliver_job setup env' t' theirs (record b { service = first.service })).1 in
      (theirs.job_id ≡ mine.job_id)
      × (locate second.service (session_of first.client) m later.now
          ≡ refused (codes "Job not found"))
      × ((w : World)
          → ¬ (
              check_duplicate setup later m (record first { service = second.service })
              ≡ (some true, w)))
shared_id-refused setup env env' later a b t t' mine theirs m same other made made' names =
    let first = (deliver_job setup env t mine a).1 in
    let waiting = record b { service = first.service } in
    let second = (deliver_job setup env' t' theirs waiting).1 in
    let (id, owner) = make_job-ids setup env a t mine made in
    let (id', owner') = make_job-ids setup env' b t' theirs made' in
    let one_id : theirs.job_id ≡ mine.job_id = id' ∙ ap get_next_id same ∙ sym id in
    let mismatch : (job : MiningJob)
        → get_job_by_id second.service m.job_id ≡ some job
        → text_eq job.owner_session_id (session_of first.client) ≡ false =
      λ job there.
        let found : job ≡ theirs =
          deliver_job-job setup env' t' theirs job waiting
            (ap (get_job_by_id second.service) (one_id ∙ sym names) ∙ there) in
        let session = deliver_job-session setup env t mine a in rw (found, owner', session) other in
    let lost = locate-other second.service (session_of first.client) m later.now mismatch in
    (
      one_id,
      lost,
      λ w e.
          let s =
            check_duplicate-Sound setup later m (record first { service = second.service }) w e in
          cc (
            lost,
            (locate_iff second.service (session_of first.client) m later.now s.located).1
                s.admissible,
          ),
    )
