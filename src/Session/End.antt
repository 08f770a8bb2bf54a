-- ===== src/Session/End.antt =====
-- What is left of a session of src/models/StratumV1Client.ts when it ends.
use hc_pool.Base.{◌≡◌, refl, false, none, some, if◌then◌else◌, arith}
use hc_pool.Base.Text.{Text, text_eq}
use hc_pool.Job.{MiningJob}
use hc_pool.Jobs.{get_job_by_id, remove_jobs_by_session}
use hc_pool.Session.State.{World, destroy}

-- After a session with an id ends, the service has none of its jobs and keeps all others, and the session
-- listens to no templates, runs no timer and has no bucket.
pub destroy-get_job_by_id :
    (w : World) (session id : Text) (job : MiningJob)
    → w.client.extra_nonce_and_session_id ≡ some session
    → get_job_by_id w.service id ≡ some job
    → let gone = destroy w in
      (get_job_by_id gone.service id
        ≡ (if text_eq job.owner_session_id session then none else some job))
      × (gone.client.subscribed_to_jobs ≡ false)
      × (gone.client.difficulty_timer ≡ false)
      × (gone.client.authorization_timer ≡ false)
      × (gone.client.class_token_bucket ≡ none)
unfolding destroy remove_jobs_by_session get_job_by_id
destroy-get_job_by_id w session id job e k = (ground (arith, e, k), refl, refl, refl, refl)
