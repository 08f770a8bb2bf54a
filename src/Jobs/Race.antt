-- ===== src/Jobs/Race.antt =====
-- Giving out job ids (`getNextId` and `addJob`). A session takes the id before it waits for the
-- signing of the job and stores the job behind that wait, so two sessions may take one id.
use hc_pool.Base.{ℕ, ◌<◌, ◌≡◌, refl, ◌∙◌, none, some, arith, List, [], ◌∷◌, if◌then◌else◌}
use hc_pool.Base.Text.{Text, text_eq, text_eq_iff}
use hc_pool.Base.Hex.{to_hex}
use hc_pool.Base.Hex.Laws.{to_hex_injective}
use hc_pool.Job.{MiningJob}
use hc_pool.Jobs.{JobService, add_job, get_job_by_id, get_next_id, remove_jobs_by_session}

-- A job whose id is taken and stored with no other session in between.
pub store_next : MiningJob → JobService → JobService
store_next job s = add_job (record job { job_id = get_next_id s }) s

pub store_all : List MiningJob → JobService → JobService
store_all [] s = s
store_all (job ∷ jobs) s = store_all jobs (store_next job s)

-- Stored one after another, no job takes the place of an earlier one.
pub store_all-keeps :
    (jobs : List MiningJob) (s : JobService) (n : ℕ)
    → n < s.latest_job_id
    → get_job_by_id (store_all jobs s) (to_hex n) ≡ get_job_by_id s (to_hex n)
unfolding store_all store_next get_job_by_id add_job get_next_id
store_all-keeps [] s n h = refl
store_all-keeps (job ∷ jobs) s n h =
    store_all-keeps jobs (store_next job s) n (omega arith)
    ∙ ground
        (arith, text_eq_iff (to_hex s.latest_job_id) (to_hex n), to_hex_injective s.latest_job_id n)

-- When a session ends, exactly its own jobs are gone.
pub remove_jobs_by_session-get :
    (s : JobService) (session id : Text) (job : MiningJob)
    → get_job_by_id s id ≡ some job
    → get_job_by_id (remove_jobs_by_session session s) id
      ≡ (if text_eq job.owner_session_id session then none else some job)
unfolding get_job_by_id remove_jobs_by_session
remove_jobs_by_session-get s session id job e = ground arith
