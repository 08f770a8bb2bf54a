-- ===== src/Session/Submit.antt =====
-- Submissions in src/models/StratumV1Client.ts (`handleMiningSubmission`).
use hc_pool.Base.{
  ℕ, ◌-◌, Bool, true, false, not, ◌&&◌, none, some, List, [], ◌∷◌, if◌then◌else◌, ltb,
}
use hc_pool.Base.Text.{Text, codes, text_eq, is_true}
use hc_pool.Base.Hex.{Bytes, ℤ, parse_hex}
use hc_pool.Base.Json.{Json}
use hc_pool.Difficulty.{Ratio, ratio, ratio_ge, in_grains}
use hc_pool.Template.{JobTemplate}
use hc_pool.Job.{MiningJob, matches_locked_submission}
use hc_pool.Jobs.{
  JobService, get_job_by_id, get_job_template_by_id, is_template_stale,
  is_template_within_grace_window,
}
use hc_pool.Statistics.{Statistics, Write, insert as insert_row, update as update_row}
use hc_pool.Statistics.Saves.{save_shares}
use hc_pool.Messages.{
  MiningSubmitMessage, AuthorizationMessage, SubscriptionMessage, error, ErrorCode,
}
use hc_pool.Session.State.{
  Client, Entity, World, Setup, Env, M, pure, ◌>>=◌, write, Effect, client_inserted, row_inserted,
  row_updated, heartbeat, best_difficulty_updated, address_best_updated, share_forwarded,
}
use hc_pool.Session.Work.{session_of}

abbrev pub has : Bytes → List Bytes → Bool
has h [] = false
has h (k ∷ ks) = if text_eq k h then true else has h ks

-- What the job service knows of the submitted job: a refusal with its text, or the job, its
-- template, whether that is stale, and the two numbers of the submission.
pub record Located : Type 0 where
  pub job : MiningJob
  pub template : JobTemplate
  pub stale : Bool
  pub version_mask : ℤ
  pub ntime : ℤ

pub data Lookup : Type 0 where
  refused : Text → Lookup
  found : Located → Lookup

-- The parameters of the submission against a locked job.
unfoldable pub locate_locked : MiningJob → JobTemplate → Bool → MiningSubmitMessage → Lookup
locate_locked job template stale m =
    let mask = parse_hex m.version_mask in
    let ntime = parse_hex m.ntime in
    if matches_locked_submission job m.extra_nonce2 ntime mask
    then found (record {
      job = job;
      template = template;
      stale = stale;
      version_mask = mask;
      ntime = ntime;
    })
    else refused (codes "Job parameters changed")

unfoldable pub locate_template : JobService → MiningJob → MiningSubmitMessage → ℕ → Lookup
locate_template s job m now = elim (get_job_template_by_id s job.job_template_id) [
  | none ↦ refused (codes "Job template not found")
  | some template ↦
      let stale = is_template_stale s job.job_template_id in
      if stale && not (is_template_within_grace_window s job.job_template_id now)
      then refused (codes "Job stale")
      else locate_locked job template stale m
]

-- The checks from the job's id to its parameters, in their order.
unfoldable pub locate : JobService → Text → MiningSubmitMessage → ℕ → Lookup
locate s session m now = elim (get_job_by_id s m.job_id) [
  | none ↦ refused (codes "Job not found")
  | some job ↦
      if text_eq job.owner_session_id session
      then locate_template s job m now
      else refused (codes "Job not found")
]

module _ (setup : Setup) (env : Env) where
  abbrev new_entity : AuthorizationMessage → SubscriptionMessage → Client → Entity
  new_entity a s c = record {
    address = a.address;
    client_name = a.worker;
    session_id = session_of c;
    user_agent = s.user_agent;
    best_difficulty = ratio 0 1;
    updated_at = none;
  }

  -- The row of the client is inserted with the first submission.
  unfoldable pub ensure_entity : M (Unit {0})
  ensure_entity w = elim w.client.entity [
    | some e ↦ (some tt, w)
    | none ↦ elim w.client.client_authorization [
      | none ↦ (none, w)
      | some a ↦ elim w.client.client_subscription [
        | none ↦ (none, w)
        | some s ↦
            let e = new_entity a s w.client in
            (
              some tt,
              record w {
                client = record (w.client) { entity = some e };
                effects = client_inserted e ∷ w.effects;
              },
            )
      ]
    ]
  ]

  abbrev pub refuse : Json → ErrorCode → Text → M Bool
  refuse id code text = write env (error id code text) >>= λ _. pure false

  abbrev row_effect : Entity → Write → Effect
  row_effect e (insert_row r) = row_inserted e r
  row_effect e (update_row r) = row_updated e r

  abbrev row_effects : Entity → List Write → List Effect → List Effect
  row_effects e [] log' = log'
  row_effects e (x ∷ xs) log' = row_effects e xs (row_effect e x ∷ log')

  -- `statistics.addShares`, at the difficulty of the session; false is an exception.
  unfoldable pub credit_share : Entity → Statistics → World → Bool × World
  credit_share e s w =
      let r = save_shares env.save_fails env.now w.client.session_difficulty s in
      (
        r.0,
        record w {
          client = record (w.client) { statistics = some r.1 };
          effects = row_effects e r.2 w.effects;
        },
      )

  -- At most one heartbeat a minute; its call comes behind the two of `addShares` at most, and leaves
  -- nothing if it fails.
  unfoldable pub beat : Entity → World → World
  beat e w =
      let due : Bool = elim e.updated_at [ none ↦ true | some t ↦ ltb 60_000 (env.now - t) ] in
      if due && not (env.save_fails 2)
      then record w {
        client = record (w.client) { entity = some (record e { updated_at = some env.now }) };
        effects = heartbeat e w.client.hash_rate env.now ∷ w.effects;
      }
      else w

  abbrev is_above : Ratio → Ratio → Bool
  is_above a b = not (ratio_ge b a)

  unfoldable pub update_best : Text → Ratio → World → World
  update_best address difficulty w = elim w.client.entity [
    | none ↦ w
    | some e ↦
        if is_above difficulty e.best_difficulty
        then record w {
          client = record (w.client) { entity = some (record e { best_difficulty = difficulty }) };
          effects =
              (if is_above difficulty (env.address_best address)
                then address_best_updated address difficulty e.user_agent
                  ∷ best_difficulty_updated w.client.extra_nonce_and_session_id difficulty
                  ∷ w.effects
                else best_difficulty_updated w.client.extra_nonce_and_session_id difficulty
                  ∷ w.effects);
        }
        else w
  ]

  unfoldable pub forward_share : AuthorizationMessage → Ratio → Bytes → World → World
  forward_share a difficulty header w =
      if is_true setup.external_share_submission_enabled (codes "")
        && ratio_ge difficulty (in_grains setup.minimum_difficulty)
      then record w {
        effects =
            share_forwarded a.worker a.address
              (elim w.client.client_subscription [ none ↦ [] | some s ↦ s.user_agent ]) header
            ∷ w.effects;
      }
      else w
