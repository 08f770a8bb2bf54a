-- ===== src/Session/Accept.antt =====
-- What holds of a submission that `handleMiningSubmission` of src/models/StratumV1Client.ts accepts.
use hc_pool.Base.{
  ℕ, ◌≡◌, refl, true, false, not, ◌||◌, some, [], ◌∷◌, or_else, arith, Bool-cases, ◌↔◌,
  Option-cases, inl, inr,
}
use hc_pool.Base.Text.{Text, codes, text_eq, text_eq_refl}
use hc_pool.Base.Hex.{Bytes, parse_hex}
use hc_pool.Base.Table.{insert}
use hc_pool.Base.Json.{Json}
use hc_pool.Difficulty.{ratio_ge, in_grains, calculate_difficulty}
use hc_pool.Template.{Block}
use hc_pool.Job.{matches_locked_submission, copy_and_update_block}
use hc_pool.Jobs.{
  JobService, get_job_by_id, get_job_template_by_id, is_template_stale,
  is_template_within_grace_window,
}
use hc_pool.Messages.{
  MiningSubmitMessage, AuthorizationMessage, ErrorCode, duplicate_share, job_not_found, fingerprint,
}
use hc_pool.Session.State.{World, Setup, Env, write}
use hc_pool.Session.Work.{session_of}
use hc_pool.Session.Submit.{
  has, Located, Lookup, refused, found, locate, locate_template, locate_locked, refuse,
}
use hc_pool.Session.Frame.{core, Core, refuse-Kept, judge_lookup-Kept}
use hc_pool.Session.Score.{judge_share, score_submission, judge_lookup, check_duplicate}

-- The job is the session's own, its template is known and is current or within the grace window,
-- and the submission agrees with what a locked job fixes.
pub record Admissible (s : JobService) (session : Text) (m : MiningSubmitMessage) (now : ℕ)
    (l : Located) : Type 0 where
  pub known : get_job_by_id s m.job_id ≡ some l.job
  pub owned : text_eq l.job.owner_session_id session ≡ true
  pub templated : get_job_template_by_id s l.job.job_template_id ≡ some l.template
  pub staleness : l.stale ≡ is_template_stale s l.job.job_template_id
  pub timely : (not l.stale || is_template_within_grace_window s l.job.job_template_id now) ≡ true
  pub mask : l.version_mask ≡ parse_hex m.version_mask
  pub time : l.ntime ≡ parse_hex m.ntime
  pub locked : matches_locked_submission l.job m.extra_nonce2 l.ntime l.version_mask ≡ true

module _ (s : JobService) (session : Text) (m : MiningSubmitMessage) (now : ℕ) where
  locate-Admissible :
      (l : Located) → locate s session m now ≡ found l → Admissible s session m now l
  unfolding locate locate_template locate_locked
  locate-Admissible l e = ground (arith)

  Admissible-locate :
      (l : Located) → Admissible s session m now l → locate s session m now ≡ found l
  unfolding locate locate_template locate_locked
  Admissible-locate l a =
      ground (arith, a.known, a.owned, a.templated, a.staleness, a.timely, a.mask, a.time, a.locked)

-- A submission gets past the lookup exactly when it names a job of this session that the service
-- has, whose template it has too and which is not stale or within the grace window, and when it
-- agrees with what a locked job fixes; what it gets are that job, that template and its own numbers.
pub locate_iff :
    (s : JobService) (session : Text) (m : MiningSubmitMessage) (now : ℕ) (l : Located)
    → (locate s session m now ≡ found l) ↔ Admissible s session m now l
locate_iff s session m now l =
    (locate-Admissible s session m now l, Admissible-locate s session m now l)

module _ (setup : Setup) (env : Env) where
  refuse-never :
      (id : Json) (code : ErrorCode) (text : Text) (w w' : World)
      → ¬ (refuse setup env id code text w ≡ (some true, w'))
  unfolding write
  refuse-never id code text w w' e = ground (arith)

  judge_share-true :
      (id : Json) (a : AuthorizationMessage) (l : Located) (block : Block) (header : Bytes)
      (w w' : World)
      → judge_share setup env id a l block header w ≡ (some true, w')
      → ratio_ge
          (calculate_difficulty setup.big setup.profile.diff1_target (setup.bitcoin.hash256 header))
          (in_grains w.client.session_difficulty)
        ≡ true
  unfolding judge_share write
  judge_share-true id a l block header w w' e = ground (arith)

  -- The block of the submission, whose header meets the difficulty of the session.
  pub record Solved (m : MiningSubmitMessage) (l : Located) (d : ℕ) : Type 0 where
    pub header : Bytes
    pub built :
        setup.bitcoin.header
          (copy_and_update_block setup.bitcoin l.job l.template l.version_mask
            (parse_hex m.nonce)
            l.job.owner_session_id
            m.extra_nonce2
            l.ntime).1
        ≡ some header
    pub hard :
        ratio_ge
          (calculate_difficulty setup.big setup.profile.diff1_target (setup.bitcoin.hash256 header))
          (in_grains d)
        ≡ true

  score_submission-Solved :
      (m : MiningSubmitMessage) (l : Located) (w w' : World)
      → score_submission setup env m l w ≡ (some true, w')
      → Solved m l w.client.session_difficulty
  unfolding score_submission
  score_submission-Solved m l w w' e =
      let r =
        copy_and_update_block setup.bitcoin l.job l.template l.version_mask (parse_hex m.nonce)
          l.job.owner_session_id m.extra_nonce2 l.ntime in
      let w1 = record w {
        service = record (w.service) { jobs = insert m.job_id r.0 w.service.jobs };
      } in
      elim (Option-cases (setup.bitcoin.header r.1)) [
        | inl h ↦ ground (arith, h)
        | inr (header, h) ↦ elim (Option-cases w.client.client_authorization) [
          | inl n ↦ ground (arith, h, n)
          | inr (a, n) ↦ record {
            header = header;
            built = h;
            hard = judge_share-true m.id a l r.1 header w1 w' (ground (arith, h, n, e));
          }
        ]
      ]

  judge_lookup-Solved :
      (m : MiningSubmitMessage) (x : Lookup) (w w' : World)
      → judge_lookup setup env m x w ≡ (some true, w')
      → (l : Located) × (x ≡ found l) × Solved m l w.client.session_difficulty
  unfolding judge_lookup
  judge_lookup-Solved m (refused text) w w' e = absurd (refuse-never m.id job_not_found text w w' e)
  judge_lookup-Solved m (found l) w w' e = (l, refl, score_submission-Solved m l w w' e)

  pub record Sound (m : MiningSubmitMessage) (s : JobService) (c : Core) : Type 0 where
    pub fresh : has (fingerprint setup.bitcoin m) c.hashes ≡ false
    pub located : Located
    pub admissible : Admissible s (or_else c.session []) m env.now located
    pub solved : Solved m located c.difficulty

  pub check_duplicate-Sound :
      (m : MiningSubmitMessage) (w w' : World)
      → check_duplicate setup env m w ≡ (some true, w')
      → Sound m w.service (core w.client)
  unfolding check_duplicate judge_lookup
  check_duplicate-Sound m w w' e =
      let h = fingerprint setup.bitcoin m in
      let w1 = record w {
        client = record (w.client) {
          mining_submission_hashes = h ∷ w.client.mining_submission_hashes;
        };
      } in
      elim (Bool-cases (has h w.client.mining_submission_hashes)) [
        | inl y ↦ absurd (
            refuse-never m.id duplicate_share (codes "Duplicate share") w w' (ground (arith, y, e)))
        | inr n ↦
            let (l, found_l, solved) =
              judge_lookup-Solved m (locate w1.service (session_of w1.client) m env.now) w1 w'
                (ground (arith, n, e)) in
            record {
              fresh = n;
              located = l;
              admissible = locate-Admissible w.service (session_of w.client) m env.now l found_l;
              solved = solved;
            }
      ]

  pub check_duplicate-once :
      (m : MiningSubmitMessage) (w : World)
      → has
          (fingerprint setup.bitcoin m)
          (check_duplicate setup env m w).1.client.mining_submission_hashes
        ≡ true
  unfolding check_duplicate judge_lookup
  check_duplicate-once m w =
      let h = fingerprint setup.bitcoin m in
      let w1 = record w {
        client = record (w.client) {
          mining_submission_hashes = h ∷ w.client.mining_submission_hashes;
        };
      } in
      elim (Bool-cases (has h w.client.mining_submission_hashes)) [
        | inl y ↦ ground (
          arith,
          y,
          refuse-Kept setup env (core w.client) m.id duplicate_share (codes "Duplicate share") w
              refl,
        )
        | inr n ↦ ground (
          arith,
          n,
          text_eq_refl h,
          judge_lookup-Kept setup env (core w1.client) m
              (locate w1.service (session_of w1.client) m env.now) w1 refl,
        )
      ]
