-- ===== src/Session/Score.antt =====
-- The scoring of a located submission in src/models/StratumV1Client.ts (the second half of
-- `handleMiningSubmission`), and the whole handler.
use hc_pool.Base.{Bool, true, false, not, ◌&&◌, Option, none, some, List, ◌∷◌, if◌then◌else◌}
use hc_pool.Base.Text.{Text, codes, text_eq}
use hc_pool.Base.Table.{insert}
use hc_pool.Base.Hex.{Bytes, parse_hex}
use hc_pool.Base.Json.{Json}
use hc_pool.Difficulty.{
  Ratio, ratio_ge, in_grains, calculate_difficulty, calculate_difficulty_from_bits,
}
use hc_pool.Template.{Block, JobTemplate}
use hc_pool.Job.{copy_and_update_block}
use hc_pool.Messages.{
  MiningSubmitMessage, AuthorizationMessage, job_not_found, duplicate_share, low_difficulty_share,
  fingerprint,
}
use hc_pool.Session.State.{
  Client, World, Setup, Env, M, pure, ◌>>=◌, ◌>>◌, modify, Effect, block_submitted, block_saved,
  block_notified, best_difficulties_reset,
}
use hc_pool.Session.Auth.{enforce_session_authorization_or_close, class_bucket_gate_rejected}
use hc_pool.Session.Work.{session_of}
use hc_pool.Session.Submit.{
  has, Located, Lookup, refused, found, locate, ensure_entity, refuse, credit_share, beat,
  update_best, forward_share,
}

-- `SUBMIT_BLOCK` of src/services/bitcoin-rpc.service.ts: the node's null is a success, and an
-- exception is returned as the answer.
unfoldable pub submit_block_answer : Option Text → Text
submit_block_answer none = codes "SUCCESS!"
submit_block_answer (some answer) = answer

module _ (setup : Setup) (env : Env) where
  abbrev found_effects :
      AuthorizationMessage → Client → JobTemplate → Text → List Effect → List Effect
  found_effects a c template hex effects =
      best_difficulties_reset
      ∷ block_notified a.address template.height
      ∷ block_saved template.height a.address a.worker c.extra_nonce_and_session_id hex
      ∷ effects

  -- A block goes to the node, and is recorded if the node takes it.
  unfoldable pub submit_found_block : AuthorizationMessage → JobTemplate → Block → World → World
  submit_found_block a template block w =
      let hex = setup.bitcoin.block_hex block in
      let answer = submit_block_answer (env.submit_block hex) in
      let effects = block_submitted hex ∷ w.effects in
      record w {
        effects =
            if text_eq answer (codes "SUCCESS!")
            then found_effects a w.client template hex effects
            else effects;
      }

  -- The statistics and the heartbeat; an exception of either is caught, and the handler goes on.
  unfoldable pub record_share : World → World
  record_share w = elim w.client.entity [
    | none ↦ w
    | some e ↦ elim w.client.statistics [
      | none ↦ w
      | some s ↦ let r = credit_share setup env e s w in if r.0 then beat setup env e r.1 else r.1
    ]
  ]

  -- What an accepted share changes, in the order of the source.
  unfoldable pub accept_share :
      AuthorizationMessage → Located → Block → Bytes → Ratio → World → World
  accept_share a l block header difficulty w =
      let network =
        calculate_difficulty_from_bits setup.big setup.profile.diff1_target block.bits in
      let w1 =
        if not l.stale && ratio_ge difficulty network
        then submit_found_block a l.template block w
        else w in
      forward_share setup env a difficulty header
        (update_best setup env a.address difficulty (record_share w1))

  -- The share against the session's difficulty and the class's bucket.
  unfoldable pub judge_share : Json → AuthorizationMessage → Located → Block → Bytes → M Bool
  judge_share id a l block header w =
      let difficulty =
        calculate_difficulty setup.big setup.profile.diff1_target (setup.bitcoin.hash256 header) in
      if ratio_ge difficulty (in_grains w.client.session_difficulty)
      then (class_bucket_gate_rejected setup env w.client.session_difficulty >>= λ rejected.
            if rejected
            then refuse setup env id low_difficulty_share (codes "class_cap_exceeded")
            else modify (accept_share a l block header difficulty) >> pure true)
          w
      else refuse setup env id low_difficulty_share (codes "Difficulty too low") w

  -- The submission's block; the job in the service keeps the nonces.
  unfoldable pub score_submission : MiningSubmitMessage → Located → M Bool
  score_submission m l w =
      let r =
        copy_and_update_block setup.bitcoin l.job l.template l.version_mask (parse_hex m.nonce)
          l.job.owner_session_id m.extra_nonce2 l.ntime in
      let w' = record w {
        service = record (w.service) { jobs = insert m.job_id r.0 w.service.jobs };
      } in
      elim (setup.bitcoin.header r.1) [
        | none ↦ (none, w')
        | some header ↦ elim w.client.client_authorization [
          | none ↦ (none, w')
          | some a ↦ judge_share m.id a l r.1 header w'
        ]
      ]

  unfoldable pub judge_lookup : MiningSubmitMessage → Lookup → M Bool
  judge_lookup m (refused text) = refuse setup env m.id job_not_found text
  judge_lookup m (found l) = score_submission m l

  -- The fingerprint is noted before the job is looked up.
  unfoldable pub check_duplicate : MiningSubmitMessage → M Bool
  check_duplicate m w =
      let h = fingerprint setup.bitcoin m in
      if has h w.client.mining_submission_hashes
      then refuse setup env m.id duplicate_share (codes "Duplicate share") w
      else let w' = record w {
        client = record (w.client) {
          mining_submission_hashes = h ∷ w.client.mining_submission_hashes;
        };
      } in
        judge_lookup m (locate w'.service (session_of w'.client) m env.now) w'

  -- `handleMiningSubmission`
  unfoldable pub handle_mining_submission : MiningSubmitMessage → M Bool
  handle_mining_submission m = enforce_session_authorization_or_close setup env >>= λ allowed.
      if allowed then ensure_entity setup env >> check_duplicate m else pure false
