-- ===== src/Session/Replay.antt =====
-- A new block in src/models/StratumV1Client.ts forgets which submissions were seen.
use hc_pool.Base.{
  ◌≡◌, refl, ◌∙◌, ap, Bool, true, false, Option, none, some, List, [], ◌∷◌, if◌then◌else◌, is_some,
  arith,
}
use hc_pool.Base.Hex.{Bytes}
use hc_pool.Base.Text.{codes}
use hc_pool.Authz.{AuthorizationResult, authorize_mining}
use hc_pool.Template.{JobTemplate}
use hc_pool.Job.{MiningJob, response}
use hc_pool.Jobs.{add_job}
use hc_pool.Messages.{MiningSubmitMessage, Line, notify, fingerprint, duplicate_share}
use hc_pool.Session.State.{
  Client, World, Setup, Env, M, write, end_socket, ◌>>=◌, ◌>>◌, pure, modify, modify_client, get,
}
use hc_pool.Session.Auth.{
  is_session_authorized, use_authorization, enforce_session_authorization_or_close,
  apply_class_policy, from_option,
}
use hc_pool.Session.Work.{
  on_new_mining_job, send_new_mining_job, deliver_job, make_job, note_rate, session_of,
}
use hc_pool.Session.Submit.{locate, has, refuse}
use hc_pool.Session.Score.{check_duplicate, judge_lookup}
use hc_pool.Session.Frame.{core, write-Kept}
use hc_pool.Session.Keeps.{Keeps, bind_Keeps, if_Keeps, if_result, option_result, from_option-Keeps}

module _ (setup : Setup) (env : Env) where
  abbrev pub Seen : List Bytes → Client → Type 0
  Seen hs c = c.mining_submission_hashes ≡ hs

  module _ (hs : List Bytes) where
    write-Seen : (line : Line) → Keeps (Seen hs) (write env line)
    write-Seen line w s = ap (λ c. c.hashes) (write-Kept setup env (core w.client) line w refl) ∙ s

    use_authorization-Seen :
        (r : AuthorizationResult) → Keeps (Seen hs) (use_authorization setup env r)
    unfolding use_authorization apply_class_policy
    use_authorization-Seen r w s = ground (arith, s)

    is_session_authorized-Seen : Keeps (Seen hs) (is_session_authorized setup env)
    unfolding is_session_authorized
    is_session_authorized-Seen w s =
        if_result (Seen hs) w.client.requires_device_auth _ (some true, w)
          (option_result (Seen hs) w.client.device_session (some false, w) _ s
            (λ d.
              bind_Keeps (Seen hs)
                (from_option
                  (authorize_mining setup.authz env.authorize d.device_id d.payout_wallet_hcash))
                (use_authorization setup env) (from_option-Keeps (Seen hs) _) use_authorization-Seen
                w s))
          s

    pub enforce-Seen : Keeps (Seen hs) (enforce_session_authorization_or_close setup env)
    unfolding enforce_session_authorization_or_close end_socket
    enforce-Seen =
        bind_Keeps (Seen hs) (is_session_authorized setup env) _ is_session_authorized-Seen
          (λ allowed v t. ground (arith, t))

    deliver_job-Seen :
        (t : JobTemplate) (job : MiningJob) → Keeps (Seen hs) (deliver_job setup env t job)
    unfolding deliver_job
    deliver_job-Seen t job =
        bind_Keeps (Seen hs)
          (modify (λ w. record w { service = add_job job w.service })
            >> write env (notify (response job t)))
          (λ _. pure tt) (λ w s. write-Seen _ _ s) (λ _ w s. s)

    abbrev deliver_made : JobTemplate → World → M (Unit {0})
    deliver_made t v = from_option (make_job setup env v t) >>= deliver_job setup env t

    send_new_mining_job-Seen : (t : JobTemplate) → Keeps (Seen hs) (send_new_mining_job setup env t)
    unfolding send_new_mining_job
    send_new_mining_job-Seen t =
        bind_Keeps (Seen hs) (enforce_session_authorization_or_close setup env) _ enforce-Seen (λ b.
          if_Keeps (Seen hs) b (modify_client (note_rate setup env) >> get >>= deliver_made t)
            (pure tt)
            (bind_Keeps (Seen hs) (modify_client (note_rate setup env) >> get) (deliver_made t)
              (λ w s. s)
              (λ v.
                bind_Keeps (Seen hs) (from_option (make_job setup env v t))
                  (deliver_job setup env t) (from_option-Keeps (Seen hs) _) (deliver_job-Seen t)))
            (λ w s. s))

  or_end-Seen :
      (hs : List Bytes) (r : Option (Unit {0}) × World)
      → Seen hs r.1.client
      → Seen hs (if is_some r.0 then r.1 else end_socket r.1).client
  unfolding end_socket
  or_end-Seen hs (none, w) s = s
  or_end-Seen hs (some tt, w) s = s

  abbrev forget : Bool → World → World
  forget b w =
      if b then record w { client = record (w.client) { mining_submission_hashes = [] } } else w

  forget-Seen : (b : Bool) (w : World) → b ≡ true → Seen [] (forget b w).client
  forget-Seen true w e = refl
  forget-Seen false w e = absurd (cc e)

  on_new_mining_job-Seen :
      (t : JobTemplate) (w : World)
      → t.clear_jobs ≡ true
      → Seen [] (on_new_mining_job setup env t w).client
  unfolding on_new_mining_job
  on_new_mining_job-Seen t w c =
      or_end-Seen [] (send_new_mining_job setup env t (forget t.clear_jobs w))
        (send_new_mining_job-Seen [] t (forget t.clear_jobs w) (forget-Seen t.clear_jobs w c))

  abbrev pub noted : Bytes → List Bytes → World → World
  noted h hs w = record w { client = record (w.client) { mining_submission_hashes = h ∷ hs } }

  check_duplicate-fresh :
      (later : Env) (m : MiningSubmitMessage) (w : World)
      → Seen [] w.client
      → check_duplicate setup later m w
        ≡ judge_lookup setup later m
            (locate w.service (session_of w.client) m later.now)
            (noted (fingerprint setup.bitcoin m) [] w)
  unfolding check_duplicate
  check_duplicate-fresh later m w s =
      let h = fingerprint setup.bitcoin m in
      ap
        (λ hs.
          if has h hs
          then refuse setup later m.id duplicate_share (codes "Duplicate share") w
          else judge_lookup setup later m (locate w.service (session_of w.client) m later.now)
              (noted h hs w))
        s

  -- After a template that clears the jobs no submission is a duplicate: whatever was seen before, it
  -- goes on to the lookup of its job, and its own bytes are all that is noted.
  pub on_new_mining_job-replays :
      (later : Env) (m : MiningSubmitMessage) (t : JobTemplate) (w : World)
      → t.clear_jobs ≡ true
      → let after = on_new_mining_job setup env t w in
        check_duplicate setup later m after
        ≡ judge_lookup setup later m
            (locate after.service (session_of after.client) m later.now)
            (noted (fingerprint setup.bitcoin m) [] after)
  on_new_mining_job-replays later m t w c =
      check_duplicate-fresh later m (on_new_mining_job setup env t w) (on_new_mining_job-Seen t w c)
