-- ===== src/Session/Credit.antt =====
-- What a submission adds to the statistics of its session in src/models/StratumV1Client.ts.
use hc_pool.Base.{
  ℕ, ◌+◌, ◌≡◌, Bool, true, false, not, ◌&&◌, Option, none, some, ◌∷◌, if◌then◌else◌, arith, sym,
  subst, ◌∙◌, ap,
}
use hc_pool.Base.Text.{Text, codes}
use hc_pool.Base.Table.{insert}
use hc_pool.Base.Hex.{Bytes, parse_hex}
use hc_pool.Base.Json.{Json}
use hc_pool.Difficulty.{
  Ratio, ratio_ge, in_grains, calculate_difficulty, calculate_difficulty_from_bits,
}
use hc_pool.Template.{Block}
use hc_pool.Job.{copy_and_update_block}
use hc_pool.Statistics.{Statistics, add_shares}
use hc_pool.Statistics.Saves.{save_shares-add_shares}
use hc_pool.Messages.{
  MiningSubmitMessage, AuthorizationMessage, ErrorCode, Line, duplicate_share, job_not_found,
  low_difficulty_share, fingerprint,
}
use hc_pool.Session.State.{
  Client, Entity, World, Setup, Env, write, destroy, end_socket, destroy_socket, bind_result, ◌>>◌,
  pure, modify,
}
use hc_pool.Session.Auth.{class_bucket_gate_rejected}
use hc_pool.Session.Work.{session_of}
use hc_pool.Session.Submit.{
  Located, Lookup, refused, found, has, locate, refuse, credit_share, beat, update_best,
}
use hc_pool.Session.Score.{
  judge_share, accept_share, record_share, submit_found_block, score_submission, judge_lookup,
  check_duplicate,
}
use hc_pool.Session.Keeps.{option_of}
use hc_pool.Session.Frame.{core, drop_session-client, maybe_found-client, forward_share-client}

-- The parts of a session that counting a share reads.
pub record Counts (c : Client) (e : Entity) (s : Statistics) (d : ℕ) : Type 0 where
  pub entity : c.entity ≡ some e
  pub statistics : c.statistics ≡ some s
  pub difficulty : c.session_difficulty ≡ d

-- The statistics after a submission: a share at the session's difficulty if it was accepted.
abbrev pub after : Env → Statistics → ℕ → Bool → Statistics
after env s d accepted = if accepted then (add_shares env.now d s).0 else s

module _ (setup : Setup) (env : Env) (e : Entity) (s : Statistics) (d : ℕ)
    (saves : (n : ℕ) → env.save_fails n ≡ false) where
  abbrev Fair : Option Bool × World → Type 0
  Fair r = (b : Bool) → r.0 ≡ some b → r.1.client.statistics ≡ some (after env s d b)

  if_Fair : (b : Bool) (r r' : Option Bool × World) → Fair r → Fair r' → Fair (if b then r else r')
  if_Fair true r r' f f' = f
  if_Fair false r r' f f' = f'

  option_Fair :
      {A : Type 0} (o : Option A) (r : Option Bool × World) (g : A → Option Bool × World)
      → Fair r
      → ((a : A) → Fair (g a))
      → Fair (option_of o r g)
  option_Fair none r g f k = f
  option_Fair (some a) r g f k = k a

  destroy-statistics : (w : World) → (destroy w).client.statistics ≡ w.client.statistics
  unfolding destroy
  destroy-statistics w =
      ap (λ c. c.statistics) (drop_session-client w.client.extra_nonce_and_session_id w)

  write-statistics :
      (line : Line) (w : World) → (write env line w).1.client.statistics ≡ w.client.statistics
  unfolding write end_socket destroy_socket
  write-statistics line w =
      ground (arith, destroy-statistics w, destroy-statistics (record w { writes = w.writes + 1 }))

  refuse-Fair :
      (id : Json) (code : ErrorCode) (text : Text) (w : World)
      → Counts w.client e s d
      → Fair (refuse setup env id code text w)
  refuse-Fair id code text w c =
      after_write (write env (Line.error id code text) w)
        (write-statistics (Line.error id code text) w ∙ c.statistics)
    where
      after_write :
          (r : Option Bool × World)
          → r.1.client.statistics ≡ some s
          → Fair (bind_result r (λ _. pure false))
      after_write (none, v) k b h = absurd (cc h)
      after_write (some x, v) k true h = absurd (cc h)
      after_write (some x, v) k false h = k

  record_share-statistics :
      (w : World)
      → Counts w.client e s d
      → (record_share setup env w).client.statistics ≡ some (after env s d true)
  unfolding record_share beat credit_share
  record_share-statistics w c =
      let saved = save_shares-add_shares env.save_fails env.now d s saves in
      ground (arith, c.entity, c.statistics, c.difficulty, saved)

  update_best-statistics :
      (a : Text) (r : Ratio) (w : World)
      → (update_best setup env a r w).client.statistics ≡ w.client.statistics
  unfolding update_best
  update_best-statistics a r w = ground arith

  accept_share-statistics :
      (a : AuthorizationMessage) (l : Located) (b : Block) (h : Bytes) (r : Ratio) (w : World)
      → Counts w.client e s d
      → (accept_share setup env a l b h r w).client.statistics ≡ some (after env s d true)
  unfolding accept_share
  accept_share-statistics a l b h r w c =
      let network = calculate_difficulty_from_bits setup.big setup.profile.diff1_target b.bits in
      let w1 =
        if not l.stale && ratio_ge r network
        then submit_found_block setup env a l.template b w
        else w in
      let same : w1.client ≡ w.client =
        maybe_found-client setup env (core w.client) a l.template b w
          (not l.stale && ratio_ge r network) in
      ap (λ c. c.statistics)
        (forward_share-client setup env (core w.client) a r h
          (update_best setup env a.address r (record_share setup env w1)))
      ∙ update_best-statistics a.address r (record_share setup env w1)
      ∙ record_share-statistics w1 (subst (λ c. Counts c e s d) (sym same) c)

  gate-Counts :
      (w : World)
      → Counts w.client e s d
      → Counts (class_bucket_gate_rejected setup env w.client.session_difficulty w).1.client e s d
  unfolding class_bucket_gate_rejected
  gate-Counts w c = ground (arith, c.entity, c.statistics, c.difficulty)

  judge_share-Fair :
      (id : Json) (a : AuthorizationMessage) (l : Located) (b : Block) (h : Bytes) (w : World)
      → Counts w.client e s d
      → Fair (judge_share setup env id a l b h w)
  unfolding judge_share
  judge_share-Fair id a l b h w c =
      let r = calculate_difficulty setup.big setup.profile.diff1_target (setup.bitcoin.hash256 h) in
      if_Fair (ratio_ge r (in_grains w.client.session_difficulty)) _ _
        (gated (class_bucket_gate_rejected setup env w.client.session_difficulty w)
          (gate-Counts w c))
        (refuse-Fair id low_difficulty_share (codes "Difficulty too low") w c)
    where
      gated :
          (g : Option Bool × World)
          → Counts g.1.client e s d
          → Fair (
              bind_result g (λ rejected.
                if rejected
                then refuse setup env id low_difficulty_share (codes "class_cap_exceeded")
                else modify (
                    accept_share setup env a l b h (
                      calculate_difficulty setup.big setup.profile.diff1_target
                        (setup.bitcoin.hash256 h)))
                  >> pure true))
      gated (none, v) k b' h' = absurd (cc h')
      gated (some true, v) k b' h' =
          refuse-Fair id low_difficulty_share (codes "class_cap_exceeded") v k b' h'
      gated (some false, v) k true h' = accept_share-statistics a l b h _ v k
      gated (some false, v) k false h' = absurd (cc h')

  score_submission-Fair :
      (m : MiningSubmitMessage) (l : Located) (w : World)
      → Counts w.client e s d
      → Fair (score_submission setup env m l w)
  unfolding score_submission
  score_submission-Fair m l w c =
      let r =
        copy_and_update_block setup.bitcoin l.job l.template l.version_mask (parse_hex m.nonce)
          l.job.owner_session_id m.extra_nonce2 l.ntime in
      let w1 = record w {
        service = record (w.service) { jobs = insert m.job_id r.0 w.service.jobs };
      } in
      option_Fair (setup.bitcoin.header r.1) (none, w1) _ (λ b h. absurd (cc h))
        (λ header.
          option_Fair w.client.client_authorization (none, w1) _ (λ b h. absurd (cc h))
            (λ a. judge_share-Fair m.id a l r.1 header w1 c))

  judge_lookup-Fair :
      (m : MiningSubmitMessage) (x : Lookup) (w : World)
      → Counts w.client e s d
      → Fair (judge_lookup setup env m x w)
  unfolding judge_lookup
  judge_lookup-Fair m (refused text) w c = refuse-Fair m.id job_not_found text w c
  judge_lookup-Fair m (found l) w c = score_submission-Fair m l w c

  noted-Counts :
      (h : Bytes) (c : Client)
      → Counts c e s d
      → Counts (record c { mining_submission_hashes = h ∷ c.mining_submission_hashes }) e s d
  noted-Counts h c k = record {
    entity = k.entity;
    statistics = k.statistics;
    difficulty = k.difficulty;
  }

  -- If no call of the database for the share fails, a submission that is accepted adds one share at
  -- the difficulty of the session to its statistics; one that is refused as a duplicate, for its job,
  -- its difficulty or the class's bucket adds nothing. The check of the session's authorization, which
  -- comes before these, is not part of it.
  pub check_duplicate-credit :
      (m : MiningSubmitMessage) (w : World) (accepted : Bool)
      → Counts w.client e s d
      → (check_duplicate setup env m w).0 ≡ some accepted
      → (check_duplicate setup env m w).1.client.statistics ≡ some (after env s d accepted)
  unfolding check_duplicate
  check_duplicate-credit m w accepted c =
      let h = fingerprint setup.bitcoin m in
      let c1 = record (w.client) {
        mining_submission_hashes = h ∷ w.client.mining_submission_hashes;
      } in
      if_Fair (has h w.client.mining_submission_hashes)
        (refuse setup env m.id duplicate_share (codes "Duplicate share") w)
        (judge_lookup setup env m (locate w.service (session_of c1) m env.now)
          (record w { client = c1 }))
        (refuse-Fair m.id duplicate_share (codes "Duplicate share") w c)
        (judge_lookup-Fair m (locate w.service (session_of c1) m env.now) (record w { client = c1 })
          (noted-Counts h w.client c))
        accepted
