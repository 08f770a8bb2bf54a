-- ===== src/Session/Frame.antt =====
-- What the scoring of a submission in src/models/StratumV1Client.ts leaves alone.
use hc_pool.Base.{
  ℕ, ◌+◌, ◌≡◌, refl, Bool, true, false, not, ◌&&◌, Option, none, some, List, if◌then◌else◌, arith,
  Bool-cases, Option-cases, inl, inr, ◌∙◌, ap,
}
use hc_pool.Base.Text.{Text, codes}
use hc_pool.Base.Table.{insert}
use hc_pool.Base.Hex.{Bytes, parse_hex}
use hc_pool.Base.Json.{Json}
use hc_pool.Difficulty.{
  Ratio, ratio_ge, in_grains, calculate_difficulty, calculate_difficulty_from_bits,
}
use hc_pool.Template.{Block, JobTemplate}
use hc_pool.Job.{copy_and_update_block}
use hc_pool.Messages.{
  MiningSubmitMessage, AuthorizationMessage, SubscriptionMessage, ErrorCode, Line, job_not_found,
  low_difficulty_share,
}
use hc_pool.Session.State.{
  Client, DeviceSession, World, Setup, Env, M, write, drop_session, destroy, end_socket,
  destroy_socket, ◌>>◌, pure, modify,
}
use hc_pool.Session.Auth.{class_bucket_gate_rejected}
use hc_pool.Session.Submit.{
  Located, Lookup, refused, found, refuse, credit_share, beat, update_best, forward_share,
}
use hc_pool.Session.Score.{
  judge_share, accept_share, record_share, submit_found_block, score_submission, judge_lookup,
}
use hc_pool.Session.Keeps.{Keeps, bind_Keeps}

pub record Core : Type 0 where
  pub started : Bool
  pub used : Bool
  pub authorized : Bool
  pub required : Bool
  pub difficulty : ℕ
  pub subscription : Option SubscriptionMessage
  pub authorization : Option AuthorizationMessage
  pub device : Option DeviceSession
  pub session : Option Text
  pub hashes : List Bytes

abbrev pub core : Client → Core
core c = record {
  started = c.stratum_initialized;
  used = c.used_suggested_difficulty;
  authorized = c.device_authorized;
  required = c.requires_device_auth;
  difficulty = c.session_difficulty;
  subscription = c.client_subscription;
  authorization = c.client_authorization;
  device = c.device_session;
  session = c.extra_nonce_and_session_id;
  hashes = c.mining_submission_hashes;
}

pub drop_session-client : (id : Option Text) (w : World) → (drop_session id w).client ≡ w.client
drop_session-client none w = refl
drop_session-client (some id) w = refl

pub destroy-core : (w : World) → core (destroy w).client ≡ core w.client
unfolding destroy
destroy-core w = ap core (drop_session-client w.client.extra_nonce_and_session_id w)

module _ (setup : Setup) (env : Env) (k : Core) where
  abbrev pub Kept : {A : Type 0} → M A → Type 0
  Kept = Keeps (λ c. core c ≡ k)

  pub write-Kept : (line : Line) → Kept (write env line)
  unfolding write end_socket destroy_socket
  write-Kept line w s =
      ground (arith, destroy-core w, destroy-core (record w { writes = w.writes + 1 }), s)

  pub refuse-Kept :
      (id : Json) (code : ErrorCode) (text : Text) → Kept (refuse setup env id code text)
  refuse-Kept id code text =
      bind_Keeps (λ c. core c ≡ k) (write env (Line.error id code text)) (λ _. pure false)
        (write-Kept _) (λ _ w s. s)

  gate-Kept : (d : ℕ) → Kept (class_bucket_gate_rejected setup env d)
  unfolding class_bucket_gate_rejected
  gate-Kept d w s = ground (arith, s)

  submit_found_block-client :
      (a : AuthorizationMessage) (t : JobTemplate) (b : Block) (w : World)
      → (submit_found_block setup env a t b w).client ≡ w.client
  unfolding submit_found_block
  submit_found_block-client a t b w = refl

  pub maybe_found-client :
      (a : AuthorizationMessage) (t : JobTemplate) (b : Block) (w : World) (c : Bool)
      → (if c then submit_found_block setup env a t b w else w).client ≡ w.client
  maybe_found-client a t b w true = submit_found_block-client a t b w
  maybe_found-client a t b w false = refl

  record_share-core : (w : World) → core (record_share setup env w).client ≡ core w.client
  unfolding record_share beat credit_share
  record_share-core w = elim (Option-cases w.client.entity) [
    | inl n ↦ ground (arith, n)
    | inr (e, n) ↦ elim (Option-cases w.client.statistics) [
      | inl m ↦ ground (arith, n, m)
      | inr (s, m) ↦ ground (arith, n, m)
    ]
  ]

  update_best-core :
      (a : Text) (d : Ratio) (w : World) → core (update_best setup env a d w).client ≡ core w.client
  unfolding update_best
  update_best-core a d w = ground arith

  pub forward_share-client :
      (a : AuthorizationMessage) (d : Ratio) (h : Bytes) (w : World)
      → (forward_share setup env a d h w).client ≡ w.client
  unfolding forward_share
  forward_share-client a d h w = ground arith

  pub accept_share-core :
      (a : AuthorizationMessage) (l : Located) (b : Block) (h : Bytes) (d : Ratio) (w : World)
      → core (accept_share setup env a l b h d w).client ≡ core w.client
  unfolding accept_share
  accept_share-core a l b h d w =
      let network = calculate_difficulty_from_bits setup.big setup.profile.diff1_target b.bits in
      let w1 =
        if not l.stale && ratio_ge d network
        then submit_found_block setup env a l.template b w
        else w in
      ap core
        (forward_share-client a d h (update_best setup env a.address d (record_share setup env w1)))
      ∙ update_best-core a.address d (record_share setup env w1)
      ∙ record_share-core w1
      ∙ ap core (maybe_found-client a l.template b w (not l.stale && ratio_ge d network))

  judge_share-Kept :
      (id : Json) (a : AuthorizationMessage) (l : Located) (b : Block) (h : Bytes)
      → Kept (judge_share setup env id a l b h)
  unfolding judge_share
  judge_share-Kept id a l b h w s =
      let d = calculate_difficulty setup.big setup.profile.diff1_target (setup.bitcoin.hash256 h) in
      elim (Bool-cases (ratio_ge d (in_grains w.client.session_difficulty))) [
        | inr n ↦
            ground (arith, n, refuse-Kept id low_difficulty_share (codes "Difficulty too low") w s)
        | inl y ↦ ground (
          arith,
          y,
          bind_Keeps (λ c. core c ≡ k)
              (class_bucket_gate_rejected setup env w.client.session_difficulty)
              (λ rejected.
                if rejected
                then refuse setup env id low_difficulty_share (codes "class_cap_exceeded")
                else modify (accept_share setup env a l b h d) >> pure true)
              (gate-Kept w.client.session_difficulty)
              (λ rejected v t. elim (Bool-cases rejected) [
                | inl g ↦
                    ground (
                      arith,
                      g,
                      refuse-Kept id low_difficulty_share (codes "class_cap_exceeded") v t,
                    )
                | inr g ↦ ground (arith, g, accept_share-core a l b h d v ∙ t)
              ])
              w s,
        )
      ]

  score_submission-Kept :
      (m : MiningSubmitMessage) (l : Located) → Kept (score_submission setup env m l)
  unfolding score_submission
  score_submission-Kept m l w s =
      let r =
        copy_and_update_block setup.bitcoin l.job l.template l.version_mask (parse_hex m.nonce)
          l.job.owner_session_id m.extra_nonce2 l.ntime in
      let w1 = record w {
        service = record (w.service) { jobs = insert m.job_id r.0 w.service.jobs };
      } in
      elim (Option-cases (setup.bitcoin.header r.1)) [
        | inl h ↦ ground (arith, h)
        | inr (header, h) ↦ elim (Option-cases w.client.client_authorization) [
          | inl n ↦ ground (arith, h, n)
          | inr (a, n) ↦ ground (arith, h, n, judge_share-Kept m.id a l r.1 header w1 s)
        ]
      ]

  pub judge_lookup-Kept : (m : MiningSubmitMessage) (x : Lookup) → Kept (judge_lookup setup env m x)
  unfolding judge_lookup
  judge_lookup-Kept m (refused text) = refuse-Kept m.id job_not_found text
  judge_lookup-Kept m (found l) = score_submission-Kept m l
