-- ===== src/Session/Admit.antt =====
-- When `mining.device_auth` of src/models/StratumV1Client.ts admits a device.
use hc_pool.Base.{
  ◌++◌, or_else, ◌≡◌, refl, Bool, true, false, Option, none, some, if◌then◌else◌, arith, Bool-cases,
  Option-cases, inl, inr, ap, ◌∙◌,
}
use hc_pool.Base.Text.{Text, codes, text_eq_iff}
use hc_pool.Base.Json.{Json}
use hc_pool.Authz.{AuthorizationResult, is_expired, authorize_mining, verify_challenge}
use hc_pool.Messages.{Line, error, other_unknown, unauthorized_worker}
use hc_pool.Metrics.{record_failure}
use hc_pool.Session.State.{PendingChallenge, World, Setup, Env, M, ◌>>=◌, write}
use hc_pool.Session.Auth.{from_option}
use hc_pool.Session.Device.{
  handle_device_auth, check_challenge, verify_device, authorize_device, admit_device, refuse_device,
  parse_device_auth_message, challenge_matches, request_of, id_of,
}
use hc_pool.Session.Frame.{core, write-Kept}

module _ (setup : Setup) (env : Env) where
  -- The pending challenge answers to the message, and the backend accepts the proof and the device.
  pub record Proven (params : Text × Text × Text × Text) (w : World) : Type 0 where
    pub pending : PendingChallenge
    pub issued : w.client.pending_challenge ≡ some pending
    pub same_challenge : pending.challenge.challenge_id ≡ params.2
    pub same_device : pending.device_id ≡ params.0
    pub same_wallet : pending.payout_wallet_hcash ≡ params.1
    pub in_time : is_expired pending.challenge.expires_at env.now ≡ false
    pub proof : AuthorizationResult
    pub verified :
        verify_challenge setup.authz env.verify (request_of setup env pending params) ≡ some proof
    pub proof_allowed : proof.allowed ≡ true
    pub answer : AuthorizationResult
    pub authorized : authorize_mining setup.authz env.authorize params.0 params.1 ≡ some answer
    pub answer_allowed : answer.allowed ≡ true

  abbrev pub authorized_of : World → Bool
  authorized_of w = w.client.device_authorized

  write-authorized :
      (line : Line) (w : World) → authorized_of (write env line w).1 ≡ authorized_of w
  write-authorized line w =
      ap (λ c. c.authorized) (write-Kept setup env (core w.client) line w refl)

  refuse_device-authorized :
      (j : Json) (reason text : Text) (w : World)
      → authorized_of w ≡ false
      → authorized_of (refuse_device setup env j reason text w).1 ≡ false
  unfolding refuse_device
  refuse_device-authorized j reason text w n =
      write-authorized (error (id_of j) unauthorized_worker text) _ ∙ n

  from_answer :
      (o : Option AuthorizationResult) (w : World) (f : AuthorizationResult → M Bool)
      → authorized_of w ≡ false
      → authorized_of ((from_option o >>= f) w).1 ≡ true
      → (r : AuthorizationResult) × (o ≡ some r) × (authorized_of (f r w).1 ≡ true)
  from_answer none w f n y = absurd (cc (n, y))
  from_answer (some r) w f n y = (r, refl, y)

  if_allowed :
      (b : Bool) (m m' : M Bool) (w : World)
      → authorized_of (m' w).1 ≡ false
      → authorized_of ((if b then m else m') w).1 ≡ true
      → (b ≡ true) × (authorized_of (m w).1 ≡ true)
  if_allowed true m m' w n y = (refl, y)
  if_allowed false m m' w n y = absurd (cc (n, y))

  authorize_device-authorized :
      (j : Json) (d t : Text) (w : World)
      → authorized_of w ≡ false
      → authorized_of (authorize_device setup env j d t w).1 ≡ true
      → (answer : AuthorizationResult) × (authorize_mining setup.authz env.authorize d t
          ≡ some answer)
        × (answer.allowed ≡ true)
  unfolding authorize_device
  authorize_device-authorized j d t w n y =
      let (r, k, z) = from_answer (authorize_mining setup.authz env.authorize d t) w _ n y in
      let reason = or_else r.reason (codes "unauthorized") in
      let (a, b) =
        if_allowed r.allowed (admit_device setup env j d t r)
          (refuse_device setup env j (codes "authorize_" ++ reason)
            (codes "Mining authorization denied: " ++ reason))
          w (refuse_device-authorized j _ _ w n) z in
      (r, k, a)

  matching_parts :
      (p : PendingChallenge) (device wallet id : Text)
      → challenge_matches (some p) device wallet id env.now ≡ true
      → (p.challenge.challenge_id ≡ id)
        × (p.device_id ≡ device)
        × (p.payout_wallet_hcash ≡ wallet)
        × (is_expired p.challenge.expires_at env.now ≡ false)
  unfolding challenge_matches
  matching_parts p device wallet id e = ground (
    arith,
    e,
    text_eq_iff p.challenge.challenge_id id,
    text_eq_iff p.device_id device,
    text_eq_iff p.payout_wallet_hcash wallet,
  )

  verify_device-authorized :
      (j : Json) (p : PendingChallenge) (params : Text × Text × Text × Text) (w : World)
      → w.client.pending_challenge ≡ some p
      → challenge_matches (some p) params.0 params.1 params.2 env.now ≡ true
      → authorized_of w ≡ false
      → authorized_of (verify_device setup env j p params w).1 ≡ true
      → Proven params w
  unfolding verify_device
  verify_device-authorized j p params w issued matching n y =
      let same = matching_parts p params.0 params.1 params.2 matching in
      let (r, k, z) =
        from_answer (verify_challenge setup.authz env.verify (request_of setup env p params)) w _ n
          y in
      let reason = or_else r.reason (codes "unauthorized") in
      let (a, b) =
        if_allowed r.allowed (authorize_device setup env j params.0 params.1)
          (refuse_device setup env j (codes "challenge_" ++ reason)
            (codes "Challenge verification failed: " ++ reason))
          w (refuse_device-authorized j _ _ w n) z in
      let (answer, asked, allowed) = authorize_device-authorized j params.0 params.1 w n b in
      record {
        pending = p;
        issued = issued;
        same_challenge = same.0;
        same_device = same.1;
        same_wallet = same.2;
        in_time = same.3;
        proof = r;
        verified = k;
        proof_allowed = a;
        answer = answer;
        authorized = asked;
        answer_allowed = allowed;
      }

  check_challenge-authorized :
      (j : Json) (params : Text × Text × Text × Text) (w : World)
      → authorized_of w ≡ false
      → authorized_of (check_challenge setup env j params w).1 ≡ true
      → Proven params w
  unfolding check_challenge
  check_challenge-authorized j params w n y =
      let refused =
        refuse_device-authorized j (codes "challenge_invalid_or_expired")
          (codes "Challenge is invalid or expired") w n in
      elim (Option-cases w.client.pending_challenge) [
        | inl k ↦ absurd (ground (arith, k, y, refused))
        | inr (p, k) ↦
            elim (Bool-cases (challenge_matches (some p) params.0 params.1 params.2 env.now)) [
              | inl b ↦ verify_device-authorized j p params w k b n (ground (arith, k, b, y))
              | inr b ↦ absurd (ground (arith, k, b, y, refused))
            ]
      ]

  -- If a message `mining.device_auth` makes a session count as authorized, it was well-formed, it
  -- answered the challenge that was pending for this device and wallet, in time, and the backend
  -- allowed both the proof and the device.
  pub handle_device_auth-Proven :
      (j : Json) (w : World)
      → authorized_of w ≡ false
      → authorized_of (handle_device_auth setup env j w).1 ≡ true
      → (params : Text × Text × Text × Text) × (parse_device_auth_message j ≡ some params)
        × Proven params w
  unfolding handle_device_auth
  handle_device_auth-Proven j w n y = elim (Option-cases (parse_device_auth_message j)) [
    | inl k ↦ absurd (
        ground (
          arith,
          k,
          y,
          n,
          write-authorized (error (id_of j) other_unknown (codes "Device auth validation error"))
              (record w {
                metrics = record_failure (codes "device_auth") (codes "validation_error") w.metrics;
              }),
        ))
    | inr (params, k) ↦ (params, k, check_challenge-authorized j params w n (ground (arith, k, y)))
  ]
