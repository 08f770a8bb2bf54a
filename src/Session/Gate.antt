-- ===== src/Session/Gate.antt =====
-- The checks in front of a submission in src/models/StratumV1Client.ts: the authorization of the
-- session, and the row of the client.
use hc_pool.Base.{
  ◌≡◌, refl, Bool, true, false, Option, none, some, if◌then◌else◌, arith, Bool-cases, Option-cases,
  inl, inr, ◌⊎◌, subst, sym, ap, ◌∙◌,
}
use hc_pool.Authz.{AuthorizationResult, authorize_mining}
use hc_pool.Messages.{MiningSubmitMessage}
use hc_pool.Session.State.{
  Client, DeviceSession, World, Setup, Env, ◌>>◌, pure, modify, end_socket, bind_result,
}
use hc_pool.Session.Auth.{
  is_session_authorized, enforce_session_authorization_or_close, use_authorization,
  apply_class_policy,
}
use hc_pool.Session.Submit.{ensure_entity}
use hc_pool.Session.Score.{check_duplicate, handle_mining_submission}
use hc_pool.Session.Frame.{core}
use hc_pool.Session.Keeps.{invert_bind}
use hc_pool.Session.Accept.{Sound, check_duplicate-Sound}

module _ (setup : Setup) (env : Env) where
  -- The backend allows the device of a session that needs one.
  pub record Vouched (d : DeviceSession) : Type 0 where
    pub answer : AuthorizationResult
    pub asked :
        authorize_mining setup.authz env.authorize d.device_id d.payout_wallet_hcash ≡ some answer
    pub allowed : answer.allowed ≡ true

  abbrev pub Permitted : Client → Type 0
  Permitted c =
      (c.requires_device_auth ≡ false)
      ⊎ ((d : DeviceSession) × (c.device_session ≡ some d) × Vouched d)

  -- What a check that passes leaves alone.
  record Passed (w w' : World) : Type 0 where
    service : w'.service ≡ w.service
    client : core w'.client ≡ core w.client

  use_authorization-true :
      (r : AuthorizationResult) (w w' : World)
      → use_authorization setup env r w ≡ (some true, w')
      → (r.allowed ≡ true) × Passed w w'
  unfolding use_authorization apply_class_policy
  use_authorization-true r w w' e = elim (Bool-cases r.allowed) [
    | inl y ↦ (y, ground (arith, y, e))
    | inr n ↦ ground (arith, n, e)
  ]

  is_session_authorized-true :
      (w w' : World)
      → is_session_authorized setup env w ≡ (some true, w')
      → Permitted w.client × Passed w w'
  unfolding is_session_authorized
  is_session_authorized-true w w' e = elim (Bool-cases w.client.requires_device_auth) [
    | inr n ↦ (inl n, ground (arith, n, e))
    | inl y ↦ elim (Option-cases w.client.device_session) [
      | inl n ↦ ground (arith, y, n, e)
      | inr (d, h) ↦
          elim (Option-cases
            (authorize_mining setup.authz env.authorize d.device_id d.payout_wallet_hcash)) [
              | inl n ↦ ground (arith, y, h, n, e)
              | inr (r, k) ↦
                  let (allowed, passed) =
                    use_authorization-true r w w' (ground (arith, y, h, k, e)) in
                  (inr (d, h, record { answer = r; asked = k; allowed = allowed }), passed)
            ]
    ]
  ]

  or_close :
      (r : Option Bool × World)
      → (bind_result r
          (λ allowed. if allowed then pure true else modify end_socket >> pure false)).0
        ≡ some true
      → (r.0 ≡ some true)
        × ((bind_result r
              (λ allowed. if allowed then pure true else modify end_socket >> pure false)).1
            ≡ r.1)
  or_close (none, w) e = absurd (cc e)
  or_close (some true, w) e = (refl, refl)
  or_close (some false, w) e = absurd (cc e)

  enforce-true :
      (w : World)
      → (enforce_session_authorization_or_close setup env w).0 ≡ some true
      → Permitted w.client × Passed w (enforce_session_authorization_or_close setup env w).1
  unfolding enforce_session_authorization_or_close
  enforce-true w e =
      let (y, same) = or_close (is_session_authorized setup env w) e in
      let (permitted, passed) =
        is_session_authorized-true w (is_session_authorized setup env w).1
          (ap (λ x. (x, (is_session_authorized setup env w).1)) y) in
      (permitted, subst (Passed w) (sym same) passed)

  ensure_entity-Passed : (w : World) → Passed w (ensure_entity setup env w).1
  unfolding ensure_entity
  ensure_entity-Passed w = ground arith

  Passed-Sound :
      (m : MiningSubmitMessage) (w w' : World)
      → Passed w w'
      → Sound setup env m w'.service (core w'.client)
      → Sound setup env m w.service (core w.client)
  Passed-Sound m w w' p s =
      subst (λ c. Sound setup env m w.service c) p.client
        (subst (λ t. Sound setup env m t (core w'.client)) p.service s)

  -- If a submission is accepted, its bytes were not seen before, it names a job of the session's own
  -- whose template is current or within the grace window, the header of the block that it makes
  -- meets the difficulty of the session, and a session that needs a device has one that the backend
  -- allows.
  pub handle_mining_submission-Sound :
      (m : MiningSubmitMessage) (w w' : World)
      → handle_mining_submission setup env m w ≡ (some true, w')
      → Permitted w.client × Sound setup env m w.service (core w.client)
  unfolding handle_mining_submission
  handle_mining_submission-Sound m w w' e =
      let first = (enforce_session_authorization_or_close setup env w).1 in
      let (allowed, a, rest) =
        invert_bind (enforce_session_authorization_or_close setup env)
          (λ allowed.
            if allowed then ensure_entity setup env >> check_duplicate setup env m else pure false)
          true w w' e in
      let y : allowed ≡ true = elim (Bool-cases allowed) [
        | inl y ↦ y
        | inr n ↦ absurd (ground (arith, n, rest))
      ] in
      let (permitted, passed) = enforce-true w (a ∙ ap some y) in
      let (u, b, last) =
        invert_bind (ensure_entity setup env) (λ _. check_duplicate setup env m) true first w'
          (ground (arith, y, rest)) in
      (
        permitted,
        Passed-Sound m w first passed (
            Passed-Sound m first (ensure_entity setup env first).1 (ensure_entity-Passed first)
              (check_duplicate-Sound setup env m (ensure_entity setup env first).1 w' last)),
      )
