-- ===== src/Session/Admission.antt =====
-- What the two device messages of src/models/StratumV1Client.ts keep.
use hc_pool.Base.{refl, true, none, some, arith, Option-cases, inl, inr}
use hc_pool.Base.Json.{Json}
use hc_pool.Session.State.{Client, PendingChallenge, Setup, Env}
use hc_pool.Session.Auth.{apply_class_policy, from_option}
use hc_pool.Base.Text.{Text, codes}
use hc_pool.Session.Device.{
  admit_device, handle_device_challenge, handle_device_auth, refuse_device, authorize_device,
  verify_device, check_challenge, request_of, id_of, parse_device_auth_message,
  parse_device_challenge_message,
}
use hc_pool.Session.Safe.{IsSafe, write-Keeps, core-IsSafe}
use hc_pool.Session.Keeps.{Keeps, bind_Keeps, option_Keeps, from_option-Keeps, if_Keeps}
use hc_pool.Messages.{accepted, error, other_unknown, unauthorized_worker}
use hc_pool.Metrics.{record_failure}
use hc_pool.Authz.{authorize_mining, verify_challenge, AuthorizationResult}

module _ (setup : Setup) (env : Env) where
  admitted : Text → Text → AuthorizationResult → Client → Client
  admitted d t r s = apply_class_policy setup.profile r env.now (record s {
    device_authorized = true;
    device_session = some (record { device_id = d; payout_wallet_hcash = t });
    pending_challenge = none;
  })

  admitted-IsSafe :
      (d t : Text) (r : AuthorizationResult) (c : Client)
      → IsSafe setup.profile c
      → IsSafe setup.profile (admitted d t r c)
  unfolding admitted apply_class_policy
  admitted-IsSafe d t r c s = ground (arith)

  admit_device-Keeps :
      (j : Json) (d t : Text) (r : AuthorizationResult)
      → Keeps (IsSafe setup.profile) (admit_device setup env j d t r)
  unfolding admit_device admitted
  admit_device-Keeps j d t r w s =
      write-Keeps setup.profile env (accepted (id_of j)) _ (admitted-IsSafe d t r w.client s)

  refuse_device-Keeps :
      (j : Json) (reason text : Text)
      → Keeps (IsSafe setup.profile) (refuse_device setup env j reason text)
  unfolding refuse_device
  refuse_device-Keeps j reason text w s =
      write-Keeps setup.profile env (error (id_of j) unauthorized_worker text) _ s

  authorize_device-Keeps :
      (j : Json) (d t : Text) → Keeps (IsSafe setup.profile) (authorize_device setup env j d t)
  unfolding authorize_device
  authorize_device-Keeps j d t =
      bind_Keeps (IsSafe setup.profile)
        (from_option (authorize_mining setup.authz env.authorize d t)) _
        (from_option-Keeps (IsSafe setup.profile) _)
        (λ r.
          if_Keeps (IsSafe setup.profile) r.allowed _ _ (admit_device-Keeps j d t r)
            (refuse_device-Keeps j _ _))

  verify_device-Keeps :
      (j : Json) (p : PendingChallenge) (params : Text × Text × Text × Text)
      → Keeps (IsSafe setup.profile) (verify_device setup env j p params)
  unfolding verify_device
  verify_device-Keeps j p params =
      bind_Keeps (IsSafe setup.profile)
        (from_option (verify_challenge setup.authz env.verify (request_of setup env p params))) _
        (from_option-Keeps (IsSafe setup.profile) _)
        (λ r.
          if_Keeps (IsSafe setup.profile) r.allowed _ _ (authorize_device-Keeps j params.0 params.1)
            (refuse_device-Keeps j _ _))

  check_challenge-Keeps :
      (j : Json) (params : Text × Text × Text × Text)
      → Keeps (IsSafe setup.profile) (check_challenge setup env j params)
  unfolding check_challenge
  check_challenge-Keeps j params w s =
      let refused =
        refuse_device-Keeps j (codes "challenge_invalid_or_expired")
          (codes "Challenge is invalid or expired") w s in
      elim (Option-cases w.client.pending_challenge) [
        | inl n ↦ ground (arith, n, refused)
        | inr (p, h) ↦ ground (arith, h, refused, verify_device-Keeps j p params w s)
      ]

  pub handle_device_auth-Keeps :
      (j : Json) → Keeps (IsSafe setup.profile) (handle_device_auth setup env j)
  unfolding handle_device_auth
  handle_device_auth-Keeps j w s = elim (Option-cases (parse_device_auth_message j)) [
    | inl n ↦ ground (
      arith,
      n,
      write-Keeps setup.profile env
          (error (id_of j) other_unknown (codes "Device auth validation error"))
          (record w {
            metrics = record_failure (codes "device_auth") (codes "validation_error") w.metrics;
          })
          s,
    )
    | inr (params, h) ↦ ground (arith, h, check_challenge-Keeps j params w s)
  ]

  pub handle_device_challenge-Keeps :
      (j : Json) → Keeps (IsSafe setup.profile) (handle_device_challenge setup env j)
  unfolding handle_device_challenge
  handle_device_challenge-Keeps j =
      option_Keeps (IsSafe setup.profile) (parse_device_challenge_message j) _ _
        (λ w s.
          write-Keeps setup.profile env
            (error (id_of j) other_unknown (codes "Device challenge validation error")) _ s)
        (λ x w s. write-Keeps setup.profile env _ _ (core-IsSafe setup env w.client _ refl s))
