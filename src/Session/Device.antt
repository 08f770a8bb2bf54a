-- ===== src/Session/Device.antt =====
-- `mining.device_challenge` and `mining.device_auth` in src/models/StratumV1Client.ts.
use hc_pool.Base.{
  ℕ, Bool, true, false, not, ◌&&◌, Option, none, some, List, [], ◌∷◌, ◌++◌, if◌then◌else◌, leb,
  length, or_else,
}
use hc_pool.Base.Text.{Text, codes, text_eq}
use hc_pool.Base.Json.{Json, arr, items, member, as_text, or_null}
use hc_pool.Authz.{
  AuthorizationResult, ChallengeVerifyRequest, create_challenge, verify_challenge, authorize_mining,
  is_expired,
}
use hc_pool.Messages.{challenge, accepted, error, other_unknown, unauthorized_worker}
use hc_pool.Session.State.{PendingChallenge, Setup, Env, M, ◌>>=◌, ◌>>◌, modify_client, write}
use hc_pool.Session.Auth.{record_auth_failure, record_auth_success, apply_class_policy, from_option}

abbrev text_of_length : ℕ → Json → Option Text
text_of_length least v = elim (as_text (some v)) [
  | none ↦ none
  | some s ↦ if leb least (length s) then some s else none
]

-- The params of the two messages, once their texts are long enough.
abbrev challenge_params : List Json → Option (Text × Text)
challenge_params (d ∷ w ∷ []) = elim (text_of_length 4 d) [
  | none ↦ none
  | some device ↦ elim (text_of_length 8 w) [ none ↦ none | some wallet ↦ some (device, wallet) ]
]
challenge_params _ = none

abbrev auth_params : List Json → Option (Text × Text × Text × Text)
auth_params (d ∷ w ∷ c ∷ p ∷ []) = elim (challenge_params (d ∷ w ∷ [])) [
  | none ↦ none
  | some (device, wallet) ↦ elim (text_of_length 4 c) [
    | none ↦ none
    | some challenge_id ↦ elim (text_of_length 8 p) [
      | none ↦ none
      | some proof ↦ some (device, wallet, challenge_id, proof)
    ]
  ]
]
auth_params _ = none

abbrev param_list : Json → Option (List Json)
param_list payload = elim (member (codes "params") payload) [
  | some (arr vs) ↦ some (items vs)
  | _ ↦ none
]

-- `parseDeviceChallengeMessage` and `parseDeviceAuthMessage`
unfoldable pub parse_device_challenge_message : Json → Option (Text × Text)
parse_device_challenge_message payload = elim (param_list payload) [
  | none ↦ none
  | some vs ↦ challenge_params vs
]

unfoldable pub parse_device_auth_message : Json → Option (Text × Text × Text × Text)
parse_device_auth_message payload = elim (param_list payload) [
  | none ↦ none
  | some vs ↦ auth_params vs
]

abbrev pub id_of : Json → Json
id_of message = or_null (member (codes "id") message)

-- `pendingChallenge` answers to the message: the same challenge, device and wallet, in time.
unfoldable pub challenge_matches : Option PendingChallenge → Text → Text → Text → ℕ → Bool
challenge_matches none device wallet challenge_id now = false
challenge_matches (some p) device wallet challenge_id now =
    text_eq p.challenge.challenge_id challenge_id
    && (text_eq p.device_id device
        && (text_eq p.payout_wallet_hcash wallet && not (is_expired p.challenge.expires_at now)))

module _ (setup : Setup) (env : Env) where
  -- The handlers return false where the source returns from `handleMessage` early.
  unfoldable pub handle_device_challenge : Json → M Bool
  handle_device_challenge message = elim (parse_device_challenge_message message) [
    | none ↦
        record_auth_failure (codes "device_challenge") (codes "validation_error")
        >> write env
            (error (id_of message) other_unknown (codes "Device challenge validation error"))
    | some (device, wallet) ↦
        let c =
          create_challenge setup.authz env.now env.challenge_id_bytes env.challenge_nonce_bytes in
        modify_client (λ s. record s {
          pending_challenge =
              some (record { challenge = c; device_id = device; payout_wallet_hcash = wallet });
        })
        >> record_auth_success (codes "device_challenge")
        >> write env (challenge (id_of message) c.challenge_id c.nonce c.expires_at)
  ]

  unfoldable pub refuse_device : Json → Text → Text → M Bool
  refuse_device message reason text =
      record_auth_failure (codes "device_auth") reason
      >> write env (error (id_of message) unauthorized_worker text)

  -- The device is authorized: the session is bound to it and its challenge is used up.
  unfoldable pub admit_device : Json → Text → Text → AuthorizationResult → M Bool
  admit_device message device wallet result =
      record_auth_success (codes "device_auth")
      >> modify_client (λ s. apply_class_policy setup.profile result env.now (record s {
        device_authorized = true;
        device_session = some (record { device_id = device; payout_wallet_hcash = wallet });
        pending_challenge = none;
      }))
      >> write env (accepted (id_of message))

  unfoldable pub authorize_device : Json → Text → Text → M Bool
  authorize_device message device wallet =
      from_option (authorize_mining setup.authz env.authorize device wallet) >>= λ result.
      if result.allowed
      then admit_device message device wallet result
      else refuse_device message
          (codes "authorize_" ++ or_else result.reason (codes "unauthorized"))
          (codes "Mining authorization denied: " ++ or_else result.reason (codes "unauthorized"))

  abbrev pub request_of : PendingChallenge → Text × Text × Text × Text → ChallengeVerifyRequest
  request_of p (device, wallet, challenge_id, proof) = record {
    device_id = device;
    payout_wallet_hcash = wallet;
    challenge_id = challenge_id;
    nonce = p.challenge.nonce;
    expires_at = p.challenge.expires_at;
    proof = proof;
  }

  unfoldable pub verify_device : Json → PendingChallenge → Text × Text × Text × Text → M Bool
  verify_device message p params =
      from_option (verify_challenge setup.authz env.verify (request_of p params)) >>= λ result.
      if result.allowed
      then authorize_device message params.0 params.1
      else refuse_device message
          (codes "challenge_" ++ or_else result.reason (codes "unauthorized"))
          (codes "Challenge verification failed: " ++ or_else result.reason (codes "unauthorized"))

  abbrev refuse_challenge : Json → M Bool
  refuse_challenge message =
      refuse_device message (codes "challenge_invalid_or_expired")
        (codes "Challenge is invalid or expired")

  unfoldable pub check_challenge : Json → Text × Text × Text × Text → M Bool
  check_challenge message params w = elim w.client.pending_challenge [
    | none ↦ refuse_challenge message w
    | some p ↦
        if challenge_matches (some p) params.0 params.1 params.2 env.now
        then verify_device message p params w
        else refuse_challenge message w
  ]

  unfoldable pub handle_device_auth : Json → M Bool
  handle_device_auth message = elim (parse_device_auth_message message) [
    | none ↦
        record_auth_failure (codes "device_auth") (codes "validation_error")
        >> write env (error (id_of message) other_unknown (codes "Device auth validation error"))
    | some params ↦ check_challenge message params
  ]
