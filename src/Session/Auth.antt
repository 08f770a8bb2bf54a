-- ===== src/Session/Auth.antt =====
-- Device authorization in src/models/StratumV1Client.ts: the check that every job and submission makes, the class policy and its token bucket.
use hc_pool.Base.{ℕ, suc, Bool, true, false, Option, none, some, if◌then◌else◌, or_else}
use hc_pool.Base.Text.{Text, codes, text_eq, is_true}
use hc_pool.Base.Hex.{ℤ, pos}
use hc_pool.Bucket.{TokenBucket, update_params, try_consume, share_cost_units}
use hc_pool.Bucket
use hc_pool.Metrics.{
  record_failure, record_success, record_bucket_acceptance, record_bucket_rejection,
}
use hc_pool.Authz.{AuthorizationResult, safest_cap_hs, authorize_mining}
use hc_pool.Session.State.{
  Profile, Client, Setup, Env, M, pure, throw, ◌>>=◌, ◌>>◌, modify, modify_client, end_socket,
}

abbrev pub record_auth_failure : Text → Text → M (Unit {0})
record_auth_failure stage reason =
    modify (λ w. record w { metrics = record_failure stage reason w.metrics })

abbrev pub record_auth_success : Text → M (Unit {0})
record_auth_success stage = modify (λ w. record w { metrics = record_success stage w.metrics })

-- `typeof rate === 'number' && rate > 0 ? rate : SAFEST_CAP_HS`
unfoldable pub target_of : Option ℤ → ℕ
target_of (some (pos (suc n))) = suc n
target_of _ = safest_cap_hs

abbrev pub is_mode : Option Text → Text → Bool
is_mode none mode = false
is_mode (some m) mode = text_eq m mode

abbrev next_bucket : Option TokenBucket → ℕ → ℕ → ℕ → TokenBucket
next_bucket none target floor now = Bucket.new target floor now
next_bucket (some b) target floor now = update_params b target floor now

-- `applyClassPolicy`
unfoldable pub apply_class_policy : Profile → AuthorizationResult → ℕ → Client → Client
apply_class_policy profile result now c =
    if is_mode result.mode (codes "bypass")
    then record c {
      class_id = some (codes "bypass");
      class_target_hashrate_hs = none;
      class_token_bucket = none;
    }
    else let target = target_of result.target_hashrate_hs in
      record c {
        class_id = result.class_id;
        class_target_hashrate_hs = some target;
        class_token_bucket =
            some (next_bucket c.class_token_bucket target profile.stratum_min_diff now);
      }

abbrev pub from_option : {A : Type 0} → Option A → M A
from_option none = throw
from_option (some a) = pure a

module _ (setup : Setup) (env : Env) where
  -- The answer of the backend for the session's device.
  unfoldable pub use_authorization : AuthorizationResult → M Bool
  use_authorization result =
      if result.allowed
      then modify_client (apply_class_policy setup.profile result env.now) >> pure true
      else record_auth_failure (codes "session_authorize")
          (or_else result.reason (codes "unspecified"))
        >> modify_client (λ c. record c { device_authorized = false; device_session = none })
        >> pure false

  unfoldable pub is_session_authorized : M Bool
  is_session_authorized w =
      if w.client.requires_device_auth
      then elim w.client.device_session [
        | none ↦ (some false, w)
        | some d ↦
            (from_option
                  (authorize_mining setup.authz env.authorize d.device_id d.payout_wallet_hcash)
                >>= use_authorization)
              w
      ]
      else (some true, w)

  unfoldable pub enforce_session_authorization_or_close : M Bool
  enforce_session_authorization_or_close = is_session_authorized >>= λ allowed.
      if allowed then pure true else modify end_socket >> pure false

  abbrev pub device_of : Client → Option Text
  device_of c = elim c.device_session [ none ↦ none | some d ↦ some d.device_id ]

  -- `classBucketGateRejected`
  unfoldable pub class_bucket_gate_rejected : ℕ → M Bool
  class_bucket_gate_rejected difficulty w = elim w.client.class_token_bucket [
    | none ↦ (some false, w)
    | some b ↦
        let r = try_consume b (share_cost_units difficulty) env.now in
        let on = is_true setup.bucket_enforcement_enabled (codes "false") in
        let c = record (w.client) { class_token_bucket = some r.0 } in
        let device = device_of w.client in
        if r.1
        then (
          some false,
          record w {
            client = c;
            metrics = record_bucket_acceptance device w.client.class_id w.metrics;
          },
        )
        else (
          some on,
          record w {
            client = c;
            metrics = record_bucket_rejection device w.client.class_id on w.metrics;
          },
        )
  ]
