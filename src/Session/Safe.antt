-- ===== src/Session/Safe.antt =====
-- What holds of a session at all times: work starts only for a miner that subscribed and
-- authorized, a device that counts as authorized has a session, and the difficulty keeps its limits.
use hc_pool.Base.{
  ℕ, ◌+◌, ◌≤◌, ◌≡◌, refl, true, not, ◌&&◌, ◌||◌, Option, none, some, List, is_some, arith,
  Option-cases, Bool-cases, inl, inr,
}
use hc_pool.Session.State.{
  Profile, Client, World, Setup, Env, drop_session, destroy, end_socket, destroy_socket, write,
}
use hc_pool.Session.Auth.{
  apply_class_policy, use_authorization, is_session_authorized,
  enforce_session_authorization_or_close, class_bucket_gate_rejected,
}
use hc_pool.Session.Frame.{core}
use hc_pool.Session.Keeps.{Keeps, bind_Keeps}
use hc_pool.Messages.{Line}
use hc_pool.Authz.{authorize_mining, AuthorizationResult}

pub record IsSafe (profile : Profile) (c : Client) : Type 0 where
  pub started :
      (not c.stratum_initialized
        || (is_some c.client_subscription && is_some c.client_authorization))
      ≡ true
  pub bound :
      (not (c.requires_device_auth && c.device_authorized) || is_some c.device_session) ≡ true
  pub low : profile.stratum_min_diff ≤ c.session_difficulty
  pub high : c.session_difficulty ≤ profile.stratum_max_diff

-- A profile as `getActiveChainProfile` makes it.
pub record Ordered (profile : Profile) : Type 0 where
  pub init_low : profile.stratum_min_diff ≤ profile.stratum_init_diff
  pub init_high : profile.stratum_init_diff ≤ profile.stratum_max_diff

drop_session-client : (id : Option (List ℕ)) (w : World) → (drop_session id w).client ≡ w.client
drop_session-client none w = refl
drop_session-client (some id) w = refl

module _ (profile : Profile) where
  pub destroy-IsSafe : (w : World) → IsSafe profile w.client → IsSafe profile (destroy w).client
  unfolding destroy
  destroy-IsSafe w s = ground (arith, drop_session-client w.client.extra_nonce_and_session_id w)

  pub write-Keeps : (env : Env) (line : Line) → Keeps (IsSafe profile) (write env line)
  unfolding write end_socket destroy_socket
  write-Keeps env line w s =
      ground (arith, destroy-IsSafe w s, destroy-IsSafe (record w { writes = w.writes + 1 }) s)

module _ (setup : Setup) (env : Env) where
  pub apply_class_policy-IsSafe :
      (r : AuthorizationResult) (c : Client)
      → IsSafe setup.profile c
      → IsSafe setup.profile (apply_class_policy setup.profile r env.now c)
  unfolding apply_class_policy
  apply_class_policy-IsSafe r c s = ground (arith)

  use_authorization-Keeps :
      (r : AuthorizationResult) → Keeps (IsSafe setup.profile) (use_authorization setup env r)
  unfolding use_authorization apply_class_policy
  use_authorization-Keeps r w s = ground (arith)

  is_session_authorized-Keeps : Keeps (IsSafe setup.profile) (is_session_authorized setup env)
  unfolding is_session_authorized
  is_session_authorized-Keeps w s = elim (Bool-cases w.client.requires_device_auth) [
    | inr n ↦ ground (arith, n)
    | inl y ↦ elim (Option-cases w.client.device_session) [
      | inl n ↦ ground (arith, y, n)
      | inr (d, h) ↦
          elim (Option-cases
            (authorize_mining setup.authz env.authorize d.device_id d.payout_wallet_hcash)) [
              | inl n ↦ ground (arith, y, h, n)
              | inr (r, k) ↦ ground (arith, y, h, k, use_authorization-Keeps r w s)
            ]
    ]
  ]

  pub enforce-Keeps :
      Keeps (IsSafe setup.profile) (enforce_session_authorization_or_close setup env)
  unfolding enforce_session_authorization_or_close end_socket
  enforce-Keeps w s =
      bind_Keeps (IsSafe setup.profile) (is_session_authorized setup env) _
        is_session_authorized-Keeps (λ allowed v t. ground (arith)) w s

  pub class_bucket_gate_rejected-Keeps :
      (d : ℕ) → Keeps (IsSafe setup.profile) (class_bucket_gate_rejected setup env d)
  unfolding class_bucket_gate_rejected
  class_bucket_gate_rejected-Keeps d w s = ground (arith)

  pub core-IsSafe :
      (c c' : Client) → core c' ≡ core c → IsSafe setup.profile c → IsSafe setup.profile c'
  core-IsSafe c c' e s = ground (arith, e, s)
