-- ===== src/Session/Policy.antt =====
-- What the class policy of src/models/StratumV1Client.ts can be, given what
-- src/services/mining-authz.service.ts keeps of the backend's answer.
use hc_pool.Base.{ℕ, ◌≡◌, none, some, if◌then◌else◌, arith}
use hc_pool.Base.Text.{Text, codes}
use hc_pool.Authz.{
  AuthorizationResult, MiningAuthz, Reply, authorize_mining, normalize_result, safest_cap_hs,
}
use hc_pool.Session.State.{Profile, Client}
use hc_pool.Session.Auth.{apply_class_policy, target_of, is_mode}

classless :
    (a : MiningAuthz) (post : Text → Text → Reply) (device wallet : Text) (r : AuthorizationResult)
    → authorize_mining a post device wallet ≡ some r
    → r.target_hashrate_hs ≡ none
unfolding authorize_mining normalize_result
classless a post device wallet r e = ground (arith)

-- Whatever class and rate the backend answers for a device, the session's rate is none with the mode
-- `bypass` and the smallest cap with any other.
pub apply_class_policy-capped :
    (profile : Profile) (a : MiningAuthz) (post : Text → Text → Reply) (device wallet : Text)
    (r : AuthorizationResult) (now : ℕ) (c : Client)
    → authorize_mining a post device wallet ≡ some r
    → (apply_class_policy profile r now c).class_target_hashrate_hs
      ≡ (if is_mode r.mode (codes "bypass") then none else some safest_cap_hs)
unfolding apply_class_policy target_of
apply_class_policy-capped profile a post device wallet r now c e =
    ground (arith, classless a post device wallet r e)
