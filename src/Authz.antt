-- ===== src/Authz.antt =====
-- src/services/mining-authz.service.ts: the challenge, the two questions to the backend and the
-- reading of its answers. The backend itself, the random bytes and the HTTP client are parameters.
pub mod Forward
use mathlib.Core.List.{reverse}
use hc_pool.Base.{
  ℕ, suc, ◌+◌, ◌-◌, ◌*◌, Bool, true, false, Option, none, some, List, [], ◌∷◌, ltb, ◌==◌,
  if◌then◌else◌, or_else,
}
use hc_pool.Base.Text.{Text, codes, is_true}
use hc_pool.Base.Hex.{ℤ, pos, negsuc, parse_decimal, hex}
use hc_pool.Base.Json.{Json, null, bool, member, as_text}
use hc_pool.Bucket.{grain}

-- `expires_at` is none where the sum is NaN.
pub record PoolChallenge : Type 0 where
  pub challenge_id : Text
  pub nonce : Text
  pub issued_at : ℕ
  pub expires_at : Option ℤ

pub record ChallengeVerifyRequest : Type 0 where
  pub device_id : Text
  pub payout_wallet_hcash : Text
  pub challenge_id : Text
  pub nonce : Text
  pub expires_at : Option ℤ
  pub proof : Text

-- `target_hashrate_hs` is in grains.
pub record AuthorizationResult : Type 0 where
  pub allowed : Bool
  pub reason : Option Text
  pub mode : Option Text
  pub class_id : Option Text
  pub target_hashrate_hs : Option ℤ

-- `SAFEST_CAP_HS`
abbrev pub safest_cap_hs : ℕ
safest_cap_hs = 5000 * grain

pub record MiningAuthz : Type 0 where
  pub enabled : Bool
  pub backend_url : Text
  pub backend_api_key : Text
  pub challenge_ttl_ms : Option ℤ

-- What the constructor reads of the configuration.
pub record AuthzConfig : Type 0 where
  pub mining_authz_enabled : Option Text
  pub mining_backend_url : Option Text
  pub mining_backend_api_key : Option Text
  pub mining_challenge_ttl_ms : Option Text

-- `replace(/\/+$/, '')`, on the reversed text
abbrev drop_slashes : Text → Text
drop_slashes [] = []
drop_slashes (c ∷ s) = if c == b'/' then drop_slashes s else c ∷ s

abbrev is_empty : Text → Bool
is_empty [] = true
is_empty (c ∷ s) = false

-- The constructor; `none` is a throw.
unfoldable pub new : AuthzConfig → Option MiningAuthz
new config =
    let enabled = is_true config.mining_authz_enabled (codes "true") in
    let url = reverse (drop_slashes (reverse (or_else config.mining_backend_url []))) in
    let key = or_else config.mining_backend_api_key [] in
    let service : MiningAuthz = record {
      enabled = enabled;
      backend_url = url;
      backend_api_key = key;
      challenge_ttl_ms = parse_decimal (or_else config.mining_challenge_ttl_ms (codes "30000"));
    } in
    if enabled
    then if is_empty url then none else if is_empty key then none else some service
    else some service

-- `now + ttl`
abbrev pub add_int : ℕ → ℤ → ℤ
add_int now (pos n) = pos (now + n)
add_int now (negsuc n) = if ltb n now then pos (now - suc n) else negsuc (n - now)

-- The random bytes are those of the two calls of `randomBytes`.
unfoldable pub create_challenge : MiningAuthz → ℕ → List ℕ → List ℕ → PoolChallenge
create_challenge a now id_bytes nonce_bytes = record {
  challenge_id = hex id_bytes;
  nonce = hex nonce_bytes;
  issued_at = now;
  expires_at = elim a.challenge_ttl_ms [ none ↦ none | some ttl ↦ some (add_int now ttl) ];
}

-- `expiresAt < Date.now()`
abbrev pub is_expired : Option ℤ → ℕ → Bool
is_expired none now = false
is_expired (some (pos n)) now = ltb n now
is_expired (some (negsuc n)) now = true

-- The answer of the backend to a `post`: its body, or an exception.
pub data Reply : Type 0 where
  failed : Reply
  answered : Option Json → Reply

abbrev is_bool_true : Option Json → Bool
is_bool_true (some (bool true)) = true
is_bool_true _ = false

-- The fields of a null or missing body are those of an empty object.
abbrev payload_of : Option Json → Json
payload_of none = null
payload_of (some v) = v

unfoldable pub normalize_result : Option Json → AuthorizationResult
normalize_result response =
    let payload = payload_of response in
    record {
      allowed = is_bool_true (member (codes "allowed") payload);
      reason = as_text (member (codes "reason") payload);
      mode = as_text (member (codes "mode") payload);
      class_id = none;
      target_hashrate_hs = none;
    }

abbrev pub disabled_result : AuthorizationResult
disabled_result = record {
  allowed = true;
  reason = none;
  mode = some (codes "disabled");
  class_id = none;
  target_hashrate_hs = none;
}

abbrev read_reply : Reply → Option AuthorizationResult
read_reply failed = none
read_reply (answered body) = some (normalize_result body)

-- `none` is an exception.
unfoldable pub verify_challenge :
    MiningAuthz
    → (ChallengeVerifyRequest → Reply)
    → ChallengeVerifyRequest
    → Option AuthorizationResult
verify_challenge a post payload =
    if a.enabled then read_reply (post payload) else some disabled_result

unfoldable pub authorize_mining :
    MiningAuthz → (Text → Text → Reply) → Text → Text → Option AuthorizationResult
authorize_mining a post device_id payout_wallet_hcash =
    if a.enabled then read_reply (post device_id payout_wallet_hcash) else some disabled_result
