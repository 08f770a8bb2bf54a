-- ===== src/Authz/Forward.antt =====
-- The requests that src/services/mining-authz.service.ts forwards to the backend, and the routes of
-- src/controllers/activation/activation.controller.ts and
-- src/controllers/device-policy/device-policy.controller.ts that lead to them.
use hc_pool.Base.{
  ℕ, ◌/◌, ◌%◌, ◌+◌, Bool, ◌&&◌, ◌||◌, Option, none, some, List, [], ◌∷◌, ◌++◌, length, ltb, leb,
  ◌==◌, if◌then◌else◌,
}
use hc_pool.Base.Text.{Text, codes, utf8}
use hc_pool.Base.Json.{Json, str, obj, end, field, member}
use hc_pool.Authz.{MiningAuthz}

-- A request to the backend: GET has no body.
pub record BackendRequest : Type 0 where
  pub url : Text
  pub body : Option Json
  pub api_key : Option Text

-- What the HTTP client makes of it: a body, an error with the backend's answer, or one without.
pub data BackendReply : Type 0 where
  success : Option Json → BackendReply
  refusal : ℕ → Option Json → Text → BackendReply
  unreachable : BackendReply

-- The result of a forwarded call; `http_exception` has the body and the status for the caller.
pub data Forwarded : Type 0 where
  returned : Option Json → Forwarded
  http_exception : Json → ℕ → Forwarded
  rethrown : Forwarded

-- `rethrowBackendError`
unfoldable pub rethrow_backend_error : ℕ → Option Json → Text → Forwarded
rethrow_backend_error status (some body) status_text = http_exception body status
rethrow_backend_error status none status_text =
    http_exception (obj (field (codes "error") (str status_text) end)) status

abbrev read_reply : BackendReply → Forwarded
read_reply (success body) = returned body
read_reply (refusal status body status_text) = rethrow_backend_error status body status_text
read_reply unreachable = rethrown

abbrev is_unreserved : ℕ → Bool
is_unreserved c =
    (leb b'a' c && leb c b'z')
    || ((leb b'A' c && leb c b'Z')
        || ((leb b'0' c && leb c b'9')
            || (c == b'-'
                || (c == b'_'
                    || (c == b'.'
                        || (c == b'!'
                            || (c == b'~'
                                || (c == b'*' || (c == 39 || (c == b'(' || c == b')'))))))))))

abbrev upper_digit : ℕ → ℕ
upper_digit n = if ltb n 10 then n + b'0' else n + 55

-- `encodeURIComponent`, of a text without lone surrogates.
unfoldable pub encode_bytes : List ℕ → Text
encode_bytes [] = []
encode_bytes (b ∷ bs) =
    (if is_unreserved b then b ∷ [] else b'%' ∷ upper_digit (b / 16) ∷ upper_digit (b % 16) ∷ [])
    ++ encode_bytes bs

abbrev pub text_field : Text → Text → Json
text_field name value = obj (field name (str value) end)

module _ (a : MiningAuthz) (backend : BackendRequest → BackendReply) where
  unfoldable pub post : Text → Json → Forwarded
  post path body = read_reply (
      backend (record {
        url = a.backend_url ++ path;
        body = some body;
        api_key = if a.enabled then some a.backend_api_key else none;
      }))

  unfoldable pub get : Text → Forwarded
  get path = read_reply (
      backend (record {
        url = a.backend_url ++ path;
        body = none;
        api_key = if a.enabled then some a.backend_api_key else none;
      }))

  unfoldable pub issue_activation_code : Text → Text → Forwarded
  issue_activation_code device_id payout_wallet_hcash = post (codes "/v1/activation/code") (
      obj (
        field (codes "deviceId") (str device_id)
          (field (codes "payoutWalletHcash") (str payout_wallet_hcash) end)))

  unfoldable pub get_claim_status : Text → Forwarded
  get_claim_status device_id =
      get (codes "/v1/device/claim/status?deviceId=" ++ encode_bytes (utf8 device_id))

  unfoldable pub start_activation_challenge : Text → Text → Forwarded
  start_activation_challenge activation_code owner_wallet_evm =
      post (codes "/v1/activation/challenge/start") (
        obj (
          field (codes "activationCode") (str activation_code)
            (field (codes "ownerWalletEvm") (str owner_wallet_evm) end)))

  unfoldable pub verify_activation_challenge : Text → Text → Text → Forwarded
  verify_activation_challenge challenge_id owner_wallet_evm signature =
      post (codes "/v1/activation/challenge/verify") (
        obj (
          field (codes "challengeId") (str challenge_id) (
            field (codes "ownerWalletEvm") (str owner_wallet_evm)
              (field (codes "signature") (str signature) end))))

  unfoldable pub start_ownership_transfer_challenge : Text → Text → Text → Forwarded
  start_ownership_transfer_challenge device_id current_owner new_owner =
      post (codes "/v1/ownership/transfer/challenge/start") (
        obj (
          field (codes "deviceId") (str device_id) (
            field (codes "currentOwnerWalletEvm") (str current_owner)
              (field (codes "newOwnerWalletEvm") (str new_owner) end))))

  unfoldable pub verify_ownership_transfer_challenge : Text → Text → Text → Forwarded
  verify_ownership_transfer_challenge challenge_id current_signature new_signature =
      post (codes "/v1/ownership/transfer/challenge/verify") (
        obj (
          field (codes "challengeId") (str challenge_id) (
            field (codes "currentOwnerSignature") (str current_signature)
              (field (codes "newOwnerSignature") (str new_signature) end))))

  unfoldable pub fetch_device_policy : Json → Forwarded
  fetch_device_policy body = post (codes "/v1/device/policy") body

  unfoldable pub report_device_ota : Json → Forwarded
  report_device_ota body = post (codes "/v1/device/ota/report") body

-- `@IsString() @MinLength(n)` on a field of the request's body.
unfoldable pub valid_field : Text → ℕ → Json → Option Text
valid_field name shortest body = elim (member name body) [
  | some (str s) ↦ if leb shortest (length s) then some s else none
  | _ ↦ none
]

-- The routes of the two controllers, with their bodies.
pub data Route : Type 0 where
  issue_code challenge_start challenge_verify transfer_start transfer_verify : Json → Route
  status : Text → Route
  policy ota_report : Json → Route

-- The validation pipe answers 400 itself; otherwise the service is called.
pub data Handled : Type 0 where
  bad_request : Handled
  forwarded : Forwarded → Handled

infixl 5 ◌>>=◌
abbrev ◌>>=◌ : Option Text → (Text → Handled) → Handled
none >>= f = bad_request
some s >>= f = f s

module _ (a : MiningAuthz) (backend : BackendRequest → BackendReply) where
  unfoldable pub handle_route : Route → Handled
  handle_route (issue_code body) = valid_field (codes "deviceId") 4 body >>= λ device_id.
      valid_field (codes "payoutWalletHcash") 8 body >>= λ wallet.
      forwarded (issue_activation_code a backend device_id wallet)
  handle_route (status device_id) = forwarded (get_claim_status a backend device_id)
  handle_route (challenge_start body) = valid_field (codes "activationCode") 4 body >>= λ code.
      valid_field (codes "ownerWalletEvm") 42 body >>= λ owner.
      forwarded (start_activation_challenge a backend code owner)
  handle_route (challenge_verify body) = valid_field (codes "challengeId") 6 body >>= λ id.
      valid_field (codes "ownerWalletEvm") 42 body >>= λ owner.
      valid_field (codes "signature") 8 body >>= λ signature.
      forwarded (verify_activation_challenge a backend id owner signature)
  handle_route (transfer_start body) = valid_field (codes "deviceId") 4 body >>= λ device_id.
      valid_field (codes "currentOwnerWalletEvm") 42 body >>= λ current.
      valid_field (codes "newOwnerWalletEvm") 42 body >>= λ new.
      forwarded (start_ownership_transfer_challenge a backend device_id current new)
  handle_route (transfer_verify body) = valid_field (codes "challengeId") 6 body >>= λ id.
      valid_field (codes "currentOwnerSignature") 8 body >>= λ current.
      valid_field (codes "newOwnerSignature") 8 body >>= λ new.
      forwarded (verify_ownership_transfer_challenge a backend id current new)
  handle_route (policy body) = forwarded (fetch_device_policy a backend body)
  handle_route (ota_report body) = forwarded (report_device_ota a backend body)
