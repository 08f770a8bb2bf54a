-- ===== src/Session.antt =====
-- src/models/StratumV1Client.ts: the dispatch of `handleMessage`. The parts of the session stand in
-- the children State, Auth, Device, Work, Submit and Score; the theorems about it in the others.
pub mod State
pub mod Auth
pub mod Device
pub mod Work
pub mod Nonces
pub mod Submit
pub mod Score
pub mod Keeps
pub mod Frame
pub mod Safe
pub mod Admission
pub mod Handlers
pub mod Reach
pub mod Policy
pub mod Accept
pub mod Gate
pub mod Credit
pub mod Admit
pub mod Race
pub mod Repeat
pub mod Replay
pub mod End
use hc_pool.Base.{
  ℕ, Bool, true, false, not, ◌&&◌, ◌||◌, Option, none, some, List, [], ◌∷◌, ◌++◌, if◌then◌else◌,
  is_some, leb, ltb, length, replicate, ◌-◌,
}
use hc_pool.Base.Text.{Text, codes, text_eq, lower}
use hc_pool.Base.Hex.{to_hex, ℤ, pos}
use hc_pool.Base.Json.{Json, obj, null, member, as_text}
use hc_pool.Authz.{MiningAuthz}
use hc_pool.Statistics
use hc_pool.Messages.{
  Parsed, thrown, invalid, valid, SubscriptionMessage, AuthorizationMessage, SuggestDifficulty,
  MiningSubmitMessage, parse_subscription, parse_configuration, parse_authorization,
  parse_suggest_difficulty, parse_submit, Line, subscribed, configured, accepted, set_difficulty,
  error, other_unknown,
}
use State.{
  Profile, Client, World, Setup, Env, M, pure, throw, ◌>>=◌, ◌>>◌, get, modify, modify_client,
  end_socket, write,
}
use Device.{handle_device_challenge, handle_device_auth, id_of}
use Work.{clamp_difficulty, init_stratum}
use Score.{handle_mining_submission}

-- `getRandomHexString`: 8 digits.
unfoldable pub get_random_hex_string : ℕ → Text
get_random_hex_string n = let s = to_hex n in replicate (8 - length s) b'0' ++ s

pub data Method : Type 0 where
  subscribe configure authorize device_challenge device_auth suggest_difficulty submit : Method
  unknown : Method

-- `eRequestMethod`
unfoldable pub method_of : Option Text → Method
method_of none = unknown
method_of (some s) =
    if text_eq s (codes "mining.subscribe")
    then subscribe
    else if text_eq s (codes "mining.configure")
    then configure
    else if text_eq s (codes "mining.authorize")
    then authorize
    else if text_eq s (codes "mining.device_challenge")
    then device_challenge
    else if text_eq s (codes "mining.device_auth")
    then device_auth
    else if text_eq s (codes "mining.suggest_difficulty")
    then suggest_difficulty
    else if text_eq s (codes "mining.submit")
    then submit
    else unknown

module _ (setup : Setup) (env : Env) where
  abbrev reject : Json → Text → M Bool
  reject message text = write env (error (id_of message) other_unknown text)

  abbrev pub on_parsed : {A : Type 0} → Parsed A → Json → Text → (A → M Bool) → M Bool
  on_parsed thrown message text f = throw
  on_parsed invalid message text f = reject message text
  on_parsed (valid a) message text f = f a

  -- The session gets its id with the first subscription and keeps it.
  unfoldable pub start_session : Client → Client
  start_session c = elim c.session_start [
    | some t ↦ c
    | none ↦ record c {
      session_start = some env.now;
      statistics = some (
          Statistics.new setup.profile.stratum_target_shares_per_second
            setup.profile.stratum_min_diff env.now);
      extra_nonce_and_session_id = some (get_random_hex_string env.random_u32);
    }
  ]

  unfoldable pub handle_subscribe : SubscriptionMessage → M Bool
  handle_subscribe m w =
      let c = record (start_session w.client) { client_subscription = some m } in
      write env (subscribed m.id c.extra_nonce_and_session_id) (record w { client = c })

  unfoldable pub handle_configure : Json → M Bool
  handle_configure id =
      modify_client (λ c. record c { client_configuration = some id }) >> write env (configured id)

  unfoldable pub handle_authorize : AuthorizationMessage → M Bool
  handle_authorize m =
      modify_client (λ c. record c { client_authorization = some m }) >> write env (accepted m.id)

  unfoldable pub handle_suggestion : SuggestDifficulty → M Bool
  handle_suggestion m =
      let d = clamp_difficulty setup.profile m.suggested_difficulty in
      modify_client (λ c. record c { client_suggested_difficulty = some m; session_difficulty = d })
      >> write env (set_difficulty d)
      >>= λ success.
          if success
          then modify_client (λ c. record c { used_suggested_difficulty = true }) >> pure true
          else pure false

  unfoldable pub handle_suggest_difficulty : Json → M Bool
  handle_suggest_difficulty message w =
      if w.client.used_suggested_difficulty
      then (some false, w)
      else on_parsed (parse_suggest_difficulty message) message
          (codes "Suggest difficulty validation error") handle_suggestion w

  unfoldable pub handle_valid_submit : MiningSubmitMessage → M Bool
  handle_valid_submit m = handle_mining_submission setup env m >>= λ result.
      if result then write env (accepted m.id) else pure true

  unfoldable pub handle_submit : Json → M Bool
  handle_submit message w =
      if w.client.stratum_initialized
      then on_parsed (parse_submit message) message (codes "Mining Submit validation error")
          handle_valid_submit w
      else (some false, end_socket w)

  -- The `switch`; true where the source goes on behind it.
  unfoldable pub dispatch : Method → Json → M Bool
  dispatch subscribe message =
      on_parsed (parse_subscription message) message (codes "Subscription validation error")
        handle_subscribe
  dispatch configure message =
      on_parsed (parse_configuration message) message (codes "Configuration validation error")
        handle_configure
  dispatch authorize message =
      on_parsed (parse_authorization setup.bitcoin message) message
        (codes "Authorization validation error") handle_authorize
  dispatch device_challenge message = handle_device_challenge setup env message
  dispatch device_auth message = handle_device_auth setup env message
  dispatch suggest_difficulty message = handle_suggest_difficulty message
  dispatch submit message = handle_submit message
  dispatch unknown message = pure true

  -- The condition under which `handleMessage` starts the work.
  unfoldable pub may_start : Client → Bool
  may_start c =
      is_some c.client_subscription
      && (is_some c.client_authorization
          && (not c.stratum_initialized && (not c.requires_device_auth || c.device_authorized)))

  unfoldable pub start_if_ready : M (Unit {0})
  start_if_ready w = if may_start w.client then init_stratum setup env w else (some tt, w)

  -- `handleMessage` on a parsed line; null has no `method`, so that the access throws.
  unfoldable pub handle_json : Json → M (Unit {0})
  handle_json null = throw
  handle_json message =
      dispatch (method_of (as_text (member (codes "method") message))) message >>= λ go_on.
      if go_on then start_if_ready else pure tt

  -- A line of the socket: text that is no JSON ends it, and so does an exception.
  unfoldable pub handle_line : Option Json → World → World
  handle_line none w = end_socket w
  handle_line (some message) w =
      let (result, w') = handle_json message w in if is_some result then w' else end_socket w'

-- The constructor's state.
unfoldable pub new_client : Setup → Text → Client
new_client setup locked = record {
  client_subscription = none;
  client_configuration = none;
  client_authorization = none;
  client_suggested_difficulty = none;
  subscribed_to_jobs = false;
  difficulty_timer = false;
  authorization_timer = false;
  statistics = none;
  stratum_initialized = false;
  used_suggested_difficulty = false;
  session_difficulty = setup.profile.stratum_init_diff;
  requires_device_auth = setup.authz.enabled;
  device_authorized = not setup.authz.enabled;
  pending_challenge = none;
  device_session = none;
  class_token_bucket = none;
  class_id = none;
  class_target_hashrate_hs = none;
  entity = none;
  extra_nonce_and_session_id = none;
  session_start = none;
  no_fee = false;
  hash_rate = Statistics.rate_of 0 1;
  mining_submission_hashes = [];
  signet_locked_extra_nonce2 = locked;
}
