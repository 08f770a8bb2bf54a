-- ===== src/Session/State.antt =====
-- The state of a session of src/models/StratumV1Client.ts, the parts of the pool that it shares,
-- what the environment answers, and the primitive operations: writing, ending, destroying.
use hc_pool.Base.{ℕ, ◌+◌, Bool, true, false, ◌||◌, Option, none, some, List, ◌∷◌, if◌then◌else◌}
use hc_pool.Base.Text.{Text}
use hc_pool.Base.Hex.{Bytes, ℤ}
use hc_pool.Base.Json.{Json}
use hc_pool.Bucket.{TokenBucket}
use hc_pool.Difficulty.{Big, Ratio}
use hc_pool.Template.{Block, Bitcoin}
use hc_pool.Job.Coinbase.{JobConfig}
use hc_pool.Jobs.{JobService, remove_jobs_by_session}
use hc_pool.Metrics.{Metrics}
use hc_pool.Authz.{MiningAuthz, PoolChallenge, ChallengeVerifyRequest, Reply}
use hc_pool.Statistics.{Statistics, Row}
use hc_pool.Messages.{SubscriptionMessage, AuthorizationMessage, SuggestDifficulty, Line}

-- The fields of `ChainProfile` that a session reads; difficulties and the rate are in grains.
pub record Profile : Type 0 where
  pub diff1_target : ℕ
  pub stratum_init_diff : ℕ
  pub stratum_min_diff : ℕ
  pub stratum_max_diff : ℕ
  pub stratum_target_shares_per_second : ℕ

pub record DeviceSession : Type 0 where
  pub device_id : Text
  pub payout_wallet_hcash : Text

pub record PendingChallenge : Type 0 where
  pub challenge : PoolChallenge
  pub device_id : Text
  pub payout_wallet_hcash : Text

-- `ClientEntity`, as far as the session uses it.
pub record Entity : Type 0 where
  pub address : Text
  pub client_name : Text
  pub session_id : Text
  pub user_agent : Text
  pub best_difficulty : Ratio
  pub updated_at : Option ℕ

pub record Client : Type 0 where
  pub client_subscription : Option SubscriptionMessage
  pub client_configuration : Option Json
  pub client_authorization : Option AuthorizationMessage
  pub client_suggested_difficulty : Option SuggestDifficulty
  -- `stratumSubscription` and the two timers of `backgroundWork`.
  pub subscribed_to_jobs : Bool
  pub difficulty_timer : Bool
  pub authorization_timer : Bool
  pub statistics : Option Statistics
  pub stratum_initialized : Bool
  pub used_suggested_difficulty : Bool
  pub session_difficulty : ℕ
  pub requires_device_auth : Bool
  pub device_authorized : Bool
  pub pending_challenge : Option PendingChallenge
  pub device_session : Option DeviceSession
  pub class_token_bucket : Option TokenBucket
  pub class_id : Option Text
  pub class_target_hashrate_hs : Option ℕ
  pub entity : Option Entity
  pub extra_nonce_and_session_id : Option Text
  pub session_start : Option ℕ
  pub no_fee : Bool
  pub hash_rate : Ratio
  pub mining_submission_hashes : List Bytes
  pub signet_locked_extra_nonce2 : Text

pub record Socket : Type 0 where
  pub destroyed : Bool
  pub writable_ended : Bool

-- Calls to the database, the node and other services, in their order.
pub data Effect : Type 0 where
  client_deleted : Text → Effect
  client_inserted : Entity → Effect
  block_submitted : Text → Effect
  block_saved : ℕ → Text → Text → Option Text → Text → Effect
  block_notified : Text → ℕ → Effect
  best_difficulties_reset : Effect
  row_inserted row_updated : Entity → Row → Effect
  heartbeat : Entity → Ratio → ℕ → Effect
  best_difficulty_updated : Option Text → Ratio → Effect
  address_best_updated : Text → Ratio → Text → Effect
  share_forwarded : Text → Text → Text → Bytes → Effect

pub record World : Type 0 where
  pub client : Client
  pub service : JobService
  pub metrics : Metrics
  pub socket : Socket
  -- What was written, the latest line first, and the number of attempts.
  pub sent : List Line
  pub writes : ℕ
  pub effects : List Effect

-- The signing of signet blocks (src/services/signet-block-signing.service.ts) as a session uses
-- it; `sign_block` throws on a block or a challenge that it refuses.
pub record Signer : Type 0 where
  pub enabled : Bool
  pub sign_block : Block → Option Text → Option Block

-- What does not change during the life of the process. The percentage of the developer fee is
-- none where it is no finite number.
pub record Setup : Type 0 where
  pub bitcoin : Bitcoin
  pub big : Big
  pub profile : Profile
  pub job_config : JobConfig
  pub authz : MiningAuthz
  pub signer : Signer
  pub dev_fee_address : Option Text
  pub dev_fee_percent : Option ℤ
  pub bucket_enforcement_enabled : Option Text
  pub external_share_submission_enabled : Option Text
  -- `parseFloat(...) || 1000000000000.0`
  pub minimum_difficulty : ℕ

-- What the environment answers while one event is handled: the clock, random values, the backend,
-- whether the n-th write to the socket or the n-th call of the database for a share fails, the node, and the best difficulty stored for an address.
pub record Env : Type 0 where
  pub now : ℕ
  pub random_u32 : ℕ
  pub challenge_id_bytes : Bytes
  pub challenge_nonce_bytes : Bytes
  pub verify : ChallengeVerifyRequest → Reply
  pub authorize : Text → Text → Reply
  pub write_fails : ℕ → Bool
  pub save_fails : ℕ → Bool
  pub submit_block : Text → Option Text
  pub address_best : Text → Ratio

-- A handler; none is an exception, which keeps what was done before it.
abbrev pub M : Type 0 → Type 0
M A = World → Option A × World

abbrev pub pure : {A : Type 0} → A → M A
pure a w = (some a, w)

abbrev pub throw : {A : Type 0} → M A
throw w = (none, w)

abbrev pub bind_result : {A B : Type 0} → Option A × World → (A → M B) → Option B × World
bind_result (none, w) f = (none, w)
bind_result (some a, w) f = f a w

infixl 5 ◌>>=◌ ◌>>◌
abbrev pub ◌>>=◌ : {A B : Type 0} → M A → (A → M B) → M B
◌>>=◌ m f w = bind_result (m w) f

abbrev pub ◌>>◌ : {B : Type 0} → M (Unit {0}) → M B → M B
m >> k = m >>= λ _. k

abbrev pub get : M World
get w = (some w, w)

abbrev pub modify : (World → World) → M (Unit {0})
modify f w = (some tt, f w)

abbrev pub modify_client : (Client → Client) → M (Unit {0})
modify_client f = modify (λ w. record w { client = f w.client })

abbrev pub log : Effect → M (Unit {0})
log e = modify (λ w. record w { effects = e ∷ w.effects })

-- `socket.end()` and `socket.destroy()`
unfoldable pub end_socket : World → World
end_socket w = record w { socket = record (w.socket) { writable_ended = true } }

unfoldable pub destroy_socket : World → World
destroy_socket w = record w {
  socket = record { destroyed = true; writable_ended = w.socket.writable_ended };
}

abbrev pub drop_session : Option Text → World → World
drop_session none w = w
drop_session (some id) w = record w {
  service = remove_jobs_by_session id w.service;
  effects = client_deleted id ∷ w.effects;
}

-- `destroy()`
unfoldable pub destroy : World → World
destroy w =
    let dropped = drop_session w.client.extra_nonce_and_session_id w in
    record dropped {
      client = record (dropped.client) {
        subscribed_to_jobs = false;
        difficulty_timer = false;
        authorization_timer = false;
        class_token_bucket = none;
        class_id = none;
        class_target_hashrate_hs = none;
      };
    }

-- `write`: true if the line went out.
unfoldable pub write : Env → Line → M Bool
write env line w =
    let counted = record w { writes = w.writes + 1 } in
    let closed = w.socket.destroyed || w.socket.writable_ended in
    let after_closed = (if w.socket.destroyed then destroy w else destroy_socket (destroy w)) in
    if closed
    then (some false, after_closed)
    else if env.write_fails w.writes
    then (some false, end_socket (destroy counted))
    else (some true, record counted { sent = line ∷ w.sent })
