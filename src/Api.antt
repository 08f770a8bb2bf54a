-- ===== src/Api.antt =====
-- src/app.controller.ts: what the pool's API reports of its services; Api/Workers is
-- src/controllers/client/client.controller.ts. A cached answer is an argument; the printing of dates
-- is left out.
pub mod Totals
pub mod Fee
pub mod Workers
use hc_pool.Base.{
  ℕ, ◌+◌, ◌-◌, ◌*◌, ◌/◌, Bool, true, false, ◌&&◌, Option, none, some, List, [], ◌∷◌, map, length,
  ltb, if◌then◌else◌, or_else,
}
use hc_pool.Base.Text.{Text}
use hc_pool.Base.Hex.{ℤ, pos}
use hc_pool.Bucket.{grain}
use hc_pool.Difficulty.{Ratio}
use hc_pool.Profile.{trim}
use hc_pool.Job.Coinbase.{◌>>=◌}
use hc_pool.Metrics.{Metrics, snapshot, MetricsSnapshot}
use hc_pool.Session.State.{Profile}
use hc_pool.NodeRpc.{MiningInfo}
use hc_pool.Orm.AddressSettings.{SettingsRow, HighScore, get_high_scores, get_settings}
use hc_pool.Orm.Blocks.{BlockRow, FoundBlock, get_found_blocks}
use hc_pool.Orm.ClientStatistics.{
  DateOf, Key, Table, ShareSnapshot, get_share_snapshot, get_chart_data_for_address,
  get_chart_data_for_site, get_chart_data_for_group, get_chart_data_for_session,
}
use hc_pool.Orm.Clients.{
  ClientRow, ClientService, UserAgent, get_user_agents, get_active_clients, get_by_address,
  connected_client_count, get_by_name, get_by_session_id,
}

-- A handler with a cache: the stored answer, or a new one that is stored for `ttl` milliseconds.
pub record Cached (A : Type 0) : Type 0 where
  pub answer : A
  pub stored : Option (A × ℕ)

unfoldable pub with_cache : {A : Type 0} → Option A → ℕ → A → Cached A
with_cache (some answer) ttl computed = record { answer = answer; stored = none }
with_cache none ttl computed = record { answer = computed; stored = some (computed, ttl) }

unfoldable pub sum_counts : List UserAgent → ℕ
sum_counts [] = 0
sum_counts (a ∷ agents) = a.count + sum_counts agents

unfoldable pub sum_hash_rates : List UserAgent → ℕ
sum_hash_rates [] = 0
sum_hash_rates (a ∷ agents) = a.total_hash_rate + sum_hash_rates agents

abbrev is_empty : Text → Bool
is_empty [] = true
is_empty (c ∷ s) = false

-- The fee that `pool` reports, from DEV_FEE_ADDRESS and the number in DEV_FEE_PERCENT, in grains.
unfoldable pub configured_fee_percent : Option ℤ → ℕ
configured_fee_percent (some (pos p)) = if ltb 0 p && ltb p (100 * grain) then p else 3 * grain / 2
configured_fee_percent _ = 3 * grain / 2

unfoldable pub effective_fee_percent : Option Text → Option ℤ → ℕ
effective_fee_percent address percent =
    if is_empty (trim (or_else address [])) then 0 else configured_fee_percent percent

pub record PoolInfo : Type 0 where
  pub total_hash_rate : ℕ
  pub block_height : ℕ
  pub total_miners : ℕ
  pub blocks_found : List FoundBlock
  pub fee : ℕ

unfoldable pub pool :
    Option PoolInfo
    → ClientService
    → List BlockRow
    → MiningInfo
    → Option Text
    → Option ℤ
    → Cached PoolInfo
pool cached clients blocks info dev_fee_address dev_fee_percent =
    let agents = get_user_agents clients in
    with_cache cached (5 * 60 * 1000) (record {
      total_hash_rate = sum_hash_rates agents;
      block_height = info.blocks;
      total_miners = sum_counts agents;
      blocks_found = get_found_blocks blocks;
      fee = effective_fee_percent dev_fee_address dev_fee_percent;
    })

-- `info`; `uptime` is the time of the start.
pub record SiteInfo : Type 0 where
  pub block_data : List FoundBlock
  pub user_agents : List UserAgent
  pub high_scores : List HighScore
  pub uptime : ℕ

unfoldable pub info :
    Option SiteInfo → List BlockRow → ClientService → List SettingsRow → ℕ → Cached SiteInfo
info cached blocks clients settings uptime = with_cache cached (1 * 60 * 1000) (record {
  block_data = get_found_blocks blocks;
  user_agents = get_user_agents clients;
  high_scores = get_high_scores settings;
  uptime = uptime;
})

-- None if the chart throws, and then nothing is cached.
unfoldable pub info_chart :
    DateOf → Option (List (ℕ × Ratio)) → ℕ → Table → Option (Cached (List (ℕ × Ratio)))
info_chart date_of (some chart) now rows = some (with_cache (some chart) (10 * 60 * 1000) chart)
info_chart date_of none now rows = get_chart_data_for_site date_of now rows >>= λ chart.
    some (with_cache none (10 * 60 * 1000) chart)

-- `mining/authz/metrics`
unfoldable pub mining_authz_metrics : ClientService → Metrics → ℕ × MetricsSnapshot
mining_authz_metrics clients metrics = (connected_client_count clients, snapshot metrics)

abbrev pub halving_blocks : ℕ
halving_blocks = 210_000

unfoldable pub blocks_till_halving : ℕ → ℕ
blocks_till_halving block_height =
    if ltb 0 block_height
    then (block_height / halving_blocks + 1) * halving_blocks - block_height
    else 0

pub record NetworkStats : Type 0 where
  pub block_height : ℕ
  pub blocks_till : ℕ
  pub medium_fee_sat_vb : ℕ
  pub network_difficulty : ℕ
  pub network_hashrate : ℕ

unfoldable pub get_network_stats : Option NetworkStats → MiningInfo → ℕ → Cached NetworkStats
get_network_stats cached info medium_fee = with_cache cached (30 * 1000) (record {
  block_height = info.blocks;
  blocks_till = blocks_till_halving info.blocks;
  medium_fee_sat_vb = medium_fee;
  network_difficulty = info.difficulty;
  network_hashrate = info.networkhashps;
})

-- A session in `diagnostics`.
pub record SessionInfo : Type 0 where
  pub key : Key
  pub user_agent : Option Text
  pub hash_rate : ℕ
  pub best_difficulty : ℕ
  pub start_time : ℕ
  pub last_heartbeat_at : ℕ
  pub seconds_since_last_heartbeat : ℕ

unfoldable pub session_info : ℕ → ClientRow → SessionInfo
session_info now r = record {
  key = r.key;
  user_agent = r.user_agent;
  hash_rate = r.hash_rate;
  best_difficulty = r.best_difficulty;
  start_time = r.start_time;
  last_heartbeat_at = r.updated_at;
  seconds_since_last_heartbeat = (now - r.updated_at) / 1000;
}

-- The part of the chain's profile that `diagnostics` shows.
pub record DifficultyConfig : Type 0 where
  pub init : ℕ
  pub min : ℕ
  pub max : ℕ
  pub target_shares_per_second : ℕ

pub record Diagnostics : Type 0 where
  pub timestamp : ℕ
  pub uptime : ℕ
  pub chain : Text
  pub block_height : ℕ
  pub network_hashrate : ℕ
  pub network_difficulty : ℕ
  pub connected_miners : ℕ
  pub active_sessions : ℕ
  pub pool_hashrate : ℕ
  pub one_minute : ShareSnapshot
  pub five_minute : ShareSnapshot
  pub fifteen_minute : ShareSnapshot
  pub difficulty_config : DifficultyConfig
  pub rejected_shares_tracked : Bool
  pub stale_shares_tracked : Bool
  pub sessions : List SessionInfo

unfoldable pub diagnostics :
    Option Diagnostics → Profile → ℕ → ℕ → ClientService → Table → MiningInfo → Cached Diagnostics
diagnostics cached profile uptime now clients rows mining =
    let agents = get_user_agents clients in
    let sessions = map (session_info now) (get_active_clients clients) in
    with_cache cached (10 * 1000) (record {
      timestamp = now;
      uptime = uptime;
      chain = mining.chain;
      block_height = mining.blocks;
      network_hashrate = mining.networkhashps;
      network_difficulty = mining.difficulty;
      connected_miners = sum_counts agents;
      active_sessions = length sessions;
      pool_hashrate = sum_hash_rates agents;
      one_minute = get_share_snapshot 1 now rows;
      five_minute = get_share_snapshot 5 now rows;
      fifteen_minute = get_share_snapshot 15 now rows;
      difficulty_config = record {
        init = profile.stratum_init_diff;
        min = profile.stratum_min_diff;
        max = profile.stratum_max_diff;
        target_shares_per_second = profile.stratum_target_shares_per_second;
      };
      rejected_shares_tracked = false;
      stale_shares_tracked = false;
      sessions = sessions;
    })
