-- ===== src/Tests/Store.antt =====
-- The theorems on the node's answers, on the rows of the database, and on the API at concrete inputs.
use hc_pool.Base.{
  leb, ◌<◌, if◌then◌else◌, ℕ, ◌+◌, ◌-◌, ◌*◌, ◌/◌, ◌^◌, ◌≤◌, ◌≡◌, ◌↔◌, refl, true, Option, none,
  some, List, [], ◌∷◌, if◌then◌else◌, ◌==◌, length, replicate, arith,
}
use mathlib.Core.Option
use hc_pool.Base.Text.{Text, codes, text_eq}
use hc_pool.Base.Hex.{Bytes}
use hc_pool.Bucket.{grain}
use hc_pool.Difficulty.{ratio, ratio_ge, in_grains}
use hc_pool.Statistics
use hc_pool.Statistics.Slots.{credited}
use hc_pool.NodeRpc.{MiningInfo, new}
use hc_pool.NodeRpc.Polling.{published, records, published-records}
use hc_pool.NodeRpc.Templates.{RpcBlock, Repository, locking, Answer, empty, template, Codec}
use hc_pool.NodeRpc.Templates.Own
use hc_pool.NodeRpc.Templates.Own.{Event, Holding, run-Holding}
use hc_pool.Orm.ClientStatistics.{
  Key, key_eq, StatisticsRow, chart_slots, day, DateOf, of_address, of_group, of_session,
  get_chart_data_for_site, get_chart_data_for_address, get_chart_data_for_group,
  get_chart_data_for_session,
}
use hc_pool.Orm.ClientStatistics.Ledger.{sum_key, sum_slot, count_slot}
use hc_pool.Orm.ClientStatistics.Balance.{record_shares, Unused, record_shares-total}
use hc_pool.Orm.ClientStatistics.Labels.{RefusesDigits, get_chart_data-throws_iff}
use hc_pool.Orm.ClientStatistics.Charts.{Increasing, Totals, sum_at, chart_slots-Totals}
use hc_pool.Orm.Clients.{
  ClientRow, PartialClient, ClientService, insert, insert_clients, update_best_difficulty,
  get_by_session_id,
}
use hc_pool.Orm.Clients.Insertion.{best_difficulty_lost}
use hc_pool.External.{
  ExternalPoolShare, ExternalShareConfig, minimum_of, accepted, difficulty_of,
  submit_external_share,
}
use hc_pool.External
use hc_pool.External.Accepts.{KeyFits, submit_external_share-accepted_iff}

abbrev info_at : ℕ → MiningInfo
info_at height = record { blocks = height; difficulty = 1; networkhashps = 1; chain = codes "main" }

abbrev polls : List (Option (Option MiningInfo))
polls =
    some (some (info_at 7))
    ∷ none
    ∷ some (some (info_at 7))
    ∷ some (some (info_at 6))
    ∷ some none
    ∷ some (some (info_at 8))
    ∷ []

published-records_example : published new polls ≡ records none polls
published-records_example = published-records polls

-- A table of templates as a list with the latest row first.
abbrev find_row : List (ℕ × RpcBlock) → ℕ → Option RpcBlock
find_row [] height = none
find_row ((h, block) ∷ rows) height = if h == height then some block else find_row rows height

abbrev filled : Text → Option RpcBlock → Option RpcBlock
filled text none = none
filled text (some block) = some (record block { data_text = some text })

abbrev put : ℕ → Option RpcBlock → List (ℕ × RpcBlock) → List (ℕ × RpcBlock)
put height none rows = rows
put height (some block) rows = (height, block) ∷ rows

abbrev highest : List (ℕ × RpcBlock) → Option ℕ
highest [] = none
highest ((h, block) ∷ rows) = some h

abbrev repository : Repository
repository = record {
  Store = List (ℕ × RpcBlock);
  find_one = find_row;
  save = λ rows height block. some ((height, block) ∷ rows);
  update = λ rows height text. put height (filled text (find_row rows height)) rows;
  max_height = highest;
  delete_below = λ rows bound. rows;
}

abbrev codec : Codec Text
codec = record { stringify = λ t. t; parse = λ t. some t }

abbrev instances : ℕ → Option Text
instances i = if i == 0 then some (codes "0") else some (codes "1")

abbrev event : ℕ → Answer Text → Event Text
event i a = record { process = i; answer = a }

-- Process 0 locks and loads, process 1 comes in between.
abbrev events : List (Event Text)
events =
    event 0 empty
    ∷ event 1 empty
    ∷ event 0 (template (codes "a"))
    ∷ event 0 empty
    ∷ event 1 (template (codes "b"))
    ∷ event 1 empty
    ∷ []

run-Holding_example :
    Holding
      (λ t. t ≡ codes "b")
      ((Own.run repository codec instances 7 events (λ i. locking) []).0 1)
run-Holding_example =
    run-Holding repository codec instances 7 (λ t. t ≡ codes "b") 1 events (λ i. locking) []
      (
        (λ h. tt),
        ((λ h. tt), ((λ h. absurd (omega arith)), ((λ h. tt), ((λ h. refl), ((λ h. tt), tt))))),
      )
      tt

abbrev session_key : Key
session_key = record { address = codes "miner"; client_name = codes "rig"; session_id = codes "2a" }

abbrev other_key : Key
other_key = record { address = codes "miner"; client_name = codes "rig"; session_id = codes "2b" }

abbrev other_row : StatisticsRow
other_row = record {
  key = other_key;
  time = 600_000;
  shares = 5;
  accepted_count = 1;
  created_at = 600_000;
  updated_at = 600_000;
}

unused : Unused session_key (other_row ∷ [])
unfolding sum_key count_slot key_eq text_eq
unused = record { empty = refl; absent = λ t. refl }

record_shares-total_example :
    let r =
      record_shares session_key
        ((1000, 4) ∷ (2000, 5) ∷ (700_000, 6) ∷ [])
        (Statistics.new (grain / 10) grain 500, other_row ∷ []) in
    (slot : ℕ) × (r.0.current_time_slot ≡ some slot)
    × (sum_slot session_key slot r.1 ≤ r.0.shares)
    × (sum_key session_key r.1 + (r.0.shares - sum_slot session_key slot r.1)
        ≡ credited ((1000, 4) ∷ (2000, 5) ∷ (700_000, 6) ∷ []))
record_shares-total_example =
    record_shares-total session_key (grain / 10) grain 500 1000 4 ((2000, 5) ∷ (700_000, 6) ∷ [])
      (other_row ∷ []) unused (omega arith, (omega arith, tt))

chart_slots-Totals_example :
    let test = λ (r : StatisticsRow). true in
    let rows = other_row ∷ record other_row { key = session_key; shares = 9 } ∷ [] in
    (length (chart_slots test 90_000_000 rows) ≤ 144)
    × Increasing (90_000_000 - day) (chart_slots test 90_000_000 rows)
    × Totals (λ t. sum_at test t rows) (chart_slots test 90_000_000 rows)
chart_slots-Totals_example =
    chart_slots-Totals (λ r. true) 90_000_000
      (other_row ∷ record other_row { key = session_key; shares = 9 } ∷ [])

-- Dates are read from texts of at most four digits, as years.
abbrev year_of : DateOf
year_of time = if leb time 9999 then some time else none

year_of-RefusesDigits : RefusesDigits year_of
year_of-RefusesDigits time h = ground arith

abbrev recent_row : StatisticsRow
recent_row = record other_row { time = 1_700_000_000_000 }

get_chart_data-throws_iff_example :
    let now : ℕ = 1_700_000_600_000 in
    let rows = recent_row ∷ [] in
    ((get_chart_data_for_site year_of now rows ≡ none)
      ↔ (0 < length (chart_slots (λ r. true) now rows)))
    × ((get_chart_data_for_address year_of session_key.address now rows ≡ none)
        ↔ (0 < length (chart_slots (of_address session_key.address) now rows)))
    × ((get_chart_data_for_group year_of session_key.address session_key.client_name now rows
          ≡ none)
        ↔ (0
            < length (chart_slots (of_group session_key.address session_key.client_name) now rows)))
    × ((get_chart_data_for_session year_of session_key now rows ≡ none)
        ↔ (0 < length (chart_slots (of_session session_key) now rows)))
get_chart_data-throws_iff_example =
    get_chart_data-throws_iff year_of 1_700_000_600_000 session_key.address session_key.client_name
      session_key (recent_row ∷ []) year_of-RefusesDigits (omega arith)

abbrev miner : PartialClient
miner = record {
  key = session_key;
  user_agent = some (codes "bitaxe");
  start_time = 1000;
  best_difficulty = 0;
}

abbrev no_clients : ClientService
no_clients = record { insert_queue = []; rows = [] }

best_difficulty_lost_example :
    let queued = (insert miner no_clients).1 in
    let updated = update_best_difficulty (codes "2a") 77 2000 queued in
    let r = insert_clients 5000 updated in
    (r.0 ≡ some tt)
    × (Option.map (λ (row : ClientRow). row.best_difficulty) (get_by_session_id session_key r.1)
        ≡ some 0)
best_difficulty_lost_example = best_difficulty_lost miner 77 2000 5000 no_clients refl tt

abbrev share : ExternalPoolShare
share = record {
  worker = codes "rig";
  address = codes "miner";
  user_agent = codes "bitaxe";
  external_pool_name = codes "pool";
  header = codes "00ff";
}

abbrev zero_hash : Bytes → Bytes
zero_hash bytes = length bytes ∷ replicate 31 0

abbrev time_of : Bytes → Option ℕ
time_of bytes = some 1_700_000_000

abbrev external_config : ExternalShareConfig
external_config = record { api_key = some (codes "key"); minimum_difficulty = some grain }

submit_external_share-accepted_iff_example :
    (submit_external_share ratio zero_hash time_of
        (0xffff * 2 ^ 208)
        external_config
        share
        (some (codes "key"))
        1_600_000_000_000
      ≡ accepted
          (difficulty_of ratio zero_hash time_of (0xffff * 2 ^ 208) share)
          (External.row_of ratio zero_hash time_of (0xffff * 2 ^ 208) share 1_600_000_000_000))
    ↔ (KeyFits (some (codes "key")) (some (codes "key"))
        × (ratio_ge
              (difficulty_of ratio zero_hash time_of (0xffff * 2 ^ 208) share)
              (in_grains (minimum_of external_config))
            ≡ true)
        × ((timestamp : ℕ) × (some 1_700_000_000 ≡ some timestamp)
            × (1_600_000_000_000 / 1000 ≤ timestamp + 600)))
submit_external_share-accepted_iff_example =
    submit_external_share-accepted_iff ratio zero_hash time_of (0xffff * 2 ^ 208) external_config
      share (some (codes "key")) 1_600_000_000_000
