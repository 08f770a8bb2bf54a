-- ===== src/Api/Workers.antt =====
-- src/controllers/client/client.controller.ts: what the API reports of the workers of an address.
use hc_pool.Base.{ℕ, ◌/◌, false, Option, none, some, List, [], ◌∷◌, map, length, ltb, if◌then◌else◌}
use hc_pool.Base.Text.{Text}
use hc_pool.Bucket.{grain}
use hc_pool.Difficulty.{Ratio}
use hc_pool.Job.Coinbase.{◌>>=◌}
use hc_pool.Orm.AddressSettings.{SettingsRow, get_settings}
use hc_pool.Orm.ClientStatistics.{
  DateOf, Key, Table, get_chart_data_for_group, get_chart_data_for_session,
}
use hc_pool.Orm.Clients.{ClientRow, ClientService, get_by_address, get_by_name, get_by_session_id}

-- A worker in `getClientInfo`; the difficulty is printed with two digits there.
pub record WorkerSummary : Type 0 where
  pub session_id : Text
  pub name : Text
  pub best_difficulty : ℕ
  pub hash_rate : ℕ
  pub start_time : ℕ
  pub last_seen : ℕ

abbrev pub summary_of : ClientRow → WorkerSummary
summary_of r = record {
  session_id = r.key.session_id;
  name = r.key.client_name;
  best_difficulty = r.best_difficulty;
  hash_rate = r.hash_rate;
  start_time = r.start_time;
  last_seen = r.updated_at;
}

pub record ClientInfo : Type 0 where
  pub best_difficulty : Option ℕ
  pub workers_count : ℕ
  pub workers : List WorkerSummary

unfoldable pub get_client_info : ClientService → List SettingsRow → Text → ClientInfo
get_client_info clients settings address =
    let workers = get_by_address address clients in
    record {
      best_difficulty = elim (get_settings address false 0 settings).0 [
        | none ↦ none
        | some r ↦ some r.best_difficulty
      ];
      workers_count = length workers;
      workers = map summary_of workers;
    }

-- `ClientController`: the best difficulty of a group is rounded down.
unfoldable pub best_of_group : ℕ → List ClientRow → ℕ
best_of_group pre [] = pre
best_of_group pre (r ∷ rows) =
    best_of_group (if ltb pre r.best_difficulty then r.best_difficulty else pre) rows

pub record GroupInfo : Type 0 where
  pub name : Text
  pub best_difficulty : ℕ
  pub chart_data : List (ℕ × Ratio)

-- None if the chart throws.
unfoldable pub get_worker_group_info :
    DateOf → ℕ → ClientService → Table → Text → Text → Option GroupInfo
get_worker_group_info date_of now clients rows address worker_name =
    get_chart_data_for_group date_of address worker_name now rows >>= λ chart. some (record {
      name = worker_name;
      best_difficulty = best_of_group 0 (get_by_name address worker_name clients) / grain;
      chart_data = chart;
    })

pub record WorkerInfo : Type 0 where
  pub key : Key
  pub best_difficulty : ℕ
  pub chart_data : List (ℕ × Ratio)
  pub start_time : ℕ

-- `some none` is the `NotFoundException` that is returned, `none` the exception of the chart.
unfoldable pub get_worker_info :
    DateOf → ℕ → ClientService → Table → Key → Option (Option WorkerInfo)
get_worker_info date_of now clients rows key = elim (get_by_session_id key clients) [
  | none ↦ some none
  | some worker ↦ get_chart_data_for_session date_of worker.key now rows >>= λ chart. some (
      some (record {
        key = worker.key;
        best_difficulty = worker.best_difficulty / grain;
        chart_data = chart;
        start_time = worker.start_time;
      }))
]
