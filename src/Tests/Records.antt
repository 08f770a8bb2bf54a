-- ===== src/Tests/Records.antt =====
-- The theorems on the settings of addresses and on the tasks at concrete inputs.
use hc_pool.Base.{ℕ, ◌≡◌, refl, true, none, some, List, [], ◌∷◌, minimum, maximum, arith}
use hc_pool.Base.Text.{Text, codes, text_eq}
use hc_pool.NodeRpc.Templates.{RpcBlock, Repository}
use hc_pool.Orm.AddressSettings.{
  SettingsRow, default_row, find_settings, get_settings, write_if_above, get_high_scores,
}
use hc_pool.Orm.AddressSettings.Best.{
  Offer, offer_all, best_of, best_offer, offer_all-best, offers_race,
}
use hc_pool.Orm.AddressSettings.Scores.{count_scores, count_rows, Descend, get_high_scores-best}
use hc_pool.Orm.ClientStatistics.{StatisticsRow, chart_slots}
use hc_pool.Tasks.{purge_statistics, kill_clients, Tables}
use hc_pool.Tasks.Purge.{run_tasks, run_tasks-chart}

abbrev settings : List SettingsRow
settings =
    record (default_row (codes "a") 1000) { best_difficulty = 7 }
    ∷ record (default_row (codes "b") 2000) { best_difficulty = 9 }
    ∷ []

abbrev offer : Text → ℕ → Offer
offer address difficulty = record {
  address = address;
  difficulty = difficulty;
  user_agent = codes "bitaxe";
  now = 3000;
}

abbrev offers : List Offer
offers =
    offer (codes "a") 5 ∷ offer (codes "c") 4 ∷ offer (codes "a") 20 ∷ offer (codes "a") 12 ∷ []

offer_all-best_example :
    best_of (codes "a") (offer_all offers settings)
    ≡ maximum (best_of (codes "a") settings) (best_offer (codes "a") offers)
offer_all-best_example = offer_all-best (codes "a") offers settings

offers_race_example :
    let read = (get_settings (codes "a") true 3000 settings).0 in
    let written = write_if_above (codes "a") 20 (codes "bitaxe") 3000 read settings in
    best_of (codes "a") (write_if_above (codes "a") 12 (codes "bitaxe") 3000 read written) ≡ 12
unfolding find_settings text_eq
offers_race_example =
    offers_race (codes "a") (codes "bitaxe") 20 12 3000 settings
      (record (default_row (codes "a") 1000) { best_difficulty = 7 }) refl (omega arith)
      (omega arith)

get_high_scores-best_example :
    (count_scores 8 (get_high_scores settings) ≡ minimum 10 (count_rows 8 settings))
    × Descend (get_high_scores settings)
get_high_scores-best_example = get_high_scores-best settings 8

abbrev no_blocks : Repository
no_blocks = record {
  Store = List (ℕ × RpcBlock);
  find_one = λ rows height. none;
  save = λ rows height block. some ((height, block) ∷ rows);
  update = λ rows height text. rows;
  max_height = λ rows. none;
  delete_below = λ rows bound. [];
}

abbrev slot_row : ℕ → StatisticsRow
slot_row time = record {
  key = record { address = codes "a"; client_name = codes "rig"; session_id = codes "2a" };
  time = time;
  shares = 5;
  accepted_count = 1;
  created_at = time;
  updated_at = time;
}

abbrev tables : Tables no_blocks
tables = record {
  statistics = slot_row 600_000 ∷ slot_row 90_000_000 ∷ slot_row 90_600_000 ∷ [];
  clients = record { insert_queue = []; rows = [] };
  blocks = [];
}

run_tasks-chart_example :
    chart_slots
      (λ r. true)
      100_000_000
      (run_tasks no_blocks
        ((purge_statistics, 99_000_000) ∷ (kill_clients, 99_500_000) ∷ [])
        tables).statistics
    ≡ chart_slots (λ r. true) 100_000_000 tables.statistics
run_tasks-chart_example =
    run_tasks-chart no_blocks (λ r. true)
      ((purge_statistics, 99_000_000) ∷ (kill_clients, 99_500_000) ∷ []) 100_000_000 tables
      (omega arith, (omega arith, tt))
