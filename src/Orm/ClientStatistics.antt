-- ===== src/Orm/ClientStatistics.antt =====
-- src/ORM/client-statistics/client-statistics.service.ts: the rows of the time slots, the charts and
-- the hash rates that are computed from them. Shares are in grains.
pub mod Ledger
pub mod Balance
pub mod Charts
pub mod Labels
use mathlib.Core.List.{filter}
use hc_pool.Base.{
  ℕ, zero, suc, ◌+◌, ◌-◌, ◌*◌, ◌/◌, Bool, true, false, not, ◌&&◌, Option, none, some, List, [], ◌∷◌,
  ◌++◌, map, length, take, ltb, leb, ◌==◌, if◌then◌else◌, maximum,
}
use hc_pool.Base.Text.{Text, text_eq}
use hc_pool.Bucket.{grain}
use hc_pool.Difficulty.{Ratio, infinity, ratio}

-- The address, the client's name and the session that a row belongs to.
pub record Key : Type 0 where
  pub address : Text
  pub client_name : Text
  pub session_id : Text

unfoldable pub key_eq : Key → Key → Bool
key_eq a b =
    text_eq a.address b.address
    && (text_eq a.client_name b.client_name && text_eq a.session_id b.session_id)

-- `ClientStatisticsEntity`. The column of the shares is a Postgres `real`, whose rounding to a float
-- of 4 bytes is not modelled: the numbers that are read back are those that were written.
pub record StatisticsRow : Type 0 where
  pub key : Key
  pub time : ℕ
  pub shares : ℕ
  pub accepted_count : ℕ
  pub created_at : ℕ
  pub updated_at : ℕ

abbrev pub Table : Type 0
Table = List StatisticsRow

-- The rows for which a test holds.
unfoldable pub where_rows : (StatisticsRow → Bool) → Table → Table
where_rows test [] = []
where_rows test (r ∷ rows) = let rest = where_rows test rows in if test r then r ∷ rest else rest

abbrev pub is_row : Key → ℕ → StatisticsRow → Bool
is_row key time r = key_eq r.key key && r.time == time

-- `update`: every row of the session with this time.
unfoldable pub update : Key → ℕ → ℕ → ℕ → ℕ → Table → Table
update key time shares accepted_count now [] = []
update key time shares accepted_count now (r ∷ rows) =
    (if is_row key time r
      then record r { shares = shares; accepted_count = accepted_count; updated_at = now }
      else r)
    ∷ update key time shares accepted_count now rows

-- `insert`: the database writes both times.
unfoldable pub insert : Key → ℕ → ℕ → ℕ → ℕ → Table → Table
insert key time shares accepted_count now rows =
    record {
      key = key;
      time = time;
      shares = shares;
      accepted_count = accepted_count;
      created_at = now;
      updated_at = now;
    }
    ∷ rows

abbrev pub day : ℕ
day = 24 * 60 * 60 * 1000

-- `deleteOldStatistics` at the time `now`, which is at least a day.
unfoldable pub delete_old_statistics : ℕ → Table → Table
delete_old_statistics now = where_rows (λ r. leb (now - day) r.time)

unfoldable pub delete_all : Table → Table
delete_all rows = []

-- `SELECT time, SUM(shares) ... GROUP BY time ORDER BY time`, one row after another.
unfoldable pub add_to_slot : ℕ → ℕ → List (ℕ × ℕ) → List (ℕ × ℕ)
add_to_slot time shares [] = (time, shares) ∷ []
add_to_slot time shares ((t, s) ∷ slots) =
    if time == t
    then (t, s + shares) ∷ slots
    else if ltb time t
    then (time, shares) ∷ (t, s) ∷ slots
    else (t, s) ∷ add_to_slot time shares slots

unfoldable pub group_by_time : Table → List (ℕ × ℕ)
group_by_time [] = []
group_by_time (r ∷ rows) = add_to_slot r.time r.shares (group_by_time rows)

-- `slice(0, length - 1)`
unfoldable pub drop_last {ℓ} : {A : Type ℓ} → List A → List A
drop_last [] = []
drop_last (x ∷ []) = []
drop_last (x ∷ y ∷ xs) = x ∷ drop_last (y ∷ xs)

-- A point of a chart: its time, and the hash rate of the slot.
abbrev pub rate_of_slot : ℕ × ℕ → ℕ × Ratio
rate_of_slot (time, shares) = (time, ratio (shares * 4_294_967_296) (600 * grain))

-- `ROUND(...)`, a half up
abbrev pub rounded_rate_of_slot : ℕ × ℕ → ℕ × Ratio
rounded_rate_of_slot (time, shares) =
    (time, ratio ((shares * 4_294_967_296 * 2 + 600 * grain) / (2 * 600 * grain)) 1)

-- The rows of a chart's query: at most 144 slots of the last day.
unfoldable pub chart_slots : (StatisticsRow → Bool) → ℕ → Table → List (ℕ × ℕ)
chart_slots test now rows =
    take 144 (group_by_time (where_rows (λ r. test r && ltb (now - day) r.time) rows))

-- What `new Date(label).toISOString()` gives for a label as the driver returns it, which for a
-- bigint is the text of its digits; `none` is the exception on a text that is no date.
abbrev pub DateOf : Type 0
DateOf = ℕ → Option ℕ

-- `result.map(...)`, which throws at the first label that is no date.
unfoldable pub with_dates : DateOf → List (ℕ × Ratio) → Option (List (ℕ × Ratio))
with_dates date_of [] = some []
with_dates date_of ((time, rate) ∷ slots) = elim (date_of time) [
  | none ↦ none
  | some date ↦ elim (with_dates date_of slots) [
    | none ↦ none
    | some points ↦ some ((date, rate) ∷ points)
  ]
]

-- The conversion of a query's rows, and `slice(0, result.length - 1)` behind it.
unfoldable pub chart_of : DateOf → List (ℕ × Ratio) → Option (List (ℕ × Ratio))
chart_of date_of slots = elim (with_dates date_of slots) [
  | none ↦ none
  | some points ↦ some (drop_last points)
]

unfoldable pub get_chart_data_for_site : DateOf → ℕ → Table → Option (List (ℕ × Ratio))
get_chart_data_for_site date_of now rows =
    chart_of date_of (map rounded_rate_of_slot (chart_slots (λ r. true) now rows))

abbrev pub of_address : Text → StatisticsRow → Bool
of_address address r = text_eq r.key.address address

unfoldable pub get_chart_data_for_address : DateOf → Text → ℕ → Table → Option (List (ℕ × Ratio))
get_chart_data_for_address date_of address now rows =
    chart_of date_of (map rate_of_slot (chart_slots (of_address address) now rows))

abbrev pub of_group : Text → Text → StatisticsRow → Bool
of_group address client_name r =
    text_eq r.key.address address && text_eq r.key.client_name client_name

unfoldable pub get_chart_data_for_group :
    DateOf → Text → Text → ℕ → Table → Option (List (ℕ × Ratio))
get_chart_data_for_group date_of address client_name now rows =
    chart_of date_of (map rate_of_slot (chart_slots (of_group address client_name) now rows))

abbrev pub of_session : Key → StatisticsRow → Bool
of_session key r = key_eq r.key key

unfoldable pub get_chart_data_for_session : DateOf → Key → ℕ → Table → Option (List (ℕ × Ratio))
get_chart_data_for_session date_of key now rows =
    chart_of date_of (map rate_of_slot (chart_slots (of_session key) now rows))

-- `ORDER BY time DESC LIMIT 2`: the latest row and the one before it.
unfoldable pub latest_two : Table → Table
latest_two [] = []
latest_two (r ∷ rows) = elim (latest_two rows) [
  | [] ↦ r ∷ []
  | a ∷ more ↦ if leb a.time r.time then r ∷ a ∷ [] else elim more [
    | [] ↦ a ∷ r ∷ []
    | b ∷ others ↦ if leb b.time r.time then a ∷ r ∷ [] else a ∷ b ∷ []
  ]
]

-- The rate of shares since a row was created, none in the first minute.
abbrev pub rate_since : ℕ → ℕ → ℕ → Ratio
rate_since shares created updated =
    let time = updated - created in
    if ltb time 60_000 then ratio 0 1 else ratio (shares * 4_294_967_296 * 1000) (time * grain)

unfoldable pub get_hash_rate_for_session : Key → Table → Ratio
get_hash_rate_for_session key rows = elim (latest_two (where_rows (λ r. key_eq r.key key) rows)) [
  | [] ↦ ratio 0 1
  | latest ∷ [] ↦ rate_since latest.shares latest.created_at latest.updated_at
  | latest ∷ second ∷ _ ↦
      rate_since (latest.shares + second.shares) second.created_at latest.updated_at
]

pub sum_shares : Table → ℕ
sum_shares [] = 0
sum_shares (r ∷ rows) = r.shares + sum_shares rows

pub sum_accepted : Table → ℕ
sum_accepted [] = 0
sum_accepted (r ∷ rows) = r.accepted_count + sum_accepted rows

unfoldable pub max_time : Table → Option ℕ
max_time [] = none
max_time (r ∷ rows) = elim (max_time rows) [ none ↦ some r.time | some t ↦ some (maximum r.time t) ]

pub record ShareSnapshot : Type 0 where
  pub window_minutes : ℕ
  pub accepted_count : ℕ
  pub shares : ℕ
  pub estimated_hash_rate : Ratio
  pub latest_time : Option ℕ

-- `getShareSnapshot`, for a whole number of minutes.
unfoldable pub get_share_snapshot : ℕ → ℕ → Table → ShareSnapshot
get_share_snapshot minutes now rows =
    let window_minutes = maximum minutes 1 in
    let since = now - window_minutes * 60 * 1000 in
    let recent = where_rows (λ r. leb since r.time) rows in
    record {
      window_minutes = window_minutes;
      accepted_count = sum_accepted recent;
      shares = sum_shares recent;
      estimated_hash_rate = ratio (sum_shares recent * 4_294_967_296) (window_minutes * 60 * grain);
      latest_time = max_time recent;
    }
