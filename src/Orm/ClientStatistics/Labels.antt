-- ===== src/Orm/ClientStatistics/Labels.antt =====
-- The labels of the charts of src/ORM/client-statistics/client-statistics.service.ts.
use hc_pool.Base.{
  ℕ, ◌^◌, ◌-◌, ◌≤◌, ◌<◌, ◌≡◌, ◌↔◌, refl, none, List, [], ◌∷◌, map, length, true, Bool, arith,
}
use hc_pool.Base.Text.{Text}
use hc_pool.Difficulty.{Ratio}
use hc_pool.Orm.ClientStatistics.{
  Key, StatisticsRow, Table, chart_slots, day, DateOf, with_dates, chart_of, drop_last,
  rate_of_slot, rounded_rate_of_slot, of_address, of_group, of_session, get_chart_data_for_site,
  get_chart_data_for_address, get_chart_data_for_group, get_chart_data_for_session,
}
use hc_pool.Orm.ClientStatistics.Charts.{Increasing, chart_slots-Totals}

-- The text of 13 or more digits is no date.
abbrev pub RefusesDigits : DateOf → Type 0
RefusesDigits date_of = (time : ℕ) → 10 ^ 12 ≤ time → date_of time ≡ none

chart_of-throws_iff :
    (date_of : DateOf) (rate : ℕ × ℕ → ℕ × Ratio) (low : ℕ) (slots : List (ℕ × ℕ))
    → ((slot : ℕ × ℕ) → (rate slot).0 ≡ slot.0)
    → RefusesDigits date_of
    → 10 ^ 12 ≤ low
    → Increasing low slots
    → (chart_of date_of (map rate slots) ≡ none) ↔ (0 < length slots)
unfolding chart_of with_dates drop_last
chart_of-throws_iff date_of rate low [] same refuses h k = ground arith
chart_of-throws_iff date_of rate low ((t, s) ∷ slots) same refuses h (k, ks) =
    rw (same (t, s), refuses t (omega (arith, h, k))) (ground arith)

-- The chart of the site, of an address, of a group and of a session each throw as soon as their
-- query has a row, and only then: where `time` comes back as the text of its digits, no label is a
-- date. Conditions: a text of 13 or more digits is no date, and the last day began at least 10^12
-- milliseconds after 1970, which is in September 2001.
pub get_chart_data-throws_iff :
    (date_of : DateOf) (now : ℕ) (address client_name : Text) (key : Key) (rows : Table)
    → RefusesDigits date_of
    → 10 ^ 12 ≤ now - day
    → ((get_chart_data_for_site date_of now rows ≡ none)
        ↔ (0 < length (chart_slots (λ r. true) now rows)))
      × ((get_chart_data_for_address date_of address now rows ≡ none)
          ↔ (0 < length (chart_slots (of_address address) now rows)))
      × ((get_chart_data_for_group date_of address client_name now rows ≡ none)
          ↔ (0 < length (chart_slots (of_group address client_name) now rows)))
      × ((get_chart_data_for_session date_of key now rows ≡ none)
          ↔ (0 < length (chart_slots (of_session key) now rows)))
unfolding get_chart_data_for_site get_chart_data_for_address get_chart_data_for_group
    get_chart_data_for_session
get_chart_data-throws_iff date_of now address client_name key rows refuses h =
    let throws =
      λ (rate : ℕ × ℕ → ℕ × Ratio) (same : (slot : ℕ × ℕ) → (rate slot).0 ≡ slot.0)
          (test : StatisticsRow → Bool).
        chart_of-throws_iff date_of rate (now - day) (chart_slots test now rows) same refuses h
          (chart_slots-Totals test now rows).1 in
    (
      throws rounded_rate_of_slot (λ s. refl) (λ r. true),
      throws rate_of_slot (λ s. refl) (of_address address),
      throws rate_of_slot (λ s. refl) (of_group address client_name),
      throws rate_of_slot (λ s. refl) (of_session key),
    )
