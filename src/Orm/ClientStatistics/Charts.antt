-- ===== src/Orm/ClientStatistics/Charts.antt =====
-- What the charts of src/ORM/client-statistics/client-statistics.service.ts show.
use hc_pool.Base.{
  ℕ, zero, suc, ◌+◌, ◌-◌, ◌≤◌, ◌<◌, ◌≡◌, refl, ◌∙◌, Bool, ◌&&◌, inl, inr, List, [], ◌∷◌, length,
  take, if◌then◌else◌, ltb, ◌==◌, Bool-cases, length-take, arith,
}
use hc_pool.Orm.ClientStatistics.{
  StatisticsRow, Table, where_rows, add_to_slot, group_by_time, chart_slots, day,
}

-- The shares of all rows with a time that pass a test.
pub sum_at : (StatisticsRow → Bool) → ℕ → Table → ℕ
sum_at test time [] = 0
sum_at test time (r ∷ rows) =
    (if test r && r.time == time then r.shares else 0) + sum_at test time rows

-- Times that increase from a bound, which none reaches.
abbrev pub Increasing : ℕ → List (ℕ × ℕ) → Type 0
Increasing low [] = Unit {0}
Increasing low ((t, s) ∷ slots) = (low < t) × Increasing t slots

-- Each slot has the shares that a function gives for its time.
abbrev pub Totals : (ℕ → ℕ) → List (ℕ × ℕ) → Type 0
Totals f [] = Unit {0}
Totals f ((t, s) ∷ slots) = (s ≡ f t) × Totals f slots

value_at : ℕ → List (ℕ × ℕ) → ℕ
value_at time [] = 0
value_at time ((t, s) ∷ slots) = if t == time then s else value_at time slots

add_to_slot-Increasing :
    (low time shares : ℕ) (slots : List (ℕ × ℕ))
    → low < time
    → Increasing low slots
    → Increasing low (add_to_slot time shares slots)
unfolding add_to_slot
add_to_slot-Increasing low time shares [] h k = (h, tt)
add_to_slot-Increasing low time shares ((t, s) ∷ slots) h (k, ks) =
    ground (arith, add_to_slot-Increasing t time shares slots, ks)

value_at-below :
    (low u : ℕ) (slots : List (ℕ × ℕ)) → Increasing low slots → u ≤ low → value_at u slots ≡ 0
unfolding value_at
value_at-below low u [] h k = refl
value_at-below low u ((t, s) ∷ slots) (h, hs) k = ground (arith, value_at-below t u slots hs)

add_to_slot-value :
    (low time shares u : ℕ) (slots : List (ℕ × ℕ))
    → Increasing low slots
    → value_at u (add_to_slot time shares slots)
      ≡ (if time == u then shares else 0) + value_at u slots
unfolding add_to_slot value_at
add_to_slot-value low time shares u [] h = ground arith
add_to_slot-value low time shares u ((t, s) ∷ slots) (h, hs) = elim (Bool-cases (time == t)) [
  | inl same ↦ rw same (ground (arith, value_at-below t u slots hs))
  | inr other ↦ elim (Bool-cases (ltb time t)) [
    | inl before ↦ rw (other, before) (ground (arith, value_at-below t u slots hs))
    | inr behind ↦ rw (other, behind) (ground (arith, add_to_slot-value t time shares u slots hs))
  ]
]

-- All rows have times above a bound.
abbrev Above : ℕ → Table → Type 0
Above low [] = Unit {0}
Above low (r ∷ rows) = (low < r.time) × Above low rows

group_by_time-Increasing :
    (low : ℕ) (rows : Table) → Above low rows → Increasing low (group_by_time rows)
unfolding group_by_time
group_by_time-Increasing low [] h = tt
group_by_time-Increasing low (r ∷ rows) (h, hs) =
    add_to_slot-Increasing low r.time r.shares (group_by_time rows) h
      (group_by_time-Increasing low rows hs)

chart_test : (StatisticsRow → Bool) → ℕ → StatisticsRow → Bool
chart_test test low r = test r && ltb low r.time

where_rows-Above :
    (test : StatisticsRow → Bool) (low : ℕ) (rows : Table)
    → Above low (where_rows (chart_test test low) rows)
unfolding where_rows chart_test
where_rows-Above test low [] = tt
where_rows-Above test low (r ∷ rows) = elim (Bool-cases (test r && ltb low r.time)) [
  | inl shown ↦ rw shown (ground arith, where_rows-Above test low rows)
  | inr hidden ↦ rw hidden (where_rows-Above test low rows)
]

group_by_time-value :
    (test : StatisticsRow → Bool) (low u : ℕ) (rows : Table)
    → low < u
    → value_at u (group_by_time (where_rows (chart_test test low) rows)) ≡ sum_at test u rows
unfolding where_rows chart_test group_by_time sum_at value_at
group_by_time-value test low u [] h = refl
group_by_time-value test low u (r ∷ rows) h =
    let shown = where_rows (chart_test test low) rows in
    let grown =
      add_to_slot-value low r.time r.shares u (group_by_time shown)
        (group_by_time-Increasing low shown (where_rows-Above test low rows)) in
    elim (Bool-cases (test r && ltb low r.time)) [
      | inl counted ↦ rw counted (ground (arith, grown, group_by_time-value test low u rows))
      | inr hidden ↦ rw hidden (ground (arith, group_by_time-value test low u rows))
    ]

Totals-agree :
    (f g : ℕ → ℕ) (low : ℕ) (slots : List (ℕ × ℕ))
    → ((t : ℕ) → low < t → f t ≡ g t)
    → Increasing low slots
    → Totals f slots
    → Totals g slots
Totals-agree f g low [] e h k = tt
Totals-agree f g low ((t, s) ∷ slots) e (h, hs) (k, ks) =
    (k ∙ e t h, Totals-agree f g t slots (λ u l. e u (omega arith)) hs ks)

value_at-Totals :
    (low : ℕ) (slots : List (ℕ × ℕ)) → Increasing low slots → Totals (λ t. value_at t slots) slots
unfolding value_at
value_at-Totals low [] h = tt
value_at-Totals low ((t, s) ∷ slots) (h, hs) = (
  ground arith,
  Totals-agree (λ u. value_at u slots) (λ u. value_at u ((t, s) ∷ slots)) t slots
      (λ u l. ground arith) hs (value_at-Totals t slots hs),
)

take-kept :
    (f : ℕ → ℕ) (n low : ℕ) (slots : List (ℕ × ℕ))
    → Increasing low slots × Totals f slots
    → Increasing low (take n slots) × Totals f (take n slots)
take-kept f zero low slots h = (tt, tt)
take-kept f (suc n) low [] h = (tt, tt)
take-kept f (suc n) low ((t, s) ∷ slots) ((h, hs), (k, ks)) =
    let (more, kept) = take-kept f n t slots (hs, ks) in ((h, more), (k, kept))

-- The query of a chart selects at most 144 slots, all of the last day and each later than the one
-- before, and a slot has the shares of all rows of its time that the chart is about: none is counted
-- twice or left out.
pub chart_slots-Totals :
    (test : StatisticsRow → Bool) (now : ℕ) (rows : Table)
    → (length (chart_slots test now rows) ≤ 144)
      × Increasing (now - day) (chart_slots test now rows)
      × Totals (λ t. sum_at test t rows) (chart_slots test now rows)
unfolding chart_slots chart_test
chart_slots-Totals test now rows =
    let low = now - day in
    let grouped = group_by_time (where_rows (chart_test test low) rows) in
    let ordered =
      group_by_time-Increasing low (where_rows (chart_test test low) rows)
        (where_rows-Above test low rows) in
    let totals =
      Totals-agree (λ t. value_at t grouped) (λ t. sum_at test t rows) low grouped
        (λ t h. group_by_time-value test low t rows h) ordered
        (value_at-Totals low grouped ordered) in
    let (increasing, summed) =
      take-kept (λ t. sum_at test t rows) 144 low grouped (ordered, totals) in
    (omega (arith, length-take 144 grouped), increasing, summed)
