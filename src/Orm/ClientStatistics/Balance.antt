-- ===== src/Orm/ClientStatistics/Balance.antt =====
-- What the database knows of a session's shares, over the writes of
-- src/models/StratumV1ClientStatistics.ts to the table of
-- src/ORM/client-statistics/client-statistics.service.ts.
use hc_pool.Base.{
  ℕ, ◌⊎◌, ◌+◌, ◌-◌, ◌≤◌, ◌<◌, ◌≡◌, ◌≢◌, refl, ap, ◌∙◌, inl, inr, none, some, List, [], ◌∷◌, ◌==◌,
  ==_iff, Bool-cases, arith,
}
use native.Mathlib.Nat.{add_assoc, add-zero}
use hc_pool.Statistics.{
  Statistics, Row, Write, first_share, next_slot, same_slot, add_shares, slot_of,
}
use hc_pool.Statistics
use hc_pool.Statistics.Slots.{credited}
use hc_pool.Orm.ClientStatistics.{Key, Table, update, insert}
use hc_pool.Orm.ClientStatistics.Ledger.{
  sum_key, sum_slot, count_slot, sum_key-update, sum_slot-update, count_slot-update,
  sum_slot-absent, inserted,
}

-- The rows of a session's statistics go to the table with its key.
pub apply_writes : Key → ℕ → List Write → Table → Table
apply_writes key now [] rows = rows
apply_writes key now (Write.insert r ∷ ws) rows =
    apply_writes key now ws (insert key r.time r.shares r.accepted_count now rows)
apply_writes key now (Write.update r ∷ ws) rows =
    apply_writes key now ws (update key r.time r.shares r.accepted_count now rows)

-- The shares of a session, a time and a difficulty each, with all that they write.
pub record_shares : Key → List (ℕ × ℕ) → Statistics × Table → Statistics × Table
record_shares key [] (s, rows) = (s, rows)
record_shares key ((now, d) ∷ shares) (s, rows) =
    let (s', ws) = add_shares now d s in record_shares key shares (s', apply_writes key now ws rows)

-- Each time is at least the one before.
abbrev pub InOrder : ℕ → List (ℕ × ℕ) → Type 0
InOrder last [] = Unit {0}
InOrder last ((now, d) ∷ shares) = (last ≤ now) × InOrder now shares

-- The table after some shares: one row for the running slot, which may be behind, none for a later
-- one, and in the rows all the shares but those that it is behind.
pub record Balanced (key : Key) (last total : ℕ) (s : Statistics) (rows : Table) : Type 0 where
  pub slot : ℕ
  pub current : s.current_time_slot ≡ some slot
  pub recent : slot ≡ slot_of last
  pub one : count_slot key slot rows ≡ 1
  pub later : (t : ℕ) → slot < t → count_slot key t rows ≡ 0
  pub behind : sum_slot key slot rows ≤ s.shares
  pub whole : sum_key key rows + s.shares ≡ total + sum_slot key slot rows

-- No row of the table is the session's.
pub record Unused (key : Key) (rows : Table) : Type 0 where
  pub empty : sum_key key rows ≡ 0
  pub absent : (t : ℕ) → count_slot key t rows ≡ 0

abbrev row : ℕ → ℕ → ℕ → Row
row time shares accepted_count = record {
  time = time;
  shares = shares;
  accepted_count = accepted_count;
}

-- The three ways in which a share is recorded.
module _ (now d : ℕ) (s : Statistics) where
  first_writes :
      let r = add_shares now d s in
      s.current_time_slot ≡ none
      → (r.0.current_time_slot ≡ some (slot_of now))
        × (r.0.shares ≡ s.shares + d)
        × (r.1 ≡ Write.insert (row (slot_of now) (s.shares + d) (s.accepted_count + 1)) ∷ [])
  unfolding add_shares first_share
  first_writes e = ground (arith, e)

  same_writes :
      let r = add_shares now d s in
      s.current_time_slot ≡ some (slot_of now)
      → (r.0.current_time_slot ≡ some (slot_of now))
        × (r.0.shares ≡ s.shares + d)
        × ((r.1 ≡ [])
            ⊎ (r.1 ≡ Write.update (row (slot_of now) (s.shares + d) (s.accepted_count + 1)) ∷ []))
  unfolding add_shares same_slot
  same_writes e = ground (arith, e)

  next_writes :
      (slot : ℕ)
      → let r = add_shares now d s in
        s.current_time_slot ≡ some slot
        → slot ≢ slot_of now
        → (r.0.current_time_slot ≡ some (slot_of now))
          × (r.0.shares ≡ d)
          × (r.1
              ≡ Write.update (row slot s.shares s.accepted_count)
                ∷ Write.insert (row (slot_of now) d 1)
                ∷ [])
  unfolding add_shares next_slot
  next_writes slot e h = ground (arith, e)

slot_of_mono : (a b : ℕ) → a ≤ b → slot_of a ≤ slot_of b
slot_of_mono a b h = omega arith

module _ (key : Key) (now : ℕ) (s' : Statistics)
    (current : s'.current_time_slot ≡ some (slot_of now)) where
  -- After an insertion of the running slot.
  insert-Balanced :
      (total shares accepted : ℕ) (rows : Table)
      → s'.shares ≡ shares
      → ((t : ℕ) → slot_of now ≤ t → count_slot key t rows ≡ 0)
      → sum_slot key (slot_of now) rows ≡ 0
      → sum_key key rows + shares ≡ total
      → Balanced key now total s' (insert key (slot_of now) shares accepted now rows)
  insert-Balanced total shares accepted rows same none_later free whole =
      let i = inserted key (slot_of now) shares accepted now rows in
      record {
        slot = slot_of now;
        current = current;
        recent = refl;
        one = ground (arith, i.2 (slot_of now), none_later (slot_of now));
        later = λ t h. ground (arith, i.2 t, none_later t);
        behind = omega (arith, i, same, free);
        whole = omega (arith, i, same, free, whole);
      }

  -- After an update of the running slot.
  update-Balanced :
      (total shares accepted : ℕ) (rows : Table)
      → s'.shares ≡ shares
      → count_slot key (slot_of now) rows ≡ 1
      → ((t : ℕ) → slot_of now < t → count_slot key t rows ≡ 0)
      → sum_key key rows + shares ≡ total + sum_slot key (slot_of now) rows
      → Balanced key now total s' (update key (slot_of now) shares accepted now rows)
  update-Balanced total shares accepted rows same one later whole =
      let key_sum = rw one at (sum_key-update key (slot_of now) shares accepted now rows) in
      let slot_sum = rw one at (sum_slot-update key (slot_of now) shares accepted now rows) in
      let count = count_slot-update key (slot_of now) shares accepted now in
      record {
        slot = slot_of now;
        current = current;
        recent = refl;
        one = count (slot_of now) rows ∙ one;
        later = λ t h. count t rows ∙ later t h;
        behind = omega (arith, slot_sum, same);
        whole = omega (arith, key_sum, slot_sum, same, whole);
      }

module _ (key : Key) where
  first-Balanced :
      (now d : ℕ) (s : Statistics) (rows : Table)
      → s.current_time_slot ≡ none
      → s.shares ≡ 0
      → Unused key rows
      → let r = add_shares now d s in Balanced key now d r.0 (apply_writes key now r.1 rows)
  unfolding apply_writes
  first-Balanced now d s rows e z u =
      let (current, shares, writes) = first_writes now d s e in
      rw writes (
        insert-Balanced key now (add_shares now d s).0 current d (s.shares + d)
          (s.accepted_count + 1) rows shares (λ t h. u.absent t)
          (sum_slot-absent key (slot_of now) rows (u.absent (slot_of now)))
          (omega (arith, u.empty, z)))

  same-Balanced :
      (last total now d : ℕ) (s : Statistics) (rows : Table) (b : Balanced key last total s rows)
      → b.slot ≡ slot_of now
      → let r = add_shares now d s in
        Balanced key now (total + d) r.0 (apply_writes key now r.1 rows)
  unfolding apply_writes
  same-Balanced last total now d s rows b e =
      let (current, shares, writes) = same_writes now d s (b.current ∙ ap some e) in
      let one = rw e at b.one in
      let later = rw e at b.later in
      let whole : sum_key key rows + (s.shares + d) ≡ total + d + sum_slot key (slot_of now) rows =
        omega (arith, rw e at b.whole) in
      elim writes [
        | inl nothing ↦ rw nothing (record {
          slot = slot_of now;
          current = current;
          recent = refl;
          one = one;
          later = later;
          behind = omega (arith, rw e at b.behind, shares);
          whole = omega (arith, whole, shares);
        })
        | inr saved ↦ rw saved (
            update-Balanced key now (add_shares now d s).0 current (total + d) (s.shares + d)
              (s.accepted_count + 1) rows shares one later whole)
      ]

  next-Balanced :
      (last total now d : ℕ) (s : Statistics) (rows : Table) (b : Balanced key last total s rows)
      → last ≤ now
      → b.slot ≢ slot_of now
      → let r = add_shares now d s in
        Balanced key now (total + d) r.0 (apply_writes key now r.1 rows)
  unfolding apply_writes
  next-Balanced last total now d s rows b h e =
      let (current, shares, writes) = next_writes now d s b.slot b.current e in
      let rows1 = update key b.slot s.shares s.accepted_count now rows in
      let key_sum = rw b.one at (sum_key-update key b.slot s.shares s.accepted_count now rows) in
      let absent : (t : ℕ) → slot_of now ≤ t → count_slot key t rows1 ≡ 0 = λ t g.
        count_slot-update key b.slot s.shares s.accepted_count now t rows
        ∙ b.later t (ground (arith, e, b.recent, slot_of_mono last now h)) in
      rw writes (
        insert-Balanced key now (add_shares now d s).0 current (total + d) d 1 rows1 shares absent
          (sum_slot-absent key (slot_of now) rows1 (absent (slot_of now) (omega arith)))
          (omega (arith, key_sum, b.whole)))

  step-Balanced :
      (last total now d : ℕ) (s : Statistics) (rows : Table)
      → last ≤ now
      → Balanced key last total s rows
      → let r = add_shares now d s in
        Balanced key now (total + d) r.0 (apply_writes key now r.1 rows)
  step-Balanced last total now d s rows h b = elim (Bool-cases (b.slot == slot_of now)) [
    | inl e ↦ same-Balanced last total now d s rows b ((==_iff b.slot (slot_of now)).0 e)
    | inr e ↦
        next-Balanced last total now d s rows b h
          (λ same. cc ((==_iff b.slot (slot_of now)).1 same, e))
  ]

  -- The last share of a list that starts at `last`.
  last_of : ℕ → List (ℕ × ℕ) → ℕ
  last_of last [] = last
  last_of last ((now, d) ∷ shares) = last_of now shares

  record_shares-Balanced :
      (last total : ℕ) (shares : List (ℕ × ℕ)) (s : Statistics) (rows : Table)
      → InOrder last shares
      → Balanced key last total s rows
      → let r = record_shares key shares (s, rows) in
        Balanced key (last_of last shares) (total + credited shares) r.0 r.1
  unfolding record_shares last_of credited
  record_shares-Balanced last total [] s rows h b = rw (add-zero) b
  record_shares-Balanced last total ((now, d) ∷ shares) s rows (h, hs) b =
      let r = add_shares now d s in
      rw (← add_assoc total d (credited shares)) (
        record_shares-Balanced now (total + d) shares r.0 (apply_writes key now r.1 rows) hs
          (step-Balanced last total now d s rows h b))

-- For a session whose key is new to the table and whose shares come in the order of their times:
-- its rows in the table add up to the difficulty of all its shares, but for what the row of the
-- running slot is behind the session's own count; that row is never ahead of it. The numbers are
-- exact: the rounding of the column to a float of 4 bytes is not part of it, and no write fails.
pub record_shares-total :
    (key : Key) (target min_diff start now d : ℕ) (shares : List (ℕ × ℕ)) (rows : Table)
    → Unused key rows
    → InOrder now shares
    → let r = record_shares key ((now, d) ∷ shares) (Statistics.new target min_diff start, rows) in
      (slot : ℕ) × (r.0.current_time_slot ≡ some slot)
      × (sum_slot key slot r.1 ≤ r.0.shares)
      × (sum_key key r.1 + (r.0.shares - sum_slot key slot r.1) ≡ credited ((now, d) ∷ shares))
unfolding record_shares credited
record_shares-total key target min_diff start now d shares rows u h =
    let s = Statistics.new target min_diff start in
    let r = add_shares now d s in
    let b = record_shares-Balanced key now d shares r.0 (apply_writes key now r.1 rows) h (
      first-Balanced key now d s rows (unfold Statistics.new in refl)
        (unfold Statistics.new in refl) u) in
    (b.slot, b.current, b.behind, omega (arith, b.behind, b.whole))
