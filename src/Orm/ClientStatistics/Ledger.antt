-- ===== src/Orm/ClientStatistics/Ledger.antt =====
-- The shares of a session (src/models/StratumV1ClientStatistics.ts) against the rows that they leave
-- in the table (src/ORM/client-statistics/client-statistics.service.ts).
use hc_pool.Base.{ℕ, ◌+◌, ◌*◌, ◌≡◌, refl, true, [], ◌∷◌, if◌then◌else◌, ◌==◌, arith}
use hc_pool.Base.Text.{text_eq_refl}
use hc_pool.Orm.ClientStatistics.{Key, key_eq, Table, is_row, update, insert}

-- The rows of a session, and those of one of its slots.
unfoldable pub sum_key : Key → Table → ℕ
sum_key key [] = 0
sum_key key (r ∷ rows) = (if key_eq r.key key then r.shares else 0) + sum_key key rows

pub sum_slot : Key → ℕ → Table → ℕ
sum_slot key time [] = 0
sum_slot key time (r ∷ rows) = (if is_row key time r then r.shares else 0) + sum_slot key time rows

unfoldable pub count_slot : Key → ℕ → Table → ℕ
count_slot key time [] = 0
count_slot key time (r ∷ rows) = (if is_row key time r then 1 else 0) + count_slot key time rows

-- A slot without rows has no shares.
pub sum_slot-absent :
    (key : Key) (time : ℕ) (rows : Table)
    → count_slot key time rows ≡ 0
    → sum_slot key time rows ≡ 0
unfolding sum_slot count_slot
sum_slot-absent key time [] h = refl
sum_slot-absent key time (r ∷ rows) h = ground (arith, sum_slot-absent key time rows)

pub key_eq_refl : (key : Key) → key_eq key key ≡ true
unfolding key_eq
key_eq_refl key =
    rw (text_eq_refl key.address, text_eq_refl key.client_name, text_eq_refl key.session_id) refl

module _ (key : Key) (time shares accepted now : ℕ) where
  pub sum_key-update :
      (rows : Table)
      → sum_key key (update key time shares accepted now rows) + sum_slot key time rows
        ≡ sum_key key rows + count_slot key time rows * shares
  unfolding sum_key sum_slot count_slot update
  sum_key-update [] = omega arith
  sum_key-update (r ∷ rows) = grind (arith, sum_key-update rows)

  pub sum_slot-update :
      (rows : Table)
      → sum_slot key time (update key time shares accepted now rows)
        ≡ count_slot key time rows * shares
  unfolding sum_slot count_slot update
  sum_slot-update [] = omega arith
  sum_slot-update (r ∷ rows) = grind (arith, sum_slot-update rows)

  pub count_slot-update :
      (t : ℕ) (rows : Table)
      → count_slot key t (update key time shares accepted now rows) ≡ count_slot key t rows
  unfolding count_slot update
  count_slot-update t [] = refl
  count_slot-update t (r ∷ rows) = grind (arith, count_slot-update t rows)

  pub inserted :
      (rows : Table)
      → let after = insert key time shares accepted now rows in
        (sum_key key after ≡ shares + sum_key key rows)
        × (sum_slot key time after ≡ shares + sum_slot key time rows)
        × ((t : ℕ) → count_slot key t after ≡ (if time == t then 1 else 0) + count_slot key t rows)
  unfolding sum_key sum_slot count_slot insert
  inserted rows = (
    ground (arith, key_eq_refl key),
    ground (arith, key_eq_refl key),
    λ t. ground (arith, key_eq_refl key),
  )
