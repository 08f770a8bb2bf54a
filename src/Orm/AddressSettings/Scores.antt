-- ===== src/Orm/AddressSettings/Scores.antt =====
-- The high scores of src/ORM/address-settings/address-settings.service.ts.
use hc_pool.Base.{
  ℕ, zero, suc, ◌+◌, ◌≤◌, ◌≡◌, ◌<◌, refl, ap, ◌∙◌, inl, inr, Bool-cases, List, [], ◌∷◌, map, take,
  leb, if◌then◌else◌, minimum, arith,
}
use hc_pool.Orm.AddressSettings.{
  SettingsRow, HighScore, score_of, insert_by_best, order_by_best, get_high_scores,
}

-- How many rows, and how many scores, have at least a difficulty.
pub count_rows : ℕ → List SettingsRow → ℕ
count_rows least [] = 0
count_rows least (r ∷ rows) = (if leb least r.best_difficulty then 1 else 0) + count_rows least rows

pub count_scores : ℕ → List HighScore → ℕ
count_scores least [] = 0
count_scores least (s ∷ scores) =
    (if leb least s.best_difficulty then 1 else 0) + count_scores least scores

-- No score is above the one before it, and none is above a bound.
abbrev pub AreBelow : ℕ → List HighScore → Type 0
AreBelow bound [] = Unit {0}
AreBelow bound (s ∷ scores) = (s.best_difficulty ≤ bound) × AreBelow s.best_difficulty scores

abbrev pub Descend : List HighScore → Type 0
Descend [] = Unit {0}
Descend (s ∷ scores) = AreBelow s.best_difficulty scores

abbrev RowsBelow : ℕ → List SettingsRow → Type 0
RowsBelow bound [] = Unit {0}
RowsBelow bound (r ∷ rows) = (r.best_difficulty ≤ bound) × RowsBelow r.best_difficulty rows

abbrev RowsDescend : List SettingsRow → Type 0
RowsDescend [] = Unit {0}
RowsDescend (r ∷ rows) = RowsBelow r.best_difficulty rows

insert_by_best-count :
    (least : ℕ) (a : SettingsRow) (rows : List SettingsRow)
    → count_rows least (insert_by_best a rows) ≡ count_rows least (a ∷ rows)
unfolding count_rows insert_by_best
insert_by_best-count least a [] = refl
insert_by_best-count least a (b ∷ rows) = ground (arith, insert_by_best-count least a rows)

RowsBelow-RowsDescend :
    (bound : ℕ) (rows : List SettingsRow) → RowsBelow bound rows → RowsDescend rows
RowsBelow-RowsDescend bound [] h = tt
RowsBelow-RowsDescend bound (r ∷ rows) (h, hs) = hs

order_by_best-count :
    (least : ℕ) (rows : List SettingsRow)
    → count_rows least (order_by_best rows) ≡ count_rows least rows
unfolding count_rows order_by_best
order_by_best-count least [] = refl
order_by_best-count least (a ∷ rows) =
    omega (arith, insert_by_best-count least a (order_by_best rows), order_by_best-count least rows)

insert_by_best-RowsBelow :
    (bound : ℕ) (a : SettingsRow) (rows : List SettingsRow)
    → a.best_difficulty ≤ bound
    → RowsBelow bound rows
    → RowsBelow bound (insert_by_best a rows)
unfolding insert_by_best
insert_by_best-RowsBelow bound a [] h k = (h, tt)
insert_by_best-RowsBelow bound a (b ∷ rows) h (k, ks) =
    ground (arith, insert_by_best-RowsBelow b.best_difficulty a rows, ks)

insert_by_best-RowsDescend :
    (a : SettingsRow) (rows : List SettingsRow)
    → RowsDescend rows
    → RowsDescend (insert_by_best a rows)
unfolding insert_by_best
insert_by_best-RowsDescend a [] h = tt
insert_by_best-RowsDescend a (b ∷ rows) h =
    ground (arith, insert_by_best-RowsBelow b.best_difficulty a rows, h)

order_by_best-RowsDescend : (rows : List SettingsRow) → RowsDescend (order_by_best rows)
unfolding order_by_best
order_by_best-RowsDescend [] = tt
order_by_best-RowsDescend (a ∷ rows) =
    insert_by_best-RowsDescend a (order_by_best rows) (order_by_best-RowsDescend rows)

count_rows-below :
    (least bound : ℕ) (rows : List SettingsRow)
    → bound < least
    → RowsBelow bound rows
    → count_rows least rows ≡ 0
unfolding count_rows
count_rows-below least bound [] l h = refl
count_rows-below least bound (r ∷ rows) l (h, hs) =
    ground (arith, count_rows-below least r.best_difficulty rows, hs)

take-RowsBelow :
    (bound n : ℕ) (rows : List SettingsRow) → RowsBelow bound rows → RowsBelow bound (take n rows)
take-RowsBelow bound zero rows h = tt
take-RowsBelow bound (suc n) [] h = tt
take-RowsBelow bound (suc n) (r ∷ rows) (h, hs) = (h, take-RowsBelow r.best_difficulty n rows hs)

take-count :
    (least n : ℕ) (rows : List SettingsRow)
    → RowsDescend rows
    → count_rows least (take n rows) ≡ minimum n (count_rows least rows)
unfolding count_rows
take-count least zero rows h = ground arith
take-count least (suc n) [] h = ground arith
take-count least (suc n) (r ∷ rows) h = elim (Bool-cases (leb least r.best_difficulty)) [
  | inl above ↦
      rw above
        (ground (arith, take-count least n rows (RowsBelow-RowsDescend r.best_difficulty rows h)))
  | inr below ↦
      let low : r.best_difficulty < least = ground (arith, below) in
      rw
        (
          below,
          count_rows-below least r.best_difficulty rows low h,
          count_rows-below least r.best_difficulty (take n rows) low
              (take-RowsBelow r.best_difficulty n rows h),
        )
        (ground arith)
]

count_scores-map :
    (least : ℕ) (rows : List SettingsRow)
    → count_scores least (map score_of rows) ≡ count_rows least rows
unfolding count_scores count_rows
count_scores-map least [] = refl
count_scores-map least (r ∷ rows) = omega (arith, count_scores-map least rows)

map-AreBelow :
    (bound : ℕ) (rows : List SettingsRow)
    → RowsBelow bound rows
    → AreBelow bound (map score_of rows)
map-AreBelow bound [] h = tt
map-AreBelow bound (r ∷ rows) (h, hs) = (h, map-AreBelow r.best_difficulty rows hs)

take-Descend :
    (n : ℕ) (rows : List SettingsRow) → RowsDescend rows → Descend (map score_of (take n rows))
take-Descend zero rows h = tt
take-Descend (suc n) [] h = tt
take-Descend (suc n) (r ∷ rows) h =
    map-AreBelow r.best_difficulty (take n rows) (take-RowsBelow r.best_difficulty n rows h)

-- The high scores are the ten best, the best first: for every difficulty as many scores reach it as
-- rows do, up to ten, and no score is above the one before it.
pub get_high_scores-best :
    (rows : List SettingsRow) (least : ℕ)
    → (count_scores least (get_high_scores rows) ≡ minimum 10 (count_rows least rows))
      × Descend (get_high_scores rows)
unfolding get_high_scores
get_high_scores-best rows least =
    let ordered = order_by_best-RowsDescend rows in
    (
      count_scores-map least (take 10 (order_by_best rows))
          ∙ take-count least 10 (order_by_best rows) ordered
          ∙ ap (minimum 10) (order_by_best-count least rows),
      take-Descend 10 (order_by_best rows) ordered,
    )
