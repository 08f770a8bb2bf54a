-- ===== src/Orm/AddressSettings.antt =====
-- src/ORM/address-settings/address-settings.service.ts: the best difficulty and the shares of each
-- address. Difficulties and shares are in grains.
pub mod Best
pub mod Scores
use hc_pool.Base.{
  ℕ, ◌+◌, Bool, true, false, Option, none, some, List, [], ◌∷◌, ◌++◌, map, take, ltb, leb,
  if◌then◌else◌,
}
use hc_pool.Base.Text.{Text, text_eq}

-- `AddressSettingsEntity`
pub record SettingsRow : Type 0 where
  pub address : Text
  pub shares : ℕ
  pub best_difficulty : ℕ
  pub misc_coinbase_script_data : Option Text
  pub best_difficulty_user_agent : Option Text
  pub updated_at : ℕ

-- `findOne`
unfoldable pub find_settings : Text → List SettingsRow → Option SettingsRow
find_settings address [] = none
find_settings address (r ∷ rows) =
    if text_eq r.address address then some r else find_settings address rows

-- A row with the defaults of its columns.
abbrev pub default_row : Text → ℕ → SettingsRow
default_row address now = record {
  address = address;
  shares = 0;
  best_difficulty = 0;
  misc_coinbase_script_data = none;
  best_difficulty_user_agent = none;
  updated_at = now;
}

-- `createNew`: TypeORM's `save` leaves a row that has no other values to write as it is.
unfoldable pub create_new : Text → ℕ → List SettingsRow → SettingsRow × List SettingsRow
create_new address now rows = elim (find_settings address rows) [
  | some r ↦ (r, rows)
  | none ↦ (default_row address now, rows ++ default_row address now ∷ [])
]

-- `getSettings`, where no other process creates the row in between.
unfoldable pub get_settings :
    Text → Bool → ℕ → List SettingsRow → Option SettingsRow × List SettingsRow
get_settings address create_if_not_found now rows = elim (find_settings address rows) [
  | some r ↦ (some r, rows)
  | none ↦
      if create_if_not_found
      then (let (r, rows') = create_new address now rows in (some r, rows'))
      else (none, rows)
]

-- UPDATE of the rows of an address.
unfoldable pub update_address :
    Text → (SettingsRow → SettingsRow) → List SettingsRow → List SettingsRow
update_address address change [] = []
update_address address change (r ∷ rows) =
    (if text_eq r.address address then change r else r) ∷ update_address address change rows

unfoldable pub update_best_difficulty : Text → ℕ → Text → ℕ → List SettingsRow → List SettingsRow
update_best_difficulty address best_difficulty user_agent now = update_address address (λ r.
    record r {
      best_difficulty = best_difficulty;
      best_difficulty_user_agent = some user_agent;
      updated_at = now;
    })

-- `"shares" + ...`
unfoldable pub add_shares : Text → ℕ → ℕ → List SettingsRow → List SettingsRow
add_shares address shares now =
    update_address address (λ r. record r { shares = r.shares + shares; updated_at = now })

unfoldable pub reset_best_difficulty_and_shares : ℕ → List SettingsRow → List SettingsRow
reset_best_difficulty_and_shares now =
    map (λ (r : SettingsRow). record r { shares = 0; best_difficulty = 0; updated_at = now })

pub record HighScore : Type 0 where
  pub updated_at : ℕ
  pub best_difficulty : ℕ
  pub best_difficulty_user_agent : Option Text

abbrev pub score_of : SettingsRow → HighScore
score_of r = record {
  updated_at = r.updated_at;
  best_difficulty = r.best_difficulty;
  best_difficulty_user_agent = r.best_difficulty_user_agent;
}

-- ORDER BY "bestDifficulty" DESC
unfoldable pub insert_by_best : SettingsRow → List SettingsRow → List SettingsRow
insert_by_best a [] = a ∷ []
insert_by_best a (b ∷ bs) =
    if leb b.best_difficulty a.best_difficulty then a ∷ b ∷ bs else b ∷ insert_by_best a bs

unfoldable pub order_by_best : List SettingsRow → List SettingsRow
order_by_best [] = []
order_by_best (a ∷ rows) = insert_by_best a (order_by_best rows)

unfoldable pub get_high_scores : List SettingsRow → List HighScore
get_high_scores rows = map score_of (take 10 (order_by_best rows))

abbrev pub best_in : Option SettingsRow → ℕ
best_in none = 0
best_in (some r) = r.best_difficulty

-- What a session does with a difficulty that beats its own best (`handleMiningSubmission` of
-- src/models/StratumV1Client.ts): it reads the settings, and writes where its difficulty is above.
unfoldable pub write_if_above :
    Text → ℕ → Text → ℕ → Option SettingsRow → List SettingsRow → List SettingsRow
write_if_above address difficulty user_agent now settings rows =
    if ltb (best_in settings) difficulty
    then update_best_difficulty address difficulty user_agent now rows
    else rows

unfoldable pub offer_best : Text → ℕ → Text → ℕ → List SettingsRow → List SettingsRow
offer_best address difficulty user_agent now rows =
    let (settings, rows') = get_settings address true now rows in
    write_if_above address difficulty user_agent now settings rows'
