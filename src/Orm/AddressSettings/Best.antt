-- ===== src/Orm/AddressSettings/Best.antt =====
-- The best difficulty of an address (src/ORM/address-settings/address-settings.service.ts) as the
-- sessions of src/models/StratumV1Client.ts keep it, one after another and at the same time.
use hc_pool.Base.{
  ℕ, ◌<◌, ◌≡◌, refl, ap, sym, ◌∙◌, true, false, inl, inr, Bool-cases, none, some, Option-cases,
  List, [], ◌∷◌, ◌++◌, if◌then◌else◌, ltb, maximum, arith,
}
use hc_pool.Base.Text.{Text, text_eq, text_eq_iff, text_eq_refl}
use hc_pool.Orm.AddressSettings.{
  SettingsRow, find_settings, default_row, create_new, get_settings, update_address,
  update_best_difficulty, best_in, write_if_above, offer_best,
}

-- A difficulty that a session has for an address.
pub record Offer : Type 0 where
  pub address : Text
  pub difficulty : ℕ
  pub user_agent : Text
  pub now : ℕ

abbrev pub offer_all : List Offer → List SettingsRow → List SettingsRow
offer_all [] rows = rows
offer_all (o ∷ os) rows = offer_all os (offer_best o.address o.difficulty o.user_agent o.now rows)

-- The best difficulty that the table has for an address, and the best of the offers for it.
abbrev pub best_of : Text → List SettingsRow → ℕ
best_of address rows = best_in (find_settings address rows)

pub best_offer : Text → List Offer → ℕ
best_offer address [] = 0
best_offer address (o ∷ os) =
    maximum (if text_eq o.address address then o.difficulty else 0) (best_offer address os)

maximum_zero : (n : ℕ) → n ≡ maximum n 0
maximum_zero n = ground arith

maximum_assoc : (a b c : ℕ) → maximum (maximum a b) c ≡ maximum a (maximum b c)
maximum_assoc a b c = ground arith

find_settings-append :
    (address other : Text) (now : ℕ) (rows : List SettingsRow)
    → best_in (find_settings address (rows ++ default_row other now ∷ [])) ≡ best_of address rows
unfolding find_settings
find_settings-append address other now [] = ground arith
find_settings-append address other now (r ∷ rows) =
    ground (arith, find_settings-append address other now rows)

find_settings-appended :
    (address : Text) (now : ℕ) (rows : List SettingsRow)
    → find_settings address rows ≡ none
    → find_settings address (rows ++ default_row address now ∷ []) ≡ some (default_row address now)
unfolding find_settings
find_settings-appended address now [] h = rw (text_eq_refl address) refl
find_settings-appended address now (r ∷ rows) h =
    ground (arith, find_settings-appended address now rows)

find_settings-update :
    (address : Text) (best now : ℕ) (agent : Text) (rows : List SettingsRow) (r : SettingsRow)
    → find_settings address rows ≡ some r
    → find_settings address (update_best_difficulty address best agent now rows)
      ≡ some (record r {
        best_difficulty = best;
        best_difficulty_user_agent = some agent;
        updated_at = now;
      })
unfolding find_settings update_best_difficulty update_address
find_settings-update address best now agent [] r h = cc
find_settings-update address best now agent (x ∷ rows) r h =
    ground (arith, find_settings-update address best now agent rows r)

find_settings-other :
    (address other : Text) (best now : ℕ) (agent : Text) (rows : List SettingsRow)
    → text_eq other address ≡ false
    → best_of address (update_best_difficulty other best agent now rows) ≡ best_of address rows
unfolding find_settings update_best_difficulty update_address
find_settings-other address other best now agent [] h = refl
find_settings-other address other best now agent (x ∷ rows) h =
    let rest = find_settings-other address other best now agent rows h in
    elim (Bool-cases (text_eq x.address other)) [
      | inl same ↦
          let skipped : text_eq x.address address ≡ false =
            rw ((text_eq_iff x.address other).0 same) h in
          rw (same, skipped) rest
      | inr different ↦ rw different (ground (arith, rest))
    ]

get_settings-present :
    (address : Text) (now : ℕ) (rows : List SettingsRow) (r : SettingsRow)
    → find_settings address rows ≡ some r
    → get_settings address true now rows ≡ (some r, rows)
unfolding get_settings
get_settings-present address now rows r h = rw (get_settings, h) refl

create_new-absent :
    (address : Text) (now : ℕ) (rows : List SettingsRow)
    → find_settings address rows ≡ none
    → create_new address now rows ≡ (default_row address now, rows ++ default_row address now ∷ [])
unfolding create_new
create_new-absent address now rows h = rw (create_new, h) refl

get_settings-absent :
    (address : Text) (now : ℕ) (rows : List SettingsRow)
    → find_settings address rows ≡ none
    → get_settings address true now rows
      ≡ (some (default_row address now), rows ++ default_row address now ∷ [])
unfolding get_settings
get_settings-absent address now rows h =
    rw (get_settings, h, create_new-absent address now rows h) refl

-- What `getSettings` returns, and leaves in the table, where it may create the row.
get_settings-creates :
    (address : Text) (now : ℕ) (rows : List SettingsRow)
    → let got = get_settings address true now rows in
      (r : SettingsRow) × (got.0 ≡ some r)
      × (find_settings address got.1 ≡ some r)
      × (r.best_difficulty ≡ best_of address rows)
get_settings-creates address now rows = elim (Option-cases (find_settings address rows)) [
  | inl absent ↦ rw (get_settings-absent address now rows absent) (
    default_row address now,
    refl,
    find_settings-appended address now rows absent,
    ap best_in (sym absent),
  )
  | inr (r, there) ↦
      rw (get_settings-present address now rows r there) (r, refl, there, ap best_in (sym there))
]

get_settings-best :
    (address other : Text) (now : ℕ) (rows : List SettingsRow)
    → best_of address (get_settings other true now rows).1 ≡ best_of address rows
get_settings-best address other now rows = elim (Option-cases (find_settings other rows)) [
  | inl absent ↦
      rw (get_settings-absent other now rows absent) (find_settings-append address other now rows)
  | inr (r, there) ↦ rw (get_settings-present other now rows r there) refl
]

offer_best-same :
    (address : Text) (difficulty : ℕ) (agent : Text) (now : ℕ) (rows : List SettingsRow)
    → best_of address (offer_best address difficulty agent now rows)
      ≡ maximum (best_of address rows) difficulty
unfolding offer_best write_if_above
offer_best-same address difficulty agent now rows =
    let (r, got, found, best) = get_settings-creates address now rows in
    let rows' = (get_settings address true now rows).1 in
    elim (Bool-cases (ltb r.best_difficulty difficulty)) [
      | inl above ↦
          rw (got, above)
            (ground (
              arith,
              ap best_in (find_settings-update address difficulty now agent rows' r found),
              above,
              best,
            ))
      | inr below ↦ rw (got, below) (ground (arith, ap best_in found, below, best))
    ]

offer_best-other :
    (address other : Text) (difficulty : ℕ) (agent : Text) (now : ℕ) (rows : List SettingsRow)
    → text_eq other address ≡ false
    → best_of address (offer_best other difficulty agent now rows) ≡ best_of address rows
unfolding offer_best write_if_above
offer_best-other address other difficulty agent now rows h =
    let got = get_settings other true now rows in
    elim (Bool-cases (ltb (best_in got.0) difficulty)) [
      | inl above ↦
          rw above (find_settings-other address other difficulty now agent got.1 h)
          ∙ get_settings-best address other now rows
      | inr below ↦ rw below (get_settings-best address other now rows)
    ]

offer_best-eq :
    (address : Text) (o : Offer) (rows : List SettingsRow)
    → best_of address (offer_best o.address o.difficulty o.user_agent o.now rows)
      ≡ maximum (best_of address rows) (if text_eq o.address address then o.difficulty else 0)
offer_best-eq address o rows = elim (Bool-cases (text_eq o.address address)) [
  | inl same ↦
      rw ((text_eq_iff o.address address).0 same, text_eq_refl address)
        (offer_best-same address o.difficulty o.user_agent o.now rows)
  | inr other ↦ rw other (
      offer_best-other address o.address o.difficulty o.user_agent o.now rows other
      ∙ maximum_zero (best_of address rows))
]

-- Where the sessions of an address have their turns one after another, its best difficulty in the
-- table is the largest of what it was and of all that was offered for the address.
pub offer_all-best :
    (address : Text) (os : List Offer) (rows : List SettingsRow)
    → best_of address (offer_all os rows) ≡ maximum (best_of address rows) (best_offer address os)
unfolding best_offer
offer_all-best address [] rows = ground arith
offer_all-best address (o ∷ os) rows =
    offer_all-best address os (offer_best o.address o.difficulty o.user_agent o.now rows)
    ∙ ap (λ z. maximum z (best_offer address os)) (offer_best-eq address o rows)
    ∙ maximum_assoc (best_of address rows) (if text_eq o.address address then o.difficulty else 0)
        (best_offer address os)

-- Two sessions of an address that both read its settings before either writes them: the later
-- write wins, and the better of the two difficulties is lost if it was written first.
pub offers_race :
    (address agent : Text) (better worse now : ℕ) (rows : List SettingsRow) (r : SettingsRow)
    → find_settings address rows ≡ some r
    → r.best_difficulty < worse
    → worse < better
    → let read = (get_settings address true now rows).0 in
      let written = write_if_above address better agent now read rows in
      best_of address (write_if_above address worse agent now read written) ≡ worse
unfolding write_if_above
offers_race address agent better worse now rows r h low l =
    let updated = find_settings-update address better now agent rows r h in
    let first : ltb r.best_difficulty better ≡ true = ground (arith, low, l) in
    let second : ltb r.best_difficulty worse ≡ true = ground (arith, low) in
    rw (get_settings-present address now rows r h, first, second)
      (ap best_in (
        find_settings-update address worse now agent
          (update_best_difficulty address better agent now rows) _ updated))
