-- ===== src/External.antt =====
-- src/controllers/external-share/external-share.controller.ts and
-- src/ORM/external-shares/external-shares.service.ts: shares that another pool reports. The hash and
-- the block parser are bitcoinjs-lib's.
pub mod Accepts
use hc_pool.Base.{
  ℕ, ◌+◌, ◌-◌, ◌*◌, ◌/◌, Bool, true, false, not, Option, none, some, List, [], ◌∷◌, ltb, leb,
  if◌then◌else◌, or_else,
}
use hc_pool.Base.Text.{Text, codes, text_eq}
use hc_pool.Base.Hex.{Bytes, unhex}
use hc_pool.Bucket.{grain}
use hc_pool.Difficulty.{Big, Ratio, ratio, ratio_ge, in_grains, calculate_difficulty}
use hc_pool.Orm.ClientStatistics.{day}

-- `ExternalPoolShare`
pub record ExternalPoolShare : Type 0 where
  pub worker : Text
  pub address : Text
  pub user_agent : Text
  pub external_pool_name : Text
  pub header : Text

-- The columns of `ExternalSharesEntity` that are written.
pub record ExternalShareRow : Type 0 where
  pub address : Text
  pub client_name : Text
  pub time : ℕ
  pub difficulty : Ratio
  pub user_agent : Text
  pub external_pool_name : Text
  pub header : Text

-- The constructor's settings; the difficulty is a number of grains, none where it is unset.
pub record ExternalShareConfig : Type 0 where
  pub api_key : Option Text
  pub minimum_difficulty : Option ℕ

unfoldable pub minimum_of : ExternalShareConfig → ℕ
minimum_of config = or_else config.minimum_difficulty (1_000_000_000_000 * grain)

-- `this.apiKey && apiKey !== this.apiKey`
unfoldable pub is_refused_key : Option Text → Option Text → Bool
is_refused_key none given = false
is_refused_key (some []) given = false
is_refused_key (some (c ∷ key)) none = true
is_refused_key (some (c ∷ key)) (some given) = not (text_eq given (c ∷ key))

-- What the handler ends in: an `UnauthorizedException`, an exception of the block parser, or the
-- difficulty, with the row that was inserted.
pub data Reply : Type 0 where
  unauthorized : Text → Reply
  thrown : Reply
  accepted : Ratio → ExternalShareRow → Reply

-- `block_time` is the timestamp of `Block.fromBuffer`, which throws on bytes that are no block.
module _ (big : Big) (hash256 : Bytes → Bytes) (block_time : Bytes → Option ℕ)
    (diff1_target : ℕ) where
  unfoldable pub difficulty_of : ExternalPoolShare → Ratio
  difficulty_of share = calculate_difficulty big diff1_target (hash256 (unhex share.header))

  abbrev pub row_of : ExternalPoolShare → ℕ → ExternalShareRow
  row_of share now = record {
    address = share.address;
    client_name = share.worker;
    time = now;
    difficulty = difficulty_of share;
    user_agent = share.user_agent;
    external_pool_name = share.external_pool_name;
    header = share.header;
  }

  unfoldable pub submit_external_share :
      ExternalShareConfig → ExternalPoolShare → Option Text → ℕ → Reply
  submit_external_share config share api_key now =
      if is_refused_key config.api_key api_key
      then unauthorized (codes "Invalid API key")
      else if not (ratio_ge (difficulty_of share) (in_grains (minimum_of config)))
      then unauthorized (codes "Share difficulty too low")
      else elim (block_time (unhex share.header)) [
        | none ↦ thrown
        | some timestamp ↦
            if ltb (timestamp + 600) (now / 1000)
            then unauthorized (codes "Share timestamp too old - must be within last 10 minutes")
            else accepted (difficulty_of share) (row_of share now)
      ]

-- `getAddressBestDifficulty`: the largest difficulty of an address, or 0.
unfoldable pub get_address_best_difficulty : Text → List ExternalShareRow → Ratio
get_address_best_difficulty address [] = ratio 0 1
get_address_best_difficulty address (r ∷ rows) =
    let best = get_address_best_difficulty address rows in
    if text_eq r.address address
    then if ratio_ge r.difficulty best then r.difficulty else best
    else best

unfoldable pub delete_old_shares : ℕ → List ExternalShareRow → List ExternalShareRow
delete_old_shares now [] = []
delete_old_shares now (r ∷ rows) =
    let rest = delete_old_shares now rows in if ltb r.time (now - day) then rest else r ∷ rest
