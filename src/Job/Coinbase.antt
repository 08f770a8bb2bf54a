-- ===== src/Job/Coinbase.antt =====
-- The coinbase transaction of src/models/MiningJob.ts: payouts, the input script, and the outputs
-- that the constructor adds.
use hc_pool.Base.{
  ℕ, ◌+◌, ◌-◌, ◌*◌, ◌/◌, Bool, true, false, ◌&&◌, Option, none, some, List, [], ◌∷◌, ◌++◌, ltb,
  if◌then◌else◌, length, replicate, or_else,
}
use hc_pool.Base.Text.{Text, codes, is_true, or_default, utf8}
use hc_pool.Base.Hex.{Bytes, parse_decimal, leb_int}
use hc_pool.Base.Double.{unit, round_double}
use hc_pool.Template.{TxIn, TxOut, Transaction, JobTemplate, Bitcoin, with_script}

abbrev pub max_block_weight : ℕ
max_block_weight = 4_000_000

abbrev pub max_script_size : ℕ
max_script_size = 100

-- `percent` is a double.
pub record AddressObject : Type 0 where
  pub address : Text
  pub percent : ℕ

-- What the constructor reads of the configuration.
pub record JobConfig : Type 0 where
  pub enable_segwit : Bool
  pub pool_identifier : Option Text
  pub bootstrap_enabled : Option Text
  pub bootstrap_message : Option Text
  pub bootstrap_height_max : Option Text

infixl 5 ◌>>=◌
abbrev pub ◌>>=◌ {ℓ κ} : {A : Type ℓ} {B : Type κ} → Option A → (A → Option B) → Option B
none >>= f = none
some a >>= f = f a

-- `Math.floor((percent / 100) * reward)`, for a reward below 2^53, which is a double.
unfoldable pub amount_of : ℕ → AddressObject → ℕ
amount_of reward a =
    let share = round_double a.percent (100 * unit) in round_double (share * reward) unit / unit

-- `outs[0].value += rewardBalance`. The balance is the reward without what is paid, and can be
-- negative by the rounding; a first output below 0 is none here, since its serialisation throws
-- later in the constructor, and so is the access to the first of no outputs.
unfoldable pub add_to_first : ℕ → ℕ → List TxOut → Option (List TxOut)
add_to_first reward paid [] = none
add_to_first reward paid (o ∷ os) =
    if ltb (o.value + reward) paid
    then none
    else some (record o { value = o.value + reward - paid } ∷ os)

abbrev pub null_input : Bool → TxIn
null_input enable_segwit = record {
  hash = replicate 32 0;
  index = 0xffffffff;
  script = [];
  sequence = 0xffffffff;
  witness = if enable_segwit then replicate 32 0 ∷ [] else [];
}

-- `8 + (3 - blockHeightEncoded.length)` zeros
abbrev pub padding_of : Bytes → Bytes
padding_of encoded = replicate (11 - length encoded) 0

-- The script without the pool identifier.
abbrev pub bare_script : Bytes → Bytes
bare_script encoded = length encoded ∷ (encoded ++ padding_of encoded)

unfoldable pub build_script : Bytes → Bytes → Bytes
build_script encoded extra =
    let script = length encoded ∷ (encoded ++ (extra ++ padding_of encoded)) in
    if ltb max_script_size (length script) then bare_script encoded else script

unfoldable pub should_attach_bootstrap : JobConfig → ℕ → Bool
should_attach_bootstrap config height =
    let message = or_else config.bootstrap_message [] in
    let height_max = parse_decimal (or_else config.bootstrap_height_max (codes "1")) in
    is_true config.bootstrap_enabled (codes "false")
    && (ltb 0 (length message) && elim height_max [ none ↦ false | some m ↦ leb_int height m ])

module _ (btc : Bitcoin) where
  -- The `forEach` over the addresses, with what is taken from the balance; an address that is not
  -- of the network throws.
  unfoldable pub pay_all : ℕ → List AddressObject → ℕ → Option (List TxOut × ℕ)
  pay_all reward [] paid = some ([], paid)
  pay_all reward (a ∷ rest) paid = btc.output_script a.address >>= λ script.
      pay_all reward rest (paid + amount_of reward a) >>= λ r.
      some (record { script = script; value = amount_of reward a } ∷ r.0, r.1)

  unfoldable pub create_coinbase_transaction : Bool → List AddressObject → ℕ → Option Transaction
  create_coinbase_transaction enable_segwit addresses reward = pay_all reward addresses 0 >>= λ r.
      add_to_first reward r.1 r.0 >>= λ outs.
      some (record { version = 2; locktime = 0; ins = null_input enable_segwit ∷ []; outs = outs })

  abbrev pub add_output : Bytes → Transaction → Transaction
  add_output script tx = record tx { outs = tx.outs ++ record { script = script; value = 0 } ∷ [] }

  -- The bootstrap message, if it is due.
  unfoldable pub attach_bootstrap : JobConfig → ℕ → Transaction → Transaction
  attach_bootstrap config height tx =
      if should_attach_bootstrap config height
      then add_output (btc.op_return (utf8 (or_else config.bootstrap_message []))) tx
      else tx

  -- The witness commitment, on chains with segwit; 0xaa21a9ed stands before it.
  unfoldable pub attach_witness : Bool → Option Bytes → Transaction → Transaction
  attach_witness false commit tx = tx
  attach_witness true none tx = tx
  attach_witness true (some commit) tx =
      add_output (btc.op_return (0xaa ∷ 0x21 ∷ 0xa9 ∷ 0xed ∷ commit)) tx

  -- What the constructor does to the coinbase behind `createCoinbaseTransaction`.
  unfoldable pub finish_coinbase : JobConfig → JobTemplate → Transaction → Transaction
  finish_coinbase config template tx0 =
      let encoded = btc.encode_number template.height in
      let extra = utf8 (or_default config.pool_identifier (codes "Public-Pool")) in
      let tx1 = with_script (build_script encoded extra) tx0 in
      let tx2 = attach_bootstrap config template.height tx1 in
      let tx3 = attach_witness config.enable_segwit template.block.witness_commit tx2 in
      let heavy = ltb max_block_weight (btc.tx_weight tx3 + btc.block_weight template.block) in
      if heavy then with_script (bare_script encoded) tx3 else tx3

  unfoldable pub build_coinbase : JobConfig → List AddressObject → JobTemplate → Option Transaction
  build_coinbase config addresses template =
      create_coinbase_transaction config.enable_segwit addresses template.coinbase_value >>= λ tx0.
      some (finish_coinbase config template tx0)
