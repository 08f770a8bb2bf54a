-- ===== src/Template.antt =====
-- The types that the job service and the jobs share (`IJobTemplate` of
-- src/services/stratum-v1-jobs.service.ts), the fields of bitcoinjs-lib's transactions and blocks
-- that the pool reads and writes, and the functions of that library as a parameter.
use hc_pool.Base.{ℕ, Bool, Option, List, [], ◌∷◌}
use hc_pool.Base.Text.{Text}
use hc_pool.Base.Hex.{Bytes, ℤ}
use hc_pool.Difficulty.{Ratio}

pub record TxIn : Type 0 where
  pub hash : Bytes
  pub index : ℕ
  pub script : Bytes
  pub sequence : ℕ
  pub witness : List Bytes

pub record TxOut : Type 0 where
  pub script : Bytes
  pub value : ℕ

pub record Transaction : Type 0 where
  pub version : ℕ
  pub locktime : ℕ
  pub ins : List TxIn
  pub outs : List TxOut

pub record Block : Type 0 where
  pub version : ℤ
  pub prev_hash : Bytes
  pub merkle_root : Bytes
  pub timestamp : ℤ
  pub bits : ℕ
  pub nonce : ℤ
  pub witness_commit : Option Bytes
  pub transactions : List Transaction

-- `IJobTemplate`, its `blockData` fields in line.
pub record JobTemplate : Type 0 where
  pub block : Block
  pub merkle_branch : List Text
  pub id : Text
  pub creation : ℕ
  pub coinbase_value : ℕ
  pub network_difficulty : Ratio
  pub height : ℕ
  pub signet_challenge : Option Text
  pub clear_jobs : Bool

-- bitcoinjs-lib. `header` is `toBuffer(true)`, which throws on a field out of its range;
-- `output_script` throws on an address that is not of the network.
pub record Bitcoin : Type 0 where
  pub hash256 : Bytes → Bytes
  pub serialize : Transaction → Bytes
  pub tx_hash : Transaction → Bytes
  pub tx_weight : Transaction → ℕ
  pub block_weight : Block → ℕ
  pub header : Block → Option Bytes
  pub block_hex : Block → Text
  pub encode_number : ℕ → Bytes
  pub op_return : Bytes → Bytes
  pub output_script : Text → Option Bytes

-- `tx.ins[0].script`, and its assignment. Every transaction that these reach has an input.
abbrev pub first_script : List TxIn → Bytes
first_script [] = []
first_script (i ∷ is) = i.script

abbrev pub set_first_script : Bytes → List TxIn → List TxIn
set_first_script s [] = []
set_first_script s (i ∷ is) = record i { script = s } ∷ is

abbrev pub script_of : Transaction → Bytes
script_of tx = first_script tx.ins

abbrev pub with_script : Bytes → Transaction → Transaction
with_script s tx = record tx { ins = set_first_script s tx.ins }
