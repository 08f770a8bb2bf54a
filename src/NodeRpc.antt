-- ===== src/NodeRpc.antt =====
-- src/services/bitcoin-rpc.service.ts: the polling of the node's height and the fee estimate. What the
-- RPC client answers is an argument. NodeRpc/Templates is `getBlockTemplate`, with the rows of
-- src/ORM/rpc-block/rpc-block.service.ts; the answer of `SUBMIT_BLOCK` is in Session/Score.
pub mod Polling
pub mod Templates
use hc_pool.Base.{
  ℕ, zero, ◌+◌, ◌*◌, ◌/◌, Bool, true, false, not, ◌||◌, Option, none, some, List, [], ◌∷◌, ltb,
  if◌then◌else◌, is_some,
}
use hc_pool.Base.Text.{Text, codes}
use hc_pool.Base.Hex.{ℤ, pos, negsuc}

-- The fields of `IMiningInfo` that the pool reads; the two numbers are in grains.
pub record MiningInfo : Type 0 where
  pub blocks : ℕ
  pub difficulty : ℕ
  pub networkhashps : ℕ
  pub chain : Text

pub record BitcoinRpc : Type 0 where
  pub block_height : ℕ
  pub has_published_mining_info : Bool
  -- The value of `_newBlock$`.
  pub new_block : Option MiningInfo

unfoldable pub new : BitcoinRpc
new = record { block_height = 0; has_published_mining_info = false; new_block = none }

-- `getMiningInfo`: a failure of the client is null.
unfoldable pub get_mining_info : Option (Option MiningInfo) → Option MiningInfo
get_mining_info none = none
get_mining_info (some answer) = answer

-- `pollMiningInfo`, with what it publishes.
unfoldable pub poll_mining_info :
    Option (Option MiningInfo) → BitcoinRpc → BitcoinRpc × Option MiningInfo
poll_mining_info answer r = elim (get_mining_info answer) [
  | none ↦ (r, none)
  | some info ↦
      if not r.has_published_mining_info || ltb r.block_height info.blocks
      then (
        record r {
          new_block = some info;
          has_published_mining_info = true;
          block_height = info.blocks;
        },
        some info,
      )
      else (r, none)
]

-- `toSatPerVb` of a rate in grains of a coin for 1000 virtual bytes; none is no finite number.
-- `Math.round` rounds a half up.
unfoldable pub to_sat_per_vb : Option ℤ → ℕ
to_sat_per_vb (some (pos rate)) = (rate + 50_000) / 100_000
to_sat_per_vb _ = 0

-- The rate in an answer of `estimatesmartfee`; none is an exception.
abbrev converted : Option (Option ℤ) → ℕ
converted none = 0
converted (some rate) = to_sat_per_vb rate

-- `getMediumFeeSatVb`: the second form of the call is tried where the first gives no fee.
unfoldable pub get_medium_fee_sat_vb : Option (Option ℤ) → Option (Option ℤ) → ℕ
get_medium_fee_sat_vb by_object by_position =
    if ltb 0 (converted by_object) then converted by_object else converted by_position
