-- ===== src/Api/Fee.antt =====
-- The fee in the answer of `pool` (src/app.controller.ts) against the payouts of a session
-- (`sendNewMiningJob` of src/models/StratumV1Client.ts).
use hc_pool.Base.{ℕ, ◌+◌, ◌≡◌, refl, Option, none, some, or_else, List, [], ◌∷◌, arith}
use hc_pool.Bucket.{grain}
use hc_pool.Base.Double.{round_double, bit_length}
use hc_pool.Base.Text.{Text}
use hc_pool.Base.Hex.{ℤ, pos, negsuc}
use hc_pool.Profile.{trim}
use hc_pool.Job.Coinbase.{AddressObject}
use hc_pool.Session.Work.{payout_information, dev_fee_percent_of}
use hc_pool.Api.{effective_fee_percent, configured_fee_percent}

-- What goes to others than the miner.
pub fee_of : List AddressObject → ℕ
fee_of [] = 0
fee_of (a ∷ []) = 0
fee_of (a ∷ b ∷ rest) = a.percent + fee_of (b ∷ rest)

configured_fee_percent-eq :
    (percent : Option ℤ) → configured_fee_percent percent ≡ dev_fee_percent_of percent
unfolding configured_fee_percent dev_fee_percent_of
configured_fee_percent-eq none = refl
configured_fee_percent-eq (some (pos p)) = refl
configured_fee_percent-eq (some (negsuc p)) = refl

round_double-zero : round_double 0 grain ≡ 0
unfolding round_double bit_length
round_double-zero = refl

-- The API reports the fee that a session's jobs pay to the developer, if the configured address has
-- no white space around it.
pub effective_fee_percent-payouts :
    (address : Option Text) (percent : Option ℤ) (miner : Text)
    → trim (or_else address []) ≡ or_else address []
    → round_double (effective_fee_percent address percent) grain
      ≡ fee_of (payout_information address percent miner)
unfolding effective_fee_percent payout_information fee_of
effective_fee_percent-payouts none percent miner h = rw (h, round_double-zero) refl
effective_fee_percent-payouts (some []) percent miner h = rw (h, round_double-zero) refl
effective_fee_percent-payouts (some (c ∷ s)) percent miner h =
    rw (h, configured_fee_percent-eq percent) (omega arith)
