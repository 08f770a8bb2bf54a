-- ===== src/Tests/Chain.antt =====
-- The theorems on difficulties and jobs at concrete inputs.
use hc_pool.Base.{
  ℕ, ◌+◌, ◌-◌, ◌*◌, ◌/◌, ◌%◌, ◌^◌, ◌≤◌, ◌<◌, ◌≡◌, ◌↔◌, ◌⊎◌, refl, Bool, true, false, Option, none,
  some, List, [], ◌∷◌, ◌++◌, length, replicate, arith, take, or_else,
}
use hc_pool.Base.Text.{Text, codes, lower, utf8, starts_with}
use hc_pool.Base.Hex.{Bytes, ℤ, pos, hex, unhex}
use hc_pool.Difficulty.{
  Big, IsMonotone, ratio, same_ratio, ratio_ge, le256, calculate_difficulty,
  calculate_difficulty_from_bits, calculate_network_difficulty,
}
use hc_pool.Difficulty.Target.{
  target_of_bits, calculate_difficulty-block_iff, calculate_network_difficulty-eq,
}
use hc_pool.Template.{Transaction, script_of}
use hc_pool.Bucket.{grain}
use hc_pool.Base.Double.{unit, round_double, bit_length}
use hc_pool.Job.Coinbase.{amount_of, build_coinbase, create_coinbase_transaction}
use hc_pool.Job.{
  MiningJob, new, matches_locked_submission, apply_signed_coinbase, calculate_merkle_root_hash,
}
use hc_pool.Job.Payouts.{total, create_coinbase_transaction-total}
use hc_pool.Job.Script.{WellFormed, build_coinbase-WellFormed}
use hc_pool.Job.Slot.{Round, submit, oversized_nonce_sticks}
use hc_pool.Job.RoundTrip.{after_rounds}
use hc_pool.Job.Fresh.{new-miner_coinbase}
use hc_pool.Job.Merkle.{branch_root, calculate_merkle_root_hash-eq}
use hc_pool.Tests.Demo.{
  demo_bitcoin, demo_layout, demo_config, demo_addresses, demo_template, demo_transaction, demo_job,
  demo_round,
}

abbrev diff1 : ℕ
diff1 = 0xffff * 2 ^ 208

-- A division that is rounded down to 20 decimals.
abbrev rounded : Big
rounded a b = ratio (a * 10 ^ 20 / b) (10 ^ 20)

mul_mono : (k a b : ℕ) → a ≤ b → k * a ≤ k * b
mul_mono k a b h = grind arith

mul_div : (n c : ℕ) → 0 < c → n / c * c ≤ n
mul_div n c p = grind arith

le_div : (q n b : ℕ) → 0 < b → q * b ≤ n → q ≤ n / b
le_div q n b p h = grind arith

quotient-le : (n b c : ℕ) → 0 < b → b ≤ c → n / c ≤ n / b
quotient-le n b c p h =
    le_div (n / c) n b p (omega (arith, mul_mono (n / c) b c h, mul_div n c (omega arith)))

rounded-IsMonotone : IsMonotone rounded
unfolding ratio_ge
rounded-IsMonotone a b c p h = ground (arith, quotient-le (a * 10 ^ 20) b c p h)

calculate_difficulty-block_iff_example :
    (ratio_ge
        (calculate_difficulty rounded diff1 (9 ∷ replicate 31 0))
        (calculate_difficulty_from_bits rounded diff1 0x1d00ffff)
      ≡ true)
    ↔ ((le256 (9 ∷ replicate 31 0) ≤ target_of_bits 0x1d00ffff)
        ⊎ (same_ratio
              (calculate_difficulty rounded diff1 (9 ∷ replicate 31 0))
              (calculate_difficulty_from_bits rounded diff1 0x1d00ffff)
            ≡ true))
calculate_difficulty-block_iff_example =
    calculate_difficulty-block_iff rounded diff1 0x1d00ffff (9 ∷ replicate 31 0) rounded-IsMonotone

calculate_network_difficulty-eq_example :
    calculate_network_difficulty rounded diff1 0x1d00ffff
    ≡ calculate_difficulty_from_bits rounded diff1 0x1d00ffff
calculate_network_difficulty-eq_example =
    calculate_network_difficulty-eq rounded diff1 0x1d00ffff (omega arith)

abbrev long : Round
long = record demo_round { e2 = 1 ∷ 2 ∷ 3 ∷ 4 ∷ 5 ∷ 6 ∷ [] }

abbrev keep : Bytes
keep = take (length (script_of demo_transaction) - 8) (script_of demo_transaction)

abbrev paid_transaction : Transaction
paid_transaction =
    or_else (create_coinbase_transaction demo_bitcoin false demo_addresses 5000000001)
      demo_transaction

create_coinbase_transaction-total_example : total paid_transaction.outs ≡ 5000000001
unfolding create_coinbase_transaction hc_pool.Job.Coinbase.pay_all hc_pool.Job.Coinbase.add_to_first
    hc_pool.Job.Coinbase.amount_of hc_pool.Base.Double.round_double hc_pool.Base.Double.bit_length
create_coinbase_transaction-total_example =
    create_coinbase_transaction-total demo_bitcoin false demo_addresses 5000000001 paid_transaction
      refl

-- A fee of 1.12 percent of one coin: the miner's share is rounded to below 98880000.
miner_share :
    amount_of 100_000_000 (record {
      address = [];
      percent = round_double (100 * unit - round_double (112 * grain / 100) grain) unit;
    })
    ≡ 98_879_999
unfolding amount_of round_double bit_length
miner_share = refl

oversized_nonce_sticks_example :
    length (
      script_of
        (submit demo_bitcoin
          (submit demo_bitcoin demo_job demo_template long).0
          demo_template
          demo_round).0.coinbase_transaction)
    ≡ length (keep ++ (demo_round.e1 ++ demo_round.e2)) + 2
unfolding build_coinbase create_coinbase_transaction hc_pool.Job.Coinbase.pay_all
    hc_pool.Job.Coinbase.add_to_first hc_pool.Job.Coinbase.amount_of
    hc_pool.Base.Double.round_double hc_pool.Base.Double.bit_length
    hc_pool.Job.Coinbase.finish_coinbase hc_pool.Job.Coinbase.build_script
    hc_pool.Job.Coinbase.attach_bootstrap hc_pool.Job.Coinbase.should_attach_bootstrap
    hc_pool.Job.Coinbase.attach_witness hc_pool.Job.new hc_pool.Job.initial
    hc_pool.Job.rebuild_coinbase_parts hc_pool.Base.Text.is_true hc_pool.Base.Text.text_eq lower
    utf8 hc_pool.Base.Text.or_default
oversized_nonce_sticks_example =
    oversized_nonce_sticks demo_bitcoin keep (replicate 8 0) demo_job demo_template long demo_round
      2 (omega arith) refl refl (ground arith) refl (ground arith) (ground arith) (ground arith)

build_coinbase-WellFormed_example :
    (length demo_transaction.ins ≡ 1) × WellFormed (script_of demo_transaction)
unfolding build_coinbase create_coinbase_transaction hc_pool.Job.Coinbase.pay_all
    hc_pool.Job.Coinbase.add_to_first hc_pool.Job.Coinbase.amount_of
    hc_pool.Base.Double.round_double hc_pool.Base.Double.bit_length
    hc_pool.Job.Coinbase.finish_coinbase hc_pool.Job.Coinbase.build_script
    hc_pool.Job.Coinbase.attach_bootstrap hc_pool.Job.Coinbase.should_attach_bootstrap
    hc_pool.Job.Coinbase.attach_witness
build_coinbase-WellFormed_example =
    build_coinbase-WellFormed demo_bitcoin demo_config demo_addresses demo_template demo_transaction
      (omega arith) refl

new-miner_coinbase_example :
    demo_job.coinbase_part1 ++ (hex demo_round.e1 ++ (hex demo_round.e2 ++ demo_job.coinbase_part2))
    ≡ hex (
        demo_bitcoin.serialize
          (submit demo_bitcoin
            (after_rounds demo_bitcoin demo_job demo_template (demo_round ∷ []))
            demo_template
            demo_round).0.coinbase_transaction)
unfolding build_coinbase create_coinbase_transaction hc_pool.Job.Coinbase.pay_all
    hc_pool.Job.Coinbase.add_to_first hc_pool.Job.Coinbase.amount_of
    hc_pool.Base.Double.round_double hc_pool.Base.Double.bit_length
    hc_pool.Job.Coinbase.finish_coinbase hc_pool.Job.Coinbase.build_script
    hc_pool.Job.Coinbase.attach_bootstrap hc_pool.Job.Coinbase.should_attach_bootstrap
    hc_pool.Job.Coinbase.attach_witness hc_pool.Job.new hc_pool.Job.initial
    hc_pool.Job.rebuild_coinbase_parts hc_pool.Job.Search.occurs_before hc_pool.Base.Hex.hex
    hc_pool.Base.Hex.hex_digit starts_with hc_pool.Base.Text.is_true hc_pool.Base.Text.text_eq lower
    utf8 hc_pool.Base.Text.or_default
new-miner_coinbase_example =
    new-miner_coinbase demo_bitcoin demo_layout demo_config (codes "1") (codes "0000002a")
      demo_addresses demo_template 1000 demo_transaction demo_job (demo_round ∷ []) demo_round refl
      refl (omega arith) refl (ground arith) (ground arith) (ground arith)

calculate_merkle_root_hash-eq_example :
    calculate_merkle_root_hash demo_bitcoin
      (replicate 32 5)
      (hex (replicate 32 6) ∷ hex (replicate 32 9) ∷ [])
    ≡ branch_root demo_bitcoin.hash256
        (replicate 32 5)
        (hex (replicate 32 6) ∷ hex (replicate 32 9) ∷ [])
unfolding hex unhex hc_pool.Base.Hex.hex_digit hc_pool.Base.Hex.digit_value
calculate_merkle_root_hash-eq_example =
    calculate_merkle_root_hash-eq demo_bitcoin (λ bs. refl) (replicate 32 5)
      (hex (replicate 32 6) ∷ hex (replicate 32 9) ∷ []) refl (refl, (refl, tt))
