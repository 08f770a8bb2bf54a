-- ===== src/Job/Script.antt =====
-- The layout of the coinbase script (the constructor of src/models/MiningJob.ts).
use mathlib.Core.List.{append_assoc}
use hc_pool.Base.{
  ℕ, zero, suc, ◌+◌, ◌-◌, ◌≤◌, ◌≡◌, refl, ap, sym, ◌∙◌, inl, inr, Bool, true, false, Option, none,
  some, List, [], ◌∷◌, ◌++◌, length, replicate, arith, Option-cases, Bool-cases, ltb, length-append,
  length-replicate,
}
use hc_pool.Base.Text.{codes, utf8, or_default}
use hc_pool.Base.Hex.{Bytes}
use hc_pool.Template.{
  TxIn, Transaction, JobTemplate, Bitcoin, script_of, with_script, set_first_script,
}
use hc_pool.Job.Coinbase.{
  AddressObject, JobConfig, build_script, bare_script, padding_of, max_script_size,
  max_block_weight, build_coinbase, create_coinbase_transaction, pay_all, add_to_first,
  attach_bootstrap, attach_witness, finish_coinbase, null_input,
}

-- The script ends in a slot of 8 zero bytes and fits the limit of consensus.
pub record WellFormed (script : Bytes) : Type 0 where
  pub keep : Bytes
  pub layout : script ≡ keep ++ replicate 8 0
  pub short : length script ≤ max_script_size

padding-split :
    (encoded : Bytes)
    → length encoded ≤ 3
    → padding_of encoded ≡ replicate (3 - length encoded) 0 ++ replicate 8 0
padding-split encoded h = split (length encoded) h
  where
    split : (n : ℕ) → n ≤ 3 → replicate {A = ℕ} (11 - n) 0 ≡ replicate (3 - n) 0 ++ replicate 8 0
    split zero h = refl
    split (suc zero) h = refl
    split (suc (suc zero)) h = refl
    split (suc (suc (suc zero))) h = refl
    split (suc (suc (suc (suc n)))) h = absurd (omega arith)

bare_script-WellFormed : (encoded : Bytes) → length encoded ≤ 3 → WellFormed (bare_script encoded)
bare_script-WellFormed encoded h = record {
  keep = length encoded ∷ (encoded ++ replicate (3 - length encoded) 0);
  layout =
      ap (λ z. length encoded ∷ (encoded ++ z)) (padding-split encoded h)
      ∙ ap (◌∷◌ (length encoded)) (sym (append_assoc encoded _ _));
  short = omega (
    arith,
    length-append encoded (padding_of encoded),
    length-replicate {A = ℕ} (11 - length encoded) 0,
  );
}

-- A pool identifier that is too long is dropped, any other is kept.
pub build_script-WellFormed :
    (encoded extra : Bytes) → length encoded ≤ 3 → WellFormed (build_script encoded extra)
unfolding build_script
build_script-WellFormed encoded extra h =
    let full = length encoded ∷ (encoded ++ (extra ++ padding_of encoded)) in
    elim (Bool-cases (ltb max_script_size (length full))) [
      | inl long ↦ rw long (bare_script-WellFormed encoded h)
      | inr fits ↦ rw fits (record {
        keep = length encoded ∷ (encoded ++ (extra ++ replicate (3 - length encoded) 0));
        layout =
            ap (λ z. length encoded ∷ (encoded ++ (extra ++ z))) (padding-split encoded h)
            ∙ simp append_assoc;
        short = ground arith;
      })
    ]

attach_bootstrap-ins :
    (btc : Bitcoin) (config : JobConfig) (height : ℕ) (tx : Transaction)
    → (attach_bootstrap btc config height tx).ins ≡ tx.ins
unfolding attach_bootstrap
attach_bootstrap-ins btc config height tx = ground arith

attach_witness-ins :
    (btc : Bitcoin) (segwit : Bool) (commit : Option Bytes) (tx : Transaction)
    → (attach_witness btc segwit commit tx).ins ≡ tx.ins
unfolding attach_witness
attach_witness-ins btc false commit tx = refl
attach_witness-ins btc true none tx = refl
attach_witness-ins btc true (some c) tx = refl

create_coinbase_transaction-ins :
    (btc : Bitcoin) (segwit : Bool) (as' : List AddressObject) (reward : ℕ) (tx : Transaction)
    → create_coinbase_transaction btc segwit as' reward ≡ some tx
    → (i : TxIn) × (tx.ins ≡ i ∷ [])
unfolding create_coinbase_transaction
create_coinbase_transaction-ins btc segwit as' reward tx e =
    elim (Option-cases (pay_all btc reward as' 0)) [
      | inl bad ↦ absurd (cc (rw (bad, create_coinbase_transaction) at e))
      | inr (r, paid) ↦ elim (Option-cases (add_to_first reward r.1 r.0)) [
        | inl bad ↦ absurd (ground (arith, paid, bad, e))
        | inr (outs, added) ↦ (null_input segwit, ground (arith, paid, added, e))
      ]
    ]

set-WellFormed :
    (tx : Transaction) (i : TxIn) (s : Bytes)
    → tx.ins ≡ i ∷ []
    → WellFormed s
    → (length (with_script s tx).ins ≡ 1) × WellFormed (script_of (with_script s tx))
set-WellFormed tx i s e w = rw e (refl, w)

finish_coinbase-WellFormed :
    (btc : Bitcoin) (config : JobConfig) (template : JobTemplate) (tx0 : Transaction) (i : TxIn)
    → length (btc.encode_number template.height) ≤ 3
    → tx0.ins ≡ i ∷ []
    → (length (finish_coinbase btc config template tx0).ins ≡ 1)
      × WellFormed (script_of (finish_coinbase btc config template tx0))
unfolding finish_coinbase
finish_coinbase-WellFormed btc config template tx0 i h e =
    let encoded = btc.encode_number template.height in
    let extra = utf8 (or_default config.pool_identifier (codes "Public-Pool")) in
    let script = build_script encoded extra in
    let tx1 = with_script script tx0 in
    let tx2 = attach_bootstrap btc config template.height tx1 in
    let tx3 = attach_witness btc config.enable_segwit template.block.witness_commit tx2 in
    let ins : tx3.ins ≡ record i { script = script } ∷ [] =
      attach_witness-ins btc config.enable_segwit template.block.witness_commit tx2
      ∙ attach_bootstrap-ins btc config template.height tx1
      ∙ ap (set_first_script script) e in
    elim (Bool-cases (ltb max_block_weight (btc.tx_weight tx3 + btc.block_weight template.block))) [
      | inl heavy ↦ rw heavy (
          set-WellFormed tx3 (record i { script = script }) (bare_script encoded) ins
            (bare_script-WellFormed encoded h))
      | inr light ↦ rw (light, ins) (refl, build_script-WellFormed encoded extra h)
    ]

-- Every coinbase that the constructor builds, with the pool identifier or without it, has one
-- input, whose script fits the limit and ends in the 8 zero bytes that the nonces replace, as long
-- as the height is encoded in at most 3 bytes.
pub build_coinbase-WellFormed :
    (btc : Bitcoin) (config : JobConfig) (as' : List AddressObject) (template : JobTemplate)
    (tx : Transaction)
    → length (btc.encode_number template.height) ≤ 3
    → build_coinbase btc config as' template ≡ some tx
    → (length tx.ins ≡ 1) × WellFormed (script_of tx)
unfolding build_coinbase
build_coinbase-WellFormed btc config as' template tx h e =
    elim (Option-cases
      (create_coinbase_transaction btc config.enable_segwit as' template.coinbase_value)) [
        | inl bad ↦ absurd (cc (rw (bad, build_coinbase) at e))
        | inr (tx0, made) ↦
            let (i, ins) =
              create_coinbase_transaction-ins btc config.enable_segwit as' template.coinbase_value
                tx0 made in
            let same : finish_coinbase btc config template tx0 ≡ tx = ground arith in
            rw same at (finish_coinbase-WellFormed btc config template tx0 i h ins)
      ]
