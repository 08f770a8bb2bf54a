-- ===== src/Job/Payouts.antt =====
-- The split of the reward (`createCoinbaseTransaction` of src/models/MiningJob.ts).
use hc_pool.Base.{
  ℕ, ◌+◌, ◌-◌, ◌≡◌, ap, ◌∙◌, inl, inr, Bool, some, List, [], ◌∷◌, arith, Option-cases, Bool-cases,
  sym, ltb,
}
use hc_pool.Template.{TxOut, Transaction, Bitcoin}
use hc_pool.Job.Coinbase.{
  AddressObject, amount_of, pay_all, create_coinbase_transaction, add_to_first,
}

-- The sum of the outputs' values.
pub total : List TxOut → ℕ
total [] = 0
total (o ∷ os) = o.value + total os

-- The loop counts what it pays out.
pay_all-paid :
    (btc : Bitcoin) (reward : ℕ) (as' : List AddressObject) (before paid : ℕ) (outs : List TxOut)
    → pay_all btc reward as' before ≡ some (outs, paid)
    → paid ≡ before + total outs
unfolding pay_all total
pay_all-paid btc reward [] before paid outs e = ground arith
pay_all-paid btc reward (a ∷ rest) before paid outs e =
    elim (Option-cases (btc.output_script a.address)) [
      | inl bad ↦ ground arith
      | inr (script, good) ↦
          elim (Option-cases (pay_all btc reward rest (before + amount_of reward a))) [
            | inl bad ↦ ground arith
            | inr ((os, p), more) ↦
                ground (arith, pay_all-paid btc reward rest (before + amount_of reward a) p os more)
          ]
    ]

add_to_first-total :
    (reward paid : ℕ) (outs outs' : List TxOut)
    → paid ≡ total outs
    → add_to_first reward paid outs ≡ some outs'
    → total outs' ≡ reward
unfolding add_to_first total
add_to_first-total reward paid [] outs' h e = cc
add_to_first-total reward paid (o ∷ outs) outs' h e =
    elim (Bool-cases (ltb (o.value + reward) paid)) [
      | inl y ↦ ground (arith, y, e)
      | inr n ↦
          let made : record o { value = o.value + reward - paid } ∷ outs ≡ outs' =
            ground (arith, n, e) in
          sym (ap total made) ∙ ground (arith, n, h)
    ]

-- The outputs of the coinbase pay out exactly the reward, whatever the percentages are and whichever
-- way their shares are rounded, if the coinbase is made at all.
pub create_coinbase_transaction-total :
    (btc : Bitcoin) (enable_segwit : Bool) (as' : List AddressObject) (reward : ℕ)
    (tx : Transaction)
    → create_coinbase_transaction btc enable_segwit as' reward ≡ some tx
    → total tx.outs ≡ reward
unfolding create_coinbase_transaction
create_coinbase_transaction-total btc enable_segwit as' reward tx e =
    elim (Option-cases (pay_all btc reward as' 0)) [
      | inl bad ↦ ground arith
      | inr ((outs, paid), loop) ↦ elim (Option-cases (add_to_first reward paid outs)) [
        | inl bad ↦ ground arith
        | inr (outs', added) ↦
            let made : tx.outs ≡ outs' = ground arith in
            let counted = pay_all-paid btc reward as' 0 paid outs loop in
            ap total made ∙ add_to_first-total reward paid outs outs' (omega (arith, counted)) added
      ]
    ]
