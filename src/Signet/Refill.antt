-- ===== src/Signet/Refill.antt =====
-- The nonces of a locked job: filling the slot of the coinbase a second time with the same bytes
-- (`copyAndUpdateBlock` of src/models/MiningJob.ts), in either case of their digits.
use mathlib.Core.List.{tail}
use hc_pool.Base.{
  ℕ, ◌+◌, ◌<◌, ◌≡◌, refl, ap, sym, ◌∙◌, List, [], ◌∷◌, ◌++◌, length, length-append, arith,
}
use hc_pool.Base.Text.{Text, lower}
use hc_pool.Base.Hex.{Bytes, ℤ, hex, unhex, digit_value}
use hc_pool.Base.Hex.Laws.{AreBytes, unhex-hex_append}
use hc_pool.Template.{
  TxIn, Transaction, JobTemplate, Bitcoin, script_of, set_first_script, with_script,
}
use hc_pool.Job.{MiningJob, nonce_script, copy_and_update_block}
use hc_pool.Job.Slot.{first_script-set, unhex-hex, nonce_script-keep}
use hc_pool.Session.State.{Client}
use hc_pool.Session.Work.{session_of}
use hc_pool.Signet.Encoding.{Library}
use hc_pool.Signet.{with_push}

pub unhex-lower : (s : Text) → unhex (lower s) ≡ unhex s
unfolding unhex lower digit_value
unhex-lower [] = refl
unhex-lower (c ∷ []) = refl
unhex-lower (c ∷ d ∷ s) = ground (arith, unhex-lower s)

pub set_first_script-twice :
    (s : Bytes) (is : List TxIn)
    → set_first_script s (set_first_script s is) ≡ set_first_script s is
set_first_script-twice s [] = refl
set_first_script-twice s (i ∷ is) = refl

-- Filling the slot a second time with the same bytes changes nothing.
pub nonce_script-twice :
    (btc : Bitcoin) (keep slot e1 e2 : Bytes) (first second : Text)
    → length slot ≡ 8
    → length e1 + length e2 ≡ 8
    → AreBytes keep
    → AreBytes e1
    → AreBytes e2
    → first ≡ hex e2
    → lower second ≡ lower first
    → nonce_script btc (nonce_script btc (keep ++ slot) (hex e1) first) (hex e1) second
      ≡ nonce_script btc (keep ++ slot) (hex e1) first
nonce_script-twice btc keep slot e1 e2 first second l total k h1 h2 same lock =
    let bytes : unhex second ≡ unhex first =
      sym (unhex-lower second) ∙ ap unhex lock ∙ unhex-lower first in
    let filled : (t : Text)
        → unhex t ≡ unhex first
        → (slot' : Bytes) → length slot' ≡ 8
        → nonce_script btc (keep ++ slot') (hex e1) t ≡ keep ++ (e1 ++ e2) =
      λ t e slot' l'.
        nonce_script-keep btc keep slot' (hex e1) t l' k
        ∙ ap (◌++◌ keep)
            (unhex-hex_append e1 t h1 ∙ ap (◌++◌ e1) (e ∙ ap unhex same ∙ unhex-hex e2 h2)) in
    ap (λ z. nonce_script btc z (hex e1) second) (filled first refl slot l)
    ∙ filled second bytes (e1 ++ e2) (omega (arith, total, length-append e1 e2))
    ∙ sym (filled first refl slot l)

-- A copy of the signed coinbase whose nonces are the signed ones.
pub copy-transactions :
    (btc : Bitcoin) (lib : Library) (locked : MiningJob) (template : JobTemplate)
    (old : Transaction) (i : ℕ) (bytes script : Bytes) (mask nonce time : ℤ) (first second : Text)
    → locked.coinbase_transaction ≡ with_push lib i bytes (with_script script old)
    → 0 < length old.ins
    → nonce_script btc script first second ≡ script
    → (copy_and_update_block btc locked template mask nonce first second time).1.transactions
      ≡ with_push lib i bytes (with_script script old) ∷ tail template.block.transactions
unfolding copy_and_update_block
copy-transactions btc lib locked template old i bytes script mask nonce time first second e
      has_input stays =
    let held = first_script-set script old.ins has_input in
    let again =
      ap (λ z. set_first_script (nonce_script btc z first second) (set_first_script script old.ins))
        held
      ∙ ap (λ z. set_first_script z (set_first_script script old.ins)) stays
      ∙ set_first_script-twice script old.ins in
    rw e (
      ap
        (λ z.
          record (with_push lib i bytes (with_script script old)) { ins = z }
          ∷ tail template.block.transactions)
        again)

-- The script of the job has room for the nonces of the session, which are bytes in hexadecimal.
pub record HasRoom (c : Client) (job : MiningJob) : Type 0 where
  pub keep : Bytes
  pub slot : Bytes
  pub e1 : Bytes
  pub e2 : Bytes
  pub has_input : 0 < length job.coinbase_transaction.ins
  pub script : script_of job.coinbase_transaction ≡ keep ++ slot
  pub room : length slot ≡ 8
  pub total : length e1 + length e2 ≡ 8
  pub keep_bytes : AreBytes keep
  pub first_bytes : AreBytes e1
  pub second_bytes : AreBytes e2
  pub session : session_of c ≡ hex e1
  pub locked_nonce : c.signet_locked_extra_nonce2 ≡ hex e2

pub HasRoom-stays :
    (btc : Bitcoin) (c : Client) (job : MiningJob) (second : Text)
    → HasRoom c job
    → lower c.signet_locked_extra_nonce2 ≡ lower second
    → let first = c.signet_locked_extra_nonce2 in
      let script = nonce_script btc (script_of job.coinbase_transaction) (session_of c) first in
      nonce_script btc script (session_of c) second ≡ script
HasRoom-stays btc c job second room lock =
    let first = c.signet_locked_extra_nonce2 in
    rw (room.script, room.session)
      (nonce_script-twice btc room.keep room.slot room.e1 room.e2 first second room.room room.total
        room.keep_bytes room.first_bytes room.second_bytes room.locked_nonce (sym lock))
