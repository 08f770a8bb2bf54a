-- ===== src/Job/Slot.antt =====
-- The slot at the end of the coinbase script that each submission fills with its nonces
-- (`copyAndUpdateBlock` of src/models/MiningJob.ts).
use mathlib.Core.List.{append-nil, append_assoc}
use hc_pool.Base.{
  ℕ, zero, suc, ◌+◌, ◌-◌, ◌*◌, ◌<◌, ◌≡◌, refl, ap, sym, ◌∙◌, List, [], ◌∷◌, ◌++◌, length, take,
  drop, take_append, length-append, take-append-drop, length-take, length-drop, arith,
}
use hc_pool.Base.Text.{Text}
use hc_pool.Base.Hex.{Bytes, ℤ, hex, unhex}
use hc_pool.Base.Hex.Laws.{AreBytes, unhex-hex_append, hex-append, length-hex}
use hc_pool.Template.{TxIn, Block, JobTemplate, Bitcoin, script_of, first_script, set_first_script}
use hc_pool.Job.{MiningJob, nonce_script, copy_and_update_block}

pub unhex-hex : (bs : Bytes) → AreBytes bs → unhex (hex bs) ≡ bs
unfolding unhex
unhex-hex bs h = ap unhex (sym (append-nil (hex bs))) ∙ unhex-hex_append bs [] h ∙ append-nil bs

kept_digits :
    (keep slot : Bytes)
    → take (length (hex (keep ++ slot)) - length slot * 2) (hex (keep ++ slot)) ≡ hex keep
kept_digits keep slot =
    let count : length (hex (keep ++ slot)) - length slot * 2 ≡ length (hex keep) =
      omega (arith, length-hex (keep ++ slot), length-hex keep, length-append keep slot) in
    rw (count, hex-append keep slot) (take_append (hex keep) (hex slot))

-- The texts of the nonces are read behind all but the last 8 bytes.
pub nonce_script-keep :
    (btc : Bitcoin) (keep slot : Bytes) (first second : Text)
    → length slot ≡ 8
    → AreBytes keep
    → nonce_script btc (keep ++ slot) first second ≡ keep ++ unhex (first ++ second)
unfolding nonce_script
nonce_script-keep btc keep slot first second l k =
    let size : length slot * 2 ≡ 16 = omega arith in
    let kept : take (length (hex (keep ++ slot)) - 16) (hex (keep ++ slot)) ≡ hex keep =
      rw size at (kept_digits keep slot) in
    rw kept (unhex-hex_append keep (first ++ second) k)

-- Whatever stands in the last 8 bytes of the script, the nonces take its place.
pub nonce_script-append :
    (btc : Bitcoin) (keep slot e1 e2 : Bytes)
    → length slot ≡ 8
    → AreBytes keep
    → AreBytes e1
    → AreBytes e2
    → nonce_script btc (keep ++ slot) (hex e1) (hex e2) ≡ keep ++ (e1 ++ e2)
nonce_script-append btc keep slot e1 e2 l k h1 h2 =
    nonce_script-keep btc keep slot (hex e1) (hex e2) l k
    ∙ ap (◌++◌ keep) (unhex-hex_append e1 (hex e2) h1 ∙ ap (◌++◌ e1) (unhex-hex e2 h2))

pub first_script-set :
    (s : Bytes) (is : List TxIn) → 0 < length is → first_script (set_first_script s is) ≡ s
first_script-set s [] h = elim h [ ]
first_script-set s (i ∷ is) h = refl

pub length-set_first_script :
    (s : Bytes) (is : List TxIn) → length (set_first_script s is) ≡ length is
length-set_first_script s [] = refl
length-set_first_script s (i ∷ is) = refl

-- What a submission brings; the nonces are bytes in hexadecimal.
pub record Round : Type 0 where
  pub mask : ℤ
  pub nonce : ℤ
  pub time : ℤ
  pub e1 : Bytes
  pub e2 : Bytes

abbrev pub Fits : Round → Type 0
Fits s = (length s.e1 + length s.e2 ≡ 8) × AreBytes s.e1 × AreBytes s.e2

abbrev pub AllFit : List Round → Type 0
AllFit [] = Unit {0}
AllFit (s ∷ rounds) = Fits s × AllFit rounds

abbrev pub submit : Bitcoin → MiningJob → JobTemplate → Round → MiningJob × Block
submit btc job template s =
    copy_and_update_block btc job template s.mask s.nonce (hex s.e1) (hex s.e2) s.time

-- The script of the coinbase after a submission, whatever stood in the slot.
pub submit-script :
    (btc : Bitcoin) (keep slot : Bytes) (job : MiningJob) (template : JobTemplate) (s : Round)
    → 0 < length job.coinbase_transaction.ins
    → script_of job.coinbase_transaction ≡ keep ++ slot
    → length slot ≡ 8
    → AreBytes keep
    → AreBytes s.e1
    → AreBytes s.e2
    → script_of (submit btc job template s).0.coinbase_transaction ≡ keep ++ (s.e1 ++ s.e2)
unfolding copy_and_update_block
submit-script btc keep slot job template s h e l k h1 h2 =
    first_script-set _ job.coinbase_transaction.ins h
    ∙ ap (λ z. nonce_script btc z (hex s.e1) (hex s.e2)) e
    ∙ nonce_script-append btc keep slot s.e1 s.e2 l k h1 h2

submit-has_input :
    (btc : Bitcoin) (job : MiningJob) (template : JobTemplate) (s : Round)
    → 0 < length job.coinbase_transaction.ins
    → 0 < length (submit btc job template s).0.coinbase_transaction.ins
unfolding copy_and_update_block
submit-has_input btc job template s h =
    rw (length-set_first_script _ job.coinbase_transaction.ins) h

AreBytes-append : (bs cs : Bytes) → AreBytes bs → AreBytes cs → AreBytes (bs ++ cs)
AreBytes-append [] cs h k = k
AreBytes-append (b ∷ bs) cs (p, h) k = (p, AreBytes-append bs cs h k)

AreBytes-take : (n : ℕ) (bs : Bytes) → AreBytes bs → AreBytes (take n bs)
AreBytes-take zero bs h = tt
AreBytes-take (suc n) [] h = tt
AreBytes-take (suc n) (b ∷ bs) (p, h) = (p, AreBytes-take n bs h)

-- A nonce that is too long stays in the job: if the two nonces of one submission have 8 + extra
-- bytes, the script that the next submission of 8 bytes is hashed with is longer than the miner's
-- by those extra bytes.
pub oversized_nonce_sticks :
    (btc : Bitcoin) (keep slot : Bytes) (job : MiningJob) (template : JobTemplate) (long s : Round)
    (extra : ℕ)
    → 0 < length job.coinbase_transaction.ins
    → script_of job.coinbase_transaction ≡ keep ++ slot
    → length slot ≡ 8
    → AreBytes keep
    → length long.e1 + length long.e2 ≡ 8 + extra
    → AreBytes long.e1
    → AreBytes long.e2
    → Fits s
    → length
        (script_of (submit btc (submit btc job template long).0 template s).0.coinbase_transaction)
      ≡ length (keep ++ (s.e1 ++ s.e2)) + extra
oversized_nonce_sticks btc keep slot job template long s extra h e l k m b1 b2 f =
    let nonces = long.e1 ++ long.e2 in
    let size : length nonces ≡ 8 + extra = length-append long.e1 long.e2 ∙ m in
    let keep' = keep ++ take extra nonces in
    let script' : script_of (submit btc job template long).0.coinbase_transaction
        ≡ keep' ++ drop extra nonces =
      submit-script btc keep slot job template long h e l k b1 b2
      ∙ ap (◌++◌ keep) (sym (take-append-drop extra nonces))
      ∙ sym (append_assoc keep (take extra nonces) (drop extra nonces)) in
    let bytes' =
      AreBytes-append keep (take extra nonces) k
        (AreBytes-take extra nonces (AreBytes-append long.e1 long.e2 b1 b2)) in
    ap length (
      submit-script btc keep' (drop extra nonces) (submit btc job template long).0 template s
        (submit-has_input btc job template long h) script'
        (omega (arith, length-drop extra nonces, size)) bytes' f.1 f.2)
    ∙ omega (
      arith,
      length-append keep' (s.e1 ++ s.e2),
      length-append keep (take extra nonces),
      length-append keep (s.e1 ++ s.e2),
      length-take extra nonces,
      size,
    )
