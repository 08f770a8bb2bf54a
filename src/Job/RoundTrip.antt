-- ===== src/Job/RoundTrip.antt =====
-- What a miner assembles from the two parts of `mining.notify` is what the pool hashes for a
-- submission (`rebuildCoinbaseParts` and `copyAndUpdateBlock` of src/models/MiningJob.ts).
use mathlib.Core.List.{append_assoc}
use hc_pool.Base.{
  ℕ, ◌+◌, ◌-◌, ◌<◌, ◌≡◌, refl, ap, sym, ◌∙◌, some, List, [], ◌∷◌, ◌++◌, length, take, drop,
  take_append, drop_append, length-append, arith,
}
use hc_pool.Base.Text.{index_of}
use hc_pool.Base.Hex.{Bytes, ℤ, hex}
use hc_pool.Base.Hex.Laws.{AreBytes, hex-append, length-hex}
use hc_pool.Template.{Transaction, JobTemplate, Bitcoin, script_of, with_script}
use hc_pool.Job.Slot.{
  nonce_script-append, first_script-set, length-set_first_script, Round, Fits, AllFit, submit,
  submit-script,
}
use hc_pool.Job.{
  MiningJob, part_one_index, rebuild_coinbase_parts, nonce_script, copy_and_update_block,
}

-- How a transaction is serialised, as far as the pool relies on it: the script of the first input
-- stands between bytes that only its length can change.
pub record Serializes (btc : Bitcoin) : Type 0 where
  pub head : Transaction → Bytes
  pub foot : Transaction → Bytes
  pub layout : (tx : Transaction) → btc.serialize tx ≡ head tx ++ (script_of tx ++ foot tx)
  pub head_stable :
      (tx : Transaction) (s : Bytes)
      → length s ≡ length (script_of tx)
      → head (with_script s tx) ≡ head tx
  pub foot_stable :
      (tx : Transaction) (s : Bytes)
      → length s ≡ length (script_of tx)
      → foot (with_script s tx) ≡ foot tx

-- The job's parts belong to its coinbase, whose script is `keep` and a slot of 8 bytes.
pub record Ready (btc : Bitcoin) (ser : Serializes btc) (keep : Bytes) (job : MiningJob)
    : Type 0 where
  pub slot : Bytes
  pub has_input : 0 < length job.coinbase_transaction.ins
  pub script : script_of job.coinbase_transaction ≡ keep ++ slot
  pub room : length slot ≡ 8
  pub part1 : job.coinbase_part1 ≡ hex (ser.head job.coinbase_transaction) ++ hex keep
  pub part2 : job.coinbase_part2 ≡ hex (ser.foot job.coinbase_transaction)

-- The digits of the script do not occur in the serialised coinbase before the script itself.
abbrev pub FoundInPlace : (btc : Bitcoin) → Serializes btc → Transaction → Type 0
FoundInPlace btc ser tx =
    index_of (hex (script_of tx)) (hex (btc.serialize tx)) ≡ some (length (hex (ser.head tx)))

digits :
    (a keep slot b : Bytes)
    → hex (a ++ ((keep ++ slot) ++ b)) ≡ (hex a ++ hex keep) ++ (hex slot ++ hex b)
digits a keep slot b = simp (hex-append, append_assoc)

parts_split :
    (a keep slot b : Bytes) (index : ℕ)
    → length slot ≡ 8
    → index ≡ length (hex a) + length (hex (keep ++ slot))
    → (take (index - 16) (hex (a ++ ((keep ++ slot) ++ b))) ≡ hex a ++ hex keep)
      × (drop index (hex (a ++ ((keep ++ slot) ++ b))) ≡ hex b)
parts_split a keep slot b index l e =
    let front : index - 16 ≡ length (hex a ++ hex keep) = omega (
      arith,
      length-append (hex a) (hex keep),
      length-hex keep,
      length-hex (keep ++ slot),
      length-append keep slot,
    ) in
    let whole : index ≡ length ((hex a ++ hex keep) ++ hex slot) = omega (
      arith,
      front,
      length-append (hex a ++ hex keep) (hex slot),
      length-append (hex a) (hex keep),
      length-hex keep,
      length-hex slot,
      length-hex (keep ++ slot),
      length-append keep slot,
    ) in
    let all = digits a keep slot b in
    (
      rw (all, front) (take_append (hex a ++ hex keep) (hex slot ++ hex b)),
      rw (all, ← append_assoc (hex a ++ hex keep) (hex slot) (hex b), whole)
          (drop_append ((hex a ++ hex keep) ++ hex slot) (hex b)),
    )

-- A fresh job is ready, if its coinbase has an input with a script of at least 8 bytes.
pub rebuild_coinbase_parts-Ready :
    (btc : Bitcoin) (ser : Serializes btc) (keep slot : Bytes) (job : MiningJob)
    → 0 < length job.coinbase_transaction.ins
    → script_of job.coinbase_transaction ≡ keep ++ slot
    → length slot ≡ 8
    → FoundInPlace btc ser job.coinbase_transaction
    → Ready btc ser keep (rebuild_coinbase_parts btc job)
unfolding rebuild_coinbase_parts
rebuild_coinbase_parts-Ready btc ser keep slot job h s l found =
    let tx = job.coinbase_transaction in
    let bytes : btc.serialize tx ≡ ser.head tx ++ ((keep ++ slot) ++ ser.foot tx) =
      ser.layout tx ∙ ap (λ z. ser.head tx ++ (z ++ ser.foot tx)) s in
    let place : part_one_index (hex (btc.serialize tx)) (hex (script_of tx))
        ≡ length (hex (ser.head tx)) + length (hex (keep ++ slot)) =
      rw (found, part_one_index) (ap (λ z. length (hex (ser.head tx)) + length (hex z)) s) in
    let (front, back) = parts_split (ser.head tx) keep slot (ser.foot tx) _ l place in
    record {
      slot = slot;
      has_input = h;
      script = s;
      room = l;
      part1 =
          ap (λ z. take (part_one_index (hex (btc.serialize tx)) (hex (script_of tx)) - 16) (hex z))
            bytes
          ∙ front;
      part2 =
          ap (λ z. drop (part_one_index (hex (btc.serialize tx)) (hex (script_of tx))) (hex z))
            bytes
          ∙ back;
    }

join :
    (a keep e1 e2 b : Bytes)
    → (hex a ++ hex keep) ++ (hex e1 ++ (hex e2 ++ hex b)) ≡ hex (a ++ ((keep ++ (e1 ++ e2)) ++ b))
join a keep e1 e2 b = simp (hex-append, append_assoc)

pub after_rounds : Bitcoin → MiningJob → JobTemplate → List Round → MiningJob
after_rounds btc job template [] = job
after_rounds btc job template (s ∷ rounds) =
    after_rounds btc (submit btc job template s).0 template rounds

module _ (btc : Bitcoin) (ser : Serializes btc) (keep : Bytes) where
  -- A submission whose nonces have 8 bytes together leaves the job ready for the next one.
  pub copy_and_update_block-Ready :
      (job : MiningJob) (template : JobTemplate) (mask nonce time : ℤ) (e1 e2 : Bytes)
      → Ready btc ser keep job
      → AreBytes keep
      → AreBytes e1
      → AreBytes e2
      → length e1 + length e2 ≡ 8
      → Ready btc ser keep
          (copy_and_update_block btc job template mask nonce (hex e1) (hex e2) time).0
  unfolding copy_and_update_block
  copy_and_update_block-Ready job template mask nonce time e1 e2 r k h1 h2 l =
      let old = job.coinbase_transaction in
      let s = nonce_script btc (script_of old) (hex e1) (hex e2) in
      let text : s ≡ keep ++ (e1 ++ e2) =
        ap (λ z. nonce_script btc z (hex e1) (hex e2)) r.script
        ∙ nonce_script-append btc keep r.slot e1 e2 r.room k h1 h2 in
      let same : length s ≡ length (script_of old) =
        ap length text
        ∙ omega (
          arith,
          ap length r.script,
          length-append keep (e1 ++ e2),
          length-append e1 e2,
          length-append keep r.slot,
          r.room,
        ) in
      record {
        slot = e1 ++ e2;
        has_input = rw (length-set_first_script s old.ins) r.has_input;
        script = first_script-set s old.ins r.has_input ∙ text;
        room = length-append e1 e2 ∙ l;
        part1 = r.part1 ∙ ap (λ z. hex z ++ hex keep) (sym (ser.head_stable old s same));
        part2 = r.part2 ∙ ap hex (sym (ser.foot_stable old s same));
      }

  parts-serialize :
      (job : MiningJob) (template : JobTemplate) (mask nonce time : ℤ) (e1 e2 : Bytes)
      → Ready btc ser keep job
      → AreBytes keep
      → AreBytes e1
      → AreBytes e2
      → length e1 + length e2 ≡ 8
      → job.coinbase_part1 ++ (hex e1 ++ (hex e2 ++ job.coinbase_part2))
        ≡ hex (
            btc.serialize
              (copy_and_update_block btc job template mask nonce
                (hex e1)
                (hex e2)
                time).0.coinbase_transaction)
  unfolding copy_and_update_block
  parts-serialize job template mask nonce time e1 e2 r k h1 h2 l =
      let job' = (copy_and_update_block btc job template mask nonce (hex e1) (hex e2) time).0 in
      let tx = job'.coinbase_transaction in
      let r' = copy_and_update_block-Ready job template mask nonce time e1 e2 r k h1 h2 l in
      ap (λ z. z ++ (hex e1 ++ (hex e2 ++ job.coinbase_part2))) r'.part1
      ∙ ap (λ z. (hex (ser.head tx) ++ hex keep) ++ (hex e1 ++ (hex e2 ++ z))) r'.part2
      ∙ join (ser.head tx) keep e1 e2 (ser.foot tx)
      ∙ ap (λ z. hex (ser.head tx ++ (z ++ ser.foot tx)))
          (sym (
            submit-script btc keep r.slot job template
              (record { mask = mask; nonce = nonce; time = time; e1 = e1; e2 = e2 }) r.has_input
              r.script r.room k h1 h2))
      ∙ ap hex (sym (ser.layout tx))

  -- Each round fits the slot.
  pub after_rounds-Ready :
      (job : MiningJob) (template : JobTemplate) (rounds : List Round)
      → Ready btc ser keep job
      → AreBytes keep
      → AllFit rounds
      → Ready btc ser keep (after_rounds btc job template rounds)
  unfolding after_rounds
  after_rounds-Ready job template [] r k f = r
  after_rounds-Ready job template (s ∷ rounds) r k (f, fs) =
      after_rounds-Ready (submit btc job template s).0 template rounds
        (copy_and_update_block-Ready job template s.mask s.nonce s.time s.e1 s.e2 r k f.1 f.2 f.0) k
        fs

parts-after_rounds :
    (btc : Bitcoin) (job : MiningJob) (template : JobTemplate) (rounds : List Round)
    → ((after_rounds btc job template rounds).coinbase_part1 ≡ job.coinbase_part1)
      × ((after_rounds btc job template rounds).coinbase_part2 ≡ job.coinbase_part2)
unfolding after_rounds copy_and_update_block
parts-after_rounds btc job template [] = (refl, refl)
parts-after_rounds btc job template (s ∷ rounds) =
    parts-after_rounds btc (submit btc job template s).0 template rounds

-- The job's parts, with the nonces of a submission between them, are the serialised coinbase that
-- the pool puts into the block for that submission; and this holds after any number of earlier
-- submissions to the same job. Each submission's two nonces have 8 bytes together.
pub miner_coinbase-eq :
    (btc : Bitcoin) (ser : Serializes btc) (keep slot : Bytes) (job : MiningJob)
    (template : JobTemplate) (rounds : List Round) (s : Round)
    → 0 < length job.coinbase_transaction.ins
    → script_of job.coinbase_transaction ≡ keep ++ slot
    → length slot ≡ 8
    → FoundInPlace btc ser job.coinbase_transaction
    → AreBytes keep
    → AllFit rounds
    → Fits s
    → let sent = rebuild_coinbase_parts btc job in
      sent.coinbase_part1 ++ (hex s.e1 ++ (hex s.e2 ++ sent.coinbase_part2))
      ≡ hex (
          btc.serialize
            (submit btc (after_rounds btc sent template rounds) template s).0.coinbase_transaction)
miner_coinbase-eq btc ser keep slot job template rounds s h e l found k fs f =
    let sent = rebuild_coinbase_parts btc job in
    let ready = rebuild_coinbase_parts-Ready btc ser keep slot job h e l found in
    let later = after_rounds-Ready btc ser keep sent template rounds ready k fs in
    let (p1, p2) = parts-after_rounds btc sent template rounds in
    ap (λ z. z ++ (hex s.e1 ++ (hex s.e2 ++ sent.coinbase_part2))) (sym p1)
    ∙ ap
        (λ z.
          (after_rounds btc sent template rounds).coinbase_part1 ++ (hex s.e1 ++ (hex s.e2 ++ z)))
        (sym p2)
    ∙ parts-serialize btc ser keep _ template s.mask s.nonce s.time s.e1 s.e2 later k f.1 f.2 f.0
