-- ===== src/Signet/Locked.antt =====
-- Locked jobs, from `prepareSignetLockedJob` of src/models/StratumV1Client.ts to a submission that
-- `matchesLockedSubmission` of src/models/MiningJob.ts lets through: the block that goes to the
-- node still has the solution that was signed for it.
use mathlib.Core.List.{head?, tail}
use hc_pool.Base.{
  if◌then◌else◌, ◌≡◌, refl, ap, sym, ◌∙◌, true, Option, some, Option-cases, inl, inr, List, ◌∷◌,
  ◌++◌, length, arith,
}
use hc_pool.Base.Text.{Text}
use hc_pool.Base.Hex.{int_eq, xor32, Bytes, ℤ, pos}
use hc_pool.Template.{Transaction, Block, JobTemplate, script_of, with_script}
use hc_pool.Job.{
  MiningJob, nonce_script, copy_and_update_block, apply_signed_coinbase, matches_locked_submission,
  rebuild_coinbase_parts, calculate_merkle_root_hash,
}
use hc_pool.Job.Lock.{apply_signed_coinbase-matches_iff}
use hc_pool.Session.State.{Setup, Env, Client}
use hc_pool.Session.Work.{session_of, prepare_signet_locked_job}
use hc_pool.Signet.Encoding.{signet_header, Library, returned, Outcome-cases}
use hc_pool.Signet.{SigningService, challenge_of, new, sign_block, signer_of, with_push}
use hc_pool.Signet.Copies.{Reparses, Signed}
use hc_pool.Signet.Keys.{new-HasKey, Names}
use hc_pool.Signet.Script.{Scripts}
use hc_pool.Signet.Node.{accepts, accepts-from, solves-eq}
use hc_pool.Signet.Verify.{Interpreter, Fresh, sign_block-Signed, Signed-solves}
use hc_pool.Signet.Refill.{copy-transactions, HasRoom, HasRoom-stays}

-- What `prepareSignetLockedJob` does for a service that signs.
record Locks (setup : Setup) (env : Env) (c : Client) (lib : Library) (s : SigningService)
    (template : JobTemplate) (job locked : MiningJob) : Type 0 where
  signed : Block
  coinbase : Transaction
  signs :
      sign_block lib s
        (copy_and_update_block setup.bitcoin job template
          (pos 0)
          (pos 0)
          (session_of c)
          c.signet_locked_extra_nonce2
          template.block.timestamp).1
        template.signet_challenge
      ≡ returned signed
  first : head? signed.transactions ≡ some coinbase
  locks :
      locked
      ≡ apply_signed_coinbase setup.bitcoin
          (copy_and_update_block setup.bitcoin job template
            (pos 0)
            (pos 0)
            (session_of c)
            c.signet_locked_extra_nonce2
            template.block.timestamp).0
          coinbase
          c.signet_locked_extra_nonce2
          template.block.timestamp
          (pos 0)

prepare-Locks :
    (base : Setup) (env : Env) (c : Client) (lib : Library) (s : SigningService)
    (template : JobTemplate) (job locked : MiningJob)
    → s.enabled ≡ true
    → prepare_signet_locked_job (record base { signer = signer_of lib s }) env c template job
      ≡ some locked
    → Locks (record base { signer = signer_of lib s }) env c lib s template job locked
unfolding prepare_signet_locked_job signer_of
prepare-Locks base env c lib s template job locked on h =
    let r =
      copy_and_update_block base.bitcoin job template (pos 0) (pos 0) (session_of c)
        c.signet_locked_extra_nonce2 template.block.timestamp in
    elim (Outcome-cases (sign_block lib s r.1 template.signet_challenge)) [
      | inr (failure, signs) ↦ absurd (ground (arith, on, signs))
      | inl (signed, signs) ↦ elim (Option-cases (head? signed.transactions)) [
        | inl missing ↦ absurd (ground (arith, on, signs, missing))
        | inr (coinbase, first) ↦ record {
          signed = signed;
          coinbase = coinbase;
          signs = signs;
          first = first;
          locks = ground (arith, on, signs, first);
        }
      ]
    ]

Signed-transactions :
    (lib : Library) (key challenge : Bytes) (b signed : Block) (first : Transaction)
    (rest : List Transaction) (parts : Signed lib key challenge b signed)
    → b.transactions ≡ first ∷ rest
    → signed.transactions ≡ with_push lib parts.index (signet_header ++ parts.solution) first ∷ rest
Signed-transactions lib key challenge b signed first rest parts e =
    let same : parts.coinbase ≡ first = cc (parts.transactions, e) in
    let place = with_push lib parts.index (signet_header ++ parts.solution) in
    ap (λ (z : Block). z.transactions) parts.result
    ∙ ap (λ z. place z ∷ tail b.transactions) same
    ∙ ap (λ z. place first ∷ tail z) e

head-eq :
    {A : Type 0} (xs : List A) (x y : A) (ys : List A) → xs ≡ x ∷ ys → head? xs ≡ some y → y ≡ x
head-eq xs x y ys e h = cc (h, ap head? e)

abbrev pub presigned : Setup → Client → JobTemplate → MiningJob → Block
presigned setup c template job =
    (copy_and_update_block setup.bitcoin job template (pos 0) (pos 0) (session_of c)
      c.signet_locked_extra_nonce2 template.block.timestamp).1

-- The branch of a template proves the merkle root of its transactions, whatever the coinbase is.
abbrev pub BranchOf : Library → Setup → JobTemplate → Type 0
BranchOf lib setup template =
    (coinbase : Transaction)
    → calculate_merkle_root_hash setup.bitcoin (setup.bitcoin.tx_hash coinbase)
        template.merkle_branch
      ≡ lib.calculate_merkle_root (coinbase ∷ tail template.block.transactions)

-- A job that was locked by a service that signs: whatever second nonce, time and version mask a
-- submission has, if the lock lets it through then the block that goes to the node, with the nonce
-- that the miner found, passes the node's check of merkle root and solution for the service's
-- challenge, the proof of work aside. Conditions: merkle roots and the parent's hash have 32 bytes;
-- the job's script has room for the nonces (`HasRoom`); the presigned block's transactions are read
-- back as written (`Reparses`); its commitment output is the one that a node looks in, is written
-- the shortest way and has no solution yet (`Fresh`); the template's branch is that of its
-- transactions (`BranchOf`).
pub locked_job-accepted :
    (lib : Library) (laws : Scripts lib) (interpreter : Interpreter lib) (enable key : Option Text)
    (s : SigningService) (base : Setup) (env : Env) (c : Client) (template : JobTemplate)
    (job locked : MiningJob) (second : Text) (nonce time mask : ℤ)
    → ((txs : List Transaction) → length (lib.calculate_merkle_root txs) ≡ 32)
    → new lib enable key ≡ returned s
    → s.enabled ≡ true
    → HasRoom c job
    → Reparses lib (presigned base c template job).transactions
    → length template.block.prev_hash ≡ 32
    → Fresh lib (presigned base c template job)
    → BranchOf lib base template
    → prepare_signet_locked_job (record base { signer = signer_of lib s }) env c template job
      ≡ some locked
    → matches_locked_submission locked second time mask ≡ true
    → (challenge : Bytes) × Names template.signet_challenge challenge
      × (s.challenge_script ≡ some challenge)
      × (accepts lib interpreter.verify_script challenge
            (copy_and_update_block base.bitcoin locked template mask nonce
              (session_of c)
              second
              time).1
          ≡ some true)
unfolding copy_and_update_block apply_signed_coinbase rebuild_coinbase_parts
locked_job-accepted lib laws interpreter enable key s base env c template job locked second nonce
      time mask sizes made on room h p fresh branch prepared passes =
    let l = prepare-Locks base env c lib s template job locked on prepared in
    let has = new-HasKey lib enable key s made on in
    let first = c.signet_locked_extra_nonce2 in
    let old = job.coinbase_transaction in
    let script = nonce_script base.bitcoin (script_of old) (session_of c) first in
    let (named, parts) =
      sign_block-Signed lib s (presigned base c template job) l.signed template.signet_challenge has
        on h l.signs in
    let bytes = signet_header ++ parts.solution in
    let transactions =
      Signed-transactions lib has.key (challenge_of lib has.key) (presigned base c template job)
        l.signed (with_script script old) (tail template.block.transactions) parts refl in
    let coinbase = head-eq l.signed.transactions _ l.coinbase _ transactions l.first in
    let copied =
      (copy_and_update_block base.bitcoin job template (pos 0) (pos 0) (session_of c) first
        template.block.timestamp).0 in
    let (same_nonce, same_time, same_mask) =
      (apply_signed_coinbase-matches_iff base.bitcoin copied l.coinbase first second
          template.block.timestamp time (pos 0) mask).0
        (rw l.locks at passes) in
    let version = λ (m : ℤ).
      if int_eq m (pos 0) then template.block.version else xor32 template.block.version m in
    (
      challenge_of lib has.key,
      named,
      has.challenge_script,
      accepts-from lib interpreter.verify_script (challenge_of lib has.key) _ (branch _) (
          solves-eq lib interpreter.verify_script (challenge_of lib has.key) _ l.signed
            (copy-transactions base.bitcoin lib locked template old parts.index bytes script mask
                nonce time (session_of c) second
                (ap (λ (j : MiningJob). j.coinbase_transaction) l.locks ∙ coinbase) room.has_input
                (HasRoom-stays base.bitcoin c job second room same_nonce)
              ∙ sym transactions)
            (ap version (sym same_mask) ∙ sym (ap (λ (z : Block). z.version) parts.result))
            (sym (ap (λ (z : Block). z.prev_hash) parts.result))
            (sym same_time ∙ sym (ap (λ (z : Block). z.timestamp) parts.result))
          ∙ Signed-solves lib laws interpreter has.key (presigned base c template job) l.signed
              has.is_private sizes p fresh parts),
    )
