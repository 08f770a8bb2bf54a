-- ===== src/Tests/Signing.antt =====
-- The theorems on the signing of signet blocks at a concrete block, and a locked job.
use mathlib.Core.List.{head?}
use hc_pool.Base.{
  ◌≡◌, ◌↔◌, ℕ, refl, ap, ◌∙◌, sym, subst, true, Option, some, List, [], ◌∷◌, ◌++◌, replicate, arith,
}
use hc_pool.Profile.{trim, all_hex}
use hc_pool.Base.Text.{Text, codes, lower, is_true, text_eq}
use hc_pool.Base.Hex.{Bytes, pos, hex, unhex, trim_start, digit_value, hex_digit, int_eq}
use hc_pool.Template.{Transaction, Block, JobTemplate}
use hc_pool.Job.{
  MiningJob, nonce_script, copy_and_update_block, apply_signed_coinbase, matches_locked_submission,
  calculate_merkle_root_hash,
}
use hc_pool.Job.Merkle.{calculate_merkle_root_hash-eq}
use hc_pool.Job.Lock.{apply_signed_coinbase-matches_iff}
use hc_pool.Session.State.{Client, Setup, Env}
use hc_pool.Session.Work.{session_of, prepare_signet_locked_job}
use hc_pool.Signet.Encoding.{
  Library, opcode, push, op_return, segwit_witness_magic, is_commitment, find_data_chunk, returned,
}
use hc_pool.Signet.{
  SigningService, is_key_hex, new, sign_block, signer_of, find_witness_commitment_output_index,
  challenge_of,
}
use hc_pool.Signet.Copies.{Reparses}
use hc_pool.Signet.Keys.{Names, new-HasKey}
use hc_pool.Signet.Script.{IsUnsigned}
use hc_pool.Signet.Node.{
  accepts, take_solution, script_at, get_witness_commitment_index, has_commitment,
}
use hc_pool.Signet.Verify.{Fresh, sign_block-Signed, sign_block-accepted}
use hc_pool.Signet.Errors.{HasCommitment, sign_block-returned_iff}
use hc_pool.Signet.Refill.{HasRoom}
use hc_pool.Signet.Room.{new-HasRoom}
use hc_pool.Session.{get_random_hex_string}
use hc_pool.Session.Nonces.{normalize_signet_extra_nonce2}
use hc_pool.Job.Coinbase.{build_coinbase, create_coinbase_transaction}
use hc_pool.Base.Hex.{to_hex}
use hc_pool.Base.Text.{index_of, starts_with, utf8}
use hc_pool.Tests.Demo.{demo_bitcoin, demo_config, demo_addresses, demo_transaction}
use hc_pool.Signet.Locked.{locked_job-accepted, presigned, BranchOf}
use hc_pool.Tests.Demo.{demo_setup, demo_env, demo_client, demo_template, demo_job}
use hc_pool.Tests.Scripts.{
  demo_library, demo_laws, demo_interpreter, demo_short, hash_of, root_of-length,
}

-- The job that `prepareSignetLockedJob` makes of what the service returns.
prepare-signed :
    (lib : Library) (service : SigningService) (base : Setup) (env : Env) (c : Client)
    (template : JobTemplate) (job : MiningJob) (b : Block) (first : Transaction)
    → service.enabled ≡ true
    → sign_block lib service (presigned base c template job) template.signet_challenge ≡ returned b
    → head? b.transactions ≡ some first
    → prepare_signet_locked_job (record base { signer = signer_of lib service }) env c template job
      ≡ some (
          apply_signed_coinbase base.bitcoin
            (copy_and_update_block base.bitcoin job template
              (pos 0)
              (pos 0)
              (session_of c)
              c.signet_locked_extra_nonce2
              template.block.timestamp).0
            first
            c.signet_locked_extra_nonce2
            template.block.timestamp
            (pos 0))
unfolding prepare_signet_locked_job signer_of
prepare-signed lib service base env c template job b first on signs h = rw (signs, h, on) refl

abbrev key_text : Text
key_text = codes "1111111111111111111111111111111111111111111111111111111111111111"

abbrev key : Bytes
key = replicate 32 0x11

abbrev service : SigningService
service = record {
  enabled = true;
  private_key = some key;
  challenge_script = some (challenge_of demo_library key);
}

service_made : new demo_library (some (codes "true")) (some key_text) ≡ returned service
unfolding new trim trim_start is_key_hex lower all_hex unhex digit_value is_true text_eq
service_made = refl

-- A coinbase with an output for the miner, and one with a commitment.
abbrev commitment : Bytes
commitment =
    demo_library.compile (opcode op_return ∷ push (segwit_witness_magic ++ replicate 32 9) ∷ [])

abbrev script : Bytes
script = replicate 4 3 ++ replicate 8 0

abbrev coinbase : Transaction
coinbase = record {
  version = 2;
  locktime = 0;
  ins =
      record {
        hash = replicate 32 0;
        index = 0xffffffff;
        script = script;
        sequence = 0xffffffff;
        witness = replicate 32 0 ∷ [];
      }
      ∷ [];
  outs =
      record { script = codes "miner"; value = 50 }
      ∷ record { script = commitment; value = 0 }
      ∷ [];
}

abbrev block : Block
block = record (demo_template.block) { transactions = coinbase ∷ coinbase ∷ [] }

abbrev challenge_text : Option Text
challenge_text = some (hex (challenge_of demo_library key))

found : find_witness_commitment_output_index demo_library coinbase.outs ≡ some 1
unfolding find_witness_commitment_output_index is_commitment find_data_chunk text_eq
found = refl

unsigned : IsUnsigned demo_library coinbase.outs 1
unfolding take_solution script_at text_eq get_witness_commitment_index has_commitment
unsigned = record {
  script = commitment;
  chunks = opcode op_return ∷ push (segwit_witness_magic ++ replicate 32 9) ∷ [];
  last = refl;
  stands = refl;
  reads = refl;
  shortest = refl;
  clean = refl;
}

-- A block whose first transaction is known, with its commitment.
some_injective : {a b : ℕ} → some a ≡ some b → a ≡ b
some_injective h = cc

Fresh-from :
    (b : Block) (first : Transaction) (others : List Transaction)
    → b.transactions ≡ first ∷ others
    → first.outs ≡ coinbase.outs
    → Fresh demo_library b
Fresh-from b first others t outs c rest i same reached =
    let first_same : c ≡ first = cc (same, t) in
    let outs_same : c.outs ≡ coinbase.outs = ap (λ (tx : Transaction). tx.outs) first_same ∙ outs in
    let index : 1 ≡ i = some_injective (
      sym found
      ∙ ap (find_witness_commitment_output_index demo_library) (sym outs_same)
      ∙ reached) in
    subst (λ os. IsUnsigned demo_library os i) (sym outs_same)
      (subst (IsUnsigned demo_library coinbase.outs) index unsigned)

fresh : Fresh demo_library block
fresh = Fresh-from block coinbase (coinbase ∷ []) refl refl

reparses : Reparses demo_library block.transactions
unfolding text_eq
reparses = (refl, (refl, tt))

signed : (b : Block) × (sign_block demo_library service block challenge_text ≡ returned b)
unfolding hex
signed =
    (sign_block-returned_iff demo_library demo_short (some (codes "true")) (some key_text)
        challenge_text service block service_made refl reparses (omega arith) (omega arith)).1
      ((challenge_of demo_library key, refl, refl), (coinbase, coinbase ∷ [], 1, refl, found))

sign_block-returned_iff_example :
    ((b : Block) × (sign_block demo_library service block challenge_text ≡ returned b)) ↔ (
      ((challenge : Bytes) × (service.challenge_script ≡ some challenge)
        × Names challenge_text challenge)
      × HasCommitment demo_library block)
sign_block-returned_iff_example =
    sign_block-returned_iff demo_library demo_short (some (codes "true")) (some key_text)
      challenge_text service block service_made refl reparses (omega arith) (omega arith)

sign_block-accepted_example :
    (challenge : Bytes) × Names challenge_text challenge
    × (service.challenge_script ≡ some challenge)
    × (accepts demo_library demo_interpreter.verify_script challenge signed.0 ≡ some true)
sign_block-accepted_example =
    sign_block-accepted demo_library demo_laws demo_interpreter (some (codes "true"))
      (some key_text) challenge_text service block signed.0 root_of-length service_made refl
      reparses refl fresh signed.1

-- The session's setup: the hash of a transaction is the library's.
abbrev setup : Setup
setup = record demo_setup { bitcoin = record demo_bitcoin { tx_hash = hash_of } }

-- A session whose job has room for its nonces, and the job that it locks.
abbrev client : Client
client = record demo_client { signet_locked_extra_nonce2 = codes "01020304" }

abbrev template : JobTemplate
template = record demo_template { block = block; signet_challenge = challenge_text }

abbrev job : MiningJob
job = record demo_job { coinbase_transaction = coinbase }

room : HasRoom client job
unfolding hex hex_digit
room = record {
  keep = replicate 4 3;
  slot = replicate 8 0;
  e1 = 0 ∷ 0 ∷ 0 ∷ 42 ∷ [];
  e2 = 1 ∷ 2 ∷ 3 ∷ 4 ∷ [];
  has_input = omega arith;
  script = refl;
  room = refl;
  total = refl;
  keep_bytes = (omega arith, (omega arith, (omega arith, (omega arith, tt))));
  first_bytes = (omega arith, (omega arith, (omega arith, (omega arith, tt))));
  second_bytes = (omega arith, (omega arith, (omega arith, (omega arith, tt))));
  session = refl;
  locked_nonce = refl;
}

presigned-Reparses : Reparses demo_library (presigned setup client template job).transactions
unfolding copy_and_update_block text_eq nonce_script unhex hex digit_value hex_digit
presigned-Reparses = (refl, (refl, tt))

presigned-Fresh : Fresh demo_library (presigned setup client template job)
unfolding copy_and_update_block
presigned-Fresh = Fresh-from (presigned setup client template job) _ _ refl refl

branch : BranchOf demo_library setup template
unfolding hc_pool.Job.Merkle.branch_root
branch c = calculate_merkle_root_hash-eq setup.bitcoin (λ bs. refl) (hash_of c) [] refl tt

presigned_signed :
    (b : Block) × (sign_block demo_library service
        (presigned setup client template job)
        challenge_text
      ≡ returned b)
unfolding hex copy_and_update_block int_eq
presigned_signed =
    (sign_block-returned_iff demo_library demo_short (some (codes "true")) (some key_text)
        challenge_text service (presigned setup client template job) service_made refl
        presigned-Reparses (omega arith) (omega arith)).1
      ((challenge_of demo_library key, refl, refl), (_, _, 1, refl, found))

signed_coinbase : (tx : Transaction) × (head? presigned_signed.0.transactions ≡ some tx)
signed_coinbase =
    let has =
      new-HasKey demo_library (some (codes "true")) (some key_text) service service_made refl in
    let (named, parts) =
      sign_block-Signed demo_library service (presigned setup client template job)
        presigned_signed.0 challenge_text has refl presigned-Reparses presigned_signed.1 in
    (_, ap (λ (b : Block). head? b.transactions) parts.result)

abbrev locked : MiningJob
locked =
    apply_signed_coinbase setup.bitcoin
      (copy_and_update_block setup.bitcoin job template (pos 0) (pos 0) (session_of client)
        client.signet_locked_extra_nonce2 template.block.timestamp).0
      signed_coinbase.0 client.signet_locked_extra_nonce2 template.block.timestamp (pos 0)

passes : matches_locked_submission locked (codes "01020304") (pos 1700000000) (pos 0) ≡ true
passes =
    (apply_signed_coinbase-matches_iff setup.bitcoin
        (copy_and_update_block setup.bitcoin job template (pos 0) (pos 0) (session_of client)
          client.signet_locked_extra_nonce2 template.block.timestamp).0
        signed_coinbase.0 client.signet_locked_extra_nonce2 (codes "01020304")
        template.block.timestamp (pos 1700000000) (pos 0) (pos 0)).1
      (refl, refl, refl)

locked_job-accepted_example :
    (challenge : Bytes) × Names challenge_text challenge
    × (service.challenge_script ≡ some challenge)
    × (accepts demo_library demo_interpreter.verify_script challenge
          (copy_and_update_block setup.bitcoin locked template
            (pos 0)
            (pos 77)
            (session_of client)
            (codes "01020304")
            (pos 1700000000)).1
        ≡ some true)
locked_job-accepted_example =
    locked_job-accepted demo_library demo_laws demo_interpreter (some (codes "true"))
      (some key_text) service setup demo_env client template job locked (codes "01020304") (pos 77)
      (pos 1700000000) (pos 0) root_of-length service_made refl room presigned-Reparses refl
      presigned-Fresh branch
      (prepare-signed demo_library service setup demo_env client template job presigned_signed.0
        signed_coinbase.0 refl presigned_signed.1 signed_coinbase.1)
      passes

abbrev locked_client : Client
locked_client = record demo_client { signet_locked_extra_nonce2 = codes "0a0b0c0d" }

new-HasRoom_example : HasRoom locked_client demo_job
unfolding build_coinbase create_coinbase_transaction hc_pool.Job.Coinbase.pay_all
    hc_pool.Job.Coinbase.add_to_first hc_pool.Job.Coinbase.amount_of
    hc_pool.Base.Double.round_double hc_pool.Base.Double.bit_length
    hc_pool.Job.Coinbase.finish_coinbase hc_pool.Job.Coinbase.build_script
    hc_pool.Job.Coinbase.attach_bootstrap hc_pool.Job.Coinbase.should_attach_bootstrap
    hc_pool.Job.Coinbase.attach_witness hc_pool.Job.new hc_pool.Job.initial
    hc_pool.Job.rebuild_coinbase_parts index_of hc_pool.Base.Hex.hex hc_pool.Base.Hex.hex_digit
    starts_with is_true text_eq lower utf8 hc_pool.Base.Text.or_default get_random_hex_string
    normalize_signet_extra_nonce2 trim trim_start all_hex to_hex
new-HasRoom_example =
    new-HasRoom demo_bitcoin demo_config (codes "1") (codes "0000002a") demo_addresses demo_template
      1000 42 (some (codes " 0A0B0C0D")) demo_transaction demo_job locked_client refl refl
      (omega arith) (ground arith) (ground arith) refl refl
