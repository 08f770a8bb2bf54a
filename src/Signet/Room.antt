-- ===== src/Signet/Room.antt =====
-- Why a job has room for the nonces of its session: the job's script is that of the constructor of
-- src/models/MiningJob.ts, and the nonces are those of src/models/StratumV1Client.ts.
use hc_pool.Base.{
  ℕ, ◌^◌, ◌≤◌, ◌<◌, ◌≡◌, refl, ap, ◌∙◌, Option, some, List, length, replicate, arith,
}
use hc_pool.Base.Text.{Text}
use hc_pool.Base.Hex.Laws.{AreBytes}
use hc_pool.Template.{Transaction, JobTemplate, Bitcoin, script_of}
use hc_pool.Job.Coinbase.{JobConfig, AddressObject, build_coinbase}
use hc_pool.Job.{MiningJob, initial, new, rebuild_coinbase_parts}
use hc_pool.Job.Fresh.{AreBytes-front}
use hc_pool.Job.Script.{build_coinbase-WellFormed}
use hc_pool.Session.State.{Client}
use hc_pool.Session.{get_random_hex_string}
use hc_pool.Session.Nonces.{normalize_signet_extra_nonce2, session-AreNonces}
use hc_pool.Signet.Refill.{HasRoom}

-- A session that has its two nonces, the random one and the configured one, and any job that the
-- constructor makes for it with a height of at most 3 bytes: the job has room for the nonces.
pub new-HasRoom :
    (btc : Bitcoin) (config : JobConfig) (job_id owner : Text) (addresses : List AddressObject)
    (template : JobTemplate) (now n : ℕ) (raw_value : Option Text) (tx : Transaction)
    (job : MiningJob) (c : Client)
    → build_coinbase btc config addresses template ≡ some tx
    → new btc config job_id owner addresses template now ≡ some job
    → length (btc.encode_number template.height) ≤ 3
    → AreBytes (script_of tx)
    → n < 2 ^ 32
    → c.extra_nonce_and_session_id ≡ some (get_random_hex_string n)
    → c.signet_locked_extra_nonce2 ≡ normalize_signet_extra_nonce2 raw_value
    → HasRoom c job
unfolding new initial rebuild_coinbase_parts
new-HasRoom btc config job_id owner addresses template now n raw_value tx job c built made h bytes
      small first second =
    let (one, w) = build_coinbase-WellFormed btc config addresses template tx h built in
    let start = initial job_id owner template.id tx now in
    let same : rebuild_coinbase_parts btc start ≡ job = ground arith in
    let coinbase : tx ≡ job.coinbase_transaction =
      ap (λ (j : MiningJob). j.coinbase_transaction) same in
    let nonces = session-AreNonces raw_value n small in
    record {
      keep = w.keep;
      slot = replicate 8 0;
      e1 = nonces.e1;
      e2 = nonces.e2;
      has_input = rw (← coinbase) (omega (arith, one));
      script = rw (← coinbase) w.layout;
      room = refl;
      total = omega (arith, nonces.first_size, nonces.second_size);
      keep_bytes = AreBytes-front w.keep (replicate 8 0) (rw w.layout at bytes);
      first_bytes = nonces.first_bytes;
      second_bytes = nonces.second_bytes;
      session = rw first nonces.first_hex;
      locked_nonce = second ∙ nonces.second_hex;
    }
