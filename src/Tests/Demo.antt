-- ===== src/Tests/Demo.antt =====
-- Test data: a small stand-in for bitcoinjs-lib, a template, a job, and a session that has one.
use hc_pool.Base.{
  ◌*◌, ◌%◌, ◌≡◌, refl, true, false, none, some, List, [], ◌∷◌, ◌++◌, length, replicate, or_else,
  ◌^◌, ◌/◌, if◌then◌else◌,
}
use hc_pool.Base.Double.{unit}
use hc_pool.Base.Text.{codes, text_eq}
use hc_pool.Base.Table.{empty}
use hc_pool.Base.Hex.{Bytes, pos}
use hc_pool.Base.Json.{num}
use hc_pool.Bucket.{grain}
use hc_pool.Difficulty.{ratio}
use hc_pool.Template.{
  TxIn, Transaction, JobTemplate, Bitcoin, script_of, first_script, set_first_script,
}
use hc_pool.Job.Coinbase.{AddressObject, JobConfig, build_coinbase}
use hc_pool.Job.{MiningJob, new}
use hc_pool.Job.RoundTrip.{Serializes}
use hc_pool.Job.Slot.{Round}
use hc_pool.Jobs.{JobService}
use hc_pool.Authz.{MiningAuthz, failed}
use hc_pool.Metrics.{no_metrics}
use hc_pool.Messages.{MiningSubmitMessage}
use hc_pool.Session.State.{Profile, Client, World, Setup, Env}
use hc_pool.Session.{new_client}
use hc_pool.Statistics

abbrev pub demo_bitcoin : Bitcoin
demo_bitcoin = record {
  hash256 = λ bs. length bs % 256 ∷ replicate 31 0;
  serialize = λ tx. tx.version ∷ length (script_of tx) ∷ (script_of tx ++ (tx.locktime ∷ []));
  tx_hash = λ tx. replicate 32 1;
  tx_weight = λ tx. 400;
  block_weight = λ b. 800;
  header = λ b. some (replicate 80 0);
  block_hex = λ b. codes "00";
  encode_number = λ n. n % 256 ∷ [];
  op_return = λ bs. 0x6a ∷ bs;
  output_script = λ address. some address;
}

abbrev script-length :
    (s : Bytes) (ins : List TxIn)
    → length s ≡ length (first_script ins)
    → length (first_script (set_first_script s ins)) ≡ length (first_script ins)
script-length s [] h = refl
script-length s (i ∷ is) h = h

abbrev pub demo_layout : Serializes demo_bitcoin
demo_layout = record {
  head = λ tx. tx.version ∷ length (script_of tx) ∷ [];
  foot = λ tx. tx.locktime ∷ [];
  layout = λ tx. refl;
  head_stable = λ tx s h i. tx.version ∷ script-length s tx.ins h i ∷ [];
  foot_stable = λ tx s h. refl;
}

abbrev pub demo_config : JobConfig
demo_config = record {
  enable_segwit = false;
  pool_identifier = some (codes "pool");
  bootstrap_enabled = none;
  bootstrap_message = none;
  bootstrap_height_max = none;
}

abbrev pub demo_addresses : List AddressObject
demo_addresses =
    record { address = codes "dev"; percent = 3 * unit }
    ∷ record { address = codes "miner"; percent = 97 * unit }
    ∷ []

abbrev pub demo_template : JobTemplate
demo_template = record {
  block = record {
    version = pos 536870912;
    prev_hash = replicate 32 7;
    merkle_root = replicate 32 0;
    timestamp = pos 1700000000;
    bits = 0x207fffff;
    nonce = pos 0;
    witness_commit = none;
    transactions = [];
  };
  merkle_branch = [];
  id = codes "1";
  creation = 1000;
  coinbase_value = 5000000001;
  network_difficulty = ratio 1 1;
  height = 101;
  signet_challenge = none;
  clear_jobs = true;
}

abbrev empty_transaction : Transaction
empty_transaction = record { version = 2; locktime = 0; ins = []; outs = [] }

abbrev empty_job : MiningJob
empty_job = record {
  job_id = [];
  coinbase_transaction = empty_transaction;
  coinbase_part1 = [];
  coinbase_part2 = [];
  job_template_id = [];
  creation = 0;
  owner_session_id = [];
  signet_locked = false;
  locked_extra_nonce2 = none;
  locked_ntime = none;
  locked_version_mask = pos 0;
}

abbrev pub demo_transaction : Transaction
demo_transaction =
    or_else (build_coinbase demo_bitcoin demo_config demo_addresses demo_template) empty_transaction

abbrev pub demo_job : MiningJob
demo_job =
    or_else
      (new demo_bitcoin demo_config (codes "1") (codes "0000002a") demo_addresses demo_template
        1000)
      empty_job

abbrev pub demo_round : Round
demo_round = record {
  mask = pos 0;
  nonce = pos 7;
  time = pos 1700000001;
  e1 = 0 ∷ 0 ∷ 0 ∷ 42 ∷ [];
  e2 = 1 ∷ 2 ∷ 3 ∷ 4 ∷ [];
}

abbrev pub demo_authz : MiningAuthz
demo_authz = record {
  enabled = false;
  backend_url = [];
  backend_api_key = [];
  challenge_ttl_ms = some (pos 30000);
}

abbrev pub demo_profile : Profile
demo_profile = record {
  diff1_target = 0xffff * 2 ^ 208;
  stratum_init_diff = 1024 * grain;
  stratum_min_diff = grain;
  stratum_max_diff = 65536 * grain;
  stratum_target_shares_per_second = grain / 10;
}

abbrev pub demo_setup : Setup
demo_setup = record {
  bitcoin = demo_bitcoin;
  big = ratio;
  profile = demo_profile;
  job_config = demo_config;
  authz = demo_authz;
  signer = record { enabled = false; sign_block = λ b c. none };
  dev_fee_address = none;
  dev_fee_percent = none;
  bucket_enforcement_enabled = none;
  external_share_submission_enabled = none;
  minimum_difficulty = 1000000000000 * grain;
}

abbrev pub demo_env : Env
demo_env = record {
  now = 2000;
  random_u32 = 42;
  challenge_id_bytes = replicate 16 1;
  challenge_nonce_bytes = replicate 32 2;
  verify = λ r. failed;
  authorize = λ d w. failed;
  write_fails = λ n. false;
  save_fails = λ n. false;
  submit_block = λ h. none;
  address_best = λ a. ratio 0 1;
}

abbrev pub demo_service : JobService
demo_service = record {
  last_interval_count = some (pos 3);
  skip_next = false;
  stale_job_grace_ms = 1500;
  latest_job_id = 2;
  latest_job_template_id = 2;
  jobs = λ id. if text_eq id (codes "1") then some demo_job else none;
  blocks = λ id. if text_eq id (codes "1") then some demo_template else none;
  stale_template_since_ms = empty;
}

-- A session that subscribed and authorized, and has been sent its first job.
abbrev pub demo_client : Client
demo_client = record (new_client demo_setup (codes "00000000")) {
  client_subscription = some (record { id = num (pos 1); user_agent = codes "bitaxe" });
  client_authorization =
      some (record { id = num (pos 2); address = codes "miner"; worker = codes "rig" });
  subscribed_to_jobs = true;
  difficulty_timer = true;
  statistics = some (Statistics.new (grain / 10) grain 500);
  stratum_initialized = true;
  session_start = some 500;
  extra_nonce_and_session_id = some (codes "0000002a");
}

abbrev pub demo_world : World
demo_world = record {
  client = demo_client;
  service = demo_service;
  metrics = no_metrics;
  socket = record { destroyed = false; writable_ended = false };
  sent = [];
  writes = 4;
  effects = [];
}

abbrev pub demo_submit : MiningSubmitMessage
demo_submit = record {
  id = num (pos 3);
  job_id = codes "1";
  extra_nonce2 = codes "01020304";
  ntime = codes "6553f101";
  nonce = codes "00000007";
  version_mask = codes "0";
}
