-- ===== src/Session/Work.antt =====
-- Jobs and difficulties of a session in src/models/StratumV1Client.ts: `clampDifficulty`,
-- `sendNewMiningJob`, `prepareSignetLockedJob`, `initStratum` and `checkDifficulty`.
use mathlib.Core.List.{head?}
use hc_pool.Base.{
  ℕ, ◌-◌, ◌*◌, ◌/◌, Bool, true, false, not, ◌&&◌, ◌||◌, Option, none, some, List, [], ◌∷◌,
  if◌then◌else◌, ltb, ◌==◌, or_else, is_some, maximum, minimum,
}
use hc_pool.Base.Double.{unit, round_double}
use hc_pool.Base.Text.{Text, codes, text_eq}
use hc_pool.Base.Table.{insert}
use hc_pool.Base.Hex.{ℤ, pos, negsuc}
use hc_pool.Bucket.{grain}
use hc_pool.Difficulty.{Ratio, infinity, ratio}
use hc_pool.Template.{JobTemplate}
use hc_pool.Job.{MiningJob, copy_and_update_block, apply_signed_coinbase, response}
use hc_pool.Job
use hc_pool.Job.Coinbase.{AddressObject}
use hc_pool.Jobs.{get_next_id, add_job}
use hc_pool.Statistics.{get_suggested_difficulty}
use hc_pool.Messages.{Line, set_difficulty, notify}
use hc_pool.Session.State.{
  Profile, Client, World, Setup, Env, M, pure, ◌>>=◌, ◌>>◌, get, modify, modify_client, write,
  end_socket,
}
use hc_pool.Session.Auth.{enforce_session_authorization_or_close, from_option}

-- `clampDifficulty`, of a finite number in grains.
unfoldable pub clamp_difficulty : Profile → ℤ → ℕ
clamp_difficulty profile (pos d) =
    maximum profile.stratum_min_diff (minimum d profile.stratum_max_diff)
clamp_difficulty profile (negsuc d) = profile.stratum_min_diff

-- `clampDifficulty` of a quotient; the suggested ones are whole numbers of grains.
unfoldable pub clamp_ratio : Profile → Ratio → ℕ
clamp_ratio profile infinity = clamp_difficulty profile (pos profile.stratum_init_diff)
clamp_ratio profile (ratio n d) = clamp_difficulty profile (pos (n * grain / d))

-- 1.5 percent, unless the configured percentage is above 0 and below 100.
unfoldable pub dev_fee_percent_of : Option ℤ → ℕ
dev_fee_percent_of (some (pos p)) = if ltb 0 p && ltb p (100 * grain) then p else 3 * grain / 2
dev_fee_percent_of _ = 3 * grain / 2

abbrev no_fee_of : Option Text → Bool
no_fee_of none = true
no_fee_of (some []) = true
no_fee_of (some (c ∷ s)) = false

-- The percentages are doubles.
unfoldable pub payout_information : Option Text → Option ℤ → Text → List AddressObject
payout_information none percent miner = record { address = miner; percent = 100 * unit } ∷ []
payout_information (some []) percent miner = record { address = miner; percent = 100 * unit } ∷ []
payout_information (some (c ∷ s)) percent miner =
    let fee = round_double (dev_fee_percent_of percent) grain in
    record { address = c ∷ s; percent = fee }
    ∷ record { address = miner; percent = round_double (100 * unit - fee) unit }
    ∷ []

abbrev pub session_of : Client → Text
session_of c = or_else c.extra_nonce_and_session_id []

module _ (setup : Setup) (env : Env) where
  -- `prepareSignetLockedJob`
  unfoldable pub prepare_signet_locked_job : Client → JobTemplate → MiningJob → Option MiningJob
  prepare_signet_locked_job c template job =
      if setup.signer.enabled
      then (let locked_ntime = template.block.timestamp in
          let r =
            copy_and_update_block setup.bitcoin job template (pos 0) (pos 0) (session_of c)
              c.signet_locked_extra_nonce2 locked_ntime in
          elim (setup.signer.sign_block r.1 template.signet_challenge) [
            | none ↦ none
            | some signed ↦ elim (head? signed.transactions) [
              | none ↦ none
              | some coinbase ↦ some (
                  apply_signed_coinbase setup.bitcoin r.0 coinbase c.signet_locked_extra_nonce2
                    locked_ntime (pos 0))
            ]
          ])
      else some job

  -- The job for a template, or none where building or signing it throws.
  unfoldable pub make_job : World → JobTemplate → Option MiningJob
  make_job w template = elim w.client.client_authorization [
    | none ↦ none
    | some a ↦
        elim (Job.new setup.bitcoin setup.job_config (get_next_id w.service) (session_of w.client)
          (payout_information setup.dev_fee_address setup.dev_fee_percent a.address) template
          env.now) [ none ↦ none | some job ↦ prepare_signet_locked_job w.client template job ]
  ]

  abbrev pub note_rate : Client → Client
  note_rate c = record c {
    no_fee = no_fee_of setup.dev_fee_address;
    hash_rate = elim c.entity [
      | none ↦ c.hash_rate
      | some e ↦ elim c.statistics [ none ↦ c.hash_rate | some s ↦ s.hash_rate ]
    ];
  }

  unfoldable pub deliver_job : JobTemplate → MiningJob → M (Unit {0})
  deliver_job template job =
      modify (λ w. record w { service = add_job job w.service })
      >> write env (notify (response job template))
      >>= λ _. pure tt

  unfoldable pub send_new_mining_job : JobTemplate → M (Unit {0})
  send_new_mining_job template = enforce_session_authorization_or_close setup env >>= λ allowed.
      if allowed
      then (modify_client note_rate >> get >>= λ w.
          from_option (make_job w template) >>= deliver_job template)
      else pure tt

  -- The subscription to `newMiningJob$`; an exception ends the socket.
  unfoldable pub on_new_mining_job : JobTemplate → World → World
  on_new_mining_job template w =
      let cleared =
        if template.clear_jobs
        then record w { client = record (w.client) { mining_submission_hashes = [] } }
        else w in
      let (result, w') = send_new_mining_job template cleared in
      if is_some result then w' else end_socket w'

  abbrev is_cpuminer : Client → Bool
  is_cpuminer c = elim c.client_subscription [
    | none ↦ false
    | some s ↦ text_eq s.user_agent (codes "cpuminer")
  ]

  abbrev pub start_client : Client → Client
  start_client c = record c {
    stratum_initialized = true;
    session_difficulty =
        if is_cpuminer c
        then clamp_difficulty setup.profile (pos (grain / 10))
        else c.session_difficulty;
  }

  abbrev pub start_work : Client → Client
  start_work c = record c {
    subscribed_to_jobs = true;
    difficulty_timer = true;
    authorization_timer = c.requires_device_auth;
  }

  -- The difficulty is announced unless the miner suggested one.
  unfoldable pub announce_difficulty : M Bool
  announce_difficulty w =
      if is_some w.client.client_suggested_difficulty
      then (some true, w)
      else write env (set_difficulty w.client.session_difficulty) w

  unfoldable pub init_stratum : M (Unit {0})
  init_stratum = modify_client start_client >> announce_difficulty >>= λ success.
      if success then modify_client start_work else pure tt

  -- `socket.write` with no look at the state of the socket: a closed one swallows the line.
  abbrev pub raw_write : Line → World → World
  raw_write line w =
      if w.socket.destroyed || w.socket.writable_ended then w else record w { sent = line ∷ w.sent }

  abbrev pub differs : Ratio → ℕ → Bool
  differs infinity d = true
  differs (ratio n e) d = not (n * grain == d * e)

  -- The template is shared with the job service, which sees the flag too.
  abbrev pub set_clear_jobs : JobTemplate → World → World
  set_clear_jobs template w = record w {
    service = record (w.service) {
      blocks = elim (w.service.blocks template.id) [
        | none ↦ w.service.blocks
        | some stored ↦ insert template.id (record template { clear_jobs = true }) w.service.blocks
      ];
    };
  }

  unfoldable pub change_difficulty : JobTemplate → Ratio → M (Unit {0})
  change_difficulty latest target w =
      if differs target w.client.session_difficulty
      then (let d = clamp_ratio setup.profile target in
          let w1 = record w { client = record (w.client) { session_difficulty = d } } in
          let w2 = set_clear_jobs latest (raw_write (set_difficulty d) w1) in
          send_new_mining_job (record latest { clear_jobs = true }) w2)
      else (some tt, w)

  -- One run of the difficulty timer, with the latest template of `newMiningJob$`.
  unfoldable pub check_difficulty : ℕ → JobTemplate → M (Unit {0})
  check_difficulty fuel latest w = elim w.client.statistics [
    | none ↦ (none, w)
    | some s ↦ elim (get_suggested_difficulty fuel env.now w.client.session_difficulty s) [
      | none ↦ (none, w)
      | some none ↦ (some tt, w)
      | some (some target) ↦ change_difficulty latest target w
    ]
  ]
