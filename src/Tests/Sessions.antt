-- ===== src/Tests/Sessions.antt =====
-- The theorems on sessions at concrete inputs.
use hc_pool.Base.{
  ℕ, ◌*◌, ◌≤◌, ◌≡◌, ◌↔◌, refl, Bool, true, false, Option, none, some, List, [], ◌∷◌, inl, inr,
  if◌then◌else◌, arith,
}
use hc_pool.Base.Text.{Text, codes}
use hc_pool.Base.Hex.{pos}
use hc_pool.Base.Json.{Json, arr, cons, nil, num, bool, obj, end, field, str}
use hc_pool.Bucket.{grain}
use hc_pool.Authz.{MiningAuthz, AuthorizationResult, answered, normalize_result, safest_cap_hs}
use hc_pool.Session.State.{World, Env}
use hc_pool.Session.Auth.{apply_class_policy}
use hc_pool.Session.Submit.{Located, found, locate}
use hc_pool.Session.Score.{judge_lookup, check_duplicate, handle_mining_submission}
use hc_pool.Session.Frame.{core}
use hc_pool.Session.Accept.{Admissible, Sound, locate_iff}
use hc_pool.Session.Gate.{Permitted, handle_mining_submission-Sound}
use hc_pool.Session.Safe.{IsSafe, Ordered}
use hc_pool.Session.Reach.{
  Event, received, new_job, authorization_due, difficulty_due, closed, run_all, run_all-IsSafe,
  new_client-IsSafe,
}
use hc_pool.Base.{◌/◌}
use hc_pool.Difficulty.{ratio}
use hc_pool.Statistics
use hc_pool.Jobs.{get_job_by_id}
use hc_pool.Session.Credit.{after, check_duplicate-credit}
use hc_pool.Session.Repeat.{submit_all, handle_mining_submission-refuses_again}
use hc_pool.Session.Replay.{noted, on_new_mining_job-replays}
use hc_pool.Session.Admit.{Proven, handle_device_auth-Proven}
use hc_pool.Session.Device.{handle_device_auth, parse_device_auth_message}
use hc_pool.Session.Work.{on_new_mining_job, session_of}
use hc_pool.Session.State.{Entity, Setup, destroy}
use hc_pool.Messages.{fingerprint}
use hc_pool.Base.{length}
use hc_pool.Base.Text.{lower}
use hc_pool.Profile.{ChainConfig}
use hc_pool.Session.Policy.{apply_class_policy-capped}
use hc_pool.Session.{new_client}
use hc_pool.Tests.Demo.{
  demo_bitcoin, demo_setup, demo_env, demo_world, demo_client, demo_service, demo_submit, demo_job,
  demo_template, demo_profile, demo_authz,
}

handle_mining_submission-Sound_example :
    Permitted demo_setup demo_env demo_client
    × Sound demo_setup demo_env demo_submit demo_service (core demo_client)
unfolding handle_mining_submission hc_pool.Session.Auth.enforce_session_authorization_or_close
    hc_pool.Session.Auth.is_session_authorized new_client hc_pool.Session.Submit.ensure_entity
    check_duplicate hc_pool.Session.Score.judge_lookup locate hc_pool.Jobs.get_job_by_id
    hc_pool.Base.Text.text_eq hc_pool.Job.new hc_pool.Job.Coinbase.build_coinbase
    hc_pool.Job.Coinbase.create_coinbase_transaction hc_pool.Job.Coinbase.pay_all
    hc_pool.Job.Coinbase.add_to_first hc_pool.Job.rebuild_coinbase_parts hc_pool.Job.initial
    hc_pool.Session.Submit.locate_template hc_pool.Jobs.get_job_template_by_id
    hc_pool.Jobs.is_template_stale hc_pool.Session.Submit.locate_locked
    hc_pool.Job.matches_locked_submission hc_pool.Session.Score.score_submission
    hc_pool.Job.copy_and_update_block hc_pool.Session.Score.judge_share
    hc_pool.Difficulty.calculate_difficulty hc_pool.Difficulty.ratio_ge
    hc_pool.Session.Auth.class_bucket_gate_rejected hc_pool.Difficulty.le256
    hc_pool.Job.Coinbase.amount_of hc_pool.Base.Double.round_double hc_pool.Base.Double.bit_length
handle_mining_submission-Sound_example =
    handle_mining_submission-Sound demo_setup demo_env demo_submit demo_world
      (handle_mining_submission demo_setup demo_env demo_submit demo_world).1 refl

handle_mining_submission-refuses_again_example : ¬ (
    handle_mining_submission demo_setup demo_env demo_submit (
      submit_all demo_setup
        ((demo_env, record demo_submit { nonce = codes "00000009" }) ∷ (demo_env, demo_submit) ∷ [])
        (check_duplicate demo_setup demo_env demo_submit demo_world).1)
    ≡ (some true, demo_world))
handle_mining_submission-refuses_again_example =
    handle_mining_submission-refuses_again demo_setup demo_env demo_env demo_submit demo_submit
      ((demo_env, record demo_submit { nonce = codes "00000009" }) ∷ (demo_env, demo_submit) ∷ [])
      demo_world demo_world refl

abbrev demo_located : Located
demo_located = record {
  job = demo_job;
  template = demo_template;
  stale = false;
  version_mask = pos 0;
  ntime = pos 1700000001;
}

locate_iff_example :
    (locate demo_service (codes "0000002a") demo_submit 2000 ≡ found demo_located)
    ↔ Admissible demo_service (codes "0000002a") demo_submit 2000 demo_located
locate_iff_example = locate_iff demo_service (codes "0000002a") demo_submit 2000 demo_located

demo-Ordered : Ordered demo_profile
demo-Ordered = record { init_low = omega arith; init_high = omega arith }

abbrev first_world : World
first_world = record demo_world { client = new_client demo_setup (codes "00000000") }

abbrev subscribe_line : Json
subscribe_line = obj (
    field (codes "id") (num (pos 1)) (
      field (codes "method") (str (codes "mining.subscribe"))
        (field (codes "params") (arr (cons (str (codes "bitaxe")) nil)) end)))

abbrev events : List (Env × Event)
events =
    (demo_env, received (some subscribe_line))
    ∷ (demo_env, received none)
    ∷ (demo_env, new_job demo_template)
    ∷ (demo_env, difficulty_due 100 demo_template)
    ∷ (demo_env, authorization_due)
    ∷ (demo_env, closed)
    ∷ []

run_all-IsSafe_example : IsSafe demo_profile (run_all demo_setup events first_world).client
run_all-IsSafe_example =
    run_all-IsSafe demo_setup events first_world demo-Ordered
      (new_client-IsSafe demo_setup (codes "00000000") demo-Ordered)

abbrev strict_authz : MiningAuthz
strict_authz = record demo_authz { enabled = true }

abbrev answer : Json
answer = obj (
    field (codes "allowed") (bool true) (
      field (codes "classId") (str (codes "gold"))
        (field (codes "targetHashrateHs") (num (pos (9000000 * grain))) end)))

apply_class_policy-capped_example :
    (apply_class_policy demo_profile
      (normalize_result (some answer))
      2000
      demo_client).class_target_hashrate_hs
    ≡ some safest_cap_hs
unfolding hc_pool.Authz.authorize_mining normalize_result hc_pool.Base.Json.as_text
    hc_pool.Base.Json.member hc_pool.Base.Json.lookup_field hc_pool.Base.Text.text_eq
apply_class_policy-capped_example =
    apply_class_policy-capped demo_profile strict_authz (λ d w. answered (some answer))
      (codes "dev1") (codes "walletxx") (normalize_result (some answer)) 2000 demo_client refl

abbrev demo_entity : Entity
demo_entity = record {
  address = codes "miner";
  client_name = codes "rig";
  session_id = codes "0000002a";
  user_agent = codes "bitaxe";
  best_difficulty = ratio 0 1;
  updated_at = none;
}

abbrev counting_world : World
counting_world = record demo_world { client = record demo_client { entity = some demo_entity } }

check_duplicate-credit_example :
    (check_duplicate demo_setup demo_env demo_submit counting_world).1.client.statistics
    ≡ some (after demo_env (Statistics.new (grain / 10) grain 500) (1024 * grain) true)
unfolding hc_pool.Session.Auth.enforce_session_authorization_or_close new_client check_duplicate
    hc_pool.Session.Score.judge_lookup locate hc_pool.Jobs.get_job_by_id hc_pool.Base.Text.text_eq
    hc_pool.Job.new hc_pool.Job.Coinbase.build_coinbase
    hc_pool.Job.Coinbase.create_coinbase_transaction hc_pool.Job.Coinbase.pay_all
    hc_pool.Job.Coinbase.add_to_first hc_pool.Job.rebuild_coinbase_parts hc_pool.Job.initial
    hc_pool.Session.Submit.locate_template hc_pool.Jobs.get_job_template_by_id
    hc_pool.Jobs.is_template_stale hc_pool.Session.Submit.locate_locked
    hc_pool.Job.matches_locked_submission hc_pool.Session.Score.score_submission
    hc_pool.Job.copy_and_update_block hc_pool.Session.Score.judge_share
    hc_pool.Difficulty.calculate_difficulty hc_pool.Difficulty.ratio_ge
    hc_pool.Session.Auth.class_bucket_gate_rejected hc_pool.Difficulty.le256
    hc_pool.Job.Coinbase.amount_of hc_pool.Base.Double.round_double hc_pool.Base.Double.bit_length
check_duplicate-credit_example =
    check_duplicate-credit demo_setup demo_env demo_entity (Statistics.new (grain / 10) grain 500)
      (1024 * grain) (λ n. refl) demo_submit counting_world true
      (record { entity = refl; statistics = refl; difficulty = refl }) refl

on_new_mining_job-replays_example :
    let gone = on_new_mining_job demo_setup demo_env demo_template demo_world in
    check_duplicate demo_setup demo_env demo_submit gone
    ≡ judge_lookup demo_setup demo_env demo_submit
        (locate gone.service (session_of gone.client) demo_submit 2000)
        (noted demo_setup demo_env (fingerprint demo_bitcoin demo_submit) [] gone)
on_new_mining_job-replays_example =
    on_new_mining_job-replays demo_setup demo_env demo_env demo_submit demo_template demo_world refl

abbrev yes : Json
yes = obj (field (codes "allowed") (bool true) end)

abbrev strict_setup : Setup
strict_setup = record demo_setup { authz = strict_authz }

abbrev backed_env : Env
backed_env = record demo_env {
  verify = λ r. answered (some yes);
  authorize = λ d w. answered (some yes);
}

abbrev waiting_world : World
waiting_world = record demo_world {
  client = record demo_client {
    requires_device_auth = true;
    device_authorized = false;
    pending_challenge = some (record {
      challenge = record {
        challenge_id = codes "abcd";
        nonce = codes "ef";
        issued_at = 1000;
        expires_at = some (pos 31000);
      };
      device_id = codes "dev1";
      payout_wallet_hcash = codes "walletxx";
    });
  };
}

abbrev device_line : Json
device_line = obj (
    field (codes "id") (num (pos 7)) (
      field (codes "params")
        (arr (
          cons (str (codes "dev1")) (
            cons (str (codes "walletxx"))
              (cons (str (codes "abcd")) (cons (str (codes "proofprf")) nil)))))
        end))

handle_device_auth-Proven_example :
    (params : Text × Text × Text × Text) × (parse_device_auth_message device_line ≡ some params)
    × Proven strict_setup backed_env params waiting_world
unfolding handle_device_auth parse_device_auth_message hc_pool.Base.Json.member
    hc_pool.Base.Json.lookup_field hc_pool.Base.Text.text_eq hc_pool.Base.Json.as_text
    hc_pool.Session.Device.check_challenge hc_pool.Session.Device.challenge_matches
    hc_pool.Session.Device.verify_device hc_pool.Authz.verify_challenge normalize_result
    hc_pool.Session.Device.authorize_device hc_pool.Authz.authorize_mining
    hc_pool.Session.Device.admit_device hc_pool.Session.State.write apply_class_policy
handle_device_auth-Proven_example =
    handle_device_auth-Proven strict_setup backed_env device_line waiting_world refl refl

abbrev demo_settings : ChainConfig
demo_settings = record {
  chain_enable_segwit = some (codes " Yes");
  pow_diff1_target = some (codes " 0x7FFFFF00");
  stratum_min_diff = some (2 * grain);
  stratum_max_diff = some grain;
  stratum_init_diff = none;
  stratum_target_shares_per_sec = none;
}
