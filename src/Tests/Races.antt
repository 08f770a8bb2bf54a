-- ===== src/Tests/Races.antt =====
-- The theorem on two sessions that make a job at once, with two miners.
use hc_pool.Base.{◌≡◌, refl, true, some, or_else}
use hc_pool.Base.Text.{codes}
use hc_pool.Job.{MiningJob}
use hc_pool.Messages.{MiningSubmitMessage}
use hc_pool.Session.State.{World}
use hc_pool.Session.Work.{make_job, deliver_job, session_of}
use hc_pool.Session.Submit.{locate, refused}
use hc_pool.Session.Score.{check_duplicate}
use hc_pool.Session.Race.{shared_id-refused}
use hc_pool.Tests.Demo.{
  demo_setup, demo_env, demo_client, demo_template, demo_world, demo_job, demo_submit,
}

abbrev other_world : World
other_world = record demo_world {
  client = record demo_client { extra_nonce_and_session_id = some (codes "0000002b") };
}

abbrev mine : MiningJob
mine = or_else (make_job demo_setup demo_env demo_world demo_template) demo_job

abbrev theirs : MiningJob
theirs = or_else (make_job demo_setup demo_env other_world demo_template) demo_job

abbrev first : World
first = (deliver_job demo_setup demo_env demo_template mine demo_world).1

abbrev second : World
second =
    (deliver_job demo_setup demo_env demo_template theirs
      (record other_world { service = first.service })).1

abbrev submission : MiningSubmitMessage
submission = record demo_submit { job_id = mine.job_id }

shared_id-refused_example :
    (theirs.job_id ≡ mine.job_id)
    × (locate second.service (session_of first.client) submission 2000
        ≡ refused (codes "Job not found"))
    × ((w : World)
        → ¬ (
            check_duplicate demo_setup demo_env submission
              (record first { service = second.service })
            ≡ (some true, w)))
unfolding make_job hc_pool.Base.Text.text_eq hc_pool.Job.new hc_pool.Job.Coinbase.build_coinbase
    hc_pool.Job.Coinbase.create_coinbase_transaction hc_pool.Job.Coinbase.pay_all
    hc_pool.Job.Coinbase.add_to_first hc_pool.Session.Work.payout_information
    hc_pool.Session.Work.prepare_signet_locked_job hc_pool.Job.Coinbase.amount_of
    hc_pool.Base.Double.round_double hc_pool.Base.Double.bit_length
shared_id-refused_example =
    shared_id-refused demo_setup demo_env demo_env demo_env demo_world other_world demo_template
      demo_template mine theirs submission refl refl refl refl refl
