-- ===== src/Tasks.antt =====
-- src/services/app.service.ts: the tasks that one process of the pool runs from time to time. The
-- table of block templates is TypeORM's, a parameter.
pub mod Purge
use hc_pool.Base.{ℕ, ◌*◌, Bool, true, Option, none, some}
use hc_pool.Base.Text.{Text, codes, text_eq}
use hc_pool.NodeRpc.Templates.{Repository, delete_old_blocks}
use hc_pool.Orm.ClientStatistics.{Table, delete_old_statistics}
use hc_pool.Orm.Clients.{ClientService, kill_dead_clients, delete_old_clients}

-- NODE_APP_INSTANCE is unset or 0.
unfoldable pub runs_tasks : Option Text → Bool
runs_tasks none = true
runs_tasks (some instance_of) = text_eq instance_of (codes "0")

pub data Task : Type 0 where
  purge_statistics kill_clients purge_blocks : Task

-- The periods of the timers, in milliseconds.
unfoldable pub period_of : Task → ℕ
period_of purge_statistics = 1000 * 60 * 60
period_of kill_clients = 1000 * 60 * 5
period_of purge_blocks = 1000 * 60 * 60 * 24

-- The tables that the tasks are about.
pub record Tables (repository : Repository) : Type 0 where
  pub statistics : Table
  pub clients : ClientService
  pub blocks : repository.Store

-- `deleteOldStatistics` deletes old clients behind the statistics.
unfoldable pub run_task :
    (repository : Repository) → Task → ℕ → Tables repository → Tables repository
run_task repository purge_statistics now t = record t {
  statistics = delete_old_statistics now t.statistics;
  clients = delete_old_clients now t.clients;
}
run_task repository kill_clients now t = record t { clients = kill_dead_clients now t.clients }
run_task repository purge_blocks now t = record t { blocks = delete_old_blocks repository t.blocks }
