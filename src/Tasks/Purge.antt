-- ===== src/Tasks/Purge.antt =====
-- What the tasks of src/services/app.service.ts leave of what the API shows.
use hc_pool.Base.{ℕ, ◌-◌, ◌≤◌, ◌≡◌, refl, ◌∙◌, Bool, true, ◌&&◌, List, [], ◌∷◌, ltb, leb, arith}
use hc_pool.NodeRpc.Templates.{Repository}
use hc_pool.Orm.ClientStatistics.{
  StatisticsRow, Table, where_rows, delete_old_statistics, chart_slots, day,
}
use hc_pool.Orm.Clients.{ClientRow, ClientService, delete_where, delete_old_clients, connected}
use hc_pool.Tasks.{Task, purge_statistics, kill_clients, purge_blocks, Tables, run_task}

-- Rows that a second test asks for anyway.
where_rows-twice :
    (first second : StatisticsRow → Bool) (rows : Table)
    → ((r : StatisticsRow) → second r ≡ true → first r ≡ true)
    → where_rows second (where_rows first rows) ≡ where_rows second rows
unfolding where_rows
where_rows-twice first second [] h = refl
where_rows-twice first second (r ∷ rows) h =
    ground (arith, h r, where_rows-twice first second rows h)

-- A chart that is drawn at or after a purge is the same as without it.
purge-chart :
    (test : StatisticsRow → Bool) (now later : ℕ) (rows : Table)
    → now ≤ later
    → chart_slots test later (delete_old_statistics now rows) ≡ chart_slots test later rows
unfolding chart_slots delete_old_statistics
purge-chart test now later rows h =
    rw
      (where_rows-twice (λ r. leb (now - day) r.time) (λ r. test r && ltb (later - day) r.time) rows
        (λ r shown. ground (arith, shown, h)))
      refl

delete_where-twice :
    (gone hidden : ClientRow → Bool) (rows : List ClientRow)
    → ((r : ClientRow) → gone r ≡ true → hidden r ≡ true)
    → delete_where hidden (delete_where gone rows) ≡ delete_where hidden rows
unfolding delete_where
delete_where-twice gone hidden [] h = refl
delete_where-twice gone hidden (r ∷ rows) h =
    ground (arith, h r, delete_where-twice gone hidden rows h)

purge-connected :
    (now : ℕ) (s : ClientService) → connected (delete_old_clients now s).rows ≡ connected s.rows
unfolding connected delete_old_clients
purge-connected now s = delete_where-twice _ _ s.rows (λ r old. ground (arith, old))

-- A run of tasks, each at its time, of which none is after another time.
pub run_tasks : (repository : Repository) → List (Task × ℕ) → Tables repository → Tables repository
run_tasks repository [] t = t
run_tasks repository ((task, now) ∷ tasks) t =
    run_tasks repository tasks (run_task repository task now t)

abbrev pub NotAfter : ℕ → List (Task × ℕ) → Type 0
NotAfter later [] = Unit {0}
NotAfter later ((task, now) ∷ tasks) = (now ≤ later) × NotAfter later tasks

run_task-chart :
    (repository : Repository) (test : StatisticsRow → Bool) (task : Task) (now later : ℕ)
    (t : Tables repository)
    → now ≤ later
    → chart_slots test later (run_task repository task now t).statistics
      ≡ chart_slots test later t.statistics
unfolding run_task
run_task-chart repository test purge_statistics now later t h =
    purge-chart test now later t.statistics h
run_task-chart repository test kill_clients now later t h = refl
run_task-chart repository test purge_blocks now later t h = refl

-- Whatever tasks are run in whatever order, the query of a chart that is drawn when none of them
-- lies ahead selects the same as if none had been run: the purge of the statistics takes no row
-- that a chart is about.
pub run_tasks-chart :
    (repository : Repository) (test : StatisticsRow → Bool) (tasks : List (Task × ℕ)) (later : ℕ)
    (t : Tables repository)
    → NotAfter later tasks
    → chart_slots test later (run_tasks repository tasks t).statistics
      ≡ chart_slots test later t.statistics
unfolding run_tasks
run_tasks-chart repository test [] later t h = refl
run_tasks-chart repository test ((task, now) ∷ tasks) later t (h, hs) =
    run_tasks-chart repository test tasks later (run_task repository task now t) hs
    ∙ run_task-chart repository test task now later t h
