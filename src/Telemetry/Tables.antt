-- ===== src/Telemetry/Tables.antt =====
-- The tables `tasks` and `failed_tasks` of delfin/db/sqlalchemy/api.py with the calls on them, and
-- the messages of delfin/task_manager/metrics_rpcapi.py that the scheduling code casts.
use delfin.Prelude.{
  ℕ, ◌+◌, ◌*◌, ◌<◌, Bool, true, not, Option, List, [], ◌∷◌, ◌++◌, map, filter, ◌==◌, if◌then◌else◌,
}
use delfin.Prelude.Int.{ℤ}
use mathlib.Core.List.{Perm}
use delfin.Errors.{Result, ok, err, task_not_found, failed_task_not_found}
use delfin.Effect.{Effect, modify}

-- `TelemetryJobStatus`
pub data JobStatus : Type 0 where
  init retrying success : JobStatus

-- Seconds, where not said otherwise. `executor` is the host that the job runs on, `job_id` its job.
pub record Task : Type 0 where
  pub id : ℕ
  pub storage_id : ℕ
  pub interval : ℕ
  pub args : ℕ
  pub last_run_time : Option ℕ
  pub job_id : Option ℕ
  pub executor : Option ℕ
  pub deleted : Bool

-- Start and end are in milliseconds. A result that is not set yet is `init`.
pub record FailedTask : Type 0 where
  pub id : ℕ
  pub storage_id : ℕ
  pub task_id : ℕ
  pub interval : ℕ
  pub start_time : ℤ
  pub end_time : ℤ
  pub retry_count : ℕ
  pub result : JobStatus
  pub job_id : Option ℕ
  pub executor : Option ℕ
  pub deleted : Bool

-- A message, with the executor that it goes to.
pub data Message : Type 0 where
  create_perf_job : ℕ → Message
  assign_job : ℕ → Option ℕ → Message
  remove_job : ℕ → Option ℕ → Message
  assign_failed_job : ℕ → Option ℕ → Message
  remove_failed_job : ℕ → Option ℕ → Message

pub record State : Type 0 where
  pub tasks : List Task
  pub failed_tasks : List FailedTask
  pub sent : List Message

abbrev pub Action : Type 0 → Type 0
Action = Effect State

-- What the code takes from the SQL engine: the order of the rows of a query, the id that a new
-- row is given, and the integer that an integer column stores for a number of fifths.
pub record Engine : Type 0 where
  pub order_tasks : List Task → List Task
  pub order_failed_tasks : List FailedTask → List FailedTask
  pub next_id : List ℕ → ℕ
  pub to_integer : ℕ → ℕ

-- A column of integers stores a whole number as it is, and any other rounded up or down.
pub record IsRounding (to_integer : ℕ → ℕ) : Type 0 where
  pub not_below : (m : ℕ) → m < 5 * to_integer m + 5
  pub not_above : (m : ℕ) → 5 * to_integer m < m + 5

pub record IsEngine (sql : Engine) : Type 0 where
  pub permutes_tasks : (ts : List Task) → Perm (sql.order_tasks ts) ts
  pub permutes_failed_tasks : (ts : List FailedTask) → Perm (sql.order_failed_tasks ts) ts

abbrev pub send : Message → Action (Unit {0})
send m = modify λ st. record st { sent = st.sent ++ m ∷ [] }

unfoldable pub find_task : ℕ → List Task → Result Task
find_task i [] = err task_not_found
find_task i (t ∷ ts) = if t.id == i then ok t else find_task i ts

unfoldable pub task_get : ℕ → Action Task
unfolding find_task
task_get i st = (find_task i st.tasks, st)

abbrev pub update_task : ℕ → (Task → Task) → List Task → List Task
update_task i f = map λ t. if t.id == i then f t else t

abbrev task_updated : ℕ → (Task → Task) → State → Result Task → Result (Unit {0}) × State
task_updated i f st (ok _) = (ok tt, record st { tasks = update_task i f st.tasks })
task_updated i f st (err e) = (err e, st)

-- An update that matches no row raises.
unfoldable pub task_update : ℕ → (Task → Task) → Action (Unit {0})
unfolding find_task
task_update i f st = task_updated i f st (find_task i st.tasks)

unfoldable pub task_get_all : Engine → (Task → Bool) → Action (List Task)
task_get_all sql p st = (ok (sql.order_tasks (filter p st.tasks)), st)

unfoldable pub task_create : Engine → Task → Action (Unit {0})
task_create sql t = modify λ st. record st {
  tasks = st.tasks ++ record t { id = sql.next_id (map (λ u. u.id) st.tasks) } ∷ [];
}

unfoldable pub task_delete_by_storage : ℕ → Action (Unit {0})
task_delete_by_storage s = modify λ st. record st {
  tasks = map (λ t. if t.storage_id == s then record t { deleted = true } else t) st.tasks;
}

unfoldable pub task_delete : ℕ → Action (Unit {0})
task_delete i = modify λ st. record st { tasks = filter (λ t. not (t.id == i)) st.tasks }

unfoldable pub failed_task_get : ℕ → List FailedTask → Result FailedTask
failed_task_get i [] = err failed_task_not_found
failed_task_get i (t ∷ ts) = if t.id == i then ok t else failed_task_get i ts

abbrev pub update_failed_task : ℕ → (FailedTask → FailedTask) → List FailedTask → List FailedTask
update_failed_task i f = map λ t. if t.id == i then f t else t

abbrev failed_task_updated :
    ℕ → (FailedTask → FailedTask) → State → Result FailedTask → Result (Unit {0}) × State
failed_task_updated i f st (ok _) =
    (ok tt, record st { failed_tasks = update_failed_task i f st.failed_tasks })
failed_task_updated i f st (err e) = (err e, st)

unfoldable pub failed_task_update : ℕ → (FailedTask → FailedTask) → Action (Unit {0})
unfolding failed_task_get
failed_task_update i f st = failed_task_updated i f st (failed_task_get i st.failed_tasks)

unfoldable pub failed_task_get_all : Engine → (FailedTask → Bool) → Action (List FailedTask)
failed_task_get_all sql p st = (ok (sql.order_failed_tasks (filter p st.failed_tasks)), st)

unfoldable pub failed_task_create : Engine → FailedTask → Action ℕ
failed_task_create sql t st =
    let i = sql.next_id (map (λ u. u.id) st.failed_tasks) in
    (ok i, record st { failed_tasks = st.failed_tasks ++ record t { id = i } ∷ [] })

unfoldable pub failed_task_delete_by_storage : ℕ → Action (Unit {0})
failed_task_delete_by_storage s = modify λ st. record st {
  failed_tasks =
      map (λ t. if t.storage_id == s then record t { deleted = true } else t) st.failed_tasks;
}

unfoldable pub failed_task_delete_by_task_id : ℕ → Action (Unit {0})
failed_task_delete_by_task_id i =
    modify λ st. record st { failed_tasks = filter (λ t. not (t.task_id == i)) st.failed_tasks }

unfoldable pub failed_task_delete : ℕ → Action (Unit {0})
failed_task_delete i =
    modify λ st. record st { failed_tasks = filter (λ t. not (t.id == i)) st.failed_tasks }
