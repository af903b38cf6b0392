-- ===== src/Telemetry/Jobs.antt =====
-- `JobHandler` and `FailedJobHandler` of delfin/task_manager/scheduler/schedulers/telemetry/
-- job_handler.py: the jobs of one node. The background scheduler is a parameter; what the history
-- collection asks the driver for is noted in `collected`.
use delfin.Prelude.{
  ℕ, zero, suc, ◌+◌, ◌*◌, ◌≡◌, Bool, true, false, not, ◌&&◌, ◌||◌, Option, none, some, List, [],
  ◌∷◌, ◌++◌, filter, ltb, leb, ◌==◌, if◌then◌else◌,
}
use delfin.Prelude.Int.{ℤ, pos, sub_ℕ}
use delfin.Errors.{Result, ok, err}
use delfin.Effect.{Effect, ◌>>=◌, ◌>>◌, pure, modify, for_each, catching}
use delfin.Telemetry.Tables.{
  Task, FailedTask, State, Action, init, retrying, success, find_task, task_get, task_update,
  failed_task_get, failed_task_update, failed_task_delete,
}
use delfin.Telemetry.Failed.{max_failed_job_retry_count}

-- The calls of the background scheduler, by the ids of the jobs.
pub record JobStore (S : Type 0) : Type 0 where
  pub get_job : S → ℕ → Bool
  pub add_job : ℕ → S → S
  pub remove_job : ℕ → S → S

-- Their documented behaviour: a job is found from when it is added until it is removed.
pub record IsJobStore {S : Type 0} (store : JobStore S) : Type 0 where
  pub get-add :
      (i j : ℕ) (s : S) → store.get_job (store.add_job i s) j ≡ (i == j || store.get_job s j)
  pub get-remove :
      (i j : ℕ) (s : S)
      → store.get_job (store.remove_job i s) j ≡ (not (i == j) && store.get_job s j)

-- A node: the database, its scheduler, the attributes of the handler, and the number of uuids that
-- it has generated.
pub record Node (S : Type 0) : Type 0 where
  pub db : State
  pub scheduler : S
  pub stopped : Bool
  pub job_ids : List ℕ
  pub issued : ℕ
  pub collected : List (ℤ × ℤ)

-- Python's `if last_run_time:`, which is false for `None` and for 0.
abbrev pub given : Option ℕ → Option ℕ
given none = none
given (some zero) = none
given (some (suc n)) = some (suc n)

-- The start and end of the history collection in milliseconds; `none` if there is none.
unfoldable pub history_window : ℕ → ℕ → Task → Option (ℤ × ℤ)
history_window history now job = elim (given job.last_run_time) [
  | some last ↦ some (
    if ltb now (history + last) then pos (last * 1000) else sub_ℕ (now * 1000) (history * 1000),
    pos (now * 1000),
  )
  | none ↦ elim job.job_id [
    | none ↦ none
    | some _ ↦ some (
      if ltb job.interval history
          then sub_ℕ (now * 1000) (job.interval * 1000)
          else sub_ℕ (now * 1000) (history * 1000),
      pos (now * 1000),
    )
  ]
]

abbrev pub without : ℕ → List ℕ → List ℕ
without i = filter λ j. not (j == i)

module _ {S : Type 0} (store : JobStore S) where
  abbrev pub on_db : {A : Type 0} → Action A → Effect (Node S) A
  on_db m node = let (r, db) = m node.db in (r, record node { db = db })

  -- `job_id and self.scheduler.get_job(job_id)`
  abbrev pub scheduled : S → Option ℕ → Bool
  scheduled s none = false
  scheduled s (some i) = store.get_job s i

  unfoldable pub perform_history_collection : ℕ → ℕ → Option (ℤ × ℤ) → Effect (Node S) (Unit {0})
  unfolding task_update
  perform_history_collection i now none = pure tt
  perform_history_collection i now (some window) = do
    modify (λ node. record node { collected = node.collected ++ window ∷ [] })
    catching (on_db (task_update i (λ t. record t { last_run_time = some now }))) (pure tt)

  -- The branch of `schedule_job` that adds the job.
  unfoldable pub add_new_job : (ℕ → ℕ) → ℕ → ℕ → ℕ → Task → Effect (Node S) (Unit {0})
  unfolding task_update history_window perform_history_collection
  add_new_job uuid history now i job node =
      let job_id = uuid node.issued in
      (do
        on_db (task_update i (λ t. record t { job_id = some job_id }))
        modify (λ n. record n { job_ids = job_id ∷ without job_id n.job_ids })
        perform_history_collection i now (history_window history now job))
        (record node { scheduler = store.add_job job_id node.scheduler; issued = suc node.issued })

  -- A uuid that is generated and thrown away is not counted.
  abbrev pub schedule_found : (ℕ → ℕ) → ℕ → ℕ → ℕ → Task → Effect (Node S) (Unit {0})
  schedule_found uuid history now i job node =
      if job.deleted
      then (ok tt, node)
      else if scheduled node.scheduler job.job_id
      then (ok tt, node)
      else add_new_job uuid history now i job node

  unfoldable pub schedule_job : (ℕ → ℕ) → ℕ → ℕ → ℕ → Effect (Node S) (Unit {0})
  unfolding task_get add_new_job
  schedule_job uuid history now i node =
      if node.stopped
      then (ok tt, node)
      else (on_db (task_get i) >>= schedule_found uuid history now i) node

  unfoldable pub remove_scheduled_job : Option ℕ → Effect (Node S) (Unit {0})
  remove_scheduled_job none node = (ok tt, node)
  remove_scheduled_job (some i) node = (
    ok tt,
    record node {
      job_ids = without i node.job_ids;
      scheduler =
          if store.get_job node.scheduler i
          then store.remove_job i node.scheduler
          else node.scheduler;
    },
  )

  -- An exception is only logged.
  unfoldable pub remove_job : ℕ → Effect (Node S) (Unit {0})
  unfolding task_get remove_scheduled_job
  remove_job i = catching (do job ← on_db (task_get i); remove_scheduled_job job.job_id) (pure tt)

  unfoldable pub stop : Effect (Node S) (Unit {0})
  unfolding remove_scheduled_job for_each
  stop node =
      for_each node.job_ids (λ i. remove_scheduled_job (some i)) (record node { stopped = true })

  abbrev pub get_failed_task : ℕ → Effect (Node S) FailedTask
  get_failed_task i node = (failed_task_get i node.db.failed_tasks, node)

  unfoldable pub teardown_task : ℕ → Option ℕ → Effect (Node S) (Unit {0})
  unfolding failed_task_delete remove_scheduled_job
  teardown_task i job_id = do on_db (failed_task_delete i); remove_scheduled_job job_id

  unfoldable pub add_failed_job : (ℕ → ℕ) → ℕ → Effect (Node S) (Unit {0})
  unfolding failed_task_update
  add_failed_job uuid i node =
      let job_id = uuid node.issued in
      (do
        on_db (failed_task_update i (λ t. record t { job_id = some job_id }))
        modify (λ n. record n {
          scheduler = store.add_job job_id n.scheduler;
          job_ids = job_id ∷ without job_id n.job_ids;
        }))
        (record node { issued = suc node.issued })

  abbrev pub is_finished : FailedTask → Bool
  is_finished f =
      leb max_failed_job_retry_count f.retry_count
      || elim f.result [ success ↦ true | init ↦ false | retrying ↦ false ]

  abbrev missing : Result Task → Bool
  missing (ok _) = false
  missing (err _) = true

  abbrev pub schedule_found_failed : (ℕ → ℕ) → FailedTask → Effect (Node S) (Unit {0})
  schedule_found_failed uuid f node =
      if is_finished f
      then teardown_task f.id f.job_id node
      else if scheduled node.scheduler f.job_id
      then (ok tt, node)
      else if missing (find_task f.task_id node.db.tasks)
      then teardown_task f.id f.job_id node
      else add_failed_job uuid f.id node

  -- An exception is only logged.
  unfoldable pub schedule_failed_job : (ℕ → ℕ) → ℕ → Effect (Node S) (Unit {0})
  unfolding find_task failed_task_get teardown_task add_failed_job
  schedule_failed_job uuid i node =
      if node.stopped
      then (ok tt, node)
      else catching (get_failed_task i >>= schedule_found_failed uuid) (pure tt) node

  unfoldable pub remove_failed_job : ℕ → Effect (Node S) (Unit {0})
  unfolding failed_task_get failed_task_delete remove_scheduled_job
  remove_failed_job i =
      catching
        (do f ← get_failed_task i; remove_scheduled_job f.job_id; on_db (failed_task_delete f.id))
        (pure tt)
