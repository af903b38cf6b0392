-- ===== src/Telemetry/Failed.antt =====
-- `FailedPerformanceCollectionHandler` of delfin/task_manager/scheduler/schedulers/telemetry/
-- failed_performance_collection_handler.py, over the table `failed_tasks` of
-- delfin/db/sqlalchemy/api.py. What `PerformanceCollectionTask.collect` answers is an argument: it
-- catches every exception and returns whether it has succeeded.
use delfin.Prelude.{ℕ, suc, Bool, true, false, Option, leb, if◌then◌else◌}
use delfin.Errors.{Result, ok, err}
use delfin.Effect.{◌>>◌}
use delfin.Telemetry.Tables.{
  JobStatus, retrying, success, FailedTask, State, Message, Action, send, failed_task_get,
  failed_task_update,
}

-- The attributes of the handler that a call reads or writes.
pub record Handler : Type 0 where
  pub failed_task_id : ℕ
  pub retry_count : ℕ
  pub result : JobStatus
  pub executor : Option ℕ

-- The values that the handler writes.
abbrev pub result_values : Handler → FailedTask → FailedTask
result_values h t = record t { retry_count = h.retry_count; result = h.result }

unfoldable pub save_result : Handler → Action (Unit {0})
unfolding failed_task_update
save_result h = failed_task_update h.failed_task_id (result_values h)

-- `_stop_task`
unfoldable pub stop_task : Handler → Action (Unit {0})
unfolding save_result
stop_task h = do save_result h; send (Message.remove_failed_job h.failed_task_id h.executor)

-- `TelemetryCollection.MAX_FAILED_JOB_RETRY_COUNT`
abbrev pub max_failed_job_retry_count : ℕ
max_failed_job_retry_count = 5

-- The handler of a scheduled job with the state around it.
pub record Job : Type 0 where
  pub handler : Handler
  pub state : State

abbrev with_handler : Handler → Result (Unit {0}) × State → Result (Unit {0}) × Job
with_handler h (r, st) = (r, record { handler = h; state = st })

-- What follows a collection, with the retry counted.
unfoldable pub after_collect : Bool → Handler → State → Result (Unit {0}) × Job
unfolding stop_task
after_collect true h st =
    let h' = record h { result = success } in with_handler h' (stop_task h' st)
after_collect false h st =
    if leb max_failed_job_retry_count h.retry_count
    then with_handler h (stop_task h st)
    else let h' = record h { result = retrying } in with_handler h' (save_result h' st)

abbrev called : Bool → Job → Result FailedTask → Result (Unit {0}) × Job
called status job (err e) = (ok tt, job)
called status job (ok t) =
    if t.deleted
    then (ok tt, job)
    else after_collect status (record job.handler { retry_count = suc job.handler.retry_count })
        job.state

-- `__call__`
unfoldable pub handler_call : Bool → Job → Result (Unit {0}) × Job
unfolding after_collect failed_task_get
handler_call status job =
    called status job (failed_task_get job.handler.failed_task_id job.state.failed_tasks)
