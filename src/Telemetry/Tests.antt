-- ===== src/Telemetry/Tests.antt =====
-- Runs of the retries of a failed collection (delfin/task_manager/scheduler/schedulers/telemetry/
-- failed_performance_collection_handler.py).
mod Nodes
mod Collecting
use delfin.Prelude.{◌≡◌, refl, arith, none, some, true, false, [], ◌∷◌}
use delfin.Prelude.Int.{pos}
use delfin.Telemetry.Tables.{
  FailedTask, State, Message, init, retrying, success, failed_task_update, failed_task_get,
}
use delfin.Telemetry.Failed.{Handler, Job, handler_call, after_collect, stop_task, save_result}
use delfin.Telemetry.Retry.{run_calls, failing, IsRetrying, HasEnded, handler_call-retries}

abbrev failed_task : FailedTask
failed_task = record {
  id = 3;
  storage_id = 7;
  task_id = 2;
  interval = 900;
  start_time = pos 0;
  end_time = pos 960000;
  retry_count = 0;
  result = init;
  job_id = some 40;
  executor = some 12;
  deleted = false;
}

abbrev state : State
state = record { tasks = []; failed_tasks = failed_task ∷ []; sent = [] }

abbrev handler : Handler
handler = record { failed_task_id = 3; retry_count = 0; result = init; executor = some 12 }

abbrev job : Job
job = record { handler = handler; state = state }

-- Nothing happens for a failed task that is soft deleted.
abbrev deleted_job : Job
deleted_job = record job {
  state = record state { failed_tasks = record failed_task { deleted = true } ∷ [] };
}

deleted-run : (handler_call false deleted_job).1 ≡ deleted_job
unfolding handler_call failed_task_get
deleted-run = refl

fifth-run : (run_calls (failing 5) job).state ≡ record state {
  failed_tasks = record failed_task { retry_count = 5; result = retrying } ∷ [];
  sent = Message.remove_failed_job 3 (some 12) ∷ [];
}
unfolding run_calls handler_call after_collect stop_task save_result failed_task_update
    failed_task_get
fifth-run = refl

job-IsRetrying : IsRetrying 3 (some 12) 0 init [] job
unfolding failed_task_get
job-IsRetrying = record {
  stored = record { row = failed_task; here = refl; alive = refl; counted = refl; noted = refl };
  id = refl;
  same_executor = refl;
  count = refl;
  result = refl;
  unsent = refl;
}

handler_call-retries_example :
    IsRetrying 3 (some 12) 2 retrying [] (run_calls (failing 2) job)
    × HasEnded 3 (some 12) 3 success [] (handler_call true (run_calls (failing 2) job)).1
handler_call-retries_example =
    handler_call-retries 3 (some 12) 2 true [] job job-IsRetrying (omega arith) refl
