-- ===== src/Telemetry/Distribute.antt =====
-- Which executor runs which job: `TaskDistributor` of delfin/leader_election/distributor/
-- task_distributor.py, the node events and the recovery of delfin/task_manager/scheduler/
-- schedule_manager.py, and delfin/task_manager/perf_job_controller.py. `host` is what
-- `ConsistentHashing.get_task_executor` answers for a task with the present members of the group.
use delfin.Prelude.{ℕ, Bool, true, false, not, ◌&&◌, Option, none, some, List, [], ◌∷◌, ◌==◌}
use delfin.Errors.{Result, ok, err, other_exception, empty_resource_metrics}
use delfin.Effect.{◌>>=◌, ◌>>◌, when, lift, for_each}
use delfin.Telemetry.Tables.{
  Task, FailedTask, Action, Engine, Message, send, task_get, task_update, task_get_all, task_create,
  task_delete_by_storage, failed_task_update, failed_task_get_all, failed_task_delete_by_storage,
}

abbrev pub same_executor : Option ℕ → Option ℕ → Bool
same_executor none none = true
same_executor none (some b) = false
same_executor (some a) none = false
same_executor (some a) (some b) = a == b

abbrev pub assign : Option ℕ → Task → Task
assign e t = record t { executor = e }

abbrev pub assign_failed : Option ℕ → FailedTask → FailedTask
assign_failed e t = record t { executor = e }

-- `filters = {'deleted': False}`
abbrev pub live : Task → Bool
live t = not t.deleted

abbrev pub live_failed : FailedTask → Bool
live_failed t = not t.deleted

unfoldable pub distribute_failed_job : ℕ → Option ℕ → Action (Unit {0})
unfolding failed_task_update
distribute_failed_job i executor = do
  failed_task_update i (assign_failed executor)
  send (Message.assign_failed_job i executor)

unfoldable pub rejoin_failed_task : FailedTask → Action (Unit {0})
unfolding task_get distribute_failed_job
rejoin_failed_task f = do
  t ← task_get f.task_id
  when (not (same_executor t.executor f.executor))
      (send (Message.remove_failed_job f.id f.executor))
  distribute_failed_job f.id t.executor

-- A failed task goes to the executor of its task.
unfoldable pub follow_task : FailedTask → Action (Unit {0})
unfolding task_get distribute_failed_job
follow_task f = do t ← task_get f.task_id; distribute_failed_job f.id t.executor

module _ (host : ℕ → Option ℕ) where
  unfoldable pub distribute_new_job : ℕ → Action (Unit {0})
  unfolding task_update
  distribute_new_job i = do task_update i (assign (host i)); send (Message.assign_job i (host i))

  -- The body of the first loop of `on_node_join`; the second is `rejoin_failed_task`.
  unfoldable pub rejoin_task : Task → Action (Unit {0})
  unfolding distribute_new_job
  rejoin_task t = do
    when (not (same_executor (host t.id) t.executor)) (send (Message.remove_job t.id t.executor))
    distribute_new_job t.id

module _ (sql : Engine) (host : ℕ → Option ℕ) where
  unfoldable pub on_node_join : Action (Unit {0})
  unfolding task_get_all failed_task_get_all rejoin_task rejoin_failed_task for_each
  on_node_join = do
    tasks ← task_get_all sql live
    for_each tasks (rejoin_task host)
    failed_tasks ← failed_task_get_all sql live_failed
    for_each failed_tasks rejoin_failed_task

  unfoldable pub on_node_leave : ℕ → Action (Unit {0})
  unfolding task_get_all failed_task_get_all distribute_new_job follow_task for_each
  on_node_leave member = do
    tasks ← task_get_all sql (λ t. same_executor t.executor (some member) && live t)
    for_each tasks (λ t. distribute_new_job host t.id)
    failed_tasks ←
        failed_task_get_all sql (λ f. same_executor f.executor (some member) && live_failed f)
    for_each failed_tasks follow_task

  unfoldable pub recover_job : Action (Unit {0})
  unfolding task_get_all distribute_new_job for_each
  recover_job = do tasks ← task_get_all sql live; for_each tasks (λ t. distribute_new_job host t.id)

unfoldable pub recover_failed_job : Engine → Action (Unit {0})
unfolding failed_task_get_all follow_task for_each
recover_failed_job sql = do
  failed_tasks ← failed_task_get_all sql live_failed
  for_each failed_tasks follow_task

-- `[0].get('id')` of a list of tasks.
abbrev first_id : List Task → Result ℕ
first_id [] = err other_exception
first_id (t ∷ ts) = ok t.id

-- The resource metrics of the capabilities; `none` if there are none or they are empty.
unfoldable pub create_perf_job : Engine → ℕ → ℕ → Option ℕ → Action (Unit {0})
unfolding task_create task_get_all
create_perf_job sql interval s none = lift (err empty_resource_metrics)
create_perf_job sql interval s (some metrics) = do
  task_create sql (record {
    id = 0;
    storage_id = s;
    interval = interval;
    args = metrics;
    last_run_time = none;
    job_id = none;
    executor = none;
    deleted = false;
  })
  tasks ← task_get_all sql (λ t. t.storage_id == s)
  i ← lift (first_id tasks)
  send (Message.create_perf_job i)

unfoldable pub delete_perf_job : Engine → ℕ → Action (Unit {0})
unfolding task_get_all failed_task_get_all for_each task_delete_by_storage
    failed_task_delete_by_storage
delete_perf_job sql s = do
  tasks ← task_get_all sql (λ t. t.storage_id == s)
  failed_tasks ← failed_task_get_all sql (λ f. f.storage_id == s)
  for_each tasks (λ t. send (Message.remove_job t.id t.executor))
  for_each failed_tasks (λ f. send (Message.remove_failed_job f.id f.executor))
  task_delete_by_storage s
  failed_task_delete_by_storage s
