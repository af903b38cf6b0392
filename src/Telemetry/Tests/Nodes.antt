-- ===== src/Telemetry/Tests/Nodes.antt =====
-- Jobs that change their node: delfin/task_manager/scheduler/schedule_manager.py and
-- delfin/task_manager/scheduler/schedulers/telemetry/job_handler.py on two tasks.
use mathlib.Core.List.Permᴰ
use delfin.Prelude.{
  ℕ, ◌+◌, ◌≡◌, refl, true, false, not, ◌&&◌, ◌||◌, Option, none, some, List, [], ◌∷◌, filter, map,
  elem, ◌==◌, arith,
}
use delfin.Prelude.Int.{pos}
use delfin.Errors.{ok, err, failed_task_not_found}
use delfin.Telemetry.Tables.{
  Task, FailedTask, State, Message, Engine, IsEngine, init, find_task, failed_task_get,
}
use delfin.Database.Permuted.{any_row}
use delfin.Telemetry.Distribute.{on_node_join, live, live_failed, delete_perf_job}
use delfin.Telemetry.Removal.{
  task_of, failed_task_of, unmarked, unmarked_failed, delete_perf_job_lem,
}
use delfin.Telemetry.Join.{on_node_join_lem}
use delfin.Telemetry.Jobs.{
  JobStore, IsJobStore, Node, history_window, schedule_job, schedule_failed_job,
}
use delfin.Telemetry.Window.{history_window_lem}
use delfin.Telemetry.Once.{schedule_job-once, schedule_failed_job-ends}
use delfin.Telemetry.Handover.{Pair, removed, assigned, handover-in_order, handover-out_of_order}

abbrev sql : Engine
sql = record {
  order_tasks = λ ts. ts;
  order_failed_tasks = λ fs. fs;
  next_id = λ is. 50;
  to_integer = λ m. 900;
}

sql-IsEngine : IsEngine sql
sql-IsEngine = record {
  permutes_tasks = λ ts. ∣ Permᴰ.refl ts ∣₁;
  permutes_failed_tasks = λ fs. ∣ Permᴰ.refl fs ∣₁;
}

abbrev first_task : Task
first_task = record {
  id = 1;
  storage_id = 7;
  interval = 900;
  args = 0;
  last_run_time = some 5000;
  job_id = some 40;
  executor = some 10;
  deleted = false;
}

abbrev second_task : Task
second_task = record {
  id = 2;
  storage_id = 8;
  interval = 900;
  args = 0;
  last_run_time = none;
  job_id = none;
  executor = some 11;
  deleted = false;
}

abbrev failed_task : FailedTask
failed_task = record {
  id = 3;
  storage_id = 7;
  task_id = 1;
  interval = 900;
  start_time = pos 0;
  end_time = pos 960000;
  retry_count = 0;
  result = init;
  job_id = some 41;
  executor = some 10;
  deleted = false;
}

abbrev state : State
state = record { tasks = first_task ∷ second_task ∷ []; failed_tasks = failed_task ∷ []; sent = [] }

-- The new group has both tasks on the executor 11.
abbrev host : ℕ → Option ℕ
host i = some 11

on_node_join-run :
    (on_node_join sql host state).1.sent
    ≡ Message.remove_job 1 (some 10)
      ∷ Message.assign_job 1 (some 11)
      ∷ Message.assign_job 2 (some 11)
      ∷ Message.remove_failed_job 3 (some 10)
      ∷ Message.assign_failed_job 3 (some 11)
      ∷ []
unfolding on_node_join
on_node_join-run = refl

on_node_join_example : on_node_join sql host state ≡ (
  ok tt,
  record {
    tasks = record first_task { executor = some 11 } ∷ second_task ∷ [];
    failed_tasks = record failed_task { executor = some 11 } ∷ [];
    sent =
        Message.remove_job 1 (some 10)
        ∷ Message.assign_job 1 (some 11)
        ∷ Message.assign_job 2 (some 11)
        ∷ Message.remove_failed_job 3 (some 10)
        ∷ Message.assign_failed_job 3 (some 11)
        ∷ [];
  },
)
unfolding find_task
on_node_join_example = on_node_join_lem sql host state sql-IsEngine refl refl refl

history_window_example : history_window 1800 6000 first_task ≡ some (pos 5000000, pos 6000000)
history_window_example = history_window_lem 1800 6000 first_task

-- A scheduler as the list of the ids of its jobs.
abbrev store : JobStore (List ℕ)
store = record {
  get_job = λ jobs i. elem i jobs;
  add_job = λ i jobs. i ∷ jobs;
  remove_job = λ i jobs. filter (λ j. not (i == j)) jobs;
}

store-IsJobStore : IsJobStore store
store-IsJobStore = record { get-add = added; get-remove = taken }
  where
    added : (i j : ℕ) (s : List ℕ) → elem j (i ∷ s) ≡ (i == j || elem j s)
    added i j s = ground arith

    taken :
        (i j : ℕ) (s : List ℕ) → elem j (filter (λ k. not (i == k)) s) ≡ (not (i == j) && elem j s)
    taken i j [] = ground arith
    taken i j (k ∷ s) = let rest = taken i j s in ground arith

abbrev old_node : Node (List ℕ)
old_node = record {
  db = state;
  scheduler = 40 ∷ [];
  stopped = false;
  job_ids = 40 ∷ [];
  issued = 0;
  collected = [];
}

abbrev new_node : Node (List ℕ)
new_node = record {
  db = state;
  scheduler = [];
  stopped = false;
  job_ids = [];
  issued = 0;
  collected = [];
}

abbrev nodes : Pair (List ℕ)
nodes = record { from = old_node; to = new_node }

-- The new node issues 100, 101 and so on.
abbrev uuid : ℕ → ℕ
uuid n = 100 + n

handover-in_order_example :
    (store.get_job
        (assigned store uuid 1800 6000 1 (removed store uuid 1800 6000 1 nodes)).from.scheduler
        40
      ≡ false)
    × (store.get_job
          (assigned store uuid 1800 6000 1 (removed store uuid 1800 6000 1 nodes)).to.scheduler
          100
        ≡ true)
unfolding find_task
handover-in_order_example =
    handover-in_order store uuid 1800 6000 1 store-IsJobStore 40 first_task nodes refl refl refl
      refl refl refl refl

handover-out_of_order_example :
    (store.get_job
        (removed store uuid 1800 6000 1 (assigned store uuid 1800 6000 1 nodes)).from.scheduler
        40
      ≡ true)
    × (store.get_job
          (removed store uuid 1800 6000 1 (assigned store uuid 1800 6000 1 nodes)).to.scheduler
          100
        ≡ true)
unfolding find_task
handover-out_of_order_example =
    handover-out_of_order store uuid 1800 6000 1 store-IsJobStore 40 first_task nodes refl refl refl
      refl refl refl refl refl refl

-- Another message for the job that the node has already.
schedule_job-once_example :
    let first = (schedule_job store uuid 1800 6000 1 new_node).1 in
    (schedule_job store uuid 1800 6100 1 first ≡ (ok tt, first))
    × (store.get_job first.scheduler 100 ≡ true)
unfolding find_task
schedule_job-once_example =
    schedule_job-once store uuid 1800 1 6000 6100 first_task new_node store-IsJobStore refl refl
      refl refl

-- A node with the job of a failed task that has had its five retries.
abbrev retried_node : Node (List ℕ)
retried_node = record {
  db = record state { failed_tasks = record failed_task { retry_count = 5 } ∷ [] };
  scheduler = 41 ∷ [];
  stopped = false;
  job_ids = 41 ∷ [];
  issued = 0;
  collected = [];
}

schedule_failed_job-ends_example :
    let after = (schedule_failed_job store uuid 3 retried_node).1 in
    (failed_task_get 3 after.db.failed_tasks ≡ err failed_task_not_found)
    × (store.get_job after.scheduler 41 ≡ false)
    × (schedule_failed_job store uuid 3 after ≡ (ok tt, after))
unfolding failed_task_get
schedule_failed_job-ends_example =
    schedule_failed_job-ends store uuid 3 41 (record failed_task { retry_count = 5 }) retried_node
      store-IsJobStore refl refl refl refl

-- A failed task of the storage 7 and one of the storage 8.
abbrev other_failed : FailedTask
other_failed = record failed_task { id = 4; storage_id = 8 }

abbrev two_failed : State
two_failed = record state { failed_tasks = failed_task ∷ other_failed ∷ [] }

delete_perf_job_example :
    let r = delete_perf_job sql 7 two_failed in
    (r.0 ≡ ok tt)
    × (any_row (λ t. task_of 7 t && live t) r.1.tasks ≡ false)
    × (any_row (λ f. failed_task_of 7 f && live_failed f) r.1.failed_tasks ≡ false)
    × (filter (λ t. not (task_of 7 t)) r.1.tasks ≡ second_task ∷ [])
    × (filter (λ f. not (failed_task_of 7 f)) r.1.failed_tasks ≡ other_failed ∷ [])
    × (map unmarked r.1.tasks ≡ first_task ∷ second_task ∷ [])
    × (map unmarked_failed r.1.failed_tasks ≡ failed_task ∷ other_failed ∷ [])
    × (r.1.sent ≡ Message.remove_job 1 (some 10) ∷ Message.remove_failed_job 3 (some 10) ∷ [])
delete_perf_job_example = delete_perf_job_lem sql 7 two_failed
