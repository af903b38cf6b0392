-- ===== src/Telemetry/Tests/Collecting.antt =====
-- Runs of delfin/task_manager/scheduler/schedulers/telemetry/performance_collection_handler.py.
use delfin.Prelude.{ℕ, ◌/◌, ◌≡◌, refl, Bool, false, none, some, [], ◌∷◌, arith, if◌then◌else◌}
use delfin.Prelude.Int.{ℤ, ◌≤ℤ◌}
use delfin.Errors.{ok}
use delfin.Telemetry.Tables.{
  Task, State, Engine, IsRounding, Message, find_task, failed_task_create,
}
use delfin.Telemetry.Periodic.{
  Collector, Config, collector_call, collection_window, RetryInterval, noted, reported,
  collection_window-meets, collector_call-outcome,
}

-- A column that rounds down.
abbrev down : ℕ → ℕ
down m = m / 5

down-IsRounding : IsRounding down
down-IsRounding = record { not_below = λ m. omega arith; not_above = λ m. omega arith }

abbrev sql : Engine
sql = record {
  order_tasks = λ ts. ts;
  order_failed_tasks = λ fs. fs;
  next_id = λ is. 50;
  to_integer = down;
}

abbrev config : Config
config = record { overlap = 60; retry_window = 7200 }

abbrev task : Task
task = record {
  id = 1;
  storage_id = 7;
  interval = 900;
  args = 0;
  last_run_time = none;
  job_id = some 40;
  executor = some 10;
  deleted = false;
}

abbrev state : State
state = record { tasks = task ∷ []; failed_tasks = []; sent = [] }

abbrev collector : Collector
collector = record { task_id = 1; storage_id = 7; interval = 900; executor = some 10 }

fails : ℤ × ℤ → Bool
fails w = false

collection_window_example :
    (collection_window config collector 5940).0 ≤ℤ (collection_window config collector 5000).1
collection_window_example = collection_window-meets config collector 5000 5940 (ground arith)

collector_call-run :
    (collector_call sql config (λ w. false) (ok (some 3600)) collector 5000 state).1.sent
    ≡ Message.assign_failed_job 50 (some 10) ∷ []
unfolding collector_call find_task failed_task_create
collector_call-run = refl

collector_call_example :
    let w = collection_window config collector 5000 in
    (i : ℕ) × (collector_call sql config fails (ok (some 3600)) collector 5000 state ≡ (
      ok tt,
      if fails w
          then noted collector 5000 state
          else reported sql collector w i (noted collector 5000 state),
    ))
    × RetryInterval config (ok (some 3600)) i
unfolding find_task
collector_call_example =
    collector_call-outcome sql config fails (ok (some 3600)) collector 5000 task state
      down-IsRounding refl refl
