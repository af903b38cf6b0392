-- ===== src/Telemetry/Window.antt =====
-- The window of the history collection: `perform_history_collection` of delfin/task_manager/
-- scheduler/schedulers/telemetry/job_handler.py.
use delfin.Prelude.{ℕ, ◌*◌, ◌≡◌, Option, none, some, arith, if◌then◌else◌}
use delfin.Prelude.Int.{ℤ, pos, sub_ℕ, ltb_ℤ}
use delfin.Telemetry.Tables.{Task}
use delfin.Telemetry.Jobs.{given, history_window}

-- The later of two times.
abbrev pub later : ℤ → ℤ → ℤ
later a b = if ltb_ℤ a b then b else a

-- When the data was last collected; if that is not known, one interval ago for a task that has had a
-- job.
abbrev pub collected_until : ℕ → Task → Option ℤ
collected_until now job = elim (given job.last_run_time) [
  | some last ↦ some (pos (last * 1000))
  | none ↦ elim job.job_id [
    | none ↦ none
    | some _ ↦ some (sub_ℕ (now * 1000) (job.interval * 1000))
  ]
]

-- The window of the history collection: from when the data was last collected, but no earlier than
-- the configured history before now, until now. There is none for a task without either.
pub history_window_lem :
    (history now : ℕ) (job : Task)
    → history_window history now job ≡ elim (collected_until now job) [
      | none ↦ none
      | some start ↦ some (later start (sub_ℕ (now * 1000) (history * 1000)), pos (now * 1000))
    ]
unfolding history_window
history_window_lem history now job = ground arith
