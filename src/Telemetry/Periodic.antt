-- ===== src/Telemetry/Periodic.antt =====
-- `PerformanceCollectionHandler` of delfin/task_manager/scheduler/schedulers/telemetry/
-- performance_collection_handler.py. What `PerformanceCollectionTask.collect` answers for a window and
-- what the driver says of its retention window are arguments.
use delfin.Prelude.{
  ℕ, zero, suc, ◌+◌, ◌*◌, ◌≤◌, ◌<◌, subst, Bool-cases, inl, inr, ◌≡◌, refl, sym, ap, ◌∙◌, Bool,
  true, false, not, Option, none, some, [], ◌∷◌, ◌++◌, map, leb, if◌then◌else◌, arith,
}
use delfin.Prelude.Int.{ℤ, pos, sub_ℕ, ◌≤ℤ◌}
use delfin.Errors.{Exception, Result, ok, err, telemetry_task_exec_error}
use delfin.Effect.{◌>>=◌, ◌>>◌, pure, lift, when, >>=-step}
use delfin.Telemetry.Tables.{
  Task, FailedTask, init, State, Action, Engine, IsRounding, Message, send, find_task, task_update,
  update_task, failed_task_create,
}
use delfin.Telemetry.Failed.{max_failed_job_retry_count}
use delfin.Telemetry.Reassign.{task_update-found}

-- The attributes of the handler, in seconds.
pub record Collector : Type 0 where
  pub task_id : ℕ
  pub storage_id : ℕ
  pub interval : ℕ
  pub executor : Option ℕ

-- `performance_timestamp_overlap` and `max_failed_task_retry_window`
pub record Config : Type 0 where
  pub overlap : ℕ
  pub retry_window : ℕ

-- `FAILED_JOB_SCHEDULE_INTERVAL`, in seconds.
abbrev pub failed_job_schedule_interval : ℕ
failed_job_schedule_interval = 900

-- Start and end in milliseconds.
unfoldable pub collection_window : Config → Collector → ℕ → ℤ × ℤ
collection_window config c now =
    (sub_ℕ (now * 1000) (c.interval * 1000 + config.overlap * 1000), pos (now * 1000))

-- The interval of the retries as it is computed, in fifths of a second: a fifth of the retention window, if the driver
-- names one, but of no more than the configured window.
unfoldable pub retry_interval : Config → Result (Option ℕ) → ℕ
retry_interval config (err e) = failed_job_schedule_interval * 5
retry_interval config (ok none) = failed_job_schedule_interval * 5
retry_interval config (ok (some zero)) = failed_job_schedule_interval * 5
retry_interval config (ok (some (suc n))) =
    if leb (suc n) config.retry_window then suc n else config.retry_window

-- The new failed task, before it has an id; its interval is what the column stores.
unfoldable pub failed_collection :
    Engine → Config → Result (Option ℕ) → Collector → ℤ × ℤ → FailedTask
unfolding retry_interval
failed_collection sql config retention c w = record {
  id = 0;
  storage_id = c.storage_id;
  task_id = c.task_id;
  interval = sql.to_integer (retry_interval config retention);
  start_time = w.0;
  end_time = w.1;
  retry_count = 0;
  result = init;
  job_id = none;
  executor = c.executor;
  deleted = false;
}

unfoldable pub handle_task_failure :
    Engine → Config → Result (Option ℕ) → Collector → ℤ × ℤ → Action (Unit {0})
unfolding failed_collection failed_task_create
handle_task_failure sql config retention c w = do
  i ← failed_task_create sql (failed_collection sql config retention c w)
  send (Message.assign_failed_job i c.executor)

-- The `try` block of the call: it collects, notes the time, and raises if the collection failed.
abbrev pub collect_once : (ℤ × ℤ → Bool) → Config → Collector → ℕ → Action (Unit {0})
collect_once collect config c now = do
  task_update c.task_id (λ t. record t { last_run_time = some now })
  when (not (collect (collection_window config c now))) (lift (err telemetry_task_exec_error))

-- A result is there for the `else` branch, an exception goes to the handling of the failure.
abbrev pub or_fail : Action (Unit {0}) → Action (Unit {0}) → Action (Unit {0})
or_fail m handler st = let (r, st') = m st in elim r [ ok _ ↦ (ok tt, st') | err _ ↦ handler st' ]

abbrev pub on_task : (Task → Action (Unit {0})) → Result Task → Action (Unit {0})
on_task body (err e) = pure tt
on_task body (ok t) = if t.deleted then pure tt else body t

-- `__call__` at the time `now`. `task_get` raises nothing but TaskNotFound.
unfoldable pub collector_call :
    Engine → Config → (ℤ × ℤ → Bool) → Result (Option ℕ) → Collector → ℕ → Action (Unit {0})
unfolding find_task task_update collection_window handle_task_failure
collector_call sql config collect retention c now st =
    on_task
      (λ t.
        or_fail (collect_once collect config c now)
          (handle_task_failure sql config retention c (collection_window config c now)))
      (find_task c.task_id st.tasks) st

-- A window and the next, if it is no later than the interval and the overlap after: nothing between
-- them is left out.
pub collection_window-meets :
    (config : Config) (c : Collector) (now next : ℕ)
    → next ≤ now + (c.interval + config.overlap)
    → (collection_window config c next).0 ≤ℤ (collection_window config c now).1
unfolding collection_window
collection_window-meets config c now next h = ground arith

-- The state after a collection that has succeeded.
abbrev pub noted : Collector → ℕ → State → State
noted c now st = record st {
  tasks = update_task c.task_id (λ t. record t { last_run_time = some now }) st.tasks;
}

-- The failed task for a window, and the state with it and the message to its executor.
abbrev pub expected_failure : Collector → ℤ × ℤ → (id interval : ℕ) → FailedTask
expected_failure c w id interval = record {
  id = id;
  storage_id = c.storage_id;
  task_id = c.task_id;
  interval = interval;
  start_time = w.0;
  end_time = w.1;
  retry_count = 0;
  result = init;
  job_id = none;
  executor = c.executor;
  deleted = false;
}

abbrev pub reported : Engine → Collector → ℤ × ℤ → ℕ → State → State
reported sql c w interval st =
    let i = sql.next_id (map (λ (u : FailedTask). u.id) st.failed_tasks) in
    record st {
      failed_tasks = st.failed_tasks ++ expected_failure c w i interval ∷ [];
      sent = st.sent ++ Message.assign_failed_job i c.executor ∷ [];
    }

-- The stored interval of the retries. If the driver names a retention window, it is a fifth of that
-- or of the configured window, of the smaller one, up to the rounding.
pub data RetryInterval (config : Config) : Result (Option ℕ) → ℕ → Type 0 where
  unanswered : {e : Exception} → RetryInterval config (err e) 900
  unnamed : RetryInterval config (ok none) 900
  named_zero : RetryInterval config (ok (some 0)) 900
  named :
      {n i : ℕ}
      → 1 ≤ n
      → max_failed_job_retry_count * i < n + 5
      → max_failed_job_retry_count * i < config.retry_window + 5
      → (if leb n config.retry_window then n else config.retry_window)
        < max_failed_job_retry_count * i + 5
      → RetryInterval config (ok (some n)) i

retry_interval-RetryInterval :
    (to_integer : ℕ → ℕ) (config : Config) (retention : Result (Option ℕ))
    → IsRounding to_integer
    → RetryInterval config retention (to_integer (retry_interval config retention))
unfolding retry_interval
retry_interval-RetryInterval to_integer config retention law = by_retention retention
  where
    whole : to_integer (failed_job_schedule_interval * 5) ≡ 900
    whole =
        let low = law.not_below (failed_job_schedule_interval * 5) in
        let high = law.not_above (failed_job_schedule_interval * 5) in omega arith

    by_retention :
        (retention : Result (Option ℕ))
        → RetryInterval config retention (to_integer (retry_interval config retention))
    by_retention (err e) = subst (λ i. RetryInterval config (err e) i) (sym whole) unanswered
    by_retention (ok none) = subst (λ i. RetryInterval config (ok none) i) (sym whole) unnamed
    by_retention (ok (some zero)) =
        subst (λ i. RetryInterval config (ok (some 0)) i) (sym whole) named_zero
    by_retention (ok (some (suc n))) = elim (Bool-cases (leb (suc n) config.retry_window)) [
      | inl y ↦
          let low = law.not_below (suc n) in
          let high = law.not_above (suc n) in
          rw y (named (omega arith) (omega arith) (ground arith) (ground arith))
      | inr f ↦
          let low = law.not_below config.retry_window in
          let high = law.not_above config.retry_window in
          rw f (named (omega arith) (ground arith) (omega arith) (ground arith))
    ]

handle_task_failure-run :
    (sql : Engine) (config : Config) (retention : Result (Option ℕ)) (c : Collector) (w : ℤ × ℤ)
    (st : State)
    → handle_task_failure sql config retention c w st
      ≡ (ok tt, reported sql c w (sql.to_integer (retry_interval config retention)) st)
unfolding handle_task_failure
handle_task_failure-run sql config retention c w st = refl

-- A call for a task that is there and not deleted notes its time as the last run. If the collection
-- fails, a failed task of the storage and the task is added, with the start and the end of the window
-- and no retries, and its job is sent to the executor. If the column rounds its interval up or down:
-- where the driver names a retention window, five retries take at most that window and the configured
-- one, but for less than five seconds by the rounding, and they fill the smaller of the two as nearly;
-- where it names none or the question fails, the interval is 900 seconds.
pub collector_call-outcome :
    (sql : Engine) (config : Config) (collect : ℤ × ℤ → Bool) (retention : Result (Option ℕ))
    (c : Collector) (now : ℕ) (t : Task) (st : State)
    → IsRounding sql.to_integer
    → find_task c.task_id st.tasks ≡ ok t
    → t.deleted ≡ false
    → let w = collection_window config c now in
      (i : ℕ) × (collector_call sql config collect retention c now st
        ≡ (ok tt, if collect w then noted c now st else reported sql c w i (noted c now st)))
      × RetryInterval config retention i
unfolding collector_call
collector_call-outcome sql config collect retention c now t st law found kept = (
  sql.to_integer (retry_interval config retention),
  ap (λ r. on_task body r st) found
      ∙ ap (λ b. (if b then pure tt else body t) st) kept
      ∙ run (collect w) refl,
  retry_interval-RetryInterval sql.to_integer config retention law,
)
  where
    w : ℤ × ℤ
    w = collection_window config c now

    body : Task → Action (Unit {0})
    body t =
        or_fail (collect_once collect config c now) (handle_task_failure sql config retention c w)

    once :
        (b : Bool)
        → collect w ≡ b
        → collect_once collect config c now st
          ≡ ((if b then ok tt else err telemetry_task_exec_error), noted c now st)
    once b e =
        let f = λ (t : Task). record t { last_run_time = some now } in
        >>=-step (task_update c.task_id f)
          (λ _. when (not (collect w)) (lift (err telemetry_task_exec_error))) st (noted c now st)
          tt (task_update-found c.task_id f st t found)
        ∙ ap (λ b. when (not b) (lift (err telemetry_task_exec_error)) (noted c now st)) e
        ∙ last b
      where
        last :
            (b : Bool)
            → when (not b) (lift (err telemetry_task_exec_error)) (noted c now st)
              ≡ ((if b then ok tt else err telemetry_task_exec_error), noted c now st)
        last true = refl
        last false = refl

    run :
        (b : Bool)
        → collect w ≡ b
        → body t st ≡ (
          ok tt,
          if collect w
              then noted c now st
              else reported sql c w
                  (sql.to_integer (retry_interval config retention))
                  (noted c now st),
        )
    run b e =
        ap (λ x. or_fail (λ s. x) failure st) (once b e)
        ∙ last b
        ∙ ap (λ b. (ok tt, if b then noted c now st else lost)) (sym e)
      where
        failure : Action (Unit {0})
        failure = handle_task_failure sql config retention c w

        lost : State
        lost = reported sql c w (sql.to_integer (retry_interval config retention)) (noted c now st)

        last :
            (b : Bool)
            → or_fail
                (λ s. ((if b then ok tt else err telemetry_task_exec_error), noted c now st))
                failure
                st
              ≡ (ok tt, if b then noted c now st else lost)
        last true = refl
        last false = handle_task_failure-run sql config retention c w (noted c now st)
