-- ===== src/Telemetry/Join.antt =====
-- `on_node_join` of delfin/task_manager/scheduler/schedule_manager.py as a whole.

use delfin.Prelude.{
  ℕ, ◌≡◌, refl, ap, ap₂, ◌∙◌, Bool, true, false, not, Option, List, [], ◌∷◌, ◌++◌, map, filter,
  arith, elem, distinct, ==→eq, if◌then◌else◌,
}
use delfin.Errors.{ok}
use delfin.Effect.{◌>>=◌, for_each, >>=-step}
use delfin.Database.Permuted.{any_row, any_row-Perm}
use delfin.Telemetry.Tables.{
  Task, FailedTask, State, Engine, IsEngine, task_get_all, failed_task_get, failed_task_get_all,
}
use delfin.Telemetry.Distribute.{
  assign, assign_failed, live, live_failed, rejoin_task, rejoin_failed_task, on_node_join,
}
use delfin.Telemetry.Placing.{placed-selected}
use delfin.Telemetry.Moving.{
  task_ids, failed_task_ids, executor_of, parent_of, task_moves, failed_task_moves,
}
use delfin.Telemetry.Rejoin.{
  put_task, put_failed_task, orphans, misnamed, rejoin_tasks-run, rejoin_failed_tasks-run,
  any_row-none,
}

any_row-ids :
    {A : Type 0} (key : A → ℕ) (p : A → Bool) (xs : List A)
    → ((u : A) → elem (key u) (map key xs) ≡ true → p u ≡ false)
    → any_row p xs ≡ false
any_row-ids key p [] h = refl
any_row-ids key p (x ∷ xs) h =
    let here = h x (ground arith) in
    let rest = any_row-ids key p xs (λ u e. h u (ground arith)) in ground arith

failed_task_get-elem_ids :
    (i : ℕ) (f : FailedTask) (fs : List FailedTask)
    → failed_task_get i fs ≡ ok f
    → elem i (failed_task_ids fs) ≡ true
unfolding failed_task_get
failed_task_get-elem_ids i f [] e = absurd (ground arith)
failed_task_get-elem_ids i f (x ∷ fs) e = ground (arith, failed_task_get-elem_ids i f fs)

any_row-found :
    (p : FailedTask → Bool) (fs : List FailedTask)
    → distinct (failed_task_ids fs) ≡ true
    → ((f : FailedTask) → failed_task_get f.id fs ≡ ok f → p f ≡ false)
    → any_row p fs ≡ false
unfolding failed_task_get
any_row-found p [] unique h = refl
any_row-found p (x ∷ fs) unique h =
    let here = h x (ground arith) in
    let rest =
      any_row-found p fs (ground arith)
        (λ f e. h f (ground (arith, failed_task_get-elem_ids f.id f fs e))) in
    ground arith

misnamed-parent_of :
    (fs : List FailedTask)
    → distinct (failed_task_ids fs) ≡ true
    → misnamed (parent_of fs) fs ≡ false
misnamed-parent_of fs unique = any_row-found _ fs unique (λ f e. rw (e, parent_of) (ground arith))

-- Each failed task goes to the executor of its task.
put_failed_task-follows :
    (executor : ℕ → Option ℕ) (parent : ℕ → ℕ) (fs : List FailedTask)
    → misnamed parent fs ≡ false
    → map (λ f. if live_failed f then put_failed_task executor parent f.id f else f) fs
      ≡ map (λ f. if live_failed f then assign_failed (executor f.task_id) f else f) fs
put_failed_task-follows executor parent [] h = refl
put_failed_task-follows executor parent (f ∷ fs) h =
    ap₂ (λ u us. u ∷ us)
      (ap (λ i. if live_failed f then assign_failed (executor i) f else f)
        (==→eq (parent f.id) f.task_id (ground arith)))
      (put_failed_task-follows executor parent fs (ground arith))

-- The tables after all members have joined.
abbrev pub joined_tasks : (ℕ → Option ℕ) → List Task → List Task
joined_tasks host = map λ t. if live t then assign (host t.id) t else t

abbrev pub joined_failed_tasks : List Task → List FailedTask → List FailedTask
joined_failed_tasks tasks =
    map λ f. if live_failed f then assign_failed (executor_of tasks f.task_id) f else f

task_ids-joined :
    (host : ℕ → Option ℕ) (ts : List Task) → task_ids (joined_tasks host ts) ≡ task_ids ts
task_ids-joined host [] = refl
task_ids-joined host (t ∷ ts) = ground (arith, task_ids-joined host ts)

-- For an engine that returns the rows that it selects, when the ids in both tables are distinct and
-- every live failed task has its task in the table: after a node has joined, every live task is
-- assigned to the executor that the group has for it, every live failed task to the executor of
-- its task, and nothing else in the tables has changed. The messages, in the order of the queries,
-- first for the tasks and then for the failed tasks: each job is assigned to its executor, and right
-- before that it is removed from its old one if that is another.
pub on_node_join_lem :
    (sql : Engine) (host : ℕ → Option ℕ) (st : State)
    → IsEngine sql
    → distinct (task_ids st.tasks) ≡ true
    → distinct (failed_task_ids st.failed_tasks) ≡ true
    → orphans st.tasks (filter live_failed st.failed_tasks) ≡ false
    → let tasks = joined_tasks host st.tasks in
      on_node_join sql host st ≡ (
        ok tt,
        record st {
          tasks = tasks;
          failed_tasks = joined_failed_tasks tasks st.failed_tasks;
          sent =
              (st.sent ++ task_moves host (sql.order_tasks (filter live st.tasks)))
              ++ failed_task_moves
                  (executor_of tasks)
                  (sql.order_failed_tasks (filter live_failed st.failed_tasks));
        },
      )
unfolding on_node_join task_get_all failed_task_get_all
on_node_join_lem sql host st engine unique unique_failed parents =
    let ts = sql.order_tasks (filter live st.tasks) in
    let fs = sql.order_failed_tasks (filter live_failed st.failed_tasks) in
    let tasks = joined_tasks host st.tasks in
    let parent = parent_of st.failed_tasks in
    let named = misnamed-parent_of st.failed_tasks unique_failed in
    let order = engine.permutes_tasks (filter live st.tasks) in
    let order_failed = engine.permutes_failed_tasks (filter live_failed st.failed_tasks) in
    let st₁ = record st { tasks = tasks; sent = st.sent ++ task_moves host ts } in
    >>=-step (for_each ts (rejoin_task host))
      (λ _. failed_task_get_all sql live_failed >>= λ fs. for_each fs rejoin_failed_task) st st₁ tt
      (rejoin_tasks-run host ts st (
          any_row-none _ live st.tasks ts order
            (any_row-ids (λ t. t.id) _ st.tasks (λ u e. ground arith)))
        ∙ ap (λ x. (ok tt, record st { tasks = x; sent = st.sent ++ task_moves host ts }))
            (placed-selected (λ t. t.id) (put_task host) live st.tasks ts unique order))
    ∙ rejoin_failed_tasks-run parent fs st₁
        (any_row-none _ live_failed st.failed_tasks fs order_failed
          (any_row-ids (λ f. f.id) _ st.failed_tasks (λ u e. ground arith)))
        (any_row-Perm _ fs (filter live_failed st.failed_tasks) order_failed
          ∙ ap
              (λ is.
                any_row (λ (f : FailedTask). not (elem f.task_id is))
                  (filter live_failed st.failed_tasks))
              (task_ids-joined host st.tasks)
          ∙ parents)
        (any_row-none _ live_failed st.failed_tasks fs order_failed named)
    ∙ ap
        (λ x. (
          ok tt,
          record st₁ {
            failed_tasks = x;
            sent = st₁.sent ++ failed_task_moves (executor_of tasks) fs;
          },
        ))
        (placed-selected (λ f. f.id) (put_failed_task (executor_of tasks) parent) live_failed
            st.failed_tasks fs unique_failed order_failed
          ∙ put_failed_task-follows (executor_of tasks) parent st.failed_tasks named)
