-- ===== src/Telemetry/Once.antt =====
-- Jobs that are scheduled once, and failed jobs that end: delfin/task_manager/scheduler/schedulers/
-- telemetry/job_handler.py.
use delfin.Prelude.{
  ℕ, ◌≡◌, refl, sym, ap, ◌∙◌, true, false, not, ◌&&◌, ◌||◌, some, List, [], ◌∷◌, filter, arith,
  ◌==◌, ==_refl, ==→eq, if◌then◌else◌, Bool-cases, inl, inr,
}
use delfin.Errors.{ok, err, failed_task_not_found}
use delfin.Effect.{Effect, ◌>>=◌, catching, pure, >>=-step}
use delfin.Telemetry.Tables.{
  Task, FailedTask, find_task, task_get, failed_task_get, failed_task_delete,
}
use delfin.Telemetry.Jobs.{
  JobStore, IsJobStore, Node, on_db, history_window, without, scheduled, schedule_found,
  schedule_job, remove_scheduled_job, get_failed_task, teardown_task, is_finished,
  schedule_found_failed, schedule_failed_job,
}
use delfin.Telemetry.Reassign.{
  find_task-update, with_job, with_new_job, schedule_job-run, history-scheduler, history-stopped,
  find_task-with_history,
}

module _ {S : Type 0} (store : JobStore S) (uuid : ℕ → ℕ) (history i : ℕ) where
  schedule_job-known :
      (now : ℕ) (job : Task) (node : Node S)
      → node.stopped ≡ false
      → find_task i node.db.tasks ≡ ok job
      → scheduled store node.scheduler job.job_id ≡ true
      → schedule_job store uuid history now i node ≡ (ok tt, node)
  unfolding schedule_job task_get
  schedule_job-known now job node running found known =
      let rest = schedule_found store uuid history now i in
      ap (λ b. if b then (ok tt, node) else (on_db store (task_get i) >>= rest) node) running
      ∙ >>=-step (on_db store (task_get i)) rest node node job (ap (λ r. (r, node)) found)
      ∙ elim (Bool-cases job.deleted) [ inl y ↦ rw y refl | inr f ↦ rw (f, known) refl ]

  -- A running node schedules a job for a task that is not deleted and of whose job its scheduler knows
  -- nothing. However often the message comes again, it leaves the node as it is then, which has the
  -- job.
  pub schedule_job-once :
      (now again : ℕ) (job : Task) (node : Node S)
      → IsJobStore store
      → node.stopped ≡ false
      → find_task i node.db.tasks ≡ ok job
      → job.deleted ≡ false
      → scheduled store node.scheduler job.job_id ≡ false
      → let first = (schedule_job store uuid history now i node).1 in
        (schedule_job store uuid history again i first ≡ (ok tt, first))
        × (store.get_job first.scheduler (uuid node.issued) ≡ true)
  schedule_job-once now again job node law running found kept unknown =
      let j = uuid node.issued in
      let w = history_window history now job in
      let first = with_new_job store uuid history now i job node in
      let run =
        ap (λ r. r.1)
          (schedule_job-run store uuid history now i job node running found kept unknown) in
      let (u, at, its, _) =
        find_task-with_history store i now w _ (with_job store j job)
          (find_task-update i (with_job store j) node.db.tasks job (λ u. refl) found) in
      let has =
        ap (λ s. store.get_job s j) (history-scheduler store i now w _)
        ∙ law.get-add j j node.scheduler
        ∙ ap (λ b. b || store.get_job node.scheduler j) (==_refl j) in
      (
        ap (λ n. schedule_job store uuid history again i n) run
            ∙ schedule_job-known again u first (history-stopped store i now w _ ∙ running) at
                (ap (scheduled store first.scheduler) its ∙ has)
            ∙ ap (λ n. (ok tt, n)) (sym run),
        ap (λ n. store.get_job n.scheduler j) run ∙ has,
      )

failed_task_get-id :
    (i : ℕ) (fs : List FailedTask) (f : FailedTask) → failed_task_get i fs ≡ ok f → f.id ≡ i
unfolding failed_task_get
failed_task_get-id i [] f h = absurd (ground arith)
failed_task_get-id i (x ∷ fs) f h = elim (Bool-cases (x.id == i)) [
  | inl y ↦
      let same : x ≡ f = ground arith in ap (λ (t : FailedTask). t.id) (sym same) ∙ ==→eq x.id i y
  | inr n ↦ failed_task_get-id i fs f (ground arith)
]

failed_task_get-deleted :
    (i : ℕ) (fs : List FailedTask)
    → failed_task_get i (filter (λ f. not (f.id == i)) fs) ≡ err failed_task_not_found
unfolding failed_task_get
failed_task_get-deleted i [] = refl
failed_task_get-deleted i (f ∷ fs) = let rest = failed_task_get-deleted i fs in ground arith

module _ {S : Type 0} (store : JobStore S) (uuid : ℕ → ℕ) (i : ℕ) where
  -- The node without the failed task and its job.
  abbrev torn_down : ℕ → Node S → Node S
  torn_down j node = record node {
    db = record node.db { failed_tasks = filter (λ f. not (f.id == i)) node.db.failed_tasks };
    job_ids = without j node.job_ids;
    scheduler =
        if store.get_job node.scheduler j
        then store.remove_job j node.scheduler
        else node.scheduler;
  }

  removed_from :
      (j : ℕ) (node : Node S)
      → IsJobStore store
      → store.get_job (torn_down j node).scheduler j ≡ false
  removed_from j node law = elim (Bool-cases (store.get_job node.scheduler j)) [
    | inl y ↦
        ap (λ b. store.get_job (if b then store.remove_job j node.scheduler else node.scheduler) j)
          y
        ∙ law.get-remove j j node.scheduler
        ∙ ap (λ b. not b && store.get_job node.scheduler j) (==_refl j)
    | inr f ↦
        ap (λ b. store.get_job (if b then store.remove_job j node.scheduler else node.scheduler) j)
          f
        ∙ f
  ]

  finished-torn_down :
      (j : ℕ) (f : FailedTask) (node : Node S)
      → is_finished store f ≡ true
      → f.id ≡ i
      → f.job_id ≡ some j
      → schedule_found_failed store uuid f node ≡ (ok tt, torn_down j node)
  unfolding teardown_task failed_task_delete remove_scheduled_job
  finished-torn_down j f node done same its = rw done (
      ap (λ k. teardown_task store k f.job_id node) same
      ∙ ap (λ o. teardown_task store i o node) its)

  schedule_failed_job-finished :
      (j : ℕ) (f : FailedTask) (node : Node S)
      → node.stopped ≡ false
      → failed_task_get i node.db.failed_tasks ≡ ok f
      → is_finished store f ≡ true
      → f.job_id ≡ some j
      → schedule_failed_job store uuid i node ≡ (ok tt, torn_down j node)
  unfolding schedule_failed_job
  schedule_failed_job-finished j f node running found done its =
      let rest = schedule_found_failed store uuid in
      let m = get_failed_task store i >>= rest in
      ap (λ b. if b then (ok tt, node) else catching m (pure tt) node) running
      ∙ ap (λ r. catching (λ n. r) (pure tt) node)
          (>>=-step (get_failed_task store i) rest node node f (ap (λ r. (r, node)) found)
            ∙ finished-torn_down j f node done (failed_task_get-id i node.db.failed_tasks f found)
                its)

  schedule_failed_job-missing :
      (node : Node S)
      → failed_task_get i node.db.failed_tasks ≡ err failed_task_not_found
      → schedule_failed_job store uuid i node ≡ (ok tt, node)
  unfolding schedule_failed_job
  schedule_failed_job-missing node gone = elim (Bool-cases node.stopped) [
    | inl y ↦ ap (λ b. if b then (ok tt, node) else catching m (pure tt) node) y
    | inr f ↦
        ap (λ b. if b then (ok tt, node) else catching m (pure tt) node) f
        ∙ ap
            (λ r.
              catching
                (λ n. elim r [
                  | ok a ↦ schedule_found_failed store uuid a node
                  | err e ↦ (err e, node)
                ])
                (pure tt) node)
            gone
  ]
    where
      m : Effect (Node S) (Unit {0})
      m = get_failed_task store i >>= schedule_found_failed store uuid

  -- A running node that is told to schedule a failed task which has succeeded or has had all of its
  -- retries deletes the task and removes its job, and does nothing when it is told again.
  pub schedule_failed_job-ends :
      (j : ℕ) (f : FailedTask) (node : Node S)
      → IsJobStore store
      → node.stopped ≡ false
      → failed_task_get i node.db.failed_tasks ≡ ok f
      → is_finished store f ≡ true
      → f.job_id ≡ some j
      → let after = (schedule_failed_job store uuid i node).1 in
        (failed_task_get i after.db.failed_tasks ≡ err failed_task_not_found)
        × (store.get_job after.scheduler j ≡ false)
        × (schedule_failed_job store uuid i after ≡ (ok tt, after))
  schedule_failed_job-ends j f node law running found done its =
      let run = ap (λ r. r.1) (schedule_failed_job-finished j f node running found done its) in
      let gone =
        ap (λ (n : Node S). failed_task_get i n.db.failed_tasks) run
        ∙ failed_task_get-deleted i node.db.failed_tasks in
      (
        gone,
        ap (λ (n : Node S). store.get_job n.scheduler j) run ∙ removed_from j node law,
        schedule_failed_job-missing (schedule_failed_job store uuid i node).1 gone,
      )
