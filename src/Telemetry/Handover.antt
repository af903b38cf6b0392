-- ===== src/Telemetry/Handover.antt =====
-- A job that moves from one node to another, with its two messages in either order: `schedule_job` and
-- `remove_job` of delfin/task_manager/scheduler/schedulers/telemetry/job_handler.py.
use delfin.Prelude.{
  ℕ, suc, ◌≡◌, refl, ap, ◌∙◌, true, false, not, ◌&&◌, ◌||◌, some, ◌∷◌, ◌==◌, ==_refl, if◌then◌else◌,
}
use delfin.Errors.{ok}
use delfin.Telemetry.Tables.{Task, State, find_task, update_task}
use delfin.Telemetry.Jobs.{
  JobStore, IsJobStore, Node, history_window, without, scheduled, schedule_job, remove_job,
}
use delfin.Telemetry.Reassign.{
  history-scheduler, find_task-with_history, find_task-update, with_job, with_new_job,
  schedule_job-run, remove_job-run,
}

-- Two nodes that share the database; the messages of one reassignment, in the order that they are
-- handled in.
pub record Pair (S : Type 0) : Type 0 where
  pub from : Node S
  pub to : Node S

-- The two nodes of a pair.
abbrev pair : {S : Type 0} → Node S → Node S → Pair S
pair a b = record { from = a; to = b }

module _ {S : Type 0} (store : JobStore S) (uuid : ℕ → ℕ) (history now i : ℕ) where
  abbrev pub share : State → Node S → Node S
  share db node = record node { db = db }

  -- `remove_job` on the node that the task leaves.
  unfoldable pub removed : Pair S → Pair S
  unfolding remove_job
  removed p =
      let from = (remove_job store i p.from).1 in record { from = from; to = share from.db p.to }

  -- `schedule_job` on the node that the task goes to.
  unfoldable pub assigned : Pair S → Pair S
  unfolding schedule_job
  assigned p =
      let to = (schedule_job store uuid history now i p.to).1 in
      record { from = share to.db p.from; to = to }

  module _ (law : IsJobStore store) (old : ℕ) (job : Task) (p : Pair S)
      (same_db : p.to.db ≡ p.from.db) (running : p.to.stopped ≡ false)
      (found : find_task i p.from.db.tasks ≡ ok job) (kept : job.deleted ≡ false)
      (its_job : job.job_id ≡ some old) (here : store.get_job p.from.scheduler old ≡ true)
      (not_there : store.get_job p.to.scheduler old ≡ false) where
    abbrev new : ℕ
    new = uuid p.to.issued

    abbrev known : Node S
    known = share p.from.db p.to

    abbrev left : Node S
    left = record p.from {
      job_ids = without old p.from.job_ids;
      scheduler =
          if store.get_job p.from.scheduler old
          then store.remove_job old p.from.scheduler
          else p.from.scheduler;
    }

    known-run :
        schedule_job store uuid history now i known
        ≡ (ok tt, with_new_job store uuid history now i job known)
    known-run =
        schedule_job-run store uuid history now i job known running found kept
          (ap (scheduled store p.to.scheduler) its_job ∙ not_there)

    removed-run : removed p ≡ record { from = left; to = known }
    unfolding removed
    removed-run =
        ap (λ r. pair r.1 (share r.1.db p.to)) (remove_job-run store i old job p.from found its_job)

    left_has_not : store.get_job left.scheduler old ≡ false
    left_has_not =
        ap
          (λ b.
            store.get_job (if b then store.remove_job old p.from.scheduler else p.from.scheduler)
              old)
          here
        ∙ law.get-remove old old p.from.scheduler
        ∙ ap (λ b. not b && store.get_job p.from.scheduler old) (==_refl old)

    has_new : store.get_job (with_new_job store uuid history now i job known).scheduler new ≡ true
    has_new =
        ap (λ s. store.get_job s new)
          (history-scheduler store i now (history_window history now job) _)
        ∙ law.get-add new new p.to.scheduler
        ∙ ap (λ b. b || store.get_job p.to.scheduler new) (==_refl new)

    -- A task with a job moves between two running nodes that share the database. If the node that it
    -- leaves handles `remove_job` before the other handles `assign_job`, the old job is gone from the
    -- first scheduler and the new one is in the second.
    pub handover-in_order :
        (store.get_job (assigned (removed p)).from.scheduler old ≡ false)
        × (store.get_job (assigned (removed p)).to.scheduler new ≡ true)
    unfolding assigned
    handover-in_order = (
      ap (λ (q : Pair S). store.get_job q.from.scheduler old) removed-run ∙ left_has_not,
      ap (λ (q : Pair S). store.get_job (assigned q).to.scheduler new) removed-run
          ∙ ap (λ r. store.get_job r.1.scheduler new) known-run
          ∙ has_new,
    )

    -- Under the same conditions, if the other node handles `assign_job` first, the first node looks up
    -- the job of the task, finds the new one, and its scheduler keeps the old job: both nodes collect.
    -- The new job is not in the first scheduler already.
    pub handover-out_of_order :
        (old == new) ≡ false
        → store.get_job p.from.scheduler new ≡ false
        → (store.get_job (removed (assigned p)).from.scheduler old ≡ true)
          × (store.get_job (removed (assigned p)).to.scheduler new ≡ true)
    unfolding assigned removed
    handover-out_of_order fresh unused =
        let n = with_new_job store uuid history now i job known in
        let e : assigned p ≡ record { from = share n.db p.from; to = n } =
          ap
            (λ (t : Node S).
              let m = (schedule_job store uuid history now i t).1 in pair (share m.db p.from) m)
            (ap (λ d. share d p.to) same_db)
          ∙ ap (λ r. pair (share r.1.db p.from) r.1) known-run in
        let (u, at, its, _) =
          find_task-with_history store i now (history_window history now job)
            (record known {
              db = record known.db { tasks = update_task i (with_job store new) known.db.tasks };
              scheduler = store.add_job new known.scheduler;
              issued = suc known.issued;
              job_ids = new ∷ without new known.job_ids;
            })
            (with_job store new job)
            (find_task-update i (with_job store new) known.db.tasks job (λ u. refl) found) in
        let r = remove_job-run store i new u (share n.db p.from) at its in
        (
          ap (λ (q : Pair S). store.get_job (removed q).from.scheduler old) e
              ∙ ap (λ x. store.get_job x.1.scheduler old) r
              ∙ ap
                  (λ b.
                    store.get_job
                      (if b then store.remove_job new p.from.scheduler else p.from.scheduler) old)
                  unused
              ∙ here,
          ap (λ (q : Pair S). store.get_job (removed q).to.scheduler new) e ∙ has_new,
        )
