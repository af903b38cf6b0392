-- ===== src/Telemetry/Reassign.antt =====
-- What a job that is added or removed leaves behind: `schedule_job` and `remove_job` of
-- delfin/task_manager/scheduler/schedulers/telemetry/job_handler.py.
use delfin.Prelude.{
  ℕ, suc, ◌≡◌, refl, ap, ◌∙◌, false, Option, none, some, List, [], ◌∷◌, ◌++◌, arith, if◌then◌else◌,
}
use delfin.Prelude.Int.{ℤ}
use delfin.Errors.{ok}
use delfin.Effect.{◌>>=◌, ◌>>◌, catching, pure, modify, >>=-step}
use delfin.Telemetry.Tables.{Task, State, find_task, task_get, task_update, update_task}
use delfin.Telemetry.Jobs.{
  JobStore, Node, on_db, history_window, without, scheduled, schedule_found,
  perform_history_collection, add_new_job, schedule_job, remove_scheduled_job, remove_job,
}

pub find_task-update :
    (i : ℕ) (f : Task → Task) (ts : List Task) (t : Task)
    → ((u : Task) → (f u).id ≡ u.id)
    → find_task i ts ≡ ok t
    → find_task i (update_task i f ts) ≡ ok (f t)
unfolding find_task
find_task-update i f [] t same e = absurd (ground arith)
find_task-update i f (x ∷ ts) t same e = ground (arith, same x, find_task-update i f ts t same)

-- An update of a task that is there.
pub task_update-found :
    (i : ℕ) (f : Task → Task) (st : State) (t : Task)
    → find_task i st.tasks ≡ ok t
    → task_update i f st ≡ (ok tt, record st { tasks = update_task i f st.tasks })
unfolding task_update
task_update-found i f st t found = rw found refl

module _ {S : Type 0} (store : JobStore S) where
  abbrev collect : ℤ × ℤ → Node S → Node S
  collect w node = record node { collected = node.collected ++ w ∷ [] }

  abbrev put_tasks : ℕ → (Task → Task) → Node S → Node S
  put_tasks i f node = record node { db = record node.db { tasks = update_task i f node.db.tasks } }

  abbrev pub ran_at : ℕ → Task → Task
  ran_at now t = record t { last_run_time = some now }

  abbrev pub with_job : ℕ → Task → Task
  with_job j t = record t { job_id = some j }

  abbrev pub with_history : ℕ → ℕ → Option (ℤ × ℤ) → Node S → Node S
  with_history i now none node = node
  with_history i now (some w) node = put_tasks i (ran_at now) (collect w node)

  on_db-update :
      (i : ℕ) (f : Task → Task) (node : Node S) (t : Task)
      → find_task i node.db.tasks ≡ ok t
      → on_db store (task_update i f) node ≡ (ok tt, put_tasks i f node)
  on_db-update i f node t found =
      ap (λ r. (r.0, record node { db = r.1 })) (task_update-found i f node.db t found)

  history-run :
      (i now : ℕ) (w : Option (ℤ × ℤ)) (node : Node S) (t : Task)
      → find_task i node.db.tasks ≡ ok t
      → perform_history_collection store i now w node ≡ (ok tt, with_history i now w node)
  unfolding perform_history_collection
  history-run i now none node t found = refl
  history-run i now (some w) node t found =
      ap (λ r. catching (λ n. r) (pure tt) (collect w node))
        (on_db-update i (ran_at now) (collect w node) t found)

  -- The node after `schedule_job` has added a job.
  abbrev pub with_new_job : (ℕ → ℕ) → ℕ → ℕ → ℕ → Task → Node S → Node S
  with_new_job uuid history now i job node =
      let j = uuid node.issued in
      with_history i now (history_window history now job) (record node {
        db = record node.db { tasks = update_task i (with_job j) node.db.tasks };
        scheduler = store.add_job j node.scheduler;
        issued = suc node.issued;
        job_ids = j ∷ without j node.job_ids;
      })

  pub add_new_job-run :
      (uuid : ℕ → ℕ) (history now i : ℕ) (job : Task) (node : Node S)
      → find_task i node.db.tasks ≡ ok job
      → add_new_job store uuid history now i job node
        ≡ (ok tt, with_new_job uuid history now i job node)
  unfolding add_new_job
  add_new_job-run uuid history now i job node found =
      let j = uuid node.issued in
      let w = history_window history now job in
      let node₁ = record node {
        scheduler = store.add_job j node.scheduler;
        issued = suc node.issued;
      } in
      let node₂ = put_tasks i (with_job j) node₁ in
      let node₃ = record node₂ { job_ids = j ∷ without j node₂.job_ids } in
      >>=-step (on_db store (task_update i (with_job j)))
        (λ _.
          modify (λ n. record n { job_ids = j ∷ without j n.job_ids })
          >> perform_history_collection store i now w)
        node₁ node₂ tt (on_db-update i (with_job j) node₁ job found)
      ∙ history-run i now w node₃ (with_job j job)
          (find_task-update i (with_job j) node.db.tasks job (λ u. refl) found)

  -- A running node adds a new job for a task that is not deleted and of whose job its scheduler knows
  -- nothing.
  pub schedule_job-run :
      (uuid : ℕ → ℕ) (history now i : ℕ) (job : Task) (node : Node S)
      → node.stopped ≡ false
      → find_task i node.db.tasks ≡ ok job
      → job.deleted ≡ false
      → scheduled store node.scheduler job.job_id ≡ false
      → schedule_job store uuid history now i node
        ≡ (ok tt, with_new_job uuid history now i job node)
  unfolding schedule_job task_get
  schedule_job-run uuid history now i job node running found kept unknown =
      let rest = schedule_found store uuid history now i in
      ap (λ b. if b then (ok tt, node) else (on_db store (task_get i) >>= rest) node) running
      ∙ >>=-step (on_db store (task_get i)) rest node node job (ap (λ r. (r, node)) found)
      ∙ rw (kept, unknown) (add_new_job-run uuid history now i job node found)

  pub remove_job-run :
      (i j : ℕ) (job : Task) (node : Node S)
      → find_task i node.db.tasks ≡ ok job
      → job.job_id ≡ some j
      → remove_job store i node ≡ (
        ok tt,
        record node {
          job_ids = without j node.job_ids;
          scheduler =
              if store.get_job node.scheduler j
              then store.remove_job j node.scheduler
              else node.scheduler;
        },
      )
  unfolding remove_job task_get remove_scheduled_job
  remove_job-run i j job node found e =
      let rest = λ (t : Task). remove_scheduled_job store t.job_id in
      ap (λ r. catching (λ n. r) (pure tt) node)
        (>>=-step (on_db store (task_get i)) rest node node job (ap (λ r. (r, node)) found)
          ∙ ap (λ o. remove_scheduled_job store o node) e)

module _ {S : Type 0} (store : JobStore S) (i now : ℕ) where
  pub history-scheduler :
      (w : Option (ℤ × ℤ)) (node : Node S)
      → (with_history store i now w node).scheduler ≡ node.scheduler
  history-scheduler none node = refl
  history-scheduler (some w) node = refl

  pub history-stopped :
      (w : Option (ℤ × ℤ)) (node : Node S)
      → (with_history store i now w node).stopped ≡ node.stopped
  history-stopped none node = refl
  history-stopped (some w) node = refl

  pub find_task-with_history :
      (w : Option (ℤ × ℤ)) (node : Node S) (t : Task)
      → find_task i node.db.tasks ≡ ok t
      → (u : Task) × (find_task i (with_history store i now w node).db.tasks ≡ ok u)
        × (u.job_id ≡ t.job_id)
        × (u.deleted ≡ t.deleted)
  find_task-with_history none node t found = (t, found, refl, refl)
  find_task-with_history (some w) node t found = (
    ran_at store now t,
    find_task-update i (ran_at store now) node.db.tasks t (λ u. refl) found,
    refl,
    refl,
  )
