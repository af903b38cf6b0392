-- ===== src/Telemetry/Removal.antt =====
-- The end of the collection for a storage: `delete_perf_job` of delfin/task_manager/
-- perf_job_controller.py.
use mathlib.Core.List.{append-nil, append_assoc}
use delfin.Prelude.{
  ℕ, ◌≡◌, refl, sym, ap, ◌∙◌, Bool, true, false, not, ◌&&◌, List, [], ◌∷◌, ◌++◌, map, filter, arith,
  ◌==◌, if◌then◌else◌,
}
use delfin.Errors.{ok}
use delfin.Effect.{◌>>◌, for_each, >>=-step}
use delfin.Database.Permuted.{any_row}
use delfin.Telemetry.Tables.{
  Task, FailedTask, State, Engine, Message, send, task_get_all, failed_task_get_all,
  task_delete_by_storage, failed_task_delete_by_storage,
}
use delfin.Telemetry.Distribute.{live, live_failed, delete_perf_job}

for_each-send :
    {A : Type 0} (f : A → Message) (xs : List A) (st : State)
    → for_each xs (λ x. send (f x)) st ≡ (ok tt, record st { sent = st.sent ++ map f xs })
unfolding for_each
for_each-send f [] st = ap (λ s. (ok tt, record st { sent = s })) (sym (append-nil st.sent))
for_each-send f (x ∷ xs) st =
    for_each-send f xs (record st { sent = st.sent ++ f x ∷ [] })
    ∙ ap (λ s. (ok tt, record st { sent = s })) (append_assoc st.sent (f x ∷ []) (map f xs))

abbrev pub task_of : ℕ → Task → Bool
task_of s t = t.storage_id == s

abbrev pub failed_task_of : ℕ → FailedTask → Bool
failed_task_of s f = f.storage_id == s

-- A row but for its mark of deletion.
abbrev pub unmarked : Task → Task
unmarked t = record t { deleted = false }

abbrev pub unmarked_failed : FailedTask → FailedTask
unmarked_failed f = record f { deleted = false }

none_left :
    (s : ℕ) (ts : List Task)
    → any_row
        (λ t. task_of s t && live t)
        (map (λ t. if task_of s t then record t { deleted = true } else t) ts)
      ≡ false
none_left s [] = refl
none_left s (t ∷ ts) = ground (arith, none_left s ts)

no_failed_left :
    (s : ℕ) (fs : List FailedTask)
    → any_row
        (λ f. failed_task_of s f && live_failed f)
        (map (λ f. if failed_task_of s f then record f { deleted = true } else f) fs)
      ≡ false
no_failed_left s [] = refl
no_failed_left s (f ∷ fs) = ground (arith, no_failed_left s fs)

others_kept :
    (s : ℕ) (ts : List Task)
    → filter
        (λ t. not (task_of s t))
        (map (λ t. if task_of s t then record t { deleted = true } else t) ts)
      ≡ filter (λ t. not (task_of s t)) ts
others_kept s [] = refl
others_kept s (t ∷ ts) = ground (arith, others_kept s ts)

others_failed_kept :
    (s : ℕ) (fs : List FailedTask)
    → filter
        (λ f. not (failed_task_of s f))
        (map (λ f. if failed_task_of s f then record f { deleted = true } else f) fs)
      ≡ filter (λ f. not (failed_task_of s f)) fs
others_failed_kept s [] = refl
others_failed_kept s (f ∷ fs) = ground (arith, others_failed_kept s fs)

rows_stay :
    (s : ℕ) (ts : List Task)
    → map unmarked (map (λ t. if task_of s t then record t { deleted = true } else t) ts)
      ≡ map unmarked ts
rows_stay s [] = refl
rows_stay s (t ∷ ts) = ground (arith, rows_stay s ts)

failed_rows_stay :
    (s : ℕ) (fs : List FailedTask)
    → map unmarked_failed
        (map (λ f. if failed_task_of s f then record f { deleted = true } else f) fs)
      ≡ map unmarked_failed fs
failed_rows_stay s [] = refl
failed_rows_stay s (f ∷ fs) = ground (arith, failed_rows_stay s fs)

-- `delete_perf_job` leaves no live task and no live failed task of the storage, and the tasks and
-- failed tasks of the other storages as they were. The deletion is soft: but for their marks of
-- deletion, the rows of both tables stay as they were. It casts the removal of each job of the storage
-- to its executor, first for the tasks and then for the failed tasks, in the order of the queries.
pub delete_perf_job_lem :
    (sql : Engine) (s : ℕ) (st : State)
    → let r = delete_perf_job sql s st in
      (r.0 ≡ ok tt)
      × (any_row (λ t. task_of s t && live t) r.1.tasks ≡ false)
      × (any_row (λ f. failed_task_of s f && live_failed f) r.1.failed_tasks ≡ false)
      × (filter (λ t. not (task_of s t)) r.1.tasks ≡ filter (λ t. not (task_of s t)) st.tasks)
      × (filter (λ f. not (failed_task_of s f)) r.1.failed_tasks
          ≡ filter (λ f. not (failed_task_of s f)) st.failed_tasks)
      × (map unmarked r.1.tasks ≡ map unmarked st.tasks)
      × (map unmarked_failed r.1.failed_tasks ≡ map unmarked_failed st.failed_tasks)
      × (r.1.sent
          ≡ (st.sent
              ++ map
                  (λ t. Message.remove_job t.id t.executor)
                  (sql.order_tasks (filter (task_of s) st.tasks)))
            ++ map
                (λ f. Message.remove_failed_job f.id f.executor)
                (sql.order_failed_tasks (filter (failed_task_of s) st.failed_tasks)))
unfolding delete_perf_job task_get_all failed_task_get_all task_delete_by_storage
    failed_task_delete_by_storage
delete_perf_job_lem sql s st =
    let f = λ (t : Task). Message.remove_job t.id t.executor in
    let g = λ (t : FailedTask). Message.remove_failed_job t.id t.executor in
    let ts = sql.order_tasks (filter (task_of s) st.tasks) in
    let fs = sql.order_failed_tasks (filter (failed_task_of s) st.failed_tasks) in
    let st₁ = record st { sent = st.sent ++ map f ts } in
    let st₂ = record st { sent = (st.sent ++ map f ts) ++ map g fs } in
    let delete = task_delete_by_storage s >> failed_task_delete_by_storage s in
    let run : delete_perf_job sql s st ≡ delete st₂ =
      >>=-step (for_each ts (λ t. send (f t))) (λ _. for_each fs (λ t. send (g t)) >> delete) st st₁
        tt (for_each-send f ts st)
      ∙ >>=-step (for_each fs (λ t. send (g t))) (λ _. delete) st₁ st₂ tt
          (for_each-send g fs st₁) in
    (
      ap (λ r. r.0) run,
      ap (λ r. any_row (λ (t : Task). task_of s t && live t) r.1.tasks) run ∙ none_left s st.tasks,
      ap (λ r. any_row (λ (t : FailedTask). failed_task_of s t && live_failed t) r.1.failed_tasks)
            run
          ∙ no_failed_left s st.failed_tasks,
      ap (λ r. filter (λ (t : Task). not (task_of s t)) r.1.tasks) run ∙ others_kept s st.tasks,
      ap (λ r. filter (λ (t : FailedTask). not (failed_task_of s t)) r.1.failed_tasks) run
          ∙ others_failed_kept s st.failed_tasks,
      ap (λ r. map unmarked r.1.tasks) run ∙ rows_stay s st.tasks,
      ap (λ r. map unmarked_failed r.1.failed_tasks) run ∙ failed_rows_stay s st.failed_tasks,
      ap (λ r. r.1.sent) run,
    )
