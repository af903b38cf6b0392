-- ===== src/Telemetry/Rejoin.antt =====
-- What a node event does to the tables and which messages it casts: `on_node_join` of
-- delfin/task_manager/scheduler/schedule_manager.py.
use mathlib.Core.List.{Perm, append-nil, append_assoc}
use delfin.Prelude.{
  ℕ, ◌≡◌, refl, sym, ap, ap₂, ◌∙◌, Bool, false, not, ◌&&◌, Option, none, List, [], ◌∷◌, ◌++◌,
  filter, arith, elem, ◌==◌, ==→eq,
}
use delfin.Errors.{ok, err}
use delfin.Effect.{for_each, >>=-step}
use delfin.Database.Permuted.{any_row, any_row-Perm, any_row-filter}
use delfin.Telemetry.Tables.{Task, FailedTask, State, Message, update_task, update_failed_task}
use delfin.Telemetry.Distribute.{assign, assign_failed, rejoin_task, rejoin_failed_task}
use delfin.Telemetry.Placing.{placed, placed-nil, placed-cons}
use delfin.Telemetry.Moving.{
  task_ids, failed_task_ids, executor_of, moved, task_moves, failed_task_moves, find_task-elem,
  task_ids-update, failed_task_ids-update, rejoin_task-run, rejoin_failed_task-run,
}

abbrev pub put_task : (ℕ → Option ℕ) → ℕ → Task → Task
put_task host i = assign (host i)

-- Every task of the list is in the table.
abbrev pub strays : List Task → List Task → Bool
strays table = any_row λ t. not (elem t.id (task_ids table))

pub rejoin_tasks-run :
    (host : ℕ → Option ℕ) (ts : List Task) (st : State)
    → strays st.tasks ts ≡ false
    → for_each ts (rejoin_task host) st ≡ (
      ok tt,
      record st {
        tasks = placed (λ t. t.id) (put_task host) (task_ids ts) st.tasks;
        sent = st.sent ++ task_moves host ts;
      },
    )
unfolding for_each
rejoin_tasks-run host [] st h =
    ap₂ (λ ts s. (ok tt, record st { tasks = ts; sent = s }))
      (sym (placed-nil (λ t. t.id) (put_task host) st.tasks)) (sym (append-nil st.sent))
rejoin_tasks-run host (t ∷ ts) st h =
    let st₁ = record st {
      tasks = update_task t.id (assign (host t.id)) st.tasks;
      sent = st.sent ++ moved Message.remove_job Message.assign_job t.id (host t.id) t.executor;
    } in
    let same = task_ids-update t.id (host t.id) st.tasks in
    >>=-step (rejoin_task host t) (λ _. for_each ts (rejoin_task host)) st st₁ tt
      (rejoin_task-run host t st (ground arith))
    ∙ rejoin_tasks-run host ts st₁
        (ap (λ is. any_row (λ (u : Task). not (elem u.id is)) ts) same ∙ ground arith)
    ∙ ap₂ (λ x s. (ok tt, record st { tasks = x; sent = s }))
        (placed-cons (λ t. t.id) (put_task host) t.id (task_ids ts) st.tasks (λ j u. refl)
          (λ j u. refl))
        (append_assoc st.sent _ _)

-- The failed task goes where the task of the failed task with this id is.
abbrev pub put_failed_task : (ℕ → Option ℕ) → (ℕ → ℕ) → ℕ → FailedTask → FailedTask
put_failed_task executor parent i = assign_failed (executor (parent i))

abbrev pub failed_strays : List FailedTask → List FailedTask → Bool
failed_strays table = any_row λ f. not (elem f.id (failed_task_ids table))

-- Some failed task has no task.
abbrev pub orphans : List Task → List FailedTask → Bool
orphans tasks = any_row λ f. not (elem f.task_id (task_ids tasks))

abbrev pub misnamed : (ℕ → ℕ) → List FailedTask → Bool
misnamed parent = any_row λ f. not (parent f.id == f.task_id)

pub rejoin_failed_tasks-run :
    (parent : ℕ → ℕ) (fs : List FailedTask) (st : State)
    → failed_strays st.failed_tasks fs ≡ false
    → orphans st.tasks fs ≡ false
    → misnamed parent fs ≡ false
    → for_each fs rejoin_failed_task st ≡ (
      ok tt,
      record st {
        failed_tasks =
            placed
              (λ f. f.id)
              (put_failed_task (executor_of st.tasks) parent)
              (failed_task_ids fs)
              st.failed_tasks;
        sent = st.sent ++ failed_task_moves (executor_of st.tasks) fs;
      },
    )
unfolding for_each
rejoin_failed_tasks-run parent [] st h o m =
    ap₂ (λ fs s. (ok tt, record st { failed_tasks = fs; sent = s }))
      (sym (placed-nil (λ f. f.id) (put_failed_task (executor_of st.tasks) parent) st.failed_tasks))
      (sym (append-nil st.sent))
rejoin_failed_tasks-run parent (f ∷ fs) st h o m =
    let (t, found) = find_task-elem f.task_id st.tasks (ground arith) in
    let here : parent f.id ≡ f.task_id = ==→eq (parent f.id) f.task_id (ground arith) in
    let st₁ = λ (e : Option ℕ). record st {
      failed_tasks = update_failed_task f.id (assign_failed e) st.failed_tasks;
      sent = st.sent ++ moved Message.remove_failed_job Message.assign_failed_job f.id e f.executor;
    } in
    let e : t.executor ≡ executor_of st.tasks f.task_id =
      ap (λ r. elim r as (λ x. Option ℕ) [ ok t ↦ t.executor | err e ↦ none ]) (sym found) in
    let host = executor_of st.tasks f.task_id in
    let same = failed_task_ids-update f.id host st.failed_tasks in
    >>=-step (rejoin_failed_task f) (λ _. for_each fs rejoin_failed_task) st (st₁ host) tt
      (rejoin_failed_task-run f t st found (ground arith) ∙ ap (λ e. (ok tt, st₁ e)) e)
    ∙ rejoin_failed_tasks-run parent fs (st₁ host)
        (ap (λ is. any_row (λ (u : FailedTask). not (elem u.id is)) fs) same ∙ ground arith)
        (ground arith) (ground arith)
    ∙ ap₂ (λ x s. (ok tt, record st { failed_tasks = x; sent = s }))
        (ap
            (λ i.
              placed (λ f. f.id) (put_failed_task (executor_of st.tasks) parent)
                (failed_task_ids fs)
                (update_failed_task f.id (assign_failed (executor_of st.tasks i)) st.failed_tasks))
            (sym here)
          ∙ placed-cons (λ f. f.id) (put_failed_task (executor_of st.tasks) parent) f.id
              (failed_task_ids fs) st.failed_tasks (λ j u. refl) (λ j u. refl))
        (append_assoc st.sent _ _)

-- Facts about the rows that a query selects, from facts about the table.
pub any_row-none :
    {A : Type 0} (p q : A → Bool) (xs ys : List A)
    → Perm ys (filter q xs)
    → any_row p xs ≡ false
    → any_row p ys ≡ false
any_row-none p q xs ys order h =
    any_row-Perm p ys (filter q xs) order ∙ any_row-filter p q xs ∙ weaker xs h
  where
    weaker : (xs : List _) → any_row p xs ≡ false → any_row (λ x. q x && p x) xs ≡ false
    weaker [] h = refl
    weaker (x ∷ xs) h = let rest = weaker xs (ground arith) in ground (arith, rest)
