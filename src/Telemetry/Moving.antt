-- ===== src/Telemetry/Moving.antt =====
-- One job that a node event moves: the bodies of the loops of `on_node_join` of delfin/task_manager/
-- scheduler/schedule_manager.py.
use mathlib.Core.List.{append-nil, append_assoc}
use delfin.Prelude.{
  ℕ, ◌≡◌, refl, sym, ap, ◌∙◌, Bool, true, false, not, Option, none, List, [], ◌∷◌, ◌++◌, map, arith,
  elem, ◌==◌, Bool-cases, inl, inr, if◌then◌else◌,
}
use delfin.Errors.{ok, err}
use delfin.Effect.{◌>>◌, when, >>=-step}
use delfin.Telemetry.Tables.{
  Task, FailedTask, State, Message, send, find_task, task_get, task_update, update_task,
  failed_task_get, failed_task_update, update_failed_task,
}
use delfin.Telemetry.Distribute.{
  same_executor, assign, assign_failed, rejoin_task, rejoin_failed_task,
}

abbrev pub task_ids : List Task → List ℕ
task_ids = map λ t. t.id

abbrev pub failed_task_ids : List FailedTask → List ℕ
failed_task_ids = map λ f. f.id

-- The executor of the task with this id; `none` also if there is no such task.
abbrev pub executor_of : List Task → ℕ → Option ℕ
executor_of ts i = elim (find_task i ts) [ ok t ↦ t.executor | err e ↦ none ]

-- Of which task a failed task is; 0 if there is no such failed task.
abbrev pub parent_of : List FailedTask → ℕ → ℕ
parent_of fs i = elim (failed_task_get i fs) [ ok f ↦ f.task_id | err e ↦ 0 ]

-- A job that changes its executor is removed from the old one before it is assigned to the new.
abbrev pub moved :
    (ℕ → Option ℕ → Message) → (ℕ → Option ℕ → Message) → ℕ → Option ℕ → Option ℕ → List Message
moved remove assign i new old =
    (if not (same_executor new old) then remove i old ∷ [] else []) ++ assign i new ∷ []

abbrev pub task_moves : (ℕ → Option ℕ) → List Task → List Message
task_moves host [] = []
task_moves host (t ∷ ts) =
    moved Message.remove_job Message.assign_job t.id (host t.id) t.executor ++ task_moves host ts

abbrev pub failed_task_moves : (ℕ → Option ℕ) → List FailedTask → List Message
failed_task_moves executor [] = []
failed_task_moves executor (f ∷ fs) =
    moved Message.remove_failed_job Message.assign_failed_job f.id (executor f.task_id) f.executor
    ++ failed_task_moves executor fs

pub find_task-elem :
    (i : ℕ) (ts : List Task) → elem i (task_ids ts) ≡ true → (t : Task) × (find_task i ts ≡ ok t)
unfolding find_task
find_task-elem i [] h = absurd (ground arith)
find_task-elem i (t ∷ ts) h = elim (Bool-cases (t.id == i)) [
  | inl e ↦ (t, rw e refl)
  | inr e ↦ let (u, found) = find_task-elem i ts (ground arith) in (u, rw e found)
]

failed_task_get-elem :
    (i : ℕ) (fs : List FailedTask)
    → elem i (failed_task_ids fs) ≡ true
    → (f : FailedTask) × (failed_task_get i fs ≡ ok f)
unfolding failed_task_get
failed_task_get-elem i [] h = absurd (ground arith)
failed_task_get-elem i (f ∷ fs) h = elim (Bool-cases (f.id == i)) [
  | inl e ↦ (f, rw e refl)
  | inr e ↦ let (u, found) = failed_task_get-elem i fs (ground arith) in (u, rw e found)
]

pub task_ids-update :
    (i : ℕ) (e : Option ℕ) (ts : List Task) → task_ids (update_task i (assign e) ts) ≡ task_ids ts
task_ids-update i e [] = refl
task_ids-update i e (t ∷ ts) = ground (arith, task_ids-update i e ts)

pub failed_task_ids-update :
    (i : ℕ) (e : Option ℕ) (fs : List FailedTask)
    → failed_task_ids (update_failed_task i (assign_failed e) fs) ≡ failed_task_ids fs
failed_task_ids-update i e [] = refl
failed_task_ids-update i e (f ∷ fs) = ground (arith, failed_task_ids-update i e fs)

task_update-run :
    (i : ℕ) (f : Task → Task) (st : State)
    → elem i (task_ids st.tasks) ≡ true
    → task_update i f st ≡ (ok tt, record st { tasks = update_task i f st.tasks })
unfolding task_update
task_update-run i f st h = let (u, found) = find_task-elem i st.tasks h in rw found refl

failed_task_update-run :
    (i : ℕ) (f : FailedTask → FailedTask) (st : State)
    → elem i (failed_task_ids st.failed_tasks) ≡ true
    → failed_task_update i f st
      ≡ (ok tt, record st { failed_tasks = update_failed_task i f st.failed_tasks })
unfolding failed_task_update
failed_task_update-run i f st h =
    let (u, found) = failed_task_get-elem i st.failed_tasks h in rw found refl

when-send :
    (b : Bool) (m : Message) (st : State)
    → when b (send m) st ≡ (ok tt, record st { sent = st.sent ++ (if b then m ∷ [] else []) })
when-send true m st = refl
when-send false m st = ap (λ s. (ok tt, record st { sent = s })) (sym (append-nil st.sent))

pub rejoin_task-run :
    (host : ℕ → Option ℕ) (t : Task) (st : State)
    → elem t.id (task_ids st.tasks) ≡ true
    → rejoin_task host t st ≡ (
      ok tt,
      record st {
        tasks = update_task t.id (assign (host t.id)) st.tasks;
        sent = st.sent ++ moved Message.remove_job Message.assign_job t.id (host t.id) t.executor;
      },
    )
unfolding rejoin_task
rejoin_task-run host t st h =
    let old =
      if not (same_executor (host t.id) t.executor)
      then Message.remove_job t.id t.executor ∷ []
      else [] in
    let st₁ = record st { sent = st.sent ++ old } in
    >>=-step
      (when (not (same_executor (host t.id) t.executor))
        (send (Message.remove_job t.id t.executor)))
      (λ _. task_update t.id (assign (host t.id)) >> send (Message.assign_job t.id (host t.id))) st
      st₁ tt (when-send _ _ st)
    ∙ >>=-step (task_update t.id (assign (host t.id)))
        (λ _. send (Message.assign_job t.id (host t.id))) st₁ _ tt
        (task_update-run t.id (assign (host t.id)) st₁ h)
    ∙ ap
        (λ s.
          (ok tt, record st { tasks = update_task t.id (assign (host t.id)) st.tasks; sent = s }))
        (append_assoc st.sent old (Message.assign_job t.id (host t.id) ∷ []))

pub rejoin_failed_task-run :
    (f : FailedTask) (t : Task) (st : State)
    → find_task f.task_id st.tasks ≡ ok t
    → elem f.id (failed_task_ids st.failed_tasks) ≡ true
    → rejoin_failed_task f st ≡ (
      ok tt,
      record st {
        failed_tasks = update_failed_task f.id (assign_failed t.executor) st.failed_tasks;
        sent =
            st.sent
            ++ moved Message.remove_failed_job Message.assign_failed_job f.id t.executor f.executor;
      },
    )
unfolding rejoin_failed_task task_get
rejoin_failed_task-run f t st found h =
    let old =
      if not (same_executor t.executor f.executor)
      then Message.remove_failed_job f.id f.executor ∷ []
      else [] in
    let st₁ = record st { sent = st.sent ++ old } in
    let rest = λ (t : Task).
      when (not (same_executor t.executor f.executor))
        (send (Message.remove_failed_job f.id f.executor))
      >> (failed_task_update f.id (assign_failed t.executor)
          >> send (Message.assign_failed_job f.id t.executor)) in
    >>=-step (task_get f.task_id) rest st st t (ap (λ r. (r, st)) found)
    ∙ >>=-step
        (when (not (same_executor t.executor f.executor))
          (send (Message.remove_failed_job f.id f.executor)))
        (λ _.
          failed_task_update f.id (assign_failed t.executor)
          >> send (Message.assign_failed_job f.id t.executor))
        st st₁ tt (when-send _ _ st)
    ∙ >>=-step (failed_task_update f.id (assign_failed t.executor))
        (λ _. send (Message.assign_failed_job f.id t.executor)) st₁ _ tt
        (failed_task_update-run f.id (assign_failed t.executor) st₁ h)
    ∙ ap
        (λ s. (
          ok tt,
          record st {
            failed_tasks = update_failed_task f.id (assign_failed t.executor) st.failed_tasks;
            sent = s;
          },
        ))
        (append_assoc st.sent old (Message.assign_failed_job f.id t.executor ∷ []))
