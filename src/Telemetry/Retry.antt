-- ===== src/Telemetry/Retry.antt =====
-- The retries of a failed collection, over the calls of its periodic job
-- (delfin/task_manager/scheduler/schedulers/telemetry/failed_performance_collection_handler.py).
use delfin.Prelude.{
  Option, ℕ, zero, suc, subst, ◌+◌, ◌<◌, ◌≤◌, ◌≡◌, refl, sym, ap, ap₂, ◌||◌, ==→eq, ◌∙◌, Bool, true,
  false, List, [], ◌∷◌, ◌++◌, arith, ◌==◌, if◌then◌else◌,
}
use delfin.Errors.{ok}
use delfin.Telemetry.Tables.{
  JobStatus, init, retrying, success, FailedTask, State, Message, failed_task_get,
  failed_task_update, update_failed_task,
}
use delfin.Telemetry.Failed.{
  Handler, Job, save_result, stop_task, handler_call, result_values, max_failed_job_retry_count,
}

-- The job is called once for each of these collections.
unfoldable pub run_calls : List Bool → Job → Job
run_calls [] job = job
run_calls (status ∷ rest) job = run_calls rest (handler_call status job).1

-- The failed task of the handler is in the table, is not soft deleted, and has this count and result.
pub record IsStored (i count : ℕ) (result : JobStatus) (ts : List FailedTask) : Type 0 where
  pub row : FailedTask
  pub here : failed_task_get i ts ≡ ok row
  pub alive : row.deleted ≡ false
  pub counted : row.retry_count ≡ count
  pub noted : row.result ≡ result

failed_task_get-id :
    (i : ℕ) (ts : List FailedTask) (t : FailedTask)
    → failed_task_get i ts ≡ ok t
    → (t.id == i) ≡ true
unfolding failed_task_get
failed_task_get-id i [] t e = absurd (ground arith)
failed_task_get-id i (x ∷ ts) t e = ground (arith, failed_task_get-id i ts t)

failed_task_get-write :
    (h : Handler) (ts : List FailedTask) (t : FailedTask)
    → failed_task_get h.failed_task_id ts ≡ ok t
    → failed_task_get h.failed_task_id (update_failed_task h.failed_task_id (result_values h) ts)
      ≡ ok (record t { retry_count = h.retry_count; result = h.result })
unfolding failed_task_get
failed_task_get-write h [] t e = absurd (ground arith)
failed_task_get-write h (x ∷ ts) t e = ground (arith, failed_task_get-write h ts t)

write-IsStored :
    (h : Handler) (n : ℕ) (r : JobStatus) (ts : List FailedTask)
    → IsStored h.failed_task_id n r ts
    → IsStored h.failed_task_id h.retry_count h.result
        (update_failed_task h.failed_task_id (result_values h) ts)
write-IsStored h n r ts s = record {
  row = record s.row { retry_count = h.retry_count; result = h.result };
  here = failed_task_get-write h ts s.row s.here;
  alive = s.alive;
  counted = refl;
  noted = refl;
}

abbrev written : Handler → State → State
written h st = record st {
  failed_tasks = update_failed_task h.failed_task_id (result_values h) st.failed_tasks;
}

abbrev stopped : Handler → State → State
stopped h st = record (written h st) {
  sent = st.sent ++ Message.remove_failed_job h.failed_task_id h.executor ∷ [];
}

-- The handler after a call with this result.
abbrev counted_up : Handler → JobStatus → Handler
counted_up h r = record h { retry_count = suc h.retry_count; result = r }

call-success :
    (job : Job) (n : ℕ) (r : JobStatus)
    → IsStored job.handler.failed_task_id n r job.state.failed_tasks
    → handler_call true job ≡ (
      ok tt,
      record {
        handler = counted_up job.handler success;
        state = stopped (counted_up job.handler success) job.state;
      },
    )
unfolding handler_call stop_task save_result failed_task_update
call-success job n r s = let e = s.here in let a = s.alive in ground arith

call-retry :
    (job : Job) (n : ℕ) (r : JobStatus)
    → IsStored job.handler.failed_task_id n r job.state.failed_tasks
    → suc job.handler.retry_count < max_failed_job_retry_count
    → handler_call false job ≡ (
      ok tt,
      record {
        handler = counted_up job.handler retrying;
        state = written (counted_up job.handler retrying) job.state;
      },
    )
unfolding handler_call save_result failed_task_update
call-retry job n r s b = let e = s.here in let a = s.alive in ground arith

call-last :
    (job : Job) (n : ℕ) (r : JobStatus)
    → IsStored job.handler.failed_task_id n r job.state.failed_tasks
    → max_failed_job_retry_count ≤ suc job.handler.retry_count
    → handler_call false job ≡ (
      ok tt,
      record {
        handler = counted_up job.handler job.handler.result;
        state = stopped (counted_up job.handler job.handler.result) job.state;
      },
    )
unfolding handler_call stop_task save_result failed_task_update
call-last job n r s b = let e = s.here in let a = s.alive in ground arith

-- A job that is still to be retried: `n` collections have failed, the row and the handler say so,
-- and no message has been sent.
pub record IsRetrying (i : ℕ) (executor : Option ℕ) (n : ℕ) (r : JobStatus)
    (sent_before : List Message) (job : Job) : Type 0 where
  pub stored : IsStored i n r job.state.failed_tasks
  pub id : job.handler.failed_task_id ≡ i
  pub same_executor : job.handler.executor ≡ executor
  pub count : job.handler.retry_count ≡ n
  pub result : job.handler.result ≡ r
  pub unsent : job.state.sent ≡ sent_before

abbrev pub failing : ℕ → List Bool
failing zero = []
failing (suc f) = false ∷ failing f

abbrev pub status_after : ℕ → JobStatus → JobStatus
status_after zero r = r
status_after (suc f) r = retrying

-- A job at its end: the row has the number of collections and the result, and one message has been
-- sent for its removal.
pub record HasEnded (i : ℕ) (executor : Option ℕ) (n : ℕ) (r : JobStatus)
    (sent_before : List Message) (job : Job) : Type 0 where
  pub stored : IsStored i n r job.state.failed_tasks
  pub sent : job.state.sent ≡ sent_before ++ Message.remove_failed_job i executor ∷ []

module _ (i : ℕ) (executor : Option ℕ) (sent_before : List Message) where
  stored_here :
      (n : ℕ) (r : JobStatus) (job : Job)
      → IsRetrying i executor n r sent_before job
      → IsStored job.handler.failed_task_id n r job.state.failed_tasks
  stored_here n r job c = subst (λ k. IsStored k n r job.state.failed_tasks) (sym c.id) c.stored

  retry-IsRetrying :
      (n : ℕ) (r : JobStatus) (job : Job)
      → suc n < max_failed_job_retry_count
      → IsRetrying i executor n r sent_before job
      → IsRetrying i executor (suc n) retrying sent_before (handler_call false job).1
  retry-IsRetrying n r job b c =
      let h = counted_up job.handler retrying in
      let here = stored_here n r job c in
      let step = call-retry job n r here (subst (λ m. suc m < 5) (sym c.count) b) in
      let count = ap suc c.count in
      let written_row = write-IsStored h n r job.state.failed_tasks here in
      subst (IsRetrying i executor (suc n) retrying sent_before) (sym (ap (λ p. p.1) step))
        (record {
          stored =
              subst
                (λ m.
                  IsStored i m retrying
                    (update_failed_task h.failed_task_id (result_values h) job.state.failed_tasks))
                count
                (subst
                  (λ k.
                    IsStored k h.retry_count retrying (
                      update_failed_task h.failed_task_id (result_values h) job.state.failed_tasks))
                  c.id written_row);
          id = c.id;
          same_executor = c.same_executor;
          count = count;
          result = refl;
          unsent = c.unsent;
        })

  failing-IsRetrying :
      (f n : ℕ) (r : JobStatus) (job : Job)
      → f + n < max_failed_job_retry_count
      → IsRetrying i executor n r sent_before job
      → IsRetrying i executor (f + n) (status_after f r) sent_before (run_calls (failing f) job)
  unfolding run_calls
  failing-IsRetrying zero n r job b c =
      subst (λ m. IsRetrying i executor m r sent_before job) (omega arith) c
  failing-IsRetrying (suc f) n r job b c =
      let next = retry-IsRetrying n r job (omega arith) c in
      let rest =
        failing-IsRetrying f (suc n) retrying (handler_call false job).1 (omega arith) next in
      subst
        (λ w.
          IsRetrying i executor (suc f + n) w sent_before
            (run_calls (failing f) (handler_call false job).1))
        (still f)
        (subst
          (λ m.
            IsRetrying i executor m (status_after f retrying) sent_before
              (run_calls (failing f) (handler_call false job).1))
          (omega arith) rest)
    where
      still : (f : ℕ) → status_after f retrying ≡ retrying
      still zero = refl
      still (suc f) = refl

  stopped-HasEnded :
      (n : ℕ) (r w : JobStatus) (job : Job) (job' : Job)
      → IsRetrying i executor n r sent_before job
      → job' ≡ record {
        handler = counted_up job.handler w;
        state = stopped (counted_up job.handler w) job.state;
      }
      → HasEnded i executor (suc n) w sent_before job'
  stopped-HasEnded n r w job job' c e =
      let h = counted_up job.handler w in
      let ts = update_failed_task h.failed_task_id (result_values h) job.state.failed_tasks in
      let written_row = write-IsStored h n r job.state.failed_tasks (stored_here n r job c) in
      subst (HasEnded i executor (suc n) w sent_before) (sym e) (record {
        stored =
            subst (λ m. IsStored i m w ts) (ap suc c.count)
              (subst (λ k. IsStored k h.retry_count w ts) c.id written_row);
        sent =
            ap₂ (λ old m. old ++ m ∷ []) c.unsent
              (ap₂ Message.remove_failed_job c.id c.same_executor);
      })

  end-HasEnded :
      (last : Bool) (n : ℕ) (r : JobStatus) (job : Job)
      → (last || n == 4) ≡ true
      → IsRetrying i executor n r sent_before job
      → HasEnded i executor
          (suc n)
          (if last then success else r)
          sent_before
          (handler_call last job).1
  end-HasEnded true n r job h c =
      stopped-HasEnded n r success job (handler_call true job).1 c
        (ap (λ p. p.1) (call-success job n r (stored_here n r job c)))
  end-HasEnded false n r job h c =
      let four = ==→eq n 4 h in
      let count = c.count in
      stopped-HasEnded n r r job (handler_call false job).1 c (
        ap (λ p. p.1) (call-last job n r (stored_here n r job c) (omega arith))
        ∙ ap
            (λ w. record {
              handler = counted_up job.handler w;
              state = stopped (counted_up job.handler w) job.state;
            })
            c.result)

-- The job of a failed collection that has not been retried yet, whose row is not soft deleted:
-- after `f` collections that fail, at most 4, the row and the handler have counted them and the
-- job goes on. A next collection that succeeds, and the fifth in any case, ends it: the row has
-- the number of collections and the result, and exactly one message asks the executor to remove
-- the job.
pub handler_call-retries :
    (i : ℕ) (executor : Option ℕ) (f : ℕ) (last : Bool) (sent_before : List Message) (job : Job)
    → IsRetrying i executor 0 init sent_before job
    → f ≤ 4
    → (last || f == 4) ≡ true
    → let job' = run_calls (failing f) job in
      IsRetrying i executor f (status_after f init) sent_before job'
      × HasEnded i executor
          (suc f)
          (if last then success else status_after f init)
          sent_before
          (handler_call last job').1
handler_call-retries i executor f last sent_before job fresh few ends =
    let retried =
      subst
        (λ n. IsRetrying i executor n (status_after f init) sent_before (run_calls (failing f) job))
        (omega arith)
        (failing-IsRetrying i executor sent_before f 0 init job (omega arith) fresh) in
    (
      retried,
      end-HasEnded i executor sent_before last f (status_after f init) (run_calls (failing f) job)
          ends retried,
    )
