-- ===== src/Sync/Round.antt =====
-- A whole synchronization, from the request to delfin/api/v1/storages.py through all tasks of
-- delfin/task_manager/tasks/resources.py to the next request.
use delfin.Prelude.{
  ℕ, ◌≡◌, refl, sym, ap, subst, ◌∙◌, Bool, false, some, List, [], ◌∷◌, ◌++◌, map, arith, length,
}
use delfin.Prelude.Int.{ℤ, pos, sub_ℕ, ltb_ℤ}
use delfin.Errors.{ok}
use delfin.Database.{Engine, Database, Storage, find_storage, storage_get, storage_update}
use delfin.Sync.Task.{DriverApi}
use delfin.Sync.Manager.{subclasses}
use delfin.Sync.Request.{
  Server, cast_all, is_syncing, start_sync, set_synced_if_ok, launch, requested, request_sync,
}
use delfin.Sync.Counting.{Counting, status_found}
use delfin.Sync.Progress.{run_tasks, failures, sync_status_progress}

find_storage-id :
    (b : Bool) (s : ℕ) (sts : List Storage) (st : Storage)
    → find_storage b s sts ≡ some st
    → st.id ≡ s
unfolding find_storage
find_storage-id b s [] st h = absurd (ground arith)
find_storage-id b s (x ∷ sts) st h = ground (arith, find_storage-id b s sts st)

set_synced_if_ok-done :
    (expiration s n : ℕ) (d : Database) (st : Storage)
    → find_storage false s d.storages ≡ some st
    → is_syncing expiration d.now st ≡ false
    → (set_synced_if_ok expiration s n d).0 ≡ ok tt
unfolding set_synced_if_ok storage_get start_sync storage_update
set_synced_if_ok-done expiration s n d st here free = ground arith

launch-done :
    (expiration s : ℕ) (server : Server)
    → (set_synced_if_ok expiration s (length subclasses) server.db).0 ≡ ok tt
    → launch expiration s server ≡ (
      ok tt,
      record {
        db = (set_synced_if_ok expiration s (length subclasses) server.db).1;
        queue = cast_all s server.queue;
      },
    )
unfolding launch
launch-done expiration s server e = ground arith

storage_get-found :
    (s : ℕ) (d : Database) (st : Storage)
    → find_storage false s d.storages ≡ some st
    → storage_get false s d ≡ (ok st, d)
unfolding storage_get
storage_get-found s d st here = rw here refl

request_sync-launch :
    (expiration s : ℕ) (server : Server) (st : Storage)
    → find_storage false s server.db.storages ≡ some st
    → request_sync expiration s server ≡ launch expiration s server
unfolding request_sync
request_sync-launch expiration s server st here =
    ap (requested expiration server) (storage_get-found s server.db st here)
    ∙ ap (λ i. launch expiration i server) (find_storage-id false s server.db.storages st here)

is_syncing-stopped :
    (expiration now : ℕ) (st : Storage)
    → ltb_ℤ (pos 0) st.sync_status ≡ false
    → is_syncing expiration now st ≡ false
unfolding is_syncing
is_syncing-stopped expiration now st h = ground arith

request_sync-done :
    (expiration s : ℕ) (server : Server) (st : Storage)
    → find_storage false s server.db.storages ≡ some st
    → is_syncing expiration server.db.now st ≡ false
    → request_sync expiration s server ≡ (
      ok tt,
      record {
        db = (set_synced_if_ok expiration s (length subclasses) server.db).1;
        queue = cast_all s server.queue;
      },
    )
request_sync-done expiration s server st here free =
    request_sync-launch expiration s server st here
    ∙ launch-done expiration s server
        (set_synced_if_ok-done expiration s (length subclasses) server.db st here free)

-- A count that is not positive lets the next request through at any time.
request_sync-stopped :
    (expiration s f : ℕ) (server : Server)
    → Counting s (sub_ℕ 0 f) server.db
    → (request_sync expiration s server).0 ≡ ok tt
request_sync-stopped expiration s f server c =
    let (st, here, count) = status_found (find_storage false s server.db.storages) _ c.status in
    ap (λ p. p.0)
      (request_sync-done expiration s server st here
        (is_syncing-stopped expiration server.db.now st (ap (ltb_ℤ (pos 0)) count ∙ ground arith)))

-- A request for a storage that is not soft deleted and not synchronizing is accepted, and one
-- task of each class is cast. When these tasks have been handled in that order, whatever the
-- driver answers, and nothing else has written to the storage, `sync_status` is the negative number
-- of the tasks that raised, and the next request for the storage, at whatever time, is accepted.
pub request_sync-round :
    (sql : Engine) (driver : DriverApi) (expiration s later : ℕ) (v : ℤ) (server : Server)
    (st : Storage)
    → Counting s v server.db
    → find_storage false s server.db.storages ≡ some st
    → is_syncing expiration server.db.now st ≡ false
    → let (r, server') = request_sync expiration s server in
      let after = run_tasks sql driver s subclasses server'.db in
      (r ≡ ok tt)
      × (server'.queue ≡ server.queue ++ map (λ cls. (s, cls)) subclasses)
      × Counting s (sub_ℕ 0 (failures sql driver s subclasses server'.db)) after
      × ((request_sync expiration s (record server' { db = record after { now = later } })).0
          ≡ ok tt)
request_sync-round sql driver expiration s later v server st c here free =
    let form = request_sync-done expiration s server st here free in
    let d' = (set_synced_if_ok expiration s (length subclasses) server.db).1 in
    let (done, _, _) =
      sync_status_progress sql driver expiration s 0 subclasses v server.db d' c
        (ap (λ r. (r, d'))
          (set_synced_if_ok-done expiration s (length subclasses) server.db st here free))
        (omega arith) in
    let counted =
      subst
        (λ (x : Server).
          Counting s (sub_ℕ 0 (failures sql driver s subclasses x.db))
            (run_tasks sql driver s subclasses x.db))
        (sym (ap (λ p. p.1) form)) done in
    (
      ap (λ p. p.0) form,
      ap (λ p. p.1.queue) form,
      counted,
      request_sync-stopped expiration s _ _
          (record { status = counted.status; alive = counted.alive }),
    )
