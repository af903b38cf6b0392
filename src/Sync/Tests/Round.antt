-- ===== src/Sync/Tests/Round.antt =====
-- A synchronization from request to request, and one whose storage is deleted meanwhile
-- (delfin/api/v1/storages.py, delfin/task_manager/tasks/resources.py).
use delfin.Prelude.{◌≡◌, refl, some, true, false, [], ◌∷◌, map}
use delfin.Prelude.Int.{pos, sub_ℕ}
use delfin.Errors.{ok}
use delfin.Database.{Kind, Database, find_storage}
use delfin.Sync.Manager.{TaskClass, subclasses, sync_storage_resource}
use delfin.Sync.Request.{Server, timedelta_seconds, is_syncing, request_sync}
use delfin.Sync.Counting.{Counting}
use delfin.Sync.Progress.{run_tasks, failures}
use delfin.Sync.Round.{request_sync-round}
use delfin.Sync.Deleted.{IsDeleted, sync_storage_resource-leaves_nothing}
use delfin.Sync.Mirror.Listed.{stored}
use delfin.Sync.Tests.{sql, driver, row, storage, database}

abbrev idle_server : Server
idle_server = record { db = database storage 9; queue = [] }

idle_server-Counting : Counting 7 (pos 0) idle_server.db
unfolding find_storage
idle_server-Counting = record { status = refl; alive = refl }

find-storage : find_storage false 7 idle_server.db.storages ≡ some storage
unfolding find_storage
find-storage = refl

storage-is_syncing : is_syncing 3600 9 storage ≡ false
unfolding is_syncing timedelta_seconds
storage-is_syncing = refl

request_sync-round_example :
    let (r, server') = request_sync 3600 7 idle_server in
    let after = run_tasks sql driver 7 subclasses server'.db in
    (r ≡ ok tt)
    × (server'.queue ≡ map (λ cls. (7, cls)) subclasses)
    × Counting 7 (sub_ℕ 0 (failures sql driver 7 subclasses server'.db)) after
    × ((request_sync 3600 7 (record server' { db = record after { now = 1000 } })).0 ≡ ok tt)
request_sync-round_example =
    request_sync-round sql driver 3600 7 1000 (pos 0) idle_server storage idle_server-Counting
      find-storage storage-is_syncing

-- The row 30 of the storage is in the table.
abbrev deleted_database : Database
deleted_database = record (database (record storage { deleted = true }) 9) {
  table = λ k. row 30 1 ∷ [];
}

deleted_database-IsDeleted : IsDeleted 7 deleted_database
unfolding find_storage
deleted_database-IsDeleted = record { marked = (_, refl); hidden = refl }

sync_storage_resource-leaves_nothing_example :
    stored 7
      ((sync_storage_resource sql driver 7 TaskClass.storage_pool deleted_database).1.table
        Kind.storage_pool)
      1
    ≡ false
sync_storage_resource-leaves_nothing_example =
    sync_storage_resource-leaves_nothing sql driver TaskClass.storage_pool 7 1 deleted_database
      (λ e. cc) deleted_database-IsDeleted
