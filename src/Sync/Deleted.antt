-- ===== src/Sync/Deleted.antt =====
-- A storage that is deleted while its resources are being synchronized: `check_deleted` of
-- delfin/task_manager/tasks/resources.py, and the rest of the task before it.
use delfin.Prelude.{ℕ, ◌≡◌, ◌≢◌, refl, ap, ◌∙◌, Bool, true, false, none, some, List, [], ◌∷◌, arith}
use delfin.Errors.{ok}
use delfin.Database.{
  Row, Engine, Kind, Database, Storage, Action, find_storage, storage_get, bulk_delete_by_storage,
  resource_delete_by_storage,
}
use delfin.Sync.Task.{DriverApi, sync_result, set_synced_after, task_done, check_deleted}
use delfin.Sync.Hosts.{
  storage_host_initiator_remove, storage_host_remove, storage_host_group_remove, port_group_remove,
  volume_group_remove, masking_view_remove,
}
use delfin.Sync.Manager.{TaskClass, sync_of, remove_of, sync_storage_resource}
use delfin.Sync.Frame.{sync_of-KeepsStorages}
use delfin.Sync.Mirror.{kind_of}
use delfin.Sync.Mirror.Listed.{stored}

-- The storage is soft deleted: only a query for deleted storages finds it.
pub record IsDeleted (s : ℕ) (d : Database) : Type 0 where
  pub marked : (st : Storage) × (find_storage true s d.storages ≡ some st)
  pub hidden : find_storage false s d.storages ≡ none

delete_by_storage-stored :
    (s n : ℕ) (rows : List Row) → stored s (resource_delete_by_storage s rows) n ≡ false
unfolding resource_delete_by_storage
delete_by_storage-stored s n [] = refl
delete_by_storage-stored s n (row ∷ rows) = ground (arith, delete_by_storage-stored s n rows)

remove_of-stored :
    (cls : TaskClass) (s n : ℕ) (b : Bool) (d : Database)
    → cls ≢ TaskClass.storage_device
    → stored s ((remove_of cls b s d).1.table (kind_of cls)) n ≡ false
unfolding remove_of storage_host_initiator_remove storage_host_remove storage_host_group_remove
    port_group_remove volume_group_remove masking_view_remove bulk_delete_by_storage
remove_of-stored TaskClass.storage_device s n b d h = absurd (h refl)
remove_of-stored TaskClass.storage_pool s n b d h =
    delete_by_storage-stored s n (d.table Kind.storage_pool)
remove_of-stored TaskClass.storage_volume s n b d h =
    delete_by_storage-stored s n (d.table Kind.volume)
remove_of-stored TaskClass.storage_controller s n b d h =
    delete_by_storage-stored s n (d.table Kind.controller)
remove_of-stored TaskClass.storage_port s n b d h = delete_by_storage-stored s n (d.table Kind.port)
remove_of-stored TaskClass.storage_disk s n b d h = delete_by_storage-stored s n (d.table Kind.disk)
remove_of-stored TaskClass.storage_quota s n b d h =
    delete_by_storage-stored s n (d.table Kind.quota)
remove_of-stored TaskClass.storage_filesystem s n b d h =
    delete_by_storage-stored s n (d.table Kind.filesystem)
remove_of-stored TaskClass.storage_qtree s n b d h =
    delete_by_storage-stored s n (d.table Kind.qtree)
remove_of-stored TaskClass.storage_share s n b d h =
    delete_by_storage-stored s n (d.table Kind.share)
remove_of-stored TaskClass.storage_host_initiator s n b d h =
    delete_by_storage-stored s n (d.table Kind.host_initiator)
remove_of-stored TaskClass.storage_host s n b d h = delete_by_storage-stored s n (d.table Kind.host)
remove_of-stored TaskClass.storage_host_group s n b d h =
    delete_by_storage-stored s n (d.table Kind.host_group)
remove_of-stored TaskClass.port_group s n b d h =
    delete_by_storage-stored s n (d.table Kind.port_group)
remove_of-stored TaskClass.volume_group s n b d h =
    delete_by_storage-stored s n (d.table Kind.volume_group)
remove_of-stored TaskClass.masking_view s n b d h =
    delete_by_storage-stored s n (d.table Kind.masking_view)

-- A storage that can not be found is not counted down.
task_done-hidden :
    (s result : ℕ) (d : Database)
    → find_storage false s d.storages ≡ none
    → task_done s result d ≡ (ok tt, d)
unfolding task_done storage_get
task_done-hidden s result d h = rw (h, task_done) refl

check_deleted-marked :
    (s : ℕ) (remove : Bool → Action (Unit {0})) (func : Action (Unit {0})) (d : Database)
    (st : Storage)
    → (func d).0 ≡ ok tt
    → find_storage true s (func d).1.storages ≡ some st
    → check_deleted s remove func d ≡ remove true (func d).1
unfolding check_deleted storage_get
check_deleted-marked s remove func d st done marked = ground arith

-- A task of any class but the storage device's, for a storage that is soft deleted when the task
-- starts: whatever the driver answers and the task writes, in the end the task's table has no row
-- of the storage.
pub sync_storage_resource-leaves_nothing :
    (sql : Engine) (driver : DriverApi) (cls : TaskClass) (s n : ℕ) (d : Database)
    → cls ≢ TaskClass.storage_device
    → IsDeleted s d
    → stored s ((sync_storage_resource sql driver s cls d).1.table (kind_of cls)) n ≡ false
unfolding sync_storage_resource set_synced_after
sync_storage_resource-leaves_nothing sql driver cls s n d other deleted =
    let (r, d') = sync_of sql driver cls s d in
    let same : d'.storages ≡ d.storages = (sync_of-KeepsStorages sql driver cls s other).kept d in
    let (st, found) = deleted.marked in
    let finished =
      task_done-hidden s (sync_result r) d' (ap (find_storage false s) same ∙ deleted.hidden) in
    ap (λ p. stored s (p.1.table (kind_of cls)) n)
      (check_deleted-marked s (λ b. remove_of cls b s)
        (set_synced_after s (sync_of sql driver cls s)) d st (ap (λ p. p.0) finished)
        (ap (λ p. find_storage true s p.1.storages) finished
          ∙ ap (find_storage true s) same
          ∙ found))
    ∙ remove_of-stored cls s n true _ other
