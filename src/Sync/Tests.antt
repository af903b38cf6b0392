-- ===== src/Sync/Tests.antt =====
-- Runs of the synchronization of delfin/task_manager/tasks/resources.py and
-- delfin/api/v1/storages.py on a small database.
mod Mirror
mod Round
use delfin.Prelude.{ℕ, ◌+◌, ◌*◌, ◌≡◌, refl, ◌==◌, true, false, none, some, List, [], ◌∷◌, arith}
use delfin.Prelude.Int.{pos, sub_ℕ, ltb_ℤ, eqb_ℤ}
use delfin.Errors.{ok, err, value_error, not_implemented, driver_error, storage_is_syncing}
use delfin.Database.{
  Row, Resource, Storage, Engine, IsEngine, table_number, Kind, Database, no_columns, find_storage,
  storage_get, storage_update, bulk_get_all, bulk_create, resources_get_all, resources_create,
  resource_refs, storage_pool_get_all, storage_pools_create,
}
use delfin.Sync.Classify.{classify_resources, classify_from, classify_one}
use delfin.Sync.Classify.Partition.{classify_resources-partition}
use delfin.Sync.Task.{DriverApi, Groups, sync, store, refresh, set_synced_after, task_done}
use delfin.Sync.Classes.{storage_pool_task}
use delfin.Sync.Manager.{TaskClass, sync_of}
use delfin.Sync.Request.{
  Server, timedelta_seconds, is_syncing, start_sync, set_synced_if_ok, launch, sync_each, cast_all,
  seconds_per_day,
}
use delfin.Sync.Frame.{KeepsStorages, sync_of-KeepsStorages}
use delfin.Sync.Counting.{Counting}
use delfin.Sync.Progress.{run_tasks, failures, sync_status_progress}
use delfin.Sync.Overdue.{set_synced_if_ok-refuses_overdue, sync_each-stops}
use delfin.Sync.Quiet.{quiet_always_succeeds}

abbrev pub sql : Engine
sql = record { uuid = λ n. n + 100; order_by = λ rows. rows; order_storages = λ rows. rows }

abbrev pub resource : ℕ → Resource
resource n = record { id = none; native_id = n; storage_id = 7; columns = no_columns }

abbrev no_groups : Groups
no_groups = record { groups = []; relations = [] }

-- The storage is down for `get_storage`; it lists two pools.
abbrev pub driver : DriverApi
driver = record {
  get_storage = λ s. err driver_error;
  list_storage_pools = λ s. ok (resource 1 ∷ resource 2 ∷ []);
  list_volumes = λ s. err not_implemented;
  list_controllers = λ s. err not_implemented;
  list_ports = λ s. err not_implemented;
  list_disks = λ s. err not_implemented;
  list_quotas = λ s. err not_implemented;
  list_filesystems = λ s. err not_implemented;
  list_qtrees = λ s. err not_implemented;
  list_shares = λ s. err not_implemented;
  list_storage_host_initiators = λ s. err driver_error;
  list_storage_hosts = λ s. err driver_error;
  list_masking_views = λ s. err driver_error;
  list_storage_host_groups = λ s. ok no_groups;
  list_port_groups = λ s. ok no_groups;
  list_volume_groups = λ s. ok no_groups;
}

abbrev pub row : ℕ → ℕ → Row
row i n = record { id = i; native_id = n; storage_id = 7; columns = no_columns }

abbrev rows : List Row
rows = row 30 1 ∷ row 31 5 ∷ []

abbrev pub storage : Storage
storage = record {
  id = 7;
  deleted = false;
  sync_status = pos 0;
  created_at = 4;
  updated_at = none;
  columns = no_columns;
}

abbrev busy : Storage
busy = record storage { sync_status = pos 300; updated_at = some 1000 }

abbrev pub database : Storage → ℕ → Database
database st now = record {
  table = λ k. [];
  storages = st ∷ [];
  access_infos = 7 ∷ [];
  alert_sources = [];
  issued = 0;
  now = now;
}

-- Resource 2 is new, resource 1 has the row 30, and the row 31 is stale.
classify_resources-run :
    classify_resources (resource 2 ∷ resource 1 ∷ []) rows
    ≡ ok (record {
      add_list = resource 2 ∷ [];
      update_list = record (resource 1) { id = some 30 } ∷ [];
      delete_id_list = 31 ∷ [];
    })
unfolding classify_resources classify_from classify_one
classify_resources-run = refl

-- A storage that lists a known resource twice.
classify_resources-twice : classify_resources (resource 1 ∷ resource 1 ∷ []) rows ≡ err value_error
unfolding classify_resources classify_from classify_one
classify_resources-twice = refl

-- The two pools go into the empty table under fresh ids.
sync-pools :
    (sync_of sql driver TaskClass.storage_pool 7 (database storage 9)).1.table Kind.storage_pool
    ≡ row 100 1 ∷ row 101 2 ∷ []
unfolding sync_of sync refresh store storage_pool_task storage_pool_get_all storage_pools_create
    bulk_get_all bulk_create resources_get_all resources_create resource_refs classify_resources
    classify_from classify_one
sync-pools = refl

classify_resources-partition_example :
    classify_resources (resource 2 ∷ resource 1 ∷ []) rows
    ≡ ok (record {
      add_list = resource 2 ∷ [];
      update_list = record (resource 1) { id = some 30 } ∷ [];
      delete_id_list = 31 ∷ [];
    })
classify_resources-partition_example =
    classify_resources-partition (resource 2 ∷ resource 1 ∷ []) rows refl refl

idle-Counting : Counting 7 (pos 0) (database storage 9)
unfolding find_storage
idle-Counting = record { status = refl; alive = refl }

abbrev started_database : Database
started_database = database (record storage { sync_status = pos 300; updated_at = some 9 }) 9

abbrev first_tasks : List TaskClass
first_tasks = TaskClass.storage_device ∷ TaskClass.storage_host ∷ []

start-run : set_synced_if_ok 3600 7 3 (database storage 9) ≡ (ok tt, started_database)
unfolding set_synced_if_ok storage_get find_storage start_sync is_syncing timedelta_seconds
    storage_update
start-run = refl

-- The first of the two tasks raises.
sync_status_progress_example :
    Counting 7
      (sub_ℕ 100 (failures sql driver 7 first_tasks started_database))
      (run_tasks sql driver 7 first_tasks started_database)
    × (ltb_ℤ (pos 0) (sub_ℕ 100 (failures sql driver 7 first_tasks started_database)) ≡ true)
    × (eqb_ℤ (sub_ℕ 100 (failures sql driver 7 first_tasks started_database)) (pos 0) ≡ false)
sync_status_progress_example =
    sync_status_progress sql driver 3600 7 1 first_tasks (pos 0) (database storage 9)
      started_database idle-Counting start-run (omega arith)

abbrev lost_days : ℕ
lost_days = 3 * seconds_per_day + 5

find-busy : (now : ℕ) → find_storage false 7 (database busy now).storages ≡ some busy
unfolding find_storage
find-busy now = refl

set_synced_if_ok-refuses_overdue_example :
    set_synced_if_ok 3600 7 16 (database busy (1000 + lost_days))
    ≡ (err storage_is_syncing, database busy (1000 + lost_days))
set_synced_if_ok-refuses_overdue_example =
    set_synced_if_ok-refuses_overdue 3600 7 16 3 5 busy (database busy (1000 + lost_days))
      (find-busy (1000 + lost_days)) refl (omega arith) (omega arith) refl

abbrev idle : Storage
idle = record storage { id = 8 }

abbrev last_storage : Storage
last_storage = record storage { id = 9 }

abbrev server : Server
server = record {
  db = record (database busy 1100) { storages = idle ∷ busy ∷ last_storage ∷ [] };
  queue = [];
}

abbrev server_at_busy : Server
server_at_busy = record {
  db = record (database busy 1100) {
    storages =
        record idle { sync_status = pos 1600; updated_at = some 1100 } ∷ busy ∷ last_storage ∷ [];
  };
  queue = cast_all 8 [];
}

before-busy : sync_each 3600 (idle ∷ []) server ≡ (ok tt, server_at_busy)
unfolding sync_each launch set_synced_if_ok storage_get find_storage start_sync is_syncing
    timedelta_seconds storage_update
before-busy = refl

find-busy_later : find_storage false 7 server_at_busy.db.storages ≡ some busy
unfolding find_storage
find-busy_later = refl

busy-is_syncing : is_syncing 3600 1100 busy ≡ true
unfolding is_syncing timedelta_seconds
busy-is_syncing = refl

-- The storage 9 is idle and gets no task.
sync_each-stops_example :
    sync_each 3600 (idle ∷ busy ∷ last_storage ∷ []) server
    ≡ (err storage_is_syncing, server_at_busy)
sync_each-stops_example =
    sync_each-stops 3600 (idle ∷ []) (last_storage ∷ []) busy busy server server_at_busy before-busy
      find-busy_later busy-is_syncing

-- The driver raises, and the task counts as done.
quiet_always_succeeds_example :
    set_synced_after 7 (sync_of sql driver TaskClass.storage_host 7) (database busy 1100)
    ≡ task_done 7 100 (sync_of sql driver TaskClass.storage_host 7 (database busy 1100)).1
quiet_always_succeeds_example =
    quiet_always_succeeds sql driver TaskClass.storage_host 7 (database busy 1100) refl

-- A pool task leaves the storages alone.
sync_of-KeepsStorages_example : KeepsStorages (sync_of sql driver TaskClass.storage_pool 7)
sync_of-KeepsStorages_example = sync_of-KeepsStorages sql driver TaskClass.storage_pool 7 (λ e. cc)
