-- ===== src/Sync/Quiet.antt =====
-- The classes of delfin/task_manager/tasks/resources.py whose `sync` raises nothing.
use delfin.Prelude.{ℕ, ◌≡◌, refl, Bool, true, false}
use delfin.Errors.{Result, ok, err}
use delfin.Database.{Engine, Database}
use delfin.Sync.Task.{DriverApi, handled, set_synced_after, task_done}
use delfin.Sync.Hosts.{
  swallow, storage_host_initiator_sync, storage_host_sync, storage_host_group_sync, port_group_sync,
  volume_group_sync, masking_view_sync,
}
use delfin.Sync.Manager.{TaskClass, sync_of}

-- The classes with a `sync` of their own, but for the storage device.
abbrev pub is_quiet : TaskClass → Bool
is_quiet cls = elim cls [
  | TaskClass.storage_host_initiator ↦ true
  | TaskClass.storage_host ↦ true
  | TaskClass.storage_host_group ↦ true
  | TaskClass.port_group ↦ true
  | TaskClass.volume_group ↦ true
  | TaskClass.masking_view ↦ true
  | _ ↦ false
]

swallowed : (r : Result (Unit {0})) → handled swallow r ≡ ok tt
swallowed (ok _) = refl
swallowed (err e) = refl

sync_of-ok :
    (sql : Engine) (driver : DriverApi) (cls : TaskClass) (s : ℕ) (d : Database)
    → is_quiet cls ≡ true
    → (sync_of sql driver cls s d).0 ≡ ok tt
unfolding sync_of storage_host_initiator_sync storage_host_sync storage_host_group_sync
    port_group_sync volume_group_sync masking_view_sync
sync_of-ok sql driver TaskClass.storage_host_initiator s d h = swallowed _
sync_of-ok sql driver TaskClass.storage_host s d h = swallowed _
sync_of-ok sql driver TaskClass.storage_host_group s d h = swallowed _
sync_of-ok sql driver TaskClass.port_group s d h = swallowed _
sync_of-ok sql driver TaskClass.volume_group s d h = swallowed _
sync_of-ok sql driver TaskClass.masking_view s d h = swallowed _
sync_of-ok sql driver cls s d h = absurd (cc)

-- Whatever the driver answers and the database does, the `sync` of a host, initiator, group or
-- masking view class ends without an exception, so its task is always counted as a success.
pub quiet_always_succeeds :
    (sql : Engine) (driver : DriverApi) (cls : TaskClass) (s : ℕ) (d : Database)
    → is_quiet cls ≡ true
    → set_synced_after s (sync_of sql driver cls s) d
      ≡ task_done s 100 (sync_of sql driver cls s d).1
unfolding set_synced_after
quiet_always_succeeds sql driver cls s d h = rw (sync_of-ok sql driver cls s d h)
