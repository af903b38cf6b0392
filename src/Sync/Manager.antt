-- ===== src/Sync/Manager.antt =====
-- `StorageDeviceTask` of delfin/task_manager/tasks/resources.py, and the two calls of
-- delfin/task_manager/manager.py that run a task class which is named in a message.
use delfin.Prelude.{ℕ, Bool, false, List, [], ◌∷◌}
use delfin.Database.{
  merge, Engine, Action, ◌>>=◌, ◌>>◌, lift, storage_update, storage_delete, access_info_delete,
  alert_source_delete,
}
use delfin.Sync.Task.{DriverApi, handling, sync, set_synced_after, check_deleted}
use delfin.Sync.Classes.{
  storage_pool_task, storage_volume_task, storage_controller_task, storage_port_task,
  storage_disk_task, storage_quota_task, storage_filesystem_task, storage_qtree_task,
  storage_share_task,
}
use delfin.Sync.Hosts.{
  swallow, storage_host_initiator_sync, storage_host_initiator_remove, storage_host_sync,
  storage_host_remove, storage_host_group_sync, storage_host_group_remove, port_group_sync,
  port_group_remove, volume_group_sync, volume_group_remove, masking_view_sync, masking_view_remove,
}

-- `StorageDeviceTask.sync` without its decorators: any exception is raised again.
unfoldable pub storage_device_sync : DriverApi → ℕ → Action (Unit {0})
storage_device_sync driver s = do
  values ← lift (driver.get_storage s)
  storage_update false s (λ st. record st { columns = merge values st.columns })

-- An exception ends the calls and is only logged.
unfoldable pub storage_device_remove : Bool → ℕ → Action (Unit {0})
storage_device_remove read_deleted s =
    handling swallow (do storage_delete read_deleted s; access_info_delete s; alert_source_delete s)

-- The subclasses of `StorageResourceTask`.
pub data TaskClass : Type 0 where
  storage_device storage_pool storage_volume storage_controller storage_port storage_disk
        storage_quota :
      TaskClass
  storage_filesystem storage_qtree storage_share storage_host_initiator storage_host
        storage_host_group port_group volume_group masking_view :
      TaskClass

-- `StorageResourceTask.__subclasses__()`
abbrev pub subclasses : List TaskClass
subclasses =
    TaskClass.storage_device ∷ TaskClass.storage_pool ∷ TaskClass.storage_volume
    ∷ TaskClass.storage_controller ∷ TaskClass.storage_port ∷ TaskClass.storage_disk
    ∷ TaskClass.storage_quota ∷ TaskClass.storage_filesystem ∷ TaskClass.storage_qtree
    ∷ TaskClass.storage_share ∷ TaskClass.storage_host_initiator ∷ TaskClass.storage_host
    ∷ TaskClass.storage_host_group ∷ TaskClass.port_group ∷ TaskClass.volume_group
    ∷ TaskClass.masking_view ∷ []

-- `cls(context, storage_id).remove()`
unfoldable pub remove_of : TaskClass → Bool → ℕ → Action (Unit {0})
unfolding storage_pool_task storage_volume_task storage_controller_task storage_port_task
    storage_disk_task storage_quota_task storage_filesystem_task storage_qtree_task
    storage_share_task
remove_of TaskClass.storage_device read_deleted s = storage_device_remove read_deleted s
remove_of TaskClass.storage_pool read_deleted s = storage_pool_task.db_resource_delete_by_storage s
remove_of TaskClass.storage_volume read_deleted s =
    storage_volume_task.db_resource_delete_by_storage s
remove_of TaskClass.storage_controller read_deleted s =
    storage_controller_task.db_resource_delete_by_storage s
remove_of TaskClass.storage_port read_deleted s = storage_port_task.db_resource_delete_by_storage s
remove_of TaskClass.storage_disk read_deleted s = storage_disk_task.db_resource_delete_by_storage s
remove_of TaskClass.storage_quota read_deleted s =
    storage_quota_task.db_resource_delete_by_storage s
remove_of TaskClass.storage_filesystem read_deleted s =
    storage_filesystem_task.db_resource_delete_by_storage s
remove_of TaskClass.storage_qtree read_deleted s =
    storage_qtree_task.db_resource_delete_by_storage s
remove_of TaskClass.storage_share read_deleted s =
    storage_share_task.db_resource_delete_by_storage s
remove_of TaskClass.storage_host_initiator read_deleted s =
    storage_host_initiator_remove read_deleted s
remove_of TaskClass.storage_host read_deleted s = storage_host_remove read_deleted s
remove_of TaskClass.storage_host_group read_deleted s = storage_host_group_remove read_deleted s
remove_of TaskClass.port_group read_deleted s = port_group_remove read_deleted s
remove_of TaskClass.volume_group read_deleted s = volume_group_remove read_deleted s
remove_of TaskClass.masking_view read_deleted s = masking_view_remove read_deleted s

-- The body of the class's `sync`, which the decorators wrap.
unfoldable pub sync_of : Engine → DriverApi → TaskClass → ℕ → Action (Unit {0})
unfolding storage_pool_task storage_volume_task storage_controller_task storage_port_task
    storage_disk_task storage_quota_task storage_filesystem_task storage_qtree_task
    storage_share_task
sync_of sql driver TaskClass.storage_device s = storage_device_sync driver s
sync_of sql driver TaskClass.storage_pool s = sync sql driver storage_pool_task s
sync_of sql driver TaskClass.storage_volume s = sync sql driver storage_volume_task s
sync_of sql driver TaskClass.storage_controller s = sync sql driver storage_controller_task s
sync_of sql driver TaskClass.storage_port s = sync sql driver storage_port_task s
sync_of sql driver TaskClass.storage_disk s = sync sql driver storage_disk_task s
sync_of sql driver TaskClass.storage_quota s = sync sql driver storage_quota_task s
sync_of sql driver TaskClass.storage_filesystem s = sync sql driver storage_filesystem_task s
sync_of sql driver TaskClass.storage_qtree s = sync sql driver storage_qtree_task s
sync_of sql driver TaskClass.storage_share s = sync sql driver storage_share_task s
sync_of sql driver TaskClass.storage_host_initiator s = storage_host_initiator_sync sql driver s
sync_of sql driver TaskClass.storage_host s = storage_host_sync sql driver s
sync_of sql driver TaskClass.storage_host_group s = storage_host_group_sync sql driver s
sync_of sql driver TaskClass.port_group s = port_group_sync sql driver s
sync_of sql driver TaskClass.volume_group s = volume_group_sync sql driver s
sync_of sql driver TaskClass.masking_view s = masking_view_sync sql driver s

-- `TaskManager.sync_storage_resource`
unfoldable pub sync_storage_resource : Engine → DriverApi → ℕ → TaskClass → Action (Unit {0})
sync_storage_resource sql driver s cls =
    check_deleted s (λ read_deleted. remove_of cls read_deleted s)
      (set_synced_after s (sync_of sql driver cls s))

-- `TaskManager.remove_storage_resource`
unfoldable pub remove_storage_resource : ℕ → TaskClass → Action (Unit {0})
remove_storage_resource s cls = remove_of cls false s
