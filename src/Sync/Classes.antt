-- ===== src/Sync/Classes.antt =====
-- The classes of delfin/task_manager/tasks/resources.py that only fill in the methods of
-- `StorageResourceTask`: what each calls in the driver and in the database.
use delfin.Database.{
  storage_pool_get_all, storage_pools_delete, storage_pools_update, storage_pools_create,
  storage_pool_delete_by_storage, volume_get_all, volumes_delete, volumes_update, volumes_create,
  volume_delete_by_storage, controller_get_all, controllers_delete, controllers_update,
  controllers_create, controller_delete_by_storage, port_get_all, ports_delete, ports_update,
  ports_create, port_delete_by_storage, disk_get_all, disks_delete, disks_update, disks_create,
  disk_delete_by_storage, quota_get_all, quotas_delete, quotas_update, quotas_create,
  quota_delete_by_storage, filesystem_get_all, filesystems_delete, filesystems_update,
  filesystems_create, filesystem_delete_by_storage, qtree_get_all, qtrees_delete, qtrees_update,
  qtrees_create, qtree_delete_by_storage, share_get_all, shares_delete, shares_update,
  shares_create, share_delete_by_storage,
}
use delfin.Sync.Task.{ResourceTask}

unfoldable pub storage_pool_task : ResourceTask
unfolding storage_pool_get_all storage_pools_delete storage_pools_update storage_pools_create
    storage_pool_delete_by_storage
storage_pool_task = record {
  driver_list_resources = λ driver. driver.list_storage_pools;
  db_resource_get_all = storage_pool_get_all;
  db_resources_delete = storage_pools_delete;
  db_resources_update = storage_pools_update;
  db_resources_create = storage_pools_create;
  db_resource_delete_by_storage = storage_pool_delete_by_storage;
}

unfoldable pub storage_volume_task : ResourceTask
unfolding volume_get_all volumes_delete volumes_update volumes_create volume_delete_by_storage
storage_volume_task = record {
  driver_list_resources = λ driver. driver.list_volumes;
  db_resource_get_all = volume_get_all;
  db_resources_delete = volumes_delete;
  db_resources_update = volumes_update;
  db_resources_create = volumes_create;
  db_resource_delete_by_storage = volume_delete_by_storage;
}

unfoldable pub storage_controller_task : ResourceTask
unfolding controller_get_all controllers_delete controllers_update controllers_create
    controller_delete_by_storage
storage_controller_task = record {
  driver_list_resources = λ driver. driver.list_controllers;
  db_resource_get_all = controller_get_all;
  db_resources_delete = controllers_delete;
  db_resources_update = controllers_update;
  db_resources_create = controllers_create;
  db_resource_delete_by_storage = controller_delete_by_storage;
}

unfoldable pub storage_port_task : ResourceTask
unfolding port_get_all ports_delete ports_update ports_create port_delete_by_storage
storage_port_task = record {
  driver_list_resources = λ driver. driver.list_ports;
  db_resource_get_all = port_get_all;
  db_resources_delete = ports_delete;
  db_resources_update = ports_update;
  db_resources_create = ports_create;
  db_resource_delete_by_storage = port_delete_by_storage;
}

unfoldable pub storage_disk_task : ResourceTask
unfolding disk_get_all disks_delete disks_update disks_create disk_delete_by_storage
storage_disk_task = record {
  driver_list_resources = λ driver. driver.list_disks;
  db_resource_get_all = disk_get_all;
  db_resources_delete = disks_delete;
  db_resources_update = disks_update;
  db_resources_create = disks_create;
  db_resource_delete_by_storage = disk_delete_by_storage;
}

unfoldable pub storage_quota_task : ResourceTask
unfolding quota_get_all quotas_delete quotas_update quotas_create quota_delete_by_storage
storage_quota_task = record {
  driver_list_resources = λ driver. driver.list_quotas;
  db_resource_get_all = quota_get_all;
  db_resources_delete = quotas_delete;
  db_resources_update = quotas_update;
  db_resources_create = quotas_create;
  db_resource_delete_by_storage = quota_delete_by_storage;
}

unfoldable pub storage_filesystem_task : ResourceTask
unfolding filesystem_get_all filesystems_delete filesystems_update filesystems_create
    filesystem_delete_by_storage
storage_filesystem_task = record {
  driver_list_resources = λ driver. driver.list_filesystems;
  db_resource_get_all = filesystem_get_all;
  db_resources_delete = filesystems_delete;
  db_resources_update = filesystems_update;
  db_resources_create = filesystems_create;
  db_resource_delete_by_storage = filesystem_delete_by_storage;
}

unfoldable pub storage_qtree_task : ResourceTask
unfolding qtree_get_all qtrees_delete qtrees_update qtrees_create qtree_delete_by_storage
storage_qtree_task = record {
  driver_list_resources = λ driver. driver.list_qtrees;
  db_resource_get_all = qtree_get_all;
  db_resources_delete = qtrees_delete;
  db_resources_update = qtrees_update;
  db_resources_create = qtrees_create;
  db_resource_delete_by_storage = qtree_delete_by_storage;
}

unfoldable pub storage_share_task : ResourceTask
unfolding share_get_all shares_delete shares_update shares_create share_delete_by_storage
storage_share_task = record {
  driver_list_resources = λ driver. driver.list_shares;
  db_resource_get_all = share_get_all;
  db_resources_delete = shares_delete;
  db_resources_update = shares_update;
  db_resources_create = shares_create;
  db_resource_delete_by_storage = share_delete_by_storage;
}
