-- ===== src/Database/Hardware.antt =====
-- delfin/db/sqlalchemy/api.py: the calls on the storage pools, volumes, controllers, ports and disks.
use delfin.Prelude.{ℕ, List}
use delfin.Database.Rows.{Engine, Resource, Row}
use delfin.Database.Session.{
  Action, storage_pool, volume, controller, port, disk, bulk_get_all, bulk_create, bulk_update,
  bulk_delete, bulk_delete_by_storage,
}

unfoldable pub storage_pool_get_all : Engine → ℕ → Action (List Row)
unfolding bulk_get_all
storage_pool_get_all sql = bulk_get_all sql storage_pool

unfoldable pub storage_pools_create : Engine → List Resource → Action (Unit {0})
unfolding bulk_create
storage_pools_create sql = bulk_create sql storage_pool

unfoldable pub storage_pools_update : List Resource → Action (Unit {0})
unfolding bulk_update
storage_pools_update = bulk_update storage_pool

unfoldable pub storage_pools_delete : List ℕ → Action (Unit {0})
unfolding bulk_delete
storage_pools_delete = bulk_delete storage_pool

unfoldable pub storage_pool_delete_by_storage : ℕ → Action (Unit {0})
unfolding bulk_delete_by_storage
storage_pool_delete_by_storage = bulk_delete_by_storage storage_pool

unfoldable pub volume_get_all : Engine → ℕ → Action (List Row)
unfolding bulk_get_all
volume_get_all sql = bulk_get_all sql volume

unfoldable pub volumes_create : Engine → List Resource → Action (Unit {0})
unfolding bulk_create
volumes_create sql = bulk_create sql volume

unfoldable pub volumes_update : List Resource → Action (Unit {0})
unfolding bulk_update
volumes_update = bulk_update volume

unfoldable pub volumes_delete : List ℕ → Action (Unit {0})
unfolding bulk_delete
volumes_delete = bulk_delete volume

unfoldable pub volume_delete_by_storage : ℕ → Action (Unit {0})
unfolding bulk_delete_by_storage
volume_delete_by_storage = bulk_delete_by_storage volume

unfoldable pub controller_get_all : Engine → ℕ → Action (List Row)
unfolding bulk_get_all
controller_get_all sql = bulk_get_all sql controller

unfoldable pub controllers_create : Engine → List Resource → Action (Unit {0})
unfolding bulk_create
controllers_create sql = bulk_create sql controller

unfoldable pub controllers_update : List Resource → Action (Unit {0})
unfolding bulk_update
controllers_update = bulk_update controller

unfoldable pub controllers_delete : List ℕ → Action (Unit {0})
unfolding bulk_delete
controllers_delete = bulk_delete controller

unfoldable pub controller_delete_by_storage : ℕ → Action (Unit {0})
unfolding bulk_delete_by_storage
controller_delete_by_storage = bulk_delete_by_storage controller

unfoldable pub port_get_all : Engine → ℕ → Action (List Row)
unfolding bulk_get_all
port_get_all sql = bulk_get_all sql port

unfoldable pub ports_create : Engine → List Resource → Action (Unit {0})
unfolding bulk_create
ports_create sql = bulk_create sql port

unfoldable pub ports_update : List Resource → Action (Unit {0})
unfolding bulk_update
ports_update = bulk_update port

unfoldable pub ports_delete : List ℕ → Action (Unit {0})
unfolding bulk_delete
ports_delete = bulk_delete port

unfoldable pub port_delete_by_storage : ℕ → Action (Unit {0})
unfolding bulk_delete_by_storage
port_delete_by_storage = bulk_delete_by_storage port

unfoldable pub disk_get_all : Engine → ℕ → Action (List Row)
unfolding bulk_get_all
disk_get_all sql = bulk_get_all sql disk

unfoldable pub disks_create : Engine → List Resource → Action (Unit {0})
unfolding bulk_create
disks_create sql = bulk_create sql disk

unfoldable pub disks_update : List Resource → Action (Unit {0})
unfolding bulk_update
disks_update = bulk_update disk

unfoldable pub disks_delete : List ℕ → Action (Unit {0})
unfolding bulk_delete
disks_delete = bulk_delete disk

unfoldable pub disk_delete_by_storage : ℕ → Action (Unit {0})
unfolding bulk_delete_by_storage
disk_delete_by_storage = bulk_delete_by_storage disk
