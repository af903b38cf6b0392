-- ===== src/Sync/Hosts.antt =====
-- The classes of delfin/task_manager/tasks/resources.py with a `sync` of their own: hosts, their
-- initiators, masking views, and the groups. They swallow every exception; a group also replaces
-- the relations to its members before its rows are brought in line.
use delfin.Prelude.{ℕ, Bool, List}
use delfin.Errors.{Exception, Result, ok}
use delfin.Database.{
  Resource, Engine, Action, ◌>>=◌, ◌>>◌, lift, when, storage_host_initiators_get_all,
  storage_host_initiators_delete, storage_host_initiators_update, storage_host_initiators_create,
  storage_host_initiators_delete_by_storage, storage_hosts_get_all, storage_hosts_delete,
  storage_hosts_update, storage_hosts_create, storage_hosts_delete_by_storage,
  masking_views_get_all, masking_views_delete, masking_views_update, masking_views_create,
  masking_views_delete_by_storage, storage_host_groups_get_all, storage_host_groups_delete,
  storage_host_groups_update, storage_host_groups_create, storage_host_groups_delete_by_storage,
  storage_host_grp_host_rels_create, storage_host_grp_host_rels_delete_by_storage,
  port_groups_get_all, port_groups_delete, port_groups_update, port_groups_create,
  port_groups_delete_by_storage, port_grp_port_rels_create, port_grp_port_rels_delete_by_storage,
  volume_groups_get_all, volume_groups_delete, volume_groups_update, volume_groups_create,
  volume_groups_delete_by_storage, vol_grp_vol_rels_create, vol_grp_vol_rels_delete_by_storage,
}
use delfin.Sync.Task.{DriverApi, Groups, ResourceTask, abstract_task, not_empty, refresh, handling}

-- `except AttributeError`, `except NotImplementedError` and `except Exception`: none is raised.
abbrev pub swallow : Exception → Result (Unit {0})
swallow e = ok tt

unfoldable pub storage_host_initiator_calls : ResourceTask
unfolding storage_host_initiators_get_all storage_host_initiators_delete
    storage_host_initiators_update storage_host_initiators_create
    storage_host_initiators_delete_by_storage
storage_host_initiator_calls = record {
  driver_list_resources = λ driver. driver.list_storage_host_initiators;
  db_resource_get_all = storage_host_initiators_get_all;
  db_resources_delete = storage_host_initiators_delete;
  db_resources_update = storage_host_initiators_update;
  db_resources_create = storage_host_initiators_create;
  db_resource_delete_by_storage = storage_host_initiators_delete_by_storage;
}

unfoldable pub storage_host_initiator_sync : Engine → DriverApi → ℕ → Action (Unit {0})
unfolding storage_host_initiator_calls
storage_host_initiator_sync sql driver s = handling swallow (do
  storage_resources ← lift (driver.list_storage_host_initiators s)
  refresh sql storage_host_initiator_calls s storage_resources)

unfoldable pub storage_host_initiator_remove : Bool → ℕ → Action (Unit {0})
unfolding storage_host_initiators_delete_by_storage
storage_host_initiator_remove read_deleted = storage_host_initiators_delete_by_storage

unfoldable pub storage_host_calls : ResourceTask
unfolding storage_hosts_get_all storage_hosts_delete storage_hosts_update storage_hosts_create
    storage_hosts_delete_by_storage
storage_host_calls = record {
  driver_list_resources = λ driver. driver.list_storage_hosts;
  db_resource_get_all = storage_hosts_get_all;
  db_resources_delete = storage_hosts_delete;
  db_resources_update = storage_hosts_update;
  db_resources_create = storage_hosts_create;
  db_resource_delete_by_storage = storage_hosts_delete_by_storage;
}

unfoldable pub storage_host_sync : Engine → DriverApi → ℕ → Action (Unit {0})
unfolding storage_host_calls
storage_host_sync sql driver s = handling swallow (do
  storage_resources ← lift (driver.list_storage_hosts s)
  refresh sql storage_host_calls s storage_resources)

unfoldable pub storage_host_remove : Bool → ℕ → Action (Unit {0})
unfolding storage_hosts_delete_by_storage
storage_host_remove read_deleted = storage_hosts_delete_by_storage

unfoldable pub masking_view_calls : ResourceTask
unfolding masking_views_get_all masking_views_delete masking_views_update masking_views_create
    masking_views_delete_by_storage
masking_view_calls = record {
  driver_list_resources = λ driver. driver.list_masking_views;
  db_resource_get_all = masking_views_get_all;
  db_resources_delete = masking_views_delete;
  db_resources_update = masking_views_update;
  db_resources_create = masking_views_create;
  db_resource_delete_by_storage = masking_views_delete_by_storage;
}

unfoldable pub masking_view_sync : Engine → DriverApi → ℕ → Action (Unit {0})
unfolding masking_view_calls
masking_view_sync sql driver s = handling swallow (do
  storage_resources ← lift (driver.list_masking_views s)
  refresh sql masking_view_calls s storage_resources)

unfoldable pub masking_view_remove : Bool → ℕ → Action (Unit {0})
unfolding masking_views_delete_by_storage
masking_view_remove read_deleted = masking_views_delete_by_storage

-- The relations are replaced only if the driver lists a group.
unfoldable pub replace_relations :
    Engine
    → (ℕ → Action (Unit {0}))
    → (Engine → List Resource → Action (Unit {0}))
    → ℕ
    → Groups
    → Action (Unit {0})
replace_relations sql rels_delete rels_create s g =
    when (not_empty g.groups) (do rels_delete s; rels_create sql g.relations)

unfoldable pub storage_host_group_calls : ResourceTask
unfolding storage_host_groups_get_all storage_host_groups_delete storage_host_groups_update
    storage_host_groups_create storage_host_groups_delete_by_storage
storage_host_group_calls = record abstract_task {
  db_resource_get_all = storage_host_groups_get_all;
  db_resources_delete = storage_host_groups_delete;
  db_resources_update = storage_host_groups_update;
  db_resources_create = storage_host_groups_create;
  db_resource_delete_by_storage = storage_host_groups_delete_by_storage;
}

unfoldable pub storage_host_group_sync : Engine → DriverApi → ℕ → Action (Unit {0})
unfolding storage_host_group_calls storage_host_grp_host_rels_create
    storage_host_grp_host_rels_delete_by_storage
storage_host_group_sync sql driver s = handling swallow (do
  obj ← lift (driver.list_storage_host_groups s)
  replace_relations sql storage_host_grp_host_rels_delete_by_storage
      storage_host_grp_host_rels_create s obj
  refresh sql storage_host_group_calls s obj.groups)

unfoldable pub storage_host_group_remove : Bool → ℕ → Action (Unit {0})
unfolding storage_host_grp_host_rels_delete_by_storage storage_host_groups_delete_by_storage
storage_host_group_remove read_deleted s = do
  storage_host_grp_host_rels_delete_by_storage s
  storage_host_groups_delete_by_storage s

unfoldable pub port_group_calls : ResourceTask
unfolding port_groups_get_all port_groups_delete port_groups_update port_groups_create
    port_groups_delete_by_storage
port_group_calls = record abstract_task {
  db_resource_get_all = port_groups_get_all;
  db_resources_delete = port_groups_delete;
  db_resources_update = port_groups_update;
  db_resources_create = port_groups_create;
  db_resource_delete_by_storage = port_groups_delete_by_storage;
}

unfoldable pub port_group_sync : Engine → DriverApi → ℕ → Action (Unit {0})
unfolding port_group_calls port_grp_port_rels_create port_grp_port_rels_delete_by_storage
port_group_sync sql driver s = handling swallow (do
  obj ← lift (driver.list_port_groups s)
  replace_relations sql port_grp_port_rels_delete_by_storage port_grp_port_rels_create s obj
  refresh sql port_group_calls s obj.groups)

unfoldable pub port_group_remove : Bool → ℕ → Action (Unit {0})
unfolding port_grp_port_rels_delete_by_storage port_groups_delete_by_storage
port_group_remove read_deleted s = do
  port_grp_port_rels_delete_by_storage s
  port_groups_delete_by_storage s

unfoldable pub volume_group_calls : ResourceTask
unfolding volume_groups_get_all volume_groups_delete volume_groups_update volume_groups_create
    volume_groups_delete_by_storage
volume_group_calls = record abstract_task {
  db_resource_get_all = volume_groups_get_all;
  db_resources_delete = volume_groups_delete;
  db_resources_update = volume_groups_update;
  db_resources_create = volume_groups_create;
  db_resource_delete_by_storage = volume_groups_delete_by_storage;
}

unfoldable pub volume_group_sync : Engine → DriverApi → ℕ → Action (Unit {0})
unfolding volume_group_calls vol_grp_vol_rels_create vol_grp_vol_rels_delete_by_storage
volume_group_sync sql driver s = handling swallow (do
  obj ← lift (driver.list_volume_groups s)
  replace_relations sql vol_grp_vol_rels_delete_by_storage vol_grp_vol_rels_create s obj
  refresh sql volume_group_calls s obj.groups)

unfoldable pub volume_group_remove : Bool → ℕ → Action (Unit {0})
unfolding vol_grp_vol_rels_delete_by_storage volume_groups_delete_by_storage
volume_group_remove read_deleted s = do
  vol_grp_vol_rels_delete_by_storage s
  volume_groups_delete_by_storage s
