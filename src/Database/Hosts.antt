-- ===== src/Database/Hosts.antt =====
-- delfin/db/sqlalchemy/api.py: the calls on the hosts, their initiators and groups, the port groups, volume groups and masking
-- views, and the relations of the groups to their members.
use delfin.Prelude.{ℕ, List}
use delfin.Database.Rows.{Engine, Resource, Row}
use delfin.Database.Session.{
  Action, host_initiator, host, host_group, port_group, volume_group, masking_view,
  host_grp_host_rel, port_grp_port_rel, vol_grp_vol_rel, bulk_get_all, bulk_create, bulk_update,
  bulk_delete, bulk_delete_by_storage,
}

unfoldable pub storage_host_initiators_get_all : Engine → ℕ → Action (List Row)
unfolding bulk_get_all
storage_host_initiators_get_all sql = bulk_get_all sql host_initiator

unfoldable pub storage_host_initiators_create : Engine → List Resource → Action (Unit {0})
unfolding bulk_create
storage_host_initiators_create sql = bulk_create sql host_initiator

unfoldable pub storage_host_initiators_update : List Resource → Action (Unit {0})
unfolding bulk_update
storage_host_initiators_update = bulk_update host_initiator

unfoldable pub storage_host_initiators_delete : List ℕ → Action (Unit {0})
unfolding bulk_delete
storage_host_initiators_delete = bulk_delete host_initiator

unfoldable pub storage_host_initiators_delete_by_storage : ℕ → Action (Unit {0})
unfolding bulk_delete_by_storage
storage_host_initiators_delete_by_storage = bulk_delete_by_storage host_initiator

unfoldable pub storage_hosts_get_all : Engine → ℕ → Action (List Row)
unfolding bulk_get_all
storage_hosts_get_all sql = bulk_get_all sql host

unfoldable pub storage_hosts_create : Engine → List Resource → Action (Unit {0})
unfolding bulk_create
storage_hosts_create sql = bulk_create sql host

unfoldable pub storage_hosts_update : List Resource → Action (Unit {0})
unfolding bulk_update
storage_hosts_update = bulk_update host

unfoldable pub storage_hosts_delete : List ℕ → Action (Unit {0})
unfolding bulk_delete
storage_hosts_delete = bulk_delete host

unfoldable pub storage_hosts_delete_by_storage : ℕ → Action (Unit {0})
unfolding bulk_delete_by_storage
storage_hosts_delete_by_storage = bulk_delete_by_storage host

unfoldable pub storage_host_groups_get_all : Engine → ℕ → Action (List Row)
unfolding bulk_get_all
storage_host_groups_get_all sql = bulk_get_all sql host_group

unfoldable pub storage_host_groups_create : Engine → List Resource → Action (Unit {0})
unfolding bulk_create
storage_host_groups_create sql = bulk_create sql host_group

unfoldable pub storage_host_groups_update : List Resource → Action (Unit {0})
unfolding bulk_update
storage_host_groups_update = bulk_update host_group

unfoldable pub storage_host_groups_delete : List ℕ → Action (Unit {0})
unfolding bulk_delete
storage_host_groups_delete = bulk_delete host_group

unfoldable pub storage_host_groups_delete_by_storage : ℕ → Action (Unit {0})
unfolding bulk_delete_by_storage
storage_host_groups_delete_by_storage = bulk_delete_by_storage host_group

unfoldable pub port_groups_get_all : Engine → ℕ → Action (List Row)
unfolding bulk_get_all
port_groups_get_all sql = bulk_get_all sql port_group

unfoldable pub port_groups_create : Engine → List Resource → Action (Unit {0})
unfolding bulk_create
port_groups_create sql = bulk_create sql port_group

unfoldable pub port_groups_update : List Resource → Action (Unit {0})
unfolding bulk_update
port_groups_update = bulk_update port_group

unfoldable pub port_groups_delete : List ℕ → Action (Unit {0})
unfolding bulk_delete
port_groups_delete = bulk_delete port_group

unfoldable pub port_groups_delete_by_storage : ℕ → Action (Unit {0})
unfolding bulk_delete_by_storage
port_groups_delete_by_storage = bulk_delete_by_storage port_group

unfoldable pub volume_groups_get_all : Engine → ℕ → Action (List Row)
unfolding bulk_get_all
volume_groups_get_all sql = bulk_get_all sql volume_group

unfoldable pub volume_groups_create : Engine → List Resource → Action (Unit {0})
unfolding bulk_create
volume_groups_create sql = bulk_create sql volume_group

unfoldable pub volume_groups_update : List Resource → Action (Unit {0})
unfolding bulk_update
volume_groups_update = bulk_update volume_group

unfoldable pub volume_groups_delete : List ℕ → Action (Unit {0})
unfolding bulk_delete
volume_groups_delete = bulk_delete volume_group

unfoldable pub volume_groups_delete_by_storage : ℕ → Action (Unit {0})
unfolding bulk_delete_by_storage
volume_groups_delete_by_storage = bulk_delete_by_storage volume_group

unfoldable pub masking_views_get_all : Engine → ℕ → Action (List Row)
unfolding bulk_get_all
masking_views_get_all sql = bulk_get_all sql masking_view

unfoldable pub masking_views_create : Engine → List Resource → Action (Unit {0})
unfolding bulk_create
masking_views_create sql = bulk_create sql masking_view

unfoldable pub masking_views_update : List Resource → Action (Unit {0})
unfolding bulk_update
masking_views_update = bulk_update masking_view

unfoldable pub masking_views_delete : List ℕ → Action (Unit {0})
unfolding bulk_delete
masking_views_delete = bulk_delete masking_view

unfoldable pub masking_views_delete_by_storage : ℕ → Action (Unit {0})
unfolding bulk_delete_by_storage
masking_views_delete_by_storage = bulk_delete_by_storage masking_view

unfoldable pub storage_host_grp_host_rels_create : Engine → List Resource → Action (Unit {0})
unfolding bulk_create
storage_host_grp_host_rels_create sql = bulk_create sql host_grp_host_rel

unfoldable pub storage_host_grp_host_rels_delete_by_storage : ℕ → Action (Unit {0})
unfolding bulk_delete_by_storage
storage_host_grp_host_rels_delete_by_storage = bulk_delete_by_storage host_grp_host_rel

unfoldable pub port_grp_port_rels_create : Engine → List Resource → Action (Unit {0})
unfolding bulk_create
port_grp_port_rels_create sql = bulk_create sql port_grp_port_rel

unfoldable pub port_grp_port_rels_delete_by_storage : ℕ → Action (Unit {0})
unfolding bulk_delete_by_storage
port_grp_port_rels_delete_by_storage = bulk_delete_by_storage port_grp_port_rel

unfoldable pub vol_grp_vol_rels_create : Engine → List Resource → Action (Unit {0})
unfolding bulk_create
vol_grp_vol_rels_create sql = bulk_create sql vol_grp_vol_rel

unfoldable pub vol_grp_vol_rels_delete_by_storage : ℕ → Action (Unit {0})
unfolding bulk_delete_by_storage
vol_grp_vol_rels_delete_by_storage = bulk_delete_by_storage vol_grp_vol_rel
