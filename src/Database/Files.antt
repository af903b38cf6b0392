-- ===== src/Database/Files.antt =====
-- delfin/db/sqlalchemy/api.py: the calls on the quotas, filesystems, qtrees and shares.
use delfin.Prelude.{ℕ, List}
use delfin.Database.Rows.{Engine, Resource, Row}
use delfin.Database.Session.{
  Action, quota, filesystem, qtree, share, bulk_get_all, bulk_create, bulk_update, bulk_delete,
  bulk_delete_by_storage,
}

unfoldable pub quota_get_all : Engine → ℕ → Action (List Row)
unfolding bulk_get_all
quota_get_all sql = bulk_get_all sql quota

unfoldable pub quotas_create : Engine → List Resource → Action (Unit {0})
unfolding bulk_create
quotas_create sql = bulk_create sql quota

unfoldable pub quotas_update : List Resource → Action (Unit {0})
unfolding bulk_update
quotas_update = bulk_update quota

unfoldable pub quotas_delete : List ℕ → Action (Unit {0})
unfolding bulk_delete
quotas_delete = bulk_delete quota

unfoldable pub quota_delete_by_storage : ℕ → Action (Unit {0})
unfolding bulk_delete_by_storage
quota_delete_by_storage = bulk_delete_by_storage quota

unfoldable pub filesystem_get_all : Engine → ℕ → Action (List Row)
unfolding bulk_get_all
filesystem_get_all sql = bulk_get_all sql filesystem

unfoldable pub filesystems_create : Engine → List Resource → Action (Unit {0})
unfolding bulk_create
filesystems_create sql = bulk_create sql filesystem

unfoldable pub filesystems_update : List Resource → Action (Unit {0})
unfolding bulk_update
filesystems_update = bulk_update filesystem

unfoldable pub filesystems_delete : List ℕ → Action (Unit {0})
unfolding bulk_delete
filesystems_delete = bulk_delete filesystem

unfoldable pub filesystem_delete_by_storage : ℕ → Action (Unit {0})
unfolding bulk_delete_by_storage
filesystem_delete_by_storage = bulk_delete_by_storage filesystem

unfoldable pub qtree_get_all : Engine → ℕ → Action (List Row)
unfolding bulk_get_all
qtree_get_all sql = bulk_get_all sql qtree

unfoldable pub qtrees_create : Engine → List Resource → Action (Unit {0})
unfolding bulk_create
qtrees_create sql = bulk_create sql qtree

unfoldable pub qtrees_update : List Resource → Action (Unit {0})
unfolding bulk_update
qtrees_update = bulk_update qtree

unfoldable pub qtrees_delete : List ℕ → Action (Unit {0})
unfolding bulk_delete
qtrees_delete = bulk_delete qtree

unfoldable pub qtree_delete_by_storage : ℕ → Action (Unit {0})
unfolding bulk_delete_by_storage
qtree_delete_by_storage = bulk_delete_by_storage qtree

unfoldable pub share_get_all : Engine → ℕ → Action (List Row)
unfolding bulk_get_all
share_get_all sql = bulk_get_all sql share

unfoldable pub shares_create : Engine → List Resource → Action (Unit {0})
unfolding bulk_create
shares_create sql = bulk_create sql share

unfoldable pub shares_update : List Resource → Action (Unit {0})
unfolding bulk_update
shares_update = bulk_update share

unfoldable pub shares_delete : List ℕ → Action (Unit {0})
unfolding bulk_delete
shares_delete = bulk_delete share

unfoldable pub share_delete_by_storage : ℕ → Action (Unit {0})
unfolding bulk_delete_by_storage
share_delete_by_storage = bulk_delete_by_storage share
