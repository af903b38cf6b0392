-- ===== src/Sync/Groups.antt =====
-- The relations between groups and their members in delfin/task_manager/tasks/resources.py.
use delfin.Prelude.{
  ℕ, ◌≡◌, refl, ap, ◌∙◌, Bool, true, false, List, [], ◌∷◌, ◌++◌, arith, distinct, filter, ◌==◌,
}
use mathlib.Core.List.{append-nil}
use delfin.Errors.{Result, ok, err, not_implemented}
use delfin.Database.{
  Row, Resource, Engine, IsEngine, Kind, table_number, Database, Action, ◌>>=◌, ◌>>◌, lift, ids,
  native_ids, of_storage, bulk_create, bulk_delete_by_storage, resource_refs,
}
use delfin.Database.Bulk.{IsFresh}
use delfin.Sync.Task.{DriverApi, Groups, handling, refresh}
use delfin.Sync.Hosts.{
  swallow, replace_relations, storage_host_group_sync, port_group_sync, volume_group_sync,
}
use delfin.Sync.Manager.{TaskClass, sync_of}
use delfin.Sync.Frame.{bulk_task}
use delfin.Sync.Mirror.{kind_of, refresh-Writes}
use delfin.Sync.Mirror.Rows.{surviving_rows}
use delfin.Sync.Mirror.Listed.{stored}

abbrev pub is_group : TaskClass → Bool
is_group cls = elim cls [
  | TaskClass.storage_host_group ↦ true
  | TaskClass.port_group ↦ true
  | TaskClass.volume_group ↦ true
  | _ ↦ false
]

-- The table of the relations, and what the driver lists; the other classes have none.
abbrev pub rel_of : TaskClass → Kind
rel_of TaskClass.port_group = Kind.port_grp_port_rel
rel_of TaskClass.volume_group = Kind.vol_grp_vol_rel
rel_of _ = Kind.host_grp_host_rel

abbrev pub groups_of : TaskClass → DriverApi → ℕ → Result Groups
groups_of TaskClass.port_group driver = driver.list_port_groups
groups_of TaskClass.volume_group driver = driver.list_volume_groups
groups_of _ driver = driver.list_storage_host_groups

abbrev group_body : Engine → TaskClass → ℕ → Groups → Action (Unit {0})
group_body sql cls s g =
    replace_relations sql (bulk_delete_by_storage (rel_of cls)) (λ e. bulk_create e (rel_of cls)) s
      g
    >> refresh sql (bulk_task (λ d i. err not_implemented) (kind_of cls)) s g.groups

sync_of-group :
    (sql : Engine) (driver : DriverApi) (cls : TaskClass) (s : ℕ)
    → is_group cls ≡ true
    → sync_of sql driver cls s
      ≡ handling swallow (lift (groups_of cls driver s) >>= group_body sql cls s)
unfolding sync_of storage_host_group_sync port_group_sync volume_group_sync
sync_of-group sql driver TaskClass.storage_host_group s h = refl
sync_of-group sql driver TaskClass.port_group s h = refl
sync_of-group sql driver TaskClass.volume_group s h = refl
sync_of-group sql driver cls s h = absurd (cc)

rel_of-other :
    (cls : TaskClass)
    → is_group cls ≡ true
    → (table_number (rel_of cls) == table_number (kind_of cls)) ≡ false
rel_of-other TaskClass.storage_host_group h = refl
rel_of-other TaskClass.port_group h = refl
rel_of-other TaskClass.volume_group h = refl
rel_of-other cls h = absurd (cc)

surviving_rows-nil : (s n : ℕ) (rows : List Row) → stored s (surviving_rows s [] rows) n ≡ false
surviving_rows-nil s n [] = refl
surviving_rows-nil s n (row ∷ rows) = ground (arith, surviving_rows-nil s n rows)

no_new_rows : (sql : Engine) (n : ℕ) → (resource_refs sql n []).0 ≡ []
unfolding resource_refs
no_new_rows sql n = refl

-- For an engine that issues no uuid twice and returns the rows that it selects, and a class of
-- groups: when the driver lists no group, when the ids in the table of groups are distinct, so are
-- the native ids of the storage's groups, and no uuid to come is an id in the table: after `sync`
-- the storage has no group left, and every relation between its groups and their members is still
-- in the database.
pub sync_of-keeps_relations :
    (sql : Engine) (driver : DriverApi) (cls : TaskClass) (s n : ℕ) (relations : List Resource)
    (d : Database)
    → IsEngine sql
    → is_group cls ≡ true
    → groups_of cls driver s ≡ ok (record { groups = []; relations = relations })
    → distinct (ids (d.table (kind_of cls))) ≡ true
    → distinct (native_ids (filter (of_storage s) (d.table (kind_of cls)))) ≡ true
    → IsFresh sql d.issued (d.table (kind_of cls))
    → let d' = (sync_of sql driver cls s d).1 in
      (stored s (d'.table (kind_of cls)) n ≡ false) × (d'.table (rel_of cls) ≡ d.table (rel_of cls))
unfolding refresh replace_relations
sync_of-keeps_relations sql driver cls s n relations d engine group listed unique unique_native
      fresh =
    let k = kind_of cls in
    let list = λ (x : DriverApi) (i : ℕ). err not_implemented in
    let w =
      refresh-Writes sql engine s [] (d.table k) unique unique_native refl list k d refl refl
        fresh in
    let step : sync_of sql driver cls s d
        ≡ handling swallow (refresh sql (bulk_task list k) s []) d =
      ap (λ m. m d) (sync_of-group sql driver cls s group)
      ∙ ap (λ r. handling swallow (lift r >>= group_body sql cls s) d) listed in
    (
      ap (λ p. stored s (p.1.table k) n) step
          ∙ ap (λ x. stored s x n)
              (w.written
                ∙ ap (λ x. surviving_rows s [] (d.table k) ++ x) (no_new_rows sql d.issued)
                ∙ append-nil (surviving_rows s [] (d.table k)))
          ∙ surviving_rows-nil s n (d.table k),
      ap (λ p. p.1.table (rel_of cls)) step ∙ w.others (rel_of cls) (rel_of-other cls group),
    )
