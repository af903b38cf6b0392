-- ===== src/Sync/Mirror.antt =====
-- `StorageResourceTask.sync` of delfin/task_manager/tasks/resources.py against what it is for: the
-- rows of the storage become the resources that its driver lists.
pub mod Store
pub mod Rows
pub mod Expected
pub mod Listed
use delfin.Prelude.{
  ℕ, ◌≡◌, refl, sym, ap, ap₂, fun_ext, ◌∙◌, Bool, true, false, not, ◌&&◌, ◌||◌, Option, none, some,
  List, [], ◌∷◌, ◌++◌, map, arith, elem, distinct, filter, ◌==◌, ==_refl, Bool-cases, inl, inr,
  if◌then◌else◌,
}
use mathlib.Core.List.{append-nil}
use delfin.Errors.{Exception, Result, ok, err, not_implemented}
use delfin.Database.{
  Row, Resource, Engine, IsEngine, Kind, table_number, Database, Action, lift, ◌>>=◌, ◌>>◌, when,
  bulk_delete, bulk_update, bulk_create, bulk_get_all, ids, native_ids, resource_native_ids,
  of_storage, resources_get_all, resources_delete, resources_update, resource_refs,
  resources_create,
}
use delfin.Database.Permuted.{distinct-Perm, elem-Perm, map-filter_congr, find_row}
use delfin.Database.Bulk.{
  update_all, resources_delete-filter, resources_update-map, unidentified, unidentified-filter,
  IsFresh, resource_refs-distinct, unlisted_id,
}
use delfin.Database.Lookup.{elem-ids-filter}
use delfin.Sync.Classify.{Classified, classify_resources}
use delfin.Sync.Classify.Partition.{
  present, absent, identified, unlisted, classify_resources-partition,
}
use delfin.Sync.Task.{DriverApi, not_empty, store, refresh}
use delfin.Sync.Frame.{bulk_task}
use delfin.Sync.Matching.{find_resource, rewritten, has_id-row, elem-deleted, update_all-rewritten}
use delfin.Sync.Task.{handling, handled, sync, pass_not_implemented}
use delfin.Sync.Mirror.Expected.{
  expected_row, expected_new, refreshed-expected, resource_refs-expected,
}
use delfin.Sync.Mirror.Store.{Writes, >>=-ok, store-Writes}
use delfin.Sync.Mirror.Rows.{
  surviving_rows, survives, refreshed, bulk_rows, own_rows, selection, selection-distinct,
  selection-distinct_native, ids-map, refreshed_id, distinct-filter, distinct-filter_resources,
}
use delfin.Database.Lookup.{elem-ids-filter}
use delfin.Sync.Manager.{TaskClass, sync_of}
use delfin.Sync.Hosts.{storage_host_initiator_sync, storage_host_sync, masking_view_sync, swallow}

-- A resource that the storage has no row for.
abbrev pub unknown : ℕ → List Row → Resource → Bool
unknown s rows = absent (filter (of_storage s) rows)

-- The rows that are created for them, and the number of uuids issued after that.
abbrev pub new_rows : Engine → ℕ → ℕ → List Resource → List Row → List Row × ℕ
new_rows sql issued s rs rows = resource_refs sql issued (filter (unknown s rows) rs)

module _ (sql : Engine) (engine : IsEngine sql) (s : ℕ) (rs : List Resource) (rows : List Row)
    (unique : distinct (ids rows) ≡ true)
    (unique_native : distinct (native_ids (filter (of_storage s) rows)) ≡ true)
    (unique_listed : distinct (resource_native_ids rs) ≡ true) where
  same_unknown : absent (selection sql s rows) ≡ unknown s rows
  same_unknown = fun_ext (λ r. ap not (
      elem-Perm r.native_id (λ row. row.native_id) (selection sql s rows) (own_rows s rows)
        (engine.permutes (own_rows s rows))))

  classified :
      classify_resources rs (selection sql s rows)
      ≡ ok (record {
        add_list = filter (absent (selection sql s rows)) rs;
        update_list =
            map (identified (selection sql s rows)) (filter (present (selection sql s rows)) rs);
        delete_id_list = ids (filter (λ row. unlisted rs row.native_id) (selection sql s rows));
      })
  classified =
      classify_resources-partition rs (selection sql s rows)
        (selection-distinct sql engine s rs rows unique unique_native unique_listed)
        (selection-distinct_native sql engine s rs rows unique unique_native unique_listed)
      ∙ rw (distinct-filter_resources (present (selection sql s rows)) rs unique_listed) refl

  pub refresh-Writes :
      (list : DriverApi → ℕ → Result (List Resource)) (k : Kind) (d : Database)
      → d.table k ≡ rows
      → unidentified rs ≡ true
      → IsFresh sql d.issued rows
      → Writes k
          (refresh sql (bulk_task list k) s rs)
          d
          (surviving_rows s rs rows ++ (new_rows sql d.issued s rs rows).0)
          (new_rows sql d.issued s rs rows).1
  unfolding refresh bulk_get_all resources_get_all
  refresh-Writes list k d here new fresh =
      let c : Classified = record {
        add_list = filter (unknown s rows) rs;
        update_list =
            map (identified (selection sql s rows)) (filter (present (selection sql s rows)) rs);
        delete_id_list = ids (filter (λ row. unlisted rs row.native_id) (selection sql s rows));
      } in
      let sorted : classify_resources rs (selection sql s rows) ≡ ok c =
        classified ∙ ap (λ p. ok (record c { add_list = filter p rs })) same_unknown in
      let kept =
        ap (λ x. resources_update c.update_list (resources_delete c.delete_id_list x)) here
        ∙ bulk_rows sql engine s rs rows unique unique_native unique_listed in
      let kept_ids = ids-map (refreshed s rs) (filter (survives s rs) rows) (refreshed_id s rs) in
      let stored = store-Writes sql list k c d (surviving_rows s rs rows) kept (
        resource_refs-distinct sql engine d.issued c.add_list (surviving_rows s rs rows)
          (unidentified-filter (unknown s rows) rs new)
          (ap distinct kept_ids ∙ distinct-filter (survives s rs) rows unique)
          (λ n h.
            ap (elem (sql.uuid n)) kept_ids
            ∙ elem-ids-filter (sql.uuid n) (survives s rs) rows (fresh n h))) in
      let step : refresh sql (bulk_task list k) s rs d ≡ store sql (bulk_task list k) c d =
        ap
          (λ x.
            (lift (classify_resources rs (selection sql s x)) >>= store sql (bulk_task list k)) d)
          here
        ∙ ap (λ r. (lift r >>= store sql (bulk_task list k)) d) sorted in
      record {
        done = ap (λ p. p.0) step ∙ stored.done;
        written = ap (λ p. p.1.table k) step ∙ stored.written;
        others = λ j e. ap (λ p. p.1.table j) step ∙ stored.others j e;
        uuids = ap (λ p. p.1.issued) step ∙ stored.uuids;
      }

-- The classes that fill one table with a plain list of the driver: all but the storage device and
-- the three classes of groups.
abbrev pub is_single : TaskClass → Bool
is_single cls = elim cls [
  | TaskClass.storage_device ↦ false
  | TaskClass.storage_host_group ↦ false
  | TaskClass.port_group ↦ false
  | TaskClass.volume_group ↦ false
  | _ ↦ true
]

abbrev pub kind_of : TaskClass → Kind
kind_of TaskClass.storage_device = Kind.storage_pool
kind_of TaskClass.storage_pool = Kind.storage_pool
kind_of TaskClass.storage_volume = Kind.volume
kind_of TaskClass.storage_controller = Kind.controller
kind_of TaskClass.storage_port = Kind.port
kind_of TaskClass.storage_disk = Kind.disk
kind_of TaskClass.storage_quota = Kind.quota
kind_of TaskClass.storage_filesystem = Kind.filesystem
kind_of TaskClass.storage_qtree = Kind.qtree
kind_of TaskClass.storage_share = Kind.share
kind_of TaskClass.storage_host_initiator = Kind.host_initiator
kind_of TaskClass.storage_host = Kind.host
kind_of TaskClass.storage_host_group = Kind.host_group
kind_of TaskClass.port_group = Kind.port_group
kind_of TaskClass.volume_group = Kind.volume_group
kind_of TaskClass.masking_view = Kind.masking_view

abbrev pub list_of : TaskClass → DriverApi → ℕ → Result (List Resource)
list_of TaskClass.storage_pool driver = driver.list_storage_pools
list_of TaskClass.storage_volume driver = driver.list_volumes
list_of TaskClass.storage_controller driver = driver.list_controllers
list_of TaskClass.storage_port driver = driver.list_ports
list_of TaskClass.storage_disk driver = driver.list_disks
list_of TaskClass.storage_quota driver = driver.list_quotas
list_of TaskClass.storage_filesystem driver = driver.list_filesystems
list_of TaskClass.storage_qtree driver = driver.list_qtrees
list_of TaskClass.storage_share driver = driver.list_shares
list_of TaskClass.storage_host_initiator driver = driver.list_storage_host_initiators
list_of TaskClass.storage_host driver = driver.list_storage_hosts
list_of TaskClass.masking_view driver = driver.list_masking_views
list_of _ driver = λ s. err not_implemented

-- The common form of their `sync`.
abbrev single_sync :
    Engine → DriverApi → TaskClass → ℕ → (Exception → Result (Unit {0})) → Action (Unit {0})
single_sync sql driver cls s handler =
    handling handler
      (lift (list_of cls driver s) >>= refresh sql (bulk_task (list_of cls) (kind_of cls)) s)

sync_of-single :
    (sql : Engine) (driver : DriverApi) (cls : TaskClass) (s : ℕ)
    → is_single cls ≡ true
    → (handler : Exception → Result (Unit {0})) × (sync_of sql driver cls s
        ≡ single_sync sql driver cls s handler)
unfolding sync_of sync storage_host_initiator_sync storage_host_sync masking_view_sync
sync_of-single sql driver TaskClass.storage_pool s h = (pass_not_implemented, refl)
sync_of-single sql driver TaskClass.storage_volume s h = (pass_not_implemented, refl)
sync_of-single sql driver TaskClass.storage_controller s h = (pass_not_implemented, refl)
sync_of-single sql driver TaskClass.storage_port s h = (pass_not_implemented, refl)
sync_of-single sql driver TaskClass.storage_disk s h = (pass_not_implemented, refl)
sync_of-single sql driver TaskClass.storage_quota s h = (pass_not_implemented, refl)
sync_of-single sql driver TaskClass.storage_filesystem s h = (pass_not_implemented, refl)
sync_of-single sql driver TaskClass.storage_qtree s h = (pass_not_implemented, refl)
sync_of-single sql driver TaskClass.storage_share s h = (pass_not_implemented, refl)
sync_of-single sql driver TaskClass.storage_host_initiator s h = (swallow, refl)
sync_of-single sql driver TaskClass.storage_host s h = (swallow, refl)
sync_of-single sql driver TaskClass.masking_view s h = (swallow, refl)
sync_of-single sql driver cls s h = absurd (cc)

pub sync_of-rewrites :
    (sql : Engine) (driver : DriverApi) (cls : TaskClass) (s : ℕ) (rs : List Resource)
    (d : Database)
    → IsEngine sql
    → is_single cls ≡ true
    → list_of cls driver s ≡ ok rs
    → unidentified rs ≡ true
    → distinct (resource_native_ids rs) ≡ true
    → distinct (ids (d.table (kind_of cls))) ≡ true
    → distinct (native_ids (filter (of_storage s) (d.table (kind_of cls)))) ≡ true
    → IsFresh sql d.issued (d.table (kind_of cls))
    → let rows = d.table (kind_of cls) in
      let (r, d') = sync_of sql driver cls s d in
      (r ≡ ok tt)
      × (d'.table (kind_of cls)
          ≡ map (refreshed s rs) (filter (survives s rs) rows)
            ++ (new_rows sql d.issued s rs rows).0)
      × ((j : Kind)
          → (table_number j == table_number (kind_of cls)) ≡ false
          → d'.table j ≡ d.table j)
sync_of-rewrites sql driver cls s rs d engine single listed new unique_listed unique unique_native
      fresh =
    let k = kind_of cls in
    let (handler, form) = sync_of-single sql driver cls s single in
    let w =
      refresh-Writes sql engine s rs (d.table k) unique unique_native unique_listed (list_of cls) k
        d refl new fresh in
    let step : sync_of sql driver cls s d
        ≡ handling handler (refresh sql (bulk_task (list_of cls) k) s rs) d =
      ap (λ m. m d) form
      ∙ ap (λ r. handling handler (lift r >>= refresh sql (bulk_task (list_of cls) k) s) d)
          listed in
    (
      ap (λ p. p.0) step ∙ ap (handled handler) w.done,
      ap (λ p. p.1.table k) step ∙ w.written,
      λ j e. ap (λ p. p.1.table j) step ∙ w.others j e,
    )

-- For an engine that issues no uuid twice and returns the rows that it selects, and a class that
-- fills one table: when the driver answers, with no id in its answer and no
-- native id twice, when the ids in the table are distinct, so are the native ids of the storage's
-- rows, and no uuid to come is an id in the table: `sync` raises nothing; the table then has its
-- rows in their old order, without those of the storage that are no longer listed, each other row
-- of the storage under its id with the columns that the driver gives for its native id, and its old
-- ones where the driver gives none, and the rows of other storages as they were; behind them come
-- the resources that the storage had no row for, with their columns and under the next uuids; and no
-- other table is changed.
pub sync_of-mirrors :
    (sql : Engine) (driver : DriverApi) (cls : TaskClass) (s : ℕ) (rs : List Resource)
    (d : Database)
    → IsEngine sql
    → is_single cls ≡ true
    → list_of cls driver s ≡ ok rs
    → unidentified rs ≡ true
    → distinct (resource_native_ids rs) ≡ true
    → distinct (ids (d.table (kind_of cls))) ≡ true
    → distinct (native_ids (filter (of_storage s) (d.table (kind_of cls)))) ≡ true
    → IsFresh sql d.issued (d.table (kind_of cls))
    → let rows = d.table (kind_of cls) in
      let (r, d') = sync_of sql driver cls s d in
      (r ≡ ok tt)
      × (d'.table (kind_of cls)
          ≡ map (expected_row s rs) (filter (survives s rs) rows)
            ++ expected_new sql d.issued (filter (unknown s rows) rs))
      × ((j : Kind)
          → (table_number j == table_number (kind_of cls)) ≡ false
          → d'.table j ≡ d.table j)
sync_of-mirrors sql driver cls s rs d engine single listed new unique_listed unique unique_native
      fresh =
    let rows = d.table (kind_of cls) in
    let (done, table, others) =
      sync_of-rewrites sql driver cls s rs d engine single listed new unique_listed unique
        unique_native fresh in
    let created =
      resource_refs-expected sql d.issued (filter (unknown s rows) rs)
        (unidentified-filter (unknown s rows) rs new) in
    (
      done,
      table
          ∙ ap₂ (λ f refs. map f (filter (survives s rs) rows) ++ refs) (refreshed-expected s rs)
              created,
      others,
    )
