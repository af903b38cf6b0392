-- ===== src/Sync/Frame.antt =====
-- Which part of the database the tasks of delfin/task_manager/tasks/resources.py leave alone.
use delfin.Prelude.{ℕ, ◌≡◌, refl, ◌≢◌, ◌∙◌, Bool, true, false, List, arith}
use delfin.Errors.{Exception, Result, ok, err, not_implemented}
use delfin.Database.{
  Kind, Resource, Engine, Database, Action, ◌>>=◌, ◌>>◌, lift, when, bulk_get_all, bulk_delete,
  bulk_update, bulk_create, bulk_delete_by_storage,
}
use delfin.Sync.Task.{DriverApi, Groups, ResourceTask, handling, store, refresh, sync}
use delfin.Sync.Hosts.{
  swallow, replace_relations, storage_host_initiator_sync, storage_host_sync,
  storage_host_group_sync, port_group_sync, volume_group_sync, masking_view_sync,
}
use delfin.Sync.Manager.{TaskClass, sync_of}

-- The action leaves every storage as it is, also when it raises.
pub record KeepsStorages {A : Type 0} (m : Action A) : Type 0 where
  pub kept : (d : Database) → (m d).1.storages ≡ d.storages

>>=-KeepsStorages :
    {A B : Type 0} {m : Action A} {f : A → Action B}
    → KeepsStorages m
    → ((a : A) → KeepsStorages (f a))
    → KeepsStorages (m >>= f)
>>=-KeepsStorages {m} {f} km kf = record { kept = λ d. go d (m d).0 refl }
  where
    go : (d : Database) (r : Result _) → (m d).0 ≡ r → ((m >>= f) d).1.storages ≡ d.storages
    go d (ok a) e = rw (e, ◌>>=◌) ((kf a).kept (m d).1 ∙ km.kept d)
    go d (err x) e = rw (e, ◌>>=◌) (km.kept d)

when-KeepsStorages : (b : Bool) (m : Action (Unit {0})) → KeepsStorages m → KeepsStorages (when b m)
when-KeepsStorages true m k = k
when-KeepsStorages false m k = record { kept = λ d. refl }

lift-KeepsStorages : {A : Type 0} {r : Result A} → KeepsStorages (lift r)
lift-KeepsStorages = record { kept = λ d. refl }

-- The calls of a class, on its table.
abbrev pub bulk_task : (DriverApi → ℕ → Result (List Resource)) → Kind → ResourceTask
bulk_task list k = record {
  driver_list_resources = list;
  db_resource_get_all = λ sql. bulk_get_all sql k;
  db_resources_delete = bulk_delete k;
  db_resources_update = bulk_update k;
  db_resources_create = λ sql. bulk_create sql k;
  db_resource_delete_by_storage = bulk_delete_by_storage k;
}

bulk_get_all-KeepsStorages :
    (sql : Engine) (k : Kind) (s : ℕ) → KeepsStorages (bulk_get_all sql k s)
unfolding bulk_get_all
bulk_get_all-KeepsStorages sql k s = record { kept = λ d. refl }

bulk_delete-KeepsStorages : (k : Kind) (ids : List ℕ) → KeepsStorages (bulk_delete k ids)
unfolding bulk_delete
bulk_delete-KeepsStorages k ids = record { kept = λ d. refl }

bulk_update-KeepsStorages : (k : Kind) (rs : List Resource) → KeepsStorages (bulk_update k rs)
unfolding bulk_update
bulk_update-KeepsStorages k rs = record { kept = λ d. refl }

bulk_delete_by_storage-KeepsStorages :
    (k : Kind) (s : ℕ) → KeepsStorages (bulk_delete_by_storage k s)
unfolding bulk_delete_by_storage
bulk_delete_by_storage-KeepsStorages k s = record { kept = λ d. refl }

bulk_create_kept :
    (sql : Engine) (k : Kind) (rs : List Resource) (d : Database)
    → (bulk_create sql k rs d).1.storages ≡ d.storages
unfolding bulk_create
bulk_create_kept sql k rs d = ground arith

bulk_create-KeepsStorages :
    (sql : Engine) (k : Kind) (rs : List Resource) → KeepsStorages (bulk_create sql k rs)
bulk_create-KeepsStorages sql k rs = record { kept = bulk_create_kept sql k rs }

handling-KeepsStorages :
    (handler : Exception → Result (Unit {0})) (m : Action (Unit {0}))
    → KeepsStorages m
    → KeepsStorages (handling handler m)
handling-KeepsStorages handler m k = record { kept = k.kept }

ruleset frame = (
  >>=-KeepsStorages, when-KeepsStorages, lift-KeepsStorages, bulk_get_all-KeepsStorages,
  bulk_delete-KeepsStorages, bulk_update-KeepsStorages, bulk_create-KeepsStorages,
  bulk_delete_by_storage-KeepsStorages, handling-KeepsStorages,
)

refresh-KeepsStorages :
    (sql : Engine) (list : DriverApi → ℕ → Result (List Resource)) (k : Kind) (s : ℕ)
    (rs : List Resource)
    → KeepsStorages (refresh sql (bulk_task list k) s rs)
unfolding refresh store
refresh-KeepsStorages sql list k s rs = search frame depth 9

sync-KeepsStorages :
    (sql : Engine) (driver : DriverApi) (list : DriverApi → ℕ → Result (List Resource)) (k : Kind)
    (s : ℕ)
    → KeepsStorages (sync sql driver (bulk_task list k) s)
unfolding sync
sync-KeepsStorages sql driver list k s = search (frame, refresh-KeepsStorages) depth 9

replace_relations-KeepsStorages :
    (sql : Engine) (k : Kind) (s : ℕ) (g : Groups)
    → KeepsStorages (replace_relations sql (bulk_delete_by_storage k) (λ e. bulk_create e k) s g)
unfolding replace_relations
replace_relations-KeepsStorages sql k s g = search frame depth 9

-- The `sync` of the three classes of groups, over its tables.
group_sync-KeepsStorages :
    (sql : Engine) (answer : Result Groups) (k rel : Kind) (s : ℕ)
    → KeepsStorages (
        handling swallow (do
          g ← lift answer
          replace_relations sql (bulk_delete_by_storage rel) (λ e. bulk_create e rel) s g
          refresh sql (bulk_task (λ d i. err not_implemented) k) s g.groups))
group_sync-KeepsStorages sql answer k rel s = handling-KeepsStorages swallow _ (
    >>=-KeepsStorages lift-KeepsStorages λ g.
      >>=-KeepsStorages (replace_relations-KeepsStorages sql rel s g)
        λ _. refresh-KeepsStorages sql (λ d i. err not_implemented) k s g.groups)

storage_host_initiator_sync-KeepsStorages :
    (sql : Engine) (driver : DriverApi) (s : ℕ)
    → KeepsStorages (storage_host_initiator_sync sql driver s)
unfolding storage_host_initiator_sync
storage_host_initiator_sync-KeepsStorages sql driver s =
    search
      (
        frame,
        λ (rs : List Resource).
            refresh-KeepsStorages sql (λ d. d.list_storage_host_initiators) Kind.host_initiator s
              rs,
      )
      depth 9

storage_host_sync-KeepsStorages :
    (sql : Engine) (driver : DriverApi) (s : ℕ) → KeepsStorages (storage_host_sync sql driver s)
unfolding storage_host_sync
storage_host_sync-KeepsStorages sql driver s =
    search
      (
        frame,
        λ (rs : List Resource).
            refresh-KeepsStorages sql (λ d. d.list_storage_hosts) Kind.host s rs,
      )
      depth 9

masking_view_sync-KeepsStorages :
    (sql : Engine) (driver : DriverApi) (s : ℕ) → KeepsStorages (masking_view_sync sql driver s)
unfolding masking_view_sync
masking_view_sync-KeepsStorages sql driver s =
    search
      (
        frame,
        λ (rs : List Resource).
            refresh-KeepsStorages sql (λ d. d.list_masking_views) Kind.masking_view s rs,
      )
      depth 9

storage_host_group_sync-KeepsStorages :
    (sql : Engine) (driver : DriverApi) (s : ℕ)
    → KeepsStorages (storage_host_group_sync sql driver s)
unfolding storage_host_group_sync
storage_host_group_sync-KeepsStorages sql driver s =
    group_sync-KeepsStorages sql (driver.list_storage_host_groups s) Kind.host_group
      Kind.host_grp_host_rel s

port_group_sync-KeepsStorages :
    (sql : Engine) (driver : DriverApi) (s : ℕ) → KeepsStorages (port_group_sync sql driver s)
unfolding port_group_sync
port_group_sync-KeepsStorages sql driver s =
    group_sync-KeepsStorages sql (driver.list_port_groups s) Kind.port_group Kind.port_grp_port_rel
      s

volume_group_sync-KeepsStorages :
    (sql : Engine) (driver : DriverApi) (s : ℕ) → KeepsStorages (volume_group_sync sql driver s)
unfolding volume_group_sync
volume_group_sync-KeepsStorages sql driver s =
    group_sync-KeepsStorages sql (driver.list_volume_groups s) Kind.volume_group
      Kind.vol_grp_vol_rel s

-- The `sync` of any class but `StorageDeviceTask` leaves every storage as it is, also when it raises.
pub sync_of-KeepsStorages :
    (sql : Engine) (driver : DriverApi) (cls : TaskClass) (s : ℕ)
    → cls ≢ TaskClass.storage_device
    → KeepsStorages (sync_of sql driver cls s)
unfolding sync_of
sync_of-KeepsStorages sql driver TaskClass.storage_device s h = absurd (h refl)
sync_of-KeepsStorages sql driver TaskClass.storage_pool s h =
    sync-KeepsStorages sql driver (λ d. d.list_storage_pools) Kind.storage_pool s
sync_of-KeepsStorages sql driver TaskClass.storage_volume s h =
    sync-KeepsStorages sql driver (λ d. d.list_volumes) Kind.volume s
sync_of-KeepsStorages sql driver TaskClass.storage_controller s h =
    sync-KeepsStorages sql driver (λ d. d.list_controllers) Kind.controller s
sync_of-KeepsStorages sql driver TaskClass.storage_port s h =
    sync-KeepsStorages sql driver (λ d. d.list_ports) Kind.port s
sync_of-KeepsStorages sql driver TaskClass.storage_disk s h =
    sync-KeepsStorages sql driver (λ d. d.list_disks) Kind.disk s
sync_of-KeepsStorages sql driver TaskClass.storage_quota s h =
    sync-KeepsStorages sql driver (λ d. d.list_quotas) Kind.quota s
sync_of-KeepsStorages sql driver TaskClass.storage_filesystem s h =
    sync-KeepsStorages sql driver (λ d. d.list_filesystems) Kind.filesystem s
sync_of-KeepsStorages sql driver TaskClass.storage_qtree s h =
    sync-KeepsStorages sql driver (λ d. d.list_qtrees) Kind.qtree s
sync_of-KeepsStorages sql driver TaskClass.storage_share s h =
    sync-KeepsStorages sql driver (λ d. d.list_shares) Kind.share s
sync_of-KeepsStorages sql driver TaskClass.storage_host_initiator s h =
    storage_host_initiator_sync-KeepsStorages sql driver s
sync_of-KeepsStorages sql driver TaskClass.storage_host s h =
    storage_host_sync-KeepsStorages sql driver s
sync_of-KeepsStorages sql driver TaskClass.storage_host_group s h =
    storage_host_group_sync-KeepsStorages sql driver s
sync_of-KeepsStorages sql driver TaskClass.port_group s h =
    port_group_sync-KeepsStorages sql driver s
sync_of-KeepsStorages sql driver TaskClass.volume_group s h =
    volume_group_sync-KeepsStorages sql driver s
sync_of-KeepsStorages sql driver TaskClass.masking_view s h =
    masking_view_sync-KeepsStorages sql driver s
