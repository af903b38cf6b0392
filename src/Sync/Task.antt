-- ===== src/Sync/Task.antt =====
-- `StorageResourceTask` of delfin/task_manager/tasks/resources.py: the methods that a class of
-- resources fills in, `sync` over them, and the decorators `set_synced_after` and `check_deleted`.
-- The lock of `set_synced_after` makes its last part one step; `context.read_deleted` is an argument.
use delfin.Prelude.{ℕ, Bool, true, false, not, List, [], ◌∷◌}
use delfin.Prelude.Int.{pos, ◌-ℤ◌, eqb_ℤ}
use delfin.Errors.{Exception, Result, ok, err, not_implemented}
use delfin.Database.{
  Columns, Resource, Row, Engine, Storage, Action, ◌>>=◌, ◌>>◌, lift, when, storage_get,
  storage_update,
}
use delfin.Sync.Classify.{Classified, classify_resources}

-- What the drivers answer; a group comes with the relations to its members.
pub record Groups : Type 0 where
  pub groups : List Resource
  pub relations : List Resource

-- `delfin.drivers.api.API`, as far as the tasks call it: which driver answers and what is outside.
pub record DriverApi : Type 0 where
  pub get_storage : ℕ → Result Columns
  pub list_storage_pools : ℕ → Result (List Resource)
  pub list_volumes : ℕ → Result (List Resource)
  pub list_controllers : ℕ → Result (List Resource)
  pub list_ports : ℕ → Result (List Resource)
  pub list_disks : ℕ → Result (List Resource)
  pub list_quotas : ℕ → Result (List Resource)
  pub list_filesystems : ℕ → Result (List Resource)
  pub list_qtrees : ℕ → Result (List Resource)
  pub list_shares : ℕ → Result (List Resource)
  pub list_storage_host_initiators : ℕ → Result (List Resource)
  pub list_storage_hosts : ℕ → Result (List Resource)
  pub list_masking_views : ℕ → Result (List Resource)
  pub list_storage_host_groups : ℕ → Result Groups
  pub list_port_groups : ℕ → Result Groups
  pub list_volume_groups : ℕ → Result Groups

-- The methods that a class of resources overrides.
pub record ResourceTask : Type 0 where
  pub driver_list_resources : DriverApi → ℕ → Result (List Resource)
  pub db_resource_get_all : Engine → ℕ → Action (List Row)
  pub db_resources_delete : List ℕ → Action (Unit {0})
  pub db_resources_update : List Resource → Action (Unit {0})
  pub db_resources_create : Engine → List Resource → Action (Unit {0})
  pub db_resource_delete_by_storage : ℕ → Action (Unit {0})

-- A class that overrides none of them.
abbrev pub abstract_task : ResourceTask
abstract_task = record {
  driver_list_resources = λ driver s. err not_implemented;
  db_resource_get_all = λ sql s. lift (err not_implemented);
  db_resources_delete = λ ids. lift (err not_implemented);
  db_resources_update = λ rs. lift (err not_implemented);
  db_resources_create = λ sql rs. lift (err not_implemented);
  db_resource_delete_by_storage = λ s. lift (err not_implemented);
}

abbrev pub not_empty {ℓ} : {A : Type ℓ} → List A → Bool
not_empty [] = false
not_empty (x ∷ xs) = true

-- The three calls that follow the classification, each only for a list with something in it.
unfoldable pub store : Engine → ResourceTask → Classified → Action (Unit {0})
store sql task c = do
  when (not_empty c.delete_id_list) (task.db_resources_delete c.delete_id_list)
  when (not_empty c.update_list) (task.db_resources_update c.update_list)
  when (not_empty c.add_list) (task.db_resources_create sql c.add_list)

-- The body of `sync` once the driver has answered.
unfoldable pub refresh : Engine → ResourceTask → ℕ → List Resource → Action (Unit {0})
refresh sql task s storage_resources = do
  db_resources ← task.db_resource_get_all sql s
  c ← lift (classify_resources storage_resources db_resources)
  store sql task c

-- `except NotImplementedError: pass`, and `raise` for any other exception.
abbrev pub pass_not_implemented : Exception → Result (Unit {0})
pass_not_implemented e = elim e [ not_implemented ↦ ok tt | other ↦ err other ]

abbrev pub handled : (Exception → Result (Unit {0})) → Result (Unit {0}) → Result (Unit {0})
handled handler (ok _) = ok tt
handled handler (err e) = handler e

-- `try: m except ...`
abbrev pub handling : (Exception → Result (Unit {0})) → Action (Unit {0}) → Action (Unit {0})
handling handler m d = let (r, d') = m d in (handled handler r, d')

-- `StorageResourceTask.sync`, without its decorators.
unfoldable pub sync : Engine → DriverApi → ResourceTask → ℕ → Action (Unit {0})
sync sql driver task s = handling pass_not_implemented (do
  storage_resources ← lift (task.driver_list_resources driver s)
  refresh sql task s storage_resources)

-- `constants.ResourceSync`
abbrev pub start_units : ℕ
start_units = 100

abbrev pub sync_result : Result (Unit {0}) → ℕ
sync_result (ok _) = 100
sync_result (err _) = 101

-- The part of `set_synced_after` under the lock: one task is done.
unfoldable pub count_down : ℕ → Storage → ℕ → Action (Unit {0})
count_down s storage result =
    when (not (eqb_ℤ storage.sync_status (pos 0)))
      (storage_update false s (λ st. record st { sync_status = storage.sync_status -ℤ pos result }))

abbrev counted : ℕ → ℕ → Result Storage → Action (Unit {0})
counted s result (ok storage) = count_down s storage result
counted s result (err e) = lift (ok tt)

unfoldable pub task_done : ℕ → ℕ → Action (Unit {0})
task_done s result d = let (r, d') = storage_get false s d in counted s result r d'

-- An exception of the task is swallowed; it only changes what is counted.
unfoldable pub set_synced_after : ℕ → Action (Unit {0}) → Action (Unit {0})
set_synced_after s func d = let (r, d') = func d in task_done s (sync_result r) d'

abbrev removed : Action (Unit {0}) → Result Storage → Action (Unit {0})
removed remove (ok storage) = remove
removed remove (err e) = lift (ok tt)

-- After the task a storage that is soft deleted loses the resources again.
unfoldable pub check_deleted :
    ℕ → (Bool → Action (Unit {0})) → Action (Unit {0}) → Action (Unit {0})
check_deleted s remove func = do
  func
  λ d. let (r, d') = storage_get true s d in removed (remove true) r d'
