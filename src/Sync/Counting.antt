-- ===== src/Sync/Counting.antt =====
-- `sync_status` of a storage through the calls of delfin/task_manager/tasks/resources.py.
use delfin.Prelude.{
  ℕ, ◌≡◌, refl, sym, subst, ◌∙◌, Bool, true, false, not, Option, none, some, List, [], ◌∷◌, arith,
  if◌then◌else◌,
}
use delfin.Prelude.Int.{ℤ, pos, ◌-ℤ◌, eqb_ℤ}
use delfin.Errors.{Result, ok, err}
use delfin.Database.{
  Engine, Database, Storage, Columns, Action, when, merge, find_storage, update_storages,
  storage_get, storage_update,
}
use delfin.Sync.Task.{
  DriverApi, count_down, task_done, set_synced_after, check_deleted, sync_result,
}
use delfin.Sync.Manager.{TaskClass, sync_of, remove_of, sync_storage_resource, storage_device_sync}
use delfin.Sync.Frame.{KeepsStorages, sync_of-KeepsStorages}

-- The storage as `storage_get` finds it, by its `sync_status`.
abbrev pub status_in : Option Storage → Option ℤ
status_in none = none
status_in (some st) = some st.sync_status

-- The storage is in the database, is not soft deleted, and has this `sync_status`.
pub record Counting (s : ℕ) (v : ℤ) (d : Database) : Type 0 where
  pub status : status_in (find_storage false s d.storages) ≡ some v
  pub alive : find_storage true s d.storages ≡ none

abbrev pub KeepsKey : (Storage → Storage) → Type 0
KeepsKey f = (st : Storage) → ((f st).id ≡ st.id) × ((f st).deleted ≡ st.deleted)

abbrev mapped : (Storage → Storage) → ℕ → Option Storage → Option Storage
mapped f now none = none
mapped f now (some st) = some (record (f st) { updated_at = some now })

find_storage-update :
    (s now : ℕ) (f : Storage → Storage) (sts : List Storage)
    → KeepsKey f
    → (find_storage false s (update_storages false s now f sts)
        ≡ mapped f now (find_storage false s sts))
      × (find_storage true s (update_storages false s now f sts) ≡ find_storage true s sts)
unfolding find_storage
find_storage-update s now f [] h = (refl, refl)
find_storage-update s now f (st ∷ sts) h =
    let key = h st in let rest = find_storage-update s now f sts h in ground arith

abbrev pub set_status : ℤ → Storage → Storage
set_status v st = record st { sync_status = v }

pub status_found :
    (o : Option Storage) (v : ℤ)
    → status_in o ≡ some v
    → (st : Storage) × (o ≡ some st) × (st.sync_status ≡ v)
status_found none v e = absurd (cc)
status_found (some st) v e = (st, refl, ground arith)

pub storage_update-Counting :
    (s : ℕ) (f : Storage → Storage) (v w : ℤ) (d : Database)
    → KeepsKey f
    → ((st : Storage) → st.sync_status ≡ v → (f st).sync_status ≡ w)
    → Counting s v d
    → Counting s w (storage_update false s f d).1
unfolding storage_update
storage_update-Counting s f v w d key writes c =
    let (live, dead) = find_storage-update s d.now f d.storages key in
    let (st, e, q) = status_found (find_storage false s d.storages) v c.status in
    record { status = rw (live, e, writes st q); alive = dead ∙ c.alive }

-- One task is counted down, unless the storage counts as synced.
count_down-Counting :
    (s result : ℕ) (st : Storage) (d : Database) (b : Bool)
    → eqb_ℤ st.sync_status (pos 0) ≡ b
    → Counting s st.sync_status d
    → Counting s
        (if b then st.sync_status else st.sync_status -ℤ pos result)
        (count_down s st result d).1
unfolding count_down
count_down-Counting s result st d true synced c =
    subst
      (λ t.
        Counting s st.sync_status
          ((when (not t) (storage_update false s (set_status (st.sync_status -ℤ pos result)))) d).1)
      (sym synced) c
count_down-Counting s result st d false running c =
    subst
      (λ t.
        Counting s (st.sync_status -ℤ pos result)
          ((when (not t) (storage_update false s (set_status (st.sync_status -ℤ pos result)))) d).1)
      (sym running)
      (storage_update-Counting s (set_status (st.sync_status -ℤ pos result)) st.sync_status
        (st.sync_status -ℤ pos result) d (λ x. (refl, refl)) (λ x e. refl) c)

task_done-Counting :
    (s result : ℕ) (v : ℤ) (d : Database)
    → Counting s v d
    → Counting s (if eqb_ℤ v (pos 0) then v else v -ℤ pos result) (task_done s result d).1
unfolding task_done storage_get
task_done-Counting s result v d c =
    let (st, e, q) = status_found (find_storage false s d.storages) v c.status in
    rw (e, task_done)
      (subst
        (λ w.
          Counting s w d
          → Counting s (if eqb_ℤ w (pos 0) then w else w -ℤ pos result)
              (count_down s st result d).1)
        q (count_down-Counting s result st d (eqb_ℤ st.sync_status (pos 0)) refl) c)

device-Counting :
    (driver : DriverApi) (s : ℕ) (v : ℤ) (d : Database)
    → Counting s v d
    → Counting s v (storage_device_sync driver s d).1
unfolding storage_device_sync
device-Counting driver s v d c = answered (driver.get_storage s) refl
  where
    answered :
        (r : Result Columns)
        → driver.get_storage s ≡ r
        → Counting s v (storage_device_sync driver s d).1
    answered (ok values) e =
        rw (e, storage_device_sync)
          (storage_update-Counting s (λ st. record st { columns = merge values st.columns }) v v d
            (λ st. (refl, refl)) (λ st q. q) c)
    answered (err x) e = rw (e, storage_device_sync) c

KeepsStorages-Counting :
    {m : Action (Unit {0})}
    → KeepsStorages m
    → (s : ℕ) (v : ℤ) (d : Database) → Counting s v d
    → Counting s v (m d).1
KeepsStorages-Counting k s v d c = record {
  status = rw (k.kept d) c.status;
  alive = rw (k.kept d) c.alive;
}

-- The body of a task leaves the count alone.
sync_of-Counting :
    (sql : Engine) (driver : DriverApi) (cls : TaskClass) (s : ℕ) (v : ℤ) (d : Database)
    → Counting s v d
    → Counting s v (sync_of sql driver cls s d).1
unfolding sync_of
sync_of-Counting sql driver TaskClass.storage_device s v d c = device-Counting driver s v d c
sync_of-Counting sql driver cls s v d c =
    KeepsStorages-Counting (sync_of-KeepsStorages sql driver cls s (λ e. cc)) s v d c

-- The count after one task of any class, by how its body ended.
abbrev pub counted_down : ℤ → Result (Unit {0}) → ℤ
counted_down v r = if eqb_ℤ v (pos 0) then v else v -ℤ pos (sync_result r)

task_done_ok : (s result : ℕ) (d : Database) → (task_done s result d).0 ≡ ok tt
unfolding task_done storage_get count_down storage_update
task_done_ok s result d = ground arith

-- A storage that is not soft deleted loses nothing after a task.
check_deleted_alive :
    (s : ℕ) (remove : Bool → Action (Unit {0})) (func : Action (Unit {0})) (d : Database)
    → (func d).0 ≡ ok tt
    → find_storage true s (func d).1.storages ≡ none
    → check_deleted s remove func d ≡ (ok tt, (func d).1)
unfolding check_deleted storage_get
check_deleted_alive s remove func d done alive = ground arith

-- A task of any class on a storage that is not soft deleted, whatever the driver answers: the
-- storage stays, and its count goes down by 100 if the body raised nothing and by 101 if it raised,
-- except that a count of 0 stays 0.
pub sync_storage_resource-Counting :
    (sql : Engine) (driver : DriverApi) (cls : TaskClass) (s : ℕ) (v : ℤ) (d : Database)
    → Counting s v d
    → Counting s
        (counted_down v (sync_of sql driver cls s d).0)
        (sync_storage_resource sql driver s cls d).1
unfolding sync_storage_resource set_synced_after
sync_storage_resource-Counting sql driver cls s v d c =
    let (r, d') = sync_of sql driver cls s d in
    let after =
      task_done-Counting s (sync_result r) v d' (sync_of-Counting sql driver cls s v d c) in
    rw
      (check_deleted_alive s (λ b. remove_of cls b s)
        (set_synced_after s (sync_of sql driver cls s)) d (task_done_ok s (sync_result r) d')
        after.alive)
      after
