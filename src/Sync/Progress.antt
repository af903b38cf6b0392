-- ===== src/Sync/Progress.antt =====
-- The protocol of `sync_status` between delfin/api/v1/storages.py, which starts a
-- synchronization, and the tasks of delfin/task_manager/tasks/resources.py, which count it down.
use delfin.Prelude.{
  ℕ, ◌+◌, ◌*◌, ◌≤◌, ◌≡◌, refl, true, false, ap, ap₂, subst, ◌∙◌, Bool, ◌&&◌, List, [], ◌∷◌, arith,
  length, ltb, ◌==◌,
}
use delfin.Prelude.Int.{ℤ, pos, sub_ℕ, ltb_ℤ, eqb_ℤ, ◌-ℤ◌}
use delfin.Errors.{Result, ok, err}
use delfin.Database.{Engine, Database, Storage, find_storage, storage_get}
use delfin.Sync.Task.{DriverApi, start_units}
use delfin.Sync.Manager.{TaskClass, sync_of, sync_storage_resource}
use delfin.Sync.Request.{set_synced_if_ok, start_sync, is_syncing}
use delfin.Sync.Counting.{
  Counting, counted_down, status_found, set_status, storage_update-Counting,
  sync_storage_resource-Counting,
}

module _ (sql : Engine) (driver : DriverApi) (s : ℕ) where
  -- The task manager handles the messages for one storage, in any order that they come in.
  unfoldable pub run_tasks : List TaskClass → Database → Database
  run_tasks [] d = d
  run_tasks (cls ∷ rest) d = run_tasks rest (sync_storage_resource sql driver s cls d).1

  abbrev failed : Result (Unit {0}) → ℕ
  failed (ok _) = 0
  failed (err _) = 1

  -- How many of these tasks raised.
  unfoldable pub failures : List TaskClass → Database → ℕ
  failures [] d = 0
  failures (cls ∷ rest) d =
      failed (sync_of sql driver cls s d).0
      + failures rest (sync_storage_resource sql driver s cls d).1

  failures-le : (classes : List TaskClass) (d : Database) → failures classes d ≤ length classes
  unfolding failures
  failures-le [] d = omega arith
  failures-le (cls ∷ rest) d =
      ground (arith, failures-le rest (sync_storage_resource sql driver s cls d).1)

  counted_down_balance :
      (m f : ℕ) (r : Result (Unit {0}))
      → f + m + 1 ≤ 100
      → counted_down (sub_ℕ (start_units * (m + 1)) f) r ≡ sub_ℕ (start_units * m) (f + failed r)
  unfolding ◌-ℤ◌
  counted_down_balance m f (ok u) h = ground arith
  counted_down_balance m f (err e) h = ground arith

  run_tasks-Counting :
      (classes : List TaskClass) (k f : ℕ) (d : Database)
      → f + length classes + k ≤ 100
      → Counting s (sub_ℕ (start_units * (length classes + k)) f) d
      → Counting s (sub_ℕ (start_units * k) (f + failures classes d)) (run_tasks classes d)
  unfolding run_tasks failures
  run_tasks-Counting [] k f d h c =
      subst (λ w. Counting s w d)
        (ap₂ (λ x y. sub_ℕ (start_units * x) y) (omega arith) (omega arith)) c
  run_tasks-Counting (cls ∷ rest) k f d h c =
      let r : Result (Unit {0}) = (sync_of sql driver cls s d).0 in
      let d' = (sync_storage_resource sql driver s cls d).1 in
      let now =
        subst (λ w. Counting s w d')
          (ap (λ x. counted_down (sub_ℕ (start_units * x) f) r) (omega arith)
            ∙ counted_down_balance (length rest + k) f r (omega arith))
          (sync_storage_resource-Counting sql driver cls s _ d c) in
      let later = run_tasks-Counting rest k (f + failed r) d' (in_range r (omega arith)) now in
      subst (λ w. Counting s w (run_tasks rest d')) (ap (sub_ℕ (start_units * k)) (omega arith))
        later
    where
      in_range :
          (r : Result (Unit {0}))
          → f + 1 + length rest + k ≤ 100
          → f + failed r + length rest + k ≤ 100
      in_range (ok u) b = omega arith
      in_range (err e) b = omega arith

-- A synchronization that starts gives the storage its units and changes nothing else of it.
start_sync-Counting :
    (expiration s n : ℕ) (st : Storage) (v : ℤ) (d d' : Database) (b : Bool)
    → is_syncing expiration d.now st ≡ b
    → Counting s v d
    → start_sync expiration s n st d ≡ (ok tt, d')
    → Counting s (pos (n * start_units)) d'
unfolding start_sync
start_sync-Counting expiration s n st v d d' true b c e = absurd (ground arith)
start_sync-Counting expiration s n st v d d' false b c e =
    subst (Counting s (pos (n * start_units))) (ground arith) (
      storage_update-Counting s (set_status (pos (n * start_units))) v (pos (n * start_units)) d
        (λ x. (refl, refl)) (λ x q. refl) c)

set_synced_if_ok-Counting :
    (expiration s n : ℕ) (v : ℤ) (d d' : Database)
    → Counting s v d
    → set_synced_if_ok expiration s n d ≡ (ok tt, d')
    → Counting s (pos (n * start_units)) d'
unfolding set_synced_if_ok storage_get
set_synced_if_ok-Counting expiration s n v d d' c e =
    let (st, here, q) = status_found (find_storage false s d.storages) v c.status in
    start_sync-Counting expiration s n st v d d' (is_syncing expiration d.now st) refl c
      (rw (here, set_synced_if_ok) at e)

-- Once `_set_synced_if_ok` has started a synchronization of a storage that is not soft deleted, for
-- at most 100 tasks, and while nothing but these tasks writes to the storage: after some tasks,
-- with `k` still to come, the storage is still there and its `sync_status` is 100 for each task to
-- come less 1 for each that raised. It is positive exactly when a task is to come, and it is 0
-- exactly when none is to come and none has raised.
pub sync_status_progress :
    (sql : Engine) (driver : DriverApi) (expiration s k : ℕ) (classes : List TaskClass) (v : ℤ)
    (d d' : Database)
    → Counting s v d
    → set_synced_if_ok expiration s (length classes + k) d ≡ (ok tt, d')
    → length classes + k ≤ 100
    → let f = failures sql driver s classes d' in
      let w = sub_ℕ (start_units * k) f in
      Counting s w (run_tasks sql driver s classes d')
      × (ltb_ℤ (pos 0) w ≡ ltb 0 k)
      × (eqb_ℤ w (pos 0) ≡ (k == 0 && f == 0))
sync_status_progress sql driver expiration s k classes v d d' c e h =
    let f = failures sql driver s classes d' in
    let few : f ≤ length classes = failures-le sql driver s classes d' in
    let begun : Counting s (sub_ℕ (start_units * (length classes + k)) 0) d' =
      subst (λ w. Counting s w d') (ground arith)
        (set_synced_if_ok-Counting expiration s (length classes + k) v d d' c e) in
    let done : Counting s (sub_ℕ (start_units * k) f) (run_tasks sql driver s classes d') =
      subst (λ w. Counting s (sub_ℕ (start_units * k) w) (run_tasks sql driver s classes d'))
        (omega arith) (run_tasks-Counting sql driver s classes k 0 d' (omega arith) begun) in
    (done, ground (arith, few), ground (arith, few))
