-- ===== src/Sync/Request.antt =====
-- The part of delfin/api/v1/storages.py that starts a synchronization: `StorageController.sync`,
-- `sync_all` and `_set_synced_if_ok`. A message to a task manager is an entry of the queue.
use delfin.Prelude.{
  ℕ, ◌-◌, ◌*◌, ◌%◌, Bool, true, false, ◌&&◌, none, some, List, [], ◌∷◌, ◌++◌, map, ltb, leb,
  if◌then◌else◌, length,
}
use delfin.Prelude.Int.{pos, ltb_ℤ}
use delfin.Errors.{Exception, Result, ok, err, invalid_input, storage_is_syncing}
use delfin.Database.{
  Engine, Database, Storage, Action, lift, storage_get, storage_get_all, storage_update,
}
use delfin.Sync.Task.{start_units}
use delfin.Sync.Manager.{TaskClass, subclasses}

-- `timedelta.seconds`: the seconds of a difference within its day, not the whole difference.
abbrev pub seconds_per_day : ℕ
seconds_per_day = 86400

unfoldable pub timedelta_seconds : ℕ → ℕ → ℕ
timedelta_seconds current last =
    if leb last current
    then (current - last) % seconds_per_day
    else (seconds_per_day - (last - current) % seconds_per_day) % seconds_per_day

-- `storage['updated_at'] or storage['created_at']`
abbrev pub last_update : Storage → ℕ
last_update st = elim st.updated_at [ none ↦ st.created_at | some t ↦ t ]

-- The guard of `_set_synced_if_ok`; `expiration` is `CONF.sync_task_expiration`.
unfoldable pub is_syncing : ℕ → ℕ → Storage → Bool
unfolding timedelta_seconds
is_syncing expiration now st =
    ltb (timedelta_seconds now (last_update st)) expiration && ltb_ℤ (pos 0) st.sync_status

unfoldable pub start_sync : ℕ → ℕ → ℕ → Storage → Action (Unit {0})
unfolding is_syncing
start_sync expiration s resource_count st d =
    if is_syncing expiration d.now st
    then (err storage_is_syncing, d)
    else storage_update false s
        (λ row. record row { sync_status = pos (resource_count * start_units) }) d

abbrev started : ℕ → ℕ → ℕ → Result Storage → Action (Unit {0})
started expiration s resource_count (ok st) = start_sync expiration s resource_count st
started expiration s resource_count (err e) = lift (err invalid_input)

unfoldable pub set_synced_if_ok : ℕ → ℕ → ℕ → Action (Unit {0})
set_synced_if_ok expiration s resource_count d =
    let (r, d') = storage_get false s d in started expiration s resource_count r d'

-- The API server: its database, and the tasks that it has cast to the task managers.
pub record Server : Type 0 where
  pub db : Database
  pub queue : List (ℕ × TaskClass)

abbrev pub cast_all : ℕ → List (ℕ × TaskClass) → List (ℕ × TaskClass)
cast_all s queue = queue ++ map (λ cls. (s, cls)) subclasses

-- What follows `_set_synced_if_ok` when it has not raised.
abbrev launched : ℕ → Server → Result (Unit {0}) × Database → Result (Unit {0}) × Server
launched s server (ok _, db) = (ok tt, record { db = db; queue = cast_all s server.queue })
launched s server (err e, db) = (err e, record server { db = db })

unfoldable pub launch : ℕ → ℕ → Server → Result (Unit {0}) × Server
unfolding set_synced_if_ok
launch expiration s server =
    launched s server (set_synced_if_ok expiration s (length subclasses) server.db)

abbrev pub requested : ℕ → Server → Result Storage × Database → Result (Unit {0}) × Server
requested expiration server (ok st, db) = launch expiration st.id (record server { db = db })
requested expiration server (err e, db) = (err e, record server { db = db })

-- `StorageController.sync`
unfoldable pub request_sync : ℕ → ℕ → Server → Result (Unit {0}) × Server
unfolding launch storage_get
request_sync expiration id server = requested expiration server (storage_get false id server.db)

-- `except exception.InvalidInput`: the storage is skipped. `StorageIsSyncing` is no `InvalidInput`.
abbrev pub skipped : Exception → Bool
skipped e = elim e [ invalid_input ↦ true | _ ↦ false ]

unfoldable pub sync_each : ℕ → List Storage → Server → Result (Unit {0}) × Server
unfolding launch
sync_each expiration [] server = (ok tt, server)
sync_each expiration (st ∷ sts) server =
    let (r, server') = launch expiration st.id server in
    elim r [
      | ok _ ↦ sync_each expiration sts server'
      | err e ↦ elim (skipped e) [
        | true ↦ sync_each expiration sts server'
        | false ↦ (err e, server')
      ]
    ]

-- `StorageController.sync_all`
unfoldable pub sync_all : Engine → ℕ → Server → Result (Unit {0}) × Server
unfolding sync_each storage_get_all
sync_all sql expiration server =
    let (r, db) = storage_get_all sql server.db in
    elim r [
      | ok storages ↦ sync_each expiration storages (record server { db = db })
      | err e ↦ (err e, record server { db = db })
    ]
