-- ===== src/Sync/Overdue.antt =====
-- The guard of `_set_synced_if_ok` and the loop of `sync_all` in delfin/api/v1/storages.py.
use delfin.Prelude.{
  ℕ, ◌+◌, ◌*◌, ◌<◌, ◌≡◌, sym, ap, subst, true, false, some, List, [], ◌∷◌, ◌++◌, arith, ltb, ◌%◌,
}
use delfin.Prelude.Int.{pos, ltb_ℤ}
use delfin.Errors.{ok, err, storage_is_syncing}
use delfin.Database.{Database, Storage, find_storage, storage_get}
use delfin.Sync.Request.{
  Server, is_syncing, start_sync, set_synced_if_ok, launch, sync_each, last_update, seconds_per_day,
}

-- For a storage with a positive `sync_status` that was last updated `t` seconds ago the guard
-- against a second synchronization holds exactly if the part of `t` within a day is below the
-- expiration: whole days do not count.
pub is_syncing-mod_day :
    (expiration t : ℕ) (st : Storage)
    → ltb_ℤ (pos 0) st.sync_status ≡ true
    → is_syncing expiration (last_update st + t) st ≡ ltb (t % seconds_per_day) expiration
unfolding is_syncing
is_syncing-mod_day expiration t st h = ground arith

-- A storage whose count is positive and that was last updated some days ago, however many, and
-- less than the expiration and than a day besides: `_set_synced_if_ok` raises StorageIsSyncing and
-- changes nothing.
pub set_synced_if_ok-refuses_overdue :
    (expiration s n days rest : ℕ) (st : Storage) (d : Database)
    → find_storage false s d.storages ≡ some st
    → d.now ≡ last_update st + (days * seconds_per_day + rest)
    → rest < seconds_per_day
    → rest < expiration
    → ltb_ℤ (pos 0) st.sync_status ≡ true
    → set_synced_if_ok expiration s n d ≡ (err storage_is_syncing, d)
unfolding set_synced_if_ok storage_get start_sync
set_synced_if_ok-refuses_overdue expiration s n days rest st d found now short below running =
    ground (arith, is_syncing-mod_day expiration (days * seconds_per_day + rest) st running)

launch-syncing :
    (expiration id : ℕ) (st : Storage) (server : Server)
    → find_storage false id server.db.storages ≡ some st
    → is_syncing expiration server.db.now st ≡ true
    → launch expiration id server ≡ (err storage_is_syncing, server)
unfolding launch set_synced_if_ok storage_get start_sync
launch-syncing expiration id st server found running = ground arith

-- The loop of `sync_all`, when it has gone through the storages `before` and comes to one that is
-- still synchronizing: it raises StorageIsSyncing there, and what it leaves is what it has left
-- before, so that no storage behind it is launched.
pub sync_each-stops :
    (expiration : ℕ) (before behind : List Storage) (st row : Storage) (server server' : Server)
    → sync_each expiration before server ≡ (ok tt, server')
    → find_storage false st.id server'.db.storages ≡ some row
    → is_syncing expiration server'.db.now row ≡ true
    → sync_each expiration (before ++ st ∷ behind) server ≡ (err storage_is_syncing, server')
unfolding sync_each
sync_each-stops expiration [] behind st row server server' done found running =
    let same : server ≡ server' = ap (λ r. r.1) done in
    subst (λ x. sync_each expiration (st ∷ behind) x ≡ (err storage_is_syncing, server')) (sym same)
      (ground (arith, launch-syncing expiration st.id row server' found running))
sync_each-stops expiration (a ∷ before) behind st row server server' done found running =
    let server_a = (launch expiration a.id server).1 in
    ground (
      arith,
      λ (e : sync_each expiration before server_a ≡ (ok tt, server')).
          sync_each-stops expiration before behind st row server_a server' e found running,
    )
