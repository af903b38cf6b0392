-- ===== src/Sync/Tests/Mirror.antt =====
-- Runs of `sync` for the pools of a storage (delfin/task_manager/tasks/resources.py).

use mathlib.Core.List.Permᴰ
use delfin.Database.Bulk.{IsFresh}
use delfin.Sync.Mirror.{sync_of-mirrors}
use delfin.Sync.Mirror.Listed.{stored, sync_of-lists}
use delfin.Prelude.{ℕ, ◌≡◌, refl, ◌==◌, false, none, some, List, [], ◌∷◌, arith, if◌then◌else◌}
use delfin.Errors.{ok}
use delfin.Database.{Row, IsEngine, table_number, Kind, Database, Columns, Resource, no_columns}
use delfin.Sync.Task.{DriverApi}
use delfin.Sync.Manager.{TaskClass, sync_of}
use delfin.Sync.Groups.{sync_of-keeps_relations}
use delfin.Sync.Tests.{sql, resource, driver, row, storage, database}

abbrev foreign : Row
foreign = record { id = 40; native_id = 1; storage_id = 8; columns = no_columns }

-- The table holds the row 30, which is listed, the row 31, which is stale, and one of storage 8.
abbrev pools_database : Database
pools_database = record (database storage 9) { table = λ k. row 30 1 ∷ foreign ∷ row 31 5 ∷ [] }

sql-IsEngine : IsEngine sql
sql-IsEngine = record {
  unique = λ i j e. omega arith;
  permutes = λ l. ∣ Permᴰ.refl l ∣₁;
  permutes_storages = λ l. ∣ Permᴰ.refl l ∣₁;
}

pools-IsFresh : IsFresh sql 0 (pools_database.table Kind.storage_pool)
pools-IsFresh n h = ground arith

-- The driver gives the column 3 of a pool; the row 30 has the columns 3 and 5.
abbrev pool_columns : Columns
pool_columns c = if c == 3 then some 90 else none

abbrev old_columns : Columns
old_columns c = if c == 3 then some 80 else if c == 5 then some 60 else none

abbrev pool : ℕ → Resource
pool n = record (resource n) { columns = pool_columns }

abbrev pools_driver : DriverApi
pools_driver = record driver { list_storage_pools = λ s. ok (pool 1 ∷ pool 2 ∷ []) }

abbrev old_pools : List Row
old_pools = record (row 30 1) { columns = old_columns } ∷ foreign ∷ row 31 5 ∷ []

abbrev old_database : Database
old_database = record (database storage 9) { table = λ k. old_pools }

old_pools-IsFresh : IsFresh sql 0 (old_database.table Kind.storage_pool)
old_pools-IsFresh n h = ground arith

-- The row 30 has the new value of the column 3 and still its column 5.
abbrev new_columns : Columns
new_columns c = elim (pool_columns c) [ some v ↦ some v | none ↦ old_columns c ]

new_columns-run : (new_columns 3 ≡ some 90) × (new_columns 5 ≡ some 60)
new_columns-run = (refl, refl)

sync_of-mirrors_example :
    let (r, d') = sync_of sql pools_driver TaskClass.storage_pool 7 old_database in
    (r ≡ ok tt)
    × (d'.table Kind.storage_pool
        ≡ record (row 30 1) { columns = new_columns }
          ∷ foreign
          ∷ record (row 100 2) { columns = pool_columns }
          ∷ [])
    × ((j : Kind) → (table_number j == 0) ≡ false → d'.table j ≡ old_database.table j)
sync_of-mirrors_example =
    sync_of-mirrors sql pools_driver TaskClass.storage_pool 7 (pool 1 ∷ pool 2 ∷ []) old_database
      sql-IsEngine refl refl refl refl refl refl old_pools-IsFresh

sync_of-lists_example :
    stored 7
      ((sync_of sql driver TaskClass.storage_pool 7 pools_database).1.table Kind.storage_pool)
      5
    ≡ false
sync_of-lists_example =
    sync_of-lists sql driver TaskClass.storage_pool 7 (resource 1 ∷ resource 2 ∷ []) pools_database
      5 sql-IsEngine refl refl refl refl refl refl refl pools-IsFresh

-- The driver lists no port group; the rows 30 and 31 of storage 7 are in every table.
sync_of-keeps_relations_example :
    let d' = (sync_of sql driver TaskClass.port_group 7 pools_database).1 in
    (stored 7 (d'.table Kind.port_group) 5 ≡ false)
    × (d'.table Kind.port_grp_port_rel ≡ row 30 1 ∷ foreign ∷ row 31 5 ∷ [])
sync_of-keeps_relations_example =
    sync_of-keeps_relations sql driver TaskClass.port_group 7 5 [] pools_database sql-IsEngine refl
      refl refl refl pools-IsFresh
