-- ===== src/Database/Rows.antt =====
-- delfin/db/sqlalchemy/api.py: the queries and the bulk create, update and delete of one table.
-- The SQL engine and the uuid generator are parameters.
use mathlib.Core.List.{Perm}
use delfin.Prelude.{
  ℕ, suc, ◌≡◌, Bool, false, not, Option, none, some, List, [], ◌∷◌, ◌++◌, map, filter, distinct,
  ◌==◌, if◌then◌else◌,
}
use delfin.Prelude.Int.{ℤ}
use delfin.Errors.{Result, ok, err, integrity_error}

-- The columns of a row or the keys of a dict, but for those that the code reads by name.
abbrev pub Columns : Type 0
Columns = ℕ → Option ℕ

-- A resource as a driver returns it: the dict has no `id` before the code sets one.
pub record Resource : Type 0 where
  pub id : Option ℕ
  pub native_id : ℕ
  pub storage_id : ℕ
  pub columns : Columns

pub record Row : Type 0 where
  pub id : ℕ
  pub native_id : ℕ
  pub storage_id : ℕ
  pub columns : Columns

-- A row of `storages`; `deleted` is the soft deletion, times are in seconds.
pub record Storage : Type 0 where
  pub id : ℕ
  pub deleted : Bool
  pub sync_status : ℤ
  pub created_at : ℕ
  pub updated_at : Option ℕ
  pub columns : Columns

-- What the code takes from `oslo_utils.uuidutils` and from the SQL engine: the uuid that the n-th
-- call of `generate_uuid` returns, and the order in which a query returns its rows (by default the
-- newest first).
pub record Engine : Type 0 where
  pub uuid : ℕ → ℕ
  pub order_by : List Row → List Row
  pub order_storages : List Storage → List Storage

-- Their documented behaviour: a uuid is never generated twice, and a query returns the rows that
-- it selects, each as often as it stands in the table.
pub record IsEngine (sql : Engine) : Type 0 where
  pub unique : (i j : ℕ) → sql.uuid i ≡ sql.uuid j → i ≡ j
  pub permutes : (rows : List Row) → Perm (sql.order_by rows) rows
  pub permutes_storages : (rows : List Storage) → Perm (sql.order_storages rows) rows

abbrev pub ids : List Row → List ℕ
ids = map λ row. row.id

abbrev pub native_ids : List Row → List ℕ
native_ids = map λ row. row.native_id

abbrev pub resource_native_ids : List Resource → List ℕ
resource_native_ids = map λ r. r.native_id

-- `filter_by(storage_id=...)`
abbrev pub of_storage : ℕ → Row → Bool
of_storage s row = row.storage_id == s

unfoldable pub resources_get_all : Engine → ℕ → List Row → List Row
resources_get_all sql s rows = sql.order_by (filter (of_storage s) rows)

-- `query.filter_by(id=i).delete()`; no match is only logged.
abbrev pub delete_by_id : ℕ → List Row → List Row
delete_by_id i = filter λ row. not (row.id == i)

unfoldable pub resources_delete : List ℕ → List Row → List Row
resources_delete [] rows = rows
resources_delete (i ∷ is) rows = resources_delete is (delete_by_id i rows)

-- The keys that the dict has are written, the others stay.
abbrev pub merge : Columns → Columns → Columns
merge values old c = elim (values c) [ none ↦ old c | some v ↦ some v ]

abbrev pub write : Resource → Row → Row
write r row = record row {
  native_id = r.native_id;
  storage_id = r.storage_id;
  columns = merge r.columns row.columns;
}

-- `filter_by(id=i)` with `None` selects no row, since `id` is the primary key.
abbrev pub has_id : Option ℕ → Row → Bool
has_id none row = false
has_id (some i) row = row.id == i

-- `query.filter_by(id=vol.get('id')).update(vol)`; no match is only logged.
abbrev pub update_by_id : Resource → Row → Row
update_by_id r row = if has_id r.id row then write r row else row

unfoldable pub resources_update : List Resource → List Row → List Row
resources_update [] rows = rows
resources_update (r ∷ rs) rows = resources_update rs (map (update_by_id r) rows)

abbrev pub no_columns : Columns
no_columns c = none

-- The model objects that `resources_create` adds, with the number of uuids issued so far: a
-- resource with no id is given the next one.
abbrev pub new_row : ℕ → Resource → Row
new_row i r = record {
  id = i;
  native_id = r.native_id;
  storage_id = r.storage_id;
  columns = merge r.columns no_columns;
}

unfoldable pub resource_refs : Engine → ℕ → List Resource → List Row × ℕ
resource_refs sql n [] = ([], n)
resource_refs sql n (r ∷ rs) = elim r.id [
  | none ↦ let (rows, m) = resource_refs sql (suc n) rs in (new_row (sql.uuid n) r ∷ rows, m)
  | some i ↦ let (rows, m) = resource_refs sql n rs in (new_row i r ∷ rows, m)
]

-- `session.add_all(refs)` at the end of the transaction: a primary key that stands twice fails it.
abbrev pub add_all : List Row → List Row → Result (List Row)
add_all refs rows = if distinct (ids (rows ++ refs)) then ok (rows ++ refs) else err integrity_error

unfoldable pub resources_create : Engine → ℕ → List Resource → List Row → Result (List Row) × ℕ
unfolding resource_refs
resources_create sql n rs rows = let (refs, m) = resource_refs sql n rs in (add_all refs rows, m)

unfoldable pub resource_delete_by_storage : ℕ → List Row → List Row
resource_delete_by_storage s = filter λ row. not (of_storage s row)
