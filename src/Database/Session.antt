-- ===== src/Database/Session.antt =====
-- The database as one state: the resource tables by kind, the storages, and the transactions of
-- delfin/db/sqlalchemy/api.py on them. A call gives its result and the state that it leaves, also
-- when it raises.
unfoldable pub use delfin.Effect.{Effect, ◌>>=◌, ◌>>◌, pure, lift, when}
use delfin.Prelude.{
  ℕ, Bool, true, not, ◌&&◌, Option, none, some, List, [], ◌∷◌, map, elem, filter, ◌==◌,
  if◌then◌else◌,
}
use delfin.Errors.{Result, ok, err, storage_not_found, alert_source_not_found}
use delfin.Database.Rows.{
  Storage, Resource, Row, Engine, resources_get_all, resources_delete, resources_update,
  resources_create, resource_delete_by_storage,
}

-- A table for each model of a resource, and for each relation between a group and its members.
pub data Kind : Type 0 where
  storage_pool volume controller port disk : Kind
  quota filesystem qtree share : Kind
  host_initiator host host_group port_group volume_group masking_view : Kind
  host_grp_host_rel port_grp_port_rel vol_grp_vol_rel : Kind

-- The tables are told apart by their number.
abbrev pub table_number : Kind → ℕ
table_number storage_pool = 0
table_number volume = 1
table_number controller = 2
table_number port = 3
table_number disk = 4
table_number quota = 5
table_number filesystem = 6
table_number qtree = 7
table_number share = 8
table_number host_initiator = 9
table_number host = 10
table_number host_group = 11
table_number port_group = 12
table_number volume_group = 13
table_number masking_view = 14
table_number host_grp_host_rel = 15
table_number port_grp_port_rel = 16
table_number vol_grp_vol_rel = 17

-- `issued` counts the uuids generated so far; `now` is the time of the call, `timeutils.utcnow()`.
pub record Database : Type 0 where
  pub table : Kind → List Row
  pub storages : List Storage
  pub access_infos : List ℕ
  pub alert_sources : List ℕ
  pub issued : ℕ
  pub now : ℕ

abbrev pub Action : Type 0 → Type 0
Action = Effect Database

abbrev pub put : Kind → List Row → (Kind → List Row) → Kind → List Row
put k rows table j = if table_number j == table_number k then rows else table j

abbrev pub with_table : Kind → (List Row → List Row) → Database → Database
with_table k f d = record d { table = put k (f (d.table k)) d.table }

-- The five calls that every resource model has, on the table `k`.
unfoldable pub bulk_get_all : Engine → Kind → ℕ → Action (List Row)
bulk_get_all sql k s d = (ok (resources_get_all sql s (d.table k)), d)

unfoldable pub bulk_delete : Kind → List ℕ → Action (Unit {0})
bulk_delete k ids d = (ok tt, with_table k (resources_delete ids) d)

unfoldable pub bulk_update : Kind → List Resource → Action (Unit {0})
bulk_update k rs d = (ok tt, with_table k (resources_update rs) d)

-- What the transaction leaves: the new table, or the old one when it fails; the uuids are used up.
abbrev pub committed : Kind → Database → Result (List Row) → ℕ → Result (Unit {0}) × Database
committed k d (ok rows) issued = (ok tt, record d { table = put k rows d.table; issued = issued })
committed k d (err e) issued = (err e, record d { issued = issued })

unfoldable pub bulk_create : Engine → Kind → List Resource → Action (Unit {0})
bulk_create sql k rs d =
    let (r, issued) = resources_create sql d.issued rs (d.table k) in committed k d r issued

unfoldable pub bulk_delete_by_storage : Kind → ℕ → Action (Unit {0})
bulk_delete_by_storage k s d = (ok tt, with_table k (resource_delete_by_storage s) d)

-- `_storage_get_query` with `context.read_deleted`, then `filter_by(id=...)`.
abbrev pub selected : Bool → ℕ → Storage → Bool
selected read_deleted s st = st.id == s && (if read_deleted then st.deleted else not st.deleted)

unfoldable pub find_storage : Bool → ℕ → List Storage → Option Storage
find_storage read_deleted s [] = none
find_storage read_deleted s (st ∷ sts) =
    if selected read_deleted s st then some st else find_storage read_deleted s sts

abbrev found : Option Storage → Result Storage
found none = err storage_not_found
found (some st) = ok st

unfoldable pub storage_get : Bool → ℕ → Action Storage
unfolding find_storage
storage_get read_deleted s d = (found (find_storage read_deleted s d.storages), d)

-- `query.filter_by(id=storage_id).update(values)` as a function on the rows: a row that the query
-- selects is written, and `TimestampMixin` stamps it.
abbrev pub update_storages : Bool → ℕ → ℕ → (Storage → Storage) → List Storage → List Storage
update_storages read_deleted s now f =
    map λ st. if selected read_deleted s st then record (f st) { updated_at = some now } else st

unfoldable pub storage_update : Bool → ℕ → (Storage → Storage) → Action (Unit {0})
storage_update read_deleted s f d =
    (ok tt, record d { storages = update_storages read_deleted s d.now f d.storages })

-- `_storage_get_query` with `read_deleted` 'no', in the order of the query.
unfoldable pub storage_get_all : Engine → Action (List Storage)
storage_get_all sql d = (ok (sql.order_storages (filter (λ st. not st.deleted) d.storages)), d)

unfoldable pub storage_delete : Bool → ℕ → Action (Unit {0})
unfolding storage_update
storage_delete read_deleted s = storage_update read_deleted s (λ st. record st { deleted = true })

unfoldable pub access_info_delete : ℕ → Action (Unit {0})
access_info_delete s d =
    (ok tt, record d { access_infos = filter (λ a. not (a == s)) d.access_infos })

unfoldable pub alert_source_delete : ℕ → Action (Unit {0})
alert_source_delete s d =
    if elem s d.alert_sources
    then (ok tt, record d { alert_sources = filter (λ a. not (a == s)) d.alert_sources })
    else (err alert_source_not_found, d)
