-- ===== src/Alerts/Source.antt =====
-- The table `alert_source` of delfin/db/sqlalchemy/models.py and the calls on it of delfin/db/
-- sqlalchemy/api.py. A text is only compared and tested for being empty, so it is a number, and 0
-- is the empty text.
use delfin.Prelude.{
  ℕ, zero, suc, Bool, true, false, not, Option, none, some, List, [], ◌∷◌, ◌++◌, map, filter, elem,
  ◌==◌, if◌then◌else◌,
}
use delfin.Errors.{Result, ok, err, alert_source_not_found, integrity_error}
use delfin.Database.Sorting.{Direction}
use delfin.Database.Paging.{Column, SortBy, Filters, created_at, generate_paginate_query}

-- `unknown_version` is any text that is not the name of a version in small or capital letters.
pub data Version : Type 0 where
  snmpv1 snmpv2c snmpv3 unknown_version : Version

pub data Key : Type 0 where
  host community_string username security_level auth_key auth_protocol privacy_protocol
        privacy_key :
      Key
  engine_id port context_name retry_num expiration : Key

abbrev pub key_number : Key → ℕ
key_number host = 0
key_number community_string = 1
key_number username = 2
key_number security_level = 3
key_number auth_key = 4
key_number auth_protocol = 5
key_number privacy_protocol = 6
key_number privacy_key = 7
key_number engine_id = 8
key_number port = 9
key_number context_name = 10
key_number retry_num = 11
key_number expiration = 12

abbrev pub same_key : Key → Key → Bool
same_key k l = key_number k == key_number l

-- A row of the table.
pub record AlertSource : Type 0 where
  pub storage_id : ℕ
  pub created : Option ℕ
  pub version : Version
  pub value : Key → Option ℕ

-- The dict of a request or of an update: a key that it does not have is `none`, one with the value
-- None is `some none`.
pub record Values : Type 0 where
  pub version : Option Version
  pub value : Key → Option (Option ℕ)

-- `values.get(key)`
abbrev pub get : Values → Key → Option ℕ
get values k = elim (values.value k) [ none ↦ none | some v ↦ v ]

-- `values[key] = v`
abbrev pub set : Key → Option ℕ → Values → Values
set k v values = record values { value = λ l. if same_key k l then some v else values.value l }

-- Python's truth of a text or a missing one.
abbrev pub given : Option ℕ → Bool
given none = false
given (some zero) = false
given (some (suc n)) = true

abbrev pub has_storage : ℕ → AlertSource → Bool
has_storage s row = row.storage_id == s

abbrev pub first_source : List AlertSource → Result AlertSource
first_source [] = err alert_source_not_found
first_source (row ∷ rows) = ok row

unfoldable pub alert_source_get : ℕ → List AlertSource → Result AlertSource
alert_source_get s rows = first_source (filter (has_storage s) rows)

abbrev pub updated_value : Option (Option ℕ) → Option ℕ → Option ℕ
updated_value none old = old
updated_value (some v) old = v

abbrev pub updated_version : Option Version → Version → Version
updated_version none old = old
updated_version (some v) old = v

abbrev pub update_source : Values → AlertSource → AlertSource
update_source values row = record row {
  version = updated_version values.version row.version;
  value = λ k. updated_value (values.value k) (row.value k);
}

abbrev pub new_source : ℕ → ℕ → Values → AlertSource
new_source now s values = record {
  storage_id = s;
  created = some now;
  version = updated_version values.version unknown_version;
  value = get values;
}

-- `storage_id` is the primary key, `created_at` is set when the row is added.
unfoldable pub alert_source_create :
    ℕ → ℕ → Values → List AlertSource → Result AlertSource × List AlertSource
alert_source_create now s values rows =
    if elem s (map (λ row. row.storage_id) rows)
    then (err integrity_error, rows)
    else (ok (new_source now s values), rows ++ new_source now s values ∷ [])

unfoldable pub alert_source_update :
    ℕ → Values → List AlertSource → Result AlertSource × List AlertSource
unfolding alert_source_get
alert_source_update s values rows = elim (alert_source_get s rows) [
  | err e ↦ (err e, rows)
  | ok row ↦
      let rows' = map (λ r. if has_storage s r then update_source values r else r) rows in
      (alert_source_get s rows', rows')
]

unfoldable pub alert_source_delete : ℕ → List AlertSource → Result (Unit {0}) × List AlertSource
alert_source_delete s rows = elim (filter (has_storage s) rows) [
  | [] ↦ (err alert_source_not_found, rows)
  | row ∷ found ↦ (ok tt, filter (λ r. not (has_storage s r)) rows)
]

-- The columns that a query may be sorted by; those but `created_at` are an argument. A row that has
-- no time of creation counts as created at the beginning of time.
abbrev pub created_column : Column AlertSource
created_column = record { value = λ row. row.created; default = 0 }

abbrev pub source_columns : (ℕ → Option (Column AlertSource)) → ℕ → Option (Column AlertSource)
source_columns more k = if k == created_at then some created_column else more k

unfoldable pub alert_source_get_all :
    (List (SortBy AlertSource) → List AlertSource → List AlertSource)
    → (ℕ → Option (Column AlertSource))
    → Option ℕ
    → Option ℕ
    → Option (List ℕ)
    → Option (List Direction)
    → Filters AlertSource
    → ℕ
    → List AlertSource
    → Result (List AlertSource)
unfolding generate_paginate_query alert_source_get
alert_source_get_all order_by more marker limit keys dirs filters offset rows =
    generate_paginate_query order_by (source_columns more) alert_source_get marker limit keys dirs
      filters offset rows
