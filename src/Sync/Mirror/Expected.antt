-- ===== src/Sync/Mirror/Expected.antt =====
-- What the rows of a table are to be after `StorageResourceTask.sync` of delfin/task_manager/tasks/
-- resources.py, key by key and apart from the calls of delfin/db/sqlalchemy/api.py that write them.
use delfin.Prelude.{
  ℕ, suc, ◌≡◌, refl, ap, ap₂, fun_ext, true, Option, none, some, List, [], ◌∷◌, arith,
  if◌then◌else◌,
}
use delfin.Database.{Row, Resource, Engine, of_storage, resource_refs, new_row}
use delfin.Database.Bulk.{unidentified}
use delfin.Sync.Matching.{find_resource, rewritten}
use delfin.Sync.Mirror.Rows.{refreshed}

-- A row that is updated with a resource: it keeps its id; each column has the value of the resource,
-- or its old value if the resource has none.
abbrev pub updated_row : Option Resource → Row → Row
updated_row none row = row
updated_row (some r) row = record {
  id = row.id;
  native_id = r.native_id;
  storage_id = r.storage_id;
  columns = λ c. elim (r.columns c) [ some v ↦ some v | none ↦ row.columns c ];
}

-- A row of the storage is updated with the resource of its native id, the other rows stay.
abbrev pub expected_row : ℕ → List Resource → Row → Row
expected_row s rs row =
    if of_storage s row then updated_row (find_resource row.native_id rs) row else row

-- The rows of new resources: each has the next uuid, and the columns of its resource.
abbrev pub expected_new : Engine → ℕ → List Resource → List Row
expected_new sql n [] = []
expected_new sql n (r ∷ rs) =
    (record {
      id = sql.uuid n;
      native_id = r.native_id;
      storage_id = r.storage_id;
      columns = r.columns;
    })
    ∷ expected_new sql (suc n) rs

pub refreshed-expected : (s : ℕ) (rs : List Resource) → refreshed s rs ≡ expected_row s rs
refreshed-expected s rs = fun_ext (λ row.
    ap (λ r. if of_storage s row then r else row)
      (by_resource (find_resource row.native_id rs) row))
  where
    by_resource : (o : Option Resource) (row : Row) → rewritten o row ≡ updated_row o row
    by_resource none row = refl
    by_resource (some r) row = refl

pub resource_refs-expected :
    (sql : Engine) (n : ℕ) (rs : List Resource)
    → unidentified rs ≡ true
    → (resource_refs sql n rs).0 ≡ expected_new sql n rs
unfolding resource_refs
resource_refs-expected sql n [] new = refl
resource_refs-expected sql n (r ∷ rs) new =
    let fresh : r.id ≡ none = ground arith in
    let rest = resource_refs-expected sql (suc n) rs (ground arith) in
    rw fresh (ap₂ (λ row rows. row ∷ rows) (whole (sql.uuid n)) rest)
  where
    same : (o : Option ℕ) → elim o as (λ x. Option ℕ) [ none ↦ none | some v ↦ some v ] ≡ o
    same none = refl
    same (some v) = refl

    whole :
        (i : ℕ)
        → new_row i r ≡ record {
          id = i;
          native_id = r.native_id;
          storage_id = r.storage_id;
          columns = r.columns;
        }
    whole i =
        ap (λ c. record { id = i; native_id = r.native_id; storage_id = r.storage_id; columns = c })
          (fun_ext (λ c. same (r.columns c)))
