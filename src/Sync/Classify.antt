-- ===== src/Sync/Classify.antt =====
-- `_classify_resources` of delfin/task_manager/tasks/resources.py.
pub mod Partition
use delfin.Prelude.{
  ℕ, ◌≡◌, refl, Bool, true, false, not, ◌&&◌, Option, none, some, List, [], ◌∷◌, ◌++◌, map, arith,
  elem, distinct, remove, filter, ◌==◌, if◌then◌else◌,
}
use delfin.Errors.{Result, ok, err, value_error, or_raise, ◌>>=◌}
use delfin.Database.{Row, Resource, ids, native_ids, resource_native_ids}
use delfin.Database.Lookup.{id_of}

pub record Classified : Type 0 where
  pub add_list : List Resource
  pub update_list : List Resource
  pub delete_id_list : List ℕ

-- The body of the loop for a resource that is in the database.
abbrev matched : List Row → Resource → Classified → Result Classified
matched db r c = do
  i ← or_raise (id_of r.native_id db) value_error
  rest ← or_raise (remove i c.delete_id_list) value_error
  ok (record c {
    update_list = c.update_list ++ record r { id = some i } ∷ [];
    delete_id_list = rest;
  })

unfoldable pub classify_one : List Row → Resource → Classified → Result Classified
classify_one db r c =
    if elem r.native_id (native_ids db)
    then matched db r c
    else ok (record c { add_list = c.add_list ++ r ∷ [] })

unfoldable pub classify_from : List Row → List Resource → Classified → Result Classified
classify_from db [] c = ok c
classify_from db (r ∷ rs) c = classify_one db r c >>= classify_from db rs

unfoldable pub classify_resources : List Resource → List Row → Result Classified
unfolding classify_from
classify_resources storage_resources db_resources =
    classify_from db_resources storage_resources
      (record { add_list = []; update_list = []; delete_id_list = ids db_resources })
