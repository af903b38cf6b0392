-- ===== src/Sync/Mirror/Rows.antt =====
-- The rows of a table that `StorageResourceTask.sync` of delfin/task_manager/tasks/resources.py
-- deletes and updates, as one pass.
use delfin.Prelude.{
  ℕ, ◌≡◌, refl, ap, ap₂, ◌∙◌, Bool, true, false, Option, none, some, List, [], ◌∷◌, map, arith,
  elem, distinct, filter, Bool-cases, inl, inr, if◌then◌else◌,
}
use delfin.Database.{
  Row, Resource, Engine, IsEngine, ids, native_ids, resource_native_ids, of_storage,
  resources_delete, resources_update,
}
use delfin.Database.Permuted.{distinct-Perm, map-filter_congr}
use delfin.Database.Bulk.{update_all, resources_delete-filter, resources_update-map, unlisted_id}
use delfin.Database.Lookup.{elem-ids-filter}
use delfin.Sync.Classify.Partition.{present, identified, unlisted}
use delfin.Sync.Matching.{find_resource, rewritten, has_id-row, elem-deleted, update_all-rewritten}

-- A row stays unless it is the storage's own and its native id is no longer listed.
abbrev pub survives : ℕ → List Resource → Row → Bool
survives s rs row = if of_storage s row then elem row.native_id (resource_native_ids rs) else true

-- A row of the storage takes over the listed resource with its native id.
abbrev pub refreshed : ℕ → List Resource → Row → Row
refreshed s rs row =
    if of_storage s row then rewritten (find_resource row.native_id rs) row else row

pub distinct-filter :
    (p : Row → Bool) (rows : List Row)
    → distinct (ids rows) ≡ true
    → distinct (ids (filter p rows)) ≡ true
distinct-filter p [] unique = refl
distinct-filter p (row ∷ rows) unique =
    ground (arith, distinct-filter p rows, elem-ids-filter row.id p rows)

pub ids-map :
    (f : Row → Row) (rows : List Row)
    → ((row : Row) → (f row).id ≡ row.id)
    → ids (map f rows) ≡ ids rows
ids-map f [] h = refl
ids-map f (row ∷ rows) h = ap₂ (λ i is. i ∷ is) (h row) (ids-map f rows h)

rewritten_id : (o : Option Resource) (row : Row) → (rewritten o row).id ≡ row.id
rewritten_id none row = refl
rewritten_id (some r) row = refl

pub refreshed_id : (s : ℕ) (rs : List Resource) (row : Row) → (refreshed s rs row).id ≡ row.id
refreshed_id s rs row = elim (Bool-cases (of_storage s row)) [
  | inl own ↦
      ap (λ b. (if b then rewritten (find_resource row.native_id rs) row else row).id) own
      ∙ rewritten_id (find_resource row.native_id rs) row
  | inr other ↦
      ap (λ b. (if b then rewritten (find_resource row.native_id rs) row else row).id) other
]

elem-filter_resources :
    (n : ℕ) (p : Resource → Bool) (rs : List Resource)
    → elem n (resource_native_ids rs) ≡ false
    → elem n (resource_native_ids (filter p rs)) ≡ false
elem-filter_resources n p [] h = refl
elem-filter_resources n p (r ∷ rs) h = ground (arith, elem-filter_resources n p rs)

pub distinct-filter_resources :
    (p : Resource → Bool) (rs : List Resource)
    → distinct (resource_native_ids rs) ≡ true
    → distinct (resource_native_ids (filter p rs)) ≡ true
distinct-filter_resources p [] unique = refl
distinct-filter_resources p (r ∷ rs) unique =
    ground (arith, distinct-filter_resources p rs, elem-filter_resources r.native_id p rs)

-- The storage's rows, in the order of the table and in that of the query.
abbrev pub own_rows : ℕ → List Row → List Row
own_rows s = filter (of_storage s)

abbrev pub selection : Engine → ℕ → List Row → List Row
selection sql s rows = sql.order_by (own_rows s rows)

-- The rows of the table once the storage's rows are brought in line, but for the new ones.
abbrev pub surviving_rows : ℕ → List Resource → List Row → List Row
surviving_rows s rs rows = map (refreshed s rs) (filter (survives s rs) rows)

module _ (sql : Engine) (engine : IsEngine sql) (s : ℕ) (rs : List Resource) (rows : List Row)
    (unique : distinct (ids rows) ≡ true)
    (unique_native : distinct (native_ids (filter (of_storage s) rows)) ≡ true)
    (unique_listed : distinct (resource_native_ids rs) ≡ true) where
  pub selection-distinct : distinct (ids (selection sql s rows)) ≡ true
  selection-distinct =
      distinct-Perm (λ row. row.id) (selection sql s rows) (own_rows s rows)
        (engine.permutes (own_rows s rows))
      ∙ distinct-filter (of_storage s) rows unique

  pub selection-distinct_native : distinct (native_ids (selection sql s rows)) ≡ true
  selection-distinct_native =
      distinct-Perm (λ row. row.native_id) (selection sql s rows) (own_rows s rows)
        (engine.permutes (own_rows s rows))
      ∙ unique_native

  -- The deletions and updates, as one pass over the table.
  pub bulk_rows :
      resources_update
        (map (identified (selection sql s rows)) (filter (present (selection sql s rows)) rs))
        (resources_delete
          (ids (filter (λ row. unlisted rs row.native_id) (selection sql s rows)))
          rows)
      ≡ surviving_rows s rs rows
  bulk_rows =
      let updates =
        map (identified (selection sql s rows)) (filter (present (selection sql s rows)) rs) in
      let stale = ids (filter (λ row. unlisted rs row.native_id) (selection sql s rows)) in
      resources_update-map updates (resources_delete stale rows)
      ∙ ap (map (update_all updates)) (resources_delete-filter stale rows)
      ∙ map-filter_congr (unlisted_id stale) (survives s rs) (update_all updates) (refreshed s rs)
          rows unique
          (λ row here. (
            (let gone =
                  elem-deleted rows (selection sql s rows) s unique
                    (engine.permutes (own_rows s rows)) (λ x. unlisted rs x.native_id) row here in
                ground (arith, gone)),
            update_all-rewritten (selection sql s rows) rs row (of_storage s row) row.native_id
                unique_listed
                (λ n.
                  has_id-row rows (selection sql s rows) s unique
                    (engine.permutes (own_rows s rows)) n row selection-distinct_native here),
          ))
