-- ===== src/Sync/Matching.antt =====
-- How the rows that `_classify_resources` selects meet the rows of the table
-- (delfin/task_manager/tasks/resources.py, delfin/db/sqlalchemy/api.py).
use mathlib.Core.List.{Perm}
use delfin.Prelude.{
  ℕ, ◌≡◌, refl, sym, ap, ◌∙◌, Bool, true, false, ◌&&◌, Option, none, some, List, [], ◌∷◌, map,
  arith, fun_ext, elem, distinct, filter, ◌==◌, Bool-cases, inl, inr, if◌then◌else◌,
}
use delfin.Database.{Row, Resource, ids, native_ids, resource_native_ids, of_storage, has_id, write}
use delfin.Database.Lookup.{id_of}
use delfin.Database.Permuted.{
  any_row, any_row-Perm, any_row-at, any_row-filter, elem-ids_any, find_row,
}
use delfin.Database.Bulk.{update_all}
use delfin.Sync.Classify.Partition.{present, identified}

-- The resource with this native id.
abbrev pub find_resource : ℕ → List Resource → Option Resource
find_resource n [] = none
find_resource n (r ∷ rs) = if r.native_id == n then some r else find_resource n rs

abbrev pub rewritten : Option Resource → Row → Row
rewritten none row = row
rewritten (some r) row = write r row

id_of-absent : (n : ℕ) (rows : List Row) → elem n (native_ids rows) ≡ false → id_of n rows ≡ none
id_of-absent n [] h = refl
id_of-absent n (row ∷ rows) h = ground (arith, id_of-absent n rows)

-- The test of an update finds the row with the native id that was looked up.
abbrev pub matches : ℕ → Row → Row → Bool
matches n row x = n == x.native_id && (x.id == row.id)

any_row-unmatched :
    (n : ℕ) (row : Row) (rows : List Row)
    → elem n (native_ids rows) ≡ false
    → any_row (matches n row) rows ≡ false
any_row-unmatched n row [] h = refl
any_row-unmatched n row (x ∷ rows) h = ground (arith, any_row-unmatched n row rows)

has_id-matches :
    (n : ℕ) (row : Row) (rows : List Row)
    → distinct (native_ids rows) ≡ true
    → has_id (id_of n rows) row ≡ any_row (matches n row) rows
has_id-matches n row [] unique = refl
has_id-matches n row (x ∷ rows) unique = elim (Bool-cases (n == x.native_id)) [
  | inl e ↦ let rest = any_row-unmatched n row rows in rw e (ground (arith, rest))
  | inr e ↦ rw e (has_id-matches n row rows (ground arith))
]

module _ (rows selection : List Row) (s : ℕ) (unique : distinct (ids rows) ≡ true)
    (order : Perm selection (filter (of_storage s) rows)) where
  -- A row of the table is the one that is updated for a native id.
  pub has_id-row :
      (n : ℕ) (row : Row)
      → distinct (native_ids selection) ≡ true
      → find_row row.id rows ≡ some row
      → has_id (id_of n selection) row ≡ (of_storage s row && n == row.native_id)
  has_id-row n row unique_native here =
      has_id-matches n row selection unique_native
      ∙ any_row-Perm (matches n row) selection (filter (of_storage s) rows) order
      ∙ any_row-filter (matches n row) (of_storage s) rows
      ∙ ap (λ p. any_row p rows) (fun_ext (λ x. ground arith))
      ∙ any_row-at (λ x. of_storage s x && n == x.native_id) row rows unique here

  -- A row of the table is deleted if the storage is its own and no longer lists it.
  pub elem-deleted :
      (p : Row → Bool) (row : Row)
      → find_row row.id rows ≡ some row
      → elem row.id (ids (filter p selection)) ≡ (of_storage s row && p row)
  elem-deleted p row here =
      elem-ids_any row.id p selection
      ∙ any_row-Perm (λ x. p x && (x.id == row.id)) selection (filter (of_storage s) rows) order
      ∙ any_row-filter (λ x. p x && (x.id == row.id)) (of_storage s) rows
      ∙ ap (λ q. any_row q rows) (fun_ext (λ x. ground arith))
      ∙ any_row-at (λ x. of_storage s x && p x) row rows unique here

find_resource-absent :
    (n : ℕ) (rs : List Resource)
    → elem n (resource_native_ids rs) ≡ false
    → find_resource n rs ≡ none
find_resource-absent n [] h = refl
find_resource-absent n (r ∷ rs) h = ground (arith, find_resource-absent n rs)

has_id-write : (o : Option ℕ) (r : Resource) (row : Row) → has_id o (write r row) ≡ has_id o row
has_id-write none r row = refl
has_id-write (some i) r row = refl

-- The updates that a row with this native id sees, if it is one of the storage's own (`own`).
abbrev IsMatched : List Row → Row → Bool → ℕ → Type 0
IsMatched selection row own m = (n : ℕ) → has_id (id_of n selection) row ≡ (own && n == m)

abbrev updates : List Row → List Resource → List Resource
updates selection rs = map (identified selection) (filter (present selection) rs)

-- The update of one resource in front of the others.
update_step :
    (selection : List Row) (r : Resource) (rs : List Resource) (row : Row) (b : Bool)
    → present selection r ≡ true
    → has_id (id_of r.native_id selection) row ≡ b
    → update_all (updates selection (r ∷ rs)) row
      ≡ update_all (updates selection rs) (if b then write r row else row)
update_step selection r rs row b known here =
    ap
      (λ p.
        update_all
          (map (identified selection)
            (if p then r ∷ filter (present selection) rs else filter (present selection) rs))
          row)
      known
    ∙ ap (λ b. update_all (updates selection rs) (if b then write r row else row)) here

update_skip :
    (selection : List Row) (r : Resource) (rs : List Resource) (row : Row)
    → present selection r ≡ false
    → update_all (updates selection (r ∷ rs)) row ≡ update_all (updates selection rs) row
update_skip selection r rs row new =
    ap
      (λ p.
        update_all
          (map (identified selection)
            (if p then r ∷ filter (present selection) rs else filter (present selection) rs))
          row)
      new

update_all-unmatched :
    (selection : List Row) (rs : List Resource) (row : Row) (own : Bool) (m : ℕ)
    → IsMatched selection row own m
    → (own && elem m (resource_native_ids rs)) ≡ false
    → update_all (updates selection rs) row ≡ row
update_all-unmatched selection [] row own m h gone = refl
update_all-unmatched selection (r ∷ rs) row own m h gone =
    let no_match : (own && r.native_id == m) ≡ false = ground arith in
    let rest = update_all-unmatched selection rs row own m h (ground arith) in
    elim (Bool-cases (present selection r)) [
      | inl known ↦ update_step selection r rs row false known (h r.native_id ∙ no_match) ∙ rest
      | inr new ↦ update_skip selection r rs row new ∙ rest
    ]

pub update_all-rewritten :
    (selection : List Row) (rs : List Resource) (row : Row) (own : Bool) (m : ℕ)
    → distinct (resource_native_ids rs) ≡ true
    → IsMatched selection row own m
    → update_all (updates selection rs) row
      ≡ (if own then rewritten (find_resource m rs) row else row)
update_all-rewritten selection [] row own m unique h = ground arith
update_all-rewritten selection (r ∷ rs) row own m unique h =
    let rest = update_all-rewritten selection rs row own m (ground arith) h in
    elim (Bool-cases (present selection r)) [
      | inl known ↦ elim (Bool-cases (own && r.native_id == m)) [
        | inl met ↦
            update_step selection r rs row true known (h r.native_id ∙ met)
            ∙ update_all-unmatched selection rs (write r row) own m
                (λ n. has_id-write (id_of n selection) r row ∙ h n) (ground arith)
            ∙ ground arith
        | inr unmet ↦
            update_step selection r rs row false known (h r.native_id ∙ unmet) ∙ rest ∙ ground arith
      ]
      | inr new ↦
          let unmet : (own && r.native_id == m) ≡ false =
            sym (h r.native_id) ∙ ap (λ o. has_id o row) (id_of-absent r.native_id selection new) in
          update_skip selection r rs row new ∙ rest ∙ ground arith
    ]
