-- ===== src/Sync/Mirror/Listed.antt =====
-- The abstract view of a table: which native ids it has for a storage, without the order of the rows
-- and their ids (delfin/task_manager/tasks/resources.py).
use delfin.Prelude.{
  ℕ, suc, ◌≡◌, refl, sym, ap, ap₂, ◌∙◌, Bool, true, false, not, ◌&&◌, ◌||◌, none, some, List, [],
  ◌∷◌, ◌++◌, map, arith, elem, distinct, filter, ◌==◌, ==→eq, Bool-cases, inl, inr, if◌then◌else◌,
}
use delfin.Errors.{ok}
use delfin.Database.{
  Row, Resource, Engine, IsEngine, Database, ids, native_ids, resource_native_ids, of_storage,
  resource_refs,
}
use delfin.Database.Permuted.{any_row, any_row-filter, elem-map_any}
use delfin.Database.Bulk.{unidentified, IsFresh}
use delfin.Sync.Task.{DriverApi}
use delfin.Sync.Manager.{TaskClass, sync_of}
use delfin.Sync.Matching.{find_resource, rewritten}
use delfin.Sync.Mirror.Rows.{survives, refreshed, surviving_rows}
use delfin.Sync.Mirror.{is_single, kind_of, list_of, unknown, new_rows, sync_of-rewrites}

-- The table has a row of the storage with this native id.
abbrev pub stored : ℕ → List Row → ℕ → Bool
stored s rows n = elem n (native_ids (filter (of_storage s) rows))

-- The driver lists only resources of the storage.
abbrev pub owned : ℕ → List Resource → Bool
owned s [] = true
owned s (r ∷ rs) = r.storage_id == s && owned s rs

abbrev stored_as : ℕ → ℕ → Row → Bool
stored_as s n row = of_storage s row && n == row.native_id

stored_any : (s n : ℕ) (rows : List Row) → stored s rows n ≡ any_row (stored_as s n) rows
stored_any s n rows =
    elem-map_any n (λ row. row.native_id) (filter (of_storage s) rows)
    ∙ any_row-filter (λ row. n == row.native_id) (of_storage s) rows

any_row-append :
    (p : Row → Bool) (xs ys : List Row) → any_row p (xs ++ ys) ≡ (any_row p xs || any_row p ys)
any_row-append p [] ys = refl
any_row-append p (x ∷ xs) ys = ground (arith, any_row-append p xs ys)

-- What is found for a native id that is listed.
find_resource_listed :
    (s m : ℕ) (rs : List Resource)
    → owned s rs ≡ true
    → elem m (resource_native_ids rs) ≡ true
    → (r : Resource) × (find_resource m rs ≡ some r) × (r.native_id ≡ m) × (r.storage_id ≡ s)
find_resource_listed s m [] own h = absurd (ground arith)
find_resource_listed s m (r ∷ rs) own h = elim (Bool-cases (r.native_id == m)) [
  | inl e ↦ (r, rw e refl, ==→eq r.native_id m e, ==→eq r.storage_id s (ground arith))
  | inr e ↦
      let (q, found, native, storage) = find_resource_listed s m rs (ground arith) (ground arith) in
      (q, rw e found, native, storage)
]

stored_as-refreshed :
    (s n : ℕ) (rs : List Resource) (row : Row)
    → owned s rs ≡ true
    → survives s rs row ≡ true
    → stored_as s n (refreshed s rs row) ≡ (stored_as s n row && elem n (resource_native_ids rs))
stored_as-refreshed s n rs row own stays = elim (Bool-cases (of_storage s row)) [
  | inl mine ↦
      let (r, found, native, storage) =
        find_resource_listed s row.native_id rs own (ground arith) in
      ap (λ b. stored_as s n (if b then rewritten (find_resource row.native_id rs) row else row))
        mine
      ∙ ap (λ o. stored_as s n (rewritten o row)) found
      ∙ elim (Bool-cases (n == row.native_id)) [
        | inl e ↦
            let same = ==→eq n row.native_id e in
            let listed : elem n (resource_native_ids rs) ≡ true =
              ap (λ m. elem m (resource_native_ids rs)) same ∙ ground arith in
            ground arith
        | inr e ↦ ground arith
      ]
  | inr other ↦
      ap (λ b. stored_as s n (if b then rewritten (find_resource row.native_id rs) row else row))
        other
      ∙ ground arith
]

stored_as-gone :
    (s n : ℕ) (rs : List Resource) (row : Row)
    → survives s rs row ≡ false
    → (stored_as s n row && elem n (resource_native_ids rs)) ≡ false
stored_as-gone s n rs row gone = elim (Bool-cases (n == row.native_id)) [
  | inl e ↦
      let same = ap (λ m. elem m (resource_native_ids rs)) (==→eq n row.native_id e) in ground arith
  | inr e ↦ ground arith
]

surviving-stored :
    (s n : ℕ) (rs : List Resource) (rows : List Row)
    → owned s rs ≡ true
    → any_row (stored_as s n) (surviving_rows s rs rows)
      ≡ (any_row (stored_as s n) rows && elem n (resource_native_ids rs))
surviving-stored s n rs [] own = refl
surviving-stored s n rs (row ∷ rows) own =
    let rest = surviving-stored s n rs rows own in
    elim (Bool-cases (survives s rs row)) [
      | inl stays ↦
          ap
            (λ b. any_row (stored_as s n) (
              map (refreshed s rs)
                (if b then row ∷ filter (survives s rs) rows else filter (survives s rs) rows)))
            stays
          ∙ ap₂ (λ a b. a || b) (stored_as-refreshed s n rs row own stays) rest
          ∙ ground arith
      | inr gone ↦
          let none_here = stored_as-gone s n rs row gone in
          ap
            (λ b. any_row (stored_as s n) (
              map (refreshed s rs)
                (if b then row ∷ filter (survives s rs) rows else filter (survives s rs) rows)))
            gone
          ∙ rest
          ∙ ground arith
    ]

new_rows-stored :
    (sql : Engine) (issued s n : ℕ) (p : Resource → Bool) (rs : List Resource)
    → owned s rs ≡ true
    → unidentified rs ≡ true
    → any_row (stored_as s n) (resource_refs sql issued (filter p rs)).0
      ≡ elem n (resource_native_ids (filter p rs))
unfolding resource_refs
new_rows-stored sql issued s n p [] own new = refl
new_rows-stored sql issued s n p (r ∷ rs) own new = elim (Bool-cases (p r)) [
  | inl e ↦
      let rest = new_rows-stored sql (suc issued) s n p rs (ground arith) (ground arith) in
      let fresh : r.id ≡ none = ground arith in rw (e, fresh) (ground arith)
  | inr e ↦ rw e (new_rows-stored sql issued s n p rs (ground arith) (ground arith))
]

elem-unknown :
    (s n : ℕ) (rows : List Row) (rs : List Resource)
    → elem n (resource_native_ids (filter (unknown s rows) rs))
      ≡ (elem n (resource_native_ids rs) && not (stored s rows n))
elem-unknown s n rows [] = refl
elem-unknown s n rows (r ∷ rs) =
    let rest = elem-unknown s n rows rs in
    elim (Bool-cases (n == r.native_id)) [
      | inl e ↦ let same = ap (stored s rows) (==→eq n r.native_id e) in ground arith
      | inr e ↦ ground arith
    ]

-- For an engine that issues no uuid twice and returns the rows that it selects, and a class that
-- fills one table: when the driver answers with resources of this storage only,
-- with no id and no native id twice, when the ids in the table are distinct, so are the native
-- ids of the storage's rows, and no uuid to come is an id in the table: after `sync` the table has
-- a row of the storage for exactly the native ids that the driver lists.
pub sync_of-lists :
    (sql : Engine) (driver : DriverApi) (cls : TaskClass) (s : ℕ) (rs : List Resource)
    (d : Database) (n : ℕ)
    → IsEngine sql
    → is_single cls ≡ true
    → list_of cls driver s ≡ ok rs
    → owned s rs ≡ true
    → unidentified rs ≡ true
    → distinct (resource_native_ids rs) ≡ true
    → distinct (ids (d.table (kind_of cls))) ≡ true
    → distinct (native_ids (filter (of_storage s) (d.table (kind_of cls)))) ≡ true
    → IsFresh sql d.issued (d.table (kind_of cls))
    → stored s ((sync_of sql driver cls s d).1.table (kind_of cls)) n
      ≡ elem n (resource_native_ids rs)
sync_of-lists sql driver cls s rs d n engine single listed own new unique_listed unique
      unique_native fresh =
    let rows = d.table (kind_of cls) in
    let (_, table, _) =
      sync_of-rewrites sql driver cls s rs d engine single listed new unique_listed unique
        unique_native fresh in
    ap (λ x. stored s x n) table
    ∙ stored_any s n (surviving_rows s rs rows ++ (new_rows sql d.issued s rs rows).0)
    ∙ any_row-append (stored_as s n) (surviving_rows s rs rows) (new_rows sql d.issued s rs rows).0
    ∙ ap₂ (λ a b. a || b)
        (surviving-stored s n rs rows own
          ∙ ap (λ b. b && elem n (resource_native_ids rs)) (sym (stored_any s n rows)))
        (new_rows-stored sql d.issued s n (unknown s rows) rs own new ∙ elem-unknown s n rows rs)
    ∙ absorb (stored s rows n) (elem n (resource_native_ids rs))
  where
    absorb : (a b : Bool) → (a && b || b && not a) ≡ b
    absorb true true = refl
    absorb true false = refl
    absorb false true = refl
    absorb false false = refl
