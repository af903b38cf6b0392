-- ===== src/Database/Lookup.antt =====
-- Rows found by their native id, as `_classify_resources` of
-- delfin/task_manager/tasks/resources.py finds them, and lists of ids under removal.
use delfin.Prelude.{
  ℕ, ◌≡◌, refl, Bool, true, false, not, ◌&&◌, Option, none, some, List, [], ◌∷◌, arith, elem,
  distinct, remove, filter, ◌==◌, if◌then◌else◌, Bool-cases, inl, inr,
}
use delfin.Database.Rows.{Row, ids, native_ids}

-- `db_resources[original_ids_in_db.index(n)]['id']`; `none` is the ValueError of `index`.
abbrev pub id_of : ℕ → List Row → Option ℕ
id_of n [] = none
id_of n (row ∷ rows) = if n == row.native_id then some row.id else id_of n rows

abbrev pub keeps : (ℕ → Bool) → Row → Bool
keeps p row = p row.native_id

abbrev pub without : ℕ → (ℕ → Bool) → ℕ → Bool
without n p m = p m && not (m == n)

pub id_of_present :
    (n : ℕ) (rows : List Row) → elem n (native_ids rows) ≡ true → (i : ℕ) × (id_of n rows ≡ some i)
id_of_present n [] h = ground arith
id_of_present n (row ∷ rows) h = elim (Bool-cases (n == row.native_id)) [
  | inl e ↦ (row.id, rw e)
  | inr e ↦ let (i, found) = id_of_present n rows (ground arith) in (i, rw e found)
]

pub id_of-elem : (n i : ℕ) (rows : List Row) → id_of n rows ≡ some i → elem i (ids rows) ≡ true
id_of-elem n i [] h = ground arith
id_of-elem n i (row ∷ rows) h = ground (arith, id_of-elem n i rows)

pub elem-ids-filter :
    (i : ℕ) (p : Row → Bool) (rows : List Row)
    → elem i (ids rows) ≡ false
    → elem i (ids (filter p rows)) ≡ false
elem-ids-filter i p [] h = refl
elem-ids-filter i p (row ∷ rows) h = ground (arith, elem-ids-filter i p rows)

pub remove-absent : (i : ℕ) (is : List ℕ) → elem i is ≡ false → remove i is ≡ none
remove-absent i [] h = refl
remove-absent i (j ∷ is) h = ground (arith, remove-absent i is)

-- The ids of the rows whose native id passes a test, as one recursion.
abbrev pub kept_ids : (ℕ → Bool) → List Row → List ℕ
kept_ids p [] = []
kept_ids p (row ∷ rows) = if p row.native_id then row.id ∷ kept_ids p rows else kept_ids p rows

pub ids-filter : (p : ℕ → Bool) (rows : List Row) → ids (filter (keeps p) rows) ≡ kept_ids p rows
ids-filter p [] = refl
ids-filter p (row ∷ rows) = elim (Bool-cases (p row.native_id)) [
  | inl e ↦ rw e (rw (ids-filter p rows))
  | inr e ↦ rw e (ids-filter p rows)
]

pub kept_ids-all : (rows : List Row) → ids rows ≡ kept_ids (λ m. true) rows
kept_ids-all [] = refl
kept_ids-all (row ∷ rows) = rw (kept_ids-all rows)

kept_ids-without :
    (n : ℕ) (p : ℕ → Bool) (rows : List Row)
    → elem n (native_ids rows) ≡ false
    → kept_ids (without n p) rows ≡ kept_ids p rows
kept_ids-without n p [] h = refl
kept_ids-without n p (row ∷ rows) h = ground (arith, kept_ids-without n p rows)

elem-kept_ids :
    (i : ℕ) (p : ℕ → Bool) (rows : List Row)
    → elem i (ids rows) ≡ false
    → elem i (kept_ids p rows) ≡ false
elem-kept_ids i p [] h = refl
elem-kept_ids i p (row ∷ rows) h = ground (arith, elem-kept_ids i p rows)

-- `delete_id_list.remove(id)` while the list holds the ids of the rows that `p` keeps.
pub remove-id_of :
    (n i : ℕ) (p : ℕ → Bool) (rows : List Row)
    → distinct (ids rows) ≡ true
    → distinct (native_ids rows) ≡ true
    → id_of n rows ≡ some i
    → remove i (kept_ids p rows) ≡ (if p n then some (kept_ids (without n p) rows) else none)
remove-id_of n i p [] du dn h = ground arith
remove-id_of n i p (row ∷ rows) du dn h = ground (
  arith,
  remove-id_of n i p rows,
  kept_ids-without n p rows,
  elem-kept_ids row.id p rows,
  remove-absent i (kept_ids p rows),
  id_of-elem n i rows,
)
