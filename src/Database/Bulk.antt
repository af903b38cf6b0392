-- ===== src/Database/Bulk.antt =====
-- The loops of the bulk calls of delfin/db/sqlalchemy/api.py, each as one pass over the table.
use delfin.Prelude.{
  ℕ, suc, ◌≤◌, ◌≡◌, refl, sym, ap, fun_ext, ◌∙◌, Bool, true, false, not, ◌||◌, none, some, List, [],
  ◌∷◌, ◌++◌, map, arith, elem, distinct, filter, ◌==◌, ==→eq, Bool-cases, inl, inr, filter-filter,
}
use mathlib.Core.List.{append-nil, append_assoc}
use delfin.Database.Rows.{
  Row, Resource, Engine, IsEngine, ids, delete_by_id, resources_delete, update_by_id,
  resources_update, resource_refs, new_row,
}

abbrev pub unlisted_id : List ℕ → Row → Bool
unlisted_id is row = not (elem row.id is)

filter-true : (rows : List Row) → rows ≡ filter (unlisted_id []) rows
filter-true [] = refl
filter-true (row ∷ rows) = ap (λ xs. row ∷ xs) (filter-true rows)

pub resources_delete-filter :
    (is : List ℕ) (rows : List Row) → resources_delete is rows ≡ filter (unlisted_id is) rows
unfolding resources_delete
resources_delete-filter [] rows = filter-true rows
resources_delete-filter (i ∷ is) rows =
    resources_delete-filter is (delete_by_id i rows)
    ∙ filter-filter (unlisted_id is) (λ row. not (row.id == i)) rows
    ∙ ap (λ p. filter p rows) (fun_ext (λ row. ground arith))

-- The updates that a row sees, one after the other.
abbrev pub update_all : List Resource → Row → Row
update_all [] row = row
update_all (r ∷ rs) row = update_all rs (update_by_id r row)

map-map : (f g : Row → Row) (rows : List Row) → map f (map g rows) ≡ map (λ row. f (g row)) rows
map-map f g [] = refl
map-map f g (row ∷ rows) = ap (λ xs. f (g row) ∷ xs) (map-map f g rows)

map-id : (rows : List Row) → rows ≡ map (λ row. row) rows
map-id [] = refl
map-id (row ∷ rows) = ap (λ xs. row ∷ xs) (map-id rows)

pub resources_update-map :
    (rs : List Resource) (rows : List Row) → resources_update rs rows ≡ map (update_all rs) rows
unfolding resources_update
resources_update-map [] rows = map-id rows
resources_update-map (r ∷ rs) rows =
    resources_update-map rs (map (update_by_id r) rows)
    ∙ map-map (update_all rs) (update_by_id r) rows

-- No resource of the list has an id yet, as the drivers return them.
abbrev pub unidentified : List Resource → Bool
unidentified [] = true
unidentified (r ∷ rs) = elim r.id [ none ↦ unidentified rs | some i ↦ false ]

pub unidentified-filter :
    (p : Resource → Bool) (rs : List Resource)
    → unidentified rs ≡ true
    → unidentified (filter p rs) ≡ true
unidentified-filter p [] h = refl
unidentified-filter p (r ∷ rs) h = ground (arith, unidentified-filter p rs)

elem-ids-append :
    (i : ℕ) (xs ys : List Row) → elem i (ids (xs ++ ys)) ≡ (elem i (ids xs) || elem i (ids ys))
elem-ids-append i [] ys = refl
elem-ids-append i (x ∷ xs) ys = ground (arith, elem-ids-append i xs ys)

distinct-snoc :
    (xs : List Row) (x : Row)
    → distinct (ids xs) ≡ true
    → elem x.id (ids xs) ≡ false
    → distinct (ids (xs ++ x ∷ [])) ≡ true
distinct-snoc [] x unique new = refl
distinct-snoc (y ∷ xs) x unique new =
    let apart = elem-ids-append y.id xs (x ∷ []) in
    let rest = distinct-snoc xs x (ground arith) (ground arith) in ground (arith, apart, rest)

-- The engine issues no uuid from now on that is an id in the table.
abbrev pub IsFresh : Engine → ℕ → List Row → Type 0
IsFresh sql issued rows = (n : ℕ) → issued ≤ n → elem (sql.uuid n) (ids rows) ≡ false

uuid_ne : (sql : Engine) → IsEngine sql → (m n : ℕ) → suc m ≤ n → (sql.uuid n == sql.uuid m) ≡ false
uuid_ne sql engine m n h = elim (Bool-cases (sql.uuid n == sql.uuid m)) [
  | inl e ↦ let same = engine.unique n m (==→eq (sql.uuid n) (sql.uuid m) e) in absurd (omega arith)
  | inr e ↦ e
]

-- The rows that are created go into the table without a clash.
pub resource_refs-distinct :
    (sql : Engine)
    → IsEngine sql
    → (issued : ℕ) (rs : List Resource) (rows : List Row) → unidentified rs ≡ true
    → distinct (ids rows) ≡ true
    → IsFresh sql issued rows
    → distinct (ids (rows ++ (resource_refs sql issued rs).0)) ≡ true
unfolding resource_refs
resource_refs-distinct sql engine issued [] rows new unique fresh =
    ap (λ xs. distinct (ids xs)) (append-nil rows) ∙ unique
resource_refs-distinct sql engine issued (r ∷ rs) rows new unique fresh =
    let row : Row = new_row (sql.uuid issued) r in
    let e : r.id ≡ none = ground arith in
    let snoc = distinct-snoc rows row unique (fresh issued (omega arith)) in
    let rest =
      resource_refs-distinct sql engine (suc issued) rs (rows ++ row ∷ []) (ground arith) snoc
        (λ n h.
          let old = fresh n (omega arith) in
          let apart = uuid_ne sql engine issued n h in
          ground (arith, old, apart, elem-ids-append (sql.uuid n) rows (row ∷ []))) in
    rw e (
      ap (λ xs. distinct (ids xs))
        (sym (append_assoc rows (row ∷ []) (resource_refs sql (suc issued) rs).0))
      ∙ rest)
