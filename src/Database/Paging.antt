-- ===== src/Database/Paging.antt =====
-- `paginate_query` of delfin/common/sqlalchemyutils.py and `_generate_paginate_query` of delfin/db/
-- sqlalchemy/api.py. The order in which the SQL engine returns rows is a parameter.
use mathlib.Core.List.{Perm}
use delfin.Prelude.{
  ℕ, ◌≡◌, refl, ap, ◌∙◌, Bool, true, false, not, ◌&&◌, ◌||◌, Option, none, some, List, [], ◌∷◌,
  ◌++◌, filter, ltb, ◌==◌, if◌then◌else◌, arith, take, drop,
}
use delfin.Database.Permuted.{any_row}
use delfin.Errors.{Result, ok, err, ◌>>=◌, or_raise, invalid_input, other_exception}
use delfin.Database.Sorting.{Direction, asc, desc, unknown, process_sort_params}

-- An attribute of a model with the value that stands in for NULL.
pub record Column (R : Type 0) : Type 0 where
  pub value : R → Option ℕ
  pub default : ℕ

pub record SortBy (R : Type 0) : Type 0 where
  pub column : Column R
  pub direction : Direction

-- The filters of a query: none, some on an attribute that the model does not have, or a test.
pub data Filters (R : Type 0) : Type 0 where
  no_filters invalid_filters : Filters R
  matching : (R → Bool) → Filters R

-- The default key of a list is this one.
abbrev pub created_at : ℕ
created_at = 0

abbrev pub any_of : List Bool → Bool
any_of [] = false
any_of (b ∷ bs) = b || any_of bs

module _ {R : Type 0} where
  -- `case([(attr.isnot(None), attr)], else_=default)`
  abbrev pub value_of : SortBy R → R → ℕ
  value_of s r = elim (s.column.value r) [ none ↦ s.column.default | some n ↦ n ]

  abbrev pub same_value : R → R → SortBy R → Bool
  same_value marker row s = value_of s row == value_of s marker

  abbrev pub beyond : R → R → SortBy R → Bool
  beyond marker row s = elim s.direction [
    | asc ↦ ltb (value_of s marker) (value_of s row)
    | desc ↦ ltb (value_of s row) (value_of s marker)
    | unknown ↦ false
  ]

  abbrev pub all_same : R → R → List (SortBy R) → Bool
  all_same marker row [] = true
  all_same marker row (s ∷ ss) = same_value marker row s && all_same marker row ss

  -- `criteria_list`: for each key the conjunction of equations on the keys before it and of the
  -- comparison by it.
  abbrev pub criteria : R → R → List (SortBy R) → List (SortBy R) → List Bool
  criteria marker row before [] = []
  criteria marker row before (s ∷ ss) =
      (all_same marker row before && beyond marker row s)
      ∷ criteria marker row (before ++ s ∷ []) ss

  unfoldable pub after_marker : List (SortBy R) → Option R → R → Bool
  after_marker sorts none row = true
  after_marker sorts (some marker) row = any_of (criteria marker row [] sorts)

  -- The columns of the keys with their directions; a key that the model does not have is refused.
  abbrev pub sort_bys : (ℕ → Option (Column R)) → List ℕ → List Direction → Result (List (SortBy R))
  sort_bys columns [] [] = ok []
  sort_bys columns [] (d ∷ ds) = err other_exception
  sort_bys columns (k ∷ ks) [] = err other_exception
  sort_bys columns (k ∷ ks) (unknown ∷ ds) = err other_exception
  sort_bys columns (k ∷ ks) (asc ∷ ds) = do
    c ← or_raise (columns k) invalid_input
    rest ← sort_bys columns ks ds
    ok ((record { column = c; direction = asc }) ∷ rest)
  sort_bys columns (k ∷ ks) (desc ∷ ds) = do
    c ← or_raise (columns k) invalid_input
    rest ← sort_bys columns ks ds
    ok ((record { column = c; direction = desc }) ∷ rest)

  abbrev pub limited : Option ℕ → List R → List R
  limited none rows = rows
  limited (some n) rows = take n rows

  -- The rows of the query, of which the engine evaluates the filter, the order, the offset and the
  -- limit one after the other.
  unfoldable pub paginate_query :
      (List (SortBy R) → List R → List R)
      → (ℕ → Option (Column R))
      → List ℕ
      → List Direction
      → Option R
      → Option ℕ
      → ℕ
      → List R
      → Result (List R)
  unfolding after_marker
  paginate_query order_by columns keys dirs marker limit offset rows = do
    sorts ← sort_bys columns keys dirs
    ok (limited limit (drop offset (order_by sorts (filter (after_marker sorts marker) rows))))

  abbrev pub marker_object : (ℕ → List R → Result R) → Option ℕ → List R → Result (Option R)
  marker_object get none rows = ok none
  marker_object get (some i) rows = elim (get i rows) [ ok r ↦ ok (some r) | err e ↦ err e ]

  abbrev pub filtered : Filters R → List R → List R
  filtered no_filters rows = rows
  filtered invalid_filters rows = []
  filtered (matching p) rows = filter p rows

  abbrev pub is_invalid : Filters R → Bool
  is_invalid no_filters = false
  is_invalid invalid_filters = true
  is_invalid (matching p) = false

  -- With the query that is built here evaluated: no row if the filters are invalid.
  unfoldable pub generate_paginate_query :
      (List (SortBy R) → List R → List R)
      → (ℕ → Option (Column R))
      → (ℕ → List R → Result R)
      → Option ℕ
      → Option ℕ
      → Option (List ℕ)
      → Option (List Direction)
      → Filters R
      → ℕ
      → List R
      → Result (List R)
  unfolding process_sort_params paginate_query
  generate_paginate_query order_by columns get marker limit keys dirs filters offset rows = do
    params ← process_sort_params (created_at ∷ []) desc keys dirs
    if is_invalid filters
        then ok []
        else marker_object get marker rows >>= λ m.
            paginate_query order_by columns params.0 params.1 m limit offset (filtered filters rows)

  -- A query with a marker and neither keys nor filters.
  pub generate_paginate_query-marker :
      (order_by : List (SortBy R) → List R → List R) (columns : ℕ → Option (Column R))
      (get : ℕ → List R → Result R) (i : ℕ) (limit : Option ℕ) (rows : List R) (r : R)
      → get i rows ≡ ok r
      → generate_paginate_query order_by columns get (some i) limit none none no_filters 0 rows
        ≡ paginate_query order_by columns (created_at ∷ []) (desc ∷ []) (some r) limit 0 rows
  unfolding generate_paginate_query process_sort_params
  generate_paginate_query-marker order_by columns get i limit rows r e =
      ap
        (λ x. marker_object (λ _ _. x) (some i) rows >>= λ m.
          paginate_query order_by columns (created_at ∷ []) (desc ∷ []) m limit 0 rows)
        e

  -- The row comes strictly after the marker in the lexicographic order of the keys.
  abbrev pub comes_after : List (SortBy R) → R → R → Bool
  comes_after [] marker row = false
  comes_after (s ∷ ss) marker row =
      beyond marker row s || same_value marker row s && comes_after ss marker row

  -- No row comes strictly after one that stands behind it.
  abbrev pub not_before : List (SortBy R) → List R → Bool
  not_before sorts [] = true
  not_before sorts (x ∷ xs) = not (any_row (λ y. comes_after sorts y x) xs) && not_before sorts xs

  -- What the SQL engine documents of `ORDER BY`: it returns the same rows, in an order of the keys.
  pub record IsOrder (sorts : List (SortBy R)) (order_by : List (SortBy R) → List R → List R)
      : Type 0 where
    pub permutes : (rows : List R) → Perm (order_by sorts rows) rows
    pub sorted : (rows : List R) → not_before sorts (order_by sorts rows) ≡ true

  all_same-append :
      (marker row : R) (b : List (SortBy R)) (s : SortBy R)
      → all_same marker row (b ++ s ∷ []) ≡ (all_same marker row b && same_value marker row s)
  all_same-append marker row [] s = ground arith
  all_same-append marker row (x ∷ b) s =
      let ih = all_same-append marker row b s in ground (arith, ih)

  criteria-lem :
      (marker row : R) (b ss : List (SortBy R))
      → any_of (criteria marker row b ss) ≡ (all_same marker row b && comes_after ss marker row)
  criteria-lem marker row b [] = ground arith
  criteria-lem marker row b (s ∷ ss) =
      let ih = criteria-lem marker row (b ++ s ∷ []) ss in
      let split = all_same-append marker row b s in ground (arith, ih, split)

  same-beyond :
      (marker row : R) (c : Column R) (d : Direction)
      → same_value marker row (record { column = c; direction = d }) ≡ true
      → beyond marker row (record { column = c; direction = d }) ≡ false
  same-beyond marker row c asc h = ground arith
  same-beyond marker row c desc h = ground arith
  same-beyond marker row c unknown h = refl

  -- The criteria that are built key by key select exactly the rows that come strictly after the marker
  -- in the lexicographic order of the keys; a row with the marker's values in all of them is not
  -- selected.
  pub after_marker-comes_after :
      (sorts : List (SortBy R)) (marker row : R)
      → (after_marker sorts (some marker) row ≡ comes_after sorts marker row)
        × (all_same marker row sorts ≡ true → after_marker sorts (some marker) row ≡ false)
  unfolding after_marker
  after_marker-comes_after sorts marker row =
      let e = criteria-lem marker row [] sorts in (e, λ h. e ∙ never sorts h)
    where
      never :
          (ss : List (SortBy R)) → all_same marker row ss ≡ true → comes_after ss marker row ≡ false
      never [] h = refl
      never (s ∷ ss) h =
          let rest = never ss (ground arith) in
          let not_beyond = same-beyond marker row s.column s.direction (ground arith) in
          ground arith
