-- ===== src/Alerts/Marked.antt =====
-- The rows that a page of `_load_snmp_config` of delfin/alert_manager/trap_receiver.py is taken
-- from, by the time of creation of the marker.

use delfin.Prelude.{
  ℕ, zero, suc, ◌≡◌, refl, sym, ap, ◌∙◌, Bool, true, false, ◌&&◌, Option, none, some, List, [], ◌∷◌,
  filter, take, drop, length, filter-filter, ltb, ◌==◌, ==→eq, arith, Bool-cases, inl, inr,
  distinct, elem,
}
use delfin.Errors.{ok}
use delfin.Database.Permuted.{any_row, any_row-filter}
use delfin.Database.Sorting.{process_sort_params, desc}
use delfin.Database.Paging.{
  Column, SortBy, after_marker, paginate_query, generate_paginate_query, value_of, comes_after,
  generate_paginate_query-marker, after_marker-comes_after, not_before,
}
use delfin.Database.Pages.{last_of, any_row-witness, not_ascending}
use delfin.Alerts.Source.{
  AlertSource, has_storage, alert_source_get, alert_source_get_all, created_column, source_columns,
}
use delfin.Alerts.Load.{ids_of, last_marker, page_after}

-- The time of creation by which the pages are sorted.
abbrev pub time_of : AlertSource → ℕ
time_of row = value_of (record { column = created_column; direction = desc }) row

abbrev pub newest_first : List (SortBy AlertSource)
newest_first = record { column = created_column; direction = desc } ∷ []

-- The rows that a page may hold when the marker is the row of this time.
abbrev pub remaining : Option ℕ → List AlertSource → List AlertSource
remaining none rows = rows
remaining (some t) rows = filter (λ row. ltb (time_of row) t) rows

-- The row that the marker names was created at this time.
abbrev pub Marks : List AlertSource → Option ℕ → Option ℕ → Type 0
Marks rows none none = Unit
Marks rows (some s) (some t) =
    (row : AlertSource) × (alert_source_get s rows ≡ ok row) × (time_of row ≡ t)
Marks rows m t = (suc zero) ≡ zero

pub filter-true : (rows : List AlertSource) → filter (λ row. true) rows ≡ rows
filter-true [] = refl
filter-true (row ∷ rows) = ap (λ xs. row ∷ xs) (filter-true rows)

pub filter-congr_every :
    (p q : AlertSource → Bool) (rows : List AlertSource)
    → ((row : AlertSource) → p row ≡ q row)
    → filter p rows ≡ filter q rows
filter-congr_every p q [] h = refl
filter-congr_every p q (row ∷ rows) h = rw (h row, filter-congr_every p q rows h) refl

pub drop-zero : (rows : List AlertSource) → drop 0 rows ≡ rows
drop-zero [] = refl
drop-zero (row ∷ rows) = refl

pub page_after-take :
    (order_by : List (SortBy AlertSource) → List AlertSource → List AlertSource)
    (more : ℕ → Option (Column AlertSource)) (limit : ℕ) (rows : List AlertSource)
    (marker t : Option ℕ)
    → Marks rows marker t
    → page_after order_by more limit rows marker
      ≡ ok (take limit (order_by newest_first (remaining t rows)))
unfolding alert_source_get_all generate_paginate_query paginate_query process_sort_params
    after_marker
page_after-take order_by more limit rows none none h =
    rw (filter-true rows, drop-zero (order_by newest_first rows)) refl
page_after-take order_by more limit rows (some s) (some t) (row, e, f) =
    generate_paginate_query-marker order_by (source_columns more) alert_source_get s (some limit)
      rows row e
    ∙ ap (λ xs. ok (take limit xs))
        (drop-zero (order_by newest_first (filter (after_marker newest_first (some row)) rows)))
    ∙ ap (λ xs. ok (take limit (order_by newest_first xs)))
        (filter-congr_every _ _ rows (below t row f))
  where
    below :
        (t : ℕ) (marker : AlertSource)
        → time_of marker ≡ t
        → (x : AlertSource) → after_marker newest_first (some marker) x ≡ ltb (time_of x) t
    below t marker f x = (after_marker-comes_after newest_first marker x).0 ∙ rw f (ground arith)
page_after-take order_by more limit rows (some s) none h = ground arith
page_after-take order_by more limit rows none (some t) h = ground arith

pub any_row-away :
    (i t : ℕ) (rows : List AlertSource)
    → elem i (ids_of rows) ≡ false
    → any_row (λ row. has_storage i row && (time_of row == t)) rows ≡ false
any_row-away i t [] h = refl
any_row-away i t (row ∷ rows) h =
    let rest = any_row-away i t rows (ground arith) in ground (arith, rest)

-- Among rows with distinct ids the one with the id of a row that is there was created when that was.
pub first_source-time :
    (z : AlertSource) (rows : List AlertSource)
    → distinct (ids_of rows) ≡ true
    → any_row (λ row. has_storage z.storage_id row && (time_of row == time_of z)) rows ≡ true
    → Marks rows (some z.storage_id) (some (time_of z))
unfolding alert_source_get
first_source-time z [] unique here = ground arith
first_source-time z (row ∷ rows) unique here = elim (Bool-cases (has_storage z.storage_id row)) [
  | inl y ↦
      let same : elem z.storage_id (ids_of rows) ≡ elem row.storage_id (ids_of rows) =
        ap (λ i. elem i (ids_of rows)) (sym (==→eq row.storage_id z.storage_id y)) in
      let away = any_row-away z.storage_id (time_of z) rows (ground arith) in
      (row, rw y refl, ground arith)
  | inr f ↦
      let (found, e, t) = first_source-time z rows (ground arith) (ground arith) in
      (found, rw f e, t)
]

pub any_row-beyond :
    (row : AlertSource) (rows : List AlertSource)
    → any_row (λ y. comes_after newest_first y row) rows
      ≡ any_row (λ y. ltb (time_of row) (time_of y)) rows
any_row-beyond row [] = refl
any_row-beyond row (x ∷ rows) = let rest = any_row-beyond row rows in ground (arith, rest)

pub not_before-not_ascending :
    (rows : List AlertSource)
    → not_before newest_first rows ≡ true
    → not_ascending time_of rows ≡ true
not_before-not_ascending [] h = refl
not_before-not_ascending (row ∷ rows) h =
    let e = any_row-beyond row rows in
    let rest = not_before-not_ascending rows (ground arith) in ground (arith, e, rest)

pub last_marker-last :
    (row : AlertSource) (rows : List AlertSource) (m : Option ℕ)
    → last_marker (row ∷ rows) m ≡ some (last_of row rows).storage_id
last_marker-last row [] m = refl
last_marker-last row (next ∷ rows) m = last_marker-last next rows m

pub any_row-filtered :
    (p f : AlertSource → Bool) (rows : List AlertSource)
    → any_row p (filter f rows) ≡ true
    → any_row p rows ≡ true
any_row-filtered p f [] h = h
any_row-filtered p f (row ∷ rows) h = elim (Bool-cases (p row)) [
  | inl y ↦ rw y refl
  | inr n ↦ let rest = any_row-filtered p f rows (ground arith) in ground (arith, rest)
]

pub any_row-remaining :
    (p : AlertSource → Bool) (t : Option ℕ) (rows : List AlertSource)
    → any_row p (remaining t rows) ≡ true
    → any_row p rows ≡ true
any_row-remaining p none rows h = h
any_row-remaining p (some t) rows h = any_row-filtered p (λ row. ltb (time_of row) t) rows h

pub remaining-remaining :
    (t : Option ℕ) (z : AlertSource) (rows : List AlertSource)
    → any_row (λ row. has_storage z.storage_id row && (time_of row == time_of z)) (remaining t rows)
      ≡ true
    → filter (λ row. ltb (time_of row) (time_of z)) (remaining t rows)
      ≡ remaining (some (time_of z)) rows
remaining-remaining none z rows h = refl
remaining-remaining (some t) z rows h =
    let same : AlertSource → Bool =
      λ row. has_storage z.storage_id row && (time_of row == time_of z) in
    let earlier : AlertSource → Bool = λ row. ltb (time_of row) t in
    let (row, found) =
      any_row-witness (λ row. earlier row && same row) rows
        (sym (any_row-filter same earlier rows) ∙ h) in
    filter-filter (λ row. ltb (time_of row) (time_of z)) earlier rows
    ∙ filter-congr_every _ _ rows (λ x. ground arith)

pub nonempty :
    (n : ℕ) (rows : List AlertSource)
    → ltb (length (take (suc n) rows)) (suc n) ≡ false
    → (x : AlertSource) × (xs : List AlertSource) × (rows ≡ x ∷ xs)
nonempty n [] h = ground arith
nonempty n (row ∷ rows) h = (row, rows, refl)
