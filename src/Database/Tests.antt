-- ===== src/Database/Tests.antt =====
-- Runs of the sorted and paged queries of delfin/db/sqlalchemy/api.py.
use delfin.Prelude.{ℕ, ◌≡◌, refl, true, false, Option, none, some, List, [], ◌∷◌}
use delfin.Errors.{ok}
use delfin.Database.Sorting.{asc, desc, process_sort_params}
use delfin.Database.SortParams.{SortParams, process_sort_params-SortParams}
use delfin.Database.Paging.{SortBy, after_marker, comes_after, all_same, after_marker-comes_after}

process_sort_params-SortParams_example :
    SortParams
      (4 ∷ 0 ∷ [])
      desc
      (3 ∷ 4 ∷ [])
      (asc ∷ [])
      (process_sort_params (4 ∷ 0 ∷ []) desc (some (3 ∷ 4 ∷ [])) (some (asc ∷ [])))
process_sort_params-SortParams_example =
    process_sort_params-SortParams (4 ∷ 0 ∷ []) desc (some (3 ∷ 4 ∷ [])) (some (asc ∷ [])) refl

-- The missing directions and the default key take the first direction of the request.
sort_params-run :
    process_sort_params (0 ∷ []) desc (some (3 ∷ 4 ∷ [])) (some (asc ∷ []))
    ≡ ok (3 ∷ 4 ∷ 0 ∷ [], asc ∷ asc ∷ asc ∷ [])
unfolding process_sort_params
sort_params-run = refl

abbrev by_first : List (SortBy (ℕ × Option ℕ))
by_first =
    record { column = record { value = λ row. some row.0; default = 0 }; direction = asc }
    ∷ record { column = record { value = λ row. row.1; default = 7 }; direction = desc }
    ∷ []

abbrev marked : ℕ × Option ℕ
marked = (4, none)

abbrev tied : ℕ × Option ℕ
tied = (4, some 7)

after_marker-comes_after_example :
    (after_marker by_first (some marked) tied ≡ comes_after by_first marked tied)
    × (all_same marked tied by_first ≡ true → after_marker by_first (some marked) tied ≡ false)
after_marker-comes_after_example = after_marker-comes_after by_first marked tied
