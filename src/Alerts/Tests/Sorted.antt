-- ===== src/Alerts/Tests/Sorted.antt =====
-- A database that sorts the alert sources by insertion, the newest first.
use mathlib.Core.List.{Permᴰ}
use mathlib.Core.List.Permᴰ
use delfin.Prelude.{
  ◌≡◌, refl, Bool, true, false, ◌||◌, List, [], ◌∷◌, leb, if◌then◌else◌, arith, Bool-cases, inl,
  inr,
}
use delfin.Database.Permuted.{any_row}
use delfin.Database.Paging.{SortBy, IsOrder, not_before, comes_after}
use delfin.Alerts.Source.{AlertSource}
use delfin.Alerts.Marked.{time_of, newest_first}

abbrev pub insert : AlertSource → List AlertSource → List AlertSource
insert x [] = x ∷ []
insert x (y ∷ ys) = if leb (time_of y) (time_of x) then x ∷ y ∷ ys else y ∷ insert x ys

abbrev pub insertion_sort : List (SortBy AlertSource) → List AlertSource → List AlertSource
insertion_sort sorts [] = []
insertion_sort sorts (x ∷ xs) = insert x (insertion_sort sorts xs)

any_row-insert :
    (p : AlertSource → Bool) (x : AlertSource) (ys : List AlertSource)
    → any_row p (insert x ys) ≡ (p x || any_row p ys)
any_row-insert p x [] = refl
any_row-insert p x (y ∷ ys) = let rest = any_row-insert p x ys in ground (arith, rest)

-- Nothing that is above a row is above one that is not below it.
none_above :
    (x y : AlertSource) (ys : List AlertSource)
    → leb (time_of y) (time_of x) ≡ true
    → any_row (λ z. comes_after newest_first z y) ys ≡ false
    → any_row (λ z. comes_after newest_first z x) ys ≡ false
none_above x y [] l h = refl
none_above x y (z ∷ ys) l h = let rest = none_above x y ys l (ground arith) in ground (arith, rest)

insert-not_before :
    (x : AlertSource) (ys : List AlertSource)
    → not_before newest_first ys ≡ true
    → not_before newest_first (insert x ys) ≡ true
insert-not_before x [] h = refl
insert-not_before x (y ∷ ys) h = elim (Bool-cases (leb (time_of y) (time_of x))) [
  | inl l ↦ let above = none_above x y ys l (ground arith) in rw l (ground arith)
  | inr n ↦
      let rest = insert-not_before x ys (ground arith) in
      let all = any_row-insert (λ z. comes_after newest_first z y) x ys in
      rw n (ground (arith, rest, all))
]

insertion_sort-not_before :
    (xs : List AlertSource) → not_before newest_first (insertion_sort newest_first xs) ≡ true
insertion_sort-not_before [] = refl
insertion_sort-not_before (x ∷ xs) =
    insert-not_before x (insertion_sort newest_first xs) (insertion_sort-not_before xs)

insert-Permᴰ : (x : AlertSource) (ys : List AlertSource) → Permᴰ (insert x ys) (x ∷ ys)
insert-Permᴰ x [] = Permᴰ.refl (x ∷ [])
insert-Permᴰ x (y ∷ ys) = elim (Bool-cases (leb (time_of y) (time_of x))) [
  | inl l ↦ rw l (Permᴰ.refl (x ∷ y ∷ ys))
  | inr n ↦ rw n (Permᴰ.trans (Permᴰ.cons refl (insert-Permᴰ x ys)) (Permᴰ.swap refl refl))
]

insertion_sort-Permᴰ : (xs : List AlertSource) → Permᴰ (insertion_sort newest_first xs) xs
insertion_sort-Permᴰ [] = Permᴰ.nil
insertion_sort-Permᴰ (x ∷ xs) =
    Permᴰ.trans (insert-Permᴰ x (insertion_sort newest_first xs))
      (Permᴰ.cons refl (insertion_sort-Permᴰ xs))

pub insertion_sort-IsOrder : IsOrder newest_first insertion_sort
insertion_sort-IsOrder = record {
  permutes = λ rows. ∣ insertion_sort-Permᴰ rows ∣₁;
  sorted = insertion_sort-not_before;
}
