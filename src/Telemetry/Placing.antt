-- ===== src/Telemetry/Placing.antt =====
-- Updates of single rows, one after the other, as one pass over a table of the scheduling code
-- (delfin/task_manager/scheduler/schedule_manager.py). `key` is the id of a row.
use mathlib.Core.List.{Perm}
use delfin.Prelude.{
  ℕ, ◌≡◌, refl, sym, ap, ap₂, ◌∙◌, Bool, true, false, List, [], ◌∷◌, map, filter, arith, elem,
  distinct, ◌==◌, ==→eq, if◌then◌else◌,
}
use delfin.Database.Permuted.{elem-Perm}

module _ {A : Type 0} (key : A → ℕ) (put : ℕ → A → A) where
  -- The rows with these ids are written.
  abbrev pub placed : List ℕ → List A → List A
  placed is = map λ u. if elem (key u) is then put (key u) u else u

  pub placed-nil : (xs : List A) → placed [] xs ≡ xs
  placed-nil [] = refl
  placed-nil (x ∷ xs) = ap (λ ys. x ∷ ys) (placed-nil xs)

  pub placed-cons :
      (i : ℕ) (is : List ℕ) (xs : List A)
      → ((j : ℕ) (u : A) → key (put j u) ≡ key u)
      → ((j : ℕ) (u : A) → put j (put j u) ≡ put j u)
      → placed is (map (λ u. if key u == i then put i u else u) xs) ≡ placed (i ∷ is) xs
  placed-cons i is [] same idem = refl
  placed-cons i is (x ∷ xs) same idem =
      ap₂ (λ u us. u ∷ us) (at_row (key x == i) refl) (placed-cons i is xs same idem)
    where
      again : (b : Bool) → (if b then put i (put i x) else put i x) ≡ put i x
      again true = idem i x
      again false = refl

      at_row :
          (b : Bool)
          → (key x == i) ≡ b
          → (let u = if key x == i then put i x else x in
              if elem (key u) is then put (key u) u else u)
            ≡ (if elem (key x) (i ∷ is) then put (key x) x else x)
      at_row true e =
          let eq : key x ≡ i = ==→eq (key x) i e in
          rw e (
            ap (λ k. if elem k is then put k (put i x) else put i x) (same i x ∙ eq)
            ∙ again (elem i is)
            ∙ ap (λ k. put k x) (sym eq))
      at_row false e = rw e refl

  -- Only the ids that stand in the table matter.
  placed-congr :
      (q r : ℕ → Bool) (xs : List A)
      → ((i : ℕ) → elem i (map key xs) ≡ true → q i ≡ r i)
      → map (λ u. if q (key u) then put (key u) u else u) xs
        ≡ map (λ u. if r (key u) then put (key u) u else u) xs
  placed-congr q r [] h = refl
  placed-congr q r (x ∷ xs) h =
      ap₂ (λ u us. u ∷ us) (ap (λ b. if b then put (key x) x else x) (h (key x) (ground arith)))
        (placed-congr q r xs (λ i e. h i (ground arith)))

  elem-filter_absent :
      (i : ℕ) (p : A → Bool) (xs : List A)
      → elem i (map key xs) ≡ false
      → elem i (map key (filter p xs)) ≡ false
  elem-filter_absent i p [] h = refl
  elem-filter_absent i p (x ∷ xs) h = ground (arith, elem-filter_absent i p xs)

  placed-filter :
      (p : A → Bool) (xs : List A)
      → distinct (map key xs) ≡ true
      → placed (map key (filter p xs)) xs ≡ map (λ u. if p u then put (key u) u else u) xs
  placed-filter p [] unique = refl
  placed-filter p (x ∷ xs) unique =
      let gone = elem-filter_absent (key x) p xs (ground arith) in
      let here : elem (key x) (map key (filter p (x ∷ xs))) ≡ p x = ground (arith, gone) in
      ap₂ (λ u us. u ∷ us) (ap (λ b. if b then put (key x) x else x) here)
        (placed-congr (λ i. elem i (map key (filter p (x ∷ xs))))
            (λ i. elem i (map key (filter p xs))) xs (λ i e. other i (p x) (ground arith))
          ∙ placed-filter p xs (ground arith))
    where
      other :
          (i : ℕ) (b : Bool)
          → (i == key x) ≡ false
          → elem i (map key (if b then x ∷ filter p xs else filter p xs))
            ≡ elem i (map key (filter p xs))
      other i true e = ground arith
      other i false e = refl

  -- The selected rows, in whatever order, are the rows that pass the test.
  pub placed-selected :
      (p : A → Bool) (xs ys : List A)
      → distinct (map key xs) ≡ true
      → Perm ys (filter p xs)
      → placed (map key ys) xs ≡ map (λ u. if p u then put (key u) u else u) xs
  placed-selected p xs ys unique order =
      placed-congr (λ i. elem i (map key ys)) (λ i. elem i (map key (filter p xs))) xs
        (λ i e. elem-Perm i key ys (filter p xs) order)
      ∙ placed-filter p xs unique
