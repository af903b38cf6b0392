-- ===== src/Database/Pages.antt =====
-- The pages of a query sorted by one column downwards: what `paginate_query` of delfin/common/
-- sqlalchemyutils.py selects after the last row of a page.
use mathlib.Core.List.{Perm, Permᴰ}
use mathlib.Core.Logic.{∥∥₁_elim}
use delfin.Prelude.{
  ℕ, zero, suc, ◌+◌, ◌≤◌, ◌<◌, ◌≡◌, refl, ap, ◌∙◌, Bool, true, false, not, ◌&&◌, ◌||◌, List, [],
  ◌∷◌, ◌++◌, map, filter, take, drop, length, ltb, leb, if◌then◌else◌, arith, Bool-cases, inl, inr,
  distinct, elem,
}
use delfin.Database.Permuted.{any_row}

-- How many rows pass the test.
abbrev pub count {ℓ} : {A : Type ℓ} → (A → Bool) → List A → ℕ
count p [] = 0
count p (x ∷ xs) = (if p x then 1 else 0) + count p xs

count-Permᴰ : {A : Type 0} (p : A → Bool) {xs ys : List A} → Permᴰ xs ys → count p xs ≡ count p ys
count-Permᴰ p Permᴰ.nil = refl
count-Permᴰ p (Permᴰ.cons e q) = rw (e, count-Permᴰ p q) refl
count-Permᴰ p (Permᴰ.swap e f) = rw (e, f) (omega arith)
count-Permᴰ p (Permᴰ.trans q r) = count-Permᴰ p q ∙ count-Permᴰ p r

pub count-Perm : {A : Type 0} (p : A → Bool) (xs ys : List A) → Perm xs ys → count p xs ≡ count p ys
count-Perm p xs ys q =
    let prop : IsProp (count p xs ≡ count p ys) = hlevel in ∥∥₁_elim q prop (λ d. count-Permᴰ p d)

module _ {A : Type 0} where
  pub count-filter :
      (p q : A → Bool) (xs : List A) → count p (filter q xs) ≡ count (λ x. q x && p x) xs
  count-filter p q [] = refl
  count-filter p q (x ∷ xs) = ground (arith, count-filter p q xs)

  pub count-append : (p : A → Bool) (xs ys : List A) → count p (xs ++ ys) ≡ count p xs + count p ys
  count-append p [] ys = omega arith
  count-append p (x ∷ xs) ys = omega (arith, count-append p xs ys)

  pub take-drop : (n : ℕ) (xs : List A) → take n xs ++ drop n xs ≡ xs
  take-drop n [] = refl
  take-drop zero (x ∷ xs) = refl
  take-drop (suc n) (x ∷ xs) = ap (λ ys. x ∷ ys) (take-drop n xs)

  -- The last of some rows, of which the first is given.
  abbrev pub last_of : A → List A → A
  last_of x [] = x
  last_of x (y ∷ ys) = last_of y ys

module _ {A : Type 0} (c : A → ℕ) where
  -- Each row is strictly above the rows after it.
  abbrev pub descending : List A → Bool
  descending [] = true
  descending (x ∷ xs) = not (any_row (λ y. leb (c x) (c y)) xs) && descending xs

  all_below :
      (x : A) (xs : List A)
      → any_row (λ y. leb (c x) (c y)) xs ≡ false
      → filter (λ y. ltb (c y) (c x)) xs ≡ xs
  all_below x [] h = refl
  all_below x (y ∷ ys) h =
      let here : ltb (c y) (c x) ≡ true = ground arith in
      let rest = all_below x ys (ground arith) in rw here (ap (λ zs. y ∷ zs) rest)

  last-below :
      (x y : A) (n : ℕ) (ys : List A)
      → any_row (λ z. leb (c x) (c z)) (y ∷ ys) ≡ false
      → ltb (c x) (c (last_of y (take n ys))) ≡ false
  last-below x y n [] h = ground arith
  last-below x y zero (z ∷ ys) h = ground arith
  last-below x y (suc n) (z ∷ ys) h = last-below x z n ys (ground arith)

  -- The rows strictly below the last row of the first page are the rows behind that page.
  pub filter-drop :
      (n : ℕ) (x : A) (xs : List A)
      → descending (x ∷ xs) ≡ true
      → filter (λ y. ltb (c y) (c (last_of x (take n xs)))) (x ∷ xs) ≡ drop n xs
  filter-drop n x [] h = let e : ltb (c x) (c x) ≡ false = ground arith in rw e refl
  filter-drop zero x (y ∷ xs) h =
      let e : ltb (c x) (c x) ≡ false = ground arith in
      rw (e, all_below x (y ∷ xs) (ground arith)) refl
  filter-drop (suc n) x (y ∷ xs) h =
      let e : ltb (c x) (c (last_of y (take n xs))) ≡ false = last-below x y n xs (ground arith) in
      rw e (filter-drop n y xs (ground arith))

  leb-split :
      (x : A) (xs : List A)
      → any_row (λ y. leb (c x) (c y)) xs
        ≡ (any_row (λ y. ltb (c x) (c y)) xs || elem (c x) (map c xs))
  leb-split x [] = refl
  leb-split x (y ∷ ys) = ground (arith, leb-split x ys)

  -- No row is above one before it.
  abbrev pub not_ascending : List A → Bool
  not_ascending [] = true
  not_ascending (x ∷ xs) = not (any_row (λ y. ltb (c x) (c y)) xs) && not_ascending xs

  pub distinct-descending :
      (xs : List A) → not_ascending xs ≡ true → distinct (map c xs) ≡ true → descending xs ≡ true
  distinct-descending [] h d = refl
  distinct-descending (x ∷ xs) h d =
      let e = leb-split x xs in
      let rest = distinct-descending xs (ground arith) (ground arith) in ground (arith, e, rest)

pub any_row-last :
    {A : Type 0} (p : A → Bool) (x : A) (n : ℕ) (xs : List A)
    → p (last_of x (take n xs)) ≡ true
    → any_row p (x ∷ xs) ≡ true
any_row-last p x n [] h = ground arith
any_row-last p x zero (y ∷ xs) h = ground arith
any_row-last p x (suc n) (y ∷ xs) h = let rest = any_row-last p y n xs h in ground (arith, rest)

pub any_row-witness :
    {A : Type 0} (p : A → Bool) (xs : List A) → any_row p xs ≡ true → (x : A) × (p x ≡ true)
any_row-witness p [] h = ground arith
any_row-witness p (x ∷ xs) h = elim (Bool-cases (p x)) [
  | inl y ↦ (x, y)
  | inr f ↦ any_row-witness p xs (ground arith)
]

pub take-short : {A : Type 0} (n : ℕ) (xs : List A) → length (take n xs) < n → take n xs ≡ xs
take-short n [] h = refl
take-short zero (x ∷ xs) h = ground arith
take-short (suc n) (x ∷ xs) h = ap (λ ys. x ∷ ys) (take-short n xs (omega arith))

pub count-drop :
    {A : Type 0} (p : A → Bool) (n : ℕ) (xs : List A) → count p (drop n xs) ≤ count p xs
count-drop p n [] = omega arith
count-drop p zero (x ∷ xs) = omega arith
count-drop p (suc n) (x ∷ xs) = omega (arith, count-drop p n xs)

elem-map-filter :
    {A : Type 0} (n : ℕ) (f : A → ℕ) (p : A → Bool) (xs : List A)
    → elem n (map f xs) ≡ false
    → elem n (map f (filter p xs)) ≡ false
elem-map-filter n f p [] h = refl
elem-map-filter n f p (x ∷ xs) h =
    let rest = elem-map-filter n f p xs (ground arith) in ground (arith, rest)

pub distinct-filter :
    {A : Type 0} (f : A → ℕ) (p : A → Bool) (xs : List A)
    → distinct (map f xs) ≡ true
    → distinct (map f (filter p xs)) ≡ true
distinct-filter f p [] h = refl
distinct-filter f p (x ∷ xs) h =
    let rest = distinct-filter f p xs (ground arith) in
    let away = elem-map-filter (f x) f p xs (ground arith) in ground (arith, rest, away)
