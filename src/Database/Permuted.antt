-- ===== src/Database/Permuted.antt =====
-- What the order of the rows of a query does not change: delfin/db/sqlalchemy/api.py leaves it to
-- the SQL engine.
use mathlib.Core.List.{Perm, Permᴰ}
use mathlib.Core.Bool.{Bool-set}
use mathlib.Core.Logic.{∥∥₁_elim}
use delfin.Prelude.{
  ℕ, ◌≡◌, refl, ap, ap₂, ◌∙◌, Bool, true, false, ◌&&◌, ◌||◌, List, [], ◌∷◌, map, arith, elem,
  distinct, ◌==◌, Option, none, some, if◌then◌else◌, Bool-cases, inl, inr, filter,
}
use delfin.Database.Rows.{Row, ids}

-- Some row passes the test.
abbrev pub any_row {ℓ} : {A : Type ℓ} → (A → Bool) → List A → Bool
any_row p [] = false
any_row p (row ∷ rows) = p row || any_row p rows

pub elem-map_any :
    {A : Type 0} (n : ℕ) (f : A → ℕ) (rows : List A)
    → elem n (map f rows) ≡ any_row (λ row. n == f row) rows
elem-map_any n f [] = refl
elem-map_any n f (row ∷ rows) = ground (arith, elem-map_any n f rows)

any_row-Permᴰ :
    {A : Type 0} (p : A → Bool) {xs ys : List A} → Permᴰ xs ys → any_row p xs ≡ any_row p ys
any_row-Permᴰ p Permᴰ.nil = refl
any_row-Permᴰ p (Permᴰ.cons e q) = rw (e, any_row-Permᴰ p q)
any_row-Permᴰ p (Permᴰ.swap e f) = rw (e, f) (ground arith)
any_row-Permᴰ p (Permᴰ.trans q r) = any_row-Permᴰ p q ∙ any_row-Permᴰ p r

pub any_row-Perm :
    {A : Type 0} (p : A → Bool) (xs ys : List A) → Perm xs ys → any_row p xs ≡ any_row p ys
any_row-Perm p xs ys q = ∥∥₁_elim q (Bool-set _ _) (λ d. any_row-Permᴰ p d)

distinct_swap : (m n : ℕ) (ns : List ℕ) → distinct (m ∷ n ∷ ns) ≡ distinct (n ∷ m ∷ ns)
distinct_swap m n ns = ground arith

distinct-Permᴰ :
    {A : Type 0} (f : A → ℕ) {xs ys : List A}
    → Permᴰ xs ys
    → distinct (map f xs) ≡ distinct (map f ys)
distinct-Permᴰ f Permᴰ.nil = refl
distinct-Permᴰ f (Permᴰ.cons {a} {b} {l₁} {l₂} e q) = rw (
  e,
  distinct-Permᴰ f q,
  elem-map_any (f b) f l₁,
  elem-map_any (f b) f l₂,
  any_row-Permᴰ (λ row. f b == f row) q,
)
distinct-Permᴰ f (Permᴰ.swap {a} {b} {a'} {b'} {l} e g) =
    distinct_swap (f a) (f b) (map f l) ∙ ap₂ (λ m n. distinct (m ∷ n ∷ map f l)) (ap f g) (ap f e)
distinct-Permᴰ f (Permᴰ.trans q r) = distinct-Permᴰ f q ∙ distinct-Permᴰ f r

pub distinct-Perm :
    {A : Type 0} (f : A → ℕ) (xs ys : List A)
    → Perm xs ys
    → distinct (map f xs) ≡ distinct (map f ys)
distinct-Perm f xs ys q = ∥∥₁_elim q (Bool-set _ _) (λ d. distinct-Permᴰ f d)

pub elem-Perm :
    {A : Type 0} (n : ℕ) (f : A → ℕ) (xs ys : List A)
    → Perm xs ys
    → elem n (map f xs) ≡ elem n (map f ys)
elem-Perm n f xs ys q =
    rw (elem-map_any n f xs, elem-map_any n f ys) (any_row-Perm (λ row. n == f row) xs ys q)

pub any_row-filter :
    {A : Type 0} (p f : A → Bool) (rows : List A)
    → any_row p (filter f rows) ≡ any_row (λ row. f row && p row) rows
any_row-filter p f [] = refl
any_row-filter p f (row ∷ rows) = ground (arith, any_row-filter p f rows)

pub elem-ids_any :
    (i : ℕ) (p : Row → Bool) (rows : List Row)
    → elem i (ids (filter p rows)) ≡ any_row (λ row. p row && (row.id == i)) rows
elem-ids_any i p [] = refl
elem-ids_any i p (row ∷ rows) = ground (arith, elem-ids_any i p rows)

-- The row is the one in the table that has its id.
abbrev pub find_row : ℕ → List Row → Option Row
find_row i [] = none
find_row i (row ∷ rows) = if row.id == i then some row else find_row i rows

any_row-absent :
    (i : ℕ) (p : Row → Bool) (rows : List Row)
    → elem i (ids rows) ≡ false
    → any_row (λ row. p row && (row.id == i)) rows ≡ false
any_row-absent i p [] h = refl
any_row-absent i p (row ∷ rows) h = ground (arith, any_row-absent i p rows)

find_row-elem :
    (i : ℕ) (row : Row) (rows : List Row) → find_row i rows ≡ some row → elem i (ids rows) ≡ true
find_row-elem i row [] h = ground arith
find_row-elem i row (x ∷ rows) h = ground (arith, find_row-elem i row rows)

-- Among rows with distinct ids a test for the row's id meets this row only.
pub any_row-at :
    (p : Row → Bool) (row : Row) (rows : List Row)
    → distinct (ids rows) ≡ true
    → find_row row.id rows ≡ some row
    → any_row (λ x. p x && (x.id == row.id)) rows ≡ p row
any_row-at p row [] unique here = ground arith
any_row-at p row (x ∷ rows) unique here = elim (Bool-cases (x.id == row.id)) [
  | inl e ↦
      let same : x ≡ row = ground arith in
      let rest : any_row (λ x. p x && (x.id == row.id)) rows ≡ false =
        any_row-absent row.id p rows (ground arith) in
      ground (arith, rest, same)
  | inr e ↦ let rest = any_row-at p row rows (ground arith) (ground arith) in ground (arith, rest)
]

-- To select and change rows, only the rows of the table matter.
pub map-filter_congr :
    (p q : Row → Bool) (u v : Row → Row) (rows : List Row)
    → distinct (ids rows) ≡ true
    → ((row : Row) → find_row row.id rows ≡ some row → (p row ≡ q row) × (u row ≡ v row))
    → map u (filter p rows) ≡ map v (filter q rows)
map-filter_congr p q u v [] unique same = refl
map-filter_congr p q u v (x ∷ rows) unique same =
    let (test, change) = same x (ground arith) in
    let rest =
      map-filter_congr p q u v rows (ground arith)
        (λ row here. same row (ground (arith, find_row-elem row.id row rows here))) in
    ground (arith, rest, test, change)
