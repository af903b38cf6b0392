-- ===== src/Database/SortParams.antt =====
-- What `process_sort_params` of delfin/db/sqlalchemy/api.py makes of the keys and the directions of a
-- request.
use delfin.Prelude.{
  ℕ, zero, suc, ◌+◌, ◌-◌, ◌≤◌, ◌≡◌, refl, sym, ap, ap₂, ◌∙◌, Bool, true, false, not, ◌&&◌, ◌||◌,
  Option, List, [], ◌∷◌, ◌++◌, length, elem, distinct, ◌==◌, ==→eq, ltb, leb, if◌then◌else◌, arith,
  Bool-cases, inl, inr, length-append, ==_refl,
}
use mathlib.Core.List.{append-nil, append_assoc}
use delfin.Errors.{Result, ok, err, invalid_input}
use delfin.Database.Sorting.{
  Direction, given_list, is_known, all_known, default_of, padded, with_defaults, finished,
  process_sort_params,
}

abbrev pub replicate : ℕ → Direction → List Direction
replicate zero d = []
replicate (suc n) d = d ∷ replicate n d

-- The list begins with these elements.
abbrev pub Begins : {A : Type 0} → List A → List A → Type 0
Begins {A} xs ys = (rest : List A) × (ys ≡ xs ++ rest)

-- Each of these numbers is in the list.
abbrev pub includes : List ℕ → List ℕ → Bool
includes [] ys = true
includes (x ∷ xs) ys = elem x ys && includes xs ys

-- The default keys that are neither in the list nor before in the defaults, in their order.
abbrev pub missing : List ℕ → List ℕ → List ℕ
missing [] keys = []
missing (k ∷ ks) keys = if elem k keys then missing ks keys else k ∷ missing ks (keys ++ k ∷ [])

-- The direction of the keys without one: the first of the request, or the default one.
abbrev pub direction_else : Direction → List Direction → Direction
direction_else default_dir ds = elim ds [ [] ↦ default_dir | d ∷ _ ↦ d ]

-- What the sort parameters become for the keys and directions of a request. The keys are those of the
-- request and the missing default keys: each default key once that is not among the others. The
-- directions are those of the request, which are known, and for each other key the first of them or
-- else the default one. The request is refused if a direction is unknown or there are more directions
-- than keys.
pub data SortParams (defaults : List ℕ) (default_dir : Direction) (ks : List ℕ)
    (ds : List Direction) : Result (List ℕ × List Direction) → Type 0 where
  accepted :
      {keys : List ℕ} {dirs : List Direction} {added : List ℕ}
      → keys ≡ ks ++ added
      → added ≡ missing defaults ks
      → ((k : ℕ) → elem k added ≡ (elem k defaults && not (elem k ks)))
      → distinct added ≡ true
      → dirs ≡ ds ++ replicate (length keys - length ds) (direction_else default_dir ds)
      → length keys ≡ length dirs
      → includes defaults keys ≡ true
      → all_known dirs ≡ true
      → all_known ds ≡ true
      → length ds ≤ length ks
      → SortParams defaults default_dir ks ds (ok (keys, dirs))
  refused :
      (all_known ds && leb (length ds) (length ks)) ≡ false
      → SortParams defaults default_dir ks ds (err invalid_input)

all_known-append : (ds es : List Direction) → all_known (ds ++ es) ≡ (all_known ds && all_known es)
all_known-append [] es = refl
all_known-append (d ∷ ds) es = ground (arith, all_known-append ds es)

elem_append : (k : ℕ) (xs ys : List ℕ) → elem k (xs ++ ys) ≡ (elem k xs || elem k ys)
elem_append k [] ys = refl
elem_append k (x ∷ xs) ys = ground (arith, elem_append k xs ys)

missing-known : (x : ℕ) (xs ks : List ℕ) → elem x ks ≡ true → missing (x ∷ xs) ks ≡ missing xs ks
missing-known x xs ks y = ap (λ b. if b then missing xs ks else x ∷ missing xs (ks ++ x ∷ [])) y

missing-new :
    (x : ℕ) (xs ks : List ℕ)
    → elem x ks ≡ false
    → missing (x ∷ xs) ks ≡ x ∷ missing xs (ks ++ x ∷ [])
missing-new x xs ks f = ap (λ b. if b then missing xs ks else x ∷ missing xs (ks ++ x ∷ [])) f

elem-missing :
    (defaults ks : List ℕ) (k : ℕ)
    → elem k (missing defaults ks) ≡ (elem k defaults && not (elem k ks))
elem-missing [] ks k = refl
elem-missing (x ∷ xs) ks k = elim (Bool-cases (elem x ks)) [
  | inl y ↦
      let rest = elem-missing xs ks k in
      let same = ==→eq k x in
      elim (Bool-cases (k == x)) [
        | inl q ↦
            let there : elem k ks ≡ true = ap (λ m. elem m ks) (same q) ∙ y in
            rw (missing-known x xs ks y) (ground arith)
        | inr q ↦ rw (missing-known x xs ks y) (ground arith)
      ]
  | inr f ↦
      let rest = elem-missing xs (ks ++ x ∷ []) k in
      let last = elem_append k ks (x ∷ []) in
      let same = ==→eq k x in
      elim (Bool-cases (k == x)) [
        | inl q ↦
            let out : elem k ks ≡ false = ap (λ m. elem m ks) (same q) ∙ f in
            rw (missing-new x xs ks f) (ground arith)
        | inr q ↦ rw (missing-new x xs ks f) (ground arith)
      ]
]

distinct-missing : (defaults ks : List ℕ) → distinct (missing defaults ks) ≡ true
distinct-missing [] ks = refl
distinct-missing (x ∷ xs) ks = elim (Bool-cases (elem x ks)) [
  | inl y ↦ rw (missing-known x xs ks y) (distinct-missing xs ks)
  | inr f ↦
      let rest = distinct-missing xs (ks ++ x ∷ []) in
      let out = elem-missing xs (ks ++ x ∷ []) x in
      let last = elem_append x ks (x ∷ []) in rw (missing-new x xs ks f) (ground (arith, ==_refl x))
]

replicate_add : (m n : ℕ) (d : Direction) → replicate m d ++ replicate n d ≡ replicate (m + n) d
replicate_add zero n d = let n' : n ≡ zero + n = omega arith in ap (λ k. replicate k d) n'
replicate_add (suc m) n d =
    let n' : suc (m + n) ≡ suc m + n = omega arith in
    ap (λ ds. d ∷ ds) (replicate_add m n d) ∙ ap (λ k. replicate k d) n'

length-replicate : (n : ℕ) (d : Direction) → length (replicate n d) ≡ n
length-replicate zero d = refl
length-replicate (suc n) d = ap suc (length-replicate n d)

padded-replicate :
    (n : ℕ) (d : Direction) (ds : List Direction) → padded n d ds ≡ ds ++ replicate n d
padded-replicate zero d ds = sym (append-nil ds)
padded-replicate (suc n) d ds =
    padded-replicate n d (ds ++ d ∷ []) ∙ append_assoc ds (d ∷ []) (replicate n d)

with_defaults-missing :
    (defaults : List ℕ) (d : Direction) (ks : List ℕ) (ds : List Direction)
    → with_defaults defaults d ks ds
      ≡ (ks ++ missing defaults ks, ds ++ replicate (length (missing defaults ks)) d)
with_defaults-missing [] d ks ds = ap₂ (λ a b. (a, b)) (sym (append-nil ks)) (sym (append-nil ds))
with_defaults-missing (x ∷ xs) d ks ds = elim (Bool-cases (elem x ks)) [
  | inl y ↦ rw y (with_defaults-missing xs d ks ds)
  | inr f ↦ rw f (
      with_defaults-missing xs d (ks ++ x ∷ []) (ds ++ d ∷ [])
      ∙ ap₂ (λ a b. (a, b)) (append_assoc ks (x ∷ []) (missing xs (ks ++ x ∷ [])))
          (append_assoc ds (d ∷ []) (replicate (length (missing xs (ks ++ x ∷ []))) d)))
]

-- The directions at the end, for no more directions than keys.
finished_directions :
    (ds : List Direction) (d : Direction) (ks added : List ℕ)
    → length ds ≤ length ks
    → (ds ++ replicate (length ks - length ds) d) ++ replicate (length added) d
      ≡ ds ++ replicate (length (ks ++ added) - length ds) d
finished_directions ds d ks added h =
    let all = length-append ks added in
    let n : (length ks - length ds) + length added ≡ length (ks ++ added) - length ds =
      omega arith in
    append_assoc ds _ _
    ∙ ap (λ es. ds ++ es)
        (replicate_add (length ks - length ds) (length added) d ∙ ap (λ n. replicate n d) n)

includes-append : (ks xs ys : List ℕ) → includes ks xs ≡ true → includes ks (xs ++ ys) ≡ true
includes-append [] xs ys h = refl
includes-append (k ∷ ks) xs ys h = ground (arith, elem_append k xs ys, includes-append ks xs ys)

Begins-refl : {A : Type 0} (xs : List A) → Begins xs xs
Begins-refl xs = ([], sym (append-nil xs))

Begins-trans : {A : Type 0} (xs ys zs : List A) → Begins xs ys → Begins ys zs → Begins xs zs
Begins-trans xs ys zs (r, e) (s, f) = (r ++ s, f ∙ ap (λ l. l ++ s) e ∙ append_assoc xs r s)

padded-lem :
    (n : ℕ) (d : Direction) (ds : List Direction)
    → is_known d ≡ true
    → Begins ds (padded n d ds)
      × (length (padded n d ds) ≡ length ds + n)
      × (all_known ds ≡ true → all_known (padded n d ds) ≡ true)
padded-lem zero d ds k = (Begins-refl ds, omega arith, λ h. h)
padded-lem (suc n) d ds k =
    let (b, l, a) = padded-lem n d (ds ++ d ∷ []) k in
    let more = length-append ds (d ∷ []) in
    let known = all_known-append ds (d ∷ []) in
    (Begins-trans ds _ _ (d ∷ [], refl) b, omega arith, λ h. a (ground arith))

with_defaults-lem :
    (defaults : List ℕ) (d : Direction) (ks : List ℕ) (ds : List Direction)
    → is_known d ≡ true
    → all_known ds ≡ true
    → length ks ≡ length ds
    → let r = with_defaults defaults d ks ds in
      Begins ks r.0
      × Begins ds r.1
      × (length r.0 ≡ length r.1)
      × (includes defaults r.0 ≡ true)
      × (all_known r.1 ≡ true)
with_defaults-lem [] d ks ds k a l = (Begins-refl ks, Begins-refl ds, l, refl, a)
with_defaults-lem (x ∷ xs) d ks ds k a l = elim (Bool-cases (elem x ks)) [
  | inl y ↦
      let (p, q, r, s, t) = with_defaults-lem xs d ks ds k a l in
      let (rest, e) = p in
      let there = elem_append x ks rest in
      rw y (p, q, r, (let h = ap (elem x) e in ground arith), t)
  | inr f ↦
      let known = all_known-append ds (d ∷ []) in
      let kl = length-append ks (x ∷ []) in
      let dl = length-append ds (d ∷ []) in
      let (p, q, r, s, t) =
        with_defaults-lem xs d (ks ++ x ∷ []) (ds ++ d ∷ []) k (ground arith) (omega arith) in
      let (rest, e) = p in
      let there = elem_append x (ks ++ x ∷ []) rest in
      let here = elem_append x ks (x ∷ []) in
      rw f (
        Begins-trans ks _ _ (x ∷ [], refl) p,
        Begins-trans ds _ _ (d ∷ [], refl) q,
        r,
        (let h = ap (elem x) e in ground (arith, ==_refl x)),
        t,
      )
]

module _ (defaults : List ℕ) (default_dir : Direction) (ks : List ℕ) (ds : List Direction)
    (known_dir : is_known default_dir ≡ true) (all : all_known ds ≡ true) where
  abbrev dir : Direction
  dir = default_of default_dir ds

  known_default :
      (ds : List Direction) → all_known ds ≡ true → is_known (default_of default_dir ds) ≡ true
  known_default [] h = known_dir
  known_default (d ∷ ds) h = ground arith

  direction_same : (ds : List Direction) → default_of default_dir ds ≡ direction_else default_dir ds
  direction_same [] = refl
  direction_same (d ∷ ds) = refl

  finished_keys :
      length ds ≤ length ks
      → with_defaults defaults dir ks (padded (length ks - length ds) dir ds) ≡ (
        ks ++ missing defaults ks,
        ds
            ++ replicate
                (length (ks ++ missing defaults ks) - length ds)
                (direction_else default_dir ds),
      )
  finished_keys h =
      ap (with_defaults defaults dir ks) (padded-replicate (length ks - length ds) dir ds)
      ∙ with_defaults-missing defaults dir ks _
      ∙ ap (λ es. (ks ++ missing defaults ks, es))
          (finished_directions ds dir ks (missing defaults ks) h
            ∙ ap (λ d. ds ++ replicate (length (ks ++ missing defaults ks) - length ds) d)
                (direction_same ds))

  finished-SortParams : SortParams defaults default_dir ks ds (finished defaults dir ks ds)
  finished-SortParams =
      let k = known_default ds all in
      let (b, l, known) = padded-lem (length ks - length ds) dir ds k in
      elim (Bool-cases (ltb (length ks) (length (padded (length ks - length ds) dir ds)))) [
        | inl y ↦ rw y (refused (ground arith))
        | inr f ↦
            let few : length ds ≤ length ks = ground arith in
            let (p, q, r, s, t) =
              with_defaults-lem defaults dir ks (padded (length ks - length ds) dir ds) k
                (known all) (ground arith) in
            let is = finished_keys few in
            rw f (
              accepted (ap (λ x. x.0) is) refl (elem-missing defaults ks)
                (distinct-missing defaults ks)
                (ap (λ x. x.1) is
                  ∙ ap (λ n. ds ++ replicate (length n - length ds) (direction_else default_dir ds))
                      (sym (ap (λ x. x.0) is)))
                r s t all few)
      ]

-- For a known default direction: a request is refused exactly if one of its directions is unknown or
-- it has more directions than keys. Otherwise the rows are sorted by its keys and behind them by the
-- default keys that are not among them, each once and in their order. The directions are those of
-- the request, and every other key has the first of them, or the default one if there is none.
pub process_sort_params-SortParams :
    (defaults : List ℕ) (default_dir : Direction) (keys : Option (List ℕ))
    (dirs : Option (List Direction))
    → is_known default_dir ≡ true
    → SortParams defaults default_dir
        (given_list keys)
        (given_list dirs)
        (process_sort_params defaults default_dir keys dirs)
unfolding process_sort_params
process_sort_params-SortParams defaults default_dir keys dirs k =
    elim (Bool-cases (all_known (given_list dirs))) [
      | inl y ↦
          rw y (finished-SortParams defaults default_dir (given_list keys) (given_list dirs) k y)
      | inr f ↦ rw f (refused (ground arith))
    ]
