-- ===== src/Sync/Classify/Partition.antt =====
-- `_classify_resources` against its description: which resources are new, which are known, and
-- which rows are stale.
use delfin.Prelude.{
  ℕ, ◌≡◌, refl, Bool, true, false, not, ◌&&◌, List, [], ◌∷◌, ◌++◌, map, arith, elem, distinct,
  filter, ◌==◌, if◌then◌else◌, Bool-cases, inl, inr, ◌∙◌,
}
use mathlib.Core.List.{append-nil, append_assoc}
use delfin.Errors.{Result, ok, err, value_error}
use delfin.Database.{Row, Resource, ids, native_ids, resource_native_ids}
use delfin.Database.Lookup.{
  id_of, id_of_present, kept_ids, kept_ids-all, ids-filter, without, remove-id_of,
}
use delfin.Sync.Classify.{Classified, classify_one, classify_from, classify_resources}

-- The resource is in the database, under its native id.
abbrev pub present : List Row → Resource → Bool
present db r = elem r.native_id (native_ids db)

abbrev pub absent : List Row → Resource → Bool
absent db r = not (present db r)

-- The storage no longer lists the row.
abbrev pub unlisted : List Resource → ℕ → Bool
unlisted rs n = not (elem n (resource_native_ids rs))

-- The resource with the id of its row.
abbrev pub identified : List Row → Resource → Resource
identified db r = record r { id = id_of r.native_id db }

-- The native ids that are still to be deleted after the resources `rs`.
abbrev after : List Row → Resource → (ℕ → Bool) → ℕ → Bool
after db r p = if present db r then without r.native_id p else p

abbrev remaining : List Row → List Resource → (ℕ → Bool) → ℕ → Bool
remaining db [] p = p
remaining db (r ∷ rs) p = remaining db rs (after db r p)

-- No id is removed twice.
abbrev removable : List Row → List Resource → (ℕ → Bool) → Bool
removable db [] p = true
removable db (r ∷ rs) p =
    (if present db r then p r.native_id else true) && removable db rs (after db r p)

abbrev outcome : List Row → List Resource → (ℕ → Bool) → Classified → Result Classified
outcome db rs p c =
    if removable db rs p
    then ok (record {
      add_list = c.add_list ++ filter (absent db) rs;
      update_list = c.update_list ++ map (identified db) (filter (present db) rs);
      delete_id_list = kept_ids (remaining db rs p) db;
    })
    else err value_error

classify_one-new :
    (db : List Row) (r : Resource) (c : Classified)
    → present db r ≡ false
    → classify_one db r c ≡ ok (record c { add_list = c.add_list ++ r ∷ [] })
unfolding classify_one
classify_one-new db r c new = rw new

append_snoc {ℓ} : {A : Type ℓ} (xs ys : List A) (x : A) → (xs ++ x ∷ []) ++ ys ≡ xs ++ x ∷ ys
append_snoc xs ys x = append_assoc xs (x ∷ []) ys

module _ (db : List Row) (unique : distinct (ids db) ≡ true)
    (unique_native : distinct (native_ids db) ≡ true) where
  classify_one-known :
      (r : Resource) (p : ℕ → Bool) (c : Classified)
      → c.delete_id_list ≡ kept_ids p db
      → present db r ≡ true
      → classify_one db r c ≡ (
          if p r.native_id
          then ok (record c {
            update_list = c.update_list ++ identified db r ∷ [];
            delete_id_list = kept_ids (without r.native_id p) db;
          })
          else err value_error)
  unfolding classify_one
  classify_one-known r p c e known =
      let (i, found) = id_of_present r.native_id db known in
      ground (arith, remove-id_of r.native_id i p db unique unique_native found, known, found, e)

  -- The step for a known resource, by whether its id is still in the list.
  known_step :
      (r : Resource) (rs : List Resource) (p : ℕ → Bool) (c : Classified) (b : Bool)
      → p r.native_id ≡ b
      → ((c' : Classified)
          → c'.delete_id_list ≡ kept_ids (without r.native_id p) db
          → classify_from db rs c' ≡ outcome db rs (without r.native_id p) c')
      → c.delete_id_list ≡ kept_ids p db
      → present db r ≡ true
      → classify_from db (r ∷ rs) c ≡ outcome db (r ∷ rs) p c
  unfolding classify_from
  known_step r rs p c true here ih e known =
      rw (classify_one-known r p c e known, here, known)
        (ih _ refl ∙ rw (append_snoc c.update_list))
  known_step r rs p c false gone ih e known =
      rw (classify_one-known r p c e known, gone, known) refl

  classify_from-outcome :
      (rs : List Resource) (p : ℕ → Bool) (c : Classified)
      → c.delete_id_list ≡ kept_ids p db
      → classify_from db rs c ≡ outcome db rs p c
  unfolding classify_from
  classify_from-outcome [] p c e = ground (arith, append-nil c.add_list, append-nil c.update_list)
  classify_from-outcome (r ∷ rs) p c e = elim (Bool-cases (present db r)) [
    | inl known ↦
        known_step r rs p c (p r.native_id) refl (classify_from-outcome rs (without r.native_id p))
          e known
    | inr new ↦
        rw (classify_one-new db r c new, new)
          (classify_from-outcome rs p _ e ∙ rw (append_snoc c.add_list))
  ]

all_of : (ℕ → Bool) → List ℕ → Bool
all_of p [] = true
all_of p (n ∷ ns) = p n && all_of p ns

all_of-without :
    (n : ℕ) (p : ℕ → Bool) (ns : List ℕ)
    → all_of (without n p) ns ≡ (all_of p ns && not (elem n ns))
unfolding all_of
all_of-without n p [] = refl
all_of-without n p (m ∷ ns) = ground (arith, all_of-without n p ns)

all_of-true : (ns : List ℕ) → all_of (λ m. true) ns ≡ true
unfolding all_of
all_of-true [] = refl
all_of-true (n ∷ ns) = all_of-true ns

removable-distinct :
    (db : List Row) (rs : List Resource) (p : ℕ → Bool)
    → removable db rs p ≡ (
        all_of p (resource_native_ids (filter (present db) rs))
        && distinct (resource_native_ids (filter (present db) rs)))
unfolding all_of
removable-distinct db [] p = refl
removable-distinct db (r ∷ rs) p = elim (Bool-cases (present db r)) [
  | inl known ↦
      rw (known, removable-distinct db rs (without r.native_id p))
        (ground
          (arith, all_of-without r.native_id p (resource_native_ids (filter (present db) rs))))
  | inr new ↦ rw new (removable-distinct db rs p)
]

elem_ne : (m n : ℕ) (ns : List ℕ) → elem m ns ≡ true → elem n ns ≡ false → (m == n) ≡ false
elem_ne m n [] h k = ground arith
elem_ne m n (x ∷ ns) h k = ground (arith, elem_ne m n ns)

remaining-unlisted :
    (db : List Row) (rs : List Resource) (p : ℕ → Bool) (m : ℕ)
    → elem m (native_ids db) ≡ true
    → remaining db rs p m ≡ (p m && unlisted rs m)
remaining-unlisted db [] p m h = ground arith
remaining-unlisted db (r ∷ rs) p m h = elim (Bool-cases (present db r)) [
  | inl known ↦ rw (known, remaining-unlisted db rs (without r.native_id p) m h) (ground arith)
  | inr new ↦ rw (new, remaining-unlisted db rs p m h, elem_ne m r.native_id (native_ids db) h new)
]

kept_ids-congr :
    (p q : ℕ → Bool) (rows : List Row)
    → ((m : ℕ) → elem m (native_ids rows) ≡ true → p m ≡ q m)
    → kept_ids p rows ≡ kept_ids q rows
kept_ids-congr p q [] h = refl
kept_ids-congr p q (row ∷ rows) h =
    let same : p row.native_id ≡ q row.native_id = h row.native_id (ground arith) in
    let rest = kept_ids-congr p q rows (λ m e. h m (ground arith)) in ground (arith, same, rest)

-- For rows with distinct ids and native ids, `_classify_resources` succeeds exactly when no
-- resource that is in the database comes twice. Then the new resources are added in their order,
-- the known ones are updated under the ids of their rows, and the ids of the rows that the
-- storage no longer lists are deleted. Otherwise it raises the ValueError of `list.remove`.
pub classify_resources-partition :
    (rs : List Resource) (db : List Row)
    → distinct (ids db) ≡ true
    → distinct (native_ids db) ≡ true
    → classify_resources rs db ≡ (
        if distinct (resource_native_ids (filter (present db) rs))
        then ok (record {
          add_list = filter (absent db) rs;
          update_list = map (identified db) (filter (present db) rs);
          delete_id_list = ids (filter (λ row. unlisted rs row.native_id) db);
        })
        else err value_error)
unfolding classify_resources
classify_resources-partition rs db unique unique_native =
    let start : Classified = record { add_list = []; update_list = []; delete_id_list = ids db } in
    classify_from-outcome db unique unique_native rs (λ m. true) start (kept_ids-all db)
    ∙ rw
        (
          removable-distinct db rs (λ m. true),
          all_of-true (resource_native_ids (filter (present db) rs)),
          ids-filter (unlisted rs) db,
          kept_ids-congr (remaining db rs (λ m. true)) (unlisted rs) db
              (remaining-unlisted db rs (λ m. true)),
        )
        refl
