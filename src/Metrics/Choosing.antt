-- ===== src/Metrics/Choosing.antt =====
-- What `get_local_executor` of delfin/task_manager/metrics_manager.py chooses.
use delfin.Prelude.{
  ℕ, zero, suc, ◌≤◌, ◌≡◌, refl, sym, ap, ◌∙◌, Bool, true, false, ◌&&◌, ◌||◌, Option, none, some,
  List, [], ◌∷◌, ◌++◌, elem, distinct, leb, ◌==◌, length, arith, Bool-cases, inl, inr, ==_refl,
  ==→eq,
}
use delfin.Prelude.Int.{pos}
use delfin.Errors.{Result, ok, err, runtime_error}
use delfin.Metrics.Executors.{
  Executor, Config, names, holder, put_in_room, free_name, create_executor, place,
  get_local_executor,
}
use delfin.Metrics.Holding.{
  count, held, bounded, in_range, has, open_in, held-append, holder-held, holder-has, none_open,
  Fits, put_in_room_lem, free_name-taken,
}

-- All of the names from `n` on, `c` of them, are taken.
abbrev pub all_taken : List ℕ → ℕ → ℕ → Bool
all_taken taken n zero = true
all_taken taken n (suc c) = elem n taken && all_taken taken (suc n) c

pub free_name-none :
    (taken : List ℕ) (n c : ℕ) → free_name taken n c ≡ none → all_taken taken n c ≡ true
free_name-none taken n zero h = refl
free_name-none taken n (suc c) h = elim (Bool-cases (elem n taken)) [
  | inl y ↦ let rest = free_name-none taken (suc n) c (ground arith) in ground arith
  | inr f ↦ absurd (ground arith)
]

elem-held : (s : ℕ) (xs : List ℕ) → elem s xs ≡ true → 1 ≤ count s xs
elem-held s [] h = absurd (ground arith)
elem-held s (x ∷ xs) h = ground (arith, elem-held s xs)

pub has-held : (s n : ℕ) (es : List Executor) → has s n es ≡ true → 1 ≤ held s es
has-held s n [] h = absurd (ground arith)
has-held s n (e ∷ es) h = elim (Bool-cases (elem s e.storages)) [
  | inl y ↦ let one = elem-held s e.storages y in ground arith
  | inr f ↦ let rest = has-held s n es (ground arith) in ground arith
]

pub names-append :
    (es : List Executor) (e : Executor) → names (es ++ e ∷ []) ≡ names es ++ e.name ∷ []
names-append [] e = refl
names-append (x ∷ es) e = ap (λ ns. x.name ∷ ns) (names-append es e)

-- What holds of the executor map: no name twice, each one of the names that there may be, no
-- executor with too many storages, and no storage in two executors or twice in one.
pub record IsExecutorMap (config : Config) (es : List Executor) : Type 0 where
  pub distinct_names : distinct (names es) ≡ true
  pub names_in_range : in_range config.max_childs es ≡ true
  pub is_bounded : bounded config.max_storages es ≡ true
  pub once : (s : ℕ) → held s es ≤ 1

-- The storage is in exactly one executor, whose name is the result; the executors have no other
-- storage more or less, and the map stays well formed.
pub record Put (config : Config) (s n : ℕ) (es es' : List Executor) : Type 0 where
  pub has_it : has s n es' ≡ true
  pub only_there : held s es' ≡ 1
  pub others_stay : (t : ℕ) → (t == s) ≡ false → held t es' ≡ held t es
  pub stays_good : IsExecutorMap config es'

-- The four ways to choose. An executor that has the storage is the result and the map stays; if none
-- has it, one that has at least one storage and room for another takes it; if there is no such
-- executor, a new one of a free name does; if no name is free, an error is raised and the map stays.
pub data Chosen (config : Config) (s : ℕ) (es : List Executor)
    : Result ℕ × List Executor → Type 0 where
  already : {n : ℕ} → has s n es ≡ true → Put config s n es es → Chosen config s es (ok n, es)
  joined :
      {n : ℕ} {es' : List Executor}
      → held s es ≡ 0
      → open_in config.max_storages n es ≡ true
      → names es' ≡ names es
      → Put config s n es es'
      → Chosen config s es (ok n, es')
  created :
      {n : ℕ} {es' : List Executor}
      → held s es ≡ 0
      → none_open config.max_storages es ≡ true
      → elem n (names es) ≡ false
      → names es' ≡ names es ++ n ∷ []
      → Put config s n es es'
      → Chosen config s es (ok n, es')
  refused :
      held s es ≡ 0
      → none_open config.max_storages es ≡ true
      → all_taken (names es) 1 config.max_childs ≡ true
      → Chosen config s es (err runtime_error, es)

distinct-last :
    (n : ℕ) (ns : List ℕ) → distinct ns ≡ true → elem n ns ≡ false → distinct (ns ++ n ∷ []) ≡ true
distinct-last n [] d h = refl
distinct-last n (m ∷ ns) d h =
    let rest = distinct-last n ns (ground arith) (ground arith) in
    let apart = elem_before m n ns in ground arith
  where
    elem_before : (m n : ℕ) (ns : List ℕ) → elem m (ns ++ n ∷ []) ≡ (elem m ns || m == n)
    elem_before m n [] = ground arith
    elem_before m n (k ∷ ns) = ground (arith, elem_before m n ns)

in_range-last :
    (most : ℕ) (es : List Executor) (e : Executor)
    → in_range most es ≡ true
    → 1 ≤ e.name
    → e.name ≤ most
    → in_range most (es ++ e ∷ []) ≡ true
in_range-last most [] e h a b = ground arith
in_range-last most (x ∷ es) e h a b =
    let rest = in_range-last most es e (ground arith) a b in ground arith

bounded-last :
    (most : ℕ) (es : List Executor) (e : Executor)
    → bounded most es ≡ true
    → length e.storages ≤ most
    → bounded most (es ++ e ∷ []) ≡ true
bounded-last most [] e h a = ground arith
bounded-last most (x ∷ es) e h a =
    let rest = bounded-last most es e (ground arith) a in ground arith

has_last :
    (s n : ℕ) (es : List Executor) (e : Executor)
    → e.name ≡ n
    → elem s e.storages ≡ true
    → has s n (es ++ e ∷ []) ≡ true
has_last s n [] e a b = let q = ==_refl n in ground arith
has_last s n (x ∷ es) e a b = let rest = has_last s n es e a b in ground arith

in_range-names :
    (most : ℕ) (es es' : List Executor)
    → names es' ≡ names es
    → in_range most es ≡ true
    → in_range most es' ≡ true
in_range-names most es es' e h = by_names es' ∙ ap within e ∙ sym (by_names es) ∙ h
  where
    within : List ℕ → Bool
    within [] = true
    within (n ∷ ns) = leb 1 n && leb n most && within ns

    by_names : (es : List Executor) → in_range most es ≡ within (names es)
    by_names [] = refl
    by_names (e ∷ es) = ap (λ b. leb 1 e.name && leb e.name most && b) (by_names es)

module _ (config : Config) (some_room : 1 ≤ config.max_storages) (s : ℕ) (es : List Executor)
    (good : IsExecutorMap config es) where
  create-Chosen :
      (o : Option ℕ)
      → free_name (names es) 1 config.max_childs ≡ o
      → holder s es ≡ none
      → none_open config.max_storages es ≡ true
      → Chosen config s es (create_executor s o es)
  create-Chosen none h no_holder full =
      refused (holder-held s es no_holder) full (free_name-none (names es) 1 config.max_childs h)
  create-Chosen (some n) h no_holder full =
      let (fresh, low, high) = free_name-taken (names es) 1 config.max_childs n h in
      let e : Executor = record { name = n; storages = s ∷ []; cleanup_delay = pos 0 } in
      let none_yet = holder-held s es no_holder in
      let counted = λ (t : ℕ). held-append t es (e ∷ []) in
      let good_map : IsExecutorMap config (es ++ e ∷ []) = record {
        distinct_names =
            ap distinct (names-append es e) ∙ distinct-last n (names es) good.distinct_names fresh;
        names_in_range =
            in_range-last config.max_childs es e good.names_in_range low (ground arith);
        is_bounded = bounded-last config.max_storages es e good.is_bounded (ground arith);
        once = λ t.
            let c = counted t in
            let o = good.once t in
            elim (Bool-cases (t == s)) [
              | inl y ↦ let same = ==→eq t s y in rw same (ground (arith, ==_refl s))
              | inr f ↦ ground arith
            ];
      } in
      created none_yet full fresh (names-append es e) (record {
        has_it = has_last s n es e refl (ground (arith, ==_refl s));
        only_there = let c = counted s in ground (arith, ==_refl s);
        others_stay = λ t other. let c = counted t in ground arith;
        stays_good = good_map;
      })

  place-Chosen :
      (o : Option (ℕ × List Executor))
      → Fits config.max_storages s es o
      → holder s es ≡ none
      → Chosen config s es (place config s o es)
  place-Chosen none full no_holder =
      create-Chosen (free_name (names es) 1 config.max_childs) refl no_holder full
  place-Chosen (some (n, es')) f no_holder =
      let none_yet = holder-held s es no_holder in
      let good_map : IsExecutorMap config es' = record {
        distinct_names = ap distinct f.same_names ∙ good.distinct_names;
        names_in_range = in_range-names config.max_childs es es' f.same_names good.names_in_range;
        is_bounded = f.still_bounded good.is_bounded;
        once = λ t.
            let c = f.counts t in
            let o = good.once t in
            elim (Bool-cases (t == s)) [
              | inl y ↦
                  let same = ==→eq t s y in
                  let here : held t es ≡ held s es = ap (λ u. held u es) same in ground arith
              | inr f ↦ ground arith
            ];
      } in
      joined none_yet f.was_open f.same_names (record {
        has_it = f.added;
        only_there = let c = f.counts s in ground (arith, ==_refl s);
        others_stay = λ t other. let c = f.counts t in ground arith;
        stays_good = good_map;
      })

  pub get_local_executor-Chosen : Chosen config s es (get_local_executor config s es)
  unfolding get_local_executor
  get_local_executor-Chosen = by_holder (holder s es) refl
    where
      by_holder :
          (o : Option ℕ)
          → holder s es ≡ o
          → Chosen config s es (elim o [
            | some n ↦ (ok n, es)
            | none ↦ place config s (put_in_room config.max_storages s es) es
          ])
      by_holder none h =
          place-Chosen (put_in_room config.max_storages s es)
            (put_in_room_lem config.max_storages s es) h
      by_holder (some n) h =
          let there = holder-has s n es h in
          let some_held = has-held s n es there in
          let most_one = good.once s in
          already there (record {
            has_it = there;
            only_there = omega arith;
            others_stay = λ t other. refl;
            stays_good = good;
          })
