-- ===== src/Alerts/Loaded.antt =====
-- What `_load_snmp_config` of delfin/alert_manager/trap_receiver.py has loaded after its last page.

use delfin.Prelude.{
  fun_ext, subst, ℕ, zero, suc, ◌<◌, ◌≡◌, refl, sym, ap, ◌∙◌, Bool, true, false, ◌&&◌, Option, none,
  some, List, [], ◌∷◌, ◌++◌, map, filter, take, drop, length, ltb, ◌==◌, if◌then◌else◌, arith,
  Bool-cases, inl, inr, distinct,
}
use delfin.Effect.{Effect, ◌>>=◌, ◌>>◌, pure, lift, for_each, >>=-step, for_each-append, >>-assoc}
use delfin.Database.Permuted.{any_row, any_row-Perm, distinct-Perm}
use delfin.Database.Paging.{Column, SortBy, IsOrder}
use delfin.Database.Pages.{
  count, count-Perm, count-filter, count-append, take-drop, take-short, last_of, any_row-last,
  count-drop, distinct-filter, descending, filter-drop, distinct-descending,
}
use delfin.Alerts.Source.{AlertSource, has_storage}
use delfin.Alerts.Marked.{
  time_of, newest_first, remaining, Marks, page_after-take, first_source-time,
  not_before-not_ascending, last_marker-last, any_row-remaining, remaining-remaining, nonempty,
}
use delfin.Alerts.Load.{ids_of, last_marker, page_after, load_snmp_config}

-- What one full page leaves for the next ones.
record Step (rows page rest : List AlertSource) (m : Option ℕ) : Type 0 where
  marker : Option ℕ
  time : ℕ
  marker_is : last_marker page m ≡ marker
  marks : Marks rows marker (some time)
  leaves : (p : AlertSource → Bool) → count p (remaining (some time) rows) ≡ count p rest

module _ (order_by : List (SortBy AlertSource) → List AlertSource → List AlertSource)
    (orders : IsOrder newest_first order_by) (rows : List AlertSource)
    (unique : distinct (ids_of rows) ≡ true) (no_ties : distinct (map time_of rows) ≡ true) where
  abbrev page_source : Option ℕ → List AlertSource
  page_source t = order_by newest_first (remaining t rows)

  page_source-descending : (t : Option ℕ) → descending time_of (page_source t) ≡ true
  page_source-descending t =
      distinct-descending time_of (page_source t)
        (not_before-not_ascending (page_source t) (orders.sorted (remaining t rows)))
        (distinct-Perm time_of (page_source t) (remaining t rows)
            (orders.permutes (remaining t rows))
          ∙ times t)
    where
      times : (t : Option ℕ) → distinct (map time_of (remaining t rows)) ≡ true
      times none = no_ties
      times (some t) = distinct-filter time_of (λ row. ltb (time_of row) t) rows no_ties

  page-Step :
      (t m : Option ℕ) (n : ℕ) (x : AlertSource) (xs : List AlertSource)
      → page_source t ≡ x ∷ xs
      → Step rows (take (suc n) (x ∷ xs)) (drop n xs) m
  page-Step t m n x xs e =
      let z : AlertSource = last_of x (take n xs) in
      let perm = orders.permutes (remaining t rows) in
      let same : AlertSource → Bool =
        λ row. has_storage z.storage_id row && (time_of row == time_of z) in
      let here : any_row same (remaining t rows) ≡ true =
        sym (any_row-Perm same (page_source t) (remaining t rows) perm)
        ∙ ap (any_row same) e
        ∙ any_row-last same x n xs (ground arith) in
      record {
        marker = some z.storage_id;
        time = time_of z;
        marker_is = last_marker-last x (take n xs) m;
        marks = first_source-time z rows unique (any_row-remaining same t rows here);
        leaves = λ p.
            let below : AlertSource → Bool = λ row. ltb (time_of row) (time_of z) in
            sym (ap (count p) (remaining-remaining t z rows here))
            ∙ count-filter p below (remaining t rows)
            ∙ sym (count-Perm (λ row. below row && p row) (page_source t) (remaining t rows) perm)
            ∙ sym (count-filter p below (page_source t))
            ∙ ap (λ l. count p (filter below l)) e
            ∙ ap (count p) (
                filter-drop time_of n x xs
                  (sym (ap (descending time_of) e) ∙ page_source-descending t));
      }

  -- What is loaded from a marker on: all that remains.
  record Loads {S : Type 0} (run : Effect S Bool) (add : AlertSource → Effect S (Unit {0}))
      (t : Option ℕ) : Type 0 where
    loaded : List AlertSource
    runs : (d : S) → run d ≡ (for_each loaded add >>= λ _. pure true) d
    each_once : (p : AlertSource → Bool) → count p loaded ≡ count p (remaining t rows)

  page_source-count :
      (p : AlertSource → Bool) (t : Option ℕ) → count p (page_source t) ≡ count p (remaining t rows)
  page_source-count p t =
      count-Perm p (page_source t) (remaining t rows) (orders.permutes (remaining t rows))

  module _ {S : Type 0} (more : ℕ → Option (Column AlertSource))
      (add : AlertSource → Effect S (Unit {0})) (n : ℕ) where
    abbrev after_page : ℕ → Option ℕ → List AlertSource → Effect S Bool
    after_page fuel m page =
        let rest = load_snmp_config order_by more add (suc n) rows fuel (last_marker page m) in
        for_each page add >> (if ltb (length page) (suc n) then pure true else rest)

    load-page :
        (fuel : ℕ) (m t : Option ℕ) (d : S)
        → Marks rows m t
        → load_snmp_config order_by more add (suc n) rows (suc fuel) m d
          ≡ after_page fuel m (take (suc n) (page_source t)) d
    unfolding load_snmp_config
    load-page fuel m t d marks =
        >>=-step (lift (page_after order_by more (suc n) rows m)) (after_page fuel m) d d
          (take (suc n) (page_source t))
          (ap (λ r. (r, d)) (page_after-take order_by more (suc n) rows m t marks))

    last_page :
        (fuel : ℕ) (m t : Option ℕ)
        → Marks rows m t
        → ltb (length (take (suc n) (page_source t))) (suc n) ≡ true
        → Loads (load_snmp_config order_by more add (suc n) rows (suc fuel) m) add t
    last_page fuel m t marks short = record {
      loaded = take (suc n) (page_source t);
      runs = λ d. load-page fuel m t d marks ∙ rw short refl;
      each_once = λ p.
          ap (count p) (take-short (suc n) (page_source t) (ground arith)) ∙ page_source-count p t;
    }

    full_page :
        (fuel : ℕ) (m t : Option ℕ)
        → Marks rows m t
        → ltb (length (take (suc n) (page_source t))) (suc n) ≡ false
        → (step : Step rows (take (suc n) (page_source t)) (drop (suc n) (page_source t)) m)
        → Loads
            (load_snmp_config order_by more add (suc n) rows fuel step.marker)
            add
            (some step.time)
        → Loads (load_snmp_config order_by more add (suc n) rows (suc fuel) m) add t
    full_page fuel m t marks full step rest =
        let page = take (suc n) (page_source t) in
        record {
          loaded = page ++ rest.loaded;
          runs = λ d.
              load-page fuel m t d marks
              ∙ rw full refl
              ∙ ap
                  (λ k.
                    (for_each page add >> load_snmp_config order_by more add (suc n) rows fuel k) d)
                  step.marker_is
              ∙ ap (λ k. (for_each page add >> k) d) (fun_ext rest.runs)
              ∙ >>-assoc (for_each page add) (λ _. for_each rest.loaded add) (λ _. pure true) d
              ∙ sym (
                  ap (λ k. (k >>= λ _. pure true) d)
                    (fun_ext (for_each-append page rest.loaded add)));
          each_once = λ p.
              let whole = count-append p page rest.loaded in
              let later = rest.each_once p in
              let left = step.leaves p in
              let split = count-append p page (drop (suc n) (page_source t)) in
              let joined = ap (count p) (take-drop (suc n) (page_source t)) in
              let all = page_source-count p t in omega arith;
        }

    load_from :
        (fuel : ℕ) (m t : Option ℕ)
        → Marks rows m t
        → count (λ row. true) (remaining t rows) < fuel
        → Loads (load_snmp_config order_by more add (suc n) rows fuel m) add t
    load_from zero m t marks enough = ground arith
    load_from (suc fuel) m t marks enough =
        elim (Bool-cases (ltb (length (take (suc n) (page_source t))) (suc n))) [
          | inl y ↦ last_page fuel m t marks y
          | inr f ↦
              let (x, xs, e) = nonempty n (page_source t) f in
              let step : Step rows (take (suc n) (page_source t)) (drop (suc n) (page_source t)) m =
                subst (λ l. Step rows (take (suc n) l) (drop (suc n) l) m) (sym e)
                  (page-Step t m n x xs e) in
              let fewer = count-drop (λ row. true) n xs in
              let same = page_source-count (λ row. true) t in
              let size = ap (count (λ row. true)) e in
              let behind = ap (λ l. count (λ row. true) (drop (suc n) l)) e in
              let left = step.leaves (λ row. true) in
              full_page fuel m t marks f step
                (load_from fuel step.marker (some step.time) step.marks (omega arith))
        ]

count-all : (rows : List AlertSource) → count (λ row. true) rows ≡ length rows
count-all [] = refl
count-all (row ∷ rows) = omega (arith, count-all rows)

-- With an SQL engine that sorts, storage ids that are unique and no two rows of the same time of
-- creation: for every page size from 1 on and more rounds than there are rows, the loop over the
-- pages ends and adds the configuration of each alert source exactly once, up to the first call
-- that raises.
pub load_snmp_config-each_once :
    {S : Type 0} (order_by : List (SortBy AlertSource) → List AlertSource → List AlertSource)
    (more : ℕ → Option (Column AlertSource)) (add : AlertSource → Effect S (Unit {0})) (limit : ℕ)
    (rows : List AlertSource) (fuel : ℕ)
    → IsOrder newest_first order_by
    → distinct (ids_of rows) ≡ true
    → distinct (map time_of rows) ≡ true
    → 0 < limit
    → length rows < fuel
    → (loaded : List AlertSource) × ((d : S)
        → load_snmp_config order_by more add limit rows fuel none d
          ≡ (for_each loaded add >>= λ _. pure true) d)
      × ((p : AlertSource → Bool) → count p loaded ≡ count p rows)
load_snmp_config-each_once order_by more add zero rows fuel orders unique no_ties positive enough =
    ground arith
load_snmp_config-each_once order_by more add (suc n) rows fuel orders unique no_ties positive
      enough =
    let all = count-all rows in
    let l =
      load_from order_by orders rows unique no_ties more add n fuel none none tt (omega arith) in
    (l.loaded, l.runs, l.each_once)
