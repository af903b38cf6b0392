-- ===== src/Metrics/Reached.antt =====
-- What stays true of the executor map of delfin/task_manager/metrics_manager.py through any sequence
-- of its operations.
use delfin.Prelude.{
  ℕ, zero, suc, ◌≤◌, ◌≡◌, refl, sym, ap, Bool, true, false, not, ◌&&◌, List, [], ◌∷◌, filter, elem,
  distinct, leb, ◌==◌, length, arith, Bool-cases, inl, inr, ==_refl, ==→eq, ◌≢◌,
}
use delfin.Errors.{Result}
use delfin.Metrics.Executors.{
  Executor, Config, names, get_local_executor, stop_executor, dropped, process_cleanup,
}
use delfin.Metrics.Holding.{count, held, bounded, in_range}
use delfin.Metrics.Choosing.{
  IsExecutorMap, Chosen, already, joined, created, refused, get_local_executor-Chosen,
}

dropped-count : (s t : ℕ) (xs : List ℕ) → count t (dropped s xs) ≤ count t xs
dropped-count s t [] = omega arith
dropped-count s t (x ∷ xs) = let rest = dropped-count s t xs in ground arith

dropped-length : (s : ℕ) (xs : List ℕ) → length (dropped s xs) ≤ length xs
dropped-length s [] = omega arith
dropped-length s (x ∷ xs) = let rest = dropped-length s xs in ground arith

-- The second map has the names of some of the executors of the first, and no more storages.
record Within (most childs : ℕ) (es es' : List Executor) : Type 0 where
  keeps_apart : distinct (names es) ≡ true → distinct (names es') ≡ true
  keeps_range : in_range childs es ≡ true → in_range childs es' ≡ true
  keeps_bound : bounded most es ≡ true → bounded most es' ≡ true
  keeps_out : (n : ℕ) → elem n (names es) ≡ false → elem n (names es') ≡ false
  no_more : (t : ℕ) → held t es' ≤ held t es

Within-IsExecutorMap :
    (config : Config) (es es' : List Executor)
    → Within config.max_storages config.max_childs es es'
    → IsExecutorMap config es
    → IsExecutorMap config es'
Within-IsExecutorMap config es es' w good = record {
  distinct_names = w.keeps_apart good.distinct_names;
  names_in_range = w.keeps_range good.names_in_range;
  is_bounded = w.keeps_bound good.is_bounded;
  once = λ s. let a = w.no_more s in let b = good.once s in omega arith;
}

stop_executor-Within :
    (config : Config) (most childs n s : ℕ) (es : List Executor)
    → Within most childs es (stop_executor config n s es)
unfolding stop_executor
stop_executor-Within config most childs n s [] = record {
  keeps_apart = λ h. h;
  keeps_range = λ h. h;
  keeps_bound = λ h. h;
  keeps_out = λ n h. h;
  no_more = λ t. omega arith;
}
stop_executor-Within config most childs n s (e ∷ es) =
    let w = stop_executor-Within config most childs n s es in
    let l = dropped-length s e.storages in
    record {
      keeps_apart = λ h.
          let a = w.keeps_apart (ground arith) in
          let o = w.keeps_out e.name (ground arith) in ground arith;
      keeps_range = λ h. let a = w.keeps_range (ground arith) in ground arith;
      keeps_bound = λ h. let a = w.keeps_bound (ground arith) in ground arith;
      keeps_out = λ m h. let a = w.keeps_out m (ground arith) in ground arith;
      no_more = λ t. let a = w.no_more t in let d = dropped-count s t e.storages in ground arith;
    }

process_cleanup-Within :
    (config : Config) (most childs : ℕ) (es : List Executor)
    → Within most childs es (process_cleanup config es)
unfolding process_cleanup
process_cleanup-Within config most childs [] = record {
  keeps_apart = λ h. h;
  keeps_range = λ h. h;
  keeps_bound = λ h. h;
  keeps_out = λ n h. h;
  no_more = λ t. omega arith;
}
process_cleanup-Within config most childs (e ∷ es) =
    let w = process_cleanup-Within config most childs es in
    record {
      keeps_apart = λ h.
          let a = w.keeps_apart (ground arith) in
          let o = w.keeps_out e.name (ground arith) in ground arith;
      keeps_range = λ h. let a = w.keeps_range (ground arith) in ground arith;
      keeps_bound = λ h. let a = w.keeps_bound (ground arith) in ground arith;
      keeps_out = λ m h. let a = w.keeps_out m (ground arith) in ground arith;
      no_more = λ t. let a = w.no_more t in ground arith;
    }

-- One operation on the executor map.
pub data Step (config : Config) : List Executor → List Executor → Type 0 where
  asked : {es : List Executor} (s : ℕ) → Step config es (get_local_executor config s es).1
  stopped : {es : List Executor} (n s : ℕ) → Step config es (stop_executor config n s es)
  cleaned : {es : List Executor} → Step config es (process_cleanup config es)

-- A map that operations lead to from the empty one.
pub data Reached (config : Config) : List Executor → Type 0 where
  start : Reached config []
  next : {es es' : List Executor} → Reached config es → Step config es es' → Reached config es'

Chosen-IsExecutorMap :
    (config : Config) (s : ℕ) (es : List Executor) (r : Result ℕ × List Executor)
    → IsExecutorMap config es
    → Chosen config s es r
    → IsExecutorMap config r.1
Chosen-IsExecutorMap config s es _ good (already _ put) = put.stays_good
Chosen-IsExecutorMap config s es _ good (joined _ _ _ put) = put.stays_good
Chosen-IsExecutorMap config s es _ good (created _ _ _ _ put) = put.stays_good
Chosen-IsExecutorMap config s es _ good (refused _ _ _) = good

Step-IsExecutorMap :
    (config : Config) (es es' : List Executor)
    → 1 ≤ config.max_storages
    → Step config es es'
    → IsExecutorMap config es
    → IsExecutorMap config es'
Step-IsExecutorMap config es _ room (asked s) good =
    Chosen-IsExecutorMap config s es _ good (get_local_executor-Chosen config room s es good)
Step-IsExecutorMap config es _ room (stopped n s) good =
    Within-IsExecutorMap config es _
      (stop_executor-Within config config.max_storages config.max_childs n s es) good
Step-IsExecutorMap config es _ room cleaned good =
    Within-IsExecutorMap config es _
      (process_cleanup-Within config config.max_storages config.max_childs es) good

Reached-IsExecutorMap :
    (config : Config) (es : List Executor)
    → 1 ≤ config.max_storages
    → Reached config es
    → IsExecutorMap config es
Reached-IsExecutorMap config _ room start = record {
  distinct_names = refl;
  names_in_range = refl;
  is_bounded = refl;
  once = λ s. omega arith;
}
Reached-IsExecutorMap config es room (next {es = old} r step) =
    Step-IsExecutorMap config old es room step (Reached-IsExecutorMap config old room r)

-- Distinct numbers from 1 to `most` are at most `most`.
abbrev below : ℕ → List ℕ → Bool
below most [] = true
below most (n ∷ ns) = leb 1 n && leb n most && below most ns

abbrev others : ℕ → List ℕ → List ℕ
others m = filter λ n. not (n == m)

elem-others : (m n : ℕ) (ns : List ℕ) → elem n ns ≡ false → elem n (others m ns) ≡ false
elem-others m n [] h = refl
elem-others m n (k ∷ ns) h = let rest = elem-others m n ns (ground arith) in ground arith

distinct-others : (m : ℕ) (ns : List ℕ) → distinct ns ≡ true → distinct (others m ns) ≡ true
distinct-others m [] h = refl
distinct-others m (n ∷ ns) h =
    let rest = distinct-others m ns (ground arith) in
    let out = elem-others m n ns (ground arith) in ground arith

below-others : (m : ℕ) (ns : List ℕ) → below (suc m) ns ≡ true → below m (others (suc m) ns) ≡ true
below-others m [] h = refl
below-others m (n ∷ ns) h =
    let rest = below-others m ns (ground arith) in
    elim (Bool-cases (n == suc m)) [
      | inl y ↦ ground arith
      | inr f ↦ let apart : n ≢ suc m = (λ e. absurd (ground (arith, ==_refl n))) in ground arith
    ]

length-others_out : (m : ℕ) (ns : List ℕ) → elem m ns ≡ false → length (others m ns) ≡ length ns
length-others_out m [] h = refl
length-others_out m (n ∷ ns) h = let rest = length-others_out m ns (ground arith) in ground arith

length-others : (m : ℕ) (ns : List ℕ) → distinct ns ≡ true → length ns ≤ suc (length (others m ns))
length-others m [] h = omega arith
length-others m (n ∷ ns) h = elim (Bool-cases (n == m)) [
  | inl y ↦
      let e : elem m ns ≡ elem n ns = ap (λ k. elem k ns) (sym (==→eq n m y)) in
      let out = length-others_out m ns (ground arith) in ground arith
  | inr f ↦ let rest = length-others m ns (ground arith) in ground arith
]

pigeonhole : (most : ℕ) (ns : List ℕ) → distinct ns ≡ true → below most ns ≡ true → length ns ≤ most
pigeonhole zero [] d b = omega arith
pigeonhole zero (n ∷ ns) d b = absurd (ground arith)
pigeonhole (suc m) ns d b =
    let rest =
      pigeonhole m (others (suc m) ns) (distinct-others (suc m) ns d) (below-others m ns b) in
    let l = length-others (suc m) ns d in omega arith

below-names :
    (most : ℕ) (es : List Executor) → in_range most es ≡ true → below most (names es) ≡ true
below-names most [] h = refl
below-names most (e ∷ es) h = let rest = below-names most es (ground arith) in ground arith

length-names : (es : List Executor) → length (names es) ≡ length es
length-names [] = refl
length-names (e ∷ es) = ap suc (length-names es)

-- In every executor map that operations lead to from the empty one, with room for at least one
-- storage in an executor, the names are distinct and among those that there may be, no executor has
-- more storages than it may, no storage is in two executors or twice in one, and there are no more
-- executors than there may be.
pub Reached-bounds :
    (config : Config) (es : List Executor)
    → 1 ≤ config.max_storages
    → Reached config es
    → IsExecutorMap config es × (length es ≤ config.max_childs)
Reached-bounds config es room r =
    let good = Reached-IsExecutorMap config es room r in
    let few =
      pigeonhole config.max_childs (names es) good.distinct_names
        (below-names config.max_childs es good.names_in_range) in
    let l = length-names es in (good, omega arith)
