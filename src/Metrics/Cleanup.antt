-- ===== src/Metrics/Cleanup.antt =====
-- How long an executor without a storage stays: `process_cleanup` of delfin/task_manager/
-- metrics_manager.py.
use delfin.Prelude.{
  ℕ, zero, suc, ◌+◌, ◌*◌, ◌≡◌, refl, ap, ◌∙◌, Bool, true, false, not, ◌&&◌, ◌||◌, List, [], ◌∷◌,
  elem, ◌==◌, length, arith, Bool-cases, inl, inr,
}
use delfin.Prelude.Int.{ℤ, pos, negsuc, ◌-ℤ◌, ltb_ℤ}
use delfin.Metrics.Executors.{Executor, Config, names, process_cleanup, expired, waited}
use delfin.Metrics.Holding.{has}

-- `process_cleanup` so many times.
abbrev pub rounds : Config → ℕ → List Executor → List Executor
rounds config zero es = es
rounds config (suc n) es = rounds config n (process_cleanup config es)

-- Every executor with this name is without a storage, and its delay is under the bound.
abbrev pub idle : ℕ → ℕ → List Executor → Bool
idle bound name [] = true
idle bound name (e ∷ es) =
    (not (e.name == name) || length e.storages == 0 && ltb_ℤ e.cleanup_delay (pos bound))
    && idle bound name es

waited-idle :
    (interval bound name m : ℕ) (ss : List ℕ) (d : ℤ)
    → idle (interval + bound) name (record { name = m; storages = ss; cleanup_delay = d } ∷ [])
      ≡ true
    → idle bound name (waited interval (record { name = m; storages = ss; cleanup_delay = d }) ∷ [])
      ≡ true
unfolding ◌-ℤ◌
waited-idle interval bound name m [] (pos d) h = ground arith
waited-idle interval bound name m [] (negsuc d) h = ground arith
waited-idle interval bound name m (s ∷ ss) d h = ground arith

process_cleanup-idle :
    (config : Config) (bound name : ℕ) (es : List Executor)
    → idle (config.interval + bound) name es ≡ true
    → idle bound name (process_cleanup config es) ≡ true
unfolding process_cleanup
process_cleanup-idle config bound name [] h = refl
process_cleanup-idle config bound name (e ∷ es) h =
    let rest = process_cleanup-idle config bound name es (ground arith) in
    let one =
      waited-idle config.interval bound name e.name e.storages e.cleanup_delay (ground arith) in
    elim (Bool-cases (expired e)) [ inl y ↦ rw y rest | inr f ↦ rw f (ground arith) ]

process_cleanup-expired :
    (config : Config) (name : ℕ) (es : List Executor)
    → idle 0 name es ≡ true
    → elem name (names (process_cleanup config es)) ≡ false
unfolding process_cleanup
process_cleanup-expired config name [] h = refl
process_cleanup-expired config name (e ∷ es) h =
    let rest = process_cleanup-expired config name es (ground arith) in
    elim (Bool-cases (expired e)) [ inl y ↦ rw y rest | inr f ↦ rw f (ground arith) ]

elem_empty : (s : ℕ) (xs : List ℕ) → (length xs == 0) ≡ true → elem s xs ≡ false
elem_empty s [] h = refl
elem_empty s (x ∷ xs) h = absurd (ground arith)

process_cleanup-has :
    (config : Config) (s n : ℕ) (es : List Executor)
    → has s n (process_cleanup config es) ≡ has s n es
unfolding process_cleanup
process_cleanup-has config s n [] = refl
process_cleanup-has config s n (e ∷ es) =
    let rest = process_cleanup-has config s n es in
    let empty = elem_empty s e.storages in
    elim (Bool-cases (expired e)) [ inl y ↦ rw y (ground arith) | inr f ↦ rw f (ground arith) ]

rounds-has :
    (config : Config) (k s n : ℕ) (es : List Executor) → has s n (rounds config k es) ≡ has s n es
rounds-has config zero s n es = refl
rounds-has config (suc k) s n es =
    rounds-has config k s n (process_cleanup config es) ∙ process_cleanup-has config s n es

-- If the executors with a name have no storage, and less than `k` times the cleanup interval is left
-- of their delay, they are gone after `k + 1` rounds of the cleanup; no round takes a storage from an
-- executor that has one.
pub process_cleanup-ends :
    (config : Config) (k name : ℕ) (es : List Executor)
    → idle (k * config.interval) name es ≡ true
    → (elem name (names (rounds config (suc k) es)) ≡ false)
      × ((s n : ℕ) → has s n (rounds config (suc k) es) ≡ has s n es)
process_cleanup-ends config zero name es h = (
  process_cleanup-expired config name es (ap (λ b. idle b name es) (omega arith) ∙ h),
  λ s n. rounds-has config 1 s n es,
)
process_cleanup-ends config (suc k) name es h =
    let e : config.interval + k * config.interval ≡ suc k * config.interval = omega arith in
    let now =
      process_cleanup-idle config (k * config.interval) name es (ap (λ b. idle b name es) e ∙ h) in
    let (gone, _) = process_cleanup-ends config k name (process_cleanup config es) now in
    (gone, λ s n. rounds-has config (suc (suc k)) s n es)
