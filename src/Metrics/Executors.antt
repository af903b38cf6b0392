-- ===== src/Metrics/Executors.antt =====
-- The executor map of `MetricsTaskManager` in delfin/task_manager/metrics_manager.py. The executor
-- called `executor_n` has the name `n` here; the map is in the order that the executors were added in.
use delfin.Prelude.{
  ℕ, zero, suc, Bool, not, ◌&&◌, Option, none, some, List, [], ◌∷◌, ◌++◌, map, filter, elem, ltb,
  ◌==◌, if◌then◌else◌, length, remove,
}
use delfin.Prelude.Int.{ℤ, pos, ◌-ℤ◌, ltb_ℤ}
use delfin.Errors.{ok, err, runtime_error}
use delfin.Effect.{Effect}

-- A value of the executor map, with its key.
pub record Executor : Type 0 where
  pub name : ℕ
  pub storages : List ℕ
  pub cleanup_delay : ℤ

-- The configuration: `max_storages_in_child`, `max_childs_in_node`, `process_cleanup_interval` and
-- `task_cleanup_delay`.
pub record Config : Type 0 where
  pub max_storages : ℕ
  pub max_childs : ℕ
  pub interval : ℕ
  pub delay : ℕ

abbrev pub names : List Executor → List ℕ
names = map λ e. e.name

-- The first executor that the storage is in already.
abbrev pub holder : ℕ → List Executor → Option ℕ
holder s [] = none
holder s (e ∷ es) = if elem s e.storages then some e.name else holder s es

abbrev pub has_room : ℕ → Executor → Bool
has_room most e = not (length e.storages == 0) && ltb (length e.storages) most

-- The first executor with a storage and with room for another; the new map has the storage in it.
abbrev pub put_in_room : ℕ → ℕ → List Executor → Option (ℕ × List Executor)
put_in_room most s [] = none
put_in_room most s (e ∷ es) =
    if has_room most e
    then some (e.name, record e { storages = e.storages ++ s ∷ [] } ∷ es)
    else elim (put_in_room most s es) [ none ↦ none | some p ↦ some (p.0, e ∷ p.1) ]

-- The first of the names from `n` on, `count` of them, that is not taken.
abbrev pub free_name : List ℕ → ℕ → ℕ → Option ℕ
free_name taken n zero = none
free_name taken n (suc count) = if elem n taken then free_name taken (suc n) count else some n

abbrev pub create_executor : ℕ → Option ℕ → Effect (List Executor) ℕ
create_executor s none es = (err runtime_error, es)
create_executor s (some n) es =
    (ok n, es ++ record { name = n; storages = s ∷ []; cleanup_delay = pos 0 } ∷ [])

abbrev pub place : Config → ℕ → Option (ℕ × List Executor) → Effect (List Executor) ℕ
place config s none es = create_executor s (free_name (names es) 1 config.max_childs) es
place config s (some p) es = (ok p.0, p.1)

-- Its second half, for the storage of the job. The result is the name of the executor.
unfoldable pub get_local_executor : Config → ℕ → Effect (List Executor) ℕ
get_local_executor config s es = elim (holder s es) [
  | some n ↦ (ok n, es)
  | none ↦ place config s (put_in_room config.max_storages s es) es
]

-- `if x in xs: xs.remove(x)`
abbrev pub dropped : ℕ → List ℕ → List ℕ
dropped s xs = elim (remove s xs) [ none ↦ xs | some ys ↦ ys ]

unfoldable pub stop_executor : Config → ℕ → ℕ → List Executor → List Executor
stop_executor config n s = map λ e.
    if e.name == n
    then record e { storages = dropped s e.storages; cleanup_delay = pos config.delay }
    else e

abbrev pub expired : Executor → Bool
expired e = length e.storages == 0 && ltb_ℤ e.cleanup_delay (pos 0)

abbrev pub waited : ℕ → Executor → Executor
waited interval e =
    if length e.storages == 0
    then record e { cleanup_delay = e.cleanup_delay -ℤ pos interval }
    else e

unfoldable pub process_cleanup : Config → List Executor → List Executor
process_cleanup config es = map (waited config.interval) (filter (λ e. not (expired e)) es)
