-- ===== src/Metrics/Tests.antt =====
-- Runs of the executor map of delfin/task_manager/metrics_manager.py.
use delfin.Prelude.{ℕ, ◌≤◌, ◌≡◌, refl, false, List, [], ◌∷◌, elem, length, arith}
use delfin.Prelude.Int.{pos}
use delfin.Errors.{ok, err, runtime_error}
use delfin.Metrics.Executors.{
  Executor, Config, names, get_local_executor, stop_executor, process_cleanup,
}
use delfin.Metrics.Holding.{has}
use delfin.Metrics.Choosing.{IsExecutorMap}
use delfin.Metrics.Reached.{start, next, asked, stopped, cleaned, Reached-bounds}
use delfin.Metrics.Cleanup.{rounds, process_cleanup-ends}

-- Two storages in each of two executors.
abbrev config : Config
config = record { max_storages = 2; max_childs = 2; interval = 60; delay = 100 }

abbrev three_storages : List Executor
three_storages =
    (record { name = 1; storages = 7 ∷ 8 ∷ []; cleanup_delay = pos 0 })
    ∷ (record { name = 2; storages = 9 ∷ []; cleanup_delay = pos 0 })
    ∷ []

fourth-run : (get_local_executor config 6 three_storages).0 ≡ ok 2
unfolding get_local_executor
fourth-run = refl

-- The fifth storage has no place.
fifth-run :
    (get_local_executor config 5 (get_local_executor config 6 three_storages).1).0
    ≡ err runtime_error
unfolding get_local_executor
fifth-run = refl

-- An executor without a storage is not taken again as long as it is not cleaned up.
abbrev idle_executor : List Executor
idle_executor =
    stop_executor (record config { max_childs = 1 }) 1 7 (get_local_executor config 7 []).1

idle_executor-run :
    (get_local_executor (record config { max_childs = 1 }) 8 idle_executor).0 ≡ err runtime_error
unfolding get_local_executor stop_executor
idle_executor-run = refl

abbrev reached_map : List Executor
reached_map =
    process_cleanup config
      (stop_executor config 1 7 (get_local_executor config 8 (get_local_executor config 7 []).1).1)

Reached-bounds_example : IsExecutorMap config reached_map × (length reached_map ≤ 2)
Reached-bounds_example =
    Reached-bounds config reached_map (ground arith)
      (next (next (next (next start (asked 7)) (asked 8)) (stopped 1 7)) cleaned)

abbrev one_idle : List Executor
one_idle =
    (record { name = 1; storages = []; cleanup_delay = pos 100 })
    ∷ (record { name = 2; storages = 9 ∷ []; cleanup_delay = pos 0 })
    ∷ []

process_cleanup-ends_example :
    (elem 1 (names (rounds config 3 one_idle)) ≡ false)
    × ((s n : ℕ) → has s n (rounds config 3 one_idle) ≡ has s n one_idle)
process_cleanup-ends_example = process_cleanup-ends config 2 1 one_idle refl
