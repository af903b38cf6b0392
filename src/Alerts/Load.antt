-- ===== src/Alerts/Load.antt =====
-- `_load_snmp_config` of `TrapReceiver` in delfin/alert_manager/trap_receiver.py: the configurations
-- of all alert sources, read from the database in pages.

use delfin.Prelude.{
  ℕ, zero, suc, Bool, true, false, Option, none, some, List, [], ◌∷◌, map, length, ltb,
  if◌then◌else◌,
}
use delfin.Errors.{Result}
use delfin.Effect.{Effect, ◌>>=◌, ◌>>◌, pure, lift, for_each}
use delfin.Database.Paging.{Column, SortBy, no_filters}
use delfin.Alerts.Source.{AlertSource, alert_source_get_all}

abbrev pub ids_of : List AlertSource → List ℕ
ids_of = map λ row. row.storage_id

-- `marker` after the loop over a page.
abbrev pub last_marker : List AlertSource → Option ℕ → Option ℕ
last_marker [] m = m
last_marker (row ∷ rows) m = last_marker rows (some row.storage_id)

abbrev pub page_after :
    (List (SortBy AlertSource) → List AlertSource → List AlertSource)
    → (ℕ → Option (Column AlertSource))
    → ℕ
    → List AlertSource
    → Option ℕ
    → Result (List AlertSource)
page_after order_by more limit rows marker =
    alert_source_get_all order_by more marker (some limit) none none no_filters 0 rows

module _ {S : Type 0} (order_by : List (SortBy AlertSource) → List AlertSource → List AlertSource)
    (more : ℕ → Option (Column AlertSource)) (add : AlertSource → Effect S (Unit {0})) (limit : ℕ)
    (rows : List AlertSource) where
  -- The loop, by the rounds that are left; it answers whether it came to its end.
  unfoldable pub load_snmp_config : ℕ → Option ℕ → Effect S Bool
  load_snmp_config zero marker = pure false
  load_snmp_config (suc n) marker = lift (page_after order_by more limit rows marker) >>= λ page.
      let rest = load_snmp_config n (last_marker page marker) in
      for_each page add >> (if ltb (length page) limit then pure true else rest)
