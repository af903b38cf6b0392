-- ===== src/Alerts/Tests.antt =====
-- Runs of delfin/common/alert_util.py and delfin/alert_manager/snmp_validator.py.
mod Sorted
mod Sources
use delfin.Prelude.{ℕ, ◌≡◌, refl, true, not, Option, none, some, List, [], ◌∷◌}
use delfin.Errors.{ok}
use delfin.Alerts.Range.{sync_query, in_range_alerts, is_alert_in_time_range}
use delfin.Alerts.Validator.{
  Category, fault, recovery, handle_all, new_validator, handle_validation_result, alerts_of, faults,
  fault_results, alternating, flag, recovered, handle_all-alerts,
}

-- A request without times drops every alert.
no_times-run : in_range_alerts (sync_query none none true) (5 ∷ 6 ∷ []) ≡ ok []
unfolding sync_query is_alert_in_time_range
no_times-run = refl

abbrev results : List (Option ℕ × Category)
results =
    (some 3, recovery)
    ∷ (some 3, recovery)
    ∷ (none, fault)
    ∷ (some 3, fault)
    ∷ (some 4, fault)
    ∷ (some 3, recovery)
    ∷ []

results-run :
    alerts_of 3 (handle_all results new_validator).dispatched ≡ recovery ∷ fault ∷ recovery ∷ []
unfolding handle_validation_result
results-run = refl

handle_all-alerts_example :
    (faults (alerts_of 3 (handle_all results new_validator).dispatched) ≡ fault_results 3 results)
    × (alternating (alerts_of 3 (handle_all results new_validator).dispatched) ≡ true)
    × (flag 3 (handle_all results new_validator).snmp_error_flag
        ≡ not (recovered (alerts_of 3 (handle_all results new_validator).dispatched)))
handle_all-alerts_example = handle_all-alerts 3 results
