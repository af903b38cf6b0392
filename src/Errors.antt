-- ===== src/Errors.antt =====
-- The exceptions of delfin/exception.py that the modelled code raises or catches, and the result
-- of a call that may raise.
use delfin.Prelude.{Option, none, some}

-- `driver_error` stands for any exception that a driver raises and that no modelled handler names.
pub data Exception : Type 0 where
  value_error attribute_error not_implemented integrity_error driver_error : Exception
  invalid_input storage_not_found storage_is_syncing alert_source_not_found : Exception
  alert_source_not_found_with_host invalid_snmp_config incomplete_trap_information : Exception
  failed_task_not_found task_not_found telemetry_task_exec_error : Exception
  invalid_results snmp_connection_failed storage_backend_not_found : Exception
  storage_already_exists serial_number_mismatch storage_driver_not_found : Exception
  access_info_not_found empty_resource_metrics runtime_error other_exception : Exception

pub data Result {ℓ} (A : Type ℓ) : Type ℓ where
  ok : A → Result A
  err : Exception → Result A

infixl 5 ◌>>=◌
abbrev pub ◌>>=◌ {ℓ κ} : {A : Type ℓ} {B : Type κ} → Result A → (A → Result B) → Result B
ok a >>= f = f a
err e >>= f = err e

-- A lookup that raises when there is nothing.
abbrev pub or_raise {ℓ} : {A : Type ℓ} → Option A → Exception → Result A
or_raise none e = err e
or_raise (some a) e = ok a
