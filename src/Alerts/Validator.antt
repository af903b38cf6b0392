-- ===== src/Alerts/Validator.antt =====
-- `_handle_validation_result` of `SNMPValidator` in delfin/alert_manager/snmp_validator.py: when an
-- alert on the SNMP connection of a storage is dispatched.
use delfin.Prelude.{
  ℕ, ◌+◌, ◌≡◌, refl, sym, ap, Bool, true, false, not, ◌&&◌, Option, none, some, List, [], ◌∷◌, ◌==◌,
  ==→eq, if◌then◌else◌, arith, Bool-cases, inl, inr,
}

-- `Category.FAULT` and `Category.RECOVERY`
pub data Category : Type 0 where
  fault recovery : Category

-- `snmp_error_flag`, by serial number, and the alerts that were dispatched, the newest first.
pub record Validator : Type 0 where
  pub snmp_error_flag : List (ℕ × Bool)
  pub dispatched : List (ℕ × Category)

-- `snmp_error_flag.get(serial_number, True)`
abbrev pub flag : ℕ → List (ℕ × Bool) → Bool
flag n [] = true
flag n ((m, b) ∷ fs) = if n == m then b else flag n fs

-- An entry that is set stands before the old one.
abbrev pub dispatch : ℕ → Category → Bool → Validator → Validator
dispatch n c b v = record {
  snmp_error_flag = (n, b) ∷ v.snmp_error_flag;
  dispatched = (n, c) ∷ v.dispatched;
}

-- `none` is a storage that is not in the database any more.
unfoldable pub handle_validation_result : Option ℕ → Category → Validator → Validator
handle_validation_result none c v = v
handle_validation_result (some n) fault v = dispatch n fault true v
handle_validation_result (some n) recovery v =
    if flag n v.snmp_error_flag then dispatch n recovery false v else v

-- The results of the checks of one serial number or another, one after the other.
abbrev pub handle_all : List (Option ℕ × Category) → Validator → Validator
handle_all [] v = v
handle_all ((n, c) ∷ rs) v = handle_all rs (handle_validation_result n c v)

-- The alerts of one serial number, the newest first.
abbrev pub alerts_of : ℕ → List (ℕ × Category) → List Category
alerts_of n [] = []
alerts_of n ((m, c) ∷ as') = if n == m then c ∷ alerts_of n as' else alerts_of n as'

abbrev pub is_recovery : Category → Bool
is_recovery fault = false
is_recovery recovery = true

-- The newest alert is a recovery.
abbrev pub recovered : List Category → Bool
recovered [] = false
recovered (c ∷ cs) = is_recovery c

-- No recovery comes directly after another.
abbrev pub alternating : List Category → Bool
alternating [] = true
alternating (c ∷ cs) = not (is_recovery c && recovered cs) && alternating cs

-- The flag says whether the newest alert is a fault or there is none yet.
pub record IsValidator (n : ℕ) (v : Validator) : Type 0 where
  pub flag_is : flag n v.snmp_error_flag ≡ not (recovered (alerts_of n v.dispatched))
  pub is_alternating : alternating (alerts_of n v.dispatched) ≡ true

dispatch-IsValidator :
    (n m : ℕ) (c : Category) (v : Validator)
    → (is_recovery c && not (flag m v.snmp_error_flag)) ≡ false
    → IsValidator n v
    → IsValidator n (dispatch m c (not (is_recovery c)) v)
dispatch-IsValidator n m c v h good =
    let a = good.flag_is in
    let b = good.is_alternating in
    elim (Bool-cases (n == m)) [
      | inl y ↦
          let same : flag m v.snmp_error_flag ≡ flag n v.snmp_error_flag =
            ap (λ k. flag k v.snmp_error_flag) (sym (==→eq n m y)) in
          record { flag_is = rw y refl; is_alternating = rw y (ground arith) }
      | inr f ↦ record { flag_is = rw f a; is_alternating = rw f b }
    ]

handle_validation_result-IsValidator :
    (n : ℕ) (m : Option ℕ) (c : Category) (v : Validator)
    → IsValidator n v
    → IsValidator n (handle_validation_result m c v)
unfolding handle_validation_result
handle_validation_result-IsValidator n none c v good = good
handle_validation_result-IsValidator n (some m) fault v good =
    dispatch-IsValidator n m fault v refl good
handle_validation_result-IsValidator n (some m) recovery v good =
    elim (Bool-cases (flag m v.snmp_error_flag)) [
      | inl y ↦ rw y (dispatch-IsValidator n m recovery v (ground arith) good)
      | inr f ↦ rw f good
    ]

handle_all-IsValidator :
    (n : ℕ) (rs : List (Option ℕ × Category)) (v : Validator)
    → IsValidator n v
    → IsValidator n (handle_all rs v)
handle_all-IsValidator n [] v good = good
handle_all-IsValidator n ((m, c) ∷ rs) v good =
    handle_all-IsValidator n rs (handle_validation_result m c v)
      (handle_validation_result-IsValidator n m c v good)

-- How many of the results are faults of this serial number, and how many of its alerts.
abbrev pub fault_results : ℕ → List (Option ℕ × Category) → ℕ
fault_results n [] = 0
fault_results n ((none, c) ∷ rs) = fault_results n rs
fault_results n ((some m, c) ∷ rs) =
    (if n == m && not (is_recovery c) then 1 else 0) + fault_results n rs

abbrev pub faults : List Category → ℕ
faults [] = 0
faults (c ∷ cs) = (if is_recovery c then 0 else 1) + faults cs

handle_validation_result-faults :
    (n m : ℕ) (c : Category) (v : Validator)
    → faults (alerts_of n (handle_validation_result (some m) c v).dispatched)
      ≡ (if n == m && not (is_recovery c) then 1 else 0) + faults (alerts_of n v.dispatched)
unfolding handle_validation_result
handle_validation_result-faults n m fault v = ground arith
handle_validation_result-faults n m recovery v = ground arith

handle_all-faults :
    (n : ℕ) (rs : List (Option ℕ × Category)) (v : Validator)
    → faults (alerts_of n (handle_all rs v).dispatched)
      ≡ fault_results n rs + faults (alerts_of n v.dispatched)
unfolding handle_validation_result
handle_all-faults n [] v = omega arith
handle_all-faults n ((none, c) ∷ rs) v = handle_all-faults n rs v
handle_all-faults n ((some m, c) ∷ rs) v =
    let one = handle_validation_result-faults n m c v in
    let rest = handle_all-faults n rs (handle_validation_result (some m) c v) in omega arith

abbrev pub new_validator : Validator
new_validator = record { snmp_error_flag = []; dispatched = [] }

-- After any sequence of validation results, of any storages, a storage has had an alert for every
-- fault of its own, and no two alerts of recovery without a fault between; its flag says that the
-- last alert was a fault, or that there was none.
pub handle_all-alerts :
    (n : ℕ) (rs : List (Option ℕ × Category))
    → let v = handle_all rs new_validator in
      let alerts = alerts_of n v.dispatched in
      (faults alerts ≡ fault_results n rs)
      × (alternating alerts ≡ true)
      × (flag n v.snmp_error_flag ≡ not (recovered alerts))
handle_all-alerts n rs =
    let good =
      handle_all-IsValidator n rs new_validator
        (record { flag_is = refl; is_alternating = refl }) in
    let count = handle_all-faults n rs new_validator in
    (omega arith, good.is_alternating, good.flag_is)
