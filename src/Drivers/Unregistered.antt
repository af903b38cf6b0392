-- ===== src/Drivers/Unregistered.antt =====
-- Why `discover_storage` of delfin/drivers/api.py registers nothing, with the check of delfin/drivers/
-- helper.py.
use delfin.Prelude.{
  ℕ, ◌≡◌, refl, subst, true, Option, none, some, List, elem, arith, Bool-cases, inl, inr,
  if◌then◌else◌,
}
use delfin.Errors.{
  Result, ok, err, Exception, invalid_results, storage_backend_not_found, integrity_error,
  storage_already_exists,
}
use delfin.Drivers.Manager.{AccessInfo, Found, Storage, Drivers, access_info_get, uncached_driver}
use delfin.Drivers.Api.{live, serials, check_storage_repetition}

-- The driver that is made from the access information answers with this serial number.
pub record Answered {D : Type 0} (drivers : Drivers D) (a : AccessInfo) (n : ℕ) : Type 0 where
  pub driver : D
  pub found : Found
  pub made : uncached_driver drivers a ≡ ok driver
  pub answered : drivers.get_storage driver ≡ ok (some found)
  pub serial : found.serial_number ≡ some n

-- The reasons, with the exceptions: the driver can not be made or does not answer, it answers with no
-- storage or no serial number, a live storage has the serial number, or the id has access information
-- already.
pub data Unregistered {D : Type 0} (drivers : Drivers D) (i : ℕ) (a : AccessInfo)
    (storages : List Storage) (accesses : List AccessInfo) : Exception → Type 0 where
  no_driver :
      {e : Exception}
      → uncached_driver drivers a ≡ err e
      → Unregistered drivers i a storages accesses e
  no_answer :
      {e : Exception} {d : D}
      → uncached_driver drivers a ≡ ok d
      → drivers.get_storage d ≡ err e
      → Unregistered drivers i a storages accesses e
  nothing_found :
      {d : D}
      → uncached_driver drivers a ≡ ok d
      → drivers.get_storage d ≡ ok none
      → Unregistered drivers i a storages accesses storage_backend_not_found
  no_serial_number :
      {d : D} {f : Found}
      → uncached_driver drivers a ≡ ok d
      → drivers.get_storage d ≡ ok (some f)
      → f.serial_number ≡ none
      → Unregistered drivers i a storages accesses invalid_results
  known_serial_number :
      {n : ℕ}
      → Answered drivers a n
      → elem n (serials (live storages)) ≡ true
      → Unregistered drivers i a storages accesses storage_already_exists
  known_access_info :
      {n : ℕ} {b : AccessInfo}
      → Answered drivers a n
      → access_info_get i accesses ≡ ok b
      → Unregistered drivers i a storages accesses integrity_error

module _ {D : Type 0} (drivers : Drivers D) (i : ℕ) (a : AccessInfo) (ss : List Storage)
    (accesses : List AccessInfo) where
  pub check_storage_repetition-Unregistered :
      (d : D) (found : Option Found) (x : Exception)
      → uncached_driver drivers a ≡ ok d
      → drivers.get_storage d ≡ ok found
      → check_storage_repetition ss found ≡ err x
      → Unregistered drivers i a ss accesses x
  unfolding check_storage_repetition
  check_storage_repetition-Unregistered d none x made answered h =
      let same : storage_backend_not_found ≡ x = ground arith in
      subst (Unregistered drivers i a ss accesses) same (nothing_found made answered)
  check_storage_repetition-Unregistered d (some f) x made answered h =
      by_serial f.serial_number refl h
    where
      by_serial :
          (o : Option ℕ)
          → f.serial_number ≡ o
          → elim (elim o as (λ y. Result ℕ) [ none ↦ err invalid_results | some n ↦ ok n ])
              as (λ y. Result ℕ) [
                | err e ↦ err e
                | ok n ↦ if elem n (serials (live ss)) then err storage_already_exists else ok n
              ]
            ≡ err x
          → Unregistered drivers i a ss accesses x
      by_serial none s h =
          let same : invalid_results ≡ x = ground arith in
          subst (Unregistered drivers i a ss accesses) same (no_serial_number made answered s)
      by_serial (some n) s h = elim (Bool-cases (elem n (serials (live ss)))) [
        | inl y ↦
            let same : storage_already_exists ≡ x = ground arith in
            subst (Unregistered drivers i a ss accesses) same (
              known_serial_number
                (record { driver = d; found = f; made = made; answered = answered; serial = s }) y)
        | inr f ↦ absurd (ground arith)
      ]
