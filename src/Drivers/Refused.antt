-- ===== src/Drivers/Refused.antt =====
-- Why `update_access_info` of delfin/drivers/api.py refuses access information, with the check of
-- delfin/drivers/helper.py.
use delfin.Prelude.{
  ℕ, ◌≡◌, refl, subst, ◌∙◌, false, Option, none, some, List, ◌==◌, arith, Bool-cases, inl, inr,
  ==→eq,
}
use delfin.Errors.{
  Result, ok, err, Exception, invalid_results, storage_backend_not_found, serial_number_mismatch,
}
use delfin.Drivers.Manager.{
  AccessInfo, Found, Storage, Drivers, World, access_info_get, uncached_driver,
}
use delfin.Drivers.Api.{checked, check_storage_consistency, storage_get, matching}

-- The driver that is made from the access information answers with the serial number of the live
-- storage.
pub record SameStorage {D : Type 0} (drivers : Drivers D) (i : ℕ) (a : AccessInfo) (w : World D)
    : Type 0 where
  pub driver : D
  pub found : Found
  pub present : Storage
  pub made : uncached_driver drivers a ≡ ok driver
  pub answered : drivers.get_storage driver ≡ ok (some found)
  pub stored : storage_get i w.storages ≡ ok present
  pub same_serial : found.serial_number ≡ some present.serial_number

-- Why `update_access_info` changes nothing, with the exception that it raises: the driver can not be
-- made or does not answer, it answers with no storage or no serial number, the storage is not there or
-- has another serial number, or it has no access information.
pub data Refused {D : Type 0} (drivers : Drivers D) (i : ℕ) (a : AccessInfo) (w : World D)
    : Exception → Type 0 where
  no_driver : {e : Exception} → uncached_driver drivers a ≡ err e → Refused drivers i a w e
  no_answer :
      {e : Exception} {d : D}
      → uncached_driver drivers a ≡ ok d
      → drivers.get_storage d ≡ err e
      → Refused drivers i a w e
  nothing_found :
      {d : D}
      → uncached_driver drivers a ≡ ok d
      → drivers.get_storage d ≡ ok none
      → Refused drivers i a w storage_backend_not_found
  no_serial_number :
      {d : D} {f : Found}
      → uncached_driver drivers a ≡ ok d
      → drivers.get_storage d ≡ ok (some f)
      → f.serial_number ≡ none
      → Refused drivers i a w invalid_results
  no_storage :
      {d : D} {f : Found} {n : ℕ} {e : Exception}
      → uncached_driver drivers a ≡ ok d
      → drivers.get_storage d ≡ ok (some f)
      → f.serial_number ≡ some n
      → storage_get i w.storages ≡ err e
      → Refused drivers i a w e
  other_serial_number :
      {d : D} {f : Found} {n : ℕ} {present : Storage}
      → uncached_driver drivers a ≡ ok d
      → drivers.get_storage d ≡ ok (some f)
      → f.serial_number ≡ some n
      → storage_get i w.storages ≡ ok present
      → (n == present.serial_number) ≡ false
      → Refused drivers i a w serial_number_mismatch
  no_access_info :
      {e : Exception}
      → SameStorage drivers i a w
      → access_info_get i w.accesses ≡ err e
      → Refused drivers i a w e

pub checked-found :
    (f : Option Found) (n : ℕ)
    → checked f ≡ ok n
    → (found : Found) × (f ≡ some found) × (found.serial_number ≡ some n)
checked-found none n h = absurd (ground arith)
checked-found (some f) n h = by_serial f.serial_number refl h
  where
    by_serial :
        (o : Option ℕ)
        → f.serial_number ≡ o
        → elim o as (λ x. Result ℕ) [ none ↦ err invalid_results | some m ↦ ok m ] ≡ ok n
        → (found : Found) × (some f ≡ some found) × (found.serial_number ≡ some n)
    by_serial none e h = absurd (ground arith)
    by_serial (some m) e h = (f, refl, e ∙ ground arith)

pub check_storage_consistency-same :
    (i : ℕ) (ss : List Storage) (f : Option Found) (n : ℕ)
    → check_storage_consistency i ss f ≡ ok n
    → (present : Storage) × (storage_get i ss ≡ ok present)
      × (n ≡ present.serial_number)
      × (checked f ≡ ok n)
unfolding check_storage_consistency
check_storage_consistency-same i ss f n = by_serial (checked f) (storage_get i ss) refl
  where
    by_serial :
        (r : Result ℕ) (g : Result Storage)
        → storage_get i ss ≡ g
        → elim r as (λ x. Result ℕ) [ err e ↦ err e | ok n ↦ matching g n ] ≡ ok n
        → (present : Storage) × (storage_get i ss ≡ ok present)
          × (n ≡ present.serial_number)
          × (r ≡ ok n)
    by_serial (err x) g e h = absurd (ground arith)
    by_serial (ok m) (err x) e h = absurd (ground arith)
    by_serial (ok m) (ok p) e h = elim (Bool-cases (m == p.serial_number)) [
      | inl y ↦ let same = ==→eq m p.serial_number y in (p, e, ground arith, ground arith)
      | inr f ↦ absurd (ground arith)
    ]

module _ {D : Type 0} (drivers : Drivers D) (i : ℕ) (a : AccessInfo) (w : World D) where
  pub check_storage_consistency-Refused :
      (d : D) (found : Option Found) (x : Exception)
      → uncached_driver drivers a ≡ ok d
      → drivers.get_storage d ≡ ok found
      → check_storage_consistency i w.storages found ≡ err x
      → Refused drivers i a w x
  unfolding check_storage_consistency
  check_storage_consistency-Refused d none x made answered h =
      let same : storage_backend_not_found ≡ x = ground arith in
      subst (Refused drivers i a w) same (nothing_found made answered)
  check_storage_consistency-Refused d (some f) x made answered h =
      by_serial f.serial_number (storage_get i w.storages) refl refl h
    where
      by_serial :
          (o : Option ℕ) (g : Result Storage)
          → f.serial_number ≡ o
          → storage_get i w.storages ≡ g
          → elim (elim o as (λ y. Result ℕ) [ none ↦ err invalid_results | some n ↦ ok n ])
              as (λ y. Result ℕ) [ err e ↦ err e | ok n ↦ matching g n ]
            ≡ err x
          → Refused drivers i a w x
      by_serial none g s e h =
          let same : invalid_results ≡ x = ground arith in
          subst (Refused drivers i a w) same (no_serial_number made answered s)
      by_serial (some n) (err y) s e h =
          let same : y ≡ x = ground arith in
          subst (Refused drivers i a w) same (no_storage made answered s e)
      by_serial (some n) (ok p) s e h = elim (Bool-cases (n == p.serial_number)) [
        | inl y ↦ absurd (ground arith)
        | inr f ↦
            let same : serial_number_mismatch ≡ x = ground arith in
            subst (Refused drivers i a w) same (other_serial_number made answered s e f)
      ]
