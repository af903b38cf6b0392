-- ===== src/Drivers/Api.antt =====
-- `discover_storage`, `update_access_info`, `remove_storage` and `get_storage` of delfin/drivers/
-- api.py, with delfin/drivers/helper.py.
use delfin.Prelude.{
  ℕ, suc, false, not, ◌&&◌, Option, none, some, List, [], ◌∷◌, ◌++◌, map, filter, elem, ◌==◌,
  if◌then◌else◌,
}
use delfin.Errors.{
  Result, ok, err, storage_not_found, integrity_error, storage_backend_not_found, invalid_results,
  storage_already_exists, serial_number_mismatch,
}
use delfin.Effect.{Effect, ◌>>=◌, ◌>>◌, lift, modify}
use delfin.Drivers.Manager.{
  Access, AccessInfo, Found, Storage, Drivers, World, is_of, access_info_get, uncached_driver,
  remove_driver, cached_driver,
}

abbrev encrypted : (ℕ → ℕ) → Option Access → Option Access
encrypted encode none = none
encrypted encode (some a) = some (record a { password = encode a.password })

unfoldable pub encrypt_password : (ℕ → ℕ) → AccessInfo → AccessInfo
encrypt_password encode a = record a {
  rest = encrypted encode a.rest;
  ssh = encrypted encode a.ssh;
  cli = encrypted encode a.cli;
  smis = encrypted encode a.smis;
}

-- The storages that are not deleted.
abbrev pub live : List Storage → List Storage
live = filter λ s. not s.deleted

abbrev pub serials : List Storage → List ℕ
serials = map λ s. s.serial_number

abbrev pub storage_ids : List Storage → List ℕ
storage_ids = map λ s. s.id

abbrev serial_of : Option ℕ → Result ℕ
serial_of none = err invalid_results
serial_of (some n) = ok n

-- The serial number of what the driver returned.
abbrev pub checked : Option Found → Result ℕ
checked none = err storage_backend_not_found
checked (some f) = serial_of f.serial_number

abbrev pub columns_of : Option Found → ℕ
columns_of none = 0
columns_of (some f) = f.columns

unfoldable pub check_storage_repetition : List Storage → Option Found → Result ℕ
check_storage_repetition ss found = elim (checked found) [
  | err e ↦ err e
  | ok n ↦ if elem n (serials (live ss)) then err storage_already_exists else ok n
]

unfoldable pub storage_get : ℕ → List Storage → Result Storage
storage_get i [] = err storage_not_found
storage_get i (s ∷ ss) = if s.id == i && not s.deleted then ok s else storage_get i ss

abbrev pub matching : Result Storage → ℕ → Result ℕ
matching (err e) n = err e
matching (ok present) n = if n == present.serial_number then ok n else err serial_number_mismatch

unfoldable pub check_storage_consistency : ℕ → List Storage → Option Found → Result ℕ
unfolding storage_get
check_storage_consistency i ss found = elim (checked found) [
  | err e ↦ err e
  | ok n ↦ matching (storage_get i ss) n
]

module _ {D : Type 0} where
  -- The new row has an id already; one that is in use breaks the primary key.
  unfoldable pub access_info_create : ℕ → AccessInfo → Effect (World D) (Unit {0})
  unfolding access_info_get
  access_info_create i a w = elim (access_info_get i w.accesses) [
    | ok _ ↦ (err integrity_error, w)
    | err _ ↦ (ok tt, record w { accesses = w.accesses ++ a ∷ [] })
  ]

  abbrev pub access_info_updated :
      ℕ → AccessInfo → World D → Result AccessInfo → Result (Unit {0}) × World D
  access_info_updated i a w (ok _) =
      (ok tt, record w { accesses = map (λ b. if is_of i b then a else b) w.accesses })
  access_info_updated i a w (err e) = (err e, w)

  -- The caller passes a value for each column, so the row is replaced.
  unfoldable pub access_info_update : ℕ → AccessInfo → Effect (World D) (Unit {0})
  unfolding access_info_get
  access_info_update i a w = access_info_updated i a w (access_info_get i w.accesses)

  -- An id that is in use breaks the primary key; otherwise the commit may still fail.
  unfoldable pub storage_create : (ℕ → Result (Unit {0})) → Storage → Effect (World D) Storage
  storage_create commit s w =
      if elem s.id (storage_ids w.storages) then (err integrity_error, w) else elim (commit s.id) [
        | err e ↦ (err e, w)
        | ok _ ↦ (ok s, record w { storages = w.storages ++ s ∷ [] })
      ]

  unfoldable pub storage_update : (ℕ → Result (Unit {0})) → ℕ → ℕ → ℕ → Effect (World D) (Unit {0})
  storage_update commit i n columns =
      lift (commit i)
      >> modify λ w. record w {
        storages =
            map
              (λ s.
                if s.id == i && not s.deleted
                then record s { serial_number = n; columns = columns }
                else s)
              w.storages;
      }

  -- A check that reads the storages.
  abbrev pub reading : {A : Type 0} → (List Storage → Result A) → Effect (World D) A
  reading f w = (f w.storages, w)

module _ {D : Type 0} (drivers : Drivers D) where
  -- The id in the access information, or a new one.
  abbrev pub given_id : AccessInfo → Effect (World D) ℕ
  given_id a w = elim a.storage_id [
    | some i ↦ (ok i, w)
    | none ↦ (ok (drivers.uuid w.issued), record w { issued = suc w.issued })
  ]

  -- From where the id is known; `a` has it and the encrypted passwords.
  unfoldable pub discover : ℕ → AccessInfo → Effect (World D) Storage
  unfolding uncached_driver check_storage_repetition access_info_create storage_create
  discover i a = do
    driver ← lift (uncached_driver drivers a)
    found ← lift (drivers.get_storage driver)
    n ← reading (λ ss. check_storage_repetition ss found)
    access_info_create i a
    storage_create drivers.commit_storage
        (record { id = i; serial_number = n; columns = columns_of found; deleted = false })

  unfoldable pub discover_storage : AccessInfo → Effect (World D) Storage
  unfolding encrypt_password discover
  discover_storage a = do
    i ← given_id a
    discover i (record (encrypt_password drivers.encode a) { storage_id = some i })

  -- `i` is the storage id of the access information.
  unfoldable pub update_access_info : ℕ → AccessInfo → Effect (World D) (Unit {0})
  unfolding encrypt_password uncached_driver check_storage_consistency access_info_update
      storage_update
  update_access_info i a = do
    driver ← lift (uncached_driver drivers (encrypt_password drivers.encode a))
    found ← lift (drivers.get_storage driver)
    n ← reading (λ ss. check_storage_consistency i ss found)
    access_info_update i (encrypt_password drivers.encode a)
    storage_update drivers.commit_storage i n (columns_of found)

  unfoldable pub remove_storage : ℕ → Effect (World D) (Unit {0})
  unfolding remove_driver
  remove_storage i = remove_driver drivers i

  unfoldable pub get_storage : ℕ → Effect (World D) (Option Found)
  unfolding cached_driver
  get_storage i = do driver ← cached_driver drivers i; lift (drivers.get_storage driver)
