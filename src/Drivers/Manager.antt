-- ===== src/Drivers/Manager.antt =====
-- delfin/drivers/manager.py with the tables `access_info` and `storages` of delfin/db/sqlalchemy/
-- api.py. The drivers and what reads certificate files are parameters.
use delfin.Prelude.{ℕ, Bool, false, Option, none, some, List, [], ◌∷◌, ◌==◌, if◌then◌else◌}
use delfin.Errors.{Result, ok, err, access_info_not_found, storage_driver_not_found}
use delfin.Effect.{Effect, ◌>>=◌, ◌>>◌, pure, lift, modify}

-- What is kept for one of the ways to access a storage: the host, the password and the other keys of
-- the dict (the port, the username and so on).
pub record Access : Type 0 where
  pub host : ℕ
  pub password : ℕ
  pub others : ℕ → Option ℕ

-- The dict of access information, with an entry for each of `ACCESS_TYPE`; `name` is the vendor with
-- the model. A key that is absent is `none`.
pub record AccessInfo : Type 0 where
  pub storage_id : Option ℕ
  pub name : ℕ
  pub rest : Option Access
  pub ssh : Option Access
  pub cli : Option Access
  pub smis : Option Access

-- A storage as a driver returns it; an absent or empty serial number is `none`.
pub record Found : Type 0 where
  pub serial_number : Option ℕ
  pub columns : ℕ

pub record Storage : Type 0 where
  pub id : ℕ
  pub serial_number : ℕ
  pub columns : ℕ
  pub deleted : Bool

-- The classes that stevedore finds, their constructor and `get_storage`, the configured CA path,
-- `verify_ca_path` and `reload_certificate`, the cryptor, the uuids, and what the database answers to
-- the commit of the row of a storage.
pub record Drivers (D : Type 0) : Type 0 where
  pub registered : ℕ → Bool
  pub construct : AccessInfo → Option ℕ → Result D
  pub get_storage : D → Result (Option Found)
  pub ca_path : Option ℕ
  pub verify_ca_path : ℕ → Result (Unit {0})
  pub reload_certificate : ℕ → Result (Unit {0})
  pub encode : ℕ → ℕ
  pub uuid : ℕ → ℕ
  pub commit_storage : ℕ → Result (Unit {0})

-- The tables, the attribute `driver_factory` and how many uuids were generated.
pub record World (D : Type 0) : Type 0 where
  pub accesses : List AccessInfo
  pub storages : List Storage
  pub driver_factory : List (ℕ × D)
  pub issued : ℕ

-- A key of a dict, and the dict with a key set and with a key removed.
abbrev pub find_driver : {D : Type 0} → ℕ → List (ℕ × D) → Option D
find_driver i [] = none
find_driver i ((j, d) ∷ ds) = if i == j then some d else find_driver i ds

abbrev pub without_driver : {D : Type 0} → ℕ → List (ℕ × D) → List (ℕ × D)
without_driver i [] = []
without_driver i ((j, d) ∷ ds) =
    if i == j then without_driver i ds else (j, d) ∷ without_driver i ds

-- `storage_id == i`
abbrev pub is_of : ℕ → AccessInfo → Bool
is_of i a = elim a.storage_id [ none ↦ false | some j ↦ i == j ]

unfoldable pub access_info_get : ℕ → List AccessInfo → Result AccessInfo
access_info_get i [] = err access_info_not_found
access_info_get i (a ∷ as') = if is_of i a then ok a else access_info_get i as'

module _ {D : Type 0} (drivers : Drivers D) where
  -- `verify`, or what `verify_ca_path` raises.
  abbrev pub certificate : Result (Option ℕ)
  certificate = elim drivers.ca_path [
    | none ↦ ok none
    | some path ↦ elim (drivers.verify_ca_path path) [ ok _ ↦ ok (some path) | err e ↦ err e ]
  ]

  abbrev pub reloaded : Option ℕ → Result (Unit {0})
  reloaded none = ok tt
  reloaded (some path) = drivers.reload_certificate path

  -- `_get_driver_cls` and the call of the class.
  unfoldable pub new_driver : AccessInfo → Option ℕ → Result D
  new_driver a verify =
      if drivers.registered a.name then drivers.construct a verify else err storage_driver_not_found

  -- `_get_driver_obj` without the cache.
  unfoldable pub uncached_driver : AccessInfo → Result D
  unfolding new_driver
  uncached_driver a = elim certificate [
    | err e ↦ err e
    | ok verify ↦ elim (reloaded verify) [ err e ↦ err e | ok _ ↦ new_driver a verify ]
  ]

  unfoldable pub update_driver : ℕ → D → Effect (World D) (Unit {0})
  update_driver i d =
      modify λ w. record w { driver_factory = (i, d) ∷ without_driver i w.driver_factory }

  unfoldable pub remove_driver : ℕ → Effect (World D) (Unit {0})
  remove_driver i = modify λ w. record w { driver_factory = without_driver i w.driver_factory }

  abbrev pub load_driver : ℕ → Option ℕ → Effect (World D) D
  load_driver i verify w =
      (do
        lift (reloaded verify)
        a ← lift (access_info_get i w.accesses)
        d ← lift (new_driver a verify)
        modify (λ w. record w { driver_factory = (i, d) ∷ w.driver_factory })
        pure d)
        w

  abbrev pub cached_or_load : ℕ → Option ℕ → Option D → Effect (World D) D
  cached_or_load i verify (some d) = pure d
  cached_or_load i verify none = load_driver i verify

  -- `get_driver` with nothing but a storage id: the cached driver, or one that is made from the
  -- stored access information and cached.
  unfoldable pub cached_driver : ℕ → Effect (World D) D
  unfolding new_driver access_info_get
  cached_driver i = do
    verify ← lift certificate
    (λ w. cached_or_load i verify (find_driver i w.driver_factory) w)
