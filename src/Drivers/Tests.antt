-- ===== src/Drivers/Tests.antt =====
-- The registration of a storage with delfin/drivers/api.py, for one class of drivers.
use delfin.Prelude.{
  ℕ, ◌+◌, ◌-◌, ◌≡◌, refl, true, false, Option, none, some, [], ◌∷◌, ◌==◌, if◌then◌else◌, arith,
}
use delfin.Errors.{ok, err, integrity_error, storage_already_exists, attribute_error}
use delfin.Drivers.Manager.{
  Access, AccessInfo, Drivers, World, find_driver, access_info_get, new_driver,
}
use delfin.Drivers.Api.{
  discover_storage, update_access_info, remove_storage, get_storage, encrypt_password,
}
use delfin.Drivers.Registered.{Discovered, discover_storage-Discovered}
use delfin.Drivers.Access.{Body, Changed, update, change_access_info, update-Changed}
use delfin.Drivers.Cached.{Updated, update_access_info-Updated, get_storage-after_change}

-- A driver is the password that it was made with; the storage is always the one with the number 77.
abbrev password_of : Option Access → ℕ
password_of none = 0
password_of (some a) = a.password

abbrev drivers : Drivers ℕ
drivers = record {
  registered = λ name. true;
  construct = λ a verify. ok (password_of a.rest);
  get_storage = λ d. ok (some (record { serial_number = some 77; columns = d }));
  ca_path = none;
  verify_ca_path = λ path. ok tt;
  reload_certificate = λ path. ok tt;
  encode = λ n. n + 1000;
  uuid = λ n. 100 + n;
  commit_storage = λ i. ok tt;
}

abbrev access_info : AccessInfo
access_info = record {
  storage_id = none;
  name = 5;
  rest = some (record { host = 1; password = 2; others = λ k. none });
  ssh = none;
  cli = none;
  smis = none;
}

abbrev empty : World ℕ
empty = record { accesses = []; storages = []; driver_factory = []; issued = 0 }

-- The storage's row is not saved: its access information is left behind.
abbrev unsaving : Drivers ℕ
unsaving = record drivers { commit_storage = λ i. err integrity_error }

unsaved-run :
    (discover_storage unsaving access_info empty).1.accesses
    ≡ (record (encrypt_password drivers.encode access_info) { storage_id = some 100 } ∷ [])
unfolding discover_storage
unsaved-run = refl

-- The storage is registered once.
abbrev registered_once : World ℕ
registered_once = (discover_storage drivers access_info empty).1

second-run : (discover_storage drivers access_info registered_once).0 ≡ err storage_already_exists
unfolding discover_storage
second-run = refl

discover_storage_example :
    Discovered drivers 100
      (record (encrypt_password drivers.encode access_info) { storage_id = some 100 })
      empty
      (discover_storage drivers access_info empty)
discover_storage_example = discover_storage-Discovered drivers access_info empty refl

-- A storage whose driver is cached.
abbrev stored_info : AccessInfo
stored_info = record access_info { storage_id = some 100 }

abbrev world : World ℕ
world = record {
  accesses = stored_info ∷ [];
  storages = (record { id = 100; serial_number = 77; columns = 0; deleted = false }) ∷ [];
  driver_factory = (100, 1002) ∷ [];
  issued = 1;
}

abbrev new_info : AccessInfo
new_info = record stored_info {
  rest = some (record { host = 1; password = 3; others = λ k. none });
}

update_access_info_example :
    Updated drivers 100
      (encrypt_password drivers.encode new_info)
      world
      (update_access_info drivers 100 new_info world)
update_access_info_example = update_access_info-Updated drivers 100 new_info world refl

-- The old password is used until the storage is removed from the cache.
get_storage-after_change_example :
    let after = (update_access_info drivers 100 new_info world).1 in
    let cleared = (remove_storage drivers 100 after).1 in
    ((get_storage drivers 100 after).0
      ≡ ok (some (record { serial_number = some 77; columns = 1002 })))
    × ((get_storage drivers 100 cleared).0
        ≡ ok (some (record { serial_number = some 77; columns = 1003 })))
    × (find_driver 100 (get_storage drivers 100 cleared).1.driver_factory ≡ some 1003)
unfolding update_access_info access_info_get new_driver
get_storage-after_change_example =
    get_storage-after_change drivers 100 new_info (encrypt_password drivers.encode new_info) world
      1002 1003 none refl refl refl refl refl refl

-- What is stored is encrypted.
abbrev stored_world : World ℕ
stored_world = record world { accesses = encrypt_password drivers.encode stored_info ∷ [] }

abbrev new_password : Body
new_password = record {
  rest =
      some
        (record { host = none; password = some 3; others = λ k. if k == 4 then some 8 else none });
  ssh = none;
  cli = none;
  smis = none;
}

-- A way of access that is not stored can not be added.
abbrev new_access : Body
new_access = record {
  rest = none;
  ssh = some (record { host = some 1; password = some 3; others = λ k. none });
  cli = none;
  smis = none;
}

new_access-run :
    (update drivers (λ n. n - 1000) 100 new_access stored_world).0 ≡ err attribute_error
unfolding update encrypt_password access_info_get change_access_info
new_access-run = refl

update-Changed_example :
    Changed drivers 100 stored_world new_password stored_info
      (update drivers (λ n. n - 1000) 100 new_password stored_world)
unfolding access_info_get encrypt_password
update-Changed_example =
    update-Changed drivers 100 new_password stored_info stored_world (λ n. n - 1000)
      (λ n. omega arith) refl refl refl
