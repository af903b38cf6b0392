-- ===== src/Drivers/Cached.antt =====
-- How long a driver with old access information is used: the cache of delfin/drivers/manager.py
-- under `update_access_info` and `remove_storage` of delfin/drivers/api.py.
use delfin.Prelude.{
  ℕ, ◌≡◌, refl, ap, ◌∙◌, true, not, ◌&&◌, Option, none, some, List, [], ◌∷◌, map, ◌==◌,
  if◌then◌else◌, distinct, arith, ==_refl,
}
use delfin.Errors.{Result, ok, err, Exception}
use delfin.Effect.{Effect, ◌>>=◌, ◌>>◌, pure, lift, modify, >>=-step}
use delfin.Drivers.Manager.{
  AccessInfo, Found, Storage, Drivers, World, is_of, access_info_get, certificate, reloaded,
  new_driver, uncached_driver, remove_driver, cached_driver, find_driver, without_driver,
  cached_or_load,
}
use delfin.Drivers.Api.{
  live, serials, storage_ids, columns_of, check_storage_consistency, access_info_update,
  access_info_updated, reading, storage_update, encrypt_password, update_access_info,
  remove_storage, get_storage,
}
use delfin.Drivers.Refused.{
  SameStorage, Refused, no_driver, no_answer, no_access_info, checked-found,
  check_storage_consistency-same, check_storage_consistency-Refused,
}
use delfin.Drivers.Registered.{serials-renewed, renewed}

-- How `update_access_info` ends in a world: the access information is replaced, each storage keeps its
-- id and its serial number, and no driver leaves the cache; or it raises since the row of the storage
-- is not saved, and only the access information is replaced; or it raises and nothing has changed.
-- The first two need the same serial number, the last one of the reasons.
pub data Updated {D : Type 0} (drivers : Drivers D) (i : ℕ) (a : AccessInfo) (w : World D)
    : Result (Unit {0}) × World D → Type 0 where
  updated :
      {w' : World D}
      → SameStorage drivers i a w
      → w'.accesses ≡ map (λ b. if is_of i b then a else b) w.accesses
      → storage_ids w'.storages ≡ storage_ids w.storages
      → serials (live w'.storages) ≡ serials (live w.storages)
      → w'.driver_factory ≡ w.driver_factory
      → Updated drivers i a w (ok tt, w')
  unsaved :
      {e : Exception} {w' : World D}
      → SameStorage drivers i a w
      → drivers.commit_storage i ≡ err e
      → w'.accesses ≡ map (λ b. if is_of i b then a else b) w.accesses
      → w'.storages ≡ w.storages
      → w'.driver_factory ≡ w.driver_factory
      → Updated drivers i a w (err e, w')
  refused : {e : Exception} → Refused drivers i a w e → Updated drivers i a w (err e, w)

storage_ids-update :
    (i n columns : ℕ) (ss : List Storage)
    → storage_ids (
        map
          (λ s.
            if s.id == i && not s.deleted
            then record s { serial_number = n; columns = columns }
            else s)
          ss)
      ≡ storage_ids ss
storage_ids-update i n columns [] = refl
storage_ids-update i n columns (s ∷ ss) = ground (arith, storage_ids-update i n columns ss)

module _ {D : Type 0} (drivers : Drivers D) (i : ℕ) (a : AccessInfo) (w : World D)
    (apart : distinct (storage_ids w.storages) ≡ true) where
  change :
      (n columns : ℕ) (r : Result AccessInfo) (is : SameStorage drivers i a w)
      → access_info_get i w.accesses ≡ r
      → n ≡ is.present.serial_number
      → Updated drivers i a w (
          ((λ w. access_info_updated i a w r) >> storage_update drivers.commit_storage i n columns)
            w)
  unfolding storage_update
  change n columns (err x) is e same = refused (no_access_info is e)
  change n columns (ok b) is e same = by_commit (drivers.commit_storage i) refl
    where
      w' : World D
      w' = record w { accesses = map (λ b. if is_of i b then a else b) w.accesses }

      by_commit :
          (c : Result (Unit {0}))
          → drivers.commit_storage i ≡ c
          → Updated drivers i a w (
              (lift c >> modify (λ w. record w { storages = map (renewed i n columns) w.storages }))
                w')
      by_commit (err e) h = unsaved is h refl refl refl
      by_commit (ok _) h =
          updated is refl (storage_ids-update i n columns w.storages)
            (ap (λ n. serials (live (map (renewed i n columns) w.storages))) same
              ∙ serials-renewed i columns w.storages is.present apart is.stored)
            refl

module _ {D : Type 0} (drivers : Drivers D) (i : ℕ) (a : AccessInfo) (w : World D)
    (apart : distinct (storage_ids w.storages) ≡ true) where
  -- If the driver that `update_access_info` makes from the new access information answers with the
  -- serial number that is stored, and the storage has access information, then this is replaced and
  -- each storage keeps its id and its serial number; only the commit of the storage's row may still
  -- raise, and then just the access information is replaced. In any other case it raises the exception
  -- of what failed first, which for another serial number is SerialNumberMismatch, and nothing has
  -- changed. In all cases the cached drivers are the same.
  pub update_access_info-Updated :
      Updated drivers i (encrypt_password drivers.encode a) w (update_access_info drivers i a w)
  unfolding update_access_info access_info_update
  update_access_info-Updated = by_driver (uncached_driver drivers a') refl
    where
      a' : AccessInfo
      a' = encrypt_password drivers.encode a

      rest : Option Found → Effect (World D) (Unit {0})
      rest found = reading (λ ss. check_storage_consistency i ss found) >>= λ n.
          access_info_update i a' >> storage_update drivers.commit_storage i n (columns_of found)

      by_check :
          (d : D) (found : Option Found) (r : Result ℕ)
          → uncached_driver drivers a' ≡ ok d
          → drivers.get_storage d ≡ ok found
          → check_storage_consistency i w.storages found ≡ r
          → Updated drivers i a' w (
              (lift r >>= λ n.
              access_info_update i a'
              >> storage_update drivers.commit_storage i n (columns_of found))
                w)
      by_check d found (err x) made answered e =
          refused (check_storage_consistency-Refused drivers i a' w d found x made answered e)
      by_check d found (ok n) made answered e =
          let (present, at, same, number) = check_storage_consistency-same i w.storages found n e in
          let (f, is_some, serial) = checked-found found n number in
          change drivers i a' w apart n (columns_of found) (access_info_get i w.accesses)
            (record {
              driver = d;
              found = f;
              present = present;
              made = made;
              answered = answered ∙ ap ok is_some;
              stored = at;
              same_serial = serial ∙ ap some same;
            })
            refl same

      by_found :
          (d : D) (r : Result (Option Found))
          → uncached_driver drivers a' ≡ ok d
          → drivers.get_storage d ≡ r
          → Updated drivers i a' w ((lift r >>= rest) w)
      by_found d (err x) made answered = refused (no_answer made answered)
      by_found d (ok found) made answered =
          by_check d found (check_storage_consistency i w.storages found) made answered refl

      by_driver :
          (r : Result D)
          → uncached_driver drivers a' ≡ r
          → Updated drivers i a' w ((lift r >>= λ d. lift (drivers.get_storage d) >>= rest) w)
      by_driver (err x) made = refused (no_driver made)
      by_driver (ok d) made = by_found d (drivers.get_storage d) made refl

Updated-driver_factory :
    {D : Type 0} (drivers : Drivers D) (i : ℕ) (a : AccessInfo) (w : World D)
    (r : Result (Unit {0}) × World D)
    → Updated drivers i a w r
    → r.1.driver_factory ≡ w.driver_factory
Updated-driver_factory drivers i a w _ (updated _ _ _ _ e) = e
Updated-driver_factory drivers i a w _ (unsaved _ _ _ _ e) = e
Updated-driver_factory drivers i a w _ (refused _) = refl

module _ {D : Type 0} (drivers : Drivers D) where
  cached_driver-run :
      (i : ℕ) (w : World D) (v : Option ℕ)
      → certificate drivers ≡ ok v
      → cached_driver drivers i w ≡ cached_or_load drivers i v (find_driver i w.driver_factory) w
  unfolding cached_driver
  cached_driver-run i w v c =
      >>=-step (lift (certificate drivers))
        (λ v w. cached_or_load drivers i v (find_driver i w.driver_factory) w) w w v
        (ap (λ r. (r, w)) c)

  get_storage-cached :
      (i : ℕ) (w : World D) (d : D) (v : Option ℕ)
      → certificate drivers ≡ ok v
      → find_driver i w.driver_factory ≡ some d
      → get_storage drivers i w ≡ (drivers.get_storage d, w)
  unfolding get_storage
  get_storage-cached i w d v c e =
      >>=-step (cached_driver drivers i) (λ d. lift (drivers.get_storage d)) w w d
        (cached_driver-run i w v c ∙ ap (λ o. cached_or_load drivers i v o w) e)

  find_driver-without : (i : ℕ) (ds : List (ℕ × D)) → find_driver i (without_driver i ds) ≡ none
  find_driver-without i [] = refl
  find_driver-without i ((j, d) ∷ ds) = let rest = find_driver-without i ds in ground arith

  cached_driver-loaded :
      (i : ℕ) (w : World D) (a : AccessInfo) (d : D) (v : Option ℕ)
      → certificate drivers ≡ ok v
      → reloaded drivers v ≡ ok tt
      → find_driver i w.driver_factory ≡ none
      → access_info_get i w.accesses ≡ ok a
      → new_driver drivers a v ≡ ok d
      → cached_driver drivers i w ≡ (ok d, record w { driver_factory = (i, d) ∷ w.driver_factory })
  cached_driver-loaded i w a d v c r e g n =
      cached_driver-run i w v c
      ∙ ap (λ o. cached_or_load drivers i v o w) e
      ∙ >>=-step (lift (reloaded drivers v))
          (λ _. lift (access_info_get i w.accesses) >>= λ a. lift (new_driver drivers a v) >>= keep)
          w w tt (ap (λ r. (r, w)) r)
      ∙ >>=-step (lift (access_info_get i w.accesses)) (λ a. lift (new_driver drivers a v) >>= keep)
          w w a (ap (λ r. (r, w)) g)
      ∙ >>=-step (lift (new_driver drivers a v)) keep w w d (ap (λ r. (r, w)) n)
    where
      keep : D → Effect (World D) D
      keep d = modify (λ w. record w { driver_factory = (i, d) ∷ w.driver_factory }) >> pure d

  -- While a driver of the storage is cached, a change of the access information, whether it succeeds
  -- or not, does not reach it: the next call asks the same driver. After the storage is removed from
  -- the cache, the next call makes the driver from the stored access information, and caches it.
  pub get_storage-after_change :
      (i : ℕ) (a b : AccessInfo) (w : World D) (d new : D) (v : Option ℕ)
      → certificate drivers ≡ ok v
      → reloaded drivers v ≡ ok tt
      → find_driver i w.driver_factory ≡ some d
      → access_info_get i (update_access_info drivers i a w).1.accesses ≡ ok b
      → new_driver drivers b v ≡ ok new
      → distinct (storage_ids w.storages) ≡ true
      → let after = (update_access_info drivers i a w).1 in
        let cleared = (remove_storage drivers i after).1 in
        ((get_storage drivers i after).0 ≡ drivers.get_storage d)
        × ((get_storage drivers i cleared).0 ≡ drivers.get_storage new)
        × (find_driver i (get_storage drivers i cleared).1.driver_factory ≡ some new)
  unfolding get_storage remove_storage remove_driver
  get_storage-after_change i a b w d new v c r e g n apart =
      let after = (update_access_info drivers i a w).1 in
      let cleared = (remove_storage drivers i after).1 in
      let same =
        Updated-driver_factory drivers i _ w _ (update_access_info-Updated drivers i a w apart) in
      let loaded =
        >>=-step (cached_driver drivers i) (λ d. lift (drivers.get_storage d)) cleared _ new
          (cached_driver-loaded i cleared b new v c r (find_driver-without i after.driver_factory) g
            n) in
      (
        ap (λ x. x.0) (get_storage-cached i after d v c (ap (find_driver i) same ∙ e)),
        ap (λ x. x.0) loaded,
        ap (λ x. find_driver i x.1.driver_factory) loaded
            ∙ ap (λ b. if b then some new else find_driver i cleared.driver_factory) (==_refl i),
      )
