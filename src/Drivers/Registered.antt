-- ===== src/Drivers/Registered.antt =====
-- What the registration of a storage and the change of its access information do to the tables:
-- `discover_storage` and `update_access_info` of delfin/drivers/api.py.
use delfin.Prelude.{
  ℕ, suc, ◌≡◌, refl, sym, ap, ◌∙◌, true, false, not, ◌&&◌, Option, none, some, List, [], ◌∷◌, ◌++◌,
  map, elem, ◌==◌, if◌then◌else◌, distinct, arith, Bool-cases, inl, inr, ==→eq, ==_refl,
}
use delfin.Errors.{Result, ok, err, Exception, integrity_error, storage_already_exists}
use delfin.Effect.{Effect, ◌>>=◌, ◌>>◌, lift}
use delfin.Drivers.Manager.{
  AccessInfo, Found, Storage, Drivers, World, access_info_get, uncached_driver,
}
use delfin.Drivers.Refused.{checked-found}
use delfin.Drivers.Unregistered.{
  Answered, Unregistered, no_driver, no_answer, known_access_info,
  check_storage_repetition-Unregistered,
}
use delfin.Drivers.Api.{
  live, serials, storage_ids, checked, columns_of, check_storage_repetition, storage_get,
  access_info_create, reading, storage_create, encrypt_password, discover, discover_storage,
}

-- How `discover_storage` ends in a world: the storage is a new row, with a serial number that no other
-- live storage has but the driver answers with, and its access information is stored; or it raises, for
-- one of the reasons, and the tables are as they were; or it raises since the row of the storage is not saved, and only the access information is
-- stored. No driver is cached.
pub data Discovered {D : Type 0} (drivers : Drivers D) (i : ℕ) (a : AccessInfo) (w : World D)
    : Result Storage × World D → Type 0 where
  registered :
      {s : Storage} {w' : World D}
      → Answered drivers a s.serial_number
      → s.id ≡ i
      → elem s.serial_number (serials (live w.storages)) ≡ false
      → s.deleted ≡ false
      → w'.storages ≡ w.storages ++ s ∷ []
      → w'.accesses ≡ w.accesses ++ a ∷ []
      → w'.driver_factory ≡ w.driver_factory
      → Discovered drivers i a w (ok s, w')
  refused :
      {e : Exception} {w' : World D}
      → Unregistered drivers i a w.storages w.accesses e
      → w'.storages ≡ w.storages
      → w'.accesses ≡ w.accesses
      → w'.driver_factory ≡ w.driver_factory
      → Discovered drivers i a w (err e, w')
  unsaved :
      {e : Exception} {w' : World D}
      → drivers.commit_storage i ≡ err e
      → w'.storages ≡ w.storages
      → w'.accesses ≡ w.accesses ++ a ∷ []
      → w'.driver_factory ≡ w.driver_factory
      → Discovered drivers i a w (err e, w')

check_storage_repetition-new :
    (ss : List Storage) (f : Option Found) (n : ℕ)
    → check_storage_repetition ss f ≡ ok n
    → (elem n (serials (live ss)) ≡ false) × (checked f ≡ ok n)
unfolding check_storage_repetition
check_storage_repetition-new ss f n h = by_serial (checked f) h
  where
    by_serial :
        (r : Result ℕ)
        → elim r as (λ x. Result ℕ) [
          | err e ↦ err e
          | ok n ↦ if elem n (serials (live ss)) then err storage_already_exists else ok n
        ]
          ≡ ok n
        → (elem n (serials (live ss)) ≡ false) × (r ≡ ok n)
    by_serial (err e) h = absurd (ground arith)
    by_serial (ok m) h = elim (Bool-cases (elem m (serials (live ss)))) [
      | inl y ↦ absurd (ground arith)
      | inr f ↦
          let same : m ≡ n = ground arith in
          (ap (λ k. elem k (serials (live ss))) (sym same) ∙ f, ap ok same)
    ]

module _ {D : Type 0} (drivers : Drivers D) (i : ℕ) (a : AccessInfo) (w : World D)
    (fresh : elem i (storage_ids w.storages) ≡ false) where
  -- The steps of `discover` from the last to the first.
  create :
      (n columns : ℕ)
      → Answered drivers a n
      → elem n (serials (live w.storages)) ≡ false
      → Discovered drivers i a w (
          (access_info_create i a
              >> storage_create drivers.commit_storage
                  (record { id = i; serial_number = n; columns = columns; deleted = false }))
            w)
  unfolding access_info_create storage_create
  create n columns is new = by_access (access_info_get i w.accesses) refl
    where
      row : Storage
      row = record { id = i; serial_number = n; columns = columns; deleted = false }

      w' : World D
      w' = record w { accesses = w.accesses ++ a ∷ [] }

      created : Result AccessInfo → Result (Unit {0}) × World D
      created r = elim r [ ok _ ↦ (err integrity_error, w) | err _ ↦ (ok tt, w') ]

      by_commit :
          (c : Result (Unit {0}))
          → drivers.commit_storage i ≡ c
          → Discovered drivers i a w (elim c [
            | err e ↦ (err e, w')
            | ok _ ↦ (ok row, record w' { storages = w.storages ++ row ∷ [] })
          ])
      by_commit (err e) h = unsaved h refl refl refl
      by_commit (ok _) h = registered is refl new refl refl refl refl

      by_access :
          (r : Result AccessInfo)
          → access_info_get i w.accesses ≡ r
          → Discovered drivers i a w
              (((λ _. created r) >> storage_create drivers.commit_storage row) w)
      by_access (ok b) e = refused (known_access_info is e) refl refl refl
      by_access (err x) e = rw fresh (by_commit (drivers.commit_storage i) refl)

  check :
      (d : D) (found : Option Found) (r : Result ℕ)
      → uncached_driver drivers a ≡ ok d
      → drivers.get_storage d ≡ ok found
      → check_storage_repetition w.storages found ≡ r
      → Discovered drivers i a w (
          (lift r >>= λ n.
          access_info_create i a
          >> storage_create drivers.commit_storage
              (record { id = i; serial_number = n; columns = columns_of found; deleted = false }))
            w)
  check d found (err x) made answered e =
      refused
        (check_storage_repetition-Unregistered drivers i a w.storages w.accesses d found x made
          answered e)
        refl refl refl
  check d found (ok n) made answered e =
      let (new, number) = check_storage_repetition-new w.storages found n e in
      let (f, is_some, serial) = checked-found found n number in
      create n (columns_of found)
        (record {
          driver = d;
          found = f;
          made = made;
          answered = answered ∙ ap ok is_some;
          serial = serial;
        })
        new

  discover-Discovered : Discovered drivers i a w (discover drivers i a w)
  unfolding discover
  discover-Discovered = by_driver (uncached_driver drivers a) refl
    where
      rest : Option Found → Effect (World D) Storage
      rest found = reading (λ ss. check_storage_repetition ss found) >>= λ n.
          access_info_create i a
          >> storage_create drivers.commit_storage
              (record { id = i; serial_number = n; columns = columns_of found; deleted = false })

      by_found :
          (d : D) (r : Result (Option Found))
          → uncached_driver drivers a ≡ ok d
          → drivers.get_storage d ≡ r
          → Discovered drivers i a w ((lift r >>= rest) w)
      by_found d (err x) made answered = refused (no_answer made answered) refl refl refl
      by_found d (ok found) made answered =
          check d found (check_storage_repetition w.storages found) made answered refl

      by_driver :
          (r : Result D)
          → uncached_driver drivers a ≡ r
          → Discovered drivers i a w ((lift r >>= λ d. lift (drivers.get_storage d) >>= rest) w)
      by_driver (err x) made = refused (no_driver made) refl refl refl
      by_driver (ok d) made = by_found d (drivers.get_storage d) made refl

  no_issue :
      (n : ℕ) (r : Result Storage × World D)
      → Discovered drivers i a (record w { issued = n }) r
      → Discovered drivers i a w r
  no_issue n _ (registered k p q r s t u) = registered k p q r s t u
  no_issue n _ (refused k s t u) = refused k s t u
  no_issue n _ (unsaved c s t u) = unsaved c s t u

module _ {D : Type 0} (drivers : Drivers D) where
  -- The id of the storage to be: the given one or the next uuid.
  abbrev pub id_of : AccessInfo → World D → ℕ
  id_of a w = elim a.storage_id [ some i ↦ i | none ↦ drivers.uuid w.issued ]

  -- If no storage has the id of the access information, or the next uuid if it has none: when the
  -- driver that `discover_storage` makes answers with a serial number that no live storage has, and
  -- the id has no access information yet, the storage is registered as a new row with this id and
  -- serial number, and the access information is stored with encrypted passwords; only the commit of
  -- the storage's row may still raise, and then just the access information is left in its table. In
  -- any other case the exception of what failed first is raised, which for a known serial number is
  -- StorageAlreadyExists, and both tables are as they were. No driver is cached.
  pub discover_storage-Discovered :
      (a : AccessInfo) (w : World D)
      → elem (id_of a w) (storage_ids w.storages) ≡ false
      → Discovered drivers
          (id_of a w)
          (record (encrypt_password drivers.encode a) { storage_id = some (id_of a w) })
          w
          (discover_storage drivers a w)
  unfolding discover_storage
  discover_storage-Discovered a w = by_id a.storage_id
    where
      by_id :
          (o : Option ℕ)
          → elem (elim o [ some i ↦ i | none ↦ drivers.uuid w.issued ]) (storage_ids w.storages)
            ≡ false
          → Discovered drivers
              (elim o [ some i ↦ i | none ↦ drivers.uuid w.issued ])
              (record (encrypt_password drivers.encode a) {
                storage_id = some (elim o [ some i ↦ i | none ↦ drivers.uuid w.issued ]);
              })
              w
              (((λ w. elim o [
                | some i ↦ (ok i, w)
                | none ↦ (ok (drivers.uuid w.issued), record w { issued = suc w.issued })
              ])
                  >>= (λ i.
                      discover drivers i
                        (record (encrypt_password drivers.encode a) { storage_id = some i })))
                w)
      by_id (some i) h = discover-Discovered drivers i _ w h
      by_id none h = no_issue drivers (drivers.uuid w.issued) _ w h (suc w.issued) _ (
          discover-Discovered drivers (drivers.uuid w.issued) _ (record w { issued = suc w.issued })
            h)

abbrev pub renewed : ℕ → ℕ → ℕ → Storage → Storage
renewed i n columns s =
    if s.id == i && not s.deleted then record s { serial_number = n; columns = columns } else s

serials-apart :
    (i n columns : ℕ) (ss : List Storage)
    → elem i (storage_ids ss) ≡ false
    → serials (live (map (renewed i n columns) ss)) ≡ serials (live ss)
serials-apart i n columns [] h = refl
serials-apart i n columns (s ∷ ss) h =
    let rest = serials-apart i n columns ss (ground arith) in
    let apart : (s.id == i) ≡ false = ground (arith, ==_refl i) in rw apart (ground arith)

pub serials-renewed :
    (i columns : ℕ) (ss : List Storage) (present : Storage)
    → distinct (storage_ids ss) ≡ true
    → storage_get i ss ≡ ok present
    → serials (live (map (renewed i present.serial_number columns) ss)) ≡ serials (live ss)
unfolding storage_get
serials-renewed i columns [] present d h = absurd (ground arith)
serials-renewed i columns (s ∷ ss) present d h = elim (Bool-cases (s.id == i && not s.deleted)) [
  | inl y ↦
      let e : s ≡ present = ground arith in
      let same : i ≡ s.id = ground (arith, ==→eq s.id i) in
      let out : elem i (storage_ids ss) ≡ false =
        ap (λ k. elem k (storage_ids ss)) same ∙ ground arith in
      let rest = serials-apart i present.serial_number columns ss out in
      rw (y, sym e) (ground arith)
  | inr f ↦
      let rest = serials-renewed i columns ss present (ground arith) (ground arith) in
      rw f (ground arith)
]
