-- ===== src/Drivers/Access.antt =====
-- The change of access information by a request: `AccessInfoController.update` of delfin/api/v1/
-- access_info.py, over delfin/drivers/api.py. The cryptor's `decode` is a parameter.
use delfin.Prelude.{
  ℕ, ◌≡◌, refl, sym, ap, ap₂, subst, ==_refl, ◌∙◌, Bool, true, false, ◌||◌, Option, none, some,
  List, [], ◌∷◌, map, ◌==◌, if◌then◌else◌, distinct, arith, Bool-cases, inl, inr,
}
use delfin.Errors.{Result, ok, err, Exception, attribute_error, ◌>>=◌}
use delfin.Effect.{Effect}
use delfin.Drivers.Manager.{Access, AccessInfo, Drivers, World, is_of, access_info_get}
use delfin.Drivers.Api.{encrypt_password, update_access_info, storage_ids}
use delfin.Drivers.Refused.{Refused}
use delfin.Drivers.Cached.{Updated, updated, unsaved, refused, update_access_info-Updated}

-- The part of the request on one way of access: the keys that it has.
pub record Change : Type 0 where
  pub host : Option ℕ
  pub password : Option ℕ
  pub others : ℕ → Option ℕ

pub record Body : Type 0 where
  pub rest : Option Change
  pub ssh : Option Change
  pub cli : Option Change
  pub smis : Option Change

abbrev pub or_old : Option ℕ → ℕ → ℕ
or_old none n = n
or_old (some m) n = m

abbrev pub key_or_old : Option ℕ → Option ℕ → Option ℕ
key_or_old none old = old
key_or_old (some m) old = some m

-- `update` of the dict.
abbrev pub with_change : Change → Access → Access
with_change c a = record {
  host = or_old c.host a.host;
  password = or_old c.password a.password;
  others = λ k. key_or_old (c.others k) (a.others k);
}

-- One round of the loop over `ACCESS_TYPE`, on what is stored; a change of an access that is not
-- stored is an update of `None`.
abbrev pub change_access : (ℕ → ℕ) → Option Access → Option Change → Result (Option Access)
change_access decode none none = ok none
change_access decode none (some c) = err attribute_error
change_access decode (some a) none = ok (some (record a { password = decode a.password }))
change_access decode (some a) (some c) =
    ok (some (with_change c (record a { password = decode a.password })))

abbrev built : AccessInfo → (rest ssh cli smis : Result (Option Access)) → Result AccessInfo
built a rest ssh cli smis = rest >>= λ rest. ssh >>= λ ssh.
    cli >>= λ cli. smis >>= λ smis. ok (record a { rest = rest; ssh = ssh; cli = cli; smis = smis })

unfoldable pub change_access_info : (ℕ → ℕ) → Body → AccessInfo → Result AccessInfo
change_access_info decode body a =
    built a (change_access decode a.rest body.rest) (change_access decode a.ssh body.ssh)
      (change_access decode a.cli body.cli) (change_access decode a.smis body.smis)

abbrev pub update_changed :
    {D : Type 0} → Drivers D → ℕ → Result AccessInfo → Effect (World D) (Unit {0})
update_changed drivers i (err e) w = (err e, w)
update_changed drivers i (ok a) w = update_access_info drivers i a w

unfoldable pub update : {D : Type 0} → Drivers D → (ℕ → ℕ) → ℕ → Body → Effect (World D) (Unit {0})
unfolding access_info_get change_access_info update_access_info
update drivers decode i body w =
    update_changed drivers i (access_info_get i w.accesses >>= change_access_info decode body) w

-- The change of access information whose passwords are in plain text.
abbrev plain_change : Body → AccessInfo → Result AccessInfo
plain_change = change_access_info (λ n. n)

-- What one way of access is after a request: without a change as before, and with one each key has the
-- value of the request if it has one and else the old value. The way must have been there.
pub data Merged : Option Access → Option Change → Option Access → Type 0 where
  absent : Merged none none none
  same : {a : Access} → Merged (some a) none (some a)
  merged :
      {a b : Access} {c : Change}
      → b.host ≡ elim c.host [ none ↦ a.host | some h ↦ h ]
      → b.password ≡ elim c.password [ none ↦ a.password | some p ↦ p ]
      → ((k : ℕ) → b.others k ≡ elim (c.others k) [ none ↦ a.others k | some v ↦ some v ])
      → Merged (some a) (some c) (some b)

-- Access information before and after a request.
pub record MergedInfo (body : Body) (p q : AccessInfo) : Type 0 where
  pub same_storage : q.storage_id ≡ p.storage_id
  pub same_name : q.name ≡ p.name
  pub rest_merged : Merged p.rest body.rest q.rest
  pub ssh_merged : Merged p.ssh body.ssh q.ssh
  pub cli_merged : Merged p.cli body.cli q.cli
  pub smis_merged : Merged p.smis body.smis q.smis

-- The request changes a way of access that is not there.
abbrev pub adds : Option Access → Option Change → Bool
adds none (some c) = true
adds none none = false
adds (some a) c = false

abbrev pub adds_any : Body → AccessInfo → Bool
adds_any body p =
    adds p.rest body.rest || adds p.ssh body.ssh || adds p.cli body.cli || adds p.smis body.smis

-- How a request on access information with the plain text `p` ends. A request that changes a way of
-- access that `p` does not have is an error and changes nothing. Otherwise the encryption of the
-- merged access information is stored; or `update_access_info` refuses it, and nothing has changed, or
-- the commit of the storage's row fails.
pub data Changed {D : Type 0} (drivers : Drivers D) (i : ℕ) (w : World D) (body : Body)
    (p : AccessInfo) : Result (Unit {0}) × World D → Type 0 where
  changed :
      {q : AccessInfo} {w' : World D}
      → adds_any body p ≡ false
      → MergedInfo body p q
      → access_info_get i w'.accesses ≡ ok (encrypt_password drivers.encode q)
      → Changed drivers i w body p (ok tt, w')
  half_changed :
      {q : AccessInfo} {e : Exception} {w' : World D}
      → adds_any body p ≡ false
      → MergedInfo body p q
      → drivers.commit_storage i ≡ err e
      → access_info_get i w'.accesses ≡ ok (encrypt_password drivers.encode q)
      → w'.storages ≡ w.storages
      → Changed drivers i w body p (err e, w')
  kept :
      {q : AccessInfo} {e : Exception}
      → adds_any body p ≡ false
      → MergedInfo body p q
      → Refused drivers i (encrypt_password drivers.encode q) w e
      → Changed drivers i w body p (err e, w)
  not_there : adds_any body p ≡ true → Changed drivers i w body p (err attribute_error, w)

access_info_get-replaced :
    (i : ℕ) (a b : AccessInfo) (as' : List AccessInfo)
    → access_info_get i as' ≡ ok b
    → is_of i a ≡ true
    → access_info_get i (map (λ c. if is_of i c then a else c) as') ≡ ok a
unfolding access_info_get
access_info_get-replaced i a b [] h own = absurd (ground arith)
access_info_get-replaced i a b (c ∷ as') h own = elim (Bool-cases (is_of i c)) [
  | inl y ↦ rw (y, own) refl
  | inr f ↦ rw (f, f) (access_info_get-replaced i a b as' (ground arith) own)
]

module _ (encode decode : ℕ → ℕ) (law : (n : ℕ) → decode (encode n) ≡ n) where
  decoded :
      (a : Option Access) (c : Option Change)
      → change_access decode
          (elim a [ none ↦ none | some x ↦ some (record x { password = encode x.password }) ])
          c
        ≡ change_access (λ n. n) a c
  decoded none none = refl
  decoded none (some c) = refl
  decoded (some a) none = ap (λ n. ok (some (record a { password = n }))) (law a.password)
  decoded (some a) (some c) =
      ap (λ n. ok (some (with_change c (record a { password = n })))) (law a.password)

  change-encrypted :
      (body : Body) (p : AccessInfo)
      → change_access_info decode body (encrypt_password encode p) ≡ plain_change body p
  unfolding change_access_info encrypt_password
  change-encrypted body p =
      ap₂
        (λ r s.
          built p r s (change_access decode (encrypt_password encode p).cli body.cli)
            (change_access decode (encrypt_password encode p).smis body.smis))
        (decoded p.rest body.rest) (decoded p.ssh body.ssh)
      ∙ ap₂
          (λ c m.
            built p (change_access (λ n. n) p.rest body.rest)
              (change_access (λ n. n) p.ssh body.ssh) c m)
          (decoded p.cli body.cli) (decoded p.smis body.smis)

-- What `change_access` makes of a plain text.
data AccessOutcome (a : Option Access) (c : Option Change) : Result (Option Access) → Type 0 where
  made : {b : Option Access} → adds a c ≡ false → Merged a c b → AccessOutcome a c (ok b)
  missing : adds a c ≡ true → AccessOutcome a c (err attribute_error)

change_access-AccessOutcome :
    (a : Option Access) (c : Option Change) → AccessOutcome a c (change_access (λ n. n) a c)
change_access-AccessOutcome none none = made refl absent
change_access-AccessOutcome none (some c) = missing refl
change_access-AccessOutcome (some a) none = made refl same
change_access-AccessOutcome (some a) (some c) = made refl (
    merged (by_key c.host a.host) (by_key c.password a.password)
      (λ k. by_other (c.others k) (a.others k)))
  where
    by_key : (o : Option ℕ) (n : ℕ) → or_old o n ≡ elim o [ none ↦ n | some m ↦ m ]
    by_key none n = refl
    by_key (some m) n = refl

    by_other : (o old : Option ℕ) → key_or_old o old ≡ elim o [ none ↦ old | some m ↦ some m ]
    by_other none old = refl
    by_other (some m) old = refl

data InfoOutcome (body : Body) (p : AccessInfo) : Result AccessInfo → Type 0 where
  made_all :
      {q : AccessInfo} → adds_any body p ≡ false → MergedInfo body p q → InfoOutcome body p (ok q)
  missing_one : adds_any body p ≡ true → InfoOutcome body p (err attribute_error)

built-InfoOutcome :
    (body : Body) (p : AccessInfo) (rest ssh cli smis : Result (Option Access))
    → AccessOutcome p.rest body.rest rest
    → AccessOutcome p.ssh body.ssh ssh
    → AccessOutcome p.cli body.cli cli
    → AccessOutcome p.smis body.smis smis
    → InfoOutcome body p (built p rest ssh cli smis)
built-InfoOutcome body p _ s c m (missing x) _ _ _ = missing_one (ground arith)
built-InfoOutcome body p _ _ c m (made x r) (missing y) _ _ = missing_one (ground arith)
built-InfoOutcome body p _ _ _ m (made x r) (made y s) (missing z) _ = missing_one (ground arith)
built-InfoOutcome body p _ _ _ _ (made x r) (made y s) (made z c) (missing u) =
    missing_one (ground arith)
built-InfoOutcome body p _ _ _ _ (made x r) (made y s) (made z c) (made u m) =
    made_all (ground arith) (record {
      same_storage = refl;
      same_name = refl;
      rest_merged = r;
      ssh_merged = s;
      cli_merged = c;
      smis_merged = m;
    })

plain_change-InfoOutcome : (body : Body) (p : AccessInfo) → InfoOutcome body p (plain_change body p)
unfolding change_access_info
plain_change-InfoOutcome body p =
    built-InfoOutcome body p _ _ _ _ (change_access-AccessOutcome p.rest body.rest)
      (change_access-AccessOutcome p.ssh body.ssh) (change_access-AccessOutcome p.cli body.cli)
      (change_access-AccessOutcome p.smis body.smis)

own_access :
    (encode : ℕ → ℕ) (i : ℕ) (q : AccessInfo)
    → q.storage_id ≡ some i
    → is_of i (encrypt_password encode q) ≡ true
unfolding encrypt_password
own_access encode i q its =
    ap (λ o. elim o as (λ x. Bool) [ none ↦ false | some j ↦ i == j ]) its ∙ ==_refl i

module _ {D : Type 0} (drivers : Drivers D) (i : ℕ) (body : Body) (p : AccessInfo)
    (w : World D) where
  Updated-Changed :
      (q b : AccessInfo) (r : Result (Unit {0}) × World D)
      → access_info_get i w.accesses ≡ ok b
      → is_of i (encrypt_password drivers.encode q) ≡ true
      → adds_any body p ≡ false
      → MergedInfo body p q
      → Updated drivers i (encrypt_password drivers.encode q) w r
      → Changed drivers i w body p r
  Updated-Changed q b _ found own there is (updated _ e _ _ _) = changed there is (
      ap (access_info_get i) e
      ∙ access_info_get-replaced i (encrypt_password drivers.encode q) b w.accesses found own)
  Updated-Changed q b _ found own there is (unsaved _ c e s _) =
      half_changed there is c
        (ap (access_info_get i) e
          ∙ access_info_get-replaced i (encrypt_password drivers.encode q) b w.accesses found own)
        s
  Updated-Changed q b _ found own there is (refused r) = kept there is r

  -- If decoding undoes encoding, the stored access information is the encryption of `p`, and the ids
  -- of the storages are distinct: a request that changes a way of access that `p` does not have raises
  -- an AttributeError and changes nothing. Any other request ends with the encryption of `p` in which
  -- each key that the request has is replaced by its value; or it raises, either with nothing changed,
  -- for one of the reasons of `update_access_info` to refuse it, or in the commit of the storage's row.
  pub update-Changed :
      (decode : ℕ → ℕ)
      → ((n : ℕ) → decode (drivers.encode n) ≡ n)
      → access_info_get i w.accesses ≡ ok (encrypt_password drivers.encode p)
      → p.storage_id ≡ some i
      → distinct (storage_ids w.storages) ≡ true
      → Changed drivers i w body p (update drivers decode i body w)
  unfolding update
  update-Changed decode law found its apart =
      subst
        (λ r.
          Changed drivers i w body p
            (update_changed drivers i (r >>= change_access_info decode body) w))
        (sym found)
        (subst (λ r. Changed drivers i w body p (update_changed drivers i r w))
          (sym (change-encrypted drivers.encode decode law body p))
          (by_change (plain_change body p) (plain_change-InfoOutcome body p)))
    where
      by_change :
          (r : Result AccessInfo)
          → InfoOutcome body p r
          → Changed drivers i w body p (update_changed drivers i r w)
      by_change _ (missing_one h) = not_there h
      by_change _ (made_all {q} h is) =
          Updated-Changed q (encrypt_password drivers.encode p) _ found
            (own_access drivers.encode i q (is.same_storage ∙ its)) h is
            (update_access_info-Updated drivers i q w apart)
