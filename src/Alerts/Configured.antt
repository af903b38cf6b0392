-- ===== src/Alerts/Configured.antt =====
-- What `_input_check` of delfin/api/v1/alert_source.py lets through: the columns of a row for each
-- version.
use delfin.Prelude.{
  ℕ, ◌≡◌, refl, sym, ap, subst, Bool, true, false, not, ◌&&◌, ◌||◌, Option, none, some, arith,
  Bool-cases, inl, inr,
}
use delfin.Errors.{Result, ok, err, attribute_error}
use delfin.Alerts.Source.{
  Version, snmpv1, snmpv2c, snmpv3, unknown_version, Key, community_string, username,
  security_level, auth_key, auth_protocol, privacy_protocol, privacy_key, engine_id, AlertSource,
  Values, get, set, given, update_source, updated_value,
}
use delfin.Alerts.Config.{
  Cryptor, IsCryptor, auth_no_priv, auth_priv, encoded, is_level, check_privacy, check_auth,
  check_v3, user_keys, check_community, check_version, input_check, readable, missing_all, is_user,
  is_configured, is_known_version,
}

abbrev pub sets : Values → Key → Bool
sets values k = elim (values.value k) [ none ↦ false | some v ↦ true ]

-- Columns that have the values of the dict for the keys that it has.
abbrev pub Follows : (Key → Option ℕ) → Values → Type 0
Follows f values = (k : Key) → sets values k ≡ true → f k ≡ get values k

pub update_source-Follows :
    (values : Values) (row : AlertSource) → Follows (update_source values row).value values
update_source-Follows values row k h = at (values.value k) h
  where
    at :
        (v : Option (Option ℕ))
        → elim v [ none ↦ false | some x ↦ true ] ≡ true
        → updated_value v (row.value k) ≡ elim v [ none ↦ none | some x ↦ x ]
    at none h = ground arith
    at (some x) h = refl

given-sets : (values : Values) (k : Key) → given (get values k) ≡ true → sets values k ≡ true
given-sets values k h = at (values.value k) h
  where
    at :
        (v : Option (Option ℕ))
        → given (elim v [ none ↦ none | some x ↦ x ]) ≡ true
        → elim v [ none ↦ false | some x ↦ true ] ≡ true
    at none h = h
    at (some x) h = refl

-- A dict of the version of another one, and columns that follow it pass the test.
abbrev pub Gives : Values → ((Key → Option ℕ) → Bool) → Values → Type 0
Gives values test checked =
    (checked.version ≡ values.version) × ((f : Key → Option ℕ) → Follows f checked → test f ≡ true)

-- The statement of what a check lets through.
abbrev pub Accepts : (Values → Type 0) → Result Values → Type 0
Accepts P (ok values) = P values
Accepts P (err e) = Unit

module _ (crypt : Cryptor) (good : IsCryptor crypt) where
  readable-encoded : (v : Option ℕ) → given v ≡ true → readable crypt (encoded crypt v) ≡ true
  readable-encoded none h = h
  readable-encoded (some n) h = rw (good.decode-encode n) refl

  check_community-configured :
      (values : Values)
      → Accepts
          (Gives values λ f. readable crypt (f community_string) && missing_all f user_keys)
          (check_community crypt values)
  check_community-configured values = elim (Bool-cases (given (get values community_string))) [
    | inl y ↦ rw y (
      refl,
      λ f follows.
          rw
            (
              follows community_string refl,
              follows username refl,
              follows auth_key refl,
              follows security_level refl,
              follows auth_protocol refl,
              follows privacy_protocol refl,
              follows privacy_key refl,
              readable-encoded (get values community_string) y,
            )
            refl,
    )
    | inr n ↦ rw n tt
  ]

  readable-sets :
      (values : Values) (k : Key) → readable crypt (get values k) ≡ true → sets values k ≡ true
  readable-sets values k h = at (values.value k) h
    where
      at :
          (v : Option (Option ℕ))
          → readable crypt (elim v [ none ↦ none | some x ↦ x ]) ≡ true
          → elim v [ none ↦ false | some x ↦ true ] ≡ true
      at none h = h
      at (some x) h = refl

  -- A user that the check has come to: with a name and a level.
  record IsNamed (values : Values) : Type 0 where
    has_name : given (get values username) ≡ true
    has_level : given (get values security_level) ≡ true

  -- And with a key of authentication.
  record IsAuthenticated (values : Values) : Type 0 where
    named : IsNamed values
    has_auth_key : readable crypt (get values auth_key) ≡ true
    has_auth_protocol : given (get values auth_protocol) ≡ true

  check_privacy-configured :
      (values : Values)
      → IsAuthenticated values
      → is_level auth_priv (get values security_level) ≡ true
      → Accepts (Gives values λ f. is_user crypt f) (check_privacy crypt values)
  check_privacy-configured values auth l = elim (Bool-cases (given (get values privacy_protocol))) [
    | inr n ↦ rw n tt
    | inl p ↦ elim (Bool-cases (given (get values privacy_key))) [
      | inr n ↦ rw (p, n) tt
      | inl k ↦
          rw (p, k)
            (
              refl,
              λ f follows.
                  rw
                    (
                      follows username (given-sets values username auth.named.has_name),
                      follows security_level
                          (given-sets values security_level auth.named.has_level),
                      follows community_string refl,
                      follows auth_key (readable-sets values auth_key auth.has_auth_key),
                      follows auth_protocol
                          (given-sets values auth_protocol auth.has_auth_protocol),
                      follows privacy_key refl,
                      follows privacy_protocol (given-sets values privacy_protocol p),
                      auth.named.has_name,
                      auth.named.has_level,
                      l,
                      auth.has_auth_key,
                      auth.has_auth_protocol,
                      readable-encoded (get values privacy_key) k,
                      p,
                    )
                    refl,
            )
    ]
  ]

  check_auth-configured :
      (values : Values)
      → IsNamed values
      → (is_level auth_no_priv (get values security_level)
          || is_level auth_priv (get values security_level))
        ≡ true
      → Accepts (Gives values λ f. is_user crypt f) (check_auth crypt values)
  check_auth-configured values named l = elim (Bool-cases (given (get values auth_protocol))) [
    | inr n ↦ rw n tt
    | inl p ↦ elim (Bool-cases (given (get values auth_key))) [
      | inr n ↦ rw (p, n) tt
      | inl k ↦ elim (Bool-cases (is_level auth_priv (get values security_level))) [
        | inl y ↦
            rw (p, k, y)
              (check_privacy-configured (set auth_key (encoded crypt (get values auth_key)) values)
                (record {
                  named = record { has_name = named.has_name; has_level = named.has_level };
                  has_auth_key = readable-encoded (get values auth_key) k;
                  has_auth_protocol = p;
                })
                y)
        | inr n ↦
            let no_priv : is_level auth_no_priv (get values security_level) ≡ true = ground arith in
            rw (p, k, n)
              (
                refl,
                λ f follows.
                    rw
                      (
                        follows username (given-sets values username named.has_name),
                        follows security_level (given-sets values security_level named.has_level),
                        follows community_string refl,
                        follows auth_key refl,
                        follows auth_protocol (given-sets values auth_protocol p),
                        follows privacy_key refl,
                        follows privacy_protocol refl,
                        named.has_name,
                        named.has_level,
                        n,
                        no_priv,
                        readable-encoded (get values auth_key) k,
                        p,
                      )
                      refl,
              )
      ]
    ]
  ]

  check_v3-configured :
      (is_hex : ℕ → Bool) (values : Values)
      → Accepts (Gives values λ f. is_user crypt f) (check_v3 crypt is_hex values)
  check_v3-configured is_hex values =
      elim (Bool-cases (
        given (get values engine_id)
        && not (elim (get values engine_id) [ none ↦ false | some e ↦ is_hex e ]))) [
          | inl y ↦ rw y tt
          | inr x ↦ elim (Bool-cases (given (get values username))) [
            | inr n ↦ rw (x, n) tt
            | inl u ↦ elim (Bool-cases (given (get values security_level))) [
              | inr n ↦ rw (x, u, n) tt
              | inl v ↦
                  let named : IsNamed values = record { has_name = u; has_level = v } in
                  elim (Bool-cases (
                    is_level auth_no_priv (get values security_level)
                    || is_level auth_priv (get values security_level))) [
                      | inl y ↦ rw (x, u, v, y) (check_auth-configured values named y)
                      | inr n ↦
                          let no_priv : is_level auth_no_priv (get values security_level) ≡ false =
                            ground arith in
                          let priv : is_level auth_priv (get values security_level) ≡ false =
                            ground arith in
                          rw (x, u, v, n)
                            (
                              refl,
                              λ f follows.
                                  rw
                                    (
                                      follows username (given-sets values username u),
                                      follows security_level (given-sets values security_level v),
                                      follows community_string refl,
                                      follows auth_key refl,
                                      follows auth_protocol refl,
                                      follows privacy_key refl,
                                      follows privacy_protocol refl,
                                      u,
                                      v,
                                      priv,
                                      no_priv,
                                    )
                                    refl,
                            )
                    ]
            ]
          ]
        ]

  pub input_check-configured :
      (is_hex : ℕ → Bool) (values : Values) (v : Version)
      → values.version ≡ some v
      → is_known_version v ≡ true
      → Accepts (Gives values λ f. is_configured crypt v f) (input_check crypt is_hex values)
  unfolding input_check
  input_check-configured is_hex values v e k =
      subst (Accepts (Gives values λ f. is_configured crypt v f))
        (sym (
          ap
            (λ o. elim o [
              | none ↦ err attribute_error
              | some v ↦ check_version crypt is_hex values v
            ])
            e))
        (at v k)
    where
      at :
          (v : Version)
          → is_known_version v ≡ true
          → Accepts
              (Gives values λ f. is_configured crypt v f)
              (check_version crypt is_hex values v)
      at snmpv1 k = check_community-configured values
      at snmpv2c k = check_community-configured values
      at snmpv3 k = check_v3-configured is_hex values
      at unknown_version k = ground arith
