-- ===== src/Alerts/Hex.antt =====
-- The engine ids that delfin/api/v1/alert_source.py and delfin/alert_manager/snmp_validator.py store.
use delfin.Prelude.{
  ℕ, zero, suc, ◌≡◌, refl, Bool, true, false, not, ◌&&◌, ◌||◌, Option, none, some, arith,
  Bool-cases, inl, inr,
}
use delfin.Errors.{Result, ok, err, attribute_error}
use delfin.Alerts.Source.{
  Version, snmpv1, snmpv2c, snmpv3, unknown_version, community_string, username, security_level,
  auth_key, auth_protocol, privacy_protocol, privacy_key, engine_id, AlertSource, Values, get,
  given, update_source, updated_value, set,
}
use delfin.Alerts.Config.{
  Cryptor, auth_no_priv, auth_priv, encoded, is_level, check_privacy, check_auth, check_v3,
  check_community, check_version, input_check,
}
use delfin.Alerts.Configured.{Accepts}

-- The engine id is missing, empty or hexadecimal.
abbrev pub is_octets : (ℕ → Bool) → Option ℕ → Bool
is_octets is_hex none = true
is_octets is_hex (some zero) = true
is_octets is_hex (some (suc n)) = is_hex (suc n)

module _ (crypt : Cryptor) (is_hex : ℕ → Bool) where
  abbrev KeepsEngine : Values → Values → Type 0
  KeepsEngine values checked =
      is_octets is_hex (get values engine_id) ≡ true
      → is_octets is_hex (get checked engine_id) ≡ true

  check_privacy-engine :
      (values : Values) → Accepts (KeepsEngine values) (check_privacy crypt values)
  check_privacy-engine values =
      elim (Bool-cases
        (not (given (get values privacy_protocol)) || not (given (get values privacy_key)))) [
          | inl y ↦ rw y tt
          | inr n ↦ rw n (λ h. h)
        ]

  check_auth-engine : (values : Values) → Accepts (KeepsEngine values) (check_auth crypt values)
  check_auth-engine values =
      elim (Bool-cases
        (not (given (get values auth_protocol)) || not (given (get values auth_key)))) [
          | inl y ↦ rw y tt
          | inr n ↦ elim (Bool-cases (is_level auth_priv (get values security_level))) [
            | inl y ↦
                rw (n, y)
                  (check_privacy-engine (set auth_key (encoded crypt (get values auth_key)) values))
            | inr m ↦ rw (n, m) (λ h. h)
          ]
        ]

  given-octets :
      (e : Option ℕ)
      → (given e && not (elim e [ none ↦ false | some x ↦ is_hex x ])) ≡ false
      → is_octets is_hex e ≡ true
  given-octets none h = refl
  given-octets (some zero) h = refl
  given-octets (some (suc n)) h = ground arith

  Accepts-engine :
      (values : Values) (r : Result Values)
      → is_octets is_hex (get values engine_id) ≡ true
      → Accepts (KeepsEngine values) r
      → Accepts (λ checked. is_octets is_hex (get checked engine_id) ≡ true) r
  Accepts-engine values (ok checked) h a = a h
  Accepts-engine values (err e) h a = tt

  check_v3-engine :
      (values : Values)
      → Accepts
          (λ checked. is_octets is_hex (get checked engine_id) ≡ true)
          (check_v3 crypt is_hex values)
  check_v3-engine values =
      elim (Bool-cases (
        given (get values engine_id)
        && not (elim (get values engine_id) [ none ↦ false | some e ↦ is_hex e ]))) [
          | inl y ↦ rw y tt
          | inr x ↦
              let octets = given-octets (get values engine_id) x in
              elim (Bool-cases
                (not (given (get values username)) || not (given (get values security_level)))) [
                  | inl y ↦ rw (x, y) tt
                  | inr n ↦
                      elim (Bool-cases (
                        is_level auth_no_priv (get values security_level)
                        || is_level auth_priv (get values security_level))) [
                          | inl y ↦
                              rw (x, n, y)
                                (Accepts-engine values (check_auth crypt values) octets
                                  (check_auth-engine values))
                          | inr m ↦ rw (x, n, m) octets
                        ]
                ]
        ]

  check_community-engine :
      (values : Values)
      → Accepts
          (λ checked. is_octets is_hex (get checked engine_id) ≡ true)
          (check_community crypt values)
  check_community-engine values = elim (Bool-cases (not (given (get values community_string)))) [
    | inl y ↦ rw y tt
    | inr n ↦ rw n refl
  ]

  check_version-engine :
      (values : Values) (v : Version)
      → Accepts
          (λ checked. is_octets is_hex (get checked engine_id) ≡ true)
          (check_version crypt is_hex values v)
  check_version-engine values snmpv3 = check_v3-engine values
  check_version-engine values snmpv1 = check_community-engine values
  check_version-engine values snmpv2c = check_community-engine values
  check_version-engine values unknown_version = check_community-engine values

  pub input_check-engine :
      (values : Values)
      → Accepts
          (λ checked. is_octets is_hex (get checked engine_id) ≡ true)
          (input_check crypt is_hex values)
  unfolding input_check
  input_check-engine values = at values.version
    where
      at :
          (o : Option Version)
          → Accepts
              (λ checked. is_octets is_hex (get checked engine_id) ≡ true)
              (elim o [ none ↦ err attribute_error | some v ↦ check_version crypt is_hex values v ])
      at none = tt
      at (some v) = check_version-engine values v

pub update_source-octets :
    (is_hex : ℕ → Bool) (values : Values) (row : AlertSource)
    → is_octets is_hex (get values engine_id) ≡ true
    → is_octets is_hex (row.value engine_id) ≡ true
    → is_octets is_hex ((update_source values row).value engine_id) ≡ true
update_source-octets is_hex values row g h = at (values.value engine_id) g
  where
    at :
        (v : Option (Option ℕ))
        → is_octets is_hex (elim v [ none ↦ none | some x ↦ x ]) ≡ true
        → is_octets is_hex (updated_value v (row.value engine_id)) ≡ true
    at none g = h
    at (some x) g = g
