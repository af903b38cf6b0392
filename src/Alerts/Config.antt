-- ===== src/Alerts/Config.antt =====
-- `_input_check` and `_get_snmp_config_brief` of `AlertSourceController` in delfin/api/v1/
-- alert_source.py. The cryptor that the configuration names (delfin/cryptor.py) and the test for
-- hexadecimal octets are parameters.
use delfin.Prelude.{
  ℕ, ◌≡◌, Bool, true, false, not, ◌&&◌, ◌||◌, Option, none, some, List, [], ◌∷◌, ◌==◌,
  if◌then◌else◌,
}
use delfin.Errors.{Result, ok, err, attribute_error, invalid_input}
use delfin.Alerts.Source.{
  Version, snmpv1, snmpv2c, snmpv3, unknown_version, Key, community_string, username,
  security_level, auth_key, auth_protocol, privacy_protocol, privacy_key, engine_id, AlertSource,
  Values, get, set, given, alert_source_get,
}

-- `cryptor.encode` and `cryptor.decode`; the latter raises on a text that it cannot decode.
pub record Cryptor : Type 0 where
  pub encode : ℕ → ℕ
  pub decode : ℕ → Result ℕ

-- Their documented behaviour.
pub record IsCryptor (crypt : Cryptor) : Type 0 where
  pub decode-encode : (text : ℕ) → crypt.decode (crypt.encode text) ≡ ok text

-- `SecurityLevel`
abbrev pub no_auth_no_priv : ℕ
no_auth_no_priv = 1

abbrev pub auth_no_priv : ℕ
auth_no_priv = 2

abbrev pub auth_priv : ℕ
auth_priv = 3

abbrev pub encoded : Cryptor → Option ℕ → Option ℕ
encoded crypt none = none
encoded crypt (some n) = some (crypt.encode n)

abbrev pub clear : List Key → Values → Values
clear [] values = values
clear (k ∷ ks) values = clear ks (set k none values)

abbrev pub is_level : ℕ → Option ℕ → Bool
is_level n none = false
is_level n (some m) = m == n

abbrev pub check_privacy : Cryptor → Values → Result Values
check_privacy crypt values =
    if not (given (get values privacy_protocol)) || not (given (get values privacy_key))
    then err invalid_input
    else ok (
        set community_string none (set privacy_key (encoded crypt (get values privacy_key)) values))

abbrev pub check_auth : Cryptor → Values → Result Values
check_auth crypt values =
    let with_auth = set auth_key (encoded crypt (get values auth_key)) values in
    if not (given (get values auth_protocol)) || not (given (get values auth_key))
    then err invalid_input
    else if is_level auth_priv (get values security_level)
    then check_privacy crypt with_auth
    else ok (set community_string none (clear (privacy_key ∷ privacy_protocol ∷ []) with_auth))

abbrev pub check_v3 : Cryptor → (ℕ → Bool) → Values → Result Values
check_v3 crypt is_hex values =
    let level = get values security_level in
    if given (get values engine_id)
      && not (elim (get values engine_id) [ none ↦ false | some e ↦ is_hex e ])
    then err invalid_input
    else if not (given (get values username)) || not (given level)
    then err invalid_input
    else if is_level auth_no_priv level || is_level auth_priv level
    then check_auth crypt values
    else ok (
        set community_string none
          (clear (auth_key ∷ auth_protocol ∷ privacy_key ∷ privacy_protocol ∷ []) values))

-- `SNMPv3_keys`
abbrev pub snmpv3_keys : List Key
snmpv3_keys =
    username ∷ auth_key ∷ security_level ∷ auth_protocol ∷ privacy_protocol ∷ privacy_key
    ∷ engine_id ∷ []

abbrev pub check_community : Cryptor → Values → Result Values
check_community crypt values =
    if not (given (get values community_string))
    then err invalid_input
    else ok (
        clear snmpv3_keys
          (set community_string (encoded crypt (get values community_string)) values))

abbrev pub check_version : Cryptor → (ℕ → Bool) → Values → Version → Result Values
check_version crypt is_hex values snmpv3 = check_v3 crypt is_hex values
check_version crypt is_hex values snmpv1 = check_community crypt values
check_version crypt is_hex values snmpv2c = check_community crypt values
check_version crypt is_hex values unknown_version = check_community crypt values

unfoldable pub input_check : Cryptor → (ℕ → Bool) → Values → Result Values
input_check crypt is_hex values = elim values.version [
  | none ↦ err attribute_error
  | some v ↦ check_version crypt is_hex values v
]

-- What a deletion from the receiver needs.
pub record Brief : Type 0 where
  pub storage_id : ℕ
  pub version : Version
  pub username : Option ℕ
  pub engine_id : Option ℕ

abbrev pub brief_at : AlertSource → Version → Brief
brief_at row snmpv3 = record {
  storage_id = row.storage_id;
  version = snmpv3;
  username = row.value username;
  engine_id = row.value engine_id;
}
brief_at row v = record {
  storage_id = row.storage_id;
  version = v;
  username = none;
  engine_id = none;
}

abbrev pub brief_of : AlertSource → Brief
brief_of row = brief_at row row.version

unfoldable pub get_snmp_config_brief : ℕ → List AlertSource → Option Brief
unfolding alert_source_get
get_snmp_config_brief s rows = elim (alert_source_get s rows) [
  | err e ↦ none
  | ok row ↦ some (brief_of row)
]

-- A secret as it is stored.
abbrev pub readable : Cryptor → Option ℕ → Bool
readable crypt none = false
readable crypt (some c) = elim (crypt.decode c) [ ok t ↦ true | err e ↦ false ]

abbrev pub missing : Option ℕ → Bool
missing none = true
missing (some n) = false

abbrev pub missing_all : (Key → Option ℕ) → List Key → Bool
missing_all f [] = true
missing_all f (k ∷ ks) = missing (f k) && missing_all f ks

-- The columns of an SNMPv3 user of each security level.
abbrev pub is_user : Cryptor → (Key → Option ℕ) → Bool
is_user crypt f =
    let auth = readable crypt (f auth_key) && given (f auth_protocol) in
    let privacy = readable crypt (f privacy_key) && given (f privacy_protocol) in
    given (f username)
    && given (f security_level)
    && missing (f community_string)
    && (if is_level auth_priv (f security_level)
        then auth && privacy
        else if is_level auth_no_priv (f security_level)
        then auth && missing_all f (privacy_key ∷ privacy_protocol ∷ [])
        else missing_all f (auth_key ∷ auth_protocol ∷ privacy_key ∷ privacy_protocol ∷ []))

-- `SNMPv3_keys` but for the engine id, which the validation of a connection writes later.
abbrev pub user_keys : List Key
user_keys =
    username ∷ auth_key ∷ security_level ∷ auth_protocol ∷ privacy_protocol ∷ privacy_key ∷ []

abbrev pub is_known_version : Version → Bool
is_known_version snmpv1 = true
is_known_version snmpv2c = true
is_known_version snmpv3 = true
is_known_version unknown_version = false

-- The columns of a row of each version: a community and nothing of a user of SNMPv3, or a user of
-- SNMPv3 with the secrets of its security level and no community; each secret can be decoded.
abbrev pub is_configured : Cryptor → Version → (Key → Option ℕ) → Bool
is_configured crypt snmpv1 f = readable crypt (f community_string) && missing_all f user_keys
is_configured crypt snmpv2c f = readable crypt (f community_string) && missing_all f user_keys
is_configured crypt snmpv3 f = is_user crypt f
is_configured crypt unknown_version f = false
