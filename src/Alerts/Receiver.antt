-- ===== src/Alerts/Receiver.antt =====
-- `TrapReceiver.sync_snmp_config` of delfin/alert_manager/trap_receiver.py with the validation of
-- delfin/alert_manager/snmp_validator.py, and `put` and `delete` of delfin/api/v1/alert_source.py,
-- which send it its messages. The SNMP engine is a parameter.
use delfin.Prelude.{
  ℕ, zero, suc, Bool, true, false, not, ◌&&◌, Option, none, some, List, [], ◌∷◌, elem,
  if◌then◌else◌,
}
use delfin.Errors.{Result, ok, err, ◌>>=◌, invalid_snmp_config, value_error, other_exception}
use delfin.Alerts.Source.{
  Version, snmpv1, snmpv2c, snmpv3, unknown_version, Key, same_key, community_string, username,
  auth_key, auth_protocol, privacy_protocol, privacy_key, engine_id, port, context_name, retry_num,
  expiration, AlertSource, Values, given, alert_source_update,
}
use delfin.Alerts.Config.{Cryptor, Brief}
use delfin.Alerts.Validator.{Validator, fault, recovery, handle_validation_result}

-- The arguments of `config.addV3User`.
pub record User : Type 0 where
  pub name : Option ℕ
  pub auth : Option ℕ
  pub privacy : Option ℕ
  pub auth_protocol_used : ℕ
  pub priv_protocol_used : ℕ
  pub security_engine_id : Option ℕ

-- The calls of `pysnmp.entity.config` on an engine, and the community under an index.
pub record SnmpEngine (E : Type 0) : Type 0 where
  pub add_v1_system : ℕ → ℕ → E → E
  pub del_v1_system : ℕ → E → Result E
  pub add_v3_user : User → E → Result E
  pub del_v3_user : Option ℕ → Option ℕ → E → Result E
  pub community : E → ℕ → Option ℕ

-- What the receiver and the API are given: the cryptor, the test for hexadecimal octets, the index of
-- a storage (its id without dashes), the configured switch of the validation, the serial number of a
-- storage, and whether a storage is in the database.
pub record Site : Type 0 where
  pub crypt : Cryptor
  pub is_hex : ℕ → Bool
  pub without_dashes : ℕ → ℕ
  pub snmp_validation_enabled : Bool
  pub serial_number : ℕ → Option ℕ
  pub has_row : ℕ → Bool

pub record Message : Type 0 where
  pub to_del : Option Brief
  pub to_add : Option AlertSource

pub record World (E : Type 0) : Type 0 where
  pub engine : E
  pub sources : List AlertSource
  pub validator : Validator
  pub messages : List Message

-- `cryptor.decode(value)`, which raises on None.
abbrev pub decoded : Cryptor → Option ℕ → Result ℕ
decoded crypt none = err other_exception
decoded crypt (some c) = crypt.decode c

abbrev pub decoded_if_given : Cryptor → Option ℕ → Result (Option ℕ)
decoded_if_given crypt v = if given v then (decoded crypt v >>= λ t. ok (some t)) else ok v

-- The names of `AUTH_PROTOCOL_MAP` and of `PRIVACY_PROTOCOL_MAP`; 0 is the library's constant for no
-- protocol.
abbrev pub auth_protocols : List ℕ
auth_protocols = 1 ∷ 2 ∷ 3 ∷ 4 ∷ 5 ∷ 6 ∷ 7 ∷ []

abbrev pub privacy_protocols : List ℕ
privacy_protocols = 8 ∷ 9 ∷ 10 ∷ 11 ∷ 12 ∷ 7 ∷ []

abbrev pub usm_protocol : List ℕ → Option ℕ → Result ℕ
usm_protocol names none = ok 0
usm_protocol names (some zero) = ok 0
usm_protocol names (some (suc n)) =
    if elem (suc n) names then ok (suc n) else err invalid_snmp_config

-- `v2c.OctetString(hexValue=engine_id)` of an engine id that is given.
abbrev pub octets : (ℕ → Bool) → Option ℕ → Result (Option ℕ)
octets is_hex none = ok none
octets is_hex (some zero) = ok (some zero)
octets is_hex (some (suc n)) = if is_hex (suc n) then ok (some (suc n)) else err value_error

module _ {E : Type 0} (snmp : SnmpEngine E) (site : Site) where
  abbrev pub add_user : AlertSource → E → Result E
  add_user config e = do
    engine ← octets site.is_hex (config.value engine_id)
    auth ← decoded_if_given site.crypt (config.value auth_key)
    priv ← decoded_if_given site.crypt (config.value privacy_key)
    auth_used ← usm_protocol auth_protocols (config.value auth_protocol)
    priv_used ← usm_protocol privacy_protocols (config.value privacy_protocol)
    snmp.add_v3_user
        (record {
          name = config.value username;
          auth = auth;
          privacy = priv;
          auth_protocol_used = auth_used;
          priv_protocol_used = priv_used;
          security_engine_id = engine;
        })
        e

  abbrev pub add_community : AlertSource → E → Result E
  add_community config e = decoded site.crypt (config.value community_string) >>= λ text.
      ok (snmp.add_v1_system (site.without_dashes config.storage_id) text e)

  abbrev pub add_version : AlertSource → E → Version → Result E
  add_version config e snmpv1 = add_community config e
  add_version config e snmpv2c = add_community config e
  add_version config e snmpv3 = add_user config e
  add_version config e unknown_version = err invalid_snmp_config

  unfoldable pub add_snmp_config : AlertSource → E → Result E
  add_snmp_config config e = add_version config e config.version

  -- A user that is not found is only logged.
  abbrev pub kept_on_error : E → Result E → Result E
  kept_on_error e (ok e') = ok e'
  kept_on_error e (err _) = ok e

  abbrev pub delete_user : Brief → E → Result E
  delete_user config e = octets site.is_hex config.engine_id >>= λ engine.
      kept_on_error e (snmp.del_v3_user config.username engine e)

  abbrev pub delete_version : Brief → E → Version → Result E
  delete_version config e snmpv1 = snmp.del_v1_system (site.without_dashes config.storage_id) e
  delete_version config e snmpv2c = snmp.del_v1_system (site.without_dashes config.storage_id) e
  delete_version config e snmpv3 = delete_user config e
  delete_version config e unknown_version = err invalid_snmp_config

  unfoldable pub delete_snmp_config : Brief → E → Result E
  delete_snmp_config config e = delete_version config e config.version

-- What the SNMP get of a device comes to: an exception, or the engine id that was seen and whether
-- there was an error indication.
pub data Answer : Type 0 where
  raised : Answer
  answered : Option ℕ → Bool → Answer

abbrev pub put_value : Key → Option ℕ → AlertSource → AlertSource
put_value k v config = record config { value = λ l. if same_key k l then v else config.value l }

-- `if not alert_source.get(key): alert_source[key] = default`
abbrev pub fill : Key → Option ℕ → AlertSource → AlertSource
fill k default config = if given (config.value k) then config else put_value k default config

abbrev pub is_v3 : Version → Bool
is_v3 snmpv3 = true
is_v3 snmpv1 = false
is_v3 snmpv2c = false
is_v3 unknown_version = false

abbrev pub with_engine : Option ℕ → AlertSource → AlertSource
with_engine none config = config
with_engine (some e) config =
    if is_v3 config.version then put_value engine_id (some e) config else config

abbrev pub with_defaults : AlertSource → AlertSource
with_defaults config =
    fill expiration (some 2)
      (fill retry_num (some 1) (fill context_name none (fill port (some 161) config)))

-- The dict as it is changed, and whether the connection failed.
unfoldable pub validate_connectivity : Bool → Answer → AlertSource → AlertSource × Bool
validate_connectivity enabled answer config =
    if not enabled then (with_defaults config, false) else elim answer [
      | raised ↦ (with_defaults config, true)
      | answered engine error ↦ (with_engine engine (with_defaults config), error)
    ]

-- `{'engine_id': ...}`
abbrev pub engine_values : Option ℕ → Values
engine_values e = record {
  version = none;
  value = λ k. if same_key engine_id k then some e else none;
}

module _ {E : Type 0} (site : Site) where
  abbrev pub validation_result : ℕ → Bool → World E → World E
  validation_result s failed w = record w {
    validator =
        handle_validation_result (site.serial_number s) (if failed then fault else recovery)
          w.validator;
  }

  -- A row that is gone is an exception, which is logged.
  abbrev pub after_save : ℕ → World E → Result AlertSource × List AlertSource → World E
  after_save s w (err e, rows) = w
  after_save s w (ok row, rows) = validation_result s false (record w { sources = rows })

  abbrev pub save_engine_id : AlertSource → World E → World E
  save_engine_id config w =
      after_save config.storage_id w
        (alert_source_update config.storage_id (engine_values (config.value engine_id)) w.sources)

  -- `seen` is the dict after `validate_connectivity`.
  abbrev pub after_connectivity : AlertSource → World E → AlertSource → Bool → World E
  after_connectivity config w seen failed =
      if failed
      then validation_result config.storage_id true w
      else if not (given (config.value engine_id)) && given (seen.value engine_id)
      then save_engine_id seen w
      else validation_result config.storage_id false w

  -- The caller goes on with the dict that `validate_connectivity` has written into.
  unfoldable pub validate : Answer → AlertSource → World E → AlertSource × World E
  validate answer config w =
      let (seen, failed) = validate_connectivity site.snmp_validation_enabled answer config in
      (seen, after_connectivity config w seen failed)
