-- ===== src/Alerts/Checked.antt =====
-- What the validation of a configuration in delfin/alert_manager/snmp_validator.py leaves as it is.
use delfin.Prelude.{
  ℕ, zero, suc, ◌≡◌, refl, fun_ext, ◌∙◌, Bool, true, false, not, ◌&&◌, Option, none, some, List,
  map, if◌then◌else◌, arith, Bool-cases, inl, inr, leb,
}
use delfin.Errors.{Result, ok, err}
use delfin.Alerts.Source.{
  Version, unknown_version, Key, same_key, key_number, community_string, username, security_level,
  auth_key, auth_protocol, privacy_protocol, privacy_key, engine_id, port, context_name, retry_num,
  expiration, AlertSource, given, has_storage, alert_source_get, alert_source_update, update_source,
}
use delfin.Alerts.Config.{Cryptor, is_configured}
use delfin.Alerts.Receiver.{
  Site, World, Answer, raised, answered, validate, validate_connectivity, with_defaults,
  with_engine, fill, put_value, is_v3, after_connectivity, after_save, engine_values,
}
use delfin.Alerts.Hex.{is_octets, update_source-octets}
use delfin.Alerts.Stored.{engine_values-configured}
use delfin.Alerts.Every.{every, configured, every-alert_source_update}
use delfin.Alerts.Communities.{community_of, table_of, table_of-map}

-- The keys that a validation writes, behind those that `is_configured` reads.
abbrev pub is_filled : Key → Bool
is_filled k = leb 8 (key_number k)

-- An answer names its engine in hexadecimal octets.
abbrev pub is_hex_answer : (ℕ → Bool) → Answer → Bool
is_hex_answer is_hex raised = true
is_hex_answer is_hex (answered none e) = true
is_hex_answer is_hex (answered (some n) e) = is_octets is_hex (some n)

module _ (crypt : Cryptor) (is_hex : ℕ → Bool) where
  -- The dict is that of the configuration but for what the validation writes.
  pub record IsSeen (config seen : AlertSource) : Type 0 where
    pub storage_id_is : seen.storage_id ≡ config.storage_id
    pub version_is : seen.version ≡ config.version
    pub community_is : seen.value community_string ≡ config.value community_string
    pub configured_is :
        (v : Version) → is_configured crypt v seen.value ≡ is_configured crypt v config.value
    pub octets_are :
        is_octets is_hex (config.value engine_id) ≡ true
        → is_octets is_hex (seen.value engine_id) ≡ true

  IsSeen-trans : (a b c : AlertSource) → IsSeen a b → IsSeen b c → IsSeen a c
  IsSeen-trans a b c p q = record {
    storage_id_is = q.storage_id_is ∙ p.storage_id_is;
    version_is = q.version_is ∙ p.version_is;
    community_is = q.community_is ∙ p.community_is;
    configured_is = λ v. q.configured_is v ∙ p.configured_is v;
    octets_are = λ h. q.octets_are (p.octets_are h);
  }

  IsSeen-refl : (a : AlertSource) → IsSeen a a
  IsSeen-refl a = record {
    storage_id_is = refl;
    version_is = refl;
    community_is = refl;
    configured_is = λ v. refl;
    octets_are = λ h. h;
  }

  is_configured-congr :
      (f g : Key → Option ℕ)
      → ((k : Key) → is_filled k ≡ false → f k ≡ g k)
      → (v : Version) → is_configured crypt v f ≡ is_configured crypt v g
  is_configured-congr f g same v = columns v
    where
      columns : (v : Version) → is_configured crypt v f ≡ is_configured crypt v g
      columns unknown_version = refl
      columns w =
          rw
            (
              same community_string refl,
              same username refl,
              same security_level refl,
              same auth_key refl,
              same auth_protocol refl,
              same privacy_protocol refl,
              same privacy_key refl,
            )
            refl

  put_value-same :
      (k l : Key) (d : Option ℕ) (config : AlertSource)
      → is_filled k ≡ true
      → is_filled l ≡ false
      → (put_value k d config).value l ≡ config.value l
  put_value-same k l d config h n = let e : same_key k l ≡ false = ground arith in rw e refl

  put_value-IsSeen :
      (k : Key) (d : Option ℕ) (config : AlertSource)
      → is_filled k ≡ true
      → (is_octets is_hex (config.value engine_id) ≡ true
          → is_octets is_hex ((put_value k d config).value engine_id) ≡ true)
      → IsSeen config (put_value k d config)
  put_value-IsSeen k d config h octets = record {
    storage_id_is = refl;
    version_is = refl;
    community_is = put_value-same k community_string d config h refl;
    configured_is = λ v.
        is_configured-congr (put_value k d config).value config.value
          (λ l n. put_value-same k l d config h n) v;
    octets_are = octets;
  }

  fill-IsSeen :
      (k : Key) (d : Option ℕ) (config : AlertSource)
      → is_filled k ≡ true
      → same_key k engine_id ≡ false
      → IsSeen config (fill k d config)
  fill-IsSeen k d config h other = elim (Bool-cases (given (config.value k))) [
    | inl y ↦ simp y (IsSeen-refl config)
    | inr n ↦ simp n (put_value-IsSeen k d config h (λ o. rw other o))
  ]

  with_defaults-IsSeen : (config : AlertSource) → IsSeen config (with_defaults config)
  with_defaults-IsSeen config =
      let a = fill port (some 161) config in
      let b = fill context_name none a in
      let c = fill retry_num (some 1) b in
      let d = fill expiration (some 2) c in
      IsSeen-trans config a d (fill-IsSeen port (some 161) config refl refl) (
        IsSeen-trans a b d (fill-IsSeen context_name none a refl refl) (
          IsSeen-trans b c d (fill-IsSeen retry_num (some 1) b refl refl)
            (fill-IsSeen expiration (some 2) c refl refl)))

  with_engine-IsSeen :
      (e : Option ℕ) (config : AlertSource)
      → is_octets is_hex e ≡ true
      → IsSeen config (with_engine e config)
  with_engine-IsSeen none config h = IsSeen-refl config
  with_engine-IsSeen (some n) config h = elim (Bool-cases (is_v3 config.version)) [
    | inr f ↦ simp f (IsSeen-refl config)
    | inl y ↦ simp y (put_value-IsSeen engine_id (some n) config refl (λ o. h))
  ]

  pub validate_connectivity-IsSeen :
      (enabled : Bool) (answer : Answer) (config : AlertSource)
      → is_hex_answer is_hex answer ≡ true
      → IsSeen config (validate_connectivity enabled answer config).0
  unfolding validate_connectivity
  validate_connectivity-IsSeen false answer config h = with_defaults-IsSeen config
  validate_connectivity-IsSeen true raised config h = with_defaults-IsSeen config
  validate_connectivity-IsSeen true (answered none e) config h = with_defaults-IsSeen config
  validate_connectivity-IsSeen true (answered (some n) e) config h =
      IsSeen-trans config (with_defaults config) (with_engine (some n) (with_defaults config))
        (with_defaults-IsSeen config) (with_engine-IsSeen (some n) (with_defaults config) h)

  -- The columns of a row with an engine id that is missing, empty or hexadecimal.
  abbrev pub sound : AlertSource → Bool
  sound row = configured crypt row && is_octets is_hex (row.value engine_id)

-- A validation keeps the engine, the messages, the communities and the shape of the rows.
pub record Keeps {E : Type 0} (site : Site) (w w' : World E) : Type 0 where
  pub engine_is : w'.engine ≡ w.engine
  pub messages_are : w'.messages ≡ w.messages
  pub table_is : table_of site.crypt w'.sources ≡ table_of site.crypt w.sources
  pub rows_are : every (sound site.crypt site.is_hex) w'.sources ≡ true

engine_values-sound :
    (crypt : Cryptor) (is_hex : ℕ → Bool) (e : Option ℕ) (row : AlertSource)
    → is_octets is_hex e ≡ true
    → sound crypt is_hex row ≡ true
    → sound crypt is_hex (update_source (engine_values e) row) ≡ true
engine_values-sound crypt is_hex e row o h =
    let a = engine_values-configured crypt e row (ground arith) in
    let b = update_source-octets is_hex (engine_values e) row o (ground arith) in ground arith

table_of-engine :
    (crypt : Cryptor) (s : ℕ) (e : Option ℕ) (rows : List AlertSource)
    → table_of crypt (alert_source_update s (engine_values e) rows).1 ≡ table_of crypt rows
unfolding alert_source_update
table_of-engine crypt s e rows = at (alert_source_get s rows)
  where
    same :
        (row : AlertSource)
        → ((if has_storage s row then update_source (engine_values e) row else row).storage_id
            ≡ row.storage_id)
          × (community_of crypt
                (if has_storage s row then update_source (engine_values e) row else row)
              ≡ community_of crypt row)
    same row = elim (Bool-cases (has_storage s row)) [
      | inl y ↦ rw y (refl, refl)
      | inr n ↦ rw n (refl, refl)
    ]

    at :
        (r : Result AlertSource)
        → table_of crypt
            (elim r as (λ x. Result AlertSource × List AlertSource) [
              | err e ↦ (err e, rows)
              | ok row ↦
                  let rows' =
                    map
                      (λ r. if has_storage s r then update_source (engine_values e) r else r)
                      rows in
                  (alert_source_get s rows', rows')
            ]).1
          ≡ table_of crypt rows
    at (err x) = refl
    at (ok row) = fun_ext (λ t. table_of-map crypt _ rows t same)

octets_absent :
    (is_hex : ℕ → Bool) (e : Option ℕ) → not (given e) ≡ true → is_octets is_hex e ≡ true
octets_absent is_hex none h = refl
octets_absent is_hex (some zero) h = refl
octets_absent is_hex (some (suc n)) h = ground arith

module _ {E : Type 0} (site : Site) where
  after_save-Keeps :
      (s : ℕ) (w : World E) (r : Result AlertSource × List AlertSource)
      → every (sound site.crypt site.is_hex) w.sources ≡ true
      → table_of site.crypt r.1 ≡ table_of site.crypt w.sources
      → every (sound site.crypt site.is_hex) r.1 ≡ true
      → Keeps site w (after_save site s w r)
  after_save-Keeps s w (err e, rows) h t r = record {
    engine_is = refl;
    messages_are = refl;
    table_is = refl;
    rows_are = h;
  }
  after_save-Keeps s w (ok row, rows) h t r = record {
    engine_is = refl;
    messages_are = refl;
    table_is = t;
    rows_are = r;
  }

  after_connectivity-Keeps :
      (config : AlertSource) (w : World E) (seen : AlertSource) (failed : Bool)
      → every (sound site.crypt site.is_hex) w.sources ≡ true
      → (not (given (config.value engine_id)) ≡ true
          → is_octets site.is_hex (seen.value engine_id) ≡ true)
      → Keeps site w (after_connectivity site config w seen failed)
  after_connectivity-Keeps config w seen true h o = record {
    engine_is = refl;
    messages_are = refl;
    table_is = refl;
    rows_are = h;
  }
  after_connectivity-Keeps config w seen false h o =
      elim (Bool-cases (not (given (config.value engine_id)) && given (seen.value engine_id))) [
        | inr n ↦
            rw n (record { engine_is = refl; messages_are = refl; table_is = refl; rows_are = h })
        | inl y ↦
            let hex = o (ground arith) in
            let e = seen.value engine_id in
            rw y (
              after_save-Keeps seen.storage_id w
                (alert_source_update seen.storage_id (engine_values e) w.sources) h
                (table_of-engine site.crypt seen.storage_id e w.sources)
                (every-alert_source_update (sound site.crypt site.is_hex) seen.storage_id
                  (engine_values e) w.sources
                  (λ row. engine_values-sound site.crypt site.is_hex e row hex) h))
      ]

  pub validate-Keeps :
      (answer : Answer) (config : AlertSource) (w : World E)
      → is_hex_answer site.is_hex answer ≡ true
      → every (sound site.crypt site.is_hex) w.sources ≡ true
      → Keeps site w (validate site answer config w).1
  unfolding validate
  validate-Keeps answer config w a h =
      let (seen, failed) = validate_connectivity site.snmp_validation_enabled answer config in
      after_connectivity-Keeps config w seen failed h (λ n.
        (validate_connectivity-IsSeen site.crypt site.is_hex site.snmp_validation_enabled answer
            config a).octets_are
          (octets_absent site.is_hex (config.value engine_id) n))
