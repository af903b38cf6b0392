-- ===== src/Alerts/Stored.antt =====
-- What stands in the table `alert_source` after any requests of delfin/api/v1/alert_source.py and any
-- messages and checks of delfin/alert_manager/trap_receiver.py.
use delfin.Prelude.{
  ℕ, ◌≡◌, refl, ap, ◌∙◌, Bool, true, false, not, ◌&&◌, Option, none, some, List, [], ◌∷◌, arith,
  Bool-cases, inl, inr,
}
use delfin.Errors.{Result, ok, err}
use delfin.Alerts.Source.{
  Version, snmpv1, snmpv2c, snmpv3, unknown_version, Key, engine_id, AlertSource, Values, get,
  alert_source_update, update_source, new_source, updated_version, given,
}
use delfin.Alerts.Config.{
  Cryptor, IsCryptor, Brief, is_configured, is_known_version, input_check, get_snmp_config_brief,
}
use delfin.Alerts.Configured.{
  Follows, Gives, Accepts, update_source-Follows, input_check-configured,
}
use delfin.Alerts.Receiver.{
  SnmpEngine, Site, Message, World, Answer, engine_values, validate, validate_connectivity,
  save_engine_id, after_save, after_connectivity, add_snmp_config,
}
use delfin.Alerts.Service.{
  Event, put_source, delete_source, next_message, check_snmp_config, remove_storage, store_source,
  after_store, after_check, delete_found, added, after_delete, put, delete, sync_snmp_config,
  add_new, delete_old, handle_next, step, steps,
}
use delfin.Alerts.Every.{
  every, configured, every-alert_source_update, every-alert_source_create,
  every-alert_source_delete,
}

pub engine_values-configured :
    (crypt : Cryptor) (e : Option ℕ) (row : AlertSource)
    → configured crypt row ≡ true
    → configured crypt (update_source (engine_values e) row) ≡ true
engine_values-configured crypt e row h = at row.version h
  where
    at :
        (v : Version)
        → is_configured crypt v row.value ≡ true
        → is_configured crypt v (update_source (engine_values e) row).value ≡ true
    at snmpv1 h = h
    at snmpv2c h = h
    at snmpv3 h = h
    at unknown_version h = h

pub updated-configured :
    (crypt : Cryptor) (v : Version) (values : Values) (row : AlertSource)
    → values.version ≡ some v
    → ((f : Key → Option ℕ) → Follows f values → is_configured crypt v f ≡ true)
    → configured crypt (update_source values row) ≡ true
updated-configured crypt v values row e good =
    ap (λ o. is_configured crypt (updated_version o row.version) (update_source values row).value) e
    ∙ good (update_source values row).value (update_source-Follows values row)

pub new-configured :
    (crypt : Cryptor) (now s : ℕ) (v : Version) (values : Values)
    → values.version ≡ some v
    → ((f : Key → Option ℕ) → Follows f values → is_configured crypt v f ≡ true)
    → configured crypt (new_source now s values) ≡ true
new-configured crypt now s v values e good =
    ap (λ o. is_configured crypt (updated_version o unknown_version) (get values)) e
    ∙ good (get values) (λ k h. refl)

store_source-configured :
    (crypt : Cryptor) (brief : Option Brief) (now s : ℕ) (v : Version) (values : Values)
    (rows : List AlertSource)
    → values.version ≡ some v
    → ((f : Key → Option ℕ) → Follows f values → is_configured crypt v f ≡ true)
    → every (configured crypt) rows ≡ true
    → every (configured crypt) (store_source brief now s values rows).1 ≡ true
store_source-configured crypt none now s v values rows e good h =
    every-alert_source_create (configured crypt) now s values rows
      (new-configured crypt now s v values e good) h
store_source-configured crypt (some b) now s v values rows e good h =
    every-alert_source_update (configured crypt) s values rows
      (λ row _. updated-configured crypt v values row e good) h

-- The version of a request is one that the schema admits.
abbrev pub admitted : Option Version → Bool
admitted none = false
admitted (some v) = is_known_version v

abbrev pub conforms : Event → Bool
conforms (put_source now s values) = admitted values.version
conforms (delete_source s) = true
conforms (next_message answer) = true
conforms (check_snmp_config answer config) = true
conforms (remove_storage s) = true

abbrev pub all_conform : List Event → Bool
all_conform [] = true
all_conform (e ∷ es) = conforms e && all_conform es

module _ {E : Type 0} (snmp : SnmpEngine E) (site : Site) (good : IsCryptor site.crypt) where
  abbrev Sound : World E → Type 0
  Sound w = every (configured site.crypt) w.sources ≡ true

  after_store-sources :
      (brief : Option Brief) (stored : Result AlertSource) (w : World E)
      → (after_store snmp site brief stored w).1.sources ≡ w.sources
  after_store-sources brief (err e) w = refl
  after_store-sources brief (ok row) w = refl

  after_check-Sound :
      (now s : ℕ) (values : Values) (v : Version) (w : World E) (checked : Result Values)
      → values.version ≡ some v
      → Accepts (Gives values λ f. is_configured site.crypt v f) checked
      → Sound w
      → Sound (after_check snmp site now s w checked).1
  after_check-Sound now s values v w (err e) version a h = h
  after_check-Sound now s values v w (ok checked) version (same, follows) h =
      let brief = get_snmp_config_brief s w.sources in
      let stored = store_source brief now s checked w.sources in
      ap (every (configured site.crypt))
        (after_store-sources brief stored.0 (record w { sources = stored.1 }))
      ∙ store_source-configured site.crypt brief now s v checked w.sources (same ∙ version) follows
          h

  admitted-version :
      (values : Values)
      → admitted values.version ≡ true
      → (v : Version) × (values.version ≡ some v) × (is_known_version v ≡ true)
  admitted-version values a = at values.version a
    where
      at :
          (o : Option Version)
          → admitted o ≡ true
          → (v : Version) × (o ≡ some v) × (is_known_version v ≡ true)
      at none a = ground arith
      at (some v) a = (v, refl, a)

  put-Sound :
      (now s : ℕ) (values : Values) (w : World E)
      → admitted values.version ≡ true
      → Sound w
      → Sound (put snmp site now s values w).1
  unfolding put
  put-Sound now s values w a h = elim (Bool-cases (site.has_row s)) [
    | inr n ↦ rw n h
    | inl y ↦
        let (v, version, known) = admitted-version values a in
        rw y (
          after_check-Sound now s values v w (input_check site.crypt site.is_hex values) version
            (input_check-configured site.crypt good site.is_hex values v version known) h)
  ]

  delete_found-Sound :
      (s : ℕ) (w : World E) (brief : Option Brief)
      → Sound w
      → Sound (delete_found snmp site s w brief).1
  delete_found-Sound s w none h = h
  delete_found-Sound s w (some b) h =
      every-alert_source_delete (configured site.crypt) s w.sources h

  after_save-Sound :
      (s : ℕ) (w : World E) (r : Result AlertSource × List AlertSource)
      → every (configured site.crypt) r.1 ≡ true
      → Sound w
      → Sound (after_save site s w r)
  after_save-Sound s w (err e, rows) r h = h
  after_save-Sound s w (ok row, rows) r h = r

  after_connectivity-Sound :
      (config : AlertSource) (w : World E) (seen : AlertSource) (failed : Bool)
      → Sound (save_engine_id site seen w)
      → Sound w
      → Sound (after_connectivity site config w seen failed)
  after_connectivity-Sound config w seen true saved h = h
  after_connectivity-Sound config w seen false saved h =
      elim (Bool-cases (not (given (config.value engine_id)) && given (seen.value engine_id))) [
        | inl y ↦ rw y saved
        | inr n ↦ rw n h
      ]

  validate-Sound :
      (answer : Answer) (config : AlertSource) (w : World E)
      → Sound w
      → Sound (validate site answer config w).1
  unfolding validate
  validate-Sound answer config w h =
      let (seen, failed) = validate_connectivity site.snmp_validation_enabled answer config in
      let values = engine_values (seen.value engine_id) in
      let saved : Sound (save_engine_id site seen w) =
        after_save-Sound seen.storage_id w (alert_source_update seen.storage_id values w.sources)
          (every-alert_source_update (configured site.crypt) seen.storage_id values w.sources
            (engine_values-configured site.crypt (seen.value engine_id)) h)
          h in
      after_connectivity-Sound config w seen failed saved h

  add_new-Sound :
      (answer : Answer) (config : Option AlertSource) (w : World E)
      → Sound w
      → Sound (add_new snmp site answer config w)
  add_new-Sound answer none w h = h
  add_new-Sound answer (some config) w h =
      let (seen, w') = validate site answer config w in
      added-sources w' (add_snmp_config snmp site seen w'.engine) (validate-Sound answer config w h)
    where
      added-sources : (w : World E) (r : Result E) → Sound w → Sound (added snmp site w r)
      added-sources w (err e) h = h
      added-sources w (ok e) h = h

  after_delete-Sound :
      (answer : Answer) (config : Option AlertSource) (w : World E) (r : Result E)
      → Sound w
      → Sound (after_delete snmp site answer config w r)
  after_delete-Sound answer config w (err e) h = h
  after_delete-Sound answer config w (ok e) h =
      add_new-Sound answer config (record w { engine = e }) h

  step-Sound : (e : Event) (w : World E) → conforms e ≡ true → Sound w → Sound (step snmp site e w)
  unfolding delete sync_snmp_config
  step-Sound (put_source now s values) w c h = put-Sound now s values w c h
  step-Sound (delete_source s) w c h = delete_found-Sound s w (get_snmp_config_brief s w.sources) h
  step-Sound (next_message answer) w c h = at w.messages
    where
      at : (ms : List Message) → Sound (handle_next snmp site answer ms w)
      at [] = h
      at (m ∷ ms) =
          after_delete-Sound answer m.to_add (record w { messages = ms })
            (delete_old snmp site m.to_del w.engine) h
  step-Sound (check_snmp_config answer config) w c h = validate-Sound answer config w h
  step-Sound (remove_storage s) w c h =
      every-alert_source_delete (configured site.crypt) s w.sources h

  -- After any requests that conform to the schema, messages, checks and removals of storages, each row of the
  -- table has the
  -- columns of its version: a community that can be decoded and nothing of an SNMPv3 user but an engine
  -- id, or a user name, a security level and exactly the secrets that this level has, which can be
  -- decoded, and no community.
  pub steps-configured :
      (es : List Event) (w : World E)
      → all_conform es ≡ true
      → every (configured site.crypt) w.sources ≡ true
      → every (configured site.crypt) (steps snmp site es w).sources ≡ true
  steps-configured [] w c h = h
  steps-configured (e ∷ es) w c h =
      steps-configured es (step snmp site e w) (ground arith) (step-Sound e w (ground arith) h)
