-- ===== src/Alerts/InStep.antt =====
-- The API of delfin/api/v1/alert_source.py and the receiver of delfin/alert_manager/trap_receiver.py
-- together: the communities that the SNMP engine accepts.
use delfin.Prelude.{
  ℕ, ◌≡◌, refl, sym, ap, ap₂, subst, fun_ext, ◌∙◌, Bool, true, false, ◌&&◌, Option, none, some,
  List, [], ◌∷◌, arith, Bool-cases, inl, inr, ◌==◌, if◌then◌else◌,
}
use delfin.Errors.{Result, ok, err}
use delfin.Alerts.Source.{
  Version, engine_id, AlertSource, Values, get, alert_source_create, alert_source_update,
  alert_source_delete,
}
use delfin.Alerts.Config.{IsCryptor, Brief, input_check, is_known_version, is_configured}
use delfin.Alerts.Configured.{Accepts, Gives, input_check-configured}
use delfin.Alerts.Receiver.{SnmpEngine, Site, Message, World, validate}
use delfin.Alerts.Validator.{new_validator}
use delfin.Alerts.Service.{
  Event, put_source, delete_source, next_message, check_snmp_config, remove_storage, store_source,
  after_store, after_check, delete_found, handle_next, put, delete, step, steps,
}
use delfin.Alerts.Hex.{is_octets, input_check-engine}
use delfin.Alerts.Stored.{admitted}
use delfin.Alerts.Every.{every-alert_source_delete}
use delfin.Alerts.Communities.{table_of, without_old, after_messages, table_of-delete}
use delfin.Alerts.Syncing.{IsSnmpEngine, communities}
use delfin.Alerts.Checked.{is_hex_answer, sound, Keeps, validate-Keeps}
use delfin.Alerts.Tracking.{Tracks, GoodMessages, send-Tracks, sync_snmp_config-Tracks}
use delfin.Alerts.Tracked.{Stored, Checked, update-Stored, create-Stored}
use delfin.Alerts.Found.{Found, found_brief, with_new-row, delete-rows, table_of-deleted}

-- A request that conforms to the schema, or an answer with an engine id in hexadecimal octets; the
-- removal of a storage is none of these.
abbrev pub fine : Site → Event → Bool
fine site (put_source now s values) = admitted values.version
fine site (delete_source s) = true
fine site (next_message answer) = is_hex_answer site.is_hex answer
fine site (check_snmp_config answer config) = is_hex_answer site.is_hex answer
fine site (remove_storage s) = false

abbrev pub all_fine : Site → List Event → Bool
all_fine site [] = true
all_fine site (e ∷ es) = fine site e && all_fine site es

admitted-version :
    (o : Option Version)
    → admitted o ≡ true
    → (v : Version) × (o ≡ some v) × (is_known_version v ≡ true)
admitted-version none a = ground arith
admitted-version (some v) a = (v, refl, a)

-- No alert sources, and an engine without communities.
abbrev pub starting : {E : Type 0} → E → World E
starting e = record { engine = e; sources = []; validator = new_validator; messages = [] }

module _ {E : Type 0} (snmp : SnmpEngine E) (laws : IsSnmpEngine snmp) (site : Site)
    (good : IsCryptor site.crypt)
    (apart : (s t : ℕ) → site.without_dashes s ≡ site.without_dashes t → s ≡ t) where
  after_store-Tracks :
      (s : ℕ) (w : World E) (brief : Option Brief) (r : Result AlertSource × List AlertSource)
      → Tracks snmp site w
      → Found site s w.sources brief
      → Stored site s w.sources r
      → Tracks snmp site (after_store snmp site brief r.0 (record w { sources = r.1 })).1
  after_store-Tracks s w brief r tracks found new =
      subst (λ x. Tracks snmp site (after_store snmp site brief x (record w { sources = r.1 })).1)
        (sym new.stored)
        (send-Tracks snmp laws site apart w r.1 brief (some new.row) tracks found.brief_good
          new.row_good new.rows_good
          (fun_ext (λ t.
            with_new-row site.crypt s new.row (table_of site.crypt w.sources)
              (without_old brief (table_of site.crypt w.sources)) new.storage_id_is found.old_is t
            ∙ sym (new.table_is t))))

  after_check-Tracks :
      (now s : ℕ) (v : Version) (values : Values) (w : World E) (r : Result Values)
      → values.version ≡ some v
      → Accepts (Gives values λ f. is_configured site.crypt v f) r
      → Accepts (λ checked. is_octets site.is_hex (get checked engine_id) ≡ true) r
      → Tracks snmp site w
      → Tracks snmp site (after_check snmp site now s w r).1
  after_check-Tracks now s v values w (err e) version a o tracks = tracks
  after_check-Tracks now s v values w (ok checked) version (same, columns) o tracks =
      let is : Checked site v checked = record {
        version_is = same ∙ version;
        columns = columns;
        octets_are = o;
      } in
      let run : Option Brief → World E = λ brief.
        let r = store_source brief now s checked w.sources in
        (after_store snmp site brief r.0 (record w { sources = r.1 })).1 in
      elim (found_brief site s w.sources tracks.rows_are) [
        | inl (b, row, e, found, first, here) ↦
            subst (λ x. Tracks snmp site (run x)) (sym e)
              (after_store-Tracks s w (some b) (alert_source_update s checked w.sources) tracks
                found (update-Stored site v checked is s w.sources row tracks.rows_are here first))
        | inr (e, found, away) ↦
            subst (λ x. Tracks snmp site (run x)) (sym e)
              (after_store-Tracks s w none (alert_source_create now s checked w.sources) tracks
                found (create-Stored site v checked is now s w.sources tracks.rows_are away))
      ]

  delete-Tracks :
      (s : ℕ) (w : World E) → Tracks snmp site w → Tracks snmp site (delete snmp site s w).1
  unfolding delete
  delete-Tracks s w tracks = elim (found_brief site s w.sources tracks.rows_are) [
    | inr (e, found, away) ↦
        subst (λ x. Tracks snmp site (delete_found snmp site s w x).1) (sym e) tracks
    | inl (b, row, e, found, first, here) ↦
        subst (λ x. Tracks snmp site (delete_found snmp site s w x).1) (sym e)
          (send-Tracks snmp laws site apart w (alert_source_delete s w.sources).1 (some b) none
            tracks found.brief_good tt
            (every-alert_source_delete (sound site.crypt site.is_hex) s w.sources tracks.rows_are)
            (fun_ext (λ t.
              found.old_is t
              ∙ sym (table_of-delete site.crypt s w.sources t)
              ∙ sym (ap (λ rows. table_of site.crypt rows t) (delete-rows s w.sources row first)))))
  ]

  Keeps-Tracks : (w w' : World E) → Keeps site w w' → Tracks snmp site w → Tracks snmp site w'
  Keeps-Tracks w w' kept tracks =
      let same : communities snmp site w'.engine ≡ communities snmp site w.engine =
        ap (communities snmp site) kept.engine_is in
      record {
        rows_are = kept.rows_are;
        pending =
            ap₂ (after_messages site.crypt) kept.messages_are same
            ∙ tracks.pending
            ∙ sym kept.table_is;
        good =
            subst (λ ms. GoodMessages site ms (communities snmp site w'.engine))
              (sym kept.messages_are) (subst (GoodMessages site w.messages) (sym same) tracks.good);
      }

  put-Tracks :
      (now s : ℕ) (values : Values) (w : World E)
      → admitted values.version ≡ true
      → Tracks snmp site w
      → Tracks snmp site (put snmp site now s values w).1
  unfolding put
  put-Tracks now s values w a tracks = elim (Bool-cases (site.has_row s)) [
    | inr n ↦ rw n tracks
    | inl y ↦
        let (v, version, known) = admitted-version values.version a in
        rw y (
          after_check-Tracks now s v values w (input_check site.crypt site.is_hex values) version
            (input_check-configured site.crypt good site.is_hex values v version known)
            (input_check-engine site.crypt site.is_hex values) tracks)
  ]

  step-Tracks :
      (e : Event) (w : World E)
      → fine site e ≡ true
      → Tracks snmp site w
      → Tracks snmp site (step snmp site e w)
  step-Tracks (put_source now s values) w f tracks = put-Tracks now s values w f tracks
  step-Tracks (delete_source s) w f tracks = delete-Tracks s w tracks
  step-Tracks (check_snmp_config answer config) w f tracks =
      Keeps-Tracks w (validate site answer config w).1
        (validate-Keeps site answer config w f tracks.rows_are) tracks
  step-Tracks (remove_storage s) w f tracks = absurd (ground arith)
  step-Tracks (next_message answer) w f tracks = at w.messages refl
    where
      at :
          (ms : List Message)
          → w.messages ≡ ms
          → Tracks snmp site (handle_next snmp site answer ms w)
      at [] is = tracks
      at (m ∷ ms) is = sync_snmp_config-Tracks snmp laws site apart answer m ms w f is tracks

  steps-Tracks :
      (es : List Event) (w : World E)
      → all_fine site es ≡ true
      → Tracks snmp site w
      → Tracks snmp site (steps snmp site es w)
  steps-Tracks [] w f tracks = tracks
  steps-Tracks (e ∷ es) w f tracks =
      steps-Tracks es (step snmp site e w) (ground arith) (step-Tracks e w (ground arith) tracks)

-- With an SNMP engine that keeps its communities by index, storage ids that stay apart without their
-- dashes and a cryptor that decodes what it encodes: after any requests that conform to the schema,
-- messages and checks, in any order, but no removal of a storage, the communities that the engine
-- accepts, once the messages that wait have been handled, are exactly the decoded communities of the
-- SNMPv1 and SNMPv2c sources in the table; with no messages waiting they are so already. The removal
-- of a storage then takes its source from the table, while the communities that the engine accepts are
-- still those from before it.
pub steps-communities :
    {E : Type 0} (snmp : SnmpEngine E) (site : Site) (es : List Event) (empty : E)
    → IsSnmpEngine snmp
    → IsCryptor site.crypt
    → ((s t : ℕ) → site.without_dashes s ≡ site.without_dashes t → s ≡ t)
    → all_fine site es ≡ true
    → ((s : ℕ) → communities snmp site empty s ≡ none)
    → let w = steps snmp site es (starting empty) in
      ((s : ℕ)
        → after_messages site.crypt w.messages (communities snmp site w.engine) s
          ≡ table_of site.crypt w.sources s)
      × (w.messages ≡ []
          → (s : ℕ) → communities snmp site w.engine s ≡ table_of site.crypt w.sources s)
      × ((r s : ℕ)
          → let removed = step snmp site (remove_storage r) w in
            (after_messages site.crypt removed.messages (communities snmp site removed.engine) s
              ≡ table_of site.crypt w.sources s)
            × (table_of site.crypt removed.sources s
                ≡ (if r == s then none else table_of site.crypt w.sources s)))
steps-communities snmp site es empty laws good apart f none_yet =
    let w = steps snmp site es (starting empty) in
    let start : Tracks snmp site (starting empty) = record {
      rows_are = refl;
      pending = fun_ext none_yet;
      good = tt;
    } in
    let done = steps-Tracks snmp laws site good apart es (starting empty) f start in
    (
      λ s. ap (λ t. t s) done.pending,
      λ h s.
          sym (ap (λ ms. after_messages site.crypt ms (communities snmp site w.engine) s) h)
          ∙ ap (λ t. t s) done.pending,
      λ r s. (ap (λ t. t s) done.pending, table_of-deleted site.crypt r w.sources s),
    )
