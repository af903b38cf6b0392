-- ===== src/Alerts/Tracking.antt =====
-- The communities of the receiver of delfin/alert_manager/trap_receiver.py against the table that
-- delfin/api/v1/alert_source.py writes.
use delfin.Prelude.{
  ℕ, ◌≡◌, refl, sym, ap, ap₂, subst, fun_ext, ◌∙◌, true, Option, none, some, List, [], ◌∷◌, ◌++◌,
}
use delfin.Errors.{Result, ok, err}
use delfin.Alerts.Source.{AlertSource}
use delfin.Alerts.Config.{Cryptor, Brief, is_configured}
use delfin.Alerts.Receiver.{
  SnmpEngine, Site, Message, World, Answer, validate, validate_connectivity, add_snmp_config,
}
use delfin.Alerts.Service.{added, add_new, after_delete, sync_snmp_config, send}
use delfin.Alerts.Every.{every, configured}
use delfin.Alerts.Communities.{
  Communities, table_of, without_old, with_new, after_message, after_messages,
  after_messages-append,
}
use delfin.Alerts.Syncing.{
  IsSnmpEngine, GoodBrief, communities, delete_old-communities, engine_after,
  add_snmp_config-communities,
}
use delfin.Alerts.Checked.{
  is_hex_answer, IsSeen, validate_connectivity-IsSeen, sound, validate-Keeps,
}

-- A message that the receiver can handle in full.
abbrev pub GoodConfig : Cryptor → Option AlertSource → Type 0
GoodConfig crypt none = Unit
GoodConfig crypt (some row) = configured crypt row ≡ true

abbrev pub GoodMessage : Site → Message → Communities → Type 0
GoodMessage site m t = GoodBrief site.is_hex m.to_del t × GoodConfig site.crypt m.to_add

abbrev pub GoodMessages : Site → List Message → Communities → Type 0
GoodMessages site [] t = Unit
GoodMessages site (m ∷ ms) t =
    GoodMessage site m t × GoodMessages site ms (after_message site.crypt m t)

GoodMessages-append :
    (site : Site) (ms : List Message) (m : Message) (t : Communities)
    → GoodMessages site ms t
    → GoodMessage site m (after_messages site.crypt ms t)
    → GoodMessages site (ms ++ m ∷ []) t
GoodMessages-append site [] m t good last = (last, tt)
GoodMessages-append site (n ∷ ms) m t (first, good) last =
    (first, GoodMessages-append site ms m (after_message site.crypt n t) good last)

-- When the messages that wait have been handled, the engine has the communities of the table.
pub record Tracks {E : Type 0} (snmp : SnmpEngine E) (site : Site) (w : World E) : Type 0 where
  pub rows_are : every (sound site.crypt site.is_hex) w.sources ≡ true
  pub pending :
      after_messages site.crypt w.messages (communities snmp site w.engine)
      ≡ table_of site.crypt w.sources
  pub good : GoodMessages site w.messages (communities snmp site w.engine)

module _ {E : Type 0} (snmp : SnmpEngine E) (laws : IsSnmpEngine snmp) (site : Site)
    (apart : (s t : ℕ) → site.without_dashes s ≡ site.without_dashes t → s ≡ t) where
  added-rest :
      (w : World E) (r : Result E)
      → ((added snmp site w r).engine ≡ engine_after w.engine r)
        × ((added snmp site w r).messages ≡ w.messages)
        × ((added snmp site w r).sources ≡ w.sources)
  added-rest w (ok e) = (refl, refl, refl)
  added-rest w (err x) = (refl, refl, refl)

  -- What handling a configuration to add does to the world.
  record Adds (config : Option AlertSource) (w w' : World E) : Type 0 where
    communities_are :
        communities snmp site w'.engine
        ≡ with_new site.crypt config (communities snmp site w.engine)
    messages_are : w'.messages ≡ w.messages
    table_is : table_of site.crypt w'.sources ≡ table_of site.crypt w.sources
    rows_stay : every (sound site.crypt site.is_hex) w'.sources ≡ true

  seen-with_new :
      (config seen : AlertSource)
      → IsSeen site.crypt site.is_hex config seen
      → (t : Communities) → with_new site.crypt (some seen) t ≡ with_new site.crypt (some config) t
  seen-with_new config seen is t =
      fun_ext (λ s. rw (is.version_is, is.storage_id_is, is.community_is) refl)

  add_new-Adds :
      (answer : Answer) (config : Option AlertSource) (w : World E)
      → is_hex_answer site.is_hex answer ≡ true
      → GoodConfig site.crypt config
      → every (sound site.crypt site.is_hex) w.sources ≡ true
      → Adds config w (add_new snmp site answer config w)
  unfolding validate
  add_new-Adds answer none w a good h = record {
    communities_are = refl;
    messages_are = refl;
    table_is = refl;
    rows_stay = h;
  }
  add_new-Adds answer (some config) w a good h =
      let seen = (validate_connectivity site.snmp_validation_enabled answer config).0 in
      let is =
        validate_connectivity-IsSeen site.crypt site.is_hex site.snmp_validation_enabled answer
          config a in
      let w' = (validate site answer config w).1 in
      let kept = validate-Keeps site answer config w a h in
      let result = add_snmp_config snmp site seen w'.engine in
      let (e, ms, rows) = added-rest w' result in
      let same : configured site.crypt seen ≡ true =
        ap (λ v. is_configured site.crypt v seen.value) is.version_is
        ∙ is.configured_is config.version
        ∙ good in
      record {
        communities_are =
            ap (communities snmp site) e
            ∙ add_snmp_config-communities snmp laws site apart seen w'.engine same
            ∙ seen-with_new config seen is (communities snmp site w'.engine)
            ∙ ap (λ x. with_new site.crypt (some config) (communities snmp site x)) kept.engine_is;
        messages_are = ms ∙ kept.messages_are;
        table_is = ap (table_of site.crypt) rows ∙ kept.table_is;
        rows_stay = ap (every (sound site.crypt site.is_hex)) rows ∙ kept.rows_are;
      }

  pub sync_snmp_config-Tracks :
      (answer : Answer) (m : Message) (ms : List Message) (w : World E)
      → is_hex_answer site.is_hex answer ≡ true
      → w.messages ≡ m ∷ ms
      → Tracks snmp site w
      → Tracks snmp site (sync_snmp_config snmp site answer m (record w { messages = ms }))
  unfolding sync_snmp_config
  sync_snmp_config-Tracks answer m ms w a is tracks =
      let t = communities snmp site w.engine in
      let (first, later) = subst (λ l. GoodMessages site l t) is tracks.good in
      let (e', gone, deleted) =
        delete_old-communities snmp laws site apart m.to_del w.engine first.0 in
      let w' : World E = record w { messages = ms; engine = e' } in
      let adds = add_new-Adds answer m.to_add w' a first.1 tracks.rows_are in
      let now : communities snmp site (add_new snmp site answer m.to_add w').engine
          ≡ after_message site.crypt m t =
        adds.communities_are ∙ ap (with_new site.crypt m.to_add) deleted in
      subst
        (λ r.
          Tracks snmp site (after_delete snmp site answer m.to_add (record w { messages = ms }) r))
        (sym gone)
        (record {
          rows_are = adds.rows_stay;
          pending =
              ap₂ (after_messages site.crypt) adds.messages_are now
              ∙ sym (ap (λ l. after_messages site.crypt l t) is)
              ∙ tracks.pending
              ∙ sym adds.table_is;
          good =
              subst
                (λ l.
                  GoodMessages site l
                    (communities snmp site (add_new snmp site answer m.to_add w').engine))
                (sym adds.messages_are) (subst (GoodMessages site ms) (sym now) later);
        })

  pub send-Tracks :
      (w : World E) (rows : List AlertSource) (brief : Option Brief) (config : Option AlertSource)
      → Tracks snmp site w
      → GoodBrief site.is_hex brief (table_of site.crypt w.sources)
      → GoodConfig site.crypt config
      → every (sound site.crypt site.is_hex) rows ≡ true
      → with_new site.crypt config (without_old brief (table_of site.crypt w.sources))
        ≡ table_of site.crypt rows
      → Tracks snmp site (record (send snmp site brief config w) { sources = rows })
  send-Tracks w rows brief config tracks b c h is =
      let m : Message = record { to_del = brief; to_add = config } in
      record {
        rows_are = h;
        pending =
            after_messages-append site.crypt w.messages m (communities snmp site w.engine)
            ∙ ap (after_message site.crypt m) tracks.pending
            ∙ is;
        good =
            GoodMessages-append site w.messages m (communities snmp site w.engine) tracks.good
              (subst (GoodMessage site m) (sym tracks.pending) (b, c));
      }
