-- ===== src/Alerts/Tracked.antt =====
-- The requests of delfin/api/v1/alert_source.py keep the receiver of delfin/alert_manager/
-- trap_receiver.py in step with the table.
use delfin.Prelude.{
  ℕ, ◌≡◌, refl, sym, ap, subst, ◌∙◌, true, false, Option, none, some, List, [], ◌∷◌, map, filter,
  elem, ◌==◌, ==_refl, if◌then◌else◌, arith, Bool-cases, inl, inr,
}
use delfin.Errors.{Result, ok, err}
use delfin.Alerts.Source.{
  Version, snmpv1, snmpv2c, snmpv3, unknown_version, Key, community_string, engine_id, AlertSource,
  Values, get, has_storage, alert_source_get, alert_source_create, alert_source_update,
  update_source, updated_version, updated_value, new_source, first_source,
}
use delfin.Alerts.Config.{is_configured, readable}
use delfin.Alerts.Configured.{Follows, sets, update_source-Follows}
use delfin.Alerts.Receiver.{Site, decoded}
use delfin.Alerts.Hex.{is_octets, update_source-octets}
use delfin.Alerts.Stored.{updated-configured, new-configured}
use delfin.Alerts.Every.{every, configured, every-append, every-update}
use delfin.Alerts.Communities.{
  has_community, text_of, community_of, table_of, table_of-update, table_of-create,
  first_source-table,
}
use delfin.Alerts.Checked.{sound}

-- What a request stores: the row that it sends to the receiver, and the table.
pub record Stored (site : Site) (s : ℕ) (rows : List AlertSource)
    (r : Result AlertSource × List AlertSource) : Type 0 where
  pub row : AlertSource
  pub stored : r.0 ≡ ok row
  pub storage_id_is : row.storage_id ≡ s
  pub row_good : configured site.crypt row ≡ true
  pub rows_good : every (sound site.crypt site.is_hex) r.1 ≡ true
  pub table_is :
      (t : ℕ)
      → table_of site.crypt r.1 t
        ≡ (if s == t then community_of site.crypt row else table_of site.crypt rows t)

-- A dict that a check lets through.
pub record Checked (site : Site) (v : Version) (values : Values) : Type 0 where
  pub version_is : values.version ≡ some v
  pub columns : (f : Key → Option ℕ) → Follows f values → is_configured site.crypt v f ≡ true
  pub octets_are : is_octets site.is_hex (get values engine_id) ≡ true

-- The community stands in the dict itself.
community-sets :
    (site : Site) (v : Version) (values : Values)
    → Checked site v values
    → has_community v ≡ true
    → sets values community_string ≡ true
community-sets site v values c h = elim (Bool-cases (sets values community_string)) [
  | inl y ↦ y
  | inr n ↦
      let f : Key → Option ℕ = λ k. if sets values k then get values k else none in
      let configured_f = c.columns f (λ k y. rw y refl) in
      let unset : f community_string ≡ none = rw n refl in
      absurd v (f community_string) unset h (at v configured_f h)
]
  where
    at :
        (v : Version)
        → is_configured site.crypt v (λ k. if sets values k then get values k else none) ≡ true
        → has_community v ≡ true
        → readable site.crypt
            (if sets values community_string then get values community_string else none)
          ≡ true
    at snmpv1 g h = ground arith
    at snmpv2c g h = ground arith
    at snmpv3 g h = ground arith
    at unknown_version g h = ground arith

    absurd :
        (v : Version) (x : Option ℕ)
        → x ≡ none
        → has_community v ≡ true
        → readable site.crypt x ≡ true
        → sets values community_string ≡ true
    absurd v none e h r = ground arith
    absurd v (some n) e h r = ground arith

module _ (site : Site) (v : Version) (values : Values) (checked : Checked site v values) where
  abbrev new_community : Option ℕ
  new_community =
      if has_community v then text_of (decoded site.crypt (get values community_string)) else none

  update-community :
      (row : AlertSource) → community_of site.crypt (update_source values row) ≡ new_community
  update-community row =
      ap
        (λ o.
          if has_community (updated_version o row.version)
          then text_of (
              decoded site.crypt
                (updated_value (values.value community_string) (row.value community_string)))
          else none)
        checked.version_is
      ∙ elim (Bool-cases (has_community v)) [
        | inl y ↦ rw y (
            ap (λ x. text_of (decoded site.crypt x))
              (update_source-Follows values row community_string
                (community-sets site v values checked y)))
        | inr n ↦ rw n refl
      ]

  ids-update :
      (s : ℕ) (rows : List AlertSource)
      → elem s (
          map
            (λ row. row.storage_id)
            (map (λ r. if has_storage s r then update_source values r else r) rows))
        ≡ elem s (map (λ row. row.storage_id) rows)
  ids-update s [] = refl
  ids-update s (row ∷ rows) =
      let rest = ids-update s rows in
      elim (Bool-cases (has_storage s row)) [
        | inl y ↦ rw y (ground (arith, rest))
        | inr n ↦ rw n (ground (arith, rest))
      ]

  update-sound :
      (row : AlertSource)
      → sound site.crypt site.is_hex row ≡ true
      → sound site.crypt site.is_hex (update_source values row) ≡ true
  update-sound row h =
      let a = updated-configured site.crypt v values row checked.version_is checked.columns in
      let b = update_source-octets site.is_hex values row checked.octets_are (ground arith) in
      ground arith

  abbrev updated : ℕ → List AlertSource → List AlertSource
  updated s = map λ r. if has_storage s r then update_source values r else r

  updated-table :
      (s : ℕ) (rows : List AlertSource) (t : ℕ)
      → elem s (map (λ row. row.storage_id) rows) ≡ true
      → table_of site.crypt (updated s rows) t
        ≡ (if s == t then new_community else table_of site.crypt rows t)
  updated-table s rows t here =
      table_of-update site.crypt new_community s (update_source values) rows t
        (λ row. (refl, update-community row))
      ∙ rw here (ground arith)

  updated-Stored :
      (s : ℕ) (rows : List AlertSource)
      → every (sound site.crypt site.is_hex) rows ≡ true
      → elem s (map (λ row. row.storage_id) rows) ≡ true
      → Stored site s rows (alert_source_get s (updated s rows), updated s rows)
  unfolding alert_source_get
  updated-Stored s rows h here = elim (first_source-table site.crypt s (updated s rows)) [
    | inr (e, t, away) ↦ let ids = ids-update s rows in ground arith
    | inl (row, e, is, t, there, all) ↦
        let good = every-update (sound site.crypt site.is_hex) s values rows update-sound h in
        let fits : sound site.crypt site.is_hex row ≡ true =
          all (sound site.crypt site.is_hex) good in
        let same : s == s ≡ true = ==_refl s in
        let new : community_of site.crypt row ≡ new_community =
          sym t ∙ updated-table s rows s here ∙ rw same refl in
        record {
          row = row;
          stored = e;
          storage_id_is = is;
          row_good = ground arith;
          rows_good = good;
          table_is = λ u. updated-table s rows u here ∙ rw new refl;
        }
  ]

  pub update-Stored :
      (s : ℕ) (rows : List AlertSource) (row : AlertSource)
      → every (sound site.crypt site.is_hex) rows ≡ true
      → elem s (map (λ row. row.storage_id) rows) ≡ true
      → first_source (filter (has_storage s) rows) ≡ ok row
      → Stored site s rows (alert_source_update s values rows)
  unfolding alert_source_update alert_source_get
  update-Stored s rows row h here e =
      subst
        (λ r. Stored site s rows (elim r as (λ _. Result AlertSource × List AlertSource) [
          | err x ↦ (err x, rows)
          | ok row ↦ (alert_source_get s (updated s rows), updated s rows)
        ]))
        (sym e) (updated-Stored s rows h here)

  pub create-Stored :
      (now s : ℕ) (rows : List AlertSource)
      → every (sound site.crypt site.is_hex) rows ≡ true
      → elem s (map (λ row. row.storage_id) rows) ≡ false
      → Stored site s rows (alert_source_create now s values rows)
  unfolding alert_source_create
  create-Stored now s rows h away =
      let fits = new-configured site.crypt now s v values checked.version_is checked.columns in
      let octets = checked.octets_are in
      rw away (record {
        row = new_source now s values;
        stored = refl;
        storage_id_is = refl;
        row_good = fits;
        rows_good =
            every-append (sound site.crypt site.is_hex) rows (new_source now s values) h
              (ground arith);
        table_is = λ t. table_of-create site.crypt rows (new_source now s values) t away;
      })
