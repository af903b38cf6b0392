-- ===== src/Alerts/Found.antt =====
-- The row that a request of delfin/api/v1/alert_source.py finds, and the message that it sends for it.
use delfin.Prelude.{
  ℕ, ◌≡◌, refl, sym, ap, ◌∙◌, true, false, not, Option, none, some, List, [], ◌∷◌, map, filter,
  elem, ◌==◌, ==→eq, if◌then◌else◌, arith, Bool-cases, ◌⊎◌, inl, inr,
}
use delfin.Errors.{Result, ok, err, alert_source_not_found}
use delfin.Alerts.Source.{
  Version, snmpv1, snmpv2c, snmpv3, unknown_version, community_string, engine_id, AlertSource,
  has_storage, alert_source_delete, first_source,
}
use delfin.Alerts.Config.{
  Cryptor, Brief, brief_of, brief_at, get_snmp_config_brief, is_configured, readable,
}
use delfin.Alerts.Receiver.{Site, decoded}
use delfin.Alerts.Hex.{is_octets}
use delfin.Alerts.Every.{every}
use delfin.Alerts.Communities.{
  Communities, has_community, text_of, community_of, table_of, without_old, with_new,
  first_source-table, table_of-delete,
}
use delfin.Alerts.Syncing.{GoodBrief}
use delfin.Alerts.Checked.{sound}

readable-text :
    (crypt : Cryptor) (v : Option ℕ)
    → readable crypt v ≡ true
    → (c : ℕ) × (text_of (decoded crypt v) ≡ some c)
readable-text crypt none h = ground arith
readable-text crypt (some x) h = at (crypt.decode x) h
  where
    at :
        (r : Result ℕ)
        → elim r [ ok t ↦ true | err e ↦ false ] ≡ true
        → (c : ℕ) × (text_of r ≡ some c)
    at (ok t) h = (t, refl)
    at (err e) h = ground arith

brief_at-good :
    (site : Site) (row : AlertSource) (t : Communities) (v : Version)
    → is_configured site.crypt v row.value ≡ true
    → is_octets site.is_hex (row.value engine_id) ≡ true
    → t row.storage_id ≡ (
        if has_community v then text_of (decoded site.crypt (row.value community_string)) else none)
    → GoodBrief site.is_hex (some (brief_at row v)) t
      × ((s : ℕ)
          → without_old (some (brief_at row v)) t s ≡ (if row.storage_id == s then none else t s))
brief_at-good site row t snmpv1 c o e =
    let (text, is) = readable-text site.crypt (row.value community_string) (ground arith) in
    ((refl, (λ _. (text, e ∙ is)), refl), λ s. refl)
brief_at-good site row t snmpv2c c o e =
    let (text, is) = readable-text site.crypt (row.value community_string) (ground arith) in
    ((refl, (λ _. (text, e ∙ is)), refl), λ s. refl)
brief_at-good site row t snmpv3 c o e = (
  (refl, (λ h. ground arith), o),
  λ s. elim (Bool-cases (row.storage_id == s)) [
    | inl y ↦ rw y (ap t (sym (==→eq row.storage_id s y)) ∙ e)
    | inr n ↦ rw n refl
  ],
)
brief_at-good site row t unknown_version c o e = ground arith

pub delete-rows :
    (s : ℕ) (rows : List AlertSource) (row : AlertSource)
    → first_source (filter (has_storage s) rows) ≡ ok row
    → (alert_source_delete s rows).1 ≡ filter (λ r. not (has_storage s r)) rows
unfolding alert_source_delete
delete-rows s rows row h = at (filter (has_storage s) rows) h
  where
    at :
        (found : List AlertSource)
        → first_source found ≡ ok row
        → (elim found as (λ x. Result (Unit {0}) × List AlertSource) [
          | [] ↦ (err alert_source_not_found, rows)
          | row ∷ more ↦ (ok tt, filter (λ r. not (has_storage s r)) rows)
        ]).1
          ≡ filter (λ r. not (has_storage s r)) rows
    at [] h = ground arith
    at (x ∷ xs) h = refl

unsourced-table :
    (crypt : Cryptor) (s : ℕ) (rows : List AlertSource)
    → filter (has_storage s) rows ≡ []
    → table_of crypt rows s ≡ none
unsourced-table crypt s [] h = refl
unsourced-table crypt s (row ∷ rows) h = elim (Bool-cases (has_storage s row)) [
  | inl y ↦ absurd (ground arith)
  | inr n ↦ rw n (unsourced-table crypt s rows (ground arith))
]

-- A deletion takes the community of its storage from the table, found or not.
pub table_of-deleted :
    (crypt : Cryptor) (s : ℕ) (rows : List AlertSource) (t : ℕ)
    → table_of crypt (alert_source_delete s rows).1 t
      ≡ (if s == t then none else table_of crypt rows t)
unfolding alert_source_delete
table_of-deleted crypt s rows t = at (filter (has_storage s) rows) refl
  where
    at :
        (found : List AlertSource)
        → filter (has_storage s) rows ≡ found
        → table_of crypt
            (elim found as (λ x. Result (Unit {0}) × List AlertSource) [
              | [] ↦ (err alert_source_not_found, rows)
              | row ∷ more ↦ (ok tt, filter (λ r. not (has_storage s r)) rows)
            ]).1
            t
          ≡ (if s == t then none else table_of crypt rows t)
    at [] h = elim (Bool-cases (s == t)) [
      | inl y ↦
          let same : s ≡ t = ==→eq s t y in
          rw y (ap (table_of crypt rows) (sym same) ∙ unsourced-table crypt s rows h)
      | inr n ↦ rw n refl
    ]
    at (x ∷ xs) h = table_of-delete crypt s rows t

-- The row that a request finds, as the message names it.
pub record Found (site : Site) (s : ℕ) (rows : List AlertSource) (brief : Option Brief)
    : Type 0 where
  pub brief_good : GoodBrief site.is_hex brief (table_of site.crypt rows)
  pub old_is :
      (t : ℕ)
      → without_old brief (table_of site.crypt rows) t
        ≡ (if s == t then none else table_of site.crypt rows t)

pub found_brief :
    (site : Site) (s : ℕ) (rows : List AlertSource)
    → every (sound site.crypt site.is_hex) rows ≡ true
    → ((b : Brief) × (row : AlertSource) × (get_snmp_config_brief s rows ≡ some b)
        × Found site s rows (some b)
        × (first_source (filter (has_storage s) rows) ≡ ok row)
        × (elem s (map (λ row. row.storage_id) rows) ≡ true))
      ⊎ ((get_snmp_config_brief s rows ≡ none)
          × Found site s rows none
          × (elem s (map (λ row. row.storage_id) rows) ≡ false))
unfolding get_snmp_config_brief
found_brief site s rows h = elim (first_source-table site.crypt s rows) [
  | inl (row, e, is, t, here, all) ↦
      let good : sound site.crypt site.is_hex row ≡ true = all (sound site.crypt site.is_hex) h in
      let (brief_good, old) =
        brief_at-good site row (table_of site.crypt rows) row.version (ground arith) (ground arith)
          (ap (table_of site.crypt rows) is ∙ t) in
      inl (
        brief_of row,
        row,
        rw (e, get_snmp_config_brief) refl,
        record { brief_good = brief_good; old_is = λ u. old u ∙ rw is refl },
        e,
        here,
      )
  | inr (e, t, away) ↦ inr (
    rw (e, get_snmp_config_brief) refl,
    record {
      brief_good = tt;
      old_is = λ u. elim (Bool-cases (s == u)) [
        | inl y ↦ rw y (ap (table_of site.crypt rows) (sym (==→eq s u y)) ∙ t)
        | inr n ↦ rw n refl
      ];
    },
    away,
  )
]

pub with_new-row :
    (crypt : Cryptor) (s : ℕ) (row : AlertSource) (t u : Communities)
    → row.storage_id ≡ s
    → ((x : ℕ) → u x ≡ (if s == x then none else t x))
    → (x : ℕ) → with_new crypt (some row) u x ≡ (if s == x then community_of crypt row else t x)
with_new-row crypt s row t u is old x =
    let e = old x in
    elim (Bool-cases (has_community row.version)) [
      | inl y ↦ rw (y, is) (ground (arith, e))
      | inr n ↦ rw n (ground (arith, e))
    ]
