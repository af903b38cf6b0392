-- ===== src/Alerts/Communities.antt =====
-- The communities of the SNMP versions 1 and 2c by storage: in the table of delfin/db/sqlalchemy/
-- api.py, and what a message to the receiver of delfin/alert_manager/trap_receiver.py changes.
use delfin.Prelude.{
  ℕ, ◌≡◌, refl, Bool, true, false, not, ◌&&◌, Option, none, some, List, [], ◌∷◌, ◌++◌, map, filter,
  elem, ◌==◌, ==→eq, if◌then◌else◌, arith, Bool-cases, ◌⊎◌, inl, inr,
}
use delfin.Errors.{Result, ok, err, alert_source_not_found}
use delfin.Alerts.Source.{
  Version, snmpv1, snmpv2c, snmpv3, unknown_version, community_string, AlertSource, has_storage,
  first_source,
}
use delfin.Alerts.Config.{Cryptor, Brief}
use delfin.Alerts.Receiver.{Message, decoded}
use delfin.Alerts.Every.{every}

abbrev pub Communities : Type 0
Communities = ℕ → Option ℕ

abbrev pub has_community : Version → Bool
has_community snmpv1 = true
has_community snmpv2c = true
has_community snmpv3 = false
has_community unknown_version = false

abbrev pub text_of : Result ℕ → Option ℕ
text_of (ok t) = some t
text_of (err e) = none

-- The community of a row in plain text.
abbrev pub community_of : Cryptor → AlertSource → Option ℕ
community_of crypt row =
    if has_community row.version then text_of (decoded crypt (row.value community_string)) else none

abbrev pub table_of : Cryptor → List AlertSource → Communities
table_of crypt [] s = none
table_of crypt (row ∷ rows) s =
    if has_storage s row then community_of crypt row else table_of crypt rows s

abbrev pub without_old : Option Brief → Communities → Communities
without_old none t s = t s
without_old (some b) t s = if has_community b.version && (b.storage_id == s) then none else t s

abbrev pub with_new : Cryptor → Option AlertSource → Communities → Communities
with_new crypt none t s = t s
with_new crypt (some row) t s =
    if has_community row.version && (row.storage_id == s) then community_of crypt row else t s

abbrev pub after_message : Cryptor → Message → Communities → Communities
after_message crypt m t = with_new crypt m.to_add (without_old m.to_del t)

abbrev pub after_messages : Cryptor → List Message → Communities → Communities
after_messages crypt [] t = t
after_messages crypt (m ∷ ms) t = after_messages crypt ms (after_message crypt m t)

pub after_messages-append :
    (crypt : Cryptor) (ms : List Message) (m : Message) (t : Communities)
    → after_messages crypt (ms ++ m ∷ []) t ≡ after_message crypt m (after_messages crypt ms t)
after_messages-append crypt [] m t = refl
after_messages-append crypt (n ∷ ms) m t =
    after_messages-append crypt ms m (after_message crypt n t)

module _ (crypt : Cryptor) where
  pub table_of-map :
      (f : AlertSource → AlertSource) (rows : List AlertSource) (s : ℕ)
      → ((row : AlertSource)
          → ((f row).storage_id ≡ row.storage_id)
            × (community_of crypt (f row) ≡ community_of crypt row))
      → table_of crypt (map f rows) s ≡ table_of crypt rows s
  table_of-map f [] s same = refl
  table_of-map f (row ∷ rows) s same =
      rw ((same row).0, (same row).1, table_of-map f rows s same) refl

  pub table_of-update :
      (c : Option ℕ) (s : ℕ) (f : AlertSource → AlertSource) (rows : List AlertSource) (t : ℕ)
      → ((row : AlertSource)
          → ((f row).storage_id ≡ row.storage_id) × (community_of crypt (f row) ≡ c))
      → table_of crypt (map (λ r. if has_storage s r then f r else r) rows) t
        ≡ (if s == t && elem s (map (λ row. row.storage_id) rows) then c else table_of crypt rows t)
  table_of-update c s f [] t same = ground arith
  table_of-update c s f (row ∷ rows) t same =
      let rest = table_of-update c s f rows t same in
      let (kept, is) = same row in
      elim (Bool-cases (has_storage s row)) [
        | inl y ↦ rw (y, kept, is, rest) (ground arith)
        | inr n ↦ rw (n, rest) (ground arith)
      ]

  pub table_of-create :
      (rows : List AlertSource) (row : AlertSource) (t : ℕ)
      → elem row.storage_id (map (λ row. row.storage_id) rows) ≡ false
      → table_of crypt (rows ++ row ∷ []) t
        ≡ (if row.storage_id == t then community_of crypt row else table_of crypt rows t)
  table_of-create [] row t new = ground arith
  table_of-create (x ∷ rows) row t new =
      let rest = table_of-create rows row t (ground arith) in ground (arith, rest)

  pub table_of-delete :
      (s : ℕ) (rows : List AlertSource) (t : ℕ)
      → table_of crypt (filter (λ r. not (has_storage s r)) rows) t
        ≡ (if s == t then none else table_of crypt rows t)
  table_of-delete s [] t = ground arith
  table_of-delete s (row ∷ rows) t =
      let rest = table_of-delete s rows t in
      elim (Bool-cases (has_storage s row)) [
        | inl y ↦ rw (y, rest) (ground arith)
        | inr n ↦ rw (n, rest) (ground arith)
      ]

  -- The row that is found for a storage, and the community of the storage.
  pub first_source-table :
      (s : ℕ) (rows : List AlertSource)
      → ((row : AlertSource) × (first_source (filter (has_storage s) rows) ≡ ok row)
          × (row.storage_id ≡ s)
          × (table_of crypt rows s ≡ community_of crypt row)
          × (elem s (map (λ row. row.storage_id) rows) ≡ true)
          × ((p : AlertSource → Bool) → every p rows ≡ true → p row ≡ true))
        ⊎ ((first_source (filter (has_storage s) rows) ≡ err alert_source_not_found)
            × (table_of crypt rows s ≡ none)
            × (elem s (map (λ row. row.storage_id) rows) ≡ false))
  first_source-table s [] = inr (refl, refl, refl)
  first_source-table s (row ∷ rows) = elim (Bool-cases (has_storage s row)) [
    | inl y ↦
        let is : row.storage_id ≡ s = ==→eq row.storage_id s y in
        inl (row, rw y refl, is, rw y refl, ground arith, λ p h. ground arith)
    | inr n ↦ elim (first_source-table s rows) [
      | inl (found, e, is, t, here, all) ↦
          inl (found, rw n e, is, rw n t, ground arith, λ p h. all p (ground arith))
      | inr (e, t, away) ↦ inr (rw n e, rw n t, ground arith)
    ]
  ]
