-- ===== src/Alerts/Every.antt =====
-- What the writes of delfin/db/sqlalchemy/api.py on the table `alert_source` keep true of every row.
use delfin.Prelude.{
  ℕ, ◌≡◌, refl, Bool, true, not, ◌&&◌, List, [], ◌∷◌, ◌++◌, map, filter, elem, if◌then◌else◌, arith,
  Bool-cases, inl, inr,
}
use delfin.Errors.{Result, ok, err, alert_source_not_found}
use delfin.Alerts.Source.{
  AlertSource, Values, has_storage, alert_source_get, alert_source_create, alert_source_update,
  alert_source_delete, update_source, new_source,
}
use delfin.Alerts.Config.{Cryptor, is_configured}

abbrev pub every : (AlertSource → Bool) → List AlertSource → Bool
every p [] = true
every p (row ∷ rows) = p row && every p rows

-- The row has the columns of its version.
abbrev pub configured : Cryptor → AlertSource → Bool
configured crypt row = is_configured crypt row.version row.value

pub every-update :
    (p : AlertSource → Bool) (s : ℕ) (values : Values) (rows : List AlertSource)
    → ((row : AlertSource) → p row ≡ true → p (update_source values row) ≡ true)
    → every p rows ≡ true
    → every p (map (λ r. if has_storage s r then update_source values r else r) rows) ≡ true
every-update p s values [] keeps h = refl
every-update p s values (row ∷ rows) keeps h =
    let rest = every-update p s values rows keeps (ground arith) in
    elim (Bool-cases (has_storage s row)) [
      | inl y ↦ rw (y, keeps row (ground arith)) rest
      | inr n ↦ let here : p row ≡ true = ground arith in rw (n, here) rest
    ]

pub every-alert_source_update :
    (p : AlertSource → Bool) (s : ℕ) (values : Values) (rows : List AlertSource)
    → ((row : AlertSource) → p row ≡ true → p (update_source values row) ≡ true)
    → every p rows ≡ true
    → every p (alert_source_update s values rows).1 ≡ true
unfolding alert_source_update
every-alert_source_update p s values rows keeps h = at (alert_source_get s rows)
  where
    at :
        (r : Result AlertSource)
        → (every p
            (elim r as (λ x. Result AlertSource × List AlertSource) [
              | err e ↦ (err e, rows)
              | ok row ↦
                  let rows' =
                    map (λ r. if has_storage s r then update_source values r else r) rows in
                  (alert_source_get s rows', rows')
            ]).1)
          ≡ true
    at (err e) = h
    at (ok row) = every-update p s values rows keeps h

pub every-append :
    (p : AlertSource → Bool) (rows : List AlertSource) (row : AlertSource)
    → every p rows ≡ true
    → p row ≡ true
    → every p (rows ++ row ∷ []) ≡ true
every-append p [] row h r = ground arith
every-append p (x ∷ rows) row h r =
    let rest = every-append p rows row (ground arith) r in ground (arith, rest)

pub every-filter :
    (p f : AlertSource → Bool) (rows : List AlertSource)
    → every p rows ≡ true
    → every p (filter f rows) ≡ true
every-filter p f [] h = h
every-filter p f (row ∷ rows) h =
    let rest = every-filter p f rows (ground arith) in ground (arith, rest)

pub every-alert_source_create :
    (p : AlertSource → Bool) (now s : ℕ) (values : Values) (rows : List AlertSource)
    → p (new_source now s values) ≡ true
    → every p rows ≡ true
    → every p (alert_source_create now s values rows).1 ≡ true
unfolding alert_source_create
every-alert_source_create p now s values rows n h =
    elim (Bool-cases (elem s (map (λ row. row.storage_id) rows))) [
      | inl y ↦ rw y h
      | inr x ↦ rw x (every-append p rows (new_source now s values) h n)
    ]

pub every-alert_source_delete :
    (p : AlertSource → Bool) (s : ℕ) (rows : List AlertSource)
    → every p rows ≡ true
    → every p (alert_source_delete s rows).1 ≡ true
unfolding alert_source_delete
every-alert_source_delete p s rows h = at (filter (has_storage s) rows)
  where
    at :
        (found : List AlertSource)
        → every p
            (elim found as (λ x. Result (Unit {0}) × List AlertSource) [
              | [] ↦ (err alert_source_not_found, rows)
              | row ∷ more ↦ (ok tt, filter (λ r. not (has_storage s r)) rows)
            ]).1
          ≡ true
    at [] = h
    at (row ∷ more) = every-filter p (λ r. not (has_storage s r)) rows h
