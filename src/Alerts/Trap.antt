-- ===== src/Alerts/Trap.antt =====
-- `_cb_fun` of delfin/alert_manager/trap_receiver.py, the callback for a trap, with
-- `process_alert_info` of delfin/alert_manager/alert_processor.py. What the driver makes of a trap is
-- an argument.
use delfin.Prelude.{
  ℕ, ◌≡◌, refl, sym, ap, ◌∙◌, Bool, true, false, ◌||◌, Option, none, some, List, [], ◌∷◌, filter,
  ◌==◌, if◌then◌else◌, ◌⊎◌, inl, inr, arith, Bool-cases,
}
use delfin.Errors.{
  Result, ok, err, ◌>>=◌, Exception, storage_not_found, invalid_results,
  alert_source_not_found_with_host,
}
use delfin.Database.Sorting.{process_sort_params}
use delfin.Database.Paging.{
  Column, SortBy, matching, IsOrder, generate_paginate_query, paginate_query, after_marker,
}
use delfin.Database.Pages.{count, count-Perm}
use delfin.Alerts.Source.{host, community_string, AlertSource, alert_source_get_all}
use delfin.Alerts.Config.{Cryptor}
use delfin.Alerts.Marked.{newest_first, filter-true, drop-zero}
use delfin.Alerts.Receiver.{decoded}

-- A trap: the address that it comes from, whether its security model is that of SNMPv3, the incoming
-- community string, and its variables.
pub record Trap : Type 0 where
  pub source_ip : ℕ
  pub is_v3 : Bool
  pub context_name : ℕ
  pub var_binds : List (ℕ × ℕ)

-- The dict `alert`, with the name of the controller that has the address.
pub record Alert : Type 0 where
  pub storage : ℕ
  pub transport_address : ℕ
  pub controller_name : Option ℕ
  pub binds : List (ℕ × ℕ)

-- What `parse_alert` of the driver comes to; an empty model is `no_model`.
pub data Parsed : Type 0 where
  no_model incomplete failed : Parsed
  model : ℕ → Parsed

-- The alerts that were dispatched to the exporters and the storages whose alerts a thread will
-- synchronize, the newest first.
pub record Processor : Type 0 where
  pub dispatched : List (ℕ × ℕ)
  pub synchronizing : List ℕ

-- What the callback is given: the order of the database, its controllers by address and storage, its
-- storages, the cryptor and the drivers.
pub record Surroundings : Type 0 where
  pub order_by : List (SortBy AlertSource) → List AlertSource → List AlertSource
  pub more : ℕ → Option (Column AlertSource)
  pub controllers : ℕ → ℕ → List (Option ℕ)
  pub has_storage_row : ℕ → Bool
  pub crypt : Cryptor
  pub parse_alert : Alert → Parsed

abbrev pub dispatch_parsed : ℕ → Parsed → Processor → Result (Unit {0}) × Processor
dispatch_parsed s no_model w = (ok tt, w)
dispatch_parsed s incomplete w = (ok tt, record w { synchronizing = s ∷ w.synchronizing })
dispatch_parsed s failed w = (err invalid_results, w)
dispatch_parsed s (model m) w = (ok tt, record w { dispatched = (s, m) ∷ w.dispatched })

unfoldable pub process_alert_info : Surroundings → Alert → Processor → Result (Unit {0}) × Processor
process_alert_info env alert w =
    if env.has_storage_row alert.storage
    then dispatch_parsed alert.storage (env.parse_alert alert) w
    else (err storage_not_found, w)

abbrev pub is_host : ℕ → AlertSource → Bool
is_host ip row = elim (row.value host) [ none ↦ false | some h ↦ h == ip ]

abbrev pub the_only : List AlertSource → Result AlertSource
the_only [] = err alert_source_not_found_with_host
the_only (row ∷ []) = ok row
the_only (row ∷ next ∷ rows) = err invalid_results

unfoldable pub get_alert_source_by_host : Surroundings → ℕ → List AlertSource → Result AlertSource
get_alert_source_by_host env ip rows =
    alert_source_get_all env.order_by env.more none none none none (matching (is_host ip)) 0 rows
    >>= the_only

-- For other versions than SNMPv3 the incoming community must be that of the source.
abbrev pub same_community : ℕ → Result ℕ → Bool
same_community name (ok text) = text == name
same_community name (err e) = false

abbrev pub accepts : Surroundings → Trap → AlertSource → Bool
accepts env trap row =
    trap.is_v3 || same_community trap.context_name (decoded env.crypt (row.value community_string))

abbrev pub first_controller : List (Option ℕ) → Option ℕ
first_controller [] = none
first_controller (name ∷ names) = name

abbrev pub alert_of : Surroundings → Trap → AlertSource → Alert
alert_of env trap row = record {
  storage = row.storage_id;
  transport_address = trap.source_ip;
  controller_name = first_controller (env.controllers trap.source_ip row.storage_id);
  binds = trap.var_binds;
}

abbrev pub after_source : Surroundings → Trap → Processor → Result AlertSource → Processor
after_source env trap w (err e) = w
after_source env trap w (ok row) =
    if accepts env trap row then (process_alert_info env (alert_of env trap row) w).1 else w

-- An exception is logged and ends the processing of the trap.
unfoldable pub cb_fun : Surroundings → Trap → List AlertSource → Processor → Processor
cb_fun env trap rows w = after_source env trap w (get_alert_source_by_host env trap.source_ip rows)

-- The row is the only one of the host.
abbrev pub IsOnly : ℕ → AlertSource → List AlertSource → Type 0
IsOnly ip row rows =
    (p : AlertSource → Bool) → count p (filter (is_host ip) rows) ≡ count p (row ∷ [])

get_alert_source_by_host-found :
    (env : Surroundings) (ip : ℕ) (rows : List AlertSource)
    → get_alert_source_by_host env ip rows
      ≡ the_only (env.order_by newest_first (filter (is_host ip) rows))
unfolding get_alert_source_by_host alert_source_get_all generate_paginate_query paginate_query
    process_sort_params after_marker
get_alert_source_by_host-found env ip rows =
    rw
      (
        filter-true (filter (is_host ip) rows),
        drop-zero (env.order_by newest_first (filter (is_host ip) rows)),
      )
      refl

the_only-cases :
    (found : List AlertSource)
    → ((row : AlertSource) × (found ≡ row ∷ []))
      ⊎ ((e : Exception) × (the_only found ≡ err e) × ((count (λ row. true) found == 1) ≡ false))
the_only-cases [] = inr (alert_source_not_found_with_host, refl, refl)
the_only-cases (row ∷ []) = inl (row, refl)
the_only-cases (row ∷ next ∷ rows) = inr (invalid_results, refl, ground arith)

-- The trap was processed as an alert of the only source of its address, or nothing has changed, since
-- there is no such source or it does not accept the trap.
abbrev pub Processed : Surroundings → Trap → List AlertSource → Processor → Processor → Type 0
Processed env trap rows w after =
    ((row : AlertSource) × IsOnly trap.source_ip row rows
      × (accepts env trap row ≡ true)
      × (after ≡ (process_alert_info env (alert_of env trap row) w).1))
    ⊎ (((row : AlertSource) → IsOnly trap.source_ip row rows → accepts env trap row ≡ false)
        × (after ≡ w))

-- With an SQL engine that sorts: a trap is processed as an alert of a storage if the storage's alert
-- source is the only one with the address of the trap and, unless the trap is one of SNMPv3, its
-- stored community is the incoming one. Otherwise the trap is dropped and nothing changes.
pub cb_fun-processes :
    (env : Surroundings) (trap : Trap) (rows : List AlertSource) (w : Processor)
    → IsOrder newest_first env.order_by
    → Processed env trap rows w (cb_fun env trap rows w)
unfolding cb_fun
cb_fun-processes env trap rows w orders =
    let hosts = filter (is_host trap.source_ip) rows in
    let found = env.order_by newest_first hosts in
    let same : (p : AlertSource → Bool) → count p found ≡ count p hosts =
      λ p. count-Perm p found hosts (orders.permutes hosts) in
    let here = get_alert_source_by_host-found env trap.source_ip rows in
    elim (the_only-cases found) [
      | inr (e, raises, many) ↦ inr (
        λ row only.
            let all = same (λ _. true) in
            let one = only (λ _. true) in let not_one = many in ground arith,
        ap (after_source env trap w) (here ∙ raises),
      )
      | inl (row, is) ↦
          let only : IsOnly trap.source_ip row rows = λ p. sym (same p) ∙ ap (count p) is in
          elim (Bool-cases (accepts env trap row)) [
            | inl y ↦
                inl (row, only, y, ap (after_source env trap w) (here ∙ ap the_only is) ∙ rw y refl)
            | inr n ↦ inr (
              λ other only'.
                  let theirs = only' (accepts env trap) in
                  let ours = only (accepts env trap) in ground arith,
              ap (after_source env trap w) (here ∙ ap the_only is) ∙ rw n refl,
            )
          ]
    ]
