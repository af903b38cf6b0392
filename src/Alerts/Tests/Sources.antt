-- ===== src/Alerts/Tests/Sources.antt =====
-- Runs of the alert sources: delfin/api/v1/alert_source.py and delfin/alert_manager/trap_receiver.py.
use delfin.Prelude.{
  arith, ℕ, zero, suc, ◌≡◌, refl, sym, ap, Bool, true, false, Option, none, some, List, [], ◌∷◌,
  ◌==◌, if◌then◌else◌,
}
use delfin.Errors.{ok, err, other_exception}
use delfin.Effect.{Effect, ◌>>=◌, pure, modify, for_each}
use delfin.Database.Sorting.{process_sort_params}
use delfin.Database.Paging.{Column, generate_paginate_query, paginate_query, after_marker}
use delfin.Database.Pages.{count}
use delfin.Alerts.Source.{
  alert_source_get, alert_source_create, alert_source_update, alert_source_delete, host, snmpv2c,
  snmpv3, community_string, username, security_level, auth_key, auth_protocol, same_key,
  AlertSource, Values, alert_source_get_all,
}
use delfin.Alerts.Config.{input_check, get_snmp_config_brief, Cryptor, IsCryptor, auth_no_priv}
use delfin.Alerts.Validator.{handle_validation_result, new_validator}
use delfin.Alerts.Receiver.{
  add_snmp_config, delete_snmp_config, validate, validate_connectivity, SnmpEngine, Site, World,
  raised, answered,
}
use delfin.Alerts.Service.{
  put, delete, sync_snmp_config, Event, put_source, delete_source, next_message, remove_storage,
  step, steps,
}
use delfin.Alerts.Load.{load_snmp_config}
use delfin.Alerts.Loaded.{load_snmp_config-each_once}
use delfin.Alerts.Stored.{steps-configured}
use delfin.Alerts.Every.{every, configured}
use delfin.Alerts.Trap.{
  Trap, model, Processor, Surroundings, Processed, cb_fun, process_alert_info,
  get_alert_source_by_host, cb_fun-processes,
}
use delfin.Alerts.Communities.{after_messages, table_of}
use delfin.Alerts.Syncing.{IsSnmpEngine, communities}
use delfin.Alerts.InStep.{starting, steps-communities}
use delfin.Alerts.Tests.Sorted.{insertion_sort, insertion_sort-IsOrder}

abbrev source_at : ℕ → ℕ → AlertSource
source_at s t = record { storage_id = s; created = some t; version = snmpv2c; value = λ k. some 6 }

abbrev three_sources : List AlertSource
three_sources = source_at 7 30 ∷ source_at 8 10 ∷ source_at 9 20 ∷ []

abbrev no_columns : ℕ → Option (Column AlertSource)
no_columns k = none

abbrev note : AlertSource → Effect (List ℕ) (Unit {0})
note row = modify (λ ids. row.storage_id ∷ ids)

-- Two pages of at most two rows.
load_snmp_config-each_once_example :
    (loaded : List AlertSource) × ((d : List ℕ)
      → load_snmp_config insertion_sort no_columns note 2 three_sources 4 none d
        ≡ (for_each loaded note >>= λ _. pure true) d)
    × ((p : AlertSource → Bool) → count p loaded ≡ count p three_sources)
load_snmp_config-each_once_example =
    load_snmp_config-each_once insertion_sort no_columns note 2 three_sources 4
      insertion_sort-IsOrder refl refl (omega arith) (omega arith)

abbrev shift : Cryptor
shift = record { encode = suc; decode = λ n. elim n [ zero ↦ err other_exception | suc m ↦ ok m ] }

shift-IsCryptor : IsCryptor shift
shift-IsCryptor = record { decode-encode = λ text. refl }

abbrev site : Site
site = record {
  crypt = shift;
  is_hex = λ n. true;
  without_dashes = λ s. s;
  snmp_validation_enabled = true;
  serial_number = λ s. some s;
  has_row = λ s. true;
}

abbrev Communities : Type 0
Communities = ℕ → Option ℕ

abbrev engine : SnmpEngine Communities
engine = record {
  add_v1_system = λ i c e j. if i == j then some c else e j;
  del_v1_system = λ i e. ok (λ j. if i == j then none else e j);
  add_v3_user = λ u e. ok e;
  del_v3_user = λ u i e. ok e;
  community = λ e j. e j;
}

abbrev empty_world : World Communities
empty_world = record { engine = λ j. none; sources = []; validator = new_validator; messages = [] }

abbrev v2_request : Values
v2_request = record {
  version = some snmpv2c;
  value = λ k. if same_key community_string k then some (some 41) else none;
}

abbrev v3_request : Values
v3_request = record {
  version = some snmpv3;
  value = λ k.
      if same_key username k
      then some (some 5)
      else if same_key security_level k
      then some (some auth_no_priv)
      else if same_key auth_key k
      then some (some 77)
      else if same_key auth_protocol k
      then some (some 1)
      else none;
}

-- A source is created with a community and then becomes an SNMPv3 user.
abbrev requests : List Event
requests =
    put_source 10 7 v2_request
    ∷ next_message raised
    ∷ put_source 20 7 v3_request
    ∷ put_source 20 8 v2_request
    ∷ next_message (answered (some 3) false)
    ∷ delete_source 8
    ∷ []

engine-IsSnmpEngine : IsSnmpEngine engine
engine-IsSnmpEngine = record {
  community-add = λ i c j e. refl;
  community-del = λ i c e h. ((λ j. if i == j then none else e j), refl, λ j. refl);
  community-add_user = λ u j e e' is. ap (λ r. elim r [ ok x ↦ x j | err _ ↦ none ]) (sym is);
  community-del_user = λ name id j e e' is. ap (λ r. elim r [ ok x ↦ x j | err _ ↦ none ]) (sym is);
}

steps-communities_example :
    let w = steps engine site requests (starting (λ j. none)) in
    ((s : ℕ)
      → after_messages shift w.messages (communities engine site w.engine) s
        ≡ table_of shift w.sources s)
    × (w.messages ≡ [] → (s : ℕ) → communities engine site w.engine s ≡ table_of shift w.sources s)
    × ((r s : ℕ)
        → let removed = step engine site (remove_storage r) w in
          (after_messages shift removed.messages (communities engine site removed.engine) s
            ≡ table_of shift w.sources s)
          × (table_of shift removed.sources s
              ≡ (if r == s then none else table_of shift w.sources s)))
steps-communities_example =
    steps-communities engine site requests (λ j. none) engine-IsSnmpEngine shift-IsCryptor
      (λ s t e. e) refl (λ s. refl)

-- The community of storage 7 is gone with its change to SNMPv3, that of storage 8 comes with the next
-- message and goes with the one after it.
requests-run : (steps engine site requests empty_world).engine 7 ≡ none
unfolding put delete sync_snmp_config validate add_snmp_config delete_snmp_config
    validate_connectivity input_check get_snmp_config_brief alert_source_get alert_source_create
    alert_source_update alert_source_delete handle_validation_result
requests-run = refl

-- The community of a storage stays with the receiver after the storage is removed.
left_behind-run :
    (steps engine site
        (put_source 10 7 v2_request ∷ next_message raised ∷ remove_storage 7 ∷ [])
        empty_world).engine
      7
    ≡ some 41
unfolding put delete sync_snmp_config validate add_snmp_config delete_snmp_config
    validate_connectivity input_check get_snmp_config_brief alert_source_get alert_source_create
    alert_source_update alert_source_delete handle_validation_result
left_behind-run = refl

steps-configured_example :
    every (configured shift) (steps engine site requests empty_world).sources ≡ true
steps-configured_example =
    steps-configured engine site shift-IsCryptor requests empty_world refl refl

abbrev around : Surroundings
around = record {
  order_by = insertion_sort;
  more = no_columns;
  controllers = λ ip s. some 4 ∷ [];
  has_storage_row = λ s. true;
  crypt = shift;
  parse_alert = λ alert. model alert.transport_address;
}

abbrev source_of : ℕ → ℕ → AlertSource
source_of s ip = record {
  storage_id = s;
  created = some s;
  version = snmpv2c;
  value = λ k. if same_key host k then some ip else some 6;
}

abbrev nothing_yet : Processor
nothing_yet = record { dispatched = []; synchronizing = [] }

abbrev trap_from : ℕ → ℕ → Trap
trap_from ip name = record { source_ip = ip; is_v3 = false; context_name = name; var_binds = [] }

-- Two sources have the address 22, one has 21.
abbrev hosts : List AlertSource
hosts = source_of 7 21 ∷ source_of 8 22 ∷ source_of 9 22 ∷ []

trap-run : (cb_fun around (trap_from 21 5) hosts nothing_yet).dispatched ≡ (7, 21) ∷ []
unfolding cb_fun process_alert_info get_alert_source_by_host alert_source_get_all
    generate_paginate_query paginate_query process_sort_params after_marker
trap-run = refl

other_community-run : cb_fun around (trap_from 21 6) hosts nothing_yet ≡ nothing_yet
unfolding cb_fun process_alert_info get_alert_source_by_host alert_source_get_all
    generate_paginate_query paginate_query process_sort_params after_marker
other_community-run = refl

two_sources-run : cb_fun around (trap_from 22 5) hosts nothing_yet ≡ nothing_yet
unfolding cb_fun process_alert_info get_alert_source_by_host alert_source_get_all
    generate_paginate_query paginate_query process_sort_params after_marker
two_sources-run = refl

cb_fun-processes_example :
    Processed around
      (trap_from 21 5)
      hosts
      nothing_yet
      (cb_fun around (trap_from 21 5) hosts nothing_yet)
cb_fun-processes_example =
    cb_fun-processes around (trap_from 21 5) hosts nothing_yet insertion_sort-IsOrder
