-- ===== src/Alerts/Service.antt =====
-- The requests `put` and `delete` of delfin/api/v1/alert_source.py with the messages that they send to
-- the receiver of delfin/alert_manager/trap_receiver.py, and the removal of a storage by delfin/
-- task_manager/tasks/resources.py, as steps of one system. The messages of the topic are handled in
-- the order in which they were sent.
use delfin.Prelude.{ℕ, Option, none, some, List, [], ◌∷◌, ◌++◌, if◌then◌else◌}
use delfin.Errors.{Result, ok, err, alert_source_not_found, storage_not_found}
use delfin.Alerts.Source.{
  AlertSource, Values, alert_source_create, alert_source_update, alert_source_delete,
}
use delfin.Alerts.Config.{Brief, input_check, get_snmp_config_brief}
use delfin.Alerts.Receiver.{
  SnmpEngine, Site, Message, World, Answer, add_snmp_config, delete_snmp_config, validate,
}

-- The row that is written, with the table: an update if there was a row, else a new row.
abbrev pub store_source :
    Option Brief → ℕ → ℕ → Values → List AlertSource → Result AlertSource × List AlertSource
store_source none now s values rows = alert_source_create now s values rows
store_source (some b) now s values rows = alert_source_update s values rows

-- What happens to the system: a request, the next message, the check of a configuration by the heart
-- beat, or the task that removes a storage; with what the device answers. The configuration that the
-- heart beat checks was read earlier, so it may be any.
pub data Event : Type 0 where
  put_source : ℕ → ℕ → Values → Event
  delete_source : ℕ → Event
  next_message : Answer → Event
  check_snmp_config : Answer → AlertSource → Event
  remove_storage : ℕ → Event

module _ {E : Type 0} (snmp : SnmpEngine E) (site : Site) where
  abbrev pub send : Option Brief → Option AlertSource → World E → World E
  send to_del to_add w = record w {
    messages = w.messages ++ record { to_del = to_del; to_add = to_add } ∷ [];
  }

  abbrev pub after_store : Option Brief → Result AlertSource → World E → Result (Unit {0}) × World E
  after_store brief (err e) w = (err e, w)
  after_store brief (ok row) w = (ok tt, send brief (some row) w)

  abbrev pub store_and_send : ℕ → ℕ → Values → World E → Result (Unit {0}) × World E
  store_and_send now s values w =
      let brief = get_snmp_config_brief s w.sources in
      let (stored, rows) = store_source brief now s values w.sources in
      after_store brief stored (record w { sources = rows })

  abbrev pub after_check : ℕ → ℕ → World E → Result Values → Result (Unit {0}) × World E
  after_check now s w (err e) = (err e, w)
  after_check now s w (ok checked) = store_and_send now s checked w

  unfoldable pub put : ℕ → ℕ → Values → World E → Result (Unit {0}) × World E
  put now s values w =
      if site.has_row s
      then after_check now s w (input_check site.crypt site.is_hex values)
      else (err storage_not_found, w)

  abbrev pub delete_found : ℕ → World E → Option Brief → Result (Unit {0}) × World E
  delete_found s w none = (err alert_source_not_found, w)
  delete_found s w (some b) =
      let (deleted, rows) = alert_source_delete s w.sources in
      (deleted, record (send (some b) none w) { sources = rows })

  unfoldable pub delete : ℕ → World E → Result (Unit {0}) × World E
  delete s w = delete_found s w (get_snmp_config_brief s w.sources)

  abbrev pub delete_old : Option Brief → E → Result E
  delete_old none e = ok e
  delete_old (some b) e = delete_snmp_config snmp site b e

  -- A call of the engine that raises ends the handling of the message.
  abbrev pub added : World E → Result E → World E
  added w (err _) = w
  added w (ok e) = record w { engine = e }

  abbrev pub add_new : Answer → Option AlertSource → World E → World E
  add_new answer none w = w
  add_new answer (some config) w =
      let (seen, w) = validate site answer config w in
      added w (add_snmp_config snmp site seen w.engine)

  abbrev pub after_delete : Answer → Option AlertSource → World E → Result E → World E
  after_delete answer to_add w (err _) = w
  after_delete answer to_add w (ok e) = add_new answer to_add (record w { engine = e })

  unfoldable pub sync_snmp_config : Answer → Message → World E → World E
  sync_snmp_config answer m w = after_delete answer m.to_add w (delete_old m.to_del w.engine)

  abbrev pub handle_next : Answer → List Message → World E → World E
  handle_next answer [] w = w
  handle_next answer (m ∷ ms) w = sync_snmp_config answer m (record w { messages = ms })

  -- `StorageDeviceTask.remove` as far as this table goes; it logs an exception and sends no message.
  abbrev pub remove_device : ℕ → World E → World E
  remove_device s w = record w { sources = (alert_source_delete s w.sources).1 }

  abbrev pub step : Event → World E → World E
  step (put_source now s values) w = (put now s values w).1
  step (delete_source s) w = (delete s w).1
  step (next_message answer) w = handle_next answer w.messages w
  step (check_snmp_config answer config) w = (validate site answer config w).1
  step (remove_storage s) w = remove_device s w

  abbrev pub steps : List Event → World E → World E
  steps [] w = w
  steps (e ∷ es) w = steps es (step e w)
