-- ===== src/Lib.antt =====
-- delfin keeps a database of storage systems and of what is in them. This library models how that
-- database is brought in line with a storage system, how a storage is registered, and how the nodes
-- share the collection of performance data.
--
-- The program's parts. The API server (delfin/api/v1/storages.py) starts a synchronization of a
-- storage: it sets the storage's `sync_status` and casts one message for each class of resources to
-- the task managers. A task manager (delfin/task_manager/manager.py) runs the class
-- (delfin/task_manager/tasks/resources.py): it asks the storage's driver for its resources, compares
-- them with the rows of the database, and deletes, updates and creates rows
-- (delfin/db/sqlalchemy/api.py); then it counts `sync_status` down. A storage that has been deleted
-- meanwhile loses the rows again.
-- The API stores an alert source and casts it to the alert manager (delfin/alert_manager), whose trap
-- receiver keeps the credentials in its SNMP engine and turns the traps of a storage into alerts. One
-- elected node (delfin/leader_election) schedules the collection of performance data.
--
-- The files.
-- Prelude: shared names, lists with Boolean tests, signed integers.
-- Errors: the exceptions of delfin/exception.py that the modelled code raises or catches.
-- Database/Rows: queries and bulk writes on one table. Every resource model of
--   delfin/db/sqlalchemy/models.py has the same functions in delfin/db/sqlalchemy/api.py, up to the
--   names of its columns; a row shows the columns that the modelled code reads by name (`id`,
--   `native_id` for `native_volume_id` and its like, `storage_id`), the others are a function from
--   their numbers. Native ids and uuids are numbers.
-- Database/Session: all tables as one state, and the transactions on it. An action gives its result
--   and the state that it leaves, also when it raises.
-- Database/Hardware, Files, Hosts: the functions of delfin/db/sqlalchemy/api.py by their names.
-- Database/Sorting, SortParams, Paging and Pages: sorted queries in pages, `process_sort_params`,
--   `_generate_paginate_query`, and `paginate_query` of delfin/common/sqlalchemyutils.py.
-- Database/Lookup: finding rows by their native ids.
-- Sync/Classify: `_classify_resources`; Sync/Classify/Partition its description.
-- Sync/Task: `StorageResourceTask.sync` over the methods that a class fills in, and the decorators
--   `set_synced_after` and `check_deleted`. Sync/Classes: the classes that only fill in the methods.
--   Sync/Hosts: the classes with a `sync` of their own.
-- Sync/Manager: `StorageDeviceTask`, and `sync_storage_resource` and `remove_storage_resource` of
--   `TaskManager`.
-- Sync/Request: `StorageController.sync`, `sync_all` and `_set_synced_if_ok`.
-- Database/Permuted, Bulk and Sync/Matching: how the bulk calls and the order of a query's rows meet
--   the table. Sync/Mirror with Store, Rows, Expected and Listed: `sync` against its purpose.
-- Sync/Groups: the relations of groups. Sync/Deleted: a storage that is deleted meanwhile.
-- Sync/Round: from a request to the next.
-- Sync/Frame, Counting, Progress, Overdue, Quiet: what the tasks leave alone, the protocol of
--   `sync_status`, and the guards of a request.
--
-- Effect: calls that read and write a state and may raise.
--
-- Telemetry/Tables: the tables `tasks` and `failed_tasks`, and the messages between the nodes
--   (delfin/task_manager/metrics_rpcapi.py) in the order that they are sent in.
-- Telemetry/Distribute: which node runs which job: delfin/leader_election/distributor/
--   task_distributor.py, the node events of delfin/task_manager/scheduler/schedule_manager.py and
--   delfin/task_manager/perf_job_controller.py. Telemetry/Placing, Moving, Rejoin and
--   Join: `on_node_join`.
-- Telemetry/Jobs: the jobs of one node, delfin/task_manager/scheduler/schedulers/telemetry/
--   job_handler.py. Telemetry/Window: its history collection; Telemetry/Reassign and Handover: a job
--   that moves between two nodes; Telemetry/Once: messages that come again.
--   Telemetry/Removal: the end of the collection for a storage.
-- Telemetry/Periodic: `PerformanceCollectionHandler`, the periodic collection of a task.
-- Telemetry/Failed: `FailedPerformanceCollectionHandler` of delfin/task_manager/scheduler/schedulers/
--   telemetry/failed_performance_collection_handler.py, which the scheduler calls periodically to
--   retry a performance collection; Telemetry/Retry: its calls one after the other.
-- Metrics/Executors: the child processes of a node and the storages that they serve, the executor map
--   of delfin/task_manager/metrics_manager.py. Metrics/Holding, Choosing, Reached and Cleanup: what
--   the operations do to it.
-- Drivers/Manager, Drivers/Api: the driver cache of delfin/drivers/manager.py, and from delfin/
--   drivers/api.py and helper.py the registration of a storage and the change of its access
--   information. Drivers/Unregistered, Registered, Refused and Cached: their effect on the tables and on the
--   cache. Drivers/Access: the request that changes access information,
--   delfin/api/v1/access_info.py.
-- Leader/Elector with Alternates: the leader election of delfin/leader_election/tooz/leader_elector.py in the loop of
--   delfin/service.py.
-- Alerts/Range: the time range of an alert synchronization, delfin/common/alert_util.py with
--   delfin/api/v1/alerts.py. Alerts/Validator: when the state of an SNMP connection is reported,
--   delfin/alert_manager/snmp_validator.py.
-- Alerts/Source: the table `alert_source`. Alerts/Config: the checks of a request to
--   delfin/api/v1/alert_source.py; Alerts/Configured, Every and Stored: what they let into the table.
--   Alerts/Receiver and Service: the requests, the messages that they send, the removal of a storage
--   by `StorageDeviceTask`, and the receiver of delfin/alert_manager/trap_receiver.py, which keeps the
--   SNMP engine and validates connections.
--   Alerts/Communities, Syncing, Checked, Tracking, Hex, Found, Tracked and InStep: the communities of the
--   engine against the table. Alerts/Trap: the callback for a trap, with delfin/alert_manager/alert_processor.py.
--   Alerts/Load: the receiver's start; Alerts/Marked and Loaded: what it has loaded.
--
-- Parameters. The SQL engine's order of rows and the uuid generator are the record `Engine`; what
-- the drivers answer is the record `DriverApi`. What a performance collection answers is an argument.
-- The scheduler library of the nodes is the record `JobStore`, the hash ring that gives a task its
-- executor a function. A class of drivers with its constructor, the reading of certificate files and
-- the cryptor are the record `Drivers`; so is the answer of the database to the commit of a storage's
-- row, which may fail. What a column of integers stores for a fraction is a function of the record
-- `Engine` of Telemetry/Tables.
--
-- The SNMP engine is the record `SnmpEngine`, the cryptor of the alert sources `Cryptor`; what a device
-- answers to the SNMP get comes with the event, what a driver makes of a trap is a function. The SQL engine's sorting is a function of the sort keys.
--
-- Bounds. Only `load_snmp_config` takes fuel, the number of rounds of a loop; a number above that of
-- the rows is enough. Elsewhere the loops are over lists, or over a number of names or rounds.
-- Times are in seconds where not said otherwise. A count of 100
-- units for each task keeps apart the tasks to come and the failures as long as there are at most
-- 100 tasks; the program has 16.
--
-- Not modelled. Logging, texts and HTTP; locks are taken as making the code under them one step;
-- tasks of one storage run one after the other. The filters of a query other than by storage, by host
-- and by a test. The start of the schedulers, of child processes and of the trap listener, the message
-- handlers of the metrics manager, and the vendors' drivers. A `stop` of the leader election that
-- comes while its loop runs is taken as the end of the loop and then the cleanup.
pub mod Prelude
pub mod Errors
pub mod Effect
pub mod Database
pub mod Sync
pub mod Telemetry
pub mod Leader
pub mod Metrics
pub mod Drivers
pub mod Alerts
