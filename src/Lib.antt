-- ===== src/Lib.antt =====
-- simple-alert-proxy: a webhook gateway. Alerts come in as `AlertEvent`s, are stored and grouped in
-- a SQLite database, routed to receivers, and delivered one by one or in batches, with retries;
-- groups that nobody acknowledges escalate. Operators read and act through a management API.
--
-- The parts and their files. Names follow the source's; paths are from the repository's root.
--   Prelude, Table: shared helpers. `Table` is a SQL table as the statements of src/storage.rs use
--     it: rows under the ids of an AUTOINCREMENT key, newest first, with INSERT, UPDATE, DELETE,
--     SELECT, COUNT and SUM as functions. `Table.Laws`, `Table.Order` and `Table.Deletes` hold
--     their laws.
--   Json: JSON values, and what the program calls of serde_json as the interface `Serde`.
--   Alert: src/alert.rs, the canonical event.
--   Routing: src/routing.rs. `plan` is `RouteEngine::plan`; the crates regex and serde_json
--     (`Value::pointer`) are the interface `Engines`.
--   Config: src/config.rs, the settings after parsing. Each `validate` of the source is a `Check`
--     (Checks): Sections holds those of one section, Integrations, Tls and Receivers theirs, and
--     Validate `AppConfig::validate` in the source's order. The crates url and http, the parser of
--     socket addresses and the environment are the interface `Outside`.
--   Storage: src/storage.rs. `Db` is the database, a record of tables; an operation takes the time
--     that its `now_epoch_millis()` reads, and gives a result and the database after it. Groups holds
--     events, alert groups and the audit trail; Deliveries the delivery records and their replay;
--     Batches the queueing in notification batches; Sending their claims, ends and recovery;
--     Escalation the escalation tasks; Retention the retention job; Users, Sessions and Teams the
--     accounts.
--   Notification: src/notification.rs, the batch and its key. serde_json's `to_vec` and SHA-256 are
--     the interface `Hashing`, over lists of bytes.
--   Pipeline: of src/main.rs, `process_generic_events` and the functions that it calls, as steps on
--     the database and the list of the workers started (`State`); `clock` gives what a call reads from
--     the clock as a function of the database it finds. Escalating is `run_escalation_task`. Frames,
--     Invariant, Keeps, Anchors, Queued, Delivered, Webhook, Tasks and Ends prove things of these.
--   Worker: the retry loop `DeliveryWorker::run_from`, the end of a batch's attempt
--     (`run_notification_batch`) and `redacted_delivery_error`, of src/main.rs.
--   Redaction: src/redaction.rs, and the header values that src/main.rs logs.
--   Login: `LoginAttemptLimiter` of src/main.rs.
--   Access: roles, principals and the checks of the management API, of src/main.rs.
--   Examples: test data and one use of each result.
-- A webhook's events go through Pipeline: each is routed (Routing), stored with its owner team
-- (Storage.Groups) and queued for each delivery (Storage.Deliveries, Storage.Batches) under its key
-- (Notification), then sent (Worker, Storage.Sending); escalation tasks (Storage.Escalation) queue
-- further deliveries. Config decides which routes, receivers and policies there are, and Access who may
-- run the lifecycle actions.
--
-- Numbers: ids, counts and sizes are natural numbers, times are integers with the wrap or saturation
-- of the i64 operation that the source uses; ids and sums do not end at 2 ^ 63. Loops: the worker's
-- loop runs over the attempts that are left up to `max_attempts`, which are all it can make; every
-- other loop is over a list.
--
-- Not modelled: failures of SQLite itself and of its locks, foreign keys, and the interleaving of
-- several tasks with a worker that waits or with a webhook. The text of a status or role that is no word
-- of the program's is left out where the columns are data types. A map is the list of its entries, and
-- the severity counts are in the order of their first instance where the source has them in key order.
-- Reading the configuration file and its defaults (serde), payload normalisation (SigNoz, Grafana,
-- GVMd, n8n, CloudEvents), templates, Google Chat cards, migrations, the lists of the API, and HTTP
-- have no model.
pub mod Prelude
pub mod Table
pub mod Json
pub mod Alert
pub mod Routing
pub mod Notification
pub mod Config
pub mod Storage
pub mod Worker
pub mod Login
pub mod Access
pub mod Pipeline
pub mod Redaction
pub mod Examples
