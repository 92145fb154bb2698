-- ===== src/Lib.antt =====
-- A verification library of the real-time fraud and anomaly detection system.
--
-- The program. The gateway (services/gateway) takes transactions and the analysts' decisions, the
-- processor (services/processor) scores transactions and raises alerts, the outbox publisher
-- (services/outbox_publisher) relays events from the database to Redis streams; shared/ holds the
-- tables, the enums and the event contracts that they have in common. A service writes its rows
-- and an outbox event in one database transaction, the publisher moves the event to a stream, and
-- a consumer group reads it there, with an inbox table against redelivery.
--
-- The files.
-- - Prelude: Boolean tests, lists, and tables as lists of rows (select, update, order_by); Keys
--   has the tables with distinct keys, Appended the rows added at their end.
-- - Shared: shared/models (Enums, Models), shared/errors/exceptions.py (Errors),
--   shared/events/event_types.py (Events), JSON values (Json), and the session of SQLAlchemy
--   (Session), with the parts of a handler that only read (Session.Reads).
-- - Alerts: services/gateway/services/alert_actions.py: resolve_alert (Actions), get_alerts and
--   get_alert_by_id (Queries, with the Pages of the list and what is Selected for it);
--   run_escalation_tick of services/processor/scheduler/escalation_scheduler.py (Escalation), the
--   state machine of an alert (Lifecycle), and resolutions and ticks in any order (Interleaving).
-- - Outbox: services/outbox_publisher/publisher.py: get_stream_for_event_type (Routing) and
--   poll_pending_events, publish_event, handle_publish_failure and publish_batch (Publisher).
-- - Detection: services/processor/domain: schemas.py (Schemas), rules.py (Rules),
--   composite_scoring.py (Scoring), demo_strategy.py (Demo), ml_model.py (MlModel, with its score
--   in Normalization and its metadata in Loading).
-- - Processor: services/processor/services/detection_pipeline.py (Context has its queries,
--   Pipeline its handler), services/processor/services/rule_cache.py (RuleCache),
--   services/processor/services/compensation_service.py (Compensation), and the two consumers of
--   services/processor/consumers (Messages, TransactionConsumer and CompensationConsumer, each
--   with its Batches; Requested is the event of the gateway as the consumer reads it).
-- - Gateway: services/gateway/services/ingestion.py (Ingestion), with its event as the processor
--   reads it (Ingestion.Delivered), services/gateway/ws/manager.py (Connections), and
--   services/gateway/consumers/notification_forwarder.py (Notifications: the messages and one
--   event, with Relay for its loops and Listener for the Pub/Sub listener; Contents, Settled,
--   AtLeastOnce and Poison hold proofs); services/gateway/api, the exception handlers of
--   services/gateway/main.py and the correlation ids of services/gateway/middleware and
--   shared/context (Api, with its Answers, and Managed with get_session of shared/db/session.py);
--   services/gateway/auth/jwt.py and services/gateway/ws/router.py (Sockets, with its Sessions).
-- - Admin: services/admin/fraud_rules/admin.py (FraudRules), and its audit log against the rules
--   (Replay).
-- - Health: ping_database of shared/db/session.py and the probes readyz of
--   services/gateway/api/health.py, services/processor/main.py and
--   services/outbox_publisher/main.py, and when a service is ready (Readiness).
-- - Telemetry: shared/telemetry/metrics.py: what counters and gauges share (Series), Counter,
--   Gauge, Histogram, Registry and the sampling of backlogs (Backlog); Order and Ascending sort
--   labels, LabelSets tells keys from sets of labels, and Refinement, Tally and Cumulative hold
--   proofs.
-- - Tests: the theorems at concrete inputs.
--
-- The model. UUIDs and times are numbers (times in microseconds), scores are numbers of
-- ten-thousandths, amounts are exact decimals: the 28 digits of Python's decimal context are not
-- modelled, nor is the scale of a column. `t <= now - d` is written `t + d <= now`. A database is
-- a record of lists of rows; a session works on its own view of it, and a commit that the server
-- accepts makes that view the database. What a handler takes from outside is an argument: the
-- clock, read once for each handler, fresh UUIDs, the accepted or refused commit, what Redis does
-- to each command, the rows that another replica holds, pydantic's parsing, the model's score, the
-- rule cache, Python's text operations, the decoder of tokens, the estimator of scikit-learn, and,
-- for the metrics, the arithmetic of floats; the floats of the model's features and scores are
-- exact decimals. Explanations are data in place of formatted texts. The bounds that pydantic
-- checks of scores are left out, the payload of an event that a consumer of the processor reads is
-- a dict, and the floats of the metadata of a model are finite. Unique keys are tests at the write
-- that would break them. Log lines, traces, locks and messages of exceptions are left out, and so
-- are the waiting loops around the handlers and their calls of the metrics.
--
-- Bounds. No definition runs on fuel: loops are recursion on the list that they go through, and
-- the retries of ping_database on the attempts that are left. The polls of the publisher are a
-- list of rounds; the events that are pending have a number of attempts left together, and as many
-- rounds empty the outbox.
--
-- Not modelled: the start of the services and the wiring of FastAPI, the creation of tokens, the
-- read-only views and the serializers of the admin application, tracing, logging, configuration,
-- migrations and the scripts of scripts/, which are input and output, or glue over other packages.
pub mod Prelude
pub mod Shared
pub mod Alerts
pub mod Outbox
pub mod Detection
pub mod Processor
pub mod Gateway
pub mod Admin
pub mod Health
pub mod Telemetry
pub mod Tests
