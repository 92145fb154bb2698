-- ===== src/Alerts.antt =====
-- The life of an alert: what analysts do (services/gateway/services/alert_actions.py), what the
-- escalation scheduler does (services/processor/scheduler/escalation_scheduler.py), and how the
-- two interleave.
pub mod Actions
pub mod Escalation
pub mod Lifecycle
pub mod Interleaving
pub mod Queries
