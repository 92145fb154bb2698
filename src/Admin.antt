-- ===== src/Admin.antt =====
-- The admin service, services/admin: how it changes fraud rules.
pub mod FraudRules
pub mod Replay
