-- ===== src/Detection.antt =====
-- The detection engine of services/processor/domain: the data that it exchanges, the rules, the
-- composite score and the demo override.
pub mod Schemas
pub mod Scoring
pub mod Values
pub mod Rules
pub mod Demo
pub mod MlModel
