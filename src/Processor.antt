-- ===== src/Processor.antt =====
-- The processor service, services/processor: the detection pipeline, the compensation of risk
-- profiles, and the consumers that run them at most once for each event.
pub mod Context
pub mod Pipeline
pub mod RuleCache
pub mod Messages
pub mod TransactionConsumer
pub mod Compensation
pub mod CompensationConsumer
