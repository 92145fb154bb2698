-- ===== src/Tests.antt =====
-- The theorems applied at concrete inputs.
pub mod Data
pub mod OfAlerts
pub mod OfOutbox
pub mod OfDetection
pub mod OfProcessor
pub mod OfGateway
pub mod OfNotifications
pub mod OfTelemetry
pub mod OfModel
pub mod OfApi
pub mod OfCompensation
pub mod OfHealth
