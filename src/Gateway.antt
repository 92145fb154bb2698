-- ===== src/Gateway.antt =====
-- The gateway service, services/gateway: the ingestion of transactions and the WebSocket
-- connections. Its actions on alerts are in
-- Alerts.
pub mod Ingestion
pub mod Connections
pub mod Notifications
pub mod Api
pub mod Sockets
