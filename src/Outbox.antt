-- ===== src/Outbox.antt =====
-- The transactional outbox relay: services/outbox_publisher/publisher.py.
pub mod Routing
pub mod Publisher
