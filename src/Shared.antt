-- ===== src/Shared.antt =====
-- The packages under shared/ that every service imports: enums, errors, event names, JSON values,
-- the tables and the database session.
pub mod Enums
pub mod Errors
pub mod Events
pub mod Json
pub mod Models
pub mod Session
