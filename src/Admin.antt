-- ===== src/Admin.antt =====
-- internal/admin: the admin API over the discovery service (discovery.go) and over the registry
-- (handler.go).
pub mod Groups
pub mod Deleted
pub mod Overview
mod Examples
