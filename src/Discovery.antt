-- ===== src/Discovery.antt =====
-- internal/discovery/service.go: groups of tools for each tenant, the tool catalog, and the
-- queries of the Hub. An object of JSON is its text; a nil map is `none`.
pub mod Types
pub mod Groups
pub mod Tools
pub mod Replace
pub mod Queries
pub mod History
pub mod Access
pub mod Isolation
mod Examples
