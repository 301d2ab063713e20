-- ===== src/Gateway.antt =====
-- internal/gateway: the limits and the checks on the requests, and the tunnels that carry them.
pub mod RateLimit
pub mod Secure
pub mod Relay
pub mod Mcp
pub mod Catalog
pub mod TokenGroups
pub mod Session
pub mod Tunnel
pub mod Hub
mod Examples
mod McpExamples
