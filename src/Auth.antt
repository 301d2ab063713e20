-- ===== src/Auth.antt =====
-- internal/auth: device-code login of mcp-connect instances.
pub mod Store
pub mod Device
