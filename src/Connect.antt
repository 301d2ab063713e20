-- ===== src/Connect.antt =====
-- internal/connect: the daemon that runs the connectors and keeps a tunnel to the Gateway.
pub mod Serve
pub mod Daemon
mod Examples
