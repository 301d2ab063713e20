-- ===== src/Cli.antt =====
-- cmd/mcp-connect/main.go: the commands of mcp-connect. A command that ends the process with
-- log.Fatal ends in a constructor that says where.
pub mod Login
pub mod Components
pub mod Added
mod Examples
