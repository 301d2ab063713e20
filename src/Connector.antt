-- ===== src/Connector.antt =====
-- internal/connector/connector.go: what passes between a connect and its MCP servers.
pub mod Http
pub mod Upstream
use mcphub.Prelude.{ℕ, Bool, Text, Map}

pub record McpRequest : Type 0 where
  pub method : Text
  pub headers : Map Text
  pub payload : Text

pub record McpResponse : Type 0 where
  pub status : ℕ
  pub headers : Map Text
  pub payload : Text
  pub end_of_stream : Bool
