-- ===== src/Postgres.antt =====
-- internal/store/postgres: the tables of the database, as far as the statements of that package read
-- and write them, with the keys and constraints of migrations/*.sql. A table with a primary key of
-- one text is a map from it. The database is reachable and a statement fails only where a constraint
-- refuses it; `violation` is the text of such an error. A statement runs as a whole, and a
-- transaction that is not committed leaves the tables as they were.
pub mod Rows
pub mod Auth
pub mod Discovery
mod Examples
mod GroupExamples
use mcphub.Prelude.{ℕ, Bool, Option, List, Text, str, Map}
use mcphub.Discovery.Types.{Group}

-- device_codes
pub record DeviceCodeRow : Type 0 where
  pub user_code_hash : Text
  pub tenant_id : Text
  pub expires_at : ℕ
  pub approved_at : Option ℕ
  pub consumed_at : Option ℕ

-- auth_tokens
pub record TokenRow : Type 0 where
  pub token_type : Text
  pub tenant_id : Text
  pub connect_id : Text
  pub expires_at : ℕ
  pub revoked_at : Option ℕ
  pub replaced_by : Option Text
  pub default_group_id : Text

-- token_groups
pub record TokenGroupRow : Type 0 where
  pub token_hash : Text
  pub tenant_id : Text
  pub group_id : Text

-- tool_catalog
pub record ToolRow : Type 0 where
  pub tenant_id : Text
  pub component_id : Text
  pub tool_name : Text
  pub description : Text
  pub input_schema : Option Text
  pub enabled : Bool

-- group_tools
pub record GroupToolRow : Type 0 where
  pub tenant_id : Text
  pub group_id : Text
  pub component_id : Text
  pub tool_name : Text

-- `tool_groups` is by tenant and by id. `drawn` counts the random texts that were drawn so far.
-- `plan` says in which order the rows of token_groups come where no order is asked for: any order.
pub record Database : Type 0 where
  pub tenants : List Text
  pub device_codes : Map DeviceCodeRow
  pub auth_tokens : Map TokenRow
  pub token_groups : List TokenGroupRow
  pub tool_groups : Map (Map Group)
  pub tool_catalog : List ToolRow
  pub group_tools : List GroupToolRow
  pub drawn : ℕ
  pub plan : List TokenGroupRow → List ℕ

abbrev pub violation : Text
violation = str "constraint violation"
