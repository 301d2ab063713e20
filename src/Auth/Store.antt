-- ===== src/Auth/Store.antt =====
-- The interfaces of internal/store/store.go that device login uses. The stores behind them are
-- PostgreSQL and Redis; a value of these records is what the login sees of them. `S` is the state
-- of the stores.
use mcphub.Prelude.{ℕ, Bool, Option, List, Text}

-- store.TokenPair
pub record TokenPair : Type 0 where
  pub access_token : Text
  pub refresh_token : Text
  pub access_expires_at : ℕ
  pub refresh_expires_at : ℕ

-- store.TokenIdentity
pub record TokenIdentity : Type 0 where
  pub tenant_id : Text
  pub connect_id : Text
  pub default_group_id : Text
  pub allowed_group_ids : List Text

-- store.DeviceCodeInput
pub record DeviceCodeInput : Type 0 where
  pub device_code_hash : Text
  pub user_code_hash : Text
  pub tenant_id : Text
  pub expires_at : ℕ

-- A value, or the text of an error.
pub data Result (A : Type 0) : Type 0 where
  ok : A → Result A
  err : Text → Result A

-- store.AuthStore: each method reads and changes the state of the store.
pub record AuthStore (S : Type 0) : Type 0 where
  pub create_device_code : DeviceCodeInput → S → Result (Unit {0}) × S
  pub approve_device_code : Text → ℕ → S → Result (Unit {0}) × S
  pub exchange_device_code : Text → ℕ → S → Result TokenPair × S
  pub refresh_token : Text → ℕ → S → Result TokenPair × S
  pub revoke_token : Text → ℕ → S → Result (Unit {0}) × S
  pub validate_access_token : Text → ℕ → S → Result TokenIdentity

-- The methods of store.PresenceStore for revoked tokens.
pub record RevocationStore (S : Type 0) : Type 0 where
  pub mark_token_revoked : Text → ℕ → S → Result (Unit {0}) × S
  pub token_revoked : Text → S → Result Bool

-- store.TokenGroupStore
pub record GroupStore (S : Type 0) : Type 0 where
  pub get_token_groups : Text → Text → ℕ → S → Result TokenIdentity
  pub set_token_groups : Text → Text → List Text → S → Option Text × S
