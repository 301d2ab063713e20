-- ===== src/Cli/Login/Stored.antt =====
-- `deviceLogin` against the handlers of internal/auth over PostgreSQL.
use mcphub.Prelude.{
  ℕ, zero, suc, ◌+◌, ◌≡◌, ◌≢◌, refl, true, false, none, some, [], Text, str, eqb, to_upper, lookup,
  insert, lookup-insert_self, any,
}
use mcphub.Auth.Store.{err}
use mcphub.Auth.Device.Entries.{new_entry}
use mcphub.Auth.Device.Handlers.{DeviceAuth, respond, error, token}
use mcphub.Postgres.{Database, DeviceCodeRow}
use mcphub.Postgres.Auth.{auth_store, exchange_device_code, can_exchange, has_user_code, invalid}
use mcphub.Postgres.Auth.Stages.{code_lem, new_row}
use mcphub.Cli.Login.{authorization_failed, poll, device_login, login_base, interval}
use mcphub.Cli.Login.Approved.{handlers, wait}

module _ (hash : Text → Text) (random : ℕ → ℕ → Text) where
  exchange_unapproved :
      (h : Text) (now : ℕ) (r : DeviceCodeRow) (d : Database)
      → lookup h d.device_codes ≡ some r
      → r.approved_at ≡ none
      → exchange_device_code hash random h now d ≡ (err invalid, d)
  unfolding exchange_device_code can_exchange
  exchange_unapproved h now r d found none_yet = rw (found, none_yet) refl

  -- Over PostgreSQL a poll for a code that nobody approved yet answers 400, not 428.
  token_unapproved :
      (a : DeviceAuth Database) (device access refresh : Text) (now : ℕ) (r : DeviceCodeRow)
      → a.backend ≡ some (auth_store hash random)
      → lookup (hash device) a.stores.device_codes ≡ some r
      → r.approved_at ≡ none
      → token hash (str "POST") device access refresh now a ≡ (respond 400 (error invalid), a)
  unfolding token auth_store eqb
  token_unapproved a device access refresh now r stored found none_yet =
      rw (stored, exchange_unapproved (hash device) now r a.stores found none_yet) refl

  poll_refused :
      (device user access refresh form json base : Text) (a : DeviceAuth Database) (now waits n : ℕ)
      (r : DeviceCodeRow)
      → a.backend ≡ some (auth_store hash random)
      → lookup (hash device) a.stores.device_codes ≡ some r
      → r.approved_at ≡ none
      → waits ≢ 1
      → (poll
          (handlers hash device user access refresh form json)
          base
          (suc n)
          device
          (record { auth = a; now = now; waits = waits })).0
        ≡ authorization_failed
  unfolding poll handlers wait
  poll_refused device user access refresh form json base a now zero n r stored found none_yet ne =
      rw (token_unapproved a device access refresh (now + interval) r stored found none_yet) refl
  poll_refused device user access refresh form json base a now (suc zero) n r stored found none_yet
        ne =
      absurd (ne refl)
  poll_refused device user access refresh form json base a now (suc (suc k)) n r stored found
        none_yet ne =
      rw (token_unapproved a device access refresh (now + interval) r stored found none_yet) refl

  -- `mcp-connect login` at a Gateway with PostgreSQL: when the user never approves the code, or approves
  -- it at the end of the second wait of the command or a later one, the command ends with a failed
  -- authorization: the first poll is refused. The tenant demo is known and the hashes of the codes are new.
  pub device_login_refused :
      (device user access refresh form json gateway : Text) (a : DeviceAuth Database)
      (start waits : ℕ)
      → a.backend ≡ some (auth_store hash random)
      → any (λ t. eqb t (str "demo")) a.stores.tenants ≡ true
      → lookup (hash device) a.stores.device_codes ≡ none
      → has_user_code (hash (to_upper user)) a.stores.device_codes ≡ false
      → waits ≢ 1
      → (device_login
          (handlers hash device user access refresh form json)
          gateway
          (record { auth = a; now = start; waits = waits })).0
        ≡ authorization_failed
  unfolding device_login handlers
  device_login_refused device user access refresh form json gateway a start waits stored known new
        others late =
      let row = new_row (hash (to_upper user)) (str "demo") start in
      let a1 = record a {
        entries = insert device (new_entry device user start) a.entries;
        stores = record (a.stores) {
          device_codes = insert (hash device) row a.stores.device_codes;
        };
      } in
      rw (code_lem hash random a [] device user start stored known new others) (
        poll_refused device user access refresh form json (login_base gateway) a1 start waits 119
          row stored (lookup-insert_self (hash device) row a.stores.device_codes) refl late)
