-- ===== src/Postgres/Auth/Calls.antt =====
-- The methods of the auth store as calls, in any sequence.
use mcphub.Prelude.{ℕ, List, [], ◌∷◌, Text}
use mcphub.Auth.Store.{DeviceCodeInput}
use mcphub.Postgres.{Database}
use mcphub.Postgres.Auth.{
  create_device_code, approve_device_code, exchange_device_code, refresh_token, revoke_token,
  set_token_groups,
}

pub data Call : Type 0 where
  creates : DeviceCodeInput → Call
  approves exchanges refreshes revokes : Text → ℕ → Call
  sets_groups : Text → Text → List Text → Call

module _ (hash : Text → Text) (random : ℕ → ℕ → Text) where
  -- The tables that a call leaves, whether it fails or not.
  unfoldable pub step : Call → Database → Database
  step (creates i) d = (create_device_code i d).1
  step (approves user now) d = (approve_device_code user now d).1
  step (exchanges device now) d = (exchange_device_code hash random device now d).1
  step (refreshes refresh now) d = (refresh_token hash random refresh now d).1
  step (revokes token now) d = (revoke_token token now d).1
  step (sets_groups tenant token groups) d = (set_token_groups tenant token groups d).1

  unfoldable pub run : List Call → Database → Database
  run [] d = d
  run (c ∷ cs) d = run cs (step c d)
