-- ===== src/Postgres/Examples.antt =====
-- The database on small inputs.
use mcphub.Prelude.{
  ◌≡◌, refl, ℕ, none, some, true, List, [], ◌∷◌, Text, str, eqb, lookup, insert, to_upper, arith,
}
use mcphub.Auth.Store.{ok, err}
use mcphub.Auth.Device.Handlers.{
  DeviceAuth, respond, approved, tokens, code, approve, token, validate,
}
use mcphub.Discovery.Types.{Group}
use mcphub.Postgres.{Database}
use mcphub.Postgres.Auth.{
  exchange_device_code, refresh_token, revoke_token, validate_access_token, auth_store, invalid,
  new_token, access_type, refresh_type, can_exchange, can_refresh, insert_pair, pair,
}
use mcphub.Postgres.Auth.Calls.{Call, exchanges, refreshes, sets_groups, run}
use mcphub.Postgres.Auth.Once.{exchange_once}
use mcphub.Postgres.Auth.Spent.{refresh_once, revoke_final}
use mcphub.Postgres.Auth.Groups.{refresh_groups}
use mcphub.Postgres.Auth.Login.{login_stored}

abbrev hash : Text → Text
hash t = b'#' ∷ t

abbrev random : ℕ → ℕ → Text
random n k = n ∷ k ∷ []

abbrev group : Group
group = record { id = str "g"; name = str "g"; description = []; tags = []; is_default = true }

-- An approved device code, and an access and a refresh token.
abbrev full : Database
full = record {
  tenants = str "t" ∷ [];
  device_codes =
      (
        str "d",
        record {
          user_code_hash = str "u";
          tenant_id = str "t";
          expires_at = 100;
          approved_at = some 5;
          consumed_at = none;
        },
      )
      ∷ [];
  auth_tokens =
      (str "a", new_token access_type (str "t") (str "c") 100)
      ∷ (str "r", new_token refresh_type (str "t") (str "c") 100)
      ∷ [];
  token_groups = [];
  tool_groups = (str "t", (str "g", group) ∷ []) ∷ [];
  tool_catalog = [];
  group_tools = [];
  drawn = 3;
  plan = λ rs. [];
}

abbrev calls : List Call
calls =
    sets_groups (str "t") (str "a") (str "g" ∷ [])
    ∷ exchanges (str "d") 8
    ∷ refreshes (str "r") 9
    ∷ []

exchange_once_example :
    let e = run hash random calls (exchange_device_code hash random (str "d") 7 full).1 in
    exchange_device_code hash random (str "d") 10 e ≡ (err invalid, e)
unfolding exchange_device_code can_exchange insert_pair lookup insert eqb
exchange_once_example =
    exchange_once hash random (str "d") 7 10 (pair hash random 7 full) calls full refl

refresh_once_example :
    let e = run hash random calls (refresh_token hash random (str "r") 7 full).1 in
    refresh_token hash random (str "r") 10 e ≡ (err invalid, e)
unfolding refresh_token can_refresh insert_pair lookup insert eqb
refresh_once_example =
    refresh_once hash random (str "r") 7 10 (pair hash random 7 full) calls full refl

revoke_final_example :
    let e = run hash random calls (revoke_token (str "a") 7 full).1 in
    (refresh_token hash random (str "a") 10 e ≡ (err invalid, e))
    × (validate_access_token (str "a") 10 e ≡ err invalid)
unfolding lookup eqb
revoke_final_example =
    revoke_final hash random (str "a") 7 10 (new_token access_type (str "t") (str "c") 100) calls
      full refl

refresh_groups_example :
    validate_access_token (hash (32 ∷ 3 ∷ [])) 8 (refresh_token hash random (str "r") 7 full).1
    ≡ ok (record {
      tenant_id = str "t";
      connect_id = str "c";
      default_group_id = str "default";
      allowed_group_ids = str "default" ∷ [];
    })
unfolding refresh_token can_refresh insert_pair lookup insert eqb
refresh_groups_example =
    refresh_groups hash random (str "r") 7 8 (new_token refresh_type (str "t") (str "c") 100)
      (pair hash random 7 full) full refl refl (λ e. ground arith) refl (omega arith)

abbrev auth : DeviceAuth Database
auth = record {
  entries = [];
  public_url = [];
  backend = some (auth_store hash random);
  revocation = none;
  stores = full;
}

login_stored_example :
    let a1 = (code hash (str "POST") (str "t") (str "e") (str "xy") 5 auth).1 in
    let (r2, a2) = approve hash (str "POST") (str "XY") [] 6 a1 in
    let (r3, a3) = token hash (str "POST") (str "e") [] [] 7 a2 in
    (r2 ≡ respond 200 approved)
    × (r3 ≡ respond 200 (tokens (32 ∷ 3 ∷ []) (40 ∷ 4 ∷ []) 3600))
    × (validate hash (32 ∷ 3 ∷ []) 8 a3 ≡ true)
unfolding lookup eqb to_upper
login_stored_example =
    login_stored hash random auth (str "t") (str "e") (str "xy") (str "XY") [] [] [] 5 6 7 8 refl
      refl refl refl refl refl refl (λ e. ground arith) (λ e. ground arith) (λ e. ground arith) refl
      (omega arith) (omega arith) (omega arith)
