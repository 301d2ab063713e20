-- ===== src/Cli/Login.antt =====
-- `deviceLogin`, `normalizeGatewayURL` and the configuration that `login` saves. A value of `Server` is
-- what the command sees of the Gateway and of time: `W` is their state, none stands for a request that
-- failed, and a wait passes nanoseconds.
pub mod Approved
pub mod Rounds
pub mod Stored
use mcphub.Prelude.{
  ℕ, suc, zero, ◌*◌, ◌-◌, Bool, true, false, not, Option, none, some, List, [], ◌∷◌, ◌++◌, Text,
  str, eqb, has_prefix, trim_prefix, trim_suffix, replace_one, trim_space, leb, ◌==◌, ◌⊎◌, inl, inr,
  if◌then◌else◌,
}
use mcphub.Auth.Device.Handlers.{Body, empty, device_code, tokens, Response}
use mcphub.Connect.Daemon.{Config, or_else}

unfoldable pub normalize_gateway_url : Text → Text
unfolding has_prefix
normalize_gateway_url value =
    let value = trim_space value in
    if has_prefix value (str "http://")
    then str "ws://" ++ trim_prefix value (str "http://")
    else if has_prefix value (str "https://")
    then str "wss://" ++ trim_prefix value (str "https://")
    else value

-- The base of the addresses that `deviceLogin` asks.
unfoldable pub login_base : Text → Text
unfolding trim_suffix replace_one
login_base gateway =
    let base = trim_suffix (trim_suffix gateway (str "/tunnel")) (str "/") in
    replace_one (replace_one base (str "wss://") (str "https://")) (str "ws://") (str "http://")

pub record Server (W : Type 0) : Type 0 where
  pub ask_code : Text → W → Option Response × W
  pub ask_token : Text → Text → W → Option Response × W
  pub sleep : ℕ → W → W

-- The token, or where the command ended.
pub data Outcome : Type 0 where
  got : Text → Outcome
  code_failed unreadable_code authorization_failed timed_out : Outcome

abbrev pub second : ℕ
second = 1000000000

-- `interval`, which the handler fixes to five seconds, as the command does where it is missing.
abbrev pub interval : ℕ
interval = 5 * second

-- The field device_code of a decoded body, and whether the body is JSON.
abbrev pub device_of : Body → Text
device_of (device_code device user uri) = device
device_of _ = []

abbrev pub is_json : Body → Bool
is_json empty = false
is_json _ = true

-- The field access_token of a decoded body, empty where it cannot be decoded.
abbrev pub access_of : Body → Text
access_of (tokens access refresh seconds) = access
access_of _ = []

module _ {W : Type 0} (server : Server W) (base : Text) where
  -- One round of the loop, after the answer: `again` is the rest of the loop.
  abbrev pub answered : Option Response × W → (W → Outcome × W) → Outcome × W
  answered (none, w) again = again w
  answered (some r, w) again =
      if r.status == 428
      then again w
      else if leb 300 r.status
      then (authorization_failed, w)
      else if eqb (access_of r.body) []
      then again w
      else (got (access_of r.body), w)

  -- The loop, with the number of rounds that are left.
  unfoldable pub poll : ℕ → Text → W → Outcome × W
  poll zero device w = (timed_out, w)
  poll (suc n) device w =
      answered (server.ask_token base device (server.sleep interval w)) (poll n device)

  abbrev pub coded : Option Response × W → Outcome × W
  coded (none, w) = (code_failed, w)
  coded (some r, w) =
      if leb 300 r.status
      then (code_failed, w)
      else if not (is_json r.body)
      then (unreadable_code, w)
      else poll 120 (device_of r.body) w

unfoldable pub device_login : {W : Type 0} → Server W → Text → W → Outcome × W
unfolding login_base poll
device_login server gateway w =
    coded server (login_base gateway) (server.ask_code (login_base gateway) w)

-- The flags of `login`.
pub record LoginFlags : Type 0 where
  pub gateway : Text
  pub token : Text
  pub tenant_id : Text
  pub connect_id : Text
  pub connect_name : Text

abbrev pub with_names : LoginFlags → Text → Config → Config
with_names f token c =
    let id = or_else (or_else f.connect_id c.connect_id) (str "local") in
    record c {
      gateway_url = normalize_gateway_url f.gateway;
      tenant_id = f.tenant_id;
      gateway_token = token;
      connect_id = id;
      connect_name = or_else (or_else f.connect_name c.connect_name) id;
    }

abbrev pub login_done : LoginFlags → Config → {W : Type 0} → Outcome × W → (Outcome ⊎ Config) × W
login_done f c (got token, w) = (inr (with_names f token c), w)
login_done f c (o, w) = (inl o, w)

-- `login`, up to the configuration that it saves, or where it ended.
unfoldable pub login_config :
    {W : Type 0} → Server W → LoginFlags → Config → W → (Outcome ⊎ Config) × W
unfolding device_login normalize_gateway_url
login_config server f c w =
    if not (eqb f.token [])
    then (inr (with_names f f.token c), w)
    else if not (eqb c.gateway_token [])
    then (inr (with_names f c.gateway_token c), w)
    else login_done f c (device_login server f.gateway w)
