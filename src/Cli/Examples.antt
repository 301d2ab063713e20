-- ===== src/Cli/Examples.antt =====
-- The commands on inputs that hold nothing at first.
use mcphub.Prelude.{
  Map, insert, lookup-insert_self, ap, inr, ◌≡◌, ◌≤◌, refl, ℕ, ◌∷◌, [], none, some, true, Text, str,
  eqb, lookup, to_upper, arith, Option, split, fields, trim_space,
}
use mcphub.Auth.Device.Handlers.{DeviceAuth, validate}
use mcphub.Postgres.{Database}
use mcphub.Postgres.Auth.{auth_store}
use mcphub.Auth.Store.{Result, ok}
use mcphub.Connect.Daemon.{ComponentConfig, Config, Daemon}
use mcphub.Cli.Components.{
  AddFlags, DaemonFlags, Machine, down, up, Outcome, saved, load, add_command, daemon_command,
  file_of,
}
use mcphub.Cli.Added.{add-daemon}
use mcphub.Cli.Login.{got, authorization_failed, timed_out, device_login}
use mcphub.Cli.Login.Approved.{handlers, device_login_approved}
use mcphub.Cli.Login.Rounds.{counted, tally, device_login_ends}
use mcphub.Cli.Login.Stored.{device_login_refused}

abbrev hash : Text → Text
hash t = b'#' ∷ t

abbrev random : ℕ → ℕ → Text
random n k = n ∷ k ∷ []

abbrev local_auth : DeviceAuth Text
local_auth = record {
  entries = [];
  public_url = [];
  backend = none;
  revocation = none;
  stores = [];
}

abbrev gateway : Text
gateway = str "ws://h/tunnel"

device_login_approved_example :
    let (o, w) =
      device_login
        (handlers hash (str "d") (str "ab") (str "x") (str "y") (str "aB") [])
        gateway
        (record { auth = local_auth; now = 5; waits = 3 }) in
    (o ≡ got (str "x")) × (validate hash (str "x") 9 w.auth ≡ true)
unfolding lookup to_upper
device_login_approved_example =
    device_login_approved hash (str "d") (str "ab") (str "x") (str "y") (str "aB") [] gateway
      local_auth 5 2 9 refl refl refl (λ e. ground arith) refl (λ e. ground arith) (omega arith)
      (omega arith)

device_login_ends_example :
    let (o, t) =
      device_login
        (counted (handlers hash (str "d") (str "ab") (str "x") (str "y") (str "aB") []))
        gateway
        (tally 0 (record { auth = local_auth; now = 5; waits = 0 })) in
    (t.asked ≤ 120) × (o ≡ timed_out → t.asked ≡ 120)
device_login_ends_example =
    device_login_ends (handlers hash (str "d") (str "ab") (str "x") (str "y") (str "aB") []) gateway
      (record { auth = local_auth; now = 5; waits = 0 })

abbrev tables : Database
tables = record {
  tenants = str "demo" ∷ [];
  device_codes = [];
  auth_tokens = [];
  token_groups = [];
  tool_groups = [];
  tool_catalog = [];
  group_tools = [];
  drawn = 0;
  plan = λ rs. [];
}

abbrev stored_auth : DeviceAuth Database
stored_auth = record {
  entries = [];
  public_url = [];
  backend = some (auth_store hash random);
  revocation = none;
  stores = tables;
}

device_login_refused_example :
    (device_login
      (handlers hash (str "d") (str "ab") [] [] (str "AB") [])
      gateway
      (record { auth = stored_auth; now = 5; waits = 0 })).0
    ≡ authorization_failed
unfolding lookup eqb
device_login_refused_example =
    device_login_refused hash random (str "d") (str "ab") [] [] (str "AB") [] gateway stored_auth 5
      0 refl refl refl refl (ground arith)

-- No configuration file at first, and a component that runs a program.
abbrev launch : ComponentConfig → Option Text
launch c = none

abbrev save : Text → Config → Map Config → Option Text × Map Config
save p c f = (none, insert p c f)

abbrev read : Text → Map Config → Result (Option Config)
read p f = ok (lookup p f)

abbrev add_flags : AddFlags
add_flags = record {
  config = [];
  transport = str "stdio";
  command = str "npx  -y weather";
  url = [];
  allow_host = [];
  gateway = [];
}

abbrev daemon_flags : DaemonFlags
daemon_flags = record {
  config = str "/c";
  socket = [];
  gateway = [];
  connect_id = [];
  tenant_id = [];
  connect_name = [];
}

abbrev weather : ComponentConfig
weather = record {
  name = str "weather";
  transport = str "stdio";
  command = str "npx";
  args = str "-y" ∷ (str "weather" ∷ []);
  url = [];
  headers = [];
  allow_hosts = [];
  enabled = true;
}

abbrev defaults : Config
defaults = record {
  gateway_url = str "ws://127.0.0.1:3080/tunnel";
  gateway_token = [];
  tenant_id = str "demo";
  connect_id = [];
  connect_name = [];
  version = str "0.1.0";
  components = [];
}

abbrev after_add : Outcome × Machine (Map Config)
after_add = add_command launch save read (str "/c") (str "/s") (str "weather") add_flags (down [])

add-daemon_example :
    (after_add.0 ≡ saved)
    × ((d : Daemon (Map Config)) × (daemon_command launch save read
            (str "/c")
            (str "/s")
            none
            daemon_flags
            (file_of launch save read (str "/c") (str "/s") after_add.1)
          ≡ (none, up (str "/s") (str "/c") d))
        × (lookup (str "weather") d.runtimes ≡ some weather))
unfolding load split fields trim_space lookup eqb
add-daemon_example =
    add-daemon launch save read (str "/c") (str "/s") (λ p c f. refl)
      (λ p c f. ap ok (lookup-insert_self p c f)) (str "weather") add_flags daemon_flags [] defaults
      weather refl refl (refl, refl, inr (ground arith, refl), refl, refl, refl, refl) tt
      (refl, refl)
