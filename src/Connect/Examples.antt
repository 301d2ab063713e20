-- ===== src/Connect/Examples.antt =====
-- The daemon on small inputs.
use mcphub.Prelude.{
  ◌≡◌, ◌≢◌, ◌⊎◌, refl, true, false, Option, none, some, List, [], ◌∷◌, Text, str, eqb, to_lower,
  lookup, inr, All, arith,
}
use mcphub.Connector.{McpRequest}
use mcphub.Connector.Http.{Upstream, more, ends, request_headers, handle}
use mcphub.Connector.Http.Body.{answer, handle_lem}
use mcphub.Connector.Upstream.{
  Ip, Url, host_allowed, validate_upstream, new_http_connector, private_or_metadata,
}
use mcphub.Connector.Upstream.Allowed.{
  IsPublic, IsListed, name_of, addresses, new_http_connector_safe,
}
use mcphub.Connect.Daemon.{ComponentConfig, Config, Daemon, no_connection}
use mcphub.Connect.Daemon.Running.{IsConfigured}
use mcphub.Connect.Daemon.Backoff.{waits, second, expected, waits_lem}
use mcphub.Connect.Daemon.Control.{adds, removes, switches, run, run-IsConfigured}

abbrev weather : ComponentConfig
weather = record {
  name = str "weather";
  transport = str "stdio";
  command = str "weather-server";
  args = [];
  url = [];
  headers = [];
  allow_hosts = [];
  enabled = true;
}

abbrev idle : Daemon Text
idle = record {
  cfg = record {
    gateway_url = [];
    gateway_token = [];
    tenant_id = [];
    connect_id = [];
    connect_name = [];
    version = [];
    components = weather ∷ [];
  };
  runtimes = [];
  tunnel = no_connection;
  file = [];
}

idle-IsConfigured : IsConfigured idle
unfolding IsConfigured lookup
idle-IsConfigured name r found = ground arith

abbrev launch : ComponentConfig → Option Text
launch c = none

abbrev save : Config → Text → Option Text × Text
save c f = (none, f)

abbrev news : ComponentConfig
news = record weather { name = str "news" }

abbrev set : Text → Text → Text → Text
set k v h = h

abbrev get : Text → Text → Text
get k h = []

abbrev client : Text → Text → Text ⊎ Upstream
client h payload =
    inr (record { status = 200; get = λ k. []; reads = more (str "a") (ends (str "b")) })

abbrev call : McpRequest
call = record { method = str "POST"; headers = []; payload = [] }

handle_lem_example :
    handle set get client [] [] call ≡ answer (client (request_headers set get [] call []) [])
handle_lem_example = handle_lem set get client [] [] call

abbrev parse_ip : Text → Option Ip
parse_ip host = none

abbrev public_address : Ip
public_address = record {
  is_loopback = false;
  is_private = false;
  is_link_local_unicast = false;
  is_link_local_multicast = false;
  string = str "93.184.216.34";
}

abbrev lookup_ip : Text → Option (List Ip)
lookup_ip host = some (public_address ∷ [])

abbrev site : Url
site = record { scheme = str "https"; host = str "Example.com"; hostname = str "Example.com" }

new_http_connector_safe_example :
    ((site.scheme ≡ str "http") ⊎ (site.scheme ≡ str "https"))
    × (site.host ≢ [])
    × IsListed parse_ip lookup_ip site.hostname (str "Example.com" ∷ [])
    × (IsListed parse_ip lookup_ip (name_of parse_ip lookup_ip site) (str "Example.com" ∷ [])
        ⊎ All IsPublic (addresses parse_ip lookup_ip (name_of parse_ip lookup_ip site)))
    × (parse_ip (name_of parse_ip lookup_ip site) ≡ none
        → (name_of parse_ip lookup_ip site ≢ str "metadata.google.internal")
          × (name_of parse_ip lookup_ip site ≢ str "metadata")
          × (lookup_ip (name_of parse_ip lookup_ip site) ≢ none))
unfolding new_http_connector validate_upstream host_allowed private_or_metadata eqb to_lower
new_http_connector_safe_example =
    new_http_connector_safe parse_ip lookup_ip site (str "Example.com" ∷ []) refl

run-IsConfigured_example : IsConfigured (
    run launch save
      (switches (str "POST") (str "weather") true
        ∷ (adds (some news) ∷ (removes (str "weather") ∷ [])))
      idle)
run-IsConfigured_example =
    run-IsConfigured launch save
      (switches (str "POST") (str "weather") true
        ∷ (adds (some news) ∷ (removes (str "weather") ∷ [])))
      idle idle-IsConfigured

waits_lem_example :
    waits (false ∷ (false ∷ (true ∷ []))) second ≡ expected (false ∷ (false ∷ (true ∷ []))) 0
waits_lem_example = waits_lem (false ∷ (false ∷ (true ∷ [])))
