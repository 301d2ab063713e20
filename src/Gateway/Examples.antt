-- ===== src/Gateway/Examples.antt =====
-- The Gateway on small inputs.
use mcphub.Prelude.{
  ◌≡◌, ◌≢◌, ◌↔◌, ◌⊎◌, inl, inr, refl, suc, true, false, Option, none, some, List, [], ◌∷◌, ◌++◌,
  Text, str, eqb, Any, lookup, insert, min, arith,
}
use mcphub.Auth.Store.{TokenIdentity}
use mcphub.Auth.Device.Handlers.{DeviceAuth}
use mcphub.Registry
use mcphub.Registry.{Registry, RegisteredComponent, online, fresh_component, component_key}
use mcphub.Protocol.{Frame, zero_frame}
use mcphub.Connector.Http.{Upstream, more, ends, handle_stream, read_loop}
use mcphub.Connector.Http.Body.{body}
use mcphub.Gateway.Relay.{receives, closed, no_audit, relay}
use mcphub.Gateway.Relay.Single.{is_response, relay-is_response}
use mcphub.Gateway.Relay.Forward.{append, streaming, IsReceived, bytes, answered, forward_body}
use mcphub.Connect.Serve.{serve_request}
use mcphub.Gateway.Secure.{authenticate_route}
use mcphub.Gateway.Secure.Access.{Bears, authenticate_route_iff}
use mcphub.Gateway.RateLimit.{LocalLimiter}
use mcphub.Gateway.RateLimit.Bound.{accepted, calls_of, accepted_window}
use mcphub.Gateway.Session.{
  step, arrive, Event, arrives, takes, requests, new_session, request, run, take,
}
use mcphub.Gateway.Session.Delivery.{keeps_up, touches, taken, arrived, request-delivers}
use mcphub.Gateway.Tunnel.{
  on_read, on_frame, is_admitted, on_hello, Gateway, opened, route_key, frames,
}
use mcphub.Gateway.Tunnel.Routes.{Opens, frames-routes}
use mcphub.Gateway.Tunnel.Heartbeat.{heartbeat_without_hello}

abbrev chunk : Frame
chunk = record (zero_frame (str "response")) {
  stream_id = str "s";
  status = 200;
  payload = str "hi";
}

relay-is_response_example :
    is_response ((relay true false no_audit (receives chunk closed)).0) ≡ true
relay-is_response_example = relay-is_response true no_audit (receives chunk closed)

abbrev set : Text → Text → Text → Text
set k v h = h

abbrev get : Text → Text → Text
get k h = []

abbrev page : Upstream
page = record { status = 200; get = λ k. []; reads = more (str "a") (ends (str "b")) }

abbrev client : Text → Text → Text ⊎ Upstream
client h payload = inr page

abbrev refusing : Text → Text → Text ⊎ Upstream
refusing h payload = inl (str "no route to host")

-- Each frame is taken before the next one arrives, and another request comes first.
abbrev one_by_one : List Frame → List Event
one_by_one [] = []
one_by_one (f ∷ fs) = arrives f ∷ (takes 0 ∷ one_by_one fs)

abbrev deliveries : List Event
deliveries =
    requests (str "u") true
    ∷ one_by_one (serve_request append (streaming set get client [] []) chunk [])

is_received : IsReceived set get client [] [] chunk [] deliveries
unfolding IsReceived run step request arrive take new_session keeps_up touches arrived serve_request
    handle_stream read_loop lookup insert eqb
is_received = (refl, refl, refl)

forward_body_example :
    bytes ((answered set get client [] [] true chunk [] deliveries).0) ≡ body page.reads
forward_body_example =
    forward_body set get client [] [] true chunk page [] deliveries refl is_received

abbrev validate : Text → Option TokenIdentity
validate h =
    some (record {
      tenant_id = str "t";
      connect_id = [];
      default_group_id = [];
      allowed_group_ids = [];
    })

abbrev hash : Text → Text
hash t = t

authenticate_route_iff_example :
    (authenticate_route (some validate) hash [] (str "Bearer x") (str "t") ≡ true) ↔ (
      (token : Text) × Bears (str "Bearer x") token
      × (token ≢ [])
      × ((id : TokenIdentity) × (validate (hash token) ≡ some id) × (id.tenant_id ≡ str "t")))
authenticate_route_iff_example = authenticate_route_iff validate hash [] (str "Bearer x") (str "t")

abbrev unused : LocalLimiter
unused = record { windows = [] }

accepted_window_example :
    accepted (str "k") 2 10 ((str "k", 5) ∷ ((str "k", 6) ∷ ((str "k", 7) ∷ []))) unused
    ≡ min 2 (suc (calls_of (str "k") ((str "k", 6) ∷ ((str "k", 7) ∷ []))))
unfolding lookup
accepted_window_example =
    accepted_window (str "k") 2 10 5 ((str "k", 6) ∷ ((str "k", 7) ∷ [])) unused (omega arith)
      (omega arith) refl ((λ e. omega arith), ((λ e. omega arith), tt))

abbrev events : List Event
events = arrives chunk ∷ (requests (str "u") true ∷ (takes 0 ∷ []))

request-delivers_example :
    taken 0 events (request (str "s") true new_session).1
      ++ (run events (request (str "s") true new_session).1).buffers 0
    ≡ arrived (str "s") events
unfolding new_session run keeps_up eqb request step touches arrive lookup insert
request-delivers_example = request-delivers [] (str "s") events refl

abbrev devices : DeviceAuth Text
devices = record { entries = []; public_url = []; backend = none; revocation = none; stores = [] }

abbrev weather : RegisteredComponent
weather =
    record (fresh_component (record {
      tenant_id = str "t";
      connect_id = str "c";
      connect_name = [];
      version = [];
      component_id = str "w";
      component_name = str "weather";
      transport = [];
      upstream = [];
      remote = [];
      now = 1;
    })) { last_heartbeat = 1 }

abbrev gateway : Gateway Text Text
gateway = record {
  connect_token = str "secret";
  devices = devices;
  registry = record { connects = []; components = (str "t:c:w", weather) ∷ [] };
  sessions = [];
  connect_store = none;
  presence_store = none;
  stores = [];
}

abbrev hello : Frame
hello = record (zero_frame (str "hello")) {
  gateway_token = str "secret";
  tenant_id = str "t";
  connect_id = str "d";
  component_id = str "v";
  component_name = str "news";
}

abbrev beat : Frame
beat = record (zero_frame (str "heartbeat")) {
  tenant_id = str "t";
  connect_id = str "c";
  component_id = str "w";
}

frames-routes_example :
    (lookup (str "t:v") gateway.sessions ≡ some 1)
    ⊎ Any (Opens hash [] 1 (str "t:v") gateway) ((5, hello) ∷ [])
unfolding frames on_read on_frame is_admitted on_hello route_key eqb insert lookup Registry.register
    Registry.name_taken Registry.clashes
frames-routes_example = frames-routes hash [] 1 (str "t:v") ((5, hello) ∷ []) opened gateway refl

heartbeat_without_hello_example :
    lookup
      (component_key (str "t") (str "c") (str "w"))
      (frames hash [] 1 ((7, beat) ∷ []) (opened, gateway)).1.registry.components
    ≡ some (record weather { status = online; last_heartbeat = 7; last_error = [] })
unfolding component_key lookup eqb
heartbeat_without_hello_example =
    heartbeat_without_hello hash [] 1 beat 7 gateway weather refl (ground arith) (ground arith) refl
