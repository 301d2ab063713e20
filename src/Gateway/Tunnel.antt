-- ===== src/Gateway/Tunnel.antt =====
-- handleTunnel of internal/gateway/gateway.go: what a connect's hello and heartbeat frames do to
-- the Gateway, and what the end of its tunnel does. A session is named by a number. The connect
-- store and the presence store are interfaces of internal/store/store.go; `T` is what they change.
pub mod Routes
pub mod Heartbeat
use mcphub.Prelude.{
  ℕ, Bool, true, false, not, ◌&&◌, ◌||◌, Option, none, some, List, [], ◌∷◌, ◌++◌, Text, str, eqb,
  Map, lookup, insert, erase, ◌==◌, if◌then◌else◌,
}
use mcphub.Protocol.{Frame, zero_frame}
use mcphub.Registry.{
  Registry, Registration, register, heartbeat, disconnect, component_name_taken,
  component_not_found,
}
use mcphub.Registry
use mcphub.Auth.Device.Handlers.{DeviceAuth, validate}

-- store.ConnectStore: an error is `some`. The arguments of RegisterConnect are those of the
-- registry's Register.
pub record ConnectStore (T : Type 0) : Type 0 where
  pub register_connect : Registration → T → Option Text × T
  pub heartbeat : Text → Text → Text → ℕ → T → Option Text × T
  pub disconnect : Text → Text → ℕ → T → Option Text × T

-- The methods of store.PresenceStore that a tunnel calls; their errors are dropped.
pub record PresenceStore (T : Type 0) : Type 0 where
  pub set_connect_heartbeat : Text → Text → T → T
  pub set_component_heartbeat : Text → Text → Text → T → T
  pub clear_connect : Text → Text → T → T

pub record Gateway (S T : Type 0) : Type 0 where
  pub connect_token : Text
  pub devices : DeviceAuth S
  pub registry : Registry
  pub sessions : Map ℕ
  pub connect_store : Option (ConnectStore T)
  pub presence_store : Option (PresenceStore T)
  pub stores : T

-- The variables of one tunnel.
pub record Tunnel : Type 0 where
  pub connect_id : Text
  pub tenant_id : Text

abbrev pub opened : Tunnel
opened = record { connect_id = []; tenant_id = str "demo" }

-- What the callback does besides: a frame that it writes, the connection that it closes, and the
-- refresh of a component's catalog that it starts.
pub data Effect : Type 0 where
  writes : Frame → Effect
  closes : Effect
  refreshes : Text → Text → Effect

unfoldable pub route_key : Text → Text → Text
route_key tenant component = tenant ++ (str ":" ++ component)

abbrev pub or_else : Text → Text → Text
or_else a b = if eqb a [] then b else a

abbrev pub message : Registry.Error → Text
message component_name_taken = str "component name is already registered in tenant"
message component_not_found = str "component not found"

abbrev pub error_frame : Text → Text → Frame
error_frame component error = record (zero_frame (str "error")) {
  component_id = component;
  error = error;
}

-- The arguments of Register that a hello gives, with the remote address and the time.
abbrev pub registration : Text → Text → Text → ℕ → Frame → Registration
registration tenant connect remote now f = record {
  tenant_id = tenant;
  connect_id = connect;
  connect_name = f.connect_name;
  version = f.version;
  component_id = f.component_id;
  component_name = f.component_name;
  transport = f.transport;
  upstream = f.upstream_url;
  remote = remote;
  now = now;
}

abbrev pub is_hello : Frame → Bool
is_hello f = eqb f.type (str "hello")

-- The loop that deletes the session's routes.
unfoldable pub drop_routes : ℕ → Map ℕ → Map ℕ → Map ℕ
drop_routes me [] m = m
drop_routes me ((name, cur) ∷ l) m =
    let rest = drop_routes me l m in if cur == me then erase name rest else rest

abbrev pub Outcome : Type 0 → Type 0 → Type 0
Outcome S T = List Effect × (Tunnel × Gateway S T)

module _ {T : Type 0} where
  abbrev pub store_heartbeat : Option (ConnectStore T) → Text → Text → Text → ℕ → T → T
  store_heartbeat none tenant id component now s = s
  store_heartbeat (some b) tenant id component now s = (b.heartbeat tenant id component now s).1

  abbrev pub mark_presence : Option (PresenceStore T) → Text → Text → Text → T → T
  mark_presence none tenant id component s = s
  mark_presence (some p) tenant id component s =
      p.set_component_heartbeat tenant id component (p.set_connect_heartbeat tenant id s)

  abbrev pub store_registration : Option (ConnectStore T) → Registration → T → Option Text × T
  store_registration none a s = (none, s)
  store_registration (some b) a s = b.register_connect a s

  abbrev pub store_disconnect : Option (ConnectStore T) → Text → Text → ℕ → T → T
  store_disconnect none tenant id now s = s
  store_disconnect (some b) tenant id now s = (b.disconnect tenant id now s).1

  abbrev pub clear_presence : Option (PresenceStore T) → Text → Text → T → T
  clear_presence none tenant id s = s
  clear_presence (some p) tenant id s = p.clear_connect tenant id s

module _ {S T : Type 0} (hash : Text → Text) (remote : Text) (me : ℕ) where
  -- The guard of a hello: no token is asked for, or it is the Gateway's, or a login's.
  unfoldable pub is_admitted : Text → ℕ → Gateway S T → Bool
  is_admitted token now g =
      (eqb g.connect_token [] || eqb token g.connect_token) || validate hash token now g.devices

  unfoldable pub on_heartbeat : Frame → ℕ → Tunnel → Gateway S T → Outcome S T
  on_heartbeat f now t g =
      let tenant = or_else (or_else f.tenant_id t.tenant_id) (str "demo") in
      let id = or_else f.connect_id t.connect_id in
      (
        [],
        (
          record t { tenant_id = tenant },
          record g {
            registry = heartbeat tenant id f.component_id now g.registry;
            stores =
                mark_presence g.presence_store tenant id f.component_id
                  (store_heartbeat g.connect_store tenant id f.component_id now g.stores);
          },
        ),
      )

  -- The end of a hello, once the store was asked.
  abbrev pub route : Option Text × T → Registration → Tunnel → Gateway S T → Outcome S T
  route (some e, s) a t g =
      (writes (error_frame a.component_id e) ∷ [], (t, record g { stores = s }))
  route (none, s) a t g = (
    refreshes a.tenant_id a.component_id ∷ [],
    (
      t,
      record g {
        stores = mark_presence g.presence_store a.tenant_id a.connect_id a.component_id s;
        sessions = insert (route_key a.tenant_id a.component_id) me g.sessions;
      },
    ),
  )

  abbrev pub registered :
      Option Registry.Error × Registry → Registration → Tunnel → Gateway S T → Outcome S T
  registered (some e, r) a t g =
      (writes (error_frame a.component_id (message e)) ∷ [], (t, record g { registry = r }))
  registered (none, r) a t g =
      route (store_registration g.connect_store a g.stores) a t (record g { registry = r })

  unfoldable pub on_hello : Frame → ℕ → Tunnel → Gateway S T → Outcome S T
  unfolding route_key
  on_hello f now t g =
      if eqb f.component_id []
      then ([], (t, g))
      else let tenant = or_else f.tenant_id t.tenant_id in
        let connect = or_else f.connect_id f.component_id in
        let a = registration tenant connect remote now f in
        registered (register a g.registry) a (record { connect_id = connect; tenant_id = tenant }) g

  -- The callback of readLoop, which is called on hello and heartbeat frames only.
  unfoldable pub on_frame : Frame → ℕ → Tunnel → Gateway S T → Outcome S T
  unfolding is_admitted on_heartbeat on_hello
  on_frame f now t g =
      if is_hello f && not (is_admitted f.gateway_token now g)
      then (
        writes (record (zero_frame (str "error")) { error = str "invalid connect token" })
            ∷ (closes ∷ []),
        (t, g),
      )
      else if eqb f.type (str "heartbeat")
      then on_heartbeat f now t g
      else on_hello f now t g

  -- The body of readLoop on a frame, as far as the callback goes.
  unfoldable pub on_read : Frame → ℕ → Tunnel → Gateway S T → Outcome S T
  unfolding on_frame
  on_read f now t g =
      if is_hello f || eqb f.type (str "heartbeat") then on_frame f now t g else ([], (t, g))

  -- readLoop on the frames that arrive, with their times.
  unfoldable pub frames : List (ℕ × Frame) → Tunnel × Gateway S T → Tunnel × Gateway S T
  unfolding on_read
  frames [] x = x
  frames ((now, f) ∷ fs) (t, g) = frames fs (on_read f now t g).1

  abbrev pub disconnected : Tunnel → ℕ → Gateway S T → Gateway S T
  disconnected t now g = if eqb t.connect_id [] then g else record g {
    registry = disconnect t.tenant_id t.connect_id g.registry;
    stores =
        clear_presence g.presence_store t.tenant_id t.connect_id
          (store_disconnect g.connect_store t.tenant_id t.connect_id now g.stores);
  }

  -- What follows the end of readLoop.
  unfoldable pub finish : ℕ → Tunnel × Gateway S T → Gateway S T
  unfolding drop_routes
  finish now (t, g) =
      let g = disconnected t now g in record g { sessions = drop_routes me g.sessions g.sessions }

  -- `handleTunnel` on an upgraded connection.
  unfoldable pub handle_tunnel : List (ℕ × Frame) → ℕ → Gateway S T → Gateway S T
  unfolding frames finish
  handle_tunnel fs now g = finish now (frames fs (opened, g))
