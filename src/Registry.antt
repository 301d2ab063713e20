-- ===== src/Registry.antt =====
-- internal/registry/registry.go: the Gateway's in-memory table of connect instances and of the
-- components that they registered. A method that mutates `*Registry` under its lock returns the
-- new record. Time is a count of nanoseconds; `now.Sub(t) > ttl` is `t + ttl < now`.
mod Keys
pub mod Names
pub mod History
pub mod Register
pub mod Liveness
pub mod Collision
pub mod Snapshot
mod Examples
use mcphub.Prelude.{
  change_at, ℕ, ◌+◌, Bool, true, false, not, ◌&&◌, ◌||◌, Option, none, some, List, [], ◌∷◌, ◌++◌,
  Text, str, eqb, Map, lookup, insert, map_values, any, ltb, if◌then◌else◌,
}

pub data Status : Type 0 where
  online offline : Status

pub data Error : Type 0 where
  component_name_taken component_not_found : Error

abbrev pub heartbeat_ttl : ℕ
heartbeat_ttl = 30000000000

pub record ConnectInstance : Type 0 where
  pub id : Text
  pub tenant_id : Text
  pub name : Text
  pub version : Text
  pub status : Status
  pub connected_at : ℕ
  pub last_heartbeat : ℕ
  pub remote_addr : Text

pub record RegisteredComponent : Type 0 where
  pub id : Text
  pub tenant_id : Text
  pub connect_id : Text
  pub name : Text
  pub transport : Text
  pub upstream_url : Text
  pub status : Status
  pub last_heartbeat : ℕ
  pub registered_at : ℕ
  pub public_url : Text
  pub last_error : Text

pub record Registry : Type 0 where
  pub connects : Map ConnectInstance
  pub components : Map RegisteredComponent

unfoldable pub new : Registry
new = record { connects = []; components = [] }

abbrev pub colon : Text
colon = b':' ∷ []

unfoldable pub connect_key : Text → Text → Text
connect_key tenant_id connect_id = tenant_id ++ (colon ++ connect_id)

unfoldable pub component_key : Text → Text → Text → Text
component_key tenant_id connect_id component_id =
    tenant_id ++ (colon ++ (connect_id ++ (colon ++ component_id)))

-- The arguments of `Register`.
pub record Registration : Type 0 where
  pub tenant_id : Text
  pub connect_id : Text
  pub connect_name : Text
  pub version : Text
  pub component_id : Text
  pub component_name : Text
  pub transport : Text
  pub upstream : Text
  pub remote : Text
  pub now : ℕ

-- The test of the loop over the components: another component of the tenant has the name.
unfoldable pub clashes : Registration → RegisteredComponent → Bool
clashes a existing =
    eqb existing.tenant_id a.tenant_id
    && eqb existing.name a.component_name
    && (not (eqb existing.connect_id a.connect_id) || not (eqb existing.id a.component_id))

-- The loop over the components, which returns at the first clash.
unfoldable pub name_taken : Registration → Registry → Bool
name_taken a r = any (λ (e : Text × RegisteredComponent). clashes a e.1) r.components

abbrev pub fresh_connect : Registration → ConnectInstance
fresh_connect a = record {
  id = a.connect_id;
  tenant_id = a.tenant_id;
  name = [];
  version = [];
  status = offline;
  connected_at = a.now;
  last_heartbeat = 0;
  remote_addr = [];
}

abbrev pub or_else {ℓ} : {A : Type ℓ} → Option A → A → A
or_else none d = d
or_else (some a) d = a

-- The entry of the connect, found or made, with the fields that `Register` sets.
unfoldable pub register_connect : Registration → Option ConnectInstance → ConnectInstance
register_connect a found = record (or_else found (fresh_connect a)) {
  name = a.connect_name;
  version = a.version;
  status = online;
  last_heartbeat = a.now;
  remote_addr = a.remote;
}

abbrev pub fresh_component : Registration → RegisteredComponent
fresh_component a = record {
  id = a.component_id;
  tenant_id = a.tenant_id;
  connect_id = a.connect_id;
  name = [];
  transport = [];
  upstream_url = [];
  status = offline;
  last_heartbeat = 0;
  registered_at = a.now;
  public_url = [];
  last_error = [];
}

unfoldable pub public_url : Text → Text → Text
public_url tenant_id component_id = str "/mcp/" ++ (tenant_id ++ (str "/" ++ component_id))

-- The entry of the component, found or made, with the fields that `Register` sets.
unfoldable pub register_component : Registration → Option RegisteredComponent → RegisteredComponent
register_component a found = record (or_else found (fresh_component a)) {
  name = a.component_name;
  transport = a.transport;
  upstream_url = a.upstream;
  tenant_id = a.tenant_id;
  status = online;
  last_heartbeat = a.now;
  public_url = public_url a.tenant_id a.component_id;
  last_error = [];
}

abbrev pub key_of : Registration → Text
key_of a = component_key a.tenant_id a.connect_id a.component_id

unfoldable pub register : Registration → Registry → Option Error × Registry
unfolding name_taken
register a r = if name_taken a r then (some component_name_taken, r) else (
  none,
  record {
    connects =
        let key = connect_key a.tenant_id a.connect_id in
        insert key (register_connect a (lookup key r.connects)) r.connects;
    components =
        insert (key_of a) (register_component a (lookup (key_of a) r.components)) r.components;
  },
)

unfoldable pub heartbeat : Text → Text → Text → ℕ → Registry → Registry
heartbeat tenant_id connect_id component_id now r = record {
  connects =
      change_at (connect_key tenant_id connect_id)
        (λ (c : ConnectInstance). record c { status = online; last_heartbeat = now }) r.connects;
  components =
      change_at (component_key tenant_id connect_id component_id)
        (λ (c : RegisteredComponent). record c {
          status = online;
          last_heartbeat = now;
          last_error = [];
        })
        r.components;
}

abbrev pub set_offline : RegisteredComponent → RegisteredComponent
set_offline c = record c { status = offline }

abbrev pub disconnect_one : Text → Text → RegisteredComponent → RegisteredComponent
disconnect_one tenant_id connect_id c =
    if eqb c.tenant_id tenant_id && eqb c.connect_id connect_id then set_offline c else c

unfoldable pub disconnect : Text → Text → Registry → Registry
disconnect tenant_id connect_id r = record {
  connects =
      change_at (connect_key tenant_id connect_id)
        (λ (c : ConnectInstance). record c { status = offline }) r.connects;
  components = map_values (disconnect_one tenant_id connect_id) r.components;
}

unfoldable pub disconnect_component : Text → Text → Text → Registry → Registry
disconnect_component tenant_id connect_id component_id r = record r {
  components = change_at (component_key tenant_id connect_id component_id) set_offline r.components;
}

abbrev pub is_stale : ℕ → ℕ → Bool
is_stale now last_heartbeat = ltb (last_heartbeat + heartbeat_ttl) now

abbrev pub expire_connect : ℕ → ConnectInstance → ConnectInstance
expire_connect now c = if is_stale now c.last_heartbeat then record c { status = offline } else c

abbrev pub expire_component : ℕ → RegisteredComponent → RegisteredComponent
expire_component now c = if is_stale now c.last_heartbeat then set_offline c else c

unfoldable pub expire : ℕ → Registry → Registry
expire now r = record {
  connects = map_values (expire_connect now) r.connects;
  components = map_values (expire_component now) r.components;
}

find_id : Text → Map RegisteredComponent → Option RegisteredComponent
find_id id [] = none
find_id id ((key, c) ∷ m) = if eqb c.id id then some c else find_id id m

-- `Component`: the first entry with the id, whatever its tenant.
unfoldable pub component : Text → Registry → Option RegisteredComponent
unfolding find_id
component id r = find_id id r.components

unfoldable pub restore_connect : ConnectInstance → Registry → Registry
restore_connect c r = record r { connects = insert (connect_key c.tenant_id c.id) c r.connects }

unfoldable pub restore_component : RegisteredComponent → Registry → Registry
restore_component c r = record r {
  components = insert (component_key c.tenant_id c.connect_id c.id) c r.components;
}
