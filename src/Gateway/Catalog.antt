-- ===== src/Gateway/Catalog.antt =====
-- refreshDiscovery of internal/gateway/discovery_refresh.go, and handleCatalogRefresh of gateway.go, which
-- starts it. `C` is the state of the catalog cache, which the Gateways share; the JSON codec of the tools is
-- a parameter. A write to the cache drops its error.
use mcphub.Prelude.{
  ℕ, ◌*◌, Bool, true, false, not, ◌||◌, Option, none, some, List, [], ◌∷◌, Text, str, eqb, Map,
  lookup, split, trim_byte, trim_prefix, if◌then◌else◌,
}
use mcphub.Auth.Store.{Result, ok, err}
use mcphub.Protocol.{Frame, zero_frame}
use mcphub.Discovery.Types.{Tool, Service}
use mcphub.Discovery.Tools.{replace_tools}
use mcphub.Gateway.Tunnel.{route_key}

-- store.CatalogCache
pub record CatalogCache (C : Type 0) : Type 0 where
  pub get_catalog : Text → Text → C → Result Text
  pub set_catalog : Text → Text → Text → ℕ → C → C
  pub try_catalog_lock : Text → Text → ℕ → C → Result Bool × C

-- json.Marshal and json.Unmarshal on the tools, and on the answer of a component.
pub record Codec : Type 0 where
  pub encode : List Tool → Option Text
  pub decode : Text → Option (List Tool)
  pub decode_answer : Text → Option (List Tool)

-- What the tunnel makes of the request: it could not be sent, it was closed, or the first frame.
pub data Answer : Type 0 where
  unsent closed : Answer
  replied : Frame → Answer

abbrev pub second : ℕ
second = 1000000000

abbrev pub catalog_request : Text → Text → Text → Frame
catalog_request id component payload = record (zero_frame (str "request")) {
  stream_id = id;
  component_id = component;
  method = str "POST";
  headers =
      (str "Content-Type", str "application/json") ∷ (str "Accept", str "application/json") ∷ [];
  payload = payload;
}

module _ {S : Type 0} (codec : Codec) (tenant component : Text) where
  abbrev pub from_decoded : Option (List Tool) → Service S → Service S
  from_decoded none s = s
  from_decoded (some ts) s = replace_tools tenant component ts s

  -- Another Gateway holds the lock.
  abbrev pub from_cache : Result Text → Service S → Service S
  from_cache (err e) s = s
  from_cache (ok []) s = s
  from_cache (ok (c ∷ cached)) s = from_decoded (codec.decode (c ∷ cached)) s

module _ {C : Type 0} (tenant component : Text) where
  abbrev pub store_encoded : Option (CatalogCache C) → Option Text → C → C
  store_encoded none x c = c
  store_encoded (some b) none c = c
  store_encoded (some b) (some x) c = b.set_catalog tenant component x (600 * second) c

module _ {S C : Type 0} (codec : Codec) (tenant component : Text) where
  abbrev pub answered : Option (CatalogCache C) → Option (List Tool) → Service S → C → Service S × C
  answered b none s c = (s, c)
  answered b (some ts) s c =
      (replace_tools tenant component ts s, store_encoded tenant component b (codec.encode ts) c)

  abbrev pub ask : Option (CatalogCache C) → Answer → Service S → C → Service S × C
  ask b unsent s c = (s, c)
  ask b closed s c = (s, c)
  ask b (replied f) s c =
      if not (eqb f.error []) then (s, c) else answered b (codec.decode_answer f.payload) s c

  abbrev pub locked : CatalogCache C → Result Bool × C → Answer → Service S → Service S × C
  locked b (ok false, c) x s =
      (from_cache codec tenant component (b.get_catalog tenant component c) s, c)
  locked b (ok true, c) x s = ask (some b) x s c
  locked b (err e, c) x s = ask (some b) x s c

  unfoldable pub refresh_discovery :
      Option (CatalogCache C) → Answer → Service S → C → Service S × C
  refresh_discovery none x s c = ask none x s c
  refresh_discovery (some b) x s c =
      locked b (b.try_catalog_lock tenant component (30 * second) c) x s

-- The answer of the admin route: an error, or 202 and the refresh of a component over a session.
pub data Refresh : Type 0 where
  not_allowed not_found unavailable : Refresh
  refreshes : Text → Text → ℕ → Refresh

abbrev pub at_session : Option ℕ → Text → Text → Refresh
at_session none tenant component = unavailable
at_session (some s) tenant component = refreshes tenant component s

abbrev pub at_parts : List Text → Text → Map ℕ → Refresh
at_parts (component ∷ (last ∷ [])) tenant sessions =
    if not (eqb last (str "refresh")) || eqb component []
    then not_found
    else let t = if eqb tenant [] then str "demo" else tenant in
      at_session (lookup (route_key t component) sessions) t component
at_parts _ tenant sessions = not_found

unfoldable pub handle_catalog_refresh : Text → Text → Text → Map ℕ → Refresh
unfolding route_key lookup eqb
handle_catalog_refresh method path tenant sessions =
    if not (eqb method (str "POST"))
    then not_allowed
    else at_parts
        (split b'/' (trim_byte b'/' (trim_prefix path (str "/api/admin/catalog/components/"))))
        tenant sessions
