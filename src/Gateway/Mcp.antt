-- ===== src/Gateway/Mcp.antt =====
-- handleMCP of internal/gateway/gateway.go, from the path of a request to the frame that is handed to
-- the tunnel of a component. What the frames of the answer become is in Relay.
pub mod Forwards
pub mod Accepts
use mcphub.Prelude.{
  ℕ, Bool, true, false, not, Option, none, some, ◌⊎◌, inl, inr, List, [], ◌∷◌, ◌++◌, Text, str, eqb,
  Map, lookup, insert, split, trim_byte, if◌then◌else◌,
}
use mcphub.Auth.Store.{TokenIdentity}
use mcphub.Protocol.{Frame, zero_frame}
use mcphub.Gateway.Secure.{authenticate_route}
use mcphub.Gateway.RateLimit.{LocalLimiter, Remote, rate_limit}
use mcphub.Gateway.Tunnel.{route_key}

-- A request: its headers as Header.Get reads them, and its body, or the error of reading it (a body of
-- more than 8 MiB is such an error).
pub record Request : Type 0 where
  pub path : Text
  pub method : Text
  pub header : Text → Text
  pub body : Text ⊎ Text

-- An error that is answered, a request for the Hub of a tenant, or the frame that is handed to a session.
pub data Route : Type 0 where
  not_found unauthorized limited not_connected : Route
  bad_body : Text → Route
  hub : Text → Route
  forwards : ℕ → Frame → Route

abbrev pub forwarded_headers : List Text
forwarded_headers =
    str "Authorization" ∷ str "Accept" ∷ str "Content-Type" ∷ str "Mcp-Session-Id" ∷ []

-- The loop that copies the headers.
unfoldable pub copy_headers : (Text → Text) → List Text → Map Text → Map Text
unfolding eqb
copy_headers get [] h = h
copy_headers get (k ∷ ks) h = copy_headers get ks (if eqb (get k) [] then h else insert k (get k) h)

abbrev pub request_frame : Text → Text → Request → Text → Frame
request_frame id component r payload = record (zero_frame (str "request")) {
  stream_id = id;
  component_id = component;
  method = r.method;
  headers = copy_headers r.header forwarded_headers [];
  payload = payload;
}

abbrev pub with_body : ℕ → Text → Text → Request → Text ⊎ Text → Route
with_body s id component r (inl e) = bad_body e
with_body s id component r (inr payload) = forwards s (request_frame id component r payload)

abbrev pub with_session : Option ℕ → Text → Text → Request → Route
with_session none id component r = not_connected
with_session (some s) id component r = with_body s id component r r.body

abbrev pub limited_or : Bool × LocalLimiter → Route → Route × LocalLimiter
limited_or (false, l) x = (limited, l)
limited_or (true, l) x = (x, l)

-- The auth store, the hash, the environment, the answer of the presence store, the sessions, the stream's
-- id, and the time.
pub record Setup : Type 0 where
  pub validate : Option (Text → Option TokenIdentity)
  pub hash : Text → Text
  pub require_route_auth : Text
  pub rate_env : Option ℕ
  pub remote : Option Remote
  pub sessions : Map ℕ
  pub id : Text
  pub now : ℕ

abbrev pub is_authentic : Setup → Request → Text → Bool
is_authentic g r tenant =
    authenticate_route g.validate g.hash g.require_route_auth (r.header (str "Authorization"))
      tenant

abbrev pub limit_key : Text → Text → Text
limit_key tenant component = str "mcp:" ++ (tenant ++ (str ":" ++ component))

abbrev pub to_component : Setup → Request → Text → Text → LocalLimiter → Route × LocalLimiter
to_component g r tenant component l =
    if not (is_authentic g r tenant)
    then (unauthorized, l)
    else if eqb component (str "hub")
    then limited_or (rate_limit g.rate_env g.remote (limit_key tenant (str "hub")) g.now l)
        (hub tenant)
    else limited_or (rate_limit g.rate_env g.remote (limit_key tenant component) g.now l)
        (with_session (lookup (route_key tenant component) g.sessions) g.id component r)

abbrev pub to_parts : Setup → Request → List Text → LocalLimiter → Route × LocalLimiter
to_parts g r (mcp ∷ (tenant ∷ (component ∷ []))) l =
    if eqb mcp (str "mcp") then to_component g r tenant component l else (not_found, l)
to_parts g r _ l = (not_found, l)

unfoldable pub handle_mcp : Setup → Request → LocalLimiter → Route × LocalLimiter
unfolding route_key authenticate_route rate_limit lookup copy_headers
handle_mcp g r l = to_parts g r (split b'/' (trim_byte b'/' r.path)) l
