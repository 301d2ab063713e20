-- ===== src/Gateway/Hub.antt =====
-- The MCP Hub of internal/gateway/discovery.go: JSON-RPC requests to the meta tools, on behalf of
-- the identity that a Hub session holds. A request is given with its decoded fields; a missing
-- argument reads as the zero value.
pub mod Sessions
pub mod Reuse
mod Examples
use mcphub.Prelude.{
  ℕ, Bool, true, false, not, ◌&&◌, ◌||◌, ◌⊎◌, inl, inr, Option, none, some, List, [], ◌∷◌, ◌++◌,
  Text, str, eqb, has_prefix, to_lower, trim_space, Map, lookup, insert, ℤ, pos, if◌then◌else◌,
}
use mcphub.Auth.Store.{TokenIdentity}
use mcphub.Discovery.Types.{
  Error, Result, ok, err, Tool, Group, Identity, SearchRequest, SearchResult, InvokeRequest,
  Service,
}
use mcphub.Discovery.Groups.{ensure_default}
use mcphub.Discovery.Queries.{search, get, set_group, invoke}
use mcphub.Gateway.Secure.{drop}

-- The params of a tools/call.
pub record Params : Type 0 where
  pub name : Text
  pub query : Text
  pub limit : Option ℤ
  pub component : Text
  pub tool : Text
  pub group : Text
  pub arguments : Text

-- The body of a request: `params` is none where they cannot be decoded.
pub record Rpc : Type 0 where
  pub method : Text
  pub params : Option Params

pub data Answer : Type 0 where
  unauthorized : Text → Answer
  accepted initialized tools : Answer
  searched : SearchResult → Answer
  got : Tool → Answer
  switched : Group → Answer
  invoked : Text → Answer
  fails : Error → Answer
  method_not_found tool_not_found invalid_params : Answer

pub record Hub (S : Type 0) : Type 0 where
  pub sessions : Map Identity
  pub discovery : Service S

abbrev pub answer : {A : Type 0} → (A → Answer) → Result A → Answer
answer f (ok a) = f a
answer f (err e) = fails e

abbrev pub default_text : Text
default_text = str "default"

-- The identity of a new session without an auth store.
abbrev pub open_identity : Text → Identity
open_identity tenant = record {
  tenant_id = tenant;
  default_group = default_text;
  active_group = default_text;
  allowed_groups = [];
}

abbrev pub or_default : Text → Text
or_default g = if eqb g [] then default_text else g

-- The identity of a new session from that of its token.
abbrev pub token_identity : Text → TokenIdentity → Identity
token_identity tenant ti = record {
  tenant_id = tenant;
  default_group = or_default ti.default_group_id;
  active_group = or_default ti.default_group_id;
  allowed_groups = ti.allowed_group_ids;
}

abbrev pub validated : Text → Option TokenIdentity → Answer ⊎ Identity
validated tenant none = inl (unauthorized (str "invalid access token"))
validated tenant (some ti) =
    if not (eqb ti.tenant_id []) && not (eqb ti.tenant_id tenant)
    then inl (unauthorized (str "invalid access token"))
    else inr (token_identity tenant ti)

-- The identity for a request with no session. `validate` is the auth store's ValidateAccessToken
-- at the time of the request, on the token's hash; it is none where there is no auth store.
unfoldable pub identify :
    Option (Text → Option TokenIdentity) → (Text → Text) → Text → Text → Answer ⊎ Identity
identify none hash authorization tenant = inr (open_identity tenant)
identify (some validate) hash authorization tenant =
    if not (has_prefix (to_lower authorization) (str "bearer "))
    then inl (unauthorized (str "missing bearer token"))
    else validated tenant (validate (hash (trim_space (drop 7 authorization))))

abbrev pub limit_or_ten : Option ℤ → ℤ
limit_or_ten none = pos 10
limit_or_ten (some n) = n

module _ {S : Type 0} where
  abbrev pub set_session : Text → Identity → Hub S → Hub S
  set_session sid id h = record h { sessions = insert sid id h.sessions }

  abbrev pub switch : Text → Result (Identity × Group) → Hub S → Answer × Hub S
  switch sid (err e) h = (fails e, h)
  switch sid (ok (next, g)) h = (switched g, set_session sid next h)

  -- `hubCall`
  unfoldable pub hub_call : Text → Identity → Option Params → Hub S → Answer × Hub S
  hub_call sid id none h = (invalid_params, h)
  hub_call sid id (some p) h =
      if eqb p.name (str "mcphub_search")
      then (
        answer searched (
            search (record { identity = id; query = p.query; limit = limit_or_ten p.limit })
              h.discovery),
        h,
      )
      else if eqb p.name (str "mcphub_get")
      then (answer got (get id p.component p.tool h.discovery), h)
      else if eqb p.name (str "mcphub_set_group")
      then switch sid (set_group id p.group h.discovery) h
      else if eqb p.name (str "mcphub_invoke")
      then (
        answer invoked (
            invoke
              (record {
                identity = id;
                component_id = p.component;
                tool_name = p.tool;
                arguments = p.arguments;
              })
              h.discovery),
        h,
      )
      else (tool_not_found, h)

  -- The switch of `handleHub` on the method.
  unfoldable pub dispatch : Text → Identity → Rpc → Hub S → Answer × Hub S
  unfolding hub_call
  dispatch sid id r h =
      if eqb r.method (str "initialize")
      then (initialized, h)
      else if eqb r.method (str "notifications/initialized")
      then (accepted, h)
      else if eqb r.method (str "tools/list")
      then (tools, h)
      else if eqb r.method (str "tools/call")
      then hub_call sid id r.params h
      else (method_not_found, h)

  abbrev pub with_new : Answer ⊎ Identity → Text → Rpc → Hub S → Answer × Hub S
  with_new (inl a) sid r h = (a, h)
  with_new (inr id) sid r h = dispatch sid id r (set_session sid id h)

  abbrev pub with_session :
      Option Identity
      → Option (Text → Option TokenIdentity)
      → (Text → Text)
      → Text
      → Text
      → Text
      → Rpc
      → Hub S
      → Answer × Hub S
  with_session (some id) validate hash authorization tenant sid r h = dispatch sid id r h
  with_session none validate hash authorization tenant sid r h =
      with_new (identify validate hash authorization tenant) sid r h

  -- `handleHub` on a decoded request. `sid` is the Mcp-Session-Id of the request, or the new one
  -- that the Gateway makes where the request has none.
  unfoldable pub handle_hub :
      Option (Text → Option TokenIdentity)
      → (Text → Text)
      → Text
      → Text
      → Text
      → Rpc
      → Hub S
      → Answer × Hub S
  unfolding dispatch identify
  handle_hub validate hash authorization tenant sid r h =
      let h = record h { discovery = ensure_default tenant h.discovery } in
      with_session (lookup sid h.sessions) validate hash authorization tenant sid r h
