-- ===== src/Discovery/Examples.antt =====
-- The service on small inputs.
use mcphub.Prelude.{
  ◌≡◌, ◌↔◌, refl, true, none, some, List, [], ◌∷◌, Text, str, eqb, lookup, find, arith, pos,
  has_prefix,
}
use mcphub.Discovery.Types.{Tool, Group, Identity, InvokeRequest, Invoker, Service, ok}
use mcphub.Discovery.Groups.{default_group}
use mcphub.Discovery.Tools.{tool_key, members, replace_tools}
use mcphub.Discovery.Replace.{last_tool, replace_tools-find}
use mcphub.Discovery.Queries.{get, search, set_group, invoke, group, is_allowed}
use mcphub.Discovery.Access.{Permits, get_ok_iff, invoke_authorised}
use mcphub.Discovery.History.{Call, ensures_default, deletes, run}
use mcphub.Discovery.Isolation.{run_isolated}

abbrev forecast : Tool
forecast = record {
  component_id = str "w";
  name = str "f";
  description = [];
  input_schema = none;
  required = [];
  enabled = true;
}

abbrev echo : Invoker
echo tenant component tool arguments = ok arguments

abbrev service : Service Text
service = record {
  groups = (str "t", (str "default", default_group) ∷ []) ∷ [];
  tools = (str "t", (str "w:f", forecast) ∷ []) ∷ [];
  memberships = (str "t", (str "default", (str "w:f", true) ∷ []) ∷ []) ∷ [];
  invoke = some echo;
  backend = none;
  store = [];
}

abbrev user : Identity
user = record {
  tenant_id = str "t";
  default_group = str "default";
  active_group = str "default";
  allowed_groups = [];
}

get_ok_iff_example : (get user (str "w") (str "f") service ≡ ok forecast) ↔ (
    (g : Group) × Permits service user user.active_group g
    × (lookup (tool_key (str "w") (str "f")) (members user.tenant_id g.id service.memberships)
        ≡ some true)
    × (find user.tenant_id (tool_key (str "w") (str "f")) service.tools ≡ some forecast)
    × (forecast.enabled ≡ true))
get_ok_iff_example = get_ok_iff user (str "w") (str "f") service forecast

abbrev request : InvokeRequest
request = record {
  identity = user;
  component_id = str "w";
  tool_name = str "f";
  arguments = str "{}";
}

invoke_authorised_example :
    ((f : Invoker) × (service.invoke ≡ some f)
      × (f (str "t") (str "w") (str "f") (str "{}") ≡ ok (str "{}")))
    × ((t : Tool) × (g : Group) × (get user (str "w") (str "f") service ≡ ok t)
        × (t.enabled ≡ true)
        × Permits service user (str "default") g)
unfolding invoke get group is_allowed tool_key lookup eqb
invoke_authorised_example = invoke_authorised request service (str "{}") refl

abbrev calls : List (Text × Call)
calls = (str "u", ensures_default) ∷ ((str "u", deletes (str "default")) ∷ [])

run_isolated_example :
    (get user (str "w") (str "f") (run calls service) ≡ get user (str "w") (str "f") service)
    × (search (record { identity = user; query = str "f"; limit = pos 5 }) (run calls service)
        ≡ search (record { identity = user; query = str "f"; limit = pos 5 }) service)
    × (set_group user (str "default") (run calls service) ≡ set_group user (str "default") service)
run_isolated_example =
    run_isolated user calls service (ground arith, (ground arith, tt)) (str "w") (str "f") (str "f")
      (str "default") (pos 5)

-- A component whose name begins with another's and a colon loses its tools when that one is refreshed.
abbrev nested : Service Text
nested = record service { tools = (str "t", (str "w:x:f", forecast) ∷ []) ∷ [] }

replace_tools-find_example :
    find (str "t") (str "w:x:f") (replace_tools (str "t") (str "w") (forecast ∷ []) nested).tools
    ≡ none
unfolding last_tool tool_key has_prefix lookup eqb
replace_tools-find_example =
    replace_tools-find (str "t") (str "w") (str "w:x:f") (forecast ∷ []) nested
