-- ===== src/Gateway/Hub/Examples.antt =====
-- The Hub on small inputs.
use mcphub.Prelude.{◌≡◌, refl, none, some, [], ◌∷◌, Text, str, eqb, lookup, arith}
use mcphub.Discovery.Types.{Identity, Service}
use mcphub.Discovery.Groups.{default_group}
use mcphub.Gateway.Hub.{Hub, Rpc, dispatch, handle_hub, open_identity}
use mcphub.Gateway.Hub.Sessions.{IsAuthorised, handle_hub-IsAuthorised, handle_hub-tenant}

abbrev service : Service Text
service = record {
  groups = [];
  tools = [];
  memberships = [];
  invoke = none;
  backend = none;
  store = [];
}

abbrev hub : Hub Text
hub = record { sessions = (str "s", open_identity (str "t")) ∷ []; discovery = service }

abbrev hash : Text → Text
hash t = t

abbrev grouped : Hub Text
grouped = record hub {
  discovery = record service { groups = (str "t", (str "default", default_group) ∷ []) ∷ [] };
}

abbrev get_request : Rpc
get_request = record {
  method = str "tools/call";
  params = some (record {
    name = str "mcphub_get";
    query = [];
    limit = none;
    component = str "c";
    tool = str "x";
    group = [];
    arguments = [];
  });
}

abbrev listing : Rpc
listing = record { method = str "tools/list"; params = none }

handle_hub-tenant_example :
    ((open_identity (str "t")).tenant_id ≡ str "t")
    × ((open_identity (str "t")).allowed_groups ≡ [])
unfolding handle_hub dispatch lookup eqb
handle_hub-tenant_example =
    handle_hub-tenant none hash [] (str "u") (str "s") listing hub (str "s")
      (open_identity (str "t")) (open_identity (str "t")) refl refl

hub-IsAuthorised : (k : Text) (id : Identity) → lookup k hub.sessions ≡ some id → IsAuthorised id
unfolding lookup IsAuthorised
hub-IsAuthorised k id found = ground arith

handle_hub-IsAuthorised_example : IsAuthorised (open_identity (str "t"))
unfolding handle_hub dispatch lookup eqb
handle_hub-IsAuthorised_example =
    handle_hub-IsAuthorised none hash [] (str "u") (str "s") listing hub hub-IsAuthorised (str "s")
      (open_identity (str "t")) refl
