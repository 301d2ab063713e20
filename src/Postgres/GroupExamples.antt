-- ===== src/Postgres/GroupExamples.antt =====
-- The groups of the discovery service over PostgreSQL, on small inputs.
use mcphub.Prelude.{
  ◌≡◌, refl, true, none, some, [], ◌∷◌, List, map, str, eqb, equal_fold, to_lower, lookup, find,
}
use mcphub.Discovery.Types.{Group, Service, group_exists}
use mcphub.Discovery.Groups.{upsert_group, delete_group, name_exists, same_name}
use mcphub.Discovery.History.{Call, upserts, deletes, step, run}
use mcphub.Postgres.{Database}
use mcphub.Postgres.Discovery.{group_backend}
use mcphub.Postgres.Discovery.Agreement.{Agrees, AreEdits, is_edit, run-Agrees, upsert_group-clash}

abbrev tables : Database
tables = record {
  tenants = [];
  device_codes = [];
  auth_tokens = [];
  token_groups = [];
  tool_groups = [];
  tool_catalog = [];
  group_tools = [];
  drawn = 0;
  plan = λ rs. [];
}

abbrev empty : Service Database
empty = record {
  groups = [];
  tools = [];
  memberships = [];
  invoke = none;
  backend = some group_backend;
  store = tables;
}

abbrev group : Group
group = record { id = str "g"; name = str "n"; description = []; tags = []; is_default = true }

abbrev calls : List Call
calls = upserts group ∷ deletes (str "g") ∷ []

run-Agrees_example : Agrees (str "t") (run (map (λ c. (str "t", c)) calls) empty)
unfolding Agrees AreEdits is_edit step upsert_group delete_group name_exists same_name lookup
run-Agrees_example = run-Agrees (str "t") calls empty refl (refl, (refl, tt)) (λ id. refl)

-- A group whose name the service has, in the other case.
abbrev one : Service Database
one = record empty {
  groups = (str "t", (str "g", group) ∷ []) ∷ [];
  store = record tables { tool_groups = (str "t", (str "g", group) ∷ []) ∷ [] };
}

abbrev other : Group
other = record group { id = str "h"; name = str "N" }

upsert_group-clash_example :
    ((upsert_group (str "t") other one).0 ≡ some group_exists)
    × (find (str "t") (str "h") (upsert_group (str "t") other one).1.store.tool_groups ≡ some other)
unfolding name_exists same_name equal_fold to_lower lookup eqb
upsert_group-clash_example = upsert_group-clash (str "t") other one refl refl refl refl
