-- ===== src/Admin/Examples.antt =====
-- The admin API on a small service.
use mcphub.Prelude.{
  ◌≡◌, refl, none, some, [], ◌∷◌, Text, str, eqb, arith, split, trim_byte, has_prefix, lookup,
}
use mcphub.Discovery.Types.{Service, group_not_found}
use mcphub.Discovery.Groups.{default_group, delete_group}
use mcphub.Admin.Groups.{handle_group, failed}
use mcphub.Admin.Deleted.{handle_group-deleted}

abbrev service : Service Text
service = record {
  groups = (str "demo", (str "g", record default_group { id = str "g" }) ∷ []) ∷ [];
  tools = [];
  memberships = [];
  invoke = none;
  backend = none;
  store = [];
}

abbrev path : Text
path = str "/api/admin/groups/g"

abbrev tools_path : Text
tools_path = str "/api/admin/groups/g/tools"

abbrev after : Service Text
after = (handle_group (str "DELETE") path [] none none service).1

handle_group-deleted_example :
    (handle_group (str "GET") tools_path [] none none after ≡ (failed group_not_found 404, after))
    × (handle_group (str "POST") tools_path [] none (some (str "w", str "f")) after
        ≡ (failed group_not_found 404, after))
unfolding handle_group eqb split trim_byte has_prefix delete_group lookup
handle_group-deleted_example =
    handle_group-deleted path tools_path [] (str "g") (str "w") (str "f") service refl refl refl
      (ground arith) (ground arith) (ground arith) refl
