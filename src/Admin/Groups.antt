-- ===== src/Admin/Groups.antt =====
-- internal/admin/discovery.go: groups and their tools. A request is decoded: the body is none where it is
-- not JSON of its kind.
use mcphub.Prelude.{
  not, ◌||◌, Option, none, some, List, [], ◌∷◌, Text, str, eqb, split, trim_byte, trim_prefix,
  if◌then◌else◌, ℕ,
}
use mcphub.Discovery.Types.{Error, Result, ok, err, Tool, Group, Service, zero_tool}
use mcphub.Discovery.Groups.{upsert_group, update_group, delete_group, list_groups}
use mcphub.Discovery.Tools.{group_tools, attach_tool, detach_tool}

pub data Reply : Type 0 where
  groups : List Group → Reply
  group : Group → Reply
  tools : List Tool → Reply
  no_content not_found not_allowed invalid : Reply
  failed : Error → ℕ → Reply

-- The tenant_id of the query.
abbrev pub tenant_of : Text → Text
tenant_of query = if eqb query [] then str "demo" else query

abbrev pub first_group : Text → List Group → Reply
first_group id [] = not_found
first_group id (g ∷ gs) = if eqb g.id id then group g else first_group id gs

abbrev pub or_group : {S : Type 0} → Group → ℕ → Option Error × S → Reply × S
or_group g status (some e, s) = (failed e status, s)
or_group g status (none, s) = (group g, s)

abbrev pub or_no_content : {S : Type 0} → Option Error × S → Reply × S
or_no_content (some e, s) = (failed e 404, s)
or_no_content (none, s) = (no_content, s)

abbrev pub or_tools : {S : Type 0} → Result (List Tool) × S → Reply × S
or_tools (err e, s) = (failed e 404, s)
or_tools (ok ts, s) = (tools ts, s)

abbrev pub listed : {S : Type 0} → List Group × S → Reply × S
listed (gs, s) = (groups gs, s)

abbrev pub found : {S : Type 0} → Text → List Group × S → Reply × S
found id (gs, s) = (first_group id gs, s)

module _ {S : Type 0} where
  abbrev pub post_group : Text → Option Group → Service S → Reply × Service S
  post_group tenant none s = (invalid, s)
  post_group tenant (some g) s =
      if eqb g.id [] || eqb g.name []
      then (invalid, s)
      else or_group g 409 (upsert_group tenant g s)

  -- `groups`
  unfoldable pub handle_groups : Text → Text → Option Group → Service S → Reply × Service S
  handle_groups method query body s =
      if eqb method (str "GET")
      then listed (list_groups (tenant_of query) s)
      else if eqb method (str "POST")
      then post_group (tenant_of query) body s
      else (not_allowed, s)

  abbrev pub patch_group : Text → Text → Option Group → Service S → Reply × Service S
  patch_group tenant id none s = (invalid, s)
  patch_group tenant id (some b) s =
      let g = record b { id = id } in or_group g 404 (update_group tenant g s)

  abbrev pub one_group : Text → Text → Text → Option Group → Service S → Reply × Service S
  one_group method tenant id body s =
      if eqb method (str "GET")
      then found id (list_groups tenant s)
      else if eqb method (str "PATCH")
      then patch_group tenant id body s
      else if eqb method (str "DELETE")
      then or_no_content (delete_group tenant id s)
      else (not_allowed, s)

  -- The body of a POST names a component and a tool.
  abbrev pub post_tool : Text → Text → Option (Text × Text) → Service S → Reply × Service S
  post_tool tenant id none s = (invalid, s)
  post_tool tenant id (some (component, name)) s =
      if eqb component [] || eqb name []
      then (invalid, s)
      else or_no_content
          (attach_tool tenant id (record zero_tool { component_id = component; name = name }) s)

  abbrev pub group_tools_at :
      Text → Text → Text → Option (Text × Text) → Service S → Reply × Service S
  group_tools_at method tenant id body s =
      if eqb method (str "GET")
      then or_tools (group_tools tenant id s)
      else if eqb method (str "POST")
      then post_tool tenant id body s
      else (not_found, s)

  abbrev pub at_parts :
      Text → Text → List Text → Option Group → Option (Text × Text) → Service S → Reply × Service S
  at_parts method tenant [] g t s = (not_found, s)
  at_parts method tenant (id ∷ []) g t s =
      if eqb id [] then (not_found, s) else one_group method tenant id g s
  at_parts method tenant (id ∷ (p ∷ [])) g t s =
      if eqb id [] || not (eqb p (str "tools"))
      then (not_found, s)
      else group_tools_at method tenant id t s
  at_parts method tenant (id ∷ (p ∷ (c ∷ (n ∷ [])))) g t s =
      if (eqb id [] || not (eqb p (str "tools"))) || not (eqb method (str "DELETE"))
      then (not_found, s)
      else or_no_content (detach_tool tenant id c n s)
  at_parts method tenant _ g t s = (not_found, s)

  -- `group`
  unfoldable pub handle_group :
      Text → Text → Text → Option Group → Option (Text × Text) → Service S → Reply × Service S
  handle_group method path query g t s =
      at_parts method (tenant_of query)
        (split b'/' (trim_byte b'/' (trim_prefix path (str "/api/admin/groups/")))) g t s
