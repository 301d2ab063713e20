-- ===== src/Postgres/Discovery.antt =====
-- internal/store/postgres/discovery.go: the groups, the tools and the tools of groups. The codec of the
-- tags and of the schema of a tool gives back what it was given.
pub mod Agreement
use mcphub.Prelude.{
  Bool, true, false, not, ◌&&◌, ◌||◌, Option, none, some, List, [], ◌∷◌, ◌++◌, Text, str, eqb, Map,
  inner, find, insert_in, erase_in, values, any, filter, map, is_some, sort, if◌then◌else◌,
}
use mcphub.Discovery.Types.{Error, storage, Result, ok, err, Tool, Group, Backend}
use mcphub.Postgres.{Database, ToolRow, GroupToolRow, TokenGroupRow, violation}

unfoldable pub list_groups : Text → Database → Result (List Group)
list_groups tenant d = ok (sort (λ (g : Group). g.name) (values (inner tenant d.tool_groups)))

-- Another group of the tenant has the name, exactly.
abbrev pub name_taken : Text → Group → Database → Bool
name_taken tenant g d =
    any (λ (e : Text × Group). not (eqb e.0 g.id) && eqb e.1.name g.name)
      (inner tenant d.tool_groups)

abbrev pub with_tenant : Text → List Text → List Text
with_tenant tenant ts = if any (λ t. eqb t tenant) ts then ts else ts ++ (tenant ∷ [])

abbrev pub put_group : Text → Group → Database → Database
put_group tenant g d = record d { tool_groups = insert_in tenant g.id g d.tool_groups }

unfoldable pub create_group : Text → Group → Database → Option Error × Database
unfolding insert_in
create_group tenant g d =
    let d = record d { tenants = with_tenant tenant d.tenants } in
    if is_some (find tenant g.id d.tool_groups) || name_taken tenant g d
    then (some (storage violation), d)
    else (none, put_group tenant g d)

unfoldable pub update_group : Text → Group → Database → Option Error × Database
unfolding insert_in
update_group tenant g d =
    if not (is_some (find tenant g.id d.tool_groups))
    then (none, d)
    else if name_taken tenant g d
    then (some (storage violation), d)
    else (none, put_group tenant g d)

abbrev pub in_group : Text → Text → GroupToolRow → Bool
in_group tenant group r = eqb r.tenant_id tenant && eqb r.group_id group

-- The tools and the tokens of the group go with it (ON DELETE CASCADE).
unfoldable pub delete_group : Text → Text → Database → Option Error × Database
unfolding erase_in
delete_group tenant id d =
    if not (is_some (find tenant id d.tool_groups))
    then (some (storage (str "group_not_found")), d)
    else (
      none,
      record d {
        tool_groups = erase_in tenant id d.tool_groups;
        group_tools = filter (λ r. not (in_group tenant id r)) d.group_tools;
        token_groups =
            filter (λ (r : TokenGroupRow). not (eqb r.tenant_id tenant && eqb r.group_id id))
              d.token_groups;
      },
    )

abbrev pub is_tool : Text → Text → Text → ToolRow → Bool
is_tool tenant component name c =
    eqb c.tenant_id tenant && (eqb c.component_id component && eqb c.tool_name name)

abbrev pub tool_of : ToolRow → Tool
tool_of c = record {
  component_id = c.component_id;
  name = c.tool_name;
  description = c.description;
  input_schema = c.input_schema;
  required = [];
  enabled = c.enabled;
}

-- The JOIN of the tools of a group with the catalog.
abbrev pub joined : Text → Text → List ToolRow → List GroupToolRow → List Tool
joined tenant group catalog [] = []
joined tenant group catalog (r ∷ rs) =
    let rest = joined tenant group catalog rs in
    if in_group tenant group r
    then map tool_of (filter (is_tool tenant r.component_id r.tool_name) catalog) ++ rest
    else rest

unfoldable pub list_group_tools : Text → Text → Database → Result (List Tool)
list_group_tools tenant group d =
    ok (sort (λ (t : Tool). t.name) (joined tenant group d.tool_catalog d.group_tools))

abbrev pub is_row : Text → Text → Text → Text → GroupToolRow → Bool
is_row tenant group component name r =
    in_group tenant group r && (eqb r.component_id component && eqb r.tool_name name)

-- The foreign keys are the group and the tool; a row that is there stays.
unfoldable pub attach_tool : Text → Text → Tool → Database → Option Error × Database
attach_tool tenant group t d =
    if any (is_row tenant group t.component_id t.name) d.group_tools
    then (none, d)
    else if not (is_some (find tenant group d.tool_groups))
        || not (any (is_tool tenant t.component_id t.name) d.tool_catalog)
    then (some (storage violation), d)
    else (
      none,
      record d {
        group_tools =
            d.group_tools
            ++ (record {
              tenant_id = tenant;
              group_id = group;
              component_id = t.component_id;
              tool_name = t.name;
            }
                ∷ []);
      },
    )

unfoldable pub detach_tool : Text → Text → Text → Text → Database → Option Error × Database
detach_tool tenant group component name d = (
  none,
  record d { group_tools = filter (λ r. not (is_row tenant group component name r)) d.group_tools },
)

abbrev pub row_of : Text → Text → Tool → ToolRow
row_of tenant component t = record {
  tenant_id = tenant;
  component_id = component;
  tool_name = t.name;
  description = t.description;
  input_schema = t.input_schema;
  enabled = true;
}

-- INSERT … ON CONFLICT DO UPDATE
unfoldable pub upsert_row : ToolRow → List ToolRow → List ToolRow
upsert_row r [] = r ∷ []
upsert_row r (c ∷ cs) =
    let rest = upsert_row r cs in
    if is_tool r.tenant_id r.component_id r.tool_name c then r ∷ cs else c ∷ rest

unfoldable pub upsert_rows : Text → Text → List Tool → List ToolRow → List ToolRow
unfolding upsert_row
upsert_rows tenant component [] cs = cs
upsert_rows tenant component (t ∷ ts) cs =
    upsert_rows tenant component ts (upsert_row (row_of tenant component t) cs)

-- The tools of the component that were not seen in this transaction are disabled.
abbrev pub disable_unseen : Text → Text → List Tool → ToolRow → ToolRow
disable_unseen tenant component ts c =
    if (eqb c.tenant_id tenant && eqb c.component_id component)
      && not (any (λ (t : Tool). eqb t.name c.tool_name) ts)
    then record c { enabled = false }
    else c

unfoldable pub replace_tools : Text → Text → List Tool → Database → Option Error × Database
unfolding upsert_rows
replace_tools tenant component ts d = (
  none,
  record d {
    tool_catalog =
        map (disable_unseen tenant component ts) (upsert_rows tenant component ts d.tool_catalog);
  },
)

-- The store as the discovery service sees it.
unfoldable pub group_backend : Backend Database
group_backend = record {
  list_groups = list_groups;
  create_group = create_group;
  update_group = update_group;
  delete_group = delete_group;
  list_group_tools = list_group_tools;
  attach_tool = attach_tool;
  detach_tool = detach_tool;
  replace_tools = replace_tools;
}
