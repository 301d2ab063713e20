-- ===== src/Discovery/Tools.antt =====
-- The operations on the tool catalog and on the memberships of groups.
use mcphub.Prelude.{
  Bool, true, not, Option, none, some, List, [], ◌∷◌, ◌++◌, Text, str, has_prefix, Map, lookup,
  insert, keep_keys, inner, find, ensure, insert_in, erase_in, is_some, sort, keys, if◌then◌else◌,
}
use mcphub.Discovery.Types.{
  Error, group_not_found, tool_not_found, Result, ok, err, Tool, Service, Backend, asked,
}
use mcphub.Discovery.Groups.{default}

-- `component + ":"`, and the key of a tool.
abbrev pub key_prefix : Text → Text
key_prefix component = component ++ (str ":")

unfoldable pub tool_key : Text → Text → Text
tool_key component name = component ++ (b':' ∷ name)

abbrev pub key_of : Tool → Text
key_of t = tool_key t.component_id t.name

abbrev pub Memberships : Type 0
Memberships = Map (Map (Map Bool))

-- `memberships[tenant][group]`
abbrev pub members : Text → Text → Memberships → Map Bool
members tenant group m = inner group (inner tenant m)

-- Makes `memberships[tenant]` and `memberships[tenant][group]` where they are missing.
unfoldable pub ensure_members : Text → Text → Memberships → Memberships
ensure_members tenant group m =
    let m1 = ensure tenant m in insert tenant (ensure group (inner tenant m1)) m1

-- `memberships[tenant][group][key] = true`, where both inner maps are there.
unfoldable pub add_member : Text → Text → Text → Memberships → Memberships
add_member tenant group key m = insert tenant (insert_in group key true (inner tenant m)) m

-- `delete(memberships[tenant][group], key)`
unfoldable pub remove_member : Text → Text → Text → Memberships → Memberships
remove_member tenant group key m =
    if is_some (find tenant group m)
    then insert tenant (erase_in group key (inner tenant m)) m
    else m

pub record Catalog : Type 0 where
  pub tools : Map (Map Tool)
  pub memberships : Memberships

-- The loop of `GroupTools` over the tools that the backend lists.
unfoldable pub merge_tools : Text → Text → List Tool → Catalog → Catalog
merge_tools tenant group [] c = c
merge_tools tenant group (t ∷ ts) c = merge_tools tenant group ts (record {
  tools = insert_in tenant (key_of t) t c.tools;
  memberships = add_member tenant group (key_of t) c.memberships;
})

-- The loop of `ReplaceTools` over the new tools of a component.
unfoldable pub put_tools : Text → Text → List Tool → Catalog → Catalog
put_tools tenant component [] c = c
put_tools tenant component (t ∷ ts) c =
    let key = tool_key component t.name in
    put_tools tenant component ts (record {
      tools = insert_in tenant key (record t { component_id = component; enabled = true }) c.tools;
      memberships = add_member tenant default key c.memberships;
    })

-- The loop of `GroupTools` over the keys of the group: the tools that the catalog has.
unfoldable pub present : Map Tool → List Text → List Tool
present tools [] = []
present tools (key ∷ keys) =
    let rest = present tools keys in elim (lookup key tools) [ none ↦ rest | some t ↦ t ∷ rest ]

module _ {S : Type 0} where
  abbrev pub with_catalog : Service S → Catalog → Service S
  with_catalog s c = record s { tools = c.tools; memberships = c.memberships }

  abbrev pub merged_tools : Text → Text → Result (List Tool) → Service S → Service S
  merged_tools tenant group (err e) s = s
  merged_tools tenant group (ok ts) s = with_catalog s (
      merge_tools tenant group ts (record {
        tools = ensure tenant s.tools;
        memberships = ensure_members tenant group s.memberships;
      }))

  abbrev pub listed_tools : Option (Backend S) → Text → Text → Service S → Service S
  listed_tools none tenant group s = s
  listed_tools (some b) tenant group s =
      merged_tools tenant group (b.list_group_tools tenant group s.store) s

  unfoldable pub group_tools : Text → Text → Service S → Result (List Tool) × Service S
  group_tools tenant group s =
      let s1 = listed_tools s.backend tenant group s in
      (
        if not (is_some (find tenant group s1.groups))
            then err group_not_found
            else ok (
                sort (λ (t : Tool). t.name)
                  (present (inner tenant s1.tools) (keys (members tenant group s1.memberships)))),
        s1,
      )

  abbrev pub attach_local : Text → Text → Tool → Option Error → Service S → Option Error × Service S
  attach_local tenant group t (some e) s = (some e, s)
  attach_local tenant group t none s =
      if not (is_some (find tenant group s.groups))
      then (some group_not_found, s)
      else if not (is_some (find tenant (key_of t) s.tools))
      then (some tool_not_found, s)
      else (
        none,
        record s {
          memberships =
              add_member tenant group (key_of t) (ensure_members tenant group s.memberships);
        },
      )

  unfoldable pub attach_tool : Text → Text → Tool → Service S → Option Error × Service S
  attach_tool tenant group t s =
      let (e, store) = asked s.backend (λ b. b.attach_tool tenant group t) s.store in
      attach_local tenant group t e (record s { store = store })

  abbrev pub detach_local :
      Text → Text → Text → Text → Option Error → Service S → Option Error × Service S
  detach_local tenant group component tool (some e) s = (some e, s)
  detach_local tenant group component tool none s =
      if not (is_some (find tenant group s.groups)) then (some group_not_found, s) else (
        none,
        record s {
          memberships = remove_member tenant group (tool_key component tool) s.memberships;
        },
      )

  unfoldable pub detach_tool : Text → Text → Text → Text → Service S → Option Error × Service S
  detach_tool tenant group component tool s =
      let (e, store) = asked s.backend (λ b. b.detach_tool tenant group component tool) s.store in
      detach_local tenant group component tool e (record s { store = store })

  unfoldable pub add_tool : Text → Text → Tool → Service S → Service S
  add_tool tenant group t s = record s {
    tools = insert_in tenant (key_of t) (record t { enabled = true }) (ensure tenant s.tools);
    memberships = add_member tenant group (key_of t) (ensure_members tenant group s.memberships);
  }

  -- `ReplaceTools` drops the error of the backend.
  unfoldable pub replace_tools : Text → Text → List Tool → Service S → Service S
  replace_tools tenant component ts s =
      let (_, store) = asked s.backend (λ b. b.replace_tools tenant component ts) s.store in
      let tools = ensure tenant s.tools in
      with_catalog (record s { store = store })
        (put_tools tenant component ts (record {
          tools =
              insert tenant
                (keep_keys (λ key. not (has_prefix key (key_prefix component)))
                  (inner tenant tools))
                tools;
          memberships = ensure_members tenant default s.memberships;
        }))
