-- ===== src/Discovery/Replace.antt =====
-- What `ReplaceTools` leaves in the catalog.
use mcphub.Prelude.{
  ◌≡◌, refl, ap, ◌∙◌, true, not, Option, none, some, List, [], ◌∷◌, Text, eqb, eqb_refl, has_prefix,
  Map, lookup, insert, keep_keys, lookup-insert_self, lookup-keep_keys, inner, find, ensure,
  inner-ensure, find-insert_in, arith, if◌then◌else◌,
}
use mcphub.Discovery.Types.{Tool, Service}
use mcphub.Discovery.Tools.{Catalog, put_tools, replace_tools, tool_key, key_prefix}

-- A tool as the catalog of a component holds it.
abbrev pub listed : Text → Tool → Tool
listed component t = record t { component_id = component; enabled = true }

-- The last of the tools whose key is the given one, or what is given.
unfoldable pub last_tool : Text → Text → List Tool → Option Tool → Option Tool
unfolding tool_key eqb
last_tool component key [] o = o
last_tool component key (t ∷ ts) o =
    last_tool component key ts
      (if eqb (tool_key component t.name) key then some (listed component t) else o)

put_tools-find :
    (tenant component key : Text) (ts : List Tool) (c : Catalog)
    → find tenant key (put_tools tenant component ts c).tools
      ≡ last_tool component key ts (find tenant key c.tools)
unfolding put_tools last_tool
put_tools-find tenant component key [] c = refl
put_tools-find tenant component key (t ∷ ts) c =
    put_tools-find tenant component key ts _
    ∙ ap (last_tool component key ts) (
        find-insert_in tenant tenant (tool_key component t.name) key (listed component t) c.tools
        ∙ rw (eqb_refl tenant) refl)

-- What the loop starts from: the keys that begin with the component's name and a colon are gone.
cleared :
    (tenant component key : Text) (m : Map (Map Tool))
    → find tenant key (
        insert tenant
          (keep_keys (λ k. not (has_prefix k (key_prefix component))) (inner tenant m))
          m)
      ≡ (if has_prefix key (key_prefix component) then none else find tenant key m)
cleared tenant component key m = ground (
  arith,
  lookup-insert_self tenant
      (keep_keys (λ k. not (has_prefix k (key_prefix component))) (inner tenant m)) m,
  lookup-keep_keys (λ k. not (has_prefix k (key_prefix component))) key (inner tenant m),
)

-- After the tools of a component are replaced, a key of the tenant's catalog has the last of the new
-- tools with that key; where there is none, it has what it had, unless the key begins with the
-- component's name and a colon.
pub replace_tools-find :
    {S : Type 0} (tenant component key : Text) (ts : List Tool) (s : Service S)
    → find tenant key (replace_tools tenant component ts s).tools
      ≡ last_tool component key ts
          (if has_prefix key (key_prefix component) then none else find tenant key s.tools)
unfolding replace_tools
replace_tools-find tenant component key ts s =
    put_tools-find tenant component key ts _
    ∙ ap (last_tool component key ts) (
        cleared tenant component key (ensure tenant s.tools)
        ∙ ap (λ o. if has_prefix key (key_prefix component) then none else o)
            (ap (lookup key) (inner-ensure tenant tenant s.tools)))
