-- ===== src/Discovery/Queries.antt =====
-- The queries of the Hub: search, get, switching groups, and invocation.
use mcphub.Prelude.{
  ℕ, zero, suc, Bool, true, false, not, ◌&&◌, ◌||◌, Option, none, some, List, [], ◌∷◌, ◌++◌, Text,
  str, eqb, contains, to_lower, trim_space, Map, lookup, inner, find, any, keys, sort, ltb, ℤ, pos,
  negsuc, if◌then◌else◌,
}
use mcphub.Discovery.Types.{
  group_not_found, group_not_allowed, tool_not_found, invoker_unavailable, Result, ok, err, Tool,
  zero_tool, Group, Identity, SearchRequest, SearchResult, InvokeRequest, Invoker, Service,
}
use mcphub.Discovery.Tools.{tool_key, members}

abbrev pub is_nil : List Text → Bool
is_nil [] = true
is_nil (x ∷ xs) = false

-- An empty list of allowed groups allows every group.
unfoldable pub is_allowed : Text → List Text → Bool
is_allowed group allowed = is_nil allowed || any (λ v. eqb v group) allowed

abbrev pub tool_or_zero : Option Tool → Tool
tool_or_zero none = zero_tool
tool_or_zero (some t) = t

-- An enabled tool whose name or description holds the query; an empty query matches all.
unfoldable pub is_hit : Text → Tool → Bool
is_hit q t = t.enabled && (eqb q [] || contains (to_lower (t.name ++ (str " " ++ t.description))) q)

abbrev pub without_schema : Tool → Tool
without_schema t = record t { input_schema = none }

-- The loop of `Search`, which stops when `room` more hits are found.
unfoldable pub hits : Text → Map Tool → List Text → ℕ → List Tool
hits q tools [] room = []
hits q tools (key ∷ keys) zero = []
hits q tools (key ∷ keys) (suc room) =
    let t = tool_or_zero (lookup key tools) in
    let found = without_schema t ∷ hits q tools keys room in
    let rest = hits q tools keys (suc room) in if is_hit q t then found else rest

-- `limit <= 0 || limit > 50` means 10.
unfoldable pub effective_limit : ℤ → ℕ
effective_limit (negsuc n) = 10
effective_limit (pos zero) = 10
effective_limit (pos (suc n)) = if ltb 50 (suc n) then 10 else suc n

abbrev pub enabled_tool : Option Tool → Result Tool
enabled_tool none = err tool_not_found
enabled_tool (some t) = if not t.enabled then err tool_not_found else ok t

-- The value of a membership; a missing key reads as false.
abbrev pub is_member : Option Bool → Bool
is_member none = false
is_member (some b) = b

abbrev pub allowed_group : Identity → Text → Option Group → Result Group
allowed_group id group none = err group_not_found
allowed_group id group (some g) =
    if is_allowed group id.allowed_groups then ok g else err group_not_allowed

abbrev pub switched : Identity → Text → Result Group → Result (Identity × Group)
switched id group (err e) = err e
switched id group (ok g) = ok (record id { active_group = group }, g)

abbrev pub invoke_tool : Option Invoker → InvokeRequest → Result Tool → Result Text
invoke_tool i r (err e) = err e
invoke_tool none r (ok t) = err invoker_unavailable
invoke_tool (some f) r (ok t) = f r.identity.tenant_id r.component_id r.tool_name r.arguments

module _ {S : Type 0} where
  unfoldable pub group : Identity → Service S → Result Group
  unfolding is_allowed
  group id s = allowed_group id id.active_group (find id.tenant_id id.active_group s.groups)

  abbrev pub search_in : SearchRequest → Result Group → Service S → Result SearchResult
  search_in r (err e) s = err e
  search_in r (ok g) s =
      let tenant = r.identity.tenant_id in
      ok (record {
        group = g;
        items =
            sort (λ (t : Tool). t.name)
              (hits (to_lower (trim_space r.query)) (inner tenant s.tools)
                (keys (members tenant g.id s.memberships)) (effective_limit r.limit));
      })

  unfoldable pub search : SearchRequest → Service S → Result SearchResult
  unfolding group
  search r s = search_in r (group r.identity s) s

  abbrev pub get_in : Identity → Text → Text → Result Group → Service S → Result Tool
  get_in id component tool (err e) s = err e
  get_in id component tool (ok g) s =
      let key = tool_key component tool in
      if not (is_member (lookup key (members id.tenant_id g.id s.memberships)))
      then err tool_not_found
      else enabled_tool (find id.tenant_id key s.tools)

  unfoldable pub get : Identity → Text → Text → Service S → Result Tool
  unfolding group
  get id component tool s = get_in id component tool (group id s) s

  unfoldable pub set_group : Identity → Text → Service S → Result (Identity × Group)
  unfolding is_allowed
  set_group id group s =
      switched id group (allowed_group id group (find id.tenant_id group s.groups))

  unfoldable pub invoke : InvokeRequest → Service S → Result Text
  unfolding get
  invoke r s = invoke_tool s.invoke r (get r.identity r.component_id r.tool_name s)
