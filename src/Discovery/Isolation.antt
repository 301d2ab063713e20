-- ===== src/Discovery/Isolation.antt =====
-- No operation on one tenant is seen by another.
pub mod Steps
use mcphub.Prelude.{
  ℤ, ◌≡◌, ◌≢◌, refl, sym, subst, ap, ◌∙◌, insert, Bool, true, false, not, Option, none, some, List,
  [], ◌∷◌, Text, Map, inner, ensure, insert_in, inner-ensure, is_some, if_cases, if◌then◌else◌, All,
  arith, has_prefix, keep_keys,
}
use mcphub.Discovery.Types.{
  Error, Result, ok, err, Tool, Group, Identity, SearchRequest, Service, Backend, asked,
}
use mcphub.Discovery.Groups.{
  default, default_group, ensure_default, upsert_group, update_group, delete_group, list_groups,
  listed_groups, merged_groups, is_nil,
}
use mcphub.Discovery.Tools.{
  Catalog, add_tool, attach_tool, detach_tool, replace_tools, group_tools, listed_tools,
  merged_tools, with_catalog, ensure_members, key_of, key_prefix,
}
use mcphub.Discovery.Queries.{group, get, get_in, search, search_in, set_group}
use mcphub.Discovery.History.{
  Call, ensures_default, lists_groups, upserts, updates, deletes, lists_tools, adds, attaches,
  detaches, replaces, step, run,
}
use mcphub.Discovery.Isolation.Steps.{
  SameView, inner-insert_ne, inner-insert_in_ne, add_member_ne, ensure_members_ne, merge_groups_ne,
  merge_tools_ne, put_tools_ne, upsert_local_ne, update_local_ne, delete_local_ne, attach_local_ne,
  detach_local_ne,
}

module _ {S : Type 0} (t u : Text) (ne : u ≢ t) (s : Service S) where
  pub ensure_default_ne : SameView u s (ensure_default t s)
  unfolding ensure_default
  ensure_default_ne = record {
    groups =
        let groups = ensure t s.groups in
        if_cases (λ x. inner u x ≡ inner u s.groups) (is_nil (inner t groups))
          (insert_in t default default_group groups) groups
          (inner-insert_in_ne t u ne default default_group groups ∙ inner-ensure t u s.groups)
          (inner-ensure t u s.groups);
    tools = refl;
    memberships = refl;
  }

  merged_groups_ne :
      (r : Result (List Group)) → inner u (merged_groups t r s.groups) ≡ inner u s.groups
  merged_groups_ne (err e) = refl
  merged_groups_ne (ok gs) =
      merge_groups_ne t u ne gs (ensure t s.groups) ∙ inner-ensure t u s.groups

  listed_groups_ne : (b : Option (Backend S)) → inner u (listed_groups b t s) ≡ inner u s.groups
  listed_groups_ne none = refl
  listed_groups_ne (some b) = merged_groups_ne (b.list_groups t s.store)

  merged_tools_ne : (g : Text) (r : Result (List Tool)) → SameView u s (merged_tools t g r s)
  merged_tools_ne g (err e) = record { groups = refl; tools = refl; memberships = refl }
  merged_tools_ne g (ok ts) =
      let loop =
        merge_tools_ne t u ne g ts
          (record { tools = ensure t s.tools; memberships = ensure_members t g s.memberships }) in
      record {
        groups = refl;
        tools = loop.0 ∙ inner-ensure t u s.tools;
        memberships = loop.1 ∙ ensure_members_ne t u ne g s.memberships;
      }

  listed_tools_ne : (b : Option (Backend S)) (g : Text) → SameView u s (listed_tools b t g s)
  listed_tools_ne none g = record { groups = refl; tools = refl; memberships = refl }
  listed_tools_ne (some b) g = merged_tools_ne g (b.list_group_tools t g s.store)

  stored :
      (store : S) {s' : Service S} → SameView u (record s { store = store }) s' → SameView u s s'
  stored store h = record { groups = h.groups; tools = h.tools; memberships = h.memberships }

  replace_tools_ne :
      (component : Text) (ts : List Tool) → SameView u s (replace_tools t component ts s)
  unfolding replace_tools
  replace_tools_ne component ts =
      let tools = ensure t s.tools in
      let loop = put_tools_ne t u ne component ts (record {
        tools =
            insert t
              (keep_keys (λ key. not (has_prefix key (key_prefix component))) (inner t tools))
              tools;
        memberships = ensure_members t default s.memberships;
      }) in
      record {
        groups = refl;
        tools = loop.0 ∙ inner-insert_ne t u ne _ tools ∙ inner-ensure t u s.tools;
        memberships = loop.1 ∙ ensure_members_ne t u ne default s.memberships;
      }

  step-SameView : (call : Call) → SameView u s (step t call s)
  unfolding step list_groups upsert_group update_group delete_group group_tools add_tool attach_tool
      detach_tool replace_tools
  step-SameView ensures_default = ensure_default_ne
  step-SameView lists_groups = record {
    groups = listed_groups_ne s.backend;
    tools = refl;
    memberships = refl;
  }
  step-SameView (upserts g) =
      let (e, store) = asked s.backend (λ b. b.create_group t g) s.store in
      stored store (upsert_local_ne t u ne (record s { store = store }) g e)
  step-SameView (updates g) =
      let (e, store) = asked s.backend (λ b. b.update_group t g) s.store in
      stored store (update_local_ne t u ne (record s { store = store }) g e)
  step-SameView (deletes id) =
      let (e, store) = asked s.backend (λ b. b.delete_group t id) s.store in
      stored store (delete_local_ne t u ne (record s { store = store }) id e)
  step-SameView (lists_tools g) = listed_tools_ne s.backend g
  step-SameView (adds g x) = record {
    groups = refl;
    tools = inner-insert_in_ne t u ne (key_of x) _ (ensure t s.tools) ∙ inner-ensure t u s.tools;
    memberships =
        add_member_ne t u ne g (key_of x) (ensure_members t g s.memberships)
        ∙ ensure_members_ne t u ne g s.memberships;
  }
  step-SameView (attaches g x) =
      let (e, store) = asked s.backend (λ b. b.attach_tool t g x) s.store in
      stored store (attach_local_ne t u ne (record s { store = store }) g x e)
  step-SameView (detaches g component tool) =
      let (e, store) = asked s.backend (λ b. b.detach_tool t g component tool) s.store in
      stored store (detach_local_ne t u ne (record s { store = store }) g component tool e)
  step-SameView (replaces component ts) = replace_tools_ne component ts

SameView-trans :
    {S : Type 0} {u : Text} {a b c : Service S} → SameView u a b → SameView u b c → SameView u a c
SameView-trans h k = record {
  groups = k.groups ∙ h.groups;
  tools = k.tools ∙ h.tools;
  memberships = k.memberships ∙ h.memberships;
}

-- No call in the list is for the tenant.
abbrev pub ForOthers : Text → List (Text × Call) → Type 0
ForOthers u calls = All (λ (x : Text × Call). u ≢ x.0) calls

run-SameView :
    {S : Type 0} (u : Text) (calls : List (Text × Call)) (s : Service S)
    → ForOthers u calls
    → SameView u s (run calls s)
unfolding run
run-SameView u [] s h = record { groups = refl; tools = refl; memberships = refl }
run-SameView u ((t, call) ∷ calls) s h =
    SameView-trans (step-SameView t u h.0 s call) (run-SameView u calls (step t call s) h.1)

module _ {S : Type 0} (id : Identity) {s s' : Service S} (h : SameView id.tenant_id s s') where
  group_same : group id s' ≡ group id s
  unfolding group
  group_same = rw h.groups

  get_in_same :
      (component tool : Text) (r : Result Group)
      → get_in id component tool r s' ≡ get_in id component tool r s
  get_in_same component tool (err e) = refl
  get_in_same component tool (ok g) = rw (h.tools, h.memberships)

  pub get_same : (component tool : Text) → get id component tool s' ≡ get id component tool s
  unfolding get
  get_same component tool = rw group_same (get_in_same component tool (group id s))

  pub set_group_same : (name : Text) → set_group id name s' ≡ set_group id name s
  unfolding set_group
  set_group_same name = rw h.groups

search_in_same :
    {S : Type 0} (r : SearchRequest) {s s' : Service S}
    → SameView r.identity.tenant_id s s'
    → (g : Result Group) → search_in r g s' ≡ search_in r g s
search_in_same r h (err e) = refl
search_in_same r h (ok g) = rw (h.tools, h.memberships)

pub search_same :
    {S : Type 0} (r : SearchRequest) {s s' : Service S}
    → SameView r.identity.tenant_id s s'
    → search r s' ≡ search r s
unfolding search
search_same r {s = s} h = rw (group_same r.identity h) (search_in_same r h (group r.identity s))

-- Whatever calls are made for other tenants, with a backend or without: the Hub's search, get and
-- group switch of an identity answer as before.
pub run_isolated :
    {S : Type 0} (id : Identity) (calls : List (Text × Call)) (s : Service S)
    → ForOthers id.tenant_id calls
    → (component tool query name : Text) → (limit : ℤ)
    → let r : SearchRequest = record { identity = id; query = query; limit = limit } in
      (get id component tool (run calls s) ≡ get id component tool s)
      × (search r (run calls s) ≡ search r s)
      × (set_group id name (run calls s) ≡ set_group id name s)
run_isolated id calls s others component tool query name limit =
    let same = run-SameView id.tenant_id calls s others in
    let r : SearchRequest = record { identity = id; query = query; limit = limit } in
    (get_same id same component tool, search_same r same, set_group_same id same name)
