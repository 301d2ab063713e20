-- ===== src/Admin/Deleted.antt =====
-- A group that was deleted through the admin API.
use mcphub.Prelude.{
  ◌≡◌, ◌≢◌, refl, sym, ap, ◌∙◌, subst, false, Option, none, some, List, [], ◌∷◌, Text, str, eqb,
  eqb_iff, eqb_refl, find, find-erase_in, is_some, split, trim_byte, trim_prefix, Bool-cases, inl,
  inr, arith,
}
use mcphub.Discovery.Types.{Error, err, Tool, group_not_found, Service, asked, zero_tool}
use mcphub.Discovery.Groups.{delete_group, delete_local}
use mcphub.Discovery.Tools.{group_tools, attach_tool}
use mcphub.Admin.Groups.{no_content, failed, handle_group, or_no_content, or_tools, tenant_of}

-- The parts of a path below the groups.
abbrev pub HasParts : Text → List Text → Type 0
HasParts path ps = split b'/' (trim_byte b'/' (trim_prefix path (str "/api/admin/groups/"))) ≡ ps

module _ {S : Type 0} (tenant id : Text) where
  or_no_content-done :
      (x : Option Error × Service S) → (or_no_content x).0 ≡ no_content → x.0 ≡ none
  or_no_content-done (some e, t) h = ground arith
  or_no_content-done (none, t) h = refl

  or_no_content-state : (x : Option Error × Service S) → (or_no_content x).1 ≡ x.1
  or_no_content-state (some e, t) = refl
  or_no_content-state (none, t) = refl

  -- A deletion that succeeds leaves no group with the id.
  delete_local-gone :
      (e : Option Error) (d : Service S)
      → (delete_local tenant id e d).0 ≡ none
      → (find tenant id (delete_local tenant id e d).1.groups ≡ none)
        × ((delete_local tenant id e d).1.backend ≡ d.backend)
  delete_local-gone (some x) d done = ground arith
  delete_local-gone none d done = elim (Bool-cases (is_some (find tenant id d.groups))) [
    | inl there ↦
        rw there (
          find-erase_in tenant tenant id id d.groups ∙ rw (eqb_refl tenant, eqb_refl id) refl,
          refl,
        )
    | inr missing ↦ ground arith
  ]

  missing_tools :
      (s : Service S)
      → s.backend ≡ none
      → find tenant id s.groups ≡ none
      → group_tools tenant id s ≡ (err group_not_found, s)
  unfolding group_tools
  missing_tools s local missing = rw (local, missing) refl

  missing_attach :
      (t : Tool) (s : Service S)
      → s.backend ≡ none
      → find tenant id s.groups ≡ none
      → attach_tool tenant id t s ≡ (some group_not_found, s)
  unfolding attach_tool
  missing_attach t s local missing = rw (local, missing) refl

  delete_group-gone :
      (s : Service S)
      → (delete_group tenant id s).0 ≡ none
      → (find tenant id (delete_group tenant id s).1.groups ≡ none)
        × ((delete_group tenant id s).1.backend ≡ s.backend)
  unfolding delete_group
  delete_group-gone s done =
      let (e, store) = asked s.backend (λ b. b.delete_group tenant id) s.store in
      delete_local-gone e (record s { store = store }) done

module _ {S : Type 0} (path query id : Text) (s : Service S) (ne : id ≢ []) where
  delete_handled :
      HasParts path (id ∷ [])
      → handle_group (str "DELETE") path query none none s
        ≡ or_no_content (delete_group (tenant_of query) id s)
  unfolding handle_group eqb
  delete_handled at = rw (at, named) refl
    where
      named : eqb id [] ≡ false
      named = ground (arith, eqb_iff id [])

  tools_handled :
      HasParts path (id ∷ (str "tools" ∷ []))
      → handle_group (str "GET") path query none none s
        ≡ or_tools (group_tools (tenant_of query) id s)
  unfolding handle_group eqb
  tools_handled at = rw (at, named) refl
    where
      named : eqb id [] ≡ false
      named = ground (arith, eqb_iff id [])

  attach_handled :
      (component name : Text)
      → component ≢ []
      → name ≢ []
      → HasParts path (id ∷ (str "tools" ∷ []))
      → handle_group (str "POST") path query none (some (component, name)) s
        ≡ or_no_content (
            attach_tool
              (tenant_of query)
              id
              (record zero_tool { component_id = component; name = name })
              s)
  unfolding handle_group eqb
  attach_handled component name ne_c ne_n at = rw (at, named, named_component, named_tool) refl
    where
      named_component : eqb component [] ≡ false
      named_component = ground (arith, eqb_iff component [])

      named_tool : eqb name [] ≡ false
      named_tool = ground (arith, eqb_iff name [])

      named : eqb id [] ≡ false
      named = ground (arith, eqb_iff id [])

-- In memory, after a DELETE of a group is answered with 204, asking for its tools and attaching a tool to
-- it are answered with group_not_found and change nothing.
pub handle_group-deleted :
    {S : Type 0} (path tools_path query id component name : Text) (s : Service S)
    → s.backend ≡ none
    → HasParts path (id ∷ [])
    → HasParts tools_path (id ∷ (str "tools" ∷ []))
    → id ≢ []
    → component ≢ []
    → name ≢ []
    → (handle_group (str "DELETE") path query none none s).0 ≡ no_content
    → let s' = (handle_group (str "DELETE") path query none none s).1 in
      (handle_group (str "GET") tools_path query none none s' ≡ (failed group_not_found 404, s'))
      × (handle_group (str "POST") tools_path query none (some (component, name)) s'
          ≡ (failed group_not_found 404, s'))
handle_group-deleted {S = S} path tools_path query id component name s local at at_tools ne ne_c
      ne_n done =
    subst
      (λ u.
        (handle_group (str "GET") tools_path query none none u ≡ (failed group_not_found 404, u))
        × (handle_group (str "POST") tools_path query none (some (component, name)) u
            ≡ (failed group_not_found 404, u)))
      (sym after)
      (
        tools_handled tools_path query id s1 ne at_tools
            ∙ ap or_tools (missing_tools t id s1 local1 gone.0),
        attach_handled tools_path query id s1 ne component name ne_c ne_n at_tools
            ∙ ap or_no_content (
                missing_attach t id (record zero_tool { component_id = component; name = name }) s1
                  local1 gone.0),
      )
  where
    t : Text
    t = tenant_of query

    s1 : Service S
    s1 = (delete_group t id s).1

    handled :
        handle_group (str "DELETE") path query none none s ≡ or_no_content (delete_group t id s)
    handled = delete_handled path query id s ne at

    after : (handle_group (str "DELETE") path query none none s).1 ≡ s1
    after = ap (λ x. x.1) handled ∙ or_no_content-state t id (delete_group t id s)

    gone : (find t id s1.groups ≡ none) × (s1.backend ≡ s.backend)
    gone =
        delete_group-gone t id s
          (or_no_content-done t id (delete_group t id s) (ap (λ x. x.0) (sym handled) ∙ done))

    local1 : s1.backend ≡ none
    local1 = gone.1 ∙ local
