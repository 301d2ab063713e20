-- ===== src/Discovery/Isolation/Steps.antt =====
-- What the parts of each operation on one tenant leave of another tenant.
use mcphub.Prelude.{
  ◌≡◌, ◌≢◌, refl, ap, ◌∙◌, true, Option, none, some, List, [], ◌∷◌, Text, eqb_iff, Map,
  lookup-insert_ne, insert, inner, or_empty, find, ensure, insert_in, erase_in, inner-ensure,
  inner-erase_in, is_some, if_cases, arith,
}
use mcphub.Discovery.Types.{group_exists, Error, Tool, Group, Service}
use mcphub.Discovery.Groups.{
  default, name_exists, merge_groups, upsert_local, update_local, delete_local,
}
use mcphub.Discovery.Tools.{
  Catalog, Memberships, key_of, tool_key, merge_tools, attach_local, detach_local, put_tools,
  add_member, remove_member, ensure_members,
}

-- What the queries of a tenant read.
pub record SameView {S : Type 0} (tenant : Text) (s t : Service S) : Type 0 where
  pub groups : inner tenant t.groups ≡ inner tenant s.groups
  pub tools : inner tenant t.tools ≡ inner tenant s.tools
  pub memberships : inner tenant t.memberships ≡ inner tenant s.memberships

module _ {ℓ} {V : Type ℓ} (t u : Text) (ne : u ≢ t) where
  pub inner-insert_ne : (i : Map V) (m : Map (Map V)) → inner u (insert t i m) ≡ inner u m
  inner-insert_ne i m = ap or_empty (lookup-insert_ne t u i m ne)

  pub inner-insert_in_ne :
      (k : Text) (v : V) (m : Map (Map V)) → inner u (insert_in t k v m) ≡ inner u m
  unfolding insert_in
  inner-insert_in_ne k v m = inner-insert_ne (insert k v (inner t m)) m

  inner-erase_in_ne : (k : Text) (m : Map (Map V)) → inner u (erase_in t k m) ≡ inner u m
  inner-erase_in_ne k m = ground (arith, inner-erase_in t u k m, eqb_iff t u)

module _ (t u : Text) (ne : u ≢ t) where
  pub add_member_ne : (g k : Text) (m : Memberships) → inner u (add_member t g k m) ≡ inner u m
  unfolding add_member
  add_member_ne g k m = inner-insert_ne t u ne _ m

  pub ensure_members_ne : (g : Text) (m : Memberships) → inner u (ensure_members t g m) ≡ inner u m
  unfolding ensure_members
  ensure_members_ne g m = inner-insert_ne t u ne _ (ensure t m) ∙ inner-ensure t u m

  remove_member_ne : (g k : Text) (m : Memberships) → inner u (remove_member t g k m) ≡ inner u m
  unfolding remove_member
  remove_member_ne g k m =
      if_cases (λ x. inner u x ≡ inner u m) (is_some (find t g m)) _ m (inner-insert_ne t u ne _ m)
        refl

module _ (t u : Text) (ne : u ≢ t) where
  pub merge_groups_ne :
      (gs : List Group) (m : Map (Map Group)) → inner u (merge_groups t gs m) ≡ inner u m
  unfolding merge_groups
  merge_groups_ne [] m = refl
  merge_groups_ne (g ∷ gs) m =
      merge_groups_ne gs (insert_in t g.id g m) ∙ inner-insert_in_ne t u ne g.id g m

  -- What a loop over a catalog leaves of another tenant.
  abbrev pub Untouched : Catalog → Catalog → Type 0
  Untouched c d =
      (inner u d.tools ≡ inner u c.tools) × (inner u d.memberships ≡ inner u c.memberships)

  pub merge_tools_ne :
      (g : Text) (ts : List Tool) (c : Catalog) → Untouched c (merge_tools t g ts c)
  unfolding merge_tools
  merge_tools_ne g [] c = (refl, refl)
  merge_tools_ne g (x ∷ ts) c =
      let rest = merge_tools_ne g ts (record {
        tools = insert_in t (key_of x) x c.tools;
        memberships = add_member t g (key_of x) c.memberships;
      }) in
      (
        rest.0 ∙ inner-insert_in_ne t u ne (key_of x) x c.tools,
        rest.1 ∙ add_member_ne t u ne g (key_of x) c.memberships,
      )

  pub put_tools_ne :
      (component : Text) (ts : List Tool) (c : Catalog) → Untouched c (put_tools t component ts c)
  unfolding put_tools
  put_tools_ne component [] c = (refl, refl)
  put_tools_ne component (x ∷ ts) c =
      let key = tool_key component x.name in
      let rest = put_tools_ne component ts (record {
        tools = insert_in t key (record x { component_id = component; enabled = true }) c.tools;
        memberships = add_member t default key c.memberships;
      }) in
      (
        rest.0 ∙ inner-insert_in_ne t u ne key _ c.tools,
        rest.1 ∙ add_member_ne t u ne default key c.memberships,
      )

  module _ {S : Type 0} (s : Service S) where
    pub upsert_local_ne : (g : Group) (e : Option Error) → SameView u s (upsert_local t g e s).1
    upsert_local_ne g (some e) = record { groups = refl; tools = refl; memberships = refl }
    upsert_local_ne g none = record {
      groups =
          let groups = ensure t s.groups in
          if_cases (λ (x : Option Error × Service S). inner u x.1.groups ≡ inner u s.groups)
            (name_exists g (inner t groups)) (some group_exists, record s { groups = groups })
            (none, record s { groups = insert_in t g.id g groups }) (inner-ensure t u s.groups)
            (inner-insert_in_ne t u ne g.id g groups ∙ inner-ensure t u s.groups);
      tools = ground arith;
      memberships = ground arith;
    }

    pub update_local_ne : (g : Group) (e : Option Error) → SameView u s (update_local t g e s).1
    update_local_ne g (some e) = record { groups = refl; tools = refl; memberships = refl }
    update_local_ne g none = record {
      groups = ground (arith, inner-insert_in_ne t u ne g.id g s.groups);
      tools = ground arith;
      memberships = ground arith;
    }

    pub delete_local_ne : (id : Text) (e : Option Error) → SameView u s (delete_local t id e s).1
    delete_local_ne id (some e) = record { groups = refl; tools = refl; memberships = refl }
    delete_local_ne id none = record {
      groups = ground (arith, inner-erase_in_ne t u ne id s.groups);
      tools = ground arith;
      memberships = ground (arith, inner-erase_in_ne t u ne id s.memberships);
    }

    pub attach_local_ne :
        (g : Text) (x : Tool) (e : Option Error) → SameView u s (attach_local t g x e s).1
    attach_local_ne g x (some e) = record { groups = refl; tools = refl; memberships = refl }
    attach_local_ne g x none =
        let added =
          add_member_ne t u ne g (key_of x) (ensure_members t g s.memberships)
          ∙ ensure_members_ne t u ne g s.memberships in
        record { groups = ground arith; tools = ground arith; memberships = ground arith }

    pub detach_local_ne :
        (g component tool : Text) (e : Option Error)
        → SameView u s (detach_local t g component tool e s).1
    detach_local_ne g component tool (some e) = record {
      groups = refl;
      tools = refl;
      memberships = refl;
    }
    detach_local_ne g component tool none =
        let removed = remove_member_ne t u ne g (tool_key component tool) s.memberships in
        record { groups = ground arith; tools = ground arith; memberships = ground arith }
