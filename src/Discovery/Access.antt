-- ===== src/Discovery/Access.antt =====
-- Who may see and call which tool.
use mcphub.Prelude.{
  ◌≡◌, ◌↔◌, ◌⊎◌, inl, inr, refl, ap, ◌∙◌, true, Option, none, some, List, [], ◌∷◌, Text, eqb,
  eqb_iff, lookup, find, any, Any, Bool-cases, arith,
}
use mcphub.Discovery.Types.{Result, ok, err, Tool, Group, Identity, InvokeRequest, Invoker, Service}
use mcphub.Discovery.Tools.{tool_key, members}
use mcphub.Discovery.Queries.{
  is_allowed, allowed_group, group, is_member, enabled_tool, get, get_in, set_group, switched,
  invoke, invoke_tool,
}

-- The identity may use the group: no groups are listed for it, or the group is one of them.
abbrev pub Allows : Text → List Text → Type 0
Allows g allowed = (allowed ≡ []) ⊎ Any (λ v. v ≡ g) allowed

any_iff : (g : Text) (xs : List Text) → (any (λ v. eqb v g) xs ≡ true) ↔ Any (λ v. v ≡ g) xs
any_iff g [] = ((λ h. absurd (cc)), (λ h. absurd h))
any_iff g (x ∷ xs) =
    let rest = any_iff g xs in
    (
      (λ h. elim (Bool-cases (eqb x g)) [
        | inl same ↦ inl ((eqb_iff x g).0 same)
        | inr other ↦ inr (rest.0 (rw other at h))
      ]),
      (λ h. elim h [
        | inl same ↦ rw ((eqb_iff x g).1 same)
        | inr more ↦ ground (arith, rest.1 more)
      ]),
    )

is_allowed_iff : (g : Text) (allowed : List Text) → (is_allowed g allowed ≡ true) ↔ Allows g allowed
unfolding is_allowed
is_allowed_iff g [] = ((λ h. inl refl), (λ h. refl))
is_allowed_iff g (x ∷ xs) =
    let found = any_iff g (x ∷ xs) in
    ((λ h. inr (found.0 h)), (λ h. elim h [ inl e ↦ cc | inr a ↦ found.1 a ]))

-- The tenant has the group, and the identity may use it.
abbrev pub Permits : {S : Type 0} → Service S → Identity → Text → Group → Type 0
Permits s id name g = (find id.tenant_id name s.groups ≡ some g) × Allows name id.allowed_groups

allowed_group_iff :
    (id : Identity) (name : Text) (o : Option Group) (g : Group)
    → (allowed_group id name o ≡ ok g) ↔ ((o ≡ some g) × Allows name id.allowed_groups)
allowed_group_iff id name none g = ((λ h. cc), (λ p. cc (p.0)))
allowed_group_iff id name (some x) g =
    let allowed = is_allowed_iff name id.allowed_groups in
    ((λ h. (ground arith, allowed.0 (ground arith))), (λ p. rw (allowed.1 p.1) (cc (p.0))))

group_iff :
    {S : Type 0} (id : Identity) (s : Service S) (g : Group)
    → (group id s ≡ ok g) ↔ Permits s id id.active_group g
unfolding group
group_iff id s g =
    allowed_group_iff id id.active_group (find id.tenant_id id.active_group s.groups) g

enabled_iff :
    (o : Option Tool) (t : Tool) → (enabled_tool o ≡ ok t) ↔ ((o ≡ some t) × (t.enabled ≡ true))
enabled_iff none t = ((λ h. cc), (λ p. cc (p.0)))
enabled_iff (some x) t = ((λ h. (ground arith, ground arith)), (λ p. ground (arith, p.0, p.1)))

-- `Get` returns a tool exactly if the tenant has the identity's active group, the identity may use
-- that group, the group holds the tool's key, and the tenant's catalog has the tool, enabled.
pub get_ok_iff :
    {S : Type 0} (id : Identity) (component tool : Text) (s : Service S) (t : Tool)
    → (get id component tool s ≡ ok t) ↔ (
        (g : Group) × Permits s id id.active_group g
        × (lookup (tool_key component tool) (members id.tenant_id g.id s.memberships) ≡ some true)
        × (find id.tenant_id (tool_key component tool) s.tools ≡ some t)
        × (t.enabled ≡ true))
unfolding get
get_ok_iff {S} id component tool s t = ((λ h. split (group id s) refl h), join)
  where
    key : Text
    key = tool_key component tool

    Visible : Group → Type 0
    Visible g =
        (lookup key (members id.tenant_id g.id s.memberships) ≡ some true)
        × (find id.tenant_id key s.tools ≡ some t)
        × (t.enabled ≡ true)

    split :
        (r : Result Group)
        → group id s ≡ r
        → get_in id component tool r s ≡ ok t
        → (g : Group) × Permits s id id.active_group g
          × (lookup key (members id.tenant_id g.id s.memberships) ≡ some true)
          × (find id.tenant_id key s.tools ≡ some t)
          × (t.enabled ≡ true)
    split (err e) eq h = absurd (cc)
    split (ok g) eq h =
        let found = enabled_iff (find id.tenant_id key s.tools) t in
        let visible = found.0 (ground arith) in
        (g, (group_iff id s g).0 eq, ground arith, visible.0, visible.1)

    join :
        ((g : Group) × Permits s id id.active_group g
          × (lookup key (members id.tenant_id g.id s.memberships) ≡ some true)
          × (find id.tenant_id key s.tools ≡ some t)
          × (t.enabled ≡ true))
        → get id component tool s ≡ ok t
    join (g, permits, member, found, enabled) =
        rw ((group_iff id s g).1 permits, get_in, member, is_member)
          ((enabled_iff (find id.tenant_id key s.tools) t).1 (found, enabled))

-- `SetGroup` succeeds exactly for a group of the tenant that the identity may use; it then changes
-- the active group and nothing else of the identity, so the group is the one that queries use.
pub set_group_ok_iff :
    {S : Type 0} (id id' : Identity) (name : Text) (s : Service S) (g : Group)
    → (set_group id name s ≡ ok (id', g))
      ↔ (Permits s id name g × (id' ≡ record id { active_group = name }) × (group id' s ≡ ok g))
unfolding set_group
set_group_ok_iff id id' name s g = (
  (λ h. split (allowed_group id name (find id.tenant_id name s.groups)) refl h),
  (λ p.
      rw ((allowed_group_iff id name (find id.tenant_id name s.groups) g).1 p.0, switched)
        (cc (p.1))),
)
  where
    split :
        (r : Result Group)
        → allowed_group id name (find id.tenant_id name s.groups) ≡ r
        → switched id name r ≡ ok (id', g)
        → Permits s id name g × (id' ≡ record id { active_group = name }) × (group id' s ≡ ok g)
    split (err e) eq h = absurd (cc)
    split (ok x) eq h =
        let same : x ≡ g = cc in
        let moved : id' ≡ record id { active_group = name } = cc in
        let permits =
          (allowed_group_iff id name (find id.tenant_id name s.groups) g).0 (eq ∙ ap ok same) in
        (permits, moved, rw moved ((group_iff (record id { active_group = name }) s g).1 permits))

-- An invocation that succeeds went to the invoker with the identity's own tenant, for a tool that
-- `Get` returns: enabled, in the active group, which the identity may use.
pub invoke_authorised :
    {S : Type 0} (r : InvokeRequest) (s : Service S) (answer : Text)
    → invoke r s ≡ ok answer
    → ((f : Invoker) × (s.invoke ≡ some f)
        × (f r.identity.tenant_id r.component_id r.tool_name r.arguments ≡ ok answer))
      × ((t : Tool) × (g : Group) × (get r.identity r.component_id r.tool_name s ≡ ok t)
          × (t.enabled ≡ true)
          × Permits s r.identity r.identity.active_group g)
unfolding invoke
invoke_authorised r s answer h =
    split s.invoke (get r.identity r.component_id r.tool_name s) refl refl h
  where
    split :
        (i : Option Invoker) (o : Result Tool)
        → s.invoke ≡ i
        → get r.identity r.component_id r.tool_name s ≡ o
        → invoke_tool i r o ≡ ok answer
        → ((f : Invoker) × (s.invoke ≡ some f)
            × (f r.identity.tenant_id r.component_id r.tool_name r.arguments ≡ ok answer))
          × ((t : Tool) × (g : Group) × (get r.identity r.component_id r.tool_name s ≡ ok t)
              × (t.enabled ≡ true)
              × Permits s r.identity r.identity.active_group g)
    split i (err e) ei eo h = absurd (cc)
    split none (ok t) ei eo h = absurd (cc)
    split (some f) (ok t) ei eo h =
        let (g, permits, _, _, enabled) =
          (get_ok_iff r.identity r.component_id r.tool_name s t).0 eo in
        ((f, ei, h), (t, g, eo, enabled, permits))
