-- ===== src/Postgres/Discovery/Agreement.antt =====
-- The groups of the discovery service over PostgreSQL agree with the table of groups.
use mcphub.Prelude.{
  ◌≡◌, refl, sym, subst, ap, ◌∙◌, Bool, true, false, not, ◌&&◌, ◌||◌, Option, none, some, List, [],
  ◌∷◌, Text, eqb, eqb_refl, Map, lookup, inner, find, ensure, insert_in, erase_in, inner-ensure,
  find-insert_in, find-erase_in, is_some, map, arith, if◌then◌else◌, if_cases, Bool-cases, inl, inr,
}
use mcphub.Discovery.Types.{Error, group_exists, group_not_found, storage, Group, Service, asked}
use mcphub.Discovery.Groups.{
  upsert_group, upsert_local, update_group, update_local, delete_group, delete_local, name_exists,
}
use mcphub.Discovery.History.{
  Call, ensures_default, lists_groups, upserts, updates, deletes, lists_tools, adds, attaches,
  detaches, replaces, step, run,
}
use mcphub.Postgres.{Database, violation}
use mcphub.Postgres.Discovery.{group_backend, with_tenant, name_taken, put_group}
use mcphub.Postgres.Discovery

-- The service has the groups of the tenant that the table has.
unfoldable pub Agrees : Text → Service Database → Type 0
Agrees tenant s = (id : Text) → find tenant id s.groups ≡ find tenant id s.store.tool_groups

insert_both :
    (tenant k id : Text) (g : Group) (m n : Map (Map Group))
    → find tenant id m ≡ find tenant id n
    → find tenant id (insert_in tenant k g m) ≡ find tenant id (insert_in tenant k g n)
insert_both tenant k id g m n same =
    find-insert_in tenant tenant k id g m
    ∙ ap (λ o. if eqb tenant tenant && eqb k id then some g else o) same
    ∙ sym (find-insert_in tenant tenant k id g n)

erase_both :
    (tenant k id : Text) (m n : Map (Map Group))
    → find tenant id m ≡ find tenant id n
    → find tenant id (erase_in tenant k m) ≡ find tenant id (erase_in tenant k n)
erase_both tenant k id m n same =
    find-erase_in tenant tenant k id m
    ∙ ap (λ o. if eqb tenant tenant && eqb k id then none else o) same
    ∙ sym (find-erase_in tenant tenant k id n)

-- Where no other group of the tenant has the name up to case, making a group keeps the agreement,
-- whether the database takes the group or not.
pub upsert_group-Agrees :
    (tenant : Text) (g : Group) (s : Service Database)
    → s.backend ≡ some group_backend
    → name_exists g (inner tenant s.groups) ≡ false
    → Agrees tenant s
    → Agrees tenant (upsert_group tenant g s).1
unfolding Agrees upsert_group group_backend Discovery.create_group
upsert_group-Agrees tenant g s stored new same id =
    subst P (sym (ap (λ b. asked b (λ c. c.create_group tenant g) s.store) stored)) (
      if_cases P taken (some (storage violation), d) (none, put_group tenant g d) (same id)
        (rw new' (
          insert_both tenant g.id id g (ensure tenant s.groups) s.store.tool_groups
            (ap (lookup id) (inner-ensure tenant tenant s.groups) ∙ same id))))
  where
    P : Option Error × Database → Type 0
    P = λ x.
        find tenant id (upsert_local tenant g x.0 (record s { store = x.1 })).1.groups
        ≡ find tenant id (upsert_local tenant g x.0 (record s { store = x.1 })).1.store.tool_groups

    new' : name_exists g (inner tenant (ensure tenant s.groups)) ≡ false
    new' = ap (name_exists g) (inner-ensure tenant tenant s.groups) ∙ new

    d : Database
    d = record (s.store) { tenants = with_tenant tenant s.store.tenants }

    taken : Bool
    taken = is_some (find tenant g.id d.tool_groups) || name_taken tenant g d

-- So does changing one.
pub update_group-Agrees :
    (tenant : Text) (g : Group) (s : Service Database)
    → s.backend ≡ some group_backend
    → name_exists g (inner tenant s.groups) ≡ false
    → Agrees tenant s
    → Agrees tenant (update_group tenant g s).1
unfolding Agrees update_group group_backend Discovery.update_group
update_group-Agrees tenant g s stored new same id = subst P (sym call) (elim (Bool-cases there) [
  | inl e ↦ rw e (
      if_cases P (name_taken tenant g s.store) (some (storage violation), s.store)
        (none, put_group tenant g s.store) (same id)
        (rw (here ∙ e, new) (insert_both tenant g.id id g s.groups s.store.tool_groups (same id))))
  | inr e ↦ rw (e, here ∙ e) (same id)
])
  where
    call :
        asked s.backend (λ c. c.update_group tenant g) s.store
        ≡ Discovery.update_group tenant g s.store
    call = ap (λ b. asked b (λ c. c.update_group tenant g) s.store) stored

    there : Bool
    there = is_some (find tenant g.id s.store.tool_groups)

    here : is_some (find tenant g.id s.groups) ≡ there
    here = ap is_some (same g.id)

    P : Option Error × Database → Type 0
    P = λ x.
        find tenant id (update_local tenant g x.0 (record s { store = x.1 })).1.groups
        ≡ find tenant id (update_local tenant g x.0 (record s { store = x.1 })).1.store.tool_groups

-- And deleting one.
pub delete_group-Agrees :
    (tenant id : Text) (s : Service Database)
    → s.backend ≡ some group_backend
    → Agrees tenant s
    → Agrees tenant (delete_group tenant id s).1
unfolding Agrees delete_group group_backend Discovery.delete_group
delete_group-Agrees tenant id s stored same j = subst P (sym call) (elim (Bool-cases there) [
  | inl e ↦ rw (e, here ∙ e) (erase_both tenant id j s.groups s.store.tool_groups (same j))
  | inr e ↦ rw e (same j)
])
  where
    P : Option Error × Database → Type 0
    P = λ x.
        find tenant j (delete_local tenant id x.0 (record s { store = x.1 })).1.groups
        ≡ find tenant j (delete_local tenant id x.0 (record s { store = x.1 })).1.store.tool_groups

    call :
        asked s.backend (λ c. c.delete_group tenant id) s.store
        ≡ Discovery.delete_group tenant id s.store
    call = ap (λ b. asked b (λ c. c.delete_group tenant id) s.store) stored

    there : Bool
    there = is_some (find tenant id s.store.tool_groups)

    here : is_some (find tenant id s.groups) ≡ there
    here = ap is_some (same id)

upsert_local-backend :
    (tenant : Text) (g : Group) (e : Option Error) (s : Service Database)
    → (upsert_local tenant g e s).1.backend ≡ s.backend
upsert_local-backend tenant g (some e) s = refl
upsert_local-backend tenant g none s =
    if_cases (λ (x : Option Error × Service Database). x.1.backend ≡ s.backend)
      (name_exists g (inner tenant (ensure tenant s.groups))) _ _ refl refl

update_local-backend :
    (tenant : Text) (g : Group) (e : Option Error) (s : Service Database)
    → (update_local tenant g e s).1.backend ≡ s.backend
update_local-backend tenant g (some e) s = refl
update_local-backend tenant g none s =
    let P = λ (x : Option Error × Service Database). x.1.backend ≡ s.backend in
    if_cases P (not (is_some (find tenant g.id s.groups))) (some group_not_found, s) _ refl
      (if_cases P (name_exists g (inner tenant s.groups)) (some group_exists, s) _ refl refl)

delete_local-backend :
    (tenant id : Text) (e : Option Error) (s : Service Database)
    → (delete_local tenant id e s).1.backend ≡ s.backend
delete_local-backend tenant id (some e) s = refl
delete_local-backend tenant id none s =
    if_cases (λ (x : Option Error × Service Database). x.1.backend ≡ s.backend)
      (not (is_some (find tenant id s.groups))) _ _ refl refl

-- A call that makes, changes or deletes a group, where the new name is no other group's, up to case.
unfoldable pub is_edit : Text → Call → Service Database → Bool
is_edit tenant (upserts g) s = not (name_exists g (inner tenant s.groups))
is_edit tenant (updates g) s = not (name_exists g (inner tenant s.groups))
is_edit tenant (deletes id) s = true
is_edit tenant _ s = false

-- Each call of a tenant is such an edit, when its turn comes.
unfoldable pub AreEdits : Text → List Call → Service Database → Type 0
unfolding is_edit
AreEdits tenant [] s = Unit
AreEdits tenant (c ∷ cs) s = (is_edit tenant c s ≡ true) × AreEdits tenant cs (step tenant c s)

step-Agrees :
    (tenant : Text) (c : Call) (s : Service Database)
    → s.backend ≡ some group_backend
    → is_edit tenant c s ≡ true
    → Agrees tenant s
    → Agrees tenant (step tenant c s) × ((step tenant c s).backend ≡ some group_backend)
unfolding is_edit step upsert_group update_group delete_group
step-Agrees tenant (upserts g) s stored edit same = (
  upsert_group-Agrees tenant g s stored (ground arith) same,
  upsert_local-backend tenant g _ _ ∙ stored,
)
step-Agrees tenant (updates g) s stored edit same = (
  update_group-Agrees tenant g s stored (ground arith) same,
  update_local-backend tenant g _ _ ∙ stored,
)
step-Agrees tenant (deletes id) s stored edit same =
    (delete_group-Agrees tenant id s stored same, delete_local-backend tenant id _ _ ∙ stored)
step-Agrees tenant ensures_default s stored edit same = ground arith
step-Agrees tenant lists_groups s stored edit same = ground arith
step-Agrees tenant (lists_tools g) s stored edit same = ground arith
step-Agrees tenant (adds g t) s stored edit same = ground arith
step-Agrees tenant (attaches g t) s stored edit same = ground arith
step-Agrees tenant (detaches g c t) s stored edit same = ground arith
step-Agrees tenant (replaces c ts) s stored edit same = ground arith

-- The groups of the service refine the table: after any calls of a tenant that make, change or delete
-- groups, and whether the database takes them or not, the service has the groups of the tenant that the
-- table has, where it had them before and no new name was another group's up to case.
pub run-Agrees :
    (tenant : Text) (cs : List Call) (s : Service Database)
    → s.backend ≡ some group_backend
    → AreEdits tenant cs s
    → Agrees tenant s
    → Agrees tenant (run (map (λ c. (tenant, c)) cs) s)
unfolding run AreEdits
run-Agrees tenant [] s stored edits same = same
run-Agrees tenant (c ∷ cs) s stored edits same =
    let next = step-Agrees tenant c s stored edits.0 same in
    run-Agrees tenant cs (step tenant c s) next.1 edits.1 next.0

-- Making a group whose name is another group's in a different case fails, and the table has the group all
-- the same, when neither its id nor its exact name was in the table.
pub upsert_group-clash :
    (tenant : Text) (g : Group) (s : Service Database)
    → s.backend ≡ some group_backend
    → find tenant g.id s.store.tool_groups ≡ none
    → name_taken tenant g s.store ≡ false
    → name_exists g (inner tenant s.groups) ≡ true
    → ((upsert_group tenant g s).0 ≡ some group_exists)
      × (find tenant g.id (upsert_group tenant g s).1.store.tool_groups ≡ some g)
unfolding upsert_group group_backend Discovery.create_group
upsert_group-clash tenant g s stored new free clash =
    subst P (sym (ap (λ b. asked b (λ c. c.create_group tenant g) s.store) stored)) (
      rw (new, free, ap (name_exists g) (inner-ensure tenant tenant s.groups) ∙ clash)
        (
          refl,
          find-insert_in tenant tenant g.id g.id g s.store.tool_groups
              ∙ rw (eqb_refl tenant, eqb_refl g.id) refl,
        ))
  where
    P : Option Error × Database → Type 0
    P = λ x.
        ((upsert_local tenant g x.0 (record s { store = x.1 })).0 ≡ some group_exists)
        × (find tenant g.id
              (upsert_local tenant g x.0 (record s { store = x.1 })).1.store.tool_groups
            ≡ some g)
