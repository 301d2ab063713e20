-- ===== src/Discovery/Groups.antt =====
-- The operations on groups. Each asks the backend first, and then changes the maps.
use mcphub.Prelude.{
  Bool, true, false, not, ◌&&◌, Option, none, some, List, [], ◌∷◌, Text, str, eqb, equal_fold, any,
  Map, inner, find, ensure, insert_in, erase_in, is_some, sort, values, if◌then◌else◌,
}
use mcphub.Discovery.Types.{
  Error, group_not_found, group_exists, Result, ok, err, Group, Service, Backend, asked,
}

abbrev pub default : Text
default = str "default"

abbrev pub default_group : Group
default_group = record {
  id = default;
  name = str "Default";
  description = [];
  tags = [];
  is_default = true;
}

abbrev pub is_nil {ℓ} : {A : Type ℓ} → List A → Bool
is_nil [] = true
is_nil (x ∷ xs) = false

-- The test of the loops over the groups: another group has the name, up to case.
unfoldable pub same_name : Group → Text × Group → Bool
same_name g (id, existing) = not (eqb id g.id) && equal_fold existing.name g.name

unfoldable pub name_exists : Group → Map Group → Bool
unfolding same_name
name_exists g m = any (same_name g) m

-- The groups that the backend lists are put into the map.
unfoldable pub merge_groups : Text → List Group → Map (Map Group) → Map (Map Group)
merge_groups tenant [] m = m
merge_groups tenant (g ∷ gs) m = merge_groups tenant gs (insert_in tenant g.id g m)

abbrev pub merged_groups : Text → Result (List Group) → Map (Map Group) → Map (Map Group)
merged_groups tenant (err e) m = m
merged_groups tenant (ok gs) m = merge_groups tenant gs (ensure tenant m)

module _ {S : Type 0} where
  unfoldable pub ensure_default : Text → Service S → Service S
  ensure_default tenant s =
      let groups = ensure tenant s.groups in
      record s {
        groups =
            if is_nil (inner tenant groups)
            then insert_in tenant default default_group groups
            else groups;
      }

  abbrev pub upsert_local : Text → Group → Option Error → Service S → Option Error × Service S
  upsert_local tenant g (some e) s = (some e, s)
  upsert_local tenant g none s =
      let groups = ensure tenant s.groups in
      if name_exists g (inner tenant groups)
      then (some group_exists, record s { groups = groups })
      else (none, record s { groups = insert_in tenant g.id g groups })

  unfoldable pub upsert_group : Text → Group → Service S → Option Error × Service S
  upsert_group tenant g s =
      let (e, store) = asked s.backend (λ b. b.create_group tenant g) s.store in
      upsert_local tenant g e (record s { store = store })

  abbrev pub update_local : Text → Group → Option Error → Service S → Option Error × Service S
  update_local tenant g (some e) s = (some e, s)
  update_local tenant g none s =
      if not (is_some (find tenant g.id s.groups))
      then (some group_not_found, s)
      else if name_exists g (inner tenant s.groups)
      then (some group_exists, s)
      else (none, record s { groups = insert_in tenant g.id g s.groups })

  unfoldable pub update_group : Text → Group → Service S → Option Error × Service S
  update_group tenant g s =
      let (e, store) = asked s.backend (λ b. b.update_group tenant g) s.store in
      update_local tenant g e (record s { store = store })

  abbrev pub delete_local : Text → Text → Option Error → Service S → Option Error × Service S
  delete_local tenant id (some e) s = (some e, s)
  delete_local tenant id none s =
      if not (is_some (find tenant id s.groups)) then (some group_not_found, s) else (
        none,
        record s {
          groups = erase_in tenant id s.groups;
          memberships = erase_in tenant id s.memberships;
        },
      )

  unfoldable pub delete_group : Text → Text → Service S → Option Error × Service S
  delete_group tenant id s =
      let (e, store) = asked s.backend (λ b. b.delete_group tenant id) s.store in
      delete_local tenant id e (record s { store = store })

  abbrev pub listed_groups : Option (Backend S) → Text → Service S → Map (Map Group)
  listed_groups none tenant s = s.groups
  listed_groups (some b) tenant s = merged_groups tenant (b.list_groups tenant s.store) s.groups

  unfoldable pub list_groups : Text → Service S → List Group × Service S
  list_groups tenant s =
      let groups = listed_groups s.backend tenant s in
      (sort (λ (g : Group). g.name) (values (inner tenant groups)), record s { groups = groups })
