-- ===== src/Admin/Overview.antt =====
-- internal/admin/handler.go: the overview, and the connects with their components.
use mcphub.Prelude.{
  ℕ, suc, ◌-◌, Bool, true, false, Option, List, [], ◌∷◌, Text, str, eqb, length, filter, map,
  trim_prefix, if◌then◌else◌,
}
use mcphub.Registry.{
  Registry, ConnectInstance, RegisteredComponent, Status, online, offline, component,
}
use mcphub.Registry.Snapshot.{snapshot}

abbrev pub is_online : Status → Bool
is_online online = true
is_online offline = false

pub record Overview : Type 0 where
  pub connect_total : ℕ
  pub connect_online : ℕ
  pub component_total : ℕ
  pub component_online : ℕ
  pub component_offline : ℕ

-- The loops that count.
abbrev pub count_online : {A : Type 0} → (A → Status) → List A → ℕ
count_online status [] = 0
count_online status (x ∷ xs) =
    let rest = count_online status xs in if is_online (status x) then suc rest else rest

unfoldable pub overview : Registry → Overview
overview r =
    let (connects, components) = snapshot r in
    let up = count_online (λ (c : RegisteredComponent). c.status) components in
    record {
      connect_total = length connects;
      connect_online = count_online (λ (c : ConnectInstance). c.status) connects;
      component_total = length components;
      component_online = up;
      component_offline = length components - up;
    }

-- A connect with the components that carry its id.
unfoldable pub connects : Registry → List (ConnectInstance × List RegisteredComponent)
connects r =
    let (cs, components) = snapshot r in
    map
      (λ (c : ConnectInstance).
        (c, filter (λ (x : RegisteredComponent). eqb x.connect_id c.id) components))
      cs

unfoldable pub components : Registry → List RegisteredComponent
components r = (snapshot r).1

-- The answer of a path below /api/admin/components/, none for 404.
unfoldable pub component_at : Text → Registry → Option RegisteredComponent
component_at path r = component (trim_prefix path (str "/api/admin/components/")) r
