-- ===== src/Registry/Examples.antt =====
-- The registry on small inputs.
use mathlib.Core.Logic.{◌⊎◌}
use mcphub.Prelude.{◌≡◌, refl, none, some, [], ◌∷◌, Text, str, All, Any, lookup, arith}
use mcphub.Registry.{
  key_of, Registry, RegisteredComponent, Registration, online, component_name_taken, new, register,
  component_key, fresh_component, name_taken,
}
use mcphub.Registry.Collision.{register_collision}
use mcphub.Registry.Names.{IsConsistent, FitsKey}
use mcphub.Registry.History.{registers, expires, run, run-IsConsistent}
use mcphub.Registry.Register.{Clash, register_outcome}

abbrev weather : Registration
weather = record {
  tenant_id = str "t";
  connect_id = str "c";
  connect_name = str "laptop";
  version = str "1";
  component_id = str "w";
  component_name = str "weather";
  transport = str "stdio";
  upstream = [];
  remote = [];
  now = 5;
}

abbrev entry : RegisteredComponent
entry = record (fresh_component weather) { status = online; last_heartbeat = 5 }

-- A registry that holds the one component.
abbrev registered : Registry
registered = record { connects = []; components = (str "t:c:w", entry) ∷ [] }

weather_fits : FitsKey weather
weather_fits = record { tenant_fits = (omega arith, tt); connect_fits = (omega arith, tt) }

run-IsConsistent_example : IsConsistent (run (registers weather ∷ (expires 7 ∷ [])) new)
run-IsConsistent_example =
    run-IsConsistent (registers weather ∷ (expires 7 ∷ [])) (weather_fits, tt)

register_outcome_example :
    ((register weather registered ≡ (some component_name_taken, registered))
      × Any (λ (e : Text × RegisteredComponent). Clash weather e.1) registered.components)
    ⊎ (((register weather registered).0 ≡ none)
        × All (λ (e : Text × RegisteredComponent). ¬ Clash weather e.1) registered.components)
register_outcome_example = register_outcome weather registered

-- Two registrations whose ids join to the key t:c:x:w.
abbrev ours : Registration
ours = record weather { connect_id = str "c:x" }

abbrev theirs : Registration
theirs = record weather { tenant_id = str "t:c"; connect_id = str "x" }

register_collision_example :
    let s = register theirs (register ours new).1 in
    (s.0 ≡ none)
    × ((x : RegisteredComponent) × (c : RegisteredComponent) × (lookup
            (key_of ours)
            (register ours new).1.components
          ≡ some x)
        × (x.tenant_id ≡ str "t")
        × (lookup (key_of ours) s.1.components ≡ some c)
        × (c.tenant_id ≡ str "t:c")
        × (c.connect_id ≡ x.connect_id)
        × (c.id ≡ x.id))
unfolding component_key new register name_taken
register_collision_example = register_collision ours theirs new refl (ground arith) refl refl
