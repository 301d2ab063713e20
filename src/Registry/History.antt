-- ===== src/Registry/History.antt =====
-- Any sequence of calls of the registry's methods, from the empty registry.
use mathlib.Core.Option
use mcphub.Prelude.{
  change_at, change_found, ℕ, ◌≡◌, refl, Option, none, some, List, [], ◌∷◌, Text, eqb_iff, lookup,
  lookup-insert, lookup-map_values, map_values, ap, arith, Map,
}
use mcphub.Registry.{
  Registry, RegisteredComponent, Registration, new, register, heartbeat, disconnect, disconnect_one,
  component_key, set_offline, disconnect_component, expire, expire_component,
}
use mcphub.Registry.Names.{
  IsConsistent, FitsKey, register-IsConsistent, identity, IsConsistent-same_identity,
}

pub data Call : Type 0 where
  registers : Registration → Call
  heartbeats : Text → Text → Text → ℕ → Call
  disconnects : Text → Text → Call
  disconnects_component : Text → Text → Text → Call
  expires : ℕ → Call

unfoldable pub step : Call → Registry → Registry
step (registers a) r = (register a r).1
step (heartbeats t c i now) r = heartbeat t c i now r
step (disconnects t c) r = disconnect t c r
step (disconnects_component t c i) r = disconnect_component t c i r
step (expires now) r = expire now r

unfoldable pub run : List Call → Registry → Registry
run [] r = r
run (call ∷ calls) r = run calls (step call r)

-- No registration in the history has a tenant or a connect with a colon in its id.
abbrev pub Fits : List Call → Type 0
Fits [] = Unit
Fits (registers a ∷ calls) = FitsKey a × Fits calls
Fits (_ ∷ calls) = Fits calls

identity-change_at :
    (f : RegisteredComponent → RegisteredComponent) (key : Text) (m : Map RegisteredComponent)
    → ((c : RegisteredComponent) → identity (f c) ≡ identity c)
    → (k : Text)
    → Option.map identity (lookup k (change_at key f m)) ≡ Option.map identity (lookup k m)
identity-change_at f key m keeps k = at (lookup key m) refl
  where
    at :
        (o : Option RegisteredComponent)
        → lookup key m ≡ o
        → Option.map identity (lookup k (change_found o key f m)) ≡ Option.map identity (lookup k m)
    at none e = refl
    at (some c) e = ground (arith, lookup-insert key k (f c) m, eqb_iff key k, keeps c)

identity-map_values :
    (f : RegisteredComponent → RegisteredComponent) (m : Map RegisteredComponent)
    → ((c : RegisteredComponent) → identity (f c) ≡ identity c)
    → (k : Text)
    → Option.map identity (lookup k (map_values f m)) ≡ Option.map identity (lookup k m)
identity-map_values f m keeps k = rw lookup-map_values (at (lookup k m))
  where
    at :
        (o : Option RegisteredComponent)
        → Option.map identity (Option.map f o) ≡ Option.map identity o
    at none = refl
    at (some c) = ap some (keeps c)

step-IsConsistent :
    (call : Call) (r : Registry) → Fits (call ∷ []) → IsConsistent r → IsConsistent (step call r)
unfolding step
step-IsConsistent (registers a) r f h = register-IsConsistent a r f.0 h
step-IsConsistent (heartbeats t c i now) r f h =
    IsConsistent-same_identity r (heartbeat t c i now r)
      (unfold heartbeat in identity-change_at _ (component_key t c i) r.components (λ c. refl)) h
step-IsConsistent (disconnects t c) r f h =
    IsConsistent-same_identity r (disconnect t c r)
      (unfold disconnect in
        identity-map_values (disconnect_one t c) r.components (λ d. ground arith))
      h
step-IsConsistent (disconnects_component t c i) r f h =
    IsConsistent-same_identity r (disconnect_component t c i r)
      (unfold disconnect_component in
        identity-change_at set_offline (component_key t c i) r.components (λ c. refl))
      h
step-IsConsistent (expires now) r f h =
    IsConsistent-same_identity r (expire now r)
      (unfold expire in identity-map_values (expire_component now) r.components (λ d. ground arith))
      h

run_from-IsConsistent :
    (calls : List Call) (r : Registry) → Fits calls → IsConsistent r → IsConsistent (run calls r)
unfolding run
run_from-IsConsistent [] r f h = h
run_from-IsConsistent (registers a ∷ calls) r f h =
    run_from-IsConsistent calls _ f.1 (step-IsConsistent (registers a) r (f.0, tt) h)
run_from-IsConsistent (call ∷ calls) r f h =
    run_from-IsConsistent calls _ f (step-IsConsistent call r tt h)

new-IsConsistent : IsConsistent new
unfolding new lookup
new-IsConsistent = record { keyed = λ k c e. cc; unique = λ k j c d e e'. cc }

-- After any calls of Register, Heartbeat, Disconnect, DisconnectComponent and Expire from the
-- empty registry, whose registrations have no colon in a tenant or connect id, every entry stands
-- at the key of its own fields, and two entries of one tenant with one name are one entry.
pub run-IsConsistent : (calls : List Call) → Fits calls → IsConsistent (run calls new)
run-IsConsistent calls f = run_from-IsConsistent calls new f new-IsConsistent
