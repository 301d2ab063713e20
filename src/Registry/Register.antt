-- ===== src/Registry/Register.antt =====
-- What `Register` does on each branch.
use mcphub.Prelude.{
  Any-map, All-map, ℕ, ◌≡◌, ◌≢◌, ◌⊎◌, inl, inr, refl, true, false, Option, none, some, [], Text,
  eqb_iff, All, Any, any-true, any-false, Bool-cases, lookup, lookup-insert_self, lookup-insert,
  arith,
}
use mcphub.Registry.{
  Registry, RegisteredComponent, ConnectInstance, Registration, component_name_taken, online,
  connect_key, key_of, clashes, name_taken, register, register_component, register_connect,
  public_url,
}

-- The other component has the tenant and the name of the registration, and another connect or id.
abbrev pub Clash : Registration → RegisteredComponent → Type 0
Clash a c =
    (c.tenant_id ≡ a.tenant_id)
    × (c.name ≡ a.component_name)
    × ((c.connect_id ≢ a.connect_id) ⊎ (c.id ≢ a.component_id))

clashes-Clash : (a : Registration) (c : RegisteredComponent) → clashes a c ≡ true → Clash a c
unfolding clashes
clashes-Clash a c h = ground (
  arith,
  eqb_iff c.tenant_id a.tenant_id,
  eqb_iff c.name a.component_name,
  eqb_iff c.connect_id a.connect_id,
  eqb_iff c.id a.component_id,
)

clashes-not_Clash :
    (a : Registration) (c : RegisteredComponent) → clashes a c ≡ false → Clash a c → ⊥
unfolding clashes
clashes-not_Clash a c h k = ground (
  arith,
  eqb_iff c.tenant_id a.tenant_id,
  eqb_iff c.name a.component_name,
  eqb_iff c.connect_id a.connect_id,
  eqb_iff c.id a.component_id,
)

-- `Register` fails exactly when another component of the tenant has the name, and then changes
-- nothing: either it returns ErrComponentNameTaken with the registry as it was and some entry
-- clashes, or it returns no error and no entry clashes.
pub register_outcome :
    (a : Registration) (r : Registry)
    → ((register a r ≡ (some component_name_taken, r))
        × Any (λ (e : Text × RegisteredComponent). Clash a e.1) r.components)
      ⊎ (((register a r).0 ≡ none)
          × All (λ (e : Text × RegisteredComponent). ¬ Clash a e.1) r.components)
unfolding register name_taken
register_outcome a r = elim (Bool-cases (name_taken a r)) [
  | inl taken ↦ inl (
    ground arith,
    Any-map r.components (λ e. clashes-Clash a e.1) (any-true _ r.components (taken)),
  )
  | inr free ↦ inr (
    ground arith,
    All-map r.components (λ e. clashes-not_Clash a e.1) (any-false _ r.components (free)),
  )
]

-- The time at which the entry was made, if there was one.
abbrev pub since : ℕ → Option RegisteredComponent → ℕ
since now none = now
since now (some c) = c.registered_at

-- A registration that no entry refuses leaves the component at its key, online and with the
-- registered name, transport, route and heartbeat, the time of the first registration kept; no
-- other component changes; and the connect is online with its new name.
pub register_lem :
    (a : Registration) (r : Registry)
    → name_taken a r ≡ false
    → let s = (register a r).1 in
      ((c : RegisteredComponent) × (lookup (key_of a) s.components ≡ some c)
        × (c.status ≡ online)
        × (c.tenant_id ≡ a.tenant_id)
        × (c.name ≡ a.component_name)
        × (c.transport ≡ a.transport)
        × (c.public_url ≡ public_url a.tenant_id a.component_id)
        × (c.last_heartbeat ≡ a.now)
        × (c.last_error ≡ [])
        × (c.registered_at ≡ since a.now (lookup (key_of a) r.components)))
      × ((k : Text) → (k ≡ key_of a) ⊎ (lookup k s.components ≡ lookup k r.components))
      × ((c : ConnectInstance) × (lookup (connect_key a.tenant_id a.connect_id) s.connects ≡ some c)
          × (c.status ≡ online)
          × (c.name ≡ a.connect_name)
          × (c.last_heartbeat ≡ a.now))
unfolding register register_component register_connect
register_lem a r free =
    rw (free, register)
      (let found = lookup (key_of a) r.components in
        let key = connect_key a.tenant_id a.connect_id in
        (
          (
            register_component a found,
            lookup-insert_self (key_of a) _ r.components,
            refl,
            refl,
            refl,
            refl,
            refl,
            refl,
            refl,
            since_lem found,
          ),
          (λ k. ground (
            arith,
            lookup-insert (key_of a) k (register_component a found) r.components,
            eqb_iff (key_of a) k,
          )),
          (
            register_connect a (lookup key r.connects),
            lookup-insert_self key _ r.connects,
            refl,
            refl,
            refl,
          ),
        ))
  where
    since_lem :
        (o : Option RegisteredComponent) → (register_component a o).registered_at ≡ since a.now o
    since_lem none = refl
    since_lem (some c) = refl
