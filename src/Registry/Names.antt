-- ===== src/Registry/Names.antt =====
-- Component names are unique within a tenant, through every operation of the registry.
use mathlib.Core.Option
use mcphub.Prelude.{
  ◌≡◌, ◌⊎◌, refl, sym, ap, ◌∙◌, found-insert, false, Option, none, some, Text, eqb_iff, lookup,
  lookup-All, any-false, Bool-cases, inl, inr, arith,
}
use mcphub.Registry.{
  Registry, RegisteredComponent, Registration, component_key, key_of, clashes, name_taken, register,
  register_component,
}
use mcphub.Registry.Keys.{ColonFree, component_key_injective}

-- An entry stands at the key of its own fields, no field of a key holds a colon, and two entries
-- of one tenant that share a name are one entry.
pub record IsConsistent (r : Registry) : Type 0 where
  pub keyed :
      (k : Text) (c : RegisteredComponent)
      → lookup k r.components ≡ some c
      → (k ≡ component_key c.tenant_id c.connect_id c.id)
        × ColonFree c.tenant_id
        × ColonFree c.connect_id
  pub unique :
      (k j : Text) (c d : RegisteredComponent)
      → lookup k r.components ≡ some c
      → lookup j r.components ≡ some d
      → c.tenant_id ≡ d.tenant_id
      → c.name ≡ d.name
      → k ≡ j

not_clashing :
    (a : Registration) (r : Registry) (k : Text) (c : RegisteredComponent)
    → name_taken a r ≡ false
    → lookup k r.components ≡ some c
    → clashes a c ≡ false
unfolding name_taken
not_clashing a r k c free found =
    lookup-All (λ (d : RegisteredComponent). clashes a d ≡ false) k r.components
      (any-false (λ (e : Text × RegisteredComponent). clashes a e.1) r.components free) found

-- An entry of the tenant that has the name, and does not clash, is the registered component's.
same_component :
    (a : Registration) (c : RegisteredComponent)
    → clashes a c ≡ false
    → c.tenant_id ≡ a.tenant_id
    → c.name ≡ a.component_name
    → component_key c.tenant_id c.connect_id c.id ≡ key_of a
unfolding clashes
same_component a c h t n = ground (
  arith,
  eqb_iff c.tenant_id a.tenant_id,
  eqb_iff c.name a.component_name,
  eqb_iff c.connect_id a.connect_id,
  eqb_iff c.id a.component_id,
)

pub record FitsKey (a : Registration) : Type 0 where
  pub tenant_fits : ColonFree a.tenant_id
  pub connect_fits : ColonFree a.connect_id

module _ (a : Registration) (r : Registry) (fits : FitsKey a) (h : IsConsistent r) where
  registered_ids :
      (found : Option RegisteredComponent)
      → lookup (key_of a) r.components ≡ found
      → let n = register_component a found in
        (n.tenant_id ≡ a.tenant_id)
        × (n.connect_id ≡ a.connect_id)
        × (n.id ≡ a.component_id)
        × (n.name ≡ a.component_name)
  unfolding register_component
  registered_ids none e = (refl, refl, refl, refl)
  registered_ids (some c) e =
      let at = h.keyed (key_of a) c e in
      let ids =
        component_key_injective a.tenant_id a.connect_id a.component_id c.tenant_id c.connect_id
          c.id fits.tenant_fits fits.connect_fits at.1 at.2 at.0 in
      (refl, sym ids.1, sym ids.2, refl)

  module _ (free : name_taken a r ≡ false) where
    -- What the new table holds at a key: the registered component, or an entry of the old table.
    new_or_old :
        (k : Text) (c : RegisteredComponent)
        → lookup k (register a r).1.components ≡ some c
        → ((k ≡ key_of a) × (c ≡ register_component a (lookup (key_of a) r.components)))
          ⊎ (lookup k r.components ≡ some c)
    unfolding register
    new_or_old k c e =
        found-insert (key_of a) k (register_component a (lookup (key_of a) r.components)) c
          r.components (rw (free, register) at e)

    register_keyed :
        (k : Text) (c : RegisteredComponent)
        → lookup k (register a r).1.components ≡ some c
        → (k ≡ component_key c.tenant_id c.connect_id c.id)
          × ColonFree c.tenant_id
          × ColonFree c.connect_id
    register_keyed k c e = elim (new_or_old k c e) [
      | inl (at, same) ↦
          let ids = registered_ids (lookup (key_of a) r.components) refl in
          rw (same, at, ids.0, ids.1, ids.2) (refl, fits.tenant_fits, fits.connect_fits)
      | inr old ↦ h.keyed k c old
    ]

    -- The new component against an entry of the old table that shares its tenant and its name.
    new_against_old :
        (c d : RegisteredComponent) (j : Text)
        → c ≡ register_component a (lookup (key_of a) r.components)
        → lookup j r.components ≡ some d
        → c.tenant_id ≡ d.tenant_id
        → c.name ≡ d.name
        → j ≡ key_of a
    new_against_old c d j same old t n =
        let ids = registered_ids (lookup (key_of a) r.components) refl in
        let tenant : d.tenant_id ≡ a.tenant_id = cc (t, same, ids.0) in
        let name : d.name ≡ a.component_name = cc (n, same, ids.3) in
        (h.keyed j d old).0 ∙ same_component a d (not_clashing a r j d free old) tenant name

    register_unique :
        (k j : Text) (c d : RegisteredComponent)
        → lookup k (register a r).1.components ≡ some c
        → lookup j (register a r).1.components ≡ some d
        → c.tenant_id ≡ d.tenant_id
        → c.name ≡ d.name
        → k ≡ j
    register_unique k j c d ek ej t n = elim (new_or_old k c ek) [
      | inl (at, same) ↦ elim (new_or_old j d ej) [
        | inl (at', same') ↦ at ∙ sym at'
        | inr old' ↦ at ∙ sym (new_against_old c d j same old' t n)
      ]
      | inr old ↦ elim (new_or_old j d ej) [
        | inl (at', same') ↦ new_against_old d c k same' old (sym t) (sym n) ∙ sym at'
        | inr old' ↦ h.unique k j c d old old' t n
      ]
    ]

pub register-IsConsistent :
    (a : Registration) (r : Registry) → FitsKey a → IsConsistent r → IsConsistent (register a r).1
register-IsConsistent a r fits h = elim (Bool-cases (name_taken a r)) [
  | inl taken ↦ unfold register in rw (taken, register) h
  | inr free ↦ record {
    keyed = register_keyed a r fits h free;
    unique = register_unique a r fits h free;
  }
]

-- What identifies a component: its key's fields and its name.
abbrev pub identity : RegisteredComponent → Text × Text × Text × Text
identity c = (c.tenant_id, c.connect_id, c.id, c.name)

-- An operation that keeps the identity of every entry keeps consistency.
pub IsConsistent-same_identity :
    (r s : Registry)
    → ((k : Text)
        → Option.map identity (lookup k s.components) ≡ Option.map identity (lookup k r.components))
    → IsConsistent r
    → IsConsistent s
IsConsistent-same_identity r s same h = record {
  keyed = λ k c e. keyed k c (lookup k r.components) refl e;
  unique =
      λ k j c d e e'. unique k j c d (lookup k r.components) (lookup j r.components) refl refl e e';
}
  where
    keyed :
        (k : Text) (c : RegisteredComponent) (o : Option RegisteredComponent)
        → lookup k r.components ≡ o
        → lookup k s.components ≡ some c
        → (k ≡ component_key c.tenant_id c.connect_id c.id)
          × ColonFree c.tenant_id
          × ColonFree c.connect_id
    keyed k c none eo e = ground (arith, same k)
    keyed k c (some d) eo e =
        let i : identity c ≡ identity d = ground (arith, same k) in
        let at = h.keyed k d eo in
        rw
          (
            ap (λ (x : Text × Text × Text × Text). x.0) i,
            ap (λ (x : Text × Text × Text × Text). x.1) i,
            ap (λ (x : Text × Text × Text × Text). x.2) i,
          )
          at

    unique :
        (k j : Text) (c d : RegisteredComponent) (o p : Option RegisteredComponent)
        → lookup k r.components ≡ o
        → lookup j r.components ≡ p
        → lookup k s.components ≡ some c
        → lookup j s.components ≡ some d
        → c.tenant_id ≡ d.tenant_id
        → c.name ≡ d.name
        → k ≡ j
    unique k j c d none p eo ep e e' t n = ground (arith, same k)
    unique k j c d (some x) none eo ep e e' t n = ground (arith, same j)
    unique k j c d (some x) (some y) eo ep e e' t n =
        h.unique k j x y eo ep (ground (arith, same k, same j)) (ground (arith, same k, same j))
