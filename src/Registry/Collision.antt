-- ===== src/Registry/Collision.antt =====
-- Keys are joined by colons, and ids may hold colons: two components of different tenants can
-- share a key.
use mcphub.Prelude.{
  ◌≡◌, ◌≢◌, refl, sym, ap, ◌∙◌, Bool, false, none, some, eqb, eqb_iff, lookup, lookup-insert_self,
  insert, Option, [], ◌∷◌, Text, Map, any, Bool-cases, inl, inr, arith,
}
use mcphub.Registry.{
  Registry, RegisteredComponent, Registration, key_of, clashes, name_taken, register,
  register_component,
}

-- A test that fails on every value of a map, and on an inserted one, fails after the insertion.
any-insert :
    {V : Type 0} (p : V → Bool) (k : Text) (v : V) (m : Map V)
    → p v ≡ false
    → any (λ (e : Text × V). p e.1) m ≡ false
    → any (λ (e : Text × V). p e.1) (insert k v m) ≡ false
unfolding insert
any-insert p k v [] new old = ground arith
any-insert p k v ((j, w) ∷ m) new old = elim (Bool-cases (eqb j k)) [
  | inl e ↦ ground (arith, e, new, old)
  | inr e ↦ ground (arith, e, old, any-insert p k v m new (ground (arith, old)))
]

register_succeeds :
    (a : Registration) (r : Registry) → (register a r).0 ≡ none → name_taken a r ≡ false
unfolding register
register_succeeds a r done = ground arith

register_accepted :
    (a : Registration) (r : Registry) → name_taken a r ≡ false → (register a r).0 ≡ none
unfolding register
register_accepted a r free = ground arith

register_entry :
    (a : Registration) (r : Registry)
    → name_taken a r ≡ false
    → lookup (key_of a) (register a r).1.components
      ≡ some (register_component a (lookup (key_of a) r.components))
unfolding register
register_entry a r free = rw (free, register, lookup-insert_self) refl

-- The entry of another tenant does not refuse a registration.
entry-tenant :
    (a b : Registration) (o : Option RegisteredComponent)
    → a.tenant_id ≢ b.tenant_id
    → clashes b (register_component a o) ≡ false
unfolding clashes register_component
entry-tenant a b o ne = ground (arith, eqb_iff a.tenant_id b.tenant_id)

still_free :
    (a b : Registration) (r : Registry)
    → a.tenant_id ≢ b.tenant_id
    → name_taken a r ≡ false
    → name_taken b r ≡ false
    → name_taken b (register a r).1 ≡ false
unfolding register name_taken
still_free a b r ne free_a free_b = rw free_a (
    any-insert (clashes b) (key_of a) (register_component a (lookup (key_of a) r.components))
      r.components (entry-tenant a b (lookup (key_of a) r.components) ne) free_b)

-- The entry that a registration makes of one that is there keeps the ids of that one.
taken_over :
    (b : Registration) (x : RegisteredComponent)
    → let c = register_component b (some x) in
      (c.tenant_id ≡ b.tenant_id) × (c.connect_id ≡ x.connect_id) × (c.id ≡ x.id)
unfolding register_component
taken_over b x = (refl, refl, refl)

entry_tenant :
    (a : Registration) (o : Option RegisteredComponent)
    → (register_component a o).tenant_id ≡ a.tenant_id
unfolding register_component
entry_tenant a o = refl

-- If two registrations of different tenants have one key and a registry accepts each of them, then it
-- accepts the second after the first, which takes over the entry of the first: the one entry at the key
-- belonged to the first tenant and now belongs to the second, with the connect and component ids that it
-- had.
pub register_collision :
    (a b : Registration) (r : Registry)
    → key_of a ≡ key_of b
    → a.tenant_id ≢ b.tenant_id
    → (register a r).0 ≡ none
    → (register b r).0 ≡ none
    → let s = register b (register a r).1 in
      (s.0 ≡ none)
      × ((x : RegisteredComponent) × (c : RegisteredComponent) × (lookup
              (key_of a)
              (register a r).1.components
            ≡ some x)
          × (x.tenant_id ≡ a.tenant_id)
          × (lookup (key_of a) s.1.components ≡ some c)
          × (c.tenant_id ≡ b.tenant_id)
          × (c.connect_id ≡ x.connect_id)
          × (c.id ≡ x.id))
register_collision a b r e ne done_a done_b =
    let free_a = register_succeeds a r done_a in
    let free = still_free a b r ne free_a (register_succeeds b r done_b) in
    let x = register_component a (lookup (key_of a) r.components) in
    let first = register_entry a r free_a in
    let over = taken_over b x in
    (
      register_accepted b (register a r).1 free,
      (
        x,
        register_component b (some x),
        first,
        entry_tenant a (lookup (key_of a) r.components),
        ap (λ k. lookup k (register b (register a r).1).1.components) e
            ∙ register_entry b (register a r).1 free
            ∙ ap (λ k. some (register_component b (lookup k (register a r).1.components))) (sym e)
            ∙ ap (λ o. some (register_component b o)) first,
        over.0,
        over.1,
        over.2,
      ),
    )
