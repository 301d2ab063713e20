-- ===== src/Registry/Liveness.antt =====
-- Heartbeats, expiry and disconnection: when an entry is online.
use mathlib.Core.Option
use mcphub.Prelude.{
  change_at, ℕ, ◌+◌, ◌≤◌, ◌<◌, ◌≡◌, ◌≢◌, ◌⊎◌, refl, Option, none, some, List, [], ◌∷◌, Text,
  eqb_iff, lookup, lookup-insert_self, lookup-map_values, any, ltb, if◌then◌else◌, arith,
}
use mcphub.Registry.{
  Registry, RegisteredComponent, Status, online, offline, heartbeat_ttl, component_key, is_stale,
  heartbeat, disconnect, disconnect_one, expire, expire_component,
}

-- `Option.map` finds a value only where there was one.
mapped {ℓ} :
    {A B : Type ℓ} (f : A → B) (o : Option A) {b : B}
    → Option.map f o ≡ some b
    → (a : A) × (o ≡ some a) × (b ≡ f a)
mapped f none h = cc
mapped f (some a) h = (a, refl, cc)

-- A component after Expire at `now` was there before: with a heartbeat at most 30 seconds earlier it
-- is as it was, and with an earlier heartbeat it is offline and otherwise as it was.
pub expire_lem :
    (now : ℕ) (r : Registry) (k : Text) (c : RegisteredComponent)
    → lookup k (expire now r).components ≡ some c
    → (d : RegisteredComponent) × (lookup k r.components ≡ some d)
      × (((now ≤ d.last_heartbeat + heartbeat_ttl) × (c ≡ d))
          ⊎ ((d.last_heartbeat + heartbeat_ttl < now) × (c ≡ record d { status = offline })))
unfolding expire
expire_lem now r k c h =
    let (d, found, same) =
      mapped (expire_component now) (lookup k r.components) (rw lookup-map_values at h) in
    (d, found, ground arith)

-- A component after Disconnect was there before: if it is the connect's it is offline and
-- otherwise as it was, and if not it is as it was.
pub disconnect_lem :
    (t c : Text) (r : Registry) (k : Text) (x : RegisteredComponent)
    → lookup k (disconnect t c r).components ≡ some x
    → (d : RegisteredComponent) × (lookup k r.components ≡ some d)
      × (((d.tenant_id ≡ t) × (d.connect_id ≡ c) × (x ≡ record d { status = offline }))
          ⊎ (((d.tenant_id ≢ t) ⊎ (d.connect_id ≢ c)) × (x ≡ d)))
unfolding disconnect
disconnect_lem t c r k x h =
    let (d, found, same) =
      mapped (disconnect_one t c) (lookup k r.components) (rw lookup-map_values at h) in
    (d, found, ground (arith, eqb_iff d.tenant_id t, eqb_iff d.connect_id c))

-- The ticks of the Gateway's expiry timer, in order.
unfoldable pub expire_at : List ℕ → Registry → Registry
expire_at [] r = r
expire_at (now ∷ ticks) r = expire_at ticks (expire now r)

expired_status : ℕ → List ℕ → RegisteredComponent → Status
expired_status t ticks c = if any (λ now. is_stale now t) ticks then offline else c.status

expire_at_status :
    (ticks : List ℕ) (r : Registry) (k : Text) (c : RegisteredComponent)
    → lookup k r.components ≡ some c
    → (d : RegisteredComponent) × (lookup k (expire_at ticks r).components ≡ some d)
      × (d.last_heartbeat ≡ c.last_heartbeat)
      × (d.status ≡ expired_status c.last_heartbeat ticks c)
unfolding expire_at expired_status
expire_at_status [] r k c h = (c, h, refl, refl)
expire_at_status (now ∷ ticks) r k c h =
    let (d, found, beat, status) =
      expire_at_status ticks (expire now r) k (expire_component now c)
        (unfold expire in rw (lookup-map_values, h) (ground arith)) in
    (d, found, ground arith, ground arith)

-- A component that sends a heartbeat at `t` stays online through every tick of the expiry timer up
-- to 30 seconds after `t`, and is offline from the first later tick on.
pub heartbeat-expire_at :
    (t c i : Text) (now : ℕ) (ticks : List ℕ) (r : Registry) (x : RegisteredComponent)
    → lookup (component_key t c i) r.components ≡ some x
    → (d : RegisteredComponent) × (lookup
          (component_key t c i)
          (expire_at ticks (heartbeat t c i now r)).components
        ≡ some d)
      × (d.status
          ≡ (if any (λ tick. ltb (now + heartbeat_ttl) tick) ticks then offline else online))
unfolding heartbeat expired_status
heartbeat-expire_at t c i now ticks r x h =
    let key = component_key t c i in
    let beat : RegisteredComponent = record x {
      status = online;
      last_heartbeat = now;
      last_error = [];
    } in
    let (d, found, _, status) =
      expire_at_status ticks (heartbeat t c i now r) key beat
        (rw (h, change_at) (lookup-insert_self key beat r.components)) in
    (d, found, status)
