-- ===== src/Gateway/Tunnel/Heartbeat.antt =====
-- What a tunnel may do that never said hello.
use mcphub.Prelude.{
  ◌≡◌, ◌≢◌, ap, ◌∙◌, ℕ, Bool, true, false, not, ◌&&◌, ◌||◌, some, [], ◌∷◌, Text, str, eqb, eqb_iff,
  lookup, lookup-insert_self, arith, if◌then◌else◌,
}
use mcphub.Protocol.{Frame}
use mcphub.Registry.{Registry, RegisteredComponent, online, component_key, heartbeat}
use mcphub.Gateway.Tunnel.{
  Outcome, is_hello, or_else, Gateway, opened, on_read, on_frame, on_heartbeat, frames,
}

eqb_ne : (s t : Text) → s ≢ t → eqb s t ≡ false
eqb_ne s t ne = ground (arith, eqb_iff s t)

picks :
    {A : Type 0} (hello heart admitted : Bool) (x a b c : A)
    → hello ≡ false
    → heart ≡ true
    → (if hello || heart then (if hello && not admitted then x else if heart then a else b) else c)
      ≡ a
picks hello heart admitted x a b c h e = ground arith

named : (s d : Text) → s ≢ [] → or_else s d ≡ s
named s d ne = ground (arith, eqb_iff s [])

heartbeat-online :
    (t c id : Text) (now : ℕ) (r : Registry) (x : RegisteredComponent)
    → lookup (component_key t c id) r.components ≡ some x
    → lookup (component_key t c id) (heartbeat t c id now r).components
      ≡ some (record x { status = online; last_heartbeat = now; last_error = [] })
unfolding heartbeat
heartbeat-online t c id now r x found = ground (
  arith,
  lookup-insert_self (component_key t c id)
      (record x { status = online; last_heartbeat = now; last_error = [] }) r.components,
)

online_as :
    (a t b c id : Text) (now : ℕ) (r : Registry) (x : RegisteredComponent)
    → a ≡ t
    → b ≡ c
    → lookup (component_key t c id) r.components ≡ some x
    → lookup (component_key t c id) (heartbeat a b id now r).components
      ≡ some (record x { status = online; last_heartbeat = now; last_error = [] })
online_as a t b c id now r x ea eb found =
    ap (λ y. lookup (component_key t c id) (heartbeat y b id now r).components) ea
    ∙ ap (λ y. lookup (component_key t c id) (heartbeat t y id now r).components) eb
    ∙ heartbeat-online t c id now r x found

-- The first frame of a tunnel may be a heartbeat that names any tenant, connect and component: if
-- the registry has that component, it is then online with this heartbeat, whatever token the frame
-- carries and whatever token the Gateway asks for.
pub heartbeat_without_hello :
    {S T : Type 0} (hash : Text → Text) (remote : Text) (me : ℕ) (f : Frame) (now : ℕ)
    (g : Gateway S T) (x : RegisteredComponent)
    → f.type ≡ str "heartbeat"
    → f.tenant_id ≢ []
    → f.connect_id ≢ []
    → lookup (component_key f.tenant_id f.connect_id f.component_id) g.registry.components ≡ some x
    → lookup
        (component_key f.tenant_id f.connect_id f.component_id)
        (frames hash remote me ((now, f) ∷ []) (opened, g)).1.registry.components
      ≡ some (record x { status = online; last_heartbeat = now; last_error = [] })
unfolding frames on_read on_frame on_heartbeat eqb
heartbeat_without_hello hash remote me f now g x type tenant connect found =
    ap
      (λ (o : Outcome _ _).
        lookup (component_key f.tenant_id f.connect_id f.component_id) o.1.1.registry.components)
      (picks (is_hello f) (eqb f.type (str "heartbeat")) _ _ _ _ _
        (ap (λ t. eqb t (str "hello")) type) (ap (λ t. eqb t (str "heartbeat")) type))
    ∙ online_as _ f.tenant_id _ f.connect_id f.component_id now g.registry x
        (ap (λ y. or_else y (str "demo")) (named f.tenant_id (str "demo") tenant)
          ∙ named f.tenant_id (str "demo") tenant)
        (named f.connect_id [] connect) found
