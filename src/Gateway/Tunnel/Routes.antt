-- ===== src/Gateway/Tunnel/Routes.antt =====
-- Which routes lead to a tunnel.
use mcphub.Prelude.{
  ◌≡◌, ◌≢◌, refl, sym, ◌∙◌, ℕ, Bool, true, false, not, ◌&&◌, ◌||◌, Option, none, some, ◌⊎◌, inl,
  inr, List, [], ◌∷◌, Text, str, eqb, eqb_iff, Map, Any, lookup, lookup-insert, lookup-erase, arith,
  if◌then◌else◌, if_cases, Any-map, ◌==◌,
}
use mcphub.Protocol.{Frame}
use mcphub.Registry
use mcphub.Registry.{Registry, Registration, register}
use mcphub.Gateway.Tunnel.{
  Gateway, Tunnel, Effect, Outcome, opened, route_key, is_hello, is_admitted, on_heartbeat,
  on_hello, on_frame, on_read, frames, finish, handle_tunnel, drop_routes, registered, route,
  registration, or_else, store_registration,
}

module _ {S T : Type 0} (hash : Text → Text) (remote : Text) (me : ℕ) where
  -- A hello for the component of the route, with a token that the Gateway admits.
  pub Opens : Text → Gateway S T → ℕ × Frame → Type 0
  Opens k g (now, f) =
      (is_hello f ≡ true)
      × (is_admitted hash remote me f.gateway_token now g ≡ true)
      × ((tenant : Text) × (k ≡ route_key tenant f.component_id))

  -- What a frame leaves of the Gateway, as far as the route `k` goes: it is as it was, or `X` and
  -- it leads to this session.
  Kept : Type 0 → Text → Gateway S T → Gateway S T → Type 0
  Kept X k g h =
      (h.connect_token ≡ g.connect_token)
      × (h.devices ≡ g.devices)
      × ((lookup k h.sessions ≡ lookup k g.sessions) ⊎ ((lookup k h.sessions ≡ some me) × X))

  route-Kept :
      (k : Text) (o : Option Text × T) (a : Registration) (t : Tunnel) (g : Gateway S T)
      → Kept (k ≡ route_key a.tenant_id a.component_id) k g (route hash remote me o a t g).1.1
  unfolding Kept
  route-Kept k (some e, s) a t g = (refl, refl, inl refl)
  route-Kept k (none, s) a t g = (
    refl,
    refl,
    ground (
      arith,
      lookup-insert (route_key a.tenant_id a.component_id) k me g.sessions,
      eqb_iff (route_key a.tenant_id a.component_id) k,
    ),
  )

  registered-Kept :
      (k : Text) (o : Option Registry.Error × Registry) (a : Registration) (t : Tunnel)
      (g : Gateway S T)
      → Kept (k ≡ route_key a.tenant_id a.component_id) k g (registered hash remote me o a t g).1.1
  unfolding Kept
  registered-Kept k (some e, r) a t g = (refl, refl, inl refl)
  registered-Kept k (none, r) a t g =
      route-Kept k (store_registration g.connect_store a g.stores) a t (record g { registry = r })

  Kept-map : {X Y : Type 0} (k : Text) (g h : Gateway S T) → (X → Y) → Kept X k g h → Kept Y k g h
  unfolding Kept
  Kept-map k g h f (token, devices, inl same) = (token, devices, inl same)
  Kept-map k g h f (token, devices, inr (new, x)) = (token, devices, inr (new, f x))

  Kept-refl : (X : Type 0) (k : Text) (g : Gateway S T) → Kept X k g g
  unfolding Kept
  Kept-refl X k g = (refl, refl, inl refl)

  on_hello-Kept :
      (k : Text) (f : Frame) (now : ℕ) (t : Tunnel) (g : Gateway S T)
      → Kept
          ((tenant : Text) × (k ≡ route_key tenant f.component_id))
          k
          g
          (on_hello hash remote me f now t g).1.1
  unfolding on_hello
  on_hello-Kept k f now t g =
      let tenant = or_else f.tenant_id t.tenant_id in
      let connect = or_else f.connect_id f.component_id in
      let a = registration tenant connect remote now f in
      let after =
        registered hash remote me (register a g.registry) a
          (record { connect_id = connect; tenant_id = tenant }) g in
      if_cases
        (λ (x : Outcome S T).
          Kept ((tenant : Text) × (k ≡ route_key tenant f.component_id)) k g x.1.1)
        (eqb f.component_id []) ([], (t, g)) after (Kept-refl _ k g)
        (Kept-map k g after.1.1 (λ e. (tenant, e))
          (registered-Kept k (register a g.registry) a _ g))

  -- The branches of the callback, by the tests: hello, heartbeat, and the token.
  branch-Kept :
      (k : Text) (f : Frame) (now : ℕ) (t : Tunnel) (g : Gateway S T) (hello heart admitted : Bool)
      (denied : List Effect)
      → is_hello f ≡ hello
      → is_admitted hash remote me f.gateway_token now g ≡ admitted
      → Kept (Opens k g (now, f)) k g (
          (if hello || heart
            then (if hello && not admitted
                then (denied, (t, g))
                else if heart
                then on_heartbeat hash remote me f now t g
                else on_hello hash remote me f now t g)
            else ([], (t, g))).1.1)
  unfolding Kept Opens on_heartbeat
  branch-Kept k f now t g true heart false denied h a = Kept-refl _ k g
  branch-Kept k f now t g true true true denied h a = (refl, refl, inl refl)
  branch-Kept k f now t g true false true denied h a =
      Kept-map k g (on_hello hash remote me f now t g).1.1 (λ e. (h, a, e))
        (on_hello-Kept k f now t g)
  branch-Kept k f now t g false true admitted denied h a = (refl, refl, inl refl)
  branch-Kept k f now t g false false admitted denied h a = Kept-refl _ k g

  on_read-Kept :
      (k : Text) (f : Frame) (now : ℕ) (t : Tunnel) (g : Gateway S T)
      → Kept (Opens k g (now, f)) k g (on_read hash remote me f now t g).1.1
  unfolding on_read on_frame
  on_read-Kept k f now t g =
      branch-Kept k f now t g (is_hello f) (eqb f.type (str "heartbeat"))
        (is_admitted hash remote me f.gateway_token now g) _ refl refl

  Opens-same :
      (k : Text) (g h : Gateway S T) (x : ℕ × Frame)
      → h.connect_token ≡ g.connect_token
      → h.devices ≡ g.devices
      → Opens k h x
      → Opens k g x
  unfolding Opens is_admitted
  Opens-same k g h (now, f) token devices (hello, admitted, tenant) = (hello, ground arith, tenant)

  -- A route that leads to this session after its frames led to it before, or one of the frames is
  -- a hello for the route's component with a token that the Gateway admits.
  pub frames-routes :
      (k : Text) (fs : List (ℕ × Frame)) (t : Tunnel) (g : Gateway S T)
      → lookup k (frames hash remote me fs (t, g)).1.sessions ≡ some me
      → (lookup k g.sessions ≡ some me) ⊎ Any (Opens k g) fs
  unfolding frames Kept
  frames-routes k [] t g e = inl e
  frames-routes k ((now, f) ∷ fs) t g e =
      let out = (on_read hash remote me f now t g).1 in
      let kept = on_read-Kept k f now t g in
      elim (frames-routes k fs out.0 out.1 e) [
        | inl before ↦ elim kept.2 [
          | inl same ↦ inl (sym same ∙ before)
          | inr new ↦ inr (inl new.1)
        ]
        | inr later ↦ inr (inr (Any-map fs (λ x. Opens-same k g out.1 x kept.0 kept.1) later))
      ]

module _ (me : ℕ) where
  drops : Text → Map ℕ → Bool
  drops k [] = false
  drops k ((name, cur) ∷ l) = (cur == me && eqb name k) || drops k l

  lookup-drop_routes :
      (k : Text) (l m : Map ℕ)
      → lookup k (drop_routes me l m) ≡ (if drops k l then none else lookup k m)
  unfolding drop_routes drops
  lookup-drop_routes k [] m = refl
  lookup-drop_routes k ((name, cur) ∷ l) m =
      ground (arith, lookup-drop_routes k l m, lookup-erase name k (drop_routes me l m))

  found-drops : (k : Text) (l : Map ℕ) → lookup k l ≡ some me → drops k l ≡ true
  unfolding drops lookup
  found-drops k [] e = ground arith
  found-drops k ((name, cur) ∷ l) e = ground (arith, found-drops k l)

  drop_routes-none : (k : Text) (m : Map ℕ) → lookup k (drop_routes me m m) ≢ some me
  drop_routes-none k m = ground (arith, lookup-drop_routes k m m, found-drops k m)

  dropped :
      (k : Text) (m : Map ℕ)
      → (lookup k (drop_routes me m m) ≢ some me)
        × ((lookup k (drop_routes me m m) ≡ none) ⊎ (lookup k (drop_routes me m m) ≡ lookup k m))
  dropped k m = (drop_routes-none k m, ground (arith, lookup-drop_routes k m m))

  module _ {S T : Type 0} (hash : Text → Text) (remote : Text) where
    -- When its tunnel has ended, no route leads to a session; and a route then leads where it led
    -- at the end of the frames, or nowhere.
    pub handle_tunnel-routes :
        (fs : List (ℕ × Frame)) (now : ℕ) (g : Gateway S T) (k : Text)
        → let after = handle_tunnel hash remote me fs now g in
          let last = (frames hash remote me fs (opened, g)).1 in
          (lookup k after.sessions ≢ some me)
          × ((lookup k after.sessions ≡ none) ⊎ (lookup k after.sessions ≡ lookup k last.sessions))
    unfolding handle_tunnel finish
    handle_tunnel-routes fs now g k = finished (frames hash remote me fs (opened, g))
      where
        finished :
            (x : Tunnel × Gateway S T)
            → (lookup k (finish hash remote me now x).sessions ≢ some me)
              × ((lookup k (finish hash remote me now x).sessions ≡ none)
                  ⊎ (lookup k (finish hash remote me now x).sessions ≡ lookup k x.1.sessions))
        finished (t, h) =
            if_cases
              (λ (x : Gateway S T).
                (lookup k (drop_routes me x.sessions x.sessions) ≢ some me)
                × ((lookup k (drop_routes me x.sessions x.sessions) ≡ none)
                    ⊎ (lookup k (drop_routes me x.sessions x.sessions) ≡ lookup k h.sessions)))
              (eqb t.connect_id []) h _ (dropped k h.sessions) (dropped k h.sessions)
