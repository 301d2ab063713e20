-- ===== src/Gateway/Mcp/Forwards.antt =====
-- Which requests reach a component, and what reaches it.
use mcphub.Prelude.{
  ◌≡◌, ◌≢◌, ◌⊎◌, ◌↔◌, refl, sym, subst, ap, ◌∙◌, ℕ, Bool, true, false, not, ◌&&◌, Option, none,
  some, inl, inr, List, [], ◌∷◌, Text, str, eqb, eqb_iff, Map, lookup, insert, lookup-insert,
  lookup-insert_self, eqb_refl, split, trim_byte, any, Bool-cases, arith, if◌then◌else◌,
}
use mcphub.Protocol.{Frame, zero_frame}
use mcphub.Gateway.RateLimit.{LocalLimiter, rate_limit}
use mcphub.Gateway.Tunnel.{route_key}
use mcphub.Gateway.Mcp.{
  Request, Route, forwards, hub, unauthorized, Setup, handle_mcp, to_parts, to_component,
  with_session, with_body, limited_or, is_authentic, limit_key, request_frame, forwarded_headers,
  copy_headers,
}

limited_or-forwards :
    (x : Bool × LocalLimiter) (y : Route) (s : ℕ) (f : Frame)
    → (limited_or x y).0 ≡ forwards s f
    → (x.0 ≡ true) × (y ≡ forwards s f)
limited_or-forwards (false, l) y s f e = ground arith
limited_or-forwards (true, l) y s f e = (refl, e)

abbrev pub frame_of : Route → Frame
frame_of (forwards s f) = f
frame_of _ = zero_frame []

abbrev pub session_of : Route → Option ℕ
session_of (forwards s f) = some s
session_of _ = none

with_session-forwards :
    (o : Option ℕ) (id component : Text) (r : Request) (s : ℕ) (f : Frame)
    → with_session o id component r ≡ forwards s f
    → (o ≡ some s)
      × ((payload : Text) × (r.body ≡ inr payload) × (f ≡ request_frame id component r payload))
with_session-forwards none id component r s f e = ground arith
with_session-forwards (some t) id component r s f e = at r.body refl e
  where
    at :
        (b : Text ⊎ Text)
        → r.body ≡ b
        → with_body t id component r b ≡ forwards s f
        → (some t ≡ some s)
          × ((payload : Text) × (r.body ≡ inr payload) × (f ≡ request_frame id component r payload))
    at (inl x) eq h = ground arith
    at (inr payload) eq h = (ap session_of h, (payload, eq, sym (ap frame_of h)))

-- A request whose split path names a tenant and a component other than the Hub, which is authentic for
-- the tenant and within the limit, whose component has a session and whose body can be read; the frame
-- has what the request has.
unfoldable pub IsForwarded : Setup → Request → LocalLimiter → ℕ → Frame → List Text → Type 0
IsForwarded g r l s f ps =
    (tenant : Text) × (component : Text) × (payload : Text) × ((ps
        ≡ str "mcp" ∷ (tenant ∷ (component ∷ [])))
      × (component ≢ str "hub")
      × (is_authentic g r tenant ≡ true)
      × ((rate_limit g.rate_env g.remote (limit_key tenant component) g.now l).0 ≡ true)
      × (lookup (route_key tenant component) g.sessions ≡ some s)
      × (r.body ≡ inr payload)
      × (f ≡ request_frame g.id component r payload))

to_component-forwards :
    (g : Setup) (r : Request) (tenant component : Text) (l : LocalLimiter) (s : ℕ) (f : Frame)
    → (to_component g r tenant component l).0 ≡ forwards s f
    → IsForwarded g r l s f (str "mcp" ∷ (tenant ∷ (component ∷ [])))
unfolding IsForwarded
to_component-forwards g r tenant component l s f =
    at (is_authentic g r tenant) refl (eqb component (str "hub")) refl
  where
    allowed : Bool × LocalLimiter
    allowed = rate_limit g.rate_env g.remote (limit_key tenant component) g.now l

    target : Route
    target = with_session (lookup (route_key tenant component) g.sessions) g.id component r

    at :
        (b : Bool)
        → is_authentic g r tenant ≡ b
        → (h : Bool) → eqb component (str "hub") ≡ h
        → (if not b
            then (unauthorized, l)
            else if h
            then limited_or
                (rate_limit g.rate_env g.remote (limit_key tenant (str "hub")) g.now l)
                (hub tenant)
            else limited_or allowed target).0
          ≡ forwards s f
        → IsForwarded g r l s f (str "mcp" ∷ (tenant ∷ (component ∷ [])))
    at false known h other e = ground arith
    at true known true other e =
        let x =
          limited_or-forwards
            (rate_limit g.rate_env g.remote (limit_key tenant (str "hub")) g.now l) (hub tenant) s f
            e in
        ground (arith, x.1)
    at true known false other e =
        let x = limited_or-forwards allowed target s f e in
        let y =
          with_session-forwards (lookup (route_key tenant component) g.sessions) g.id component r s
            f x.1 in
        (
          tenant,
          component,
          y.1.0,
          (refl, ground (arith, eqb_iff component (str "hub")), known, x.0, y.0, y.1.1, y.1.2),
        )

to_parts-forwards :
    (g : Setup) (r : Request) (ps : List Text) (l : LocalLimiter) (s : ℕ) (f : Frame)
    → (to_parts g r ps l).0 ≡ forwards s f
    → IsForwarded g r l s f ps
unfolding IsForwarded
to_parts-forwards g r [] l s f e = ground arith
to_parts-forwards g r (mcp ∷ []) l s f e = ground arith
to_parts-forwards g r (mcp ∷ (tenant ∷ [])) l s f e = ground arith
to_parts-forwards g r (mcp ∷ (tenant ∷ (component ∷ []))) l s f e =
    elim (Bool-cases (eqb mcp (str "mcp"))) [
      | inl same ↦
          let is : mcp ≡ str "mcp" = (eqb_iff mcp (str "mcp")).0 same in
          subst (λ p. IsForwarded g r l s f (p ∷ (tenant ∷ (component ∷ [])))) (sym is)
            (to_component-forwards g r tenant component l s f (ground (arith, e, same)))
      | inr other ↦ ground (arith, e, other)
    ]
to_parts-forwards g r (mcp ∷ (tenant ∷ (component ∷ (x ∷ xs)))) l s f e = ground arith

to_parts-forwards_back :
    (g : Setup) (r : Request) (ps : List Text) (l : LocalLimiter) (s : ℕ) (f : Frame)
    → IsForwarded g r l s f ps
    → (to_parts g r ps l).0 ≡ forwards s f
unfolding IsForwarded eqb
to_parts-forwards_back g r ps l s f
      (tenant, component, payload, (path, other, known, within, found, full, same)) =
    let no_hub : eqb component (str "hub") ≡ false =
      ground (arith, eqb_iff component (str "hub")) in
    rw (path, known, no_hub, found, full)
      (passed (rate_limit g.rate_env g.remote (limit_key tenant component) g.now l) within)
  where
    passed :
        (x : Bool × LocalLimiter)
        → x.0 ≡ true
        → (limited_or x (forwards s (request_frame g.id component r payload))).0 ≡ forwards s f
    passed (false, m) e = ground arith
    passed (true, m) e = ap (forwards s) (sym same)

-- What `handle_mcp` hands over, with the checks as the code has them.
pub forwards_lem :
    (g : Setup) (r : Request) (l : LocalLimiter) (s : ℕ) (f : Frame)
    → ((handle_mcp g r l).0 ≡ forwards s f)
      ↔ IsForwarded g r l s f (split b'/' (trim_byte b'/' r.path))
unfolding handle_mcp
forwards_lem g r l s f =
    let ps = split b'/' (trim_byte b'/' r.path) in
    (to_parts-forwards g r ps l s f, to_parts-forwards_back g r ps l s f)

lookup-copy_headers :
    (get : Text → Text) (ks : List Text) (h : Map Text) (k : Text)
    → lookup k (copy_headers get ks h)
      ≡ (if any (λ j. eqb j k) ks && not (eqb (get k) []) then some (get k) else lookup k h)
unfolding copy_headers
lookup-copy_headers get [] h k = refl
lookup-copy_headers get (j ∷ ks) h k =
    lookup-copy_headers get ks (if eqb (get j) [] then h else insert j (get j) h) k ∙ one
  where
    one :
        (if any (λ i. eqb i k) ks && not (eqb (get k) [])
          then some (get k)
          else lookup k (if eqb (get j) [] then h else insert j (get j) h))
        ≡ (if any (λ i. eqb i k) (j ∷ ks) && not (eqb (get k) []) then some (get k) else lookup k h)
    one = elim (Bool-cases (eqb j k)) [
      | inl e ↦
          let key : j ≡ k = (eqb_iff j k).0 e in
          rw (key, eqb_refl k) (ground (arith, lookup-insert_self k (get k) h))
      | inr e ↦ ground (arith, lookup-insert j k (get j) h)
    ]

-- The frame that a component gets carries exactly four of the request's headers, those that are there.
pub forwarded_headers_lem :
    (r : Request) (id component payload k : Text)
    → lookup k (request_frame id component r payload).headers ≡ (
        if any (λ j. eqb j k) forwarded_headers && not (eqb (r.header k) [])
        then some (r.header k)
        else none)
unfolding lookup
forwarded_headers_lem r id component payload k = lookup-copy_headers r.header forwarded_headers [] k
