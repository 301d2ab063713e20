-- ===== src/Gateway/Mcp/Accepts.antt =====
-- Which requests reach a component, and what reaches it, in terms of the request and the tables.
use mcphub.Prelude.{
  ℕ, ◌≡◌, ◌≢◌, ◌≤◌, ◌<◌, ◌+◌, ◌⊎◌, ◌↔◌, refl, sym, subst, ◌∙◌, Bool, true, false, not, ◌&&◌, Option,
  none, some, inl, inr, [], ◌∷◌, ◌++◌, Text, str, eqb, eqb_iff, lookup, split, trim_byte, any,
  Bool-cases, arith, if◌then◌else◌,
}
use mcphub.Auth.Store.{TokenIdentity}
use mcphub.Protocol.{Frame, zero_frame}
use mcphub.Gateway.Secure.{authenticate_route}
use mcphub.Gateway.Secure.Access.{Bears, authenticate_route_iff}
use mcphub.Gateway.RateLimit.{
  LocalLimiter, RateWindow, Remote, answers, fails, rate_limit, allow, allow_window, window_or_zero,
  effective_limit, minute, is_over,
}
use mcphub.Gateway.Tunnel.{route_key}
use mcphub.Gateway.Mcp.{
  Request, forwards, Setup, handle_mcp, limit_key, request_frame, forwarded_headers,
}
use mcphub.Gateway.Mcp.Forwards.{IsForwarded, forwards_lem, forwarded_headers_lem}

-- The header carries a token that the auth store validates for the tenant; without a store, route
-- authentication is not required.
abbrev pub IsAuthentic :
    Option (Text → Option TokenIdentity) → (Text → Text) → Text → Text → Text → Type 0
IsAuthentic none hash required authorization tenant = required ≢ str "true"
IsAuthentic (some validate) hash required authorization tenant =
    (token : Text) × Bears authorization token
    × (token ≢ [])
    × ((id : TokenIdentity) × (validate (hash token) ≡ some id) × (id.tenant_id ≡ tenant))

IsAuthentic-iff :
    (v : Option (Text → Option TokenIdentity)) (hash : Text → Text)
    (required authorization tenant : Text)
    → (authenticate_route v hash required authorization tenant ≡ true)
      ↔ IsAuthentic v hash required authorization tenant
unfolding authenticate_route
IsAuthentic-iff none hash required authorization tenant = (
  (λ h. ground (arith, eqb_iff required (str "true"))),
  (λ h. ground (arith, eqb_iff required (str "true"))),
)
IsAuthentic-iff (some validate) hash required authorization tenant =
    authenticate_route_iff validate hash required authorization tenant

-- The presence store lets the call pass or gives an error; without one, the minute of the local window is
-- over, or the window has counted fewer calls than the limit.
abbrev pub IsWithin : Option Remote → ℕ → RateWindow → ℕ → Type 0
IsWithin (some (answers ok)) limit v now = ok ≡ true
IsWithin (some fails) limit v now = Unit
IsWithin none limit v now = (v.started ≡ 0) ⊎ (v.started + minute ≤ now) ⊎ (v.count < limit)

window_iff :
    (v : RateWindow) (limit now : ℕ)
    → ((allow_window v limit minute now).0 ≡ true)
      ↔ ((v.started ≡ 0) ⊎ (v.started + minute ≤ now) ⊎ (v.count < limit))
unfolding allow_window
window_iff v limit now = (
  (λ h. elim (Bool-cases (is_over v minute now)) [
    | inl e ↦ ground (arith, e)
    | inr e ↦ ground (arith, e, h)
  ]),
  (λ h. elim (Bool-cases (is_over v minute now)) [
    | inl e ↦ rw e refl
    | inr e ↦ ground (arith, e, h)
  ]),
)

IsWithin-iff :
    (env : Option ℕ) (remote : Option Remote) (key : Text) (now : ℕ) (l : LocalLimiter)
    → ((rate_limit env remote key now l).0 ≡ true)
      ↔ IsWithin remote (effective_limit env) (window_or_zero (lookup key l.windows)) now
unfolding rate_limit allow
IsWithin-iff env (some (answers ok)) key now l = ((λ h. h), (λ h. h))
IsWithin-iff env (some fails) key now l = ((λ h. tt), (λ h. refl))
IsWithin-iff env none key now l =
    window_iff (window_or_zero (lookup key l.windows)) (effective_limit env) now

-- The path is /mcp/, a tenant and a component other than hub, but for slashes around it; the request is
-- authentic for the tenant and within the limit of the component's key; the session is the component's;
-- and the body can be read.
abbrev pub Accepts : Setup → Request → LocalLimiter → ℕ → Text → Text → Text → Type 0
Accepts g r l s tenant component payload =
    (split b'/' (trim_byte b'/' r.path) ≡ str "mcp" ∷ (tenant ∷ (component ∷ [])))
    × (component ≢ str "hub")
    × IsAuthentic g.validate g.hash g.require_route_auth (r.header (str "Authorization")) tenant
    × IsWithin g.remote (effective_limit g.rate_env)
        (window_or_zero (lookup (str "mcp:" ++ (tenant ++ (str ":" ++ component))) l.windows)) g.now
    × (lookup (tenant ++ (str ":" ++ component)) g.sessions ≡ some s)
    × (r.body ≡ inr payload)

-- The headers that are passed on.
abbrev pub IsPassedOn : Text → Type 0
IsPassedOn k =
    (k ≡ str "Authorization")
    ⊎ (k ≡ str "Accept")
    ⊎ (k ≡ str "Content-Type")
    ⊎ (k ≡ str "Mcp-Session-Id")

-- The frame has the type request, the stream, the component, the method and the body, the headers that
-- are passed on and not empty, and nothing else.
abbrev pub Carries : Text → Request → Text → Text → Frame → Type 0
Carries id r component payload f =
    (f ≡ record (zero_frame (str "request")) {
      stream_id = id;
      component_id = component;
      method = r.method;
      headers = f.headers;
      payload = payload;
    })
    × ((k : Text) → IsPassedOn k → r.header k ≢ [] → lookup k f.headers ≡ some (r.header k))
    × ((k v : Text) → lookup k f.headers ≡ some v → IsPassedOn k × (v ≡ r.header k) × (v ≢ []))

IsPassedOn-iff : (k : Text) → (any (λ j. eqb j k) forwarded_headers ≡ true) ↔ IsPassedOn k
IsPassedOn-iff k = (
  (λ h. ground (
    arith,
    h,
    eqb_iff (str "Authorization") k,
    eqb_iff (str "Accept") k,
    eqb_iff (str "Content-Type") k,
    eqb_iff (str "Mcp-Session-Id") k,
  )),
  (λ h. ground (
    arith,
    h,
    eqb_iff (str "Authorization") k,
    eqb_iff (str "Accept") k,
    eqb_iff (str "Content-Type") k,
    eqb_iff (str "Mcp-Session-Id") k,
  )),
)

some_header :
    (b : Bool) (t v : Text)
    → (if b && not (eqb t []) then some t else none) ≡ some v
    → (b ≡ true) × (v ≡ t) × (v ≢ [])
some_header false t v e = ground arith
some_header true t v e = elim (Bool-cases (eqb t [])) [
  | inl empty ↦ ground (arith, e, empty)
  | inr full ↦
      let same : v ≡ t = ground (arith, e, full) in
      (refl, same, λ z. ground (arith, full, eqb_iff t [], same, z))
]

request_frame-Carries :
    (id component payload : Text) (r : Request)
    → Carries id r component payload (request_frame id component r payload)
request_frame-Carries id component payload r = (
  refl,
  (λ k on full.
      forwarded_headers_lem r id component payload k
      ∙ rw ((IsPassedOn-iff k).1 on) (ground (arith, full, eqb_iff (r.header k) []))),
  (λ k v found.
      let x =
        some_header (any (λ j. eqb j k) forwarded_headers) (r.header k) v
          (sym (forwarded_headers_lem r id component payload k) ∙ found) in
      ((IsPassedOn-iff k).0 x.0, x.1, x.2)),
)

-- A frame is handed to a session exactly when the request is accepted: its path is /mcp/, a tenant and a
-- component other than hub, it is authentic for the tenant and within the limit, the session is the
-- component's, and its body can be read. Each frame that is handed over comes from an accepted request and
-- has its method and body, the component, the four headers that are passed on where they are not empty,
-- and nothing else.
pub handle_mcp_iff :
    (g : Setup) (r : Request) (l : LocalLimiter) (s : ℕ)
    → ((f : Frame)
        → (handle_mcp g r l).0 ≡ forwards s f
        → (tenant : Text) × (component : Text) × (payload : Text) × Accepts g r l s tenant component
            payload
          × Carries g.id r component payload f)
      × ((tenant component payload : Text)
          → Accepts g r l s tenant component payload
          → (f : Frame) × ((handle_mcp g r l).0 ≡ forwards s f)
            × Carries g.id r component payload f)
unfolding IsForwarded route_key
handle_mcp_iff g r l s = (
  (λ f e.
      let (tenant, component, payload, (path, other, known, within, found, full, same)) =
        (forwards_lem g r l s f).0 e in
      (
        tenant,
        component,
        payload,
        (
          path,
          other,
          (IsAuthentic-iff g.validate g.hash g.require_route_auth (r.header (str "Authorization"))
                tenant).0
              known,
          (IsWithin-iff g.rate_env g.remote (limit_key tenant component) g.now l).0 within,
          found,
          full,
        ),
        subst (Carries g.id r component payload) (sym same)
            (request_frame-Carries g.id component payload r),
      )),
  (λ tenant component payload x. (
    request_frame g.id component r payload,
    (forwards_lem g r l s (request_frame g.id component r payload)).1 (
      tenant,
      component,
      payload,
      (
        x.0,
        x.1,
        (IsAuthentic-iff g.validate g.hash g.require_route_auth (r.header (str "Authorization"))
              tenant).1
            x.2,
        (IsWithin-iff g.rate_env g.remote (limit_key tenant component) g.now l).1 x.3,
        x.4,
        x.5,
        refl,
      ),
    ),
    request_frame-Carries g.id component payload r,
  )),
)
