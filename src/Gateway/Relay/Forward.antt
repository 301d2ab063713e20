-- ===== src/Gateway/Relay/Forward.antt =====
-- A request from the caller to the upstream and back: what the connector reads, the connect writes
-- as frames, the Gateway's session keeps for the request, and the relay turns into the caller's
-- response.
use mcphub.Prelude.{
  ◌≡◌, ◌≢◌, refl, sym, ap, ◌∙◌, ℕ, Bool, true, false, none, some, ◌⊎◌, inl, inr, List, [], ◌∷◌,
  ◌++◌, Text, Map, eqb, append-nil, append_assoc, arith,
}
use mcphub.Protocol.{Frame}
use mcphub.Connector.Http.{
  Reads, more, ends, breaks, Upstream, response_headers, request_headers, read_loop, handle,
  handle_stream, stream_response, chunk_response, last_response,
}
use mcphub.Connector.Http.Body.{body, failure}
use mcphub.Connect.Serve.{
  Write, Connector, response_frame, error_frame, request_of, emit, report, serve_request,
}
use mcphub.Gateway.Session.{Event, new_session, request}
use mcphub.Gateway.Session
use mcphub.Gateway.Session.Delivery.{keeps_up, arrived, taken, request-delivers}
use mcphub.Gateway.Relay.{
  Output, sets, write_header, writes, flushes, http_error, Frames, receives, closed, Audit,
  no_audit, relay, set_headers, status_or_ok,
}
use mcphub.Gateway.Relay.Single.{header_status}

-- A tunnel whose writes succeed, as the list of what was written.
abbrev pub append : Write (List Frame)
append f w = (none, w ++ (f ∷ []))

-- The frames, received in order, and then the end of the tunnel.
abbrev pub delivered : List Frame → Frames
delivered [] = closed
delivered (f ∷ fs) = receives f (delivered fs)

-- The bytes that the caller gets.
unfoldable pub bytes : List Output → Text
bytes [] = []
bytes (writes s ∷ out) = s ++ bytes out
bytes (sets k v ∷ out) = bytes out
bytes (write_header n ∷ out) = bytes out
bytes (flushes ∷ out) = bytes out
bytes (http_error s n ∷ out) = bytes out

bytes-set_headers :
    (m : Map Text) (n : ℕ) (out : List Output)
    → bytes (set_headers m (write_header n ∷ out)) ≡ bytes out
unfolding bytes
bytes-set_headers [] n out = refl
bytes-set_headers ((k, v) ∷ m) n out = bytes-set_headers m n out

header_status-set_headers :
    (m : Map Text) (n : ℕ) (out : List Output)
    → header_status (set_headers m (write_header n ∷ out)) ≡ n
unfolding header_status
header_status-set_headers [] n out = refl
header_status-set_headers ((k, v) ∷ m) n out = header_status-set_headers m n out

module _ (id : Text) (status : ℕ) (h : Map Text) where
  chunk : Bool → Text → Frame
  chunk first c = response_frame id (chunk_response status h c first)

  last : Bool → Frame
  last first = response_frame id (last_response status h first)

  frames : Reads → Bool → List Frame
  frames (more [] r) first = frames r first
  frames (more (c ∷ cs) r) first = chunk first (c ∷ cs) ∷ frames r false
  frames (ends []) first = last first ∷ []
  frames (ends (c ∷ cs)) first = chunk first (c ∷ cs) ∷ (last false ∷ [])
  frames (breaks [] x) first = error_frame id 502 x ∷ []
  frames (breaks (c ∷ cs) x) first = chunk first (c ∷ cs) ∷ (error_frame id 502 x ∷ [])

  written :
      (r : Reads) (first : Bool) (w : List Frame)
      → report append id (read_loop (emit append id) status h r first w) ≡ w ++ frames r first
  unfolding read_loop frames chunk last
  written (more [] r) first w = written r first w
  written (more (c ∷ cs) r) first w = written r false _ ∙ append_assoc w _ (frames r false)
  written (ends []) first w = refl
  written (ends (c ∷ cs)) first w = append_assoc w _ _
  written (breaks [] x) first w = refl
  written (breaks (c ∷ cs) x) first w = append_assoc w _ _

  later :
      (fl : Bool) (a : Audit) (r : Reads)
      → bytes ((relay fl true a (delivered (frames r false))).0) ≡ body r
  unfolding relay bytes frames chunk last body eqb
  later fl a (more [] r) = later fl a r
  later true a (more (c ∷ cs) r) = ap (λ x. (c ∷ cs) ++ x) (later true a r)
  later false a (more (c ∷ cs) r) = ap (λ x. (c ∷ cs) ++ x) (later false a r)
  later fl a (ends []) = refl
  later true a (ends (c ∷ cs)) = append-nil (c ∷ cs)
  later false a (ends (c ∷ cs)) = append-nil (c ∷ cs)
  later fl a (breaks [] x) = ground arith
  later true a (breaks (c ∷ cs) x) = ground (arith, append-nil (c ∷ cs))
  later false a (breaks (c ∷ cs) x) = ground (arith, append-nil (c ∷ cs))

  first_bytes :
      (fl : Bool) (r : Reads)
      → bytes ((relay fl false no_audit (delivered (frames r true))).0) ≡ body r
  unfolding relay bytes frames chunk last body eqb
  first_bytes fl (more [] r) = first_bytes fl r
  first_bytes true (more (c ∷ cs) r) =
      bytes-set_headers h _ _ ∙ ap (λ x. (c ∷ cs) ++ x) (later true _ r)
  first_bytes false (more (c ∷ cs) r) =
      bytes-set_headers h _ _ ∙ ap (λ x. (c ∷ cs) ++ x) (later false _ r)
  first_bytes fl (ends []) = bytes-set_headers h _ _
  first_bytes true (ends (c ∷ cs)) = bytes-set_headers h _ _ ∙ append-nil (c ∷ cs)
  first_bytes false (ends (c ∷ cs)) = bytes-set_headers h _ _ ∙ append-nil (c ∷ cs)
  first_bytes fl (breaks [] x) = ground arith
  first_bytes true (breaks (c ∷ cs) x) =
      bytes-set_headers h _ _ ∙ ground (arith, append-nil (c ∷ cs))
  first_bytes false (breaks (c ∷ cs) x) =
      bytes-set_headers h _ _ ∙ ground (arith, append-nil (c ∷ cs))

  first_status :
      (fl : Bool) (r : Reads)
      → failure r ≡ none
      → header_status ((relay fl false no_audit (delivered (frames r true))).0)
        ≡ status_or_ok status
  unfolding relay header_status frames chunk last failure eqb
  first_status fl (more [] r) e = first_status fl r e
  first_status fl (more (c ∷ cs) r) e = header_status-set_headers h _ _
  first_status fl (ends []) e = header_status-set_headers h _ _
  first_status fl (ends (c ∷ cs)) e = header_status-set_headers h _ _
  first_status fl (breaks c x) e = ground arith

module _ {H : Type 0} (set : Text → Text → H → H) (get : Text → H → Text)
    (client : H → Text → Text ⊎ Upstream) (configured : Map Text) (h : H) where
  -- The connector of a Streamable HTTP server, as the daemon calls it.
  abbrev pub streaming : Connector (List Frame)
  streaming = record {
    handle = handle set get client configured h;
    handle_stream = some (λ i e w. handle_stream set get client configured h i e w);
  }

  -- The Gateway's session has sent the request frame after some events; the events after it bring the
  -- frames that the connect writes, in order, and the request takes them all: no event ends its wait,
  -- and its channel holds fewer than eight frames whenever one arrives.
  unfoldable pub IsReceived : Frame → List Event → List Event → Type 0
  IsReceived f before es =
      let s = Session.run before new_session in
      let waiting = (request f.stream_id true s).1 in
      (keeps_up f.stream_id s.next es waiting ≡ true)
      × (arrived f.stream_id es ≡ serve_request append streaming f [])
      × ((Session.run es waiting).buffers s.next ≡ [])

  -- The caller's response: what the relay makes of the frames that are taken from the request's channel.
  unfoldable pub answered : Bool → Frame → List Event → List Event → List Output × Audit
  answered flusher f before es =
      let s = Session.run before new_session in
      relay flusher false no_audit (delivered (taken s.next es (request f.stream_id true s).1))

  received :
      (flusher : Bool) (f : Frame) (before es : List Event)
      → IsReceived f before es
      → answered flusher f before es
        ≡ relay flusher false no_audit (delivered (serve_request append streaming f []))
  unfolding IsReceived answered
  received flusher f before es (up, all, empty) =
      let s = Session.run before new_session in
      let t = taken s.next es (request f.stream_id true s).1 in
      let same : t ≡ serve_request append streaming f [] =
        sym (append-nil t)
        ∙ ap (λ x. t ++ x) (sym empty)
        ∙ request-delivers before f.stream_id es up
        ∙ all in
      ap (λ x. relay flusher false no_audit (delivered x)) same

  sent :
      (f : Frame) (u : Upstream)
      → client (request_headers set get configured (request_of f) h) f.payload ≡ inr u
      → serve_request append streaming f []
        ≡ frames f.stream_id u.status (response_headers u.get) u.reads true
  unfolding serve_request handle_stream
  sent f u e =
      ap (λ r. report append f.stream_id (stream_response (emit append f.stream_id) r [])) e
      ∙ written f.stream_id u.status (response_headers u.get) u.reads true []

  -- Where the request keeps up with its channel and takes every frame that the connect writes for it, the
  -- caller gets the bytes of the upstream's body, in order and without a change, also where reading the
  -- body fails after them, whatever happens to other streams of the tunnel meanwhile.
  pub forward_body :
      (flusher : Bool) (f : Frame) (u : Upstream) (before es : List Event)
      → client (request_headers set get configured (request_of f) h) f.payload ≡ inr u
      → IsReceived f before es
      → bytes ((answered flusher f before es).0) ≡ body u.reads
  forward_body fl f u before es e got =
      ap (λ x. bytes (x.0)) (received fl f before es got)
      ∙ ap (λ w. bytes ((relay fl false no_audit (delivered w)).0)) (sent f u e)
      ∙ first_bytes f.stream_id u.status (response_headers u.get) fl u.reads

  -- Where the whole body is read, the caller gets the upstream's status.
  pub forward_status :
      (flusher : Bool) (f : Frame) (u : Upstream) (before es : List Event)
      → client (request_headers set get configured (request_of f) h) f.payload ≡ inr u
      → IsReceived f before es
      → failure u.reads ≡ none
      → u.status ≢ 0
      → header_status ((answered flusher f before es).0) ≡ u.status
  forward_status fl f u before es e got whole ne =
      ap (λ x. header_status (x.0)) (received fl f before es got)
      ∙ ap (λ w. header_status ((relay fl false no_audit (delivered w)).0)) (sent f u e)
      ∙ first_status f.stream_id u.status (response_headers u.get) fl u.reads whole
      ∙ ground arith

  -- Where the client gives no response, the caller gets status 502 and an empty body, and the
  -- audit record has no error.
  pub forward_refused :
      (flusher : Bool) (f : Frame) (x : Text) (before es : List Event)
      → client (request_headers set get configured (request_of f) h) f.payload ≡ inl x
      → IsReceived f before es
      → answered flusher f before es ≡ (write_header 502 ∷ [], record { status = 502; error = [] })
  unfolding serve_request handle_stream relay
  forward_refused fl f x before es e got =
      received fl f before es got
      ∙ ap
          (λ r. relay fl false no_audit (
            delivered (report append f.stream_id (stream_response (emit append f.stream_id) r []))))
          e
      ∙ ground arith
