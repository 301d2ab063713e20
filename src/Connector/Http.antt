-- ===== src/Connector/Http.antt =====
-- HTTPConnector of internal/connector/streamable_http.go: a request to a Streamable HTTP server,
-- and its response as it is read. The HTTP client and its headers are parameters.
pub mod Body
use mcphub.Prelude.{
  ℕ, Bool, true, false, ◌||◌, ◌⊎◌, inl, inr, Option, none, some, List, [], ◌∷◌, ◌++◌, Text, str,
  eqb, equal_fold, Map, if◌then◌else◌,
}
use mcphub.Connector.{McpRequest, McpResponse}

-- The reads of a body: bytes with no error, or bytes with io.EOF or with another error.
pub data Reads : Type 0 where
  more : Text → Reads → Reads
  ends : Text → Reads
  breaks : Text → Text → Reads

-- The response of the upstream: its status, the value of a header (empty if there is none), and
-- the reads of its body.
pub record Upstream : Type 0 where
  pub status : ℕ
  pub get : Text → Text
  pub reads : Reads

-- The headers of the response that are passed on.
abbrev pub kept_headers : List Text → (Text → Text) → Map Text
kept_headers [] get = []
kept_headers (k ∷ ks) get =
    let rest = kept_headers ks get in if eqb (get k) [] then rest else (k, get k) ∷ rest

unfoldable pub response_headers : (Text → Text) → Map Text
response_headers =
    kept_headers (str "Content-Type" ∷ (str "Mcp-Session-Id" ∷ (str "Cache-Control" ∷ [])))

-- The request headers that are passed on.
abbrev pub is_forwarded : Text → Bool
is_forwarded k =
    equal_fold k (str "authorization")
    || equal_fold k (str "mcp-session-id")
    || equal_fold k (str "accept")
    || equal_fold k (str "content-type")

-- The headers of the request to the upstream; `set` and `get` are those of http.Header.
module _ {H : Type 0} (set : Text → Text → H → H) (get : Text → H → Text) where
  abbrev pub set_all : Map Text → H → H
  set_all [] h = h
  set_all ((k, v) ∷ m) h = set_all m (set k v h)

  abbrev pub forward : Map Text → H → H
  forward [] h = h
  forward ((k, v) ∷ m) h = forward m (if is_forwarded k then set k v h else h)

  abbrev pub or_default : Text → Text → H → H
  or_default k v h = if eqb (get k h) [] then set k v h else h

  unfoldable pub request_headers : Map Text → McpRequest → H → H
  request_headers configured i h =
      or_default (str "Accept") (str "application/json, text/event-stream") (
        or_default (str "Content-Type") (str "application/json")
          (forward i.headers (set_all configured h)))

-- `emit` may fail, and has a state of its own.
abbrev pub Emit : Type 0 → Type 0
Emit E = McpResponse → E → Option Text × E

abbrev pub chunk_response : ℕ → Map Text → Text → Bool → McpResponse
chunk_response status h chunk first = record {
  status = status;
  headers = if first then h else [];
  payload = chunk;
  end_of_stream = false;
}

-- What is emitted after the loop ended on io.EOF.
abbrev pub last_response : ℕ → Map Text → Bool → McpResponse
last_response status h true = record {
  status = status;
  headers = h;
  payload = [];
  end_of_stream = true;
}
last_response status h false = record {
  status = 0;
  headers = [];
  payload = [];
  end_of_stream = true;
}

module _ {E : Type 0} (emit : Emit E) (status : ℕ) (h : Map Text) where
  -- `if n > 0 { ... }`: a read that gave bytes is emitted. The new value of `first` comes with it.
  abbrev pub emit_chunk : Bool → Text → E → Option Text × (Bool × E)
  emit_chunk first [] e = (none, (first, e))
  emit_chunk first (c ∷ cs) e =
      let (failure, e) = emit (chunk_response status h (c ∷ cs) first) e in (failure, (false, e))

  abbrev pub or_continue : Option Text × (Bool × E) → (Bool → E → Option Text × E) → Option Text × E
  or_continue (some x, (_, e)) k = (some x, e)
  or_continue (none, (first, e)) k = k first e

  -- The loop of `HandleStream`.
  unfoldable pub read_loop : Reads → Bool → E → Option Text × E
  read_loop (more c rest) first e =
      or_continue (emit_chunk first c e) (λ first e. read_loop rest first e)
  read_loop (ends c) first e =
      or_continue (emit_chunk first c e) (λ first e. emit (last_response status h first) e)
  read_loop (breaks c x) first e = or_continue (emit_chunk first c e) (λ first e. (some x, e))

abbrev pub stream_response : {E : Type 0} → Emit E → Text ⊎ Upstream → E → Option Text × E
stream_response emit (inl x) e = (some x, e)
stream_response emit (inr u) e = read_loop emit u.status (response_headers u.get) u.reads true e

-- `HandleStream`. `client` sends a body with headers: an error, or the response of the upstream.
unfoldable pub handle_stream :
    {H E : Type 0} (set : Text → Text → H → H) (get : Text → H → Text)
    (client : H → Text → Text ⊎ Upstream)
    → Map Text
    → H
    → McpRequest
    → Emit E
    → E
    → Option Text × E
unfolding read_loop request_headers
handle_stream set get client configured h i emit e =
    stream_response emit (client (request_headers set get configured i h) i.payload) e

-- What the `emit` of `Handle` gathers: the first response and the bytes of all.
abbrev pub gather : Emit (Option McpResponse × Text)
gather res (none, body) = (none, (some res, body ++ res.payload))
gather res (some first, body) = (none, (some first, body ++ res.payload))

abbrev pub gathered : Option Text × (Option McpResponse × Text) → Text ⊎ McpResponse
gathered (some x, _) = inl x
gathered (none, (none, body)) =
    inr (record { status = 204; headers = []; payload = []; end_of_stream = true })
gathered (none, (some first, body)) = inr (record first { payload = body; end_of_stream = true })

-- `Handle`, given the answer of the client to the request that `HandleStream` makes.
unfoldable pub handle :
    {H : Type 0} (set : Text → Text → H → H) (get : Text → H → Text)
    (client : H → Text → Text ⊎ Upstream)
    → Map Text
    → H
    → McpRequest
    → Text ⊎ McpResponse
unfolding handle_stream
handle set get client configured h i =
    gathered (handle_stream set get client configured h i gather (none, []))
