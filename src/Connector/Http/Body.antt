-- ===== src/Connector/Http/Body.antt =====
-- The response that `Handle` gives is the upstream's, read to its end.
use mcphub.Prelude.{
  ◌≡◌, refl, sym, ap, ◌∙◌, true, false, Option, none, some, ◌⊎◌, inl, inr, [], ◌∷◌, ◌++◌, Text, Map,
  append-nil, append_assoc,
}
use mcphub.Connector.{McpRequest, McpResponse}
use mcphub.Connector.Http.{
  Reads, more, ends, breaks, Upstream, response_headers, request_headers, read_loop, handle_stream,
  handle, gather, gathered, stream_response,
}

-- The bytes of the reads.
unfoldable pub body : Reads → Text
body (more c r) = c ++ body r
body (ends c) = c
body (breaks c x) = c

-- The error that the reads end with.
unfoldable pub failure : Reads → Option Text
failure (more c r) = failure r
failure (ends c) = none
failure (breaks c x) = some x

whole : Option Text → Upstream → Text → Text ⊎ McpResponse
whole (some x) u payload = inl x
whole none u payload = inr (record {
  status = u.status;
  headers = response_headers u.get;
  payload = payload;
  end_of_stream = true;
})

-- The answer of the client: its error, an error of a read, or the whole response.
unfoldable pub answer : Text ⊎ Upstream → Text ⊎ McpResponse
unfolding whole failure body
answer (inl x) = inl x
answer (inr u) = whole (failure u.reads) u (body u.reads)

module _ (u : Upstream) where
  later :
      (r : Reads) (f : McpResponse) (b : Text)
      → read_loop gather u.status (response_headers u.get) r false (some f, b)
        ≡ (failure r, (some f, b ++ body r))
  unfolding read_loop failure body
  later (more [] r) f b = later r f b
  later (more (c ∷ cs) r) f b =
      later r f (b ++ (c ∷ cs))
      ∙ ap (λ x. (failure r, (some f, x))) (append_assoc b (c ∷ cs) (body r))
  later (ends []) f b = refl
  later (ends (c ∷ cs)) f b = ap (λ x. (none, (some f, x))) (append-nil (b ++ (c ∷ cs)))
  later (breaks [] x) f b = ap (λ y. (some x, (some f, y))) (sym (append-nil b))
  later (breaks (c ∷ cs) x) f b = refl

  first :
      (r : Reads)
      → gathered (read_loop gather u.status (response_headers u.get) r true (none, []))
        ≡ whole (failure r) u (body r)
  unfolding read_loop failure body whole
  first (more [] r) = first r
  first (more (c ∷ cs) r) = ap gathered (later r _ (c ∷ cs)) ∙ gathered_later (failure r) (c ∷ cs) r
    where
      gathered_later :
          (x : Option Text) (b : Text) (r : Reads)
          → gathered (
            x,
            (
              some (record {
                status = u.status;
                headers = response_headers u.get;
                payload = c ∷ cs;
                end_of_stream = false;
              }),
              b ++ body r,
            ),
          )
            ≡ whole x u (b ++ body r)
      gathered_later none b r = refl
      gathered_later (some y) b r = refl
  first (ends []) = refl
  first (ends (c ∷ cs)) =
      ap
        (λ x. inr (record {
          status = u.status;
          headers = response_headers u.get;
          payload = x;
          end_of_stream = true;
        }))
        (append-nil (c ∷ cs))
  first (breaks [] x) = refl
  first (breaks (c ∷ cs) x) = refl

-- `Handle` answers with what the upstream sends: an error of the client or of a read, or else the
-- upstream's status, the passed-on headers and all bytes of the body in order, as one response
-- that ends the stream.
pub handle_lem :
    {H : Type 0} (set : Text → Text → H → H) (get : Text → H → Text)
    (client : H → Text → Text ⊎ Upstream) (configured : Map Text) (h : H) (i : McpRequest)
    → handle set get client configured h i
      ≡ answer (client (request_headers set get configured i h) i.payload)
unfolding handle handle_stream answer
handle_lem set get client configured h i =
    cases (client (request_headers set get configured i h) i.payload)
  where
    cases : (r : Text ⊎ Upstream) → gathered (stream_response gather r (none, [])) ≡ answer r
    cases (inl x) = refl
    cases (inr u) = first u u.reads
