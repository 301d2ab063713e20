-- ===== src/Connect/Serve.antt =====
-- serveTunnel of internal/connect/daemon.go: the frames that a connect receives, and those that it
-- writes. A write may fail, and changes a state of its own.
use mcphub.Prelude.{
  ℕ, true, not, Option, none, some, ◌⊎◌, inl, inr, Text, str, eqb, Map, lookup, insert, erase,
  if◌then◌else◌,
}
use mcphub.Protocol.{Frame, zero_frame}
use mcphub.Connector.{McpRequest, McpResponse}
use mcphub.Connector.Http.{Emit}

abbrev pub Write : Type 0 → Type 0
Write W = Frame → W → Option Text × W

-- The methods of a connector that the daemon calls on a request: Handle, and HandleStream for a
-- StreamConnector.
pub record Connector (W : Type 0) : Type 0 where
  pub handle : McpRequest → Text ⊎ McpResponse
  pub handle_stream : Option (McpRequest → Emit W → W → Option Text × W)

abbrev pub response_frame : Text → McpResponse → Frame
response_frame stream_id res = record (zero_frame (str "response")) {
  stream_id = stream_id;
  status = res.status;
  headers = res.headers;
  payload = res.payload;
  end_of_stream = res.end_of_stream;
}

abbrev pub error_frame : Text → ℕ → Text → Frame
error_frame stream_id status error = record (zero_frame (str "response")) {
  stream_id = stream_id;
  status = status;
  error = error;
  end_of_stream = true;
}

abbrev pub request_of : Frame → McpRequest
request_of f = record { method = f.method; headers = f.headers; payload = f.payload }

-- What one received frame does: the loop goes on, or a connector serves the request, with the
-- streams that can be cancelled then; or the loop returns an error.
pub data Step (W : Type 0) : Type 0 where
  goes_on : W → Map (Unit {0}) → Step W
  serves : Connector W → Map (Unit {0}) → Step W
  returns : Text → Step W

module _ {W : Type 0} (write : Write W) where
  abbrev pub emit : Text → Emit W
  emit stream_id res w = write (response_frame stream_id res) w

  abbrev pub emit_whole : Text → Text ⊎ McpResponse → W → Option Text × W
  emit_whole stream_id (inl e) w = (some e, w)
  emit_whole stream_id (inr res) w = emit stream_id res w

  abbrev pub call :
      Option (McpRequest → Emit W → W → Option Text × W) → Connector W → Frame → W → Option Text × W
  call (some stream) r f w = stream (request_of f) (emit f.stream_id) w
  call none r f w = emit_whole f.stream_id (r.handle (request_of f)) w

  abbrev pub report : Text → Option Text × W → W
  report stream_id (none, w) = w
  report stream_id (some e, w) = (write (error_frame stream_id 502 e) w).1

  -- The goroutine of one request.
  unfoldable pub serve_request : Connector W → Frame → W → W
  serve_request r f w = report f.stream_id (call r.handle_stream r f w)

  abbrev pub found : Option (Connector W) → Frame → W → Map (Unit {0}) → Step W
  found none f w active =
      goes_on (write (error_frame f.stream_id 404 (str "component not found")) w).1 active
  found (some r) f w active = serves r (insert f.stream_id tt active)

  -- The body of the read loop on a frame. `active` holds the streams with a cancel function.
  unfoldable pub dispatch : Map (Connector W) → Frame → W → Map (Unit {0}) → Step W
  dispatch runtimes f w active =
      if eqb f.type (str "cancel")
      then goes_on w (erase f.stream_id active)
      else if eqb f.type (str "error")
      then returns f.error
      else if not (eqb f.type (str "request"))
      then goes_on w active
      else found (lookup f.component_id runtimes) f w active
