-- ===== src/Gateway/Relay.antt =====
-- The loop of handleMCP in internal/gateway/gateway.go: the frames of one stream become the
-- response to the caller. The calls on the http.ResponseWriter are the output.
pub mod Single
pub mod Forward
use mcphub.Prelude.{
  ℕ, Bool, true, false, not, ◌&&◌, Option, none, some, List, [], ◌∷◌, Text, str, eqb, Map, ◌==◌,
  if◌then◌else◌,
}
use mcphub.Protocol.{Frame}

-- A call on the writer: Header().Set, WriteHeader, Write, Flush, or http.Error.
pub data Output : Type 0 where
  sets : Text → Text → Output
  write_header : ℕ → Output
  writes : Text → Output
  flushes : Output
  http_error : Text → ℕ → Output

-- What the loop receives: frames, then the channel is closed, or the context ends with an error.
pub data Frames : Type 0 where
  receives : Frame → Frames → Frames
  closed : Frames
  done : Text → Frames

-- The variables that the deferred audit record reads.
pub record Audit : Type 0 where
  pub status : ℕ
  pub error : Text

abbrev pub no_audit : Audit
no_audit = record { status = 0; error = [] }

abbrev pub set_headers : Map Text → List Output → List Output
set_headers [] out = out
set_headers ((k, v) ∷ m) out = sets k v ∷ set_headers m out

abbrev pub status_or_ok : ℕ → ℕ
status_or_ok status = if status == 0 then 200 else status

-- `if !wroteHeader { ... }`, before what follows.
abbrev pub start : Bool → Frame → List Output → List Output
start true res out = out
start false res out = set_headers res.headers (write_header (status_or_ok res.status) ∷ out)

abbrev pub audit_start : Bool → Frame → Audit → Audit
audit_start true res a = a
audit_start false res a = record a { status = status_or_ok res.status }

abbrev pub flush : Bool → List Output → List Output
flush true out = flushes ∷ out
flush false out = out

-- `if len(res.Payload) > 0 { ... }`; `flusher` says whether the writer can flush.
abbrev pub write_payload : Bool → Text → List Output → List Output
write_payload flusher [] out = out
write_payload flusher (c ∷ cs) out = writes (c ∷ cs) ∷ flush flusher out

abbrev pub fail : Bool → Text → List Output
fail wrote_header message = if wrote_header then [] else http_error message 502 ∷ []

abbrev pub is_failure : Frame → Bool
is_failure res = not (eqb res.error []) && res.status == 0

-- The loop, with the calls it makes and the audit record it leaves.
unfoldable pub relay : Bool → Bool → Audit → Frames → List Output × Audit
relay flusher wrote_header a closed =
    (fail wrote_header (str "tunnel closed"), record a { error = str "tunnel_closed" })
relay flusher wrote_header a (done x) = (fail wrote_header x, a)
relay flusher wrote_header a (receives res rest) =
    let (out, b) = relay flusher true (audit_start wrote_header res a) rest in
    if is_failure res
    then (fail wrote_header res.error, record a { error = res.error })
    else if res.end_of_stream
    then (
      start wrote_header res (write_payload flusher res.payload []),
      audit_start wrote_header res a,
    )
    else (start wrote_header res (write_payload flusher res.payload out), b)
