-- ===== src/Gateway/Relay/Single.antt =====
-- The relay answers every request once.
use mcphub.Prelude.{◌≡◌, refl, ℕ, Bool, true, false, List, [], ◌∷◌, Text, Map, arith}
use mcphub.Gateway.Relay.{
  Output, sets, write_header, writes, flushes, http_error, Frames, receives, closed, done, Audit,
  no_audit, relay, set_headers, audit_start, write_payload, status_or_ok,
}

-- Only calls that add to the body.
unfoldable pub is_body : List Output → Bool
is_body [] = true
is_body (writes s ∷ out) = is_body out
is_body (flushes ∷ out) = is_body out
is_body (sets k v ∷ out) = false
is_body (write_header n ∷ out) = false
is_body (http_error s n ∷ out) = false

-- Headers, one status and a body, or one http.Error.
unfoldable pub is_response : List Output → Bool
unfolding is_body
is_response [] = false
is_response (sets k v ∷ out) = is_response out
is_response (write_header n ∷ out) = is_body out
is_response (http_error s n ∷ []) = true
is_response (http_error s n ∷ (o ∷ out)) = false
is_response (writes s ∷ out) = false
is_response (flushes ∷ out) = false

-- The status of the first WriteHeader, and 0 where there is none.
unfoldable pub header_status : List Output → ℕ
header_status [] = 0
header_status (write_header n ∷ out) = n
header_status (sets k v ∷ out) = header_status out
header_status (writes s ∷ out) = header_status out
header_status (flushes ∷ out) = header_status out
header_status (http_error s n ∷ out) = header_status out

payload-is_body :
    (fl : Bool) (p : Text) (out : List Output) → is_body (write_payload fl p out) ≡ is_body out
unfolding is_body
payload-is_body fl [] out = refl
payload-is_body true (c ∷ cs) out = refl
payload-is_body false (c ∷ cs) out = refl

headers-is_response :
    (m : Map Text) (n : ℕ) (out : List Output)
    → is_response (set_headers m (write_header n ∷ out)) ≡ is_body out
unfolding is_response
headers-is_response [] n out = refl
headers-is_response ((k, v) ∷ m) n out = headers-is_response m n out

headers-status :
    (m : Map Text) (n : ℕ) (out : List Output)
    → header_status (set_headers m (write_header n ∷ out)) ≡ n
unfolding header_status
headers-status [] n out = refl
headers-status ((k, v) ∷ m) n out = headers-status m n out

later :
    (fl : Bool) (a : Audit) (fs : Frames)
    → (is_body ((relay fl true a fs).0) ≡ true) × ((relay fl true a fs).1.status ≡ a.status)
unfolding relay is_body
later fl a closed = (refl, refl)
later fl a (done x) = (refl, refl)
later fl a (receives res rest) = ground (
  arith,
  later fl a rest,
  payload-is_body fl res.payload [],
  payload-is_body fl res.payload (relay fl true a rest).0,
)

-- Whatever frames arrive, the writer is called either with headers, one status and then only the
-- body, or with one http.Error and nothing else.
pub relay-is_response :
    (flusher : Bool) (a : Audit) (fs : Frames) → is_response ((relay flusher false a fs).0) ≡ true
unfolding relay is_response is_body
relay-is_response fl a closed = refl
relay-is_response fl a (done x) = refl
relay-is_response fl a (receives res rest) = ground (
  arith,
  later fl (audit_start false res a) rest,
  payload-is_body fl res.payload [],
  payload-is_body fl res.payload (relay fl true (audit_start false res a) rest).0,
  headers-is_response res.headers (status_or_ok res.status) (write_payload fl res.payload []),
  headers-is_response res.headers (status_or_ok res.status)
      (write_payload fl res.payload (relay fl true (audit_start false res a) rest).0),
)

-- The status in the audit record is the one sent with WriteHeader, and 0 where none was sent.
pub relay-audit :
    (flusher : Bool) (fs : Frames)
    → (relay flusher false no_audit fs).1.status
      ≡ header_status ((relay flusher false no_audit fs).0)
unfolding relay header_status
relay-audit fl closed = refl
relay-audit fl (done x) = refl
relay-audit fl (receives res rest) = ground (
  arith,
  later fl (audit_start false res no_audit) rest,
  headers-status res.headers (status_or_ok res.status) (write_payload fl res.payload []),
  headers-status res.headers (status_or_ok res.status)
      (write_payload fl res.payload (relay fl true (audit_start false res no_audit) rest).0),
)
