-- ===== src/Gateway/Session/Delivery.antt =====
-- The frames of a stream reach the request that waits for them.
use mcphub.Prelude.{
  ◌≡◌, refl, sym, subst, ap, ◌∙◌, ℕ, ◌<◌, Bool, true, false, not, ◌&&◌, ◌||◌, Option, none, some,
  List, [], ◌∷◌, ◌++◌, Text, eqb, eqb_iff, eqb_refl, lookup, insert, lookup-insert, lookup-erase,
  length, arith, if◌then◌else◌, ltb, append_assoc, append-nil, Bool-cases, ◌==◌,
}
use mcphub.Protocol.{Frame}
use mcphub.Gateway.Session.{
  Session, Event, requests, cleans, arrives, takes, closes, new_session, request, cleanup, arrive,
  close, take, step, run, capacity, send, rest,
}

abbrev pub first : List Frame → List Frame
first [] = []
first (f ∷ fs) = f ∷ []

-- Every channel that is waited on was made before the next one.
IsBelow : Session → Type 0
IsBelow s = (j : Text) (a : ℕ) → lookup j s.pending ≡ some a → a < s.next

-- Channel `c` is the one that waits under `k`, and under no other id.
Owns : Text → ℕ → Session → Type 0
Owns k c s =
    (lookup k s.pending ≡ some c)
    × (c < s.next)
    × ((j : Text) → lookup j s.pending ≡ some c → j ≡ k)

send-keeps :
    (o : Option ℕ) (f : Frame) (s : Session)
    → ((send o f s).pending ≡ s.pending) × ((send o f s).next ≡ s.next)
send-keeps none f s = (refl, refl)
send-keeps (some c) f s = ground arith

step-IsBelow : (e : Event) (s : Session) → IsBelow s → IsBelow (step e s)
unfolding IsBelow step request cleanup arrive close take lookup
step-IsBelow (requests id written) s h j a found = ground (
  arith,
  lookup-erase id j (insert id s.next s.pending),
  lookup-insert id j s.next s.pending,
  h j a,
  Bool-cases written,
)
step-IsBelow (cleans id) s h j a found = ground (arith, lookup-erase id j s.pending, h j a)
step-IsBelow (arrives f) s h j a found =
    let same = send-keeps (lookup f.stream_id s.pending) f s in
    subst (λ n. a < n) (sym same.1) (h j a (sym (ap (λ m. lookup j m) same.0) ∙ found))
step-IsBelow (takes c) s h j a found = h j a found
step-IsBelow closes s h j a found = ground arith

run-IsBelow : (es : List Event) (s : Session) → IsBelow s → IsBelow (run es s)
unfolding run
run-IsBelow [] s h = h
run-IsBelow (e ∷ es) s h = run-IsBelow es (step e s) (step-IsBelow e s h)

-- The events that end the wait under `k`, or that let another request wait there.
unfoldable pub touches : Text → Event → Bool
touches k (requests id written) = eqb id k
touches k (cleans id) = eqb id k
touches k closes = true
touches k (arrives f) = false
touches k (takes a) = false

step-Owns :
    (k : Text) (c : ℕ) (e : Event) (s : Session)
    → touches k e ≡ false
    → Owns k c s
    → Owns k c (step e s)
unfolding Owns step touches request cleanup arrive close take
step-Owns k c (requests id written) s free o = (
  ground (
    arith,
    o.0,
    lookup-erase id k (insert id s.next s.pending),
    lookup-insert id k s.next s.pending,
    Bool-cases written,
  ),
  ground (arith, o.1, Bool-cases written),
  λ j found. ground (
    arith,
    o.1,
    o.2 j,
    lookup-erase id j (insert id s.next s.pending),
    lookup-insert id j s.next s.pending,
    Bool-cases written,
  ),
)
step-Owns k c (cleans id) s free o = (
  ground (arith, o.0, lookup-erase id k s.pending),
  o.1,
  λ j found. ground (arith, o.2 j, lookup-erase id j s.pending),
)
step-Owns k c (arrives f) s free o =
    let same = send-keeps (lookup f.stream_id s.pending) f s in
    (
      ap (λ m. lookup k m) same.0 ∙ o.0,
      subst (λ n. c < n) (sym same.1) (o.1),
      λ j found. o.2 j (sym (ap (λ m. lookup j m) same.0) ∙ found),
    )
step-Owns k c (takes a) s free o = o
step-Owns k c closes s free o = ground arith

-- The frame that the event takes from the channel.
unfoldable pub taken_now : ℕ → Event → Session → List Frame
taken_now c (takes a) s = if a == c then first (s.buffers a) else []
taken_now c (requests id written) s = []
taken_now c (cleans id) s = []
taken_now c (arrives f) s = []
taken_now c closes s = []

-- The frames that the events take from the channel.
unfoldable pub taken : ℕ → List Event → Session → List Frame
unfolding taken_now
taken c [] s = []
taken c (e ∷ es) s = taken_now c e s ++ taken c es (step e s)

arrived_now : Text → Event → List Frame
arrived_now k (arrives f) = if eqb f.stream_id k then f ∷ [] else []
arrived_now k (requests id written) = []
arrived_now k (cleans id) = []
arrived_now k (takes a) = []
arrived_now k closes = []

-- The frames of the stream that arrive.
unfoldable pub arrived : Text → List Event → List Frame
unfolding arrived_now
arrived k [] = []
arrived k (e ∷ es) = arrived_now k e ++ arrived k es

has_room : Text → ℕ → Event → Session → Bool
has_room k c (arrives f) s = not (eqb f.stream_id k) || ltb (length (s.buffers c)) capacity
has_room k c (requests id written) s = true
has_room k c (cleans id) s = true
has_room k c (takes a) s = true
has_room k c closes s = true

-- No event ends the wait under `k`, and whenever a frame of the stream arrives, the channel holds
-- fewer than eight.
unfoldable pub keeps_up : Text → ℕ → List Event → Session → Bool
unfolding has_room
keeps_up k c [] s = true
keeps_up k c (e ∷ es) s = (not (touches k e) && has_room k c e s) && keeps_up k c es (step e s)

first-rest : (fs : List Frame) → first fs ++ rest fs ≡ fs ++ []
first-rest [] = refl
first-rest (f ∷ fs) = ap (λ x. f ∷ x) (sym (append-nil fs))

send-delivers :
    (k : Text) (c : ℕ) (f : Frame) (s : Session)
    → Owns k c s
    → has_room k c (arrives f) s ≡ true
    → (d : Option ℕ) → lookup f.stream_id s.pending ≡ d
    → (send d f s).buffers c ≡ s.buffers c ++ arrived_now k (arrives f)
unfolding Owns has_room arrived_now
send-delivers k c f s o room none e =
    ground (arith, o.0, eqb_iff f.stream_id k, append-nil (s.buffers c))
send-delivers k c f s o room (some d) e =
    ground (arith, o.0, o.2 f.stream_id, eqb_iff f.stream_id k, append-nil (s.buffers c))

step-delivers :
    (k : Text) (c : ℕ) (e : Event) (s : Session)
    → Owns k c s
    → touches k e ≡ false
    → has_room k c e s ≡ true
    → taken_now c e s ++ (step e s).buffers c ≡ s.buffers c ++ arrived_now k e
unfolding Owns step taken_now arrived_now has_room request cleanup arrive close take
step-delivers k c (requests id written) s o free room =
    ground (arith, o.1, append-nil (s.buffers c), Bool-cases written)
step-delivers k c (cleans id) s o free room = sym (append-nil (s.buffers c))
step-delivers k c (arrives f) s o free room =
    send-delivers k c f s o room (lookup f.stream_id s.pending) refl
step-delivers k c (takes a) s o free room =
    ground (arith, first-rest (s.buffers c), append-nil (s.buffers c))
step-delivers k c closes s o free room = sym (append-nil (s.buffers c))

run-delivers :
    (k : Text) (c : ℕ) (es : List Event) (s : Session)
    → Owns k c s
    → keeps_up k c es s ≡ true
    → taken c es s ++ (run es s).buffers c ≡ s.buffers c ++ arrived k es
unfolding run taken arrived keeps_up
run-delivers k c [] s o up = sym (append-nil (s.buffers c))
run-delivers k c (e ∷ es) s o up =
    append_assoc (taken_now c e s) _ _
    ∙ ap (λ x. taken_now c e s ++ x)
        (run-delivers k c es (step e s) (step-Owns k c e s (ground arith) o) (ground arith))
    ∙ sym (append_assoc (taken_now c e s) ((step e s).buffers c) (arrived k es))
    ∙ ap (λ x. x ++ arrived k es) (step-delivers k c e s o (ground arith) (ground arith))
    ∙ append_assoc (s.buffers c) (arrived_now k e) (arrived k es)

new-IsBelow : IsBelow new_session
unfolding IsBelow new_session lookup
new-IsBelow j a found = ground arith

request-Owns :
    (k : Text) (s : Session)
    → IsBelow s
    → ((request k true s).1.buffers s.next ≡ []) × Owns k s.next (request k true s).1
unfolding Owns IsBelow request
request-Owns k s below = (
  ground arith,
  (
    ground (arith, lookup-insert k k s.next s.pending, eqb_refl k),
    omega arith,
    λ j found. ground (arith, lookup-insert k j s.next s.pending, eqb_iff k j, below j s.next),
  ),
)

-- However a session came about, a request that is written and then keeps up gets exactly the
-- frames of its stream: what it has taken from its channel, followed by what the channel still
-- holds, is what arrived for the stream, in order, whatever happens to other streams meanwhile.
pub request-delivers :
    (before : List Event) (k : Text) (es : List Event)
    → let s = run before new_session in
      let waiting = (request k true s).1 in
      keeps_up k s.next es waiting ≡ true
      → taken s.next es waiting ++ (run es waiting).buffers s.next ≡ arrived k es
request-delivers before k es up =
    let s = run before new_session in
    let made = request-Owns k s (run-IsBelow before new_session new-IsBelow) in
    run-delivers k s.next es (request k true s).1 made.1 up ∙ ap (λ x. x ++ arrived k es) made.0
