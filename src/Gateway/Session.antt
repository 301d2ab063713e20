-- ===== src/Gateway/Session.antt =====
-- session of internal/gateway/gateway.go: one tunnel, and the channels of the requests that wait on
-- it. A channel is an address; what a channel holds stays readable when its entry is gone.
pub mod Delivery
use mcphub.Prelude.{
  ℕ, suc, Bool, true, false, ◌||◌, Option, none, some, List, [], ◌∷◌, ◌++◌, Text, Map, lookup,
  insert, erase, values, any, length, ltb, ◌==◌, if◌then◌else◌,
}
use mcphub.Protocol.{Frame}

pub record Session : Type 0 where
  pub pending : Map ℕ
  pub buffers : ℕ → List Frame
  pub shut : ℕ → Bool
  pub next : ℕ
  pub closed : Bool

abbrev pub capacity : ℕ
capacity = 8

unfoldable pub new_session : Session
new_session = record {
  pending = [];
  buffers = λ a. [];
  shut = λ a. false;
  next = 0;
  closed = false;
}

abbrev pub put {ℓ} : {A : Type ℓ} → ℕ → A → (ℕ → A) → ℕ → A
put a x h b = if b == a then x else h b

-- `request`: a new channel waits under the stream's id; where the frame cannot be written (`false`)
-- the entry is taken out again.
unfoldable pub request : Text → Bool → Session → Option ℕ × Session
request id written s =
    let waiting = record s {
      pending = insert id s.next s.pending;
      buffers = put s.next [] s.buffers;
      next = suc s.next;
    } in
    if written
    then (some s.next, waiting)
    else (none, record waiting { pending = erase id (insert id s.next s.pending) })

-- The function `cleanup` that `request` returns.
unfoldable pub cleanup : Text → Session → Session
cleanup id s = record s { pending = erase id s.pending }

abbrev pub send : Option ℕ → Frame → Session → Session
send none f s = s
send (some c) f s =
    if ltb (length (s.buffers c)) capacity
    then record s { buffers = put c (s.buffers c ++ (f ∷ [])) s.buffers }
    else s

-- The body of `readLoop` on a frame that is no hello and no heartbeat: a full channel drops it.
unfoldable pub arrive : Frame → Session → Session
arrive f s = send (lookup f.stream_id s.pending) f s

-- The deferred end of `readLoop`.
unfoldable pub close : Session → Session
close s = record s {
  pending = [];
  shut = λ a. any (λ c. a == c) (values s.pending) || s.shut a;
  closed = true;
}

abbrev pub rest : List Frame → List Frame
rest [] = []
rest (f ∷ fs) = fs

abbrev pub head : List Frame → Option Frame
head [] = none
head (f ∷ fs) = some f

-- A receive from a channel, where one can be done.
unfoldable pub take : ℕ → Session → Option Frame × Session
take c s = (head (s.buffers c), record s { buffers = put c (rest (s.buffers c)) s.buffers })

-- What happens to a session.
pub data Event : Type 0 where
  requests : Text → Bool → Event
  cleans : Text → Event
  arrives : Frame → Event
  takes : ℕ → Event
  closes : Event

unfoldable pub step : Event → Session → Session
unfolding request cleanup arrive close take
step (requests id written) s = (request id written s).1
step (cleans id) s = cleanup id s
step (arrives f) s = arrive f s
step (takes c) s = (take c s).1
step closes s = close s

unfoldable pub run : List Event → Session → Session
unfolding step
run [] s = s
run (e ∷ es) s = run es (step e s)
