-- ===== src/Mux.antt =====
-- internal/tunnel/mux.go: requests and answers that share one connection. Each call of `Send` makes a
-- channel, an address here, that holds one frame; one reader hands the frames out. The goroutines take
-- their steps in any order.
pub mod Stuck
pub mod Streams
mod Examples
use mcphub.Prelude.{
  ℕ, suc, ◌≡◌, Bool, true, false, Option, none, some, List, [], ◌∷◌, Text, Map, lookup, insert,
  erase, ◌==◌, if◌then◌else◌,
}
use mcphub.Protocol.{Frame}

-- `ReadLoop`: it reads, it waits for room in a channel, or it has returned.
pub data Reader : Type 0 where
  is_reading : Reader
  waits_on : ℕ → Frame → Reader
  has_returned : Reader

-- A `Send`: not made, in its select, past it with the deferred delete ahead, or returned.
pub data Phase : Type 0 where
  is_unmade is_waiting is_leaving is_gone : Phase

-- `pending`; for each channel the frame in it, the stream of its Send and how far that is; and
-- the next address.
pub record Mux : Type 0 where
  pub pending : Map ℕ
  pub held : ℕ → Option Frame
  pub stream : ℕ → Text
  pub phase : ℕ → Phase
  pub reader : Reader
  pub next : ℕ

abbrev pub put {ℓ} : {A : Type ℓ} → ℕ → A → (ℕ → A) → ℕ → A
put a x h b = if b == a then x else h b

-- `New`, with the reader started.
unfoldable pub new : Mux
new = record {
  pending = [];
  held = λ a. none;
  stream = λ a. [];
  phase = λ a. is_unmade;
  reader = is_reading;
  next = 0;
}

-- `Send`, up to its select.
unfoldable pub send : Text → Mux → Mux
send id m = record m {
  pending = insert id m.next m.pending;
  held = put m.next none m.held;
  stream = put m.next id m.stream;
  phase = put m.next is_waiting m.phase;
  next = suc m.next;
}

-- A Send takes the frame of its channel.
unfoldable pub receive : ℕ → Mux → Mux
receive a m = record m { held = put a none m.held; phase = put a is_leaving m.phase }

-- The context of a Send is done, or its write failed.
unfoldable pub give_up : ℕ → Mux → Mux
give_up a m = record m { phase = put a is_leaving m.phase }

-- The deferred delete.
unfoldable pub leave : ℕ → Mux → Mux
leave a m = record m { pending = erase (m.stream a) m.pending; phase = put a is_gone m.phase }

-- What the reader does with a frame: `failed` says whether the handler, where one is asked, failed.
abbrev pub handed : Option ℕ → Frame → Bool → Reader
handed (some a) f failed = waits_on a f
handed none f true = has_returned
handed none f false = is_reading

unfoldable pub read : Frame → Bool → Mux → Mux
read f failed m = record m { reader = handed (lookup f.stream_id m.pending) f failed }

-- A frame goes into an empty channel, and the reader reads on.
unfoldable pub deposit : ℕ → Frame → Mux → Mux
deposit a f m = record m { held = put a (some f) m.held; reader = is_reading }

pub data Step : Mux → Mux → Type 0 where
  sends : (id : Text) (m : Mux) → Step m (send id m)
  receives :
      (a : ℕ) (f : Frame) (m : Mux)
      → m.phase a ≡ is_waiting
      → m.held a ≡ some f
      → Step m (receive a m)
  gives_up : (a : ℕ) (m : Mux) → m.phase a ≡ is_waiting → Step m (give_up a m)
  leaves : (a : ℕ) (m : Mux) → m.phase a ≡ is_leaving → Step m (leave a m)
  reads : (f : Frame) (failed : Bool) (m : Mux) → m.reader ≡ is_reading → Step m (read f failed m)
  deposits :
      (a : ℕ) (f : Frame) (m : Mux)
      → m.reader ≡ waits_on a f
      → m.held a ≡ none
      → Step m (deposit a f m)
  stops : (m : Mux) → m.reader ≡ is_reading → Step m (record m { reader = has_returned })

pub data Reach : Mux → Mux → Type 0 where
  here : (m : Mux) → Reach m m
  after : (m n o : Mux) → Step m n → Reach n o → Reach m o
