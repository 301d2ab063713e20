-- ===== src/Mux/Streams.antt =====
-- Which frames a Send can get.
use mcphub.Prelude.{
  ℕ, ◌≡◌, ◌<◌, refl, ap, Bool, true, false, Option, none, some, [], Text, eqb_iff, Map, lookup,
  erase, lookup-insert, lookup-erase, arith,
}
use mcphub.Protocol.{Frame}
use mcphub.Mux.{
  Mux, Reader, waits_on, new, send, receive, leave, leaves, give_up, read, deposit, handed, Step,
  sends, receives, gives_up, reads, deposits, stops, Reach, here, after,
}

-- Channels that are not made yet are empty, those that are pending are made and stand under the stream of
-- their Send, and a frame in a channel, or on its way into one, is of that stream.
unfoldable pub IsRouted : Mux → Type 0
IsRouted m =
    ((id : Text) (a : ℕ) → lookup id m.pending ≡ some a → (m.stream a ≡ id) × (a < m.next))
    × ((a : ℕ) (f : Frame) → m.held a ≡ some f → (m.stream a ≡ f.stream_id) × (a < m.next))
    × ((a : ℕ) (f : Frame) → m.reader ≡ waits_on a f → (m.stream a ≡ f.stream_id) × (a < m.next))

new-IsRouted : IsRouted new
unfolding IsRouted new lookup
new-IsRouted = ((λ id a e. ground arith), (λ a f e. ground arith), (λ a f e. ground arith))

found-erase : (k j : Text) (m : Map ℕ) (a : ℕ) → lookup j (erase k m) ≡ some a → lookup j m ≡ some a
found-erase k j m a e = ground (arith, lookup-erase k j m, eqb_iff k j)

abbrev pub channel_of : Reader → ℕ
channel_of (waits_on a f) = a
channel_of _ = 0

abbrev pub waiting_id : Reader → Text
waiting_id (waits_on a f) = f.stream_id
waiting_id _ = []

step-IsRouted : {m n : Mux} → Step m n → IsRouted m → IsRouted n
unfolding IsRouted send receive leave give_up read deposit
step-IsRouted (sends id m) (p, h, r) = (
  (λ j a e. ground (arith, lookup-insert id j m.next m.pending, eqb_iff id j, p j a)),
  (λ a f e. ground (arith, h a f)),
  (λ a f e. ground (arith, r a f e)),
)
step-IsRouted (receives b g m waiting holds) (p, h, r) = (p, (λ a f e. ground (arith, h a f)), r)
step-IsRouted (gives_up b m waiting) (p, h, r) = (p, h, r)
step-IsRouted (leaves b m leaving) (p, h, r) =
    ((λ j a e. p j a (found-erase (m.stream b) j m.pending a e)), h, r)
step-IsRouted (reads g failed m reading) (p, h, r) =
    (p, h, (λ a f e. on (lookup g.stream_id m.pending) refl failed a f e))
  where
    on :
        (o : Option ℕ)
        → lookup g.stream_id m.pending ≡ o
        → (failed : Bool) (a : ℕ) (f : Frame) → handed o g failed ≡ waits_on a f
        → (m.stream a ≡ f.stream_id) × (a < m.next)
    on none eq true a f e = ground arith
    on none eq false a f e = ground arith
    on (some b) eq failed a f e =
        let same : b ≡ a = ap channel_of e in
        let id : g.stream_id ≡ f.stream_id = ap waiting_id e in
        ground (arith, p g.stream_id b eq, same, id)
step-IsRouted (deposits b g m there empty) (p, h, r) =
    (p, (λ a f e. ground (arith, h a f, r b g there)), (λ a f e. ground arith))
step-IsRouted (stops m reading) (p, h, r) = (p, h, (λ a f e. ground arith))

reach-IsRouted : {m n : Mux} → Reach m n → IsRouted m → IsRouted n
reach-IsRouted (here m) routed = routed
reach-IsRouted (after m n o s r) routed = reach-IsRouted r (step-IsRouted s routed)

-- However the goroutines interleave from the start, a frame that a Send can receive has the stream id of
-- that Send.
pub reach-stream :
    {m : Mux} (a : ℕ) (f : Frame) → Reach new m → m.held a ≡ some f → m.stream a ≡ f.stream_id
unfolding IsRouted
reach-stream a f r holds = ((reach-IsRouted r new-IsRouted).1 a f holds).0
