-- ===== src/Mux/Stuck.antt =====
-- When the reader waits for room in a channel that nobody empties.
use mcphub.Prelude.{ℕ, ◌≡◌, ◌<◌, Bool, true, false, some, arith}
use mcphub.Protocol.{Frame}
use mcphub.Mux.{
  Mux, waits_on, Phase, is_leaving, is_gone, send, receive, leave, leaves, give_up, read, deposit,
  Step, sends, receives, gives_up, reads, deposits, stops, Reach, here, after,
}

-- The Send is past its select.
abbrev pub is_past : Phase → Bool
is_past is_leaving = true
is_past is_gone = true
is_past _ = false

-- The reader waits on a channel that holds a frame and whose Send is past its select.
unfoldable pub IsStuck : ℕ → Frame → Mux → Type 0
IsStuck a f m =
    (m.reader ≡ waits_on a f)
    × ((g : Frame) × (m.held a ≡ some g))
    × (is_past (m.phase a) ≡ true)
    × (a < m.next)

step-IsStuck : (a : ℕ) (f : Frame) {m n : Mux} → Step m n → IsStuck a f m → IsStuck a f n
unfolding IsStuck send receive leave give_up read deposit
step-IsStuck a f (sends id m) (at, (g, full), gone, old) =
    (at, (g, ground (arith, full, old)), ground (arith, gone, old), omega (arith, old))
step-IsStuck a f (receives b h m waiting holds) (at, (g, full), gone, old) =
    (at, (g, ground (arith, full, gone, waiting)), ground (arith, gone), old)
step-IsStuck a f (gives_up b m waiting) (at, (g, full), gone, old) =
    (at, (g, full), ground (arith, gone), old)
step-IsStuck a f (leaves b m leaving) (at, (g, full), gone, old) =
    (at, (g, full), ground (arith, gone), old)
step-IsStuck a f (reads h failed m reading) (at, (g, full), gone, old) = ground (arith, at, reading)
step-IsStuck a f (deposits b h m there empty) (at, (g, full), gone, old) =
    ground (arith, at, there, full, empty)
step-IsStuck a f (stops m reading) (at, (g, full), gone, old) = ground (arith, at, reading)

-- While the reader is stuck, no step puts a frame into a channel.
step-held :
    (a : ℕ) (f : Frame) {m n : Mux}
    → Step m n
    → IsStuck a f m
    → (b : ℕ) (g : Frame) → n.held b ≡ some g
    → m.held b ≡ some g
unfolding IsStuck send receive leave give_up read deposit
step-held a f (sends id m) stuck b g holds = ground (arith, holds)
step-held a f (receives c h m waiting full) stuck b g holds = ground (arith, holds)
step-held a f (gives_up c m waiting) stuck b g holds = holds
step-held a f (leaves c m leaving) stuck b g holds = holds
step-held a f (reads h failed m reading) stuck b g holds = holds
step-held a f (deposits c h m there empty) (at, (x, full), gone, old) b g holds =
    ground (arith, at, there, full, empty)
step-held a f (stops m reading) stuck b g holds = holds

-- Once the reader waits on a channel that holds a frame and whose Send has left its select, it waits on it
-- for ever, whatever steps the goroutines take, and from then on no channel is given a frame: what a
-- channel holds later it held already.
pub reach-IsStuck :
    (a : ℕ) (f : Frame) {m n : Mux}
    → Reach m n
    → IsStuck a f m
    → IsStuck a f n × ((b : ℕ) (g : Frame) → n.held b ≡ some g → m.held b ≡ some g)
reach-IsStuck a f (here m) stuck = (stuck, λ b g holds. holds)
reach-IsStuck a f (after m n o s r) stuck =
    let later = reach-IsStuck a f r (step-IsStuck a f s stuck) in
    (later.0, λ b g holds. step-held a f s stuck b g (later.1 b g holds))
