-- ===== src/Connect/Daemon/Backoff.antt =====
-- runTunnel of internal/connect/daemon.go: how long the daemon waits between two attempts to reach
-- the Gateway. Times are nanoseconds.
use mcphub.Prelude.{
  ◌≡◌, refl, sym, ap, ◌∙◌, ℕ, zero, suc, ◌*◌, ◌^◌, Bool, true, false, List, [], ◌∷◌, ltb, arith,
  if◌then◌else◌,
}

abbrev pub second : ℕ
second = 1000000000

-- The wait after an attempt; `true` is an attempt that reached the Gateway and served a tunnel,
-- which resets the wait.
unfoldable pub wait : Bool → ℕ → ℕ
wait reached backoff = if reached then second else backoff

-- The wait that the next attempt starts with.
unfoldable pub next : ℕ → ℕ
next backoff = if ltb backoff (30 * second) then backoff * 2 else backoff

-- The waits of a run of attempts.
unfoldable pub waits : List Bool → ℕ → List ℕ
unfolding wait next
waits [] backoff = []
waits (reached ∷ rs) backoff = wait reached backoff ∷ waits rs (next (wait reached backoff))

capped : ℕ → ℕ
capped n = if ltb n 5 then n else 5

-- The wait after `n` failures since the last tunnel: it doubles, five times.
unfoldable pub after : ℕ → ℕ
unfolding capped
after n = second * 2 ^ capped n

-- The waits that the number of failures since the last tunnel gives: 1, 2, 4, 8, 16, 32 seconds,
-- and then 32 seconds each.
unfoldable pub expected : List Bool → ℕ → List ℕ
expected [] n = []
expected (true ∷ rs) n = second ∷ expected rs 1
expected (false ∷ rs) n = after n ∷ expected rs (suc n)

capped-five : (n : ℕ) → capped (suc (suc (suc (suc (suc n))))) ≡ 5
unfolding capped
capped-five n = ground arith

next-after : (n : ℕ) → next (after n) ≡ after (suc n)
unfolding next after capped
next-after zero = refl
next-after (suc zero) = refl
next-after (suc (suc zero)) = refl
next-after (suc (suc (suc zero))) = refl
next-after (suc (suc (suc (suc zero)))) = refl
next-after (suc (suc (suc (suc (suc n))))) =
    ap (λ k. next (second * 2 ^ k)) (capped-five n)
    ∙ ap (λ k. second * 2 ^ k) (sym (capped-five (suc n)))

waits-after : (rs : List Bool) (n : ℕ) → waits rs (after n) ≡ expected rs n
unfolding waits wait expected after
waits-after [] n = refl
waits-after (true ∷ rs) n = ap (λ x. second ∷ x) (ap (waits rs) (next-after 0) ∙ waits-after rs 1)
waits-after (false ∷ rs) n =
    ap (λ x. after n ∷ x) (ap (waits rs) (next-after n) ∙ waits-after rs (suc n))

-- The daemon waits one second after its first failure and after the end of a tunnel, and twice as
-- long after each further failure, up to 32 seconds.
pub waits_lem : (rs : List Bool) → waits rs second ≡ expected rs 0
unfolding after capped
waits_lem rs = waits-after rs 0
