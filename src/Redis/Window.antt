-- ===== src/Redis/Window.antt =====
-- The counter that `Allow` keeps in Redis, next to a window of the local limiter.
use mcphub.Prelude.{
  ◌≡◌, ◌≢◌, ◌≤◌, ◌<◌, refl, sym, ap, ◌∙◌, subst, ℕ, suc, ◌+◌, ◌*◌, Bool, true, false, Option, none,
  some, ◌⊎◌, inl, inr, Text, ltb, leb, ◌==◌, if◌then◌else◌, Bool-cases, arith,
}
use mcphub.Auth.Store.{ok}
use mcphub.Gateway.RateLimit.{RateWindow, is_over, allow_window}
use mcphub.Redis.{Client}

-- A counter: its value, and when it expires, none where it does not.
pub record Counter : Type 0 where
  pub value : ℕ
  pub deadline : Option ℕ

-- The counter at a key that is there at a time: an expired one is not.
abbrev pub is_live : Option ℕ → ℕ → Bool
is_live none now = true
is_live (some t) now = ltb now t

abbrev pub Lives : Option ℕ → ℕ → Type 0
Lives none now = Unit
Lives (some t) now = now < t

abbrev pub live : Option Counter → ℕ → Option Counter
live none now = none
live (some c) now = if is_live c.deadline now then some c else none

-- INCR starts at zero and keeps the time to live.
abbrev pub incremented : Option Counter → Counter
incremented none = record { value = 1; deadline = none }
incremented (some c) = record c { value = suc c.value }

abbrev pub value_of : Option Counter → ℕ
value_of none = 0
value_of (some c) = c.value

abbrev pub with_deadline : Option Counter → ℕ → Option Counter
with_deadline none t = none
with_deadline (some c) t = some (record c { deadline = some t })

-- A counter is not there, has no time to live, or has not reached its end. What a server does with one
-- that has reached it is left open, since a key may live a little longer than it was given.
abbrev pub IsCertain : Option Counter → ℕ → Type 0
IsCertain none now = Unit
IsCertain (some c) now = Lives c.deadline now

abbrev pub second : ℕ
second = 1000000000

-- A duration of whole seconds, one at least: EXPIRE takes no other.
abbrev pub IsWhole : ℕ → Type 0
IsWhole ttl = (n : ℕ) × (1 ≤ n) × (ttl ≡ n * second)

-- What the documentation of Redis says of INCR and EXPIRE, for a server that answers: `read` is the
-- counter that a key has.
pub record Laws {S : Type 0} (r : Client S) : Type 0 where
  pub read : Text → S → Option Counter
  pub incr_result :
      (k : Text) (now : ℕ) (s : S)
      → IsCertain (read k s) now
      → (r.incr k now s).0 ≡ ok (suc (value_of (live (read k s) now)))
  pub incr_read :
      (k : Text) (now : ℕ) (s : S)
      → IsCertain (read k s) now
      → read k (r.incr k now s).1 ≡ some (incremented (live (read k s) now))
  pub incr_others : (k j : Text) (now : ℕ) (s : S) → j ≢ k → read j (r.incr k now s).1 ≡ read j s
  pub expire_read :
      (k : Text) (ttl now : ℕ) (s : S)
      → IsWhole ttl
      → read k (r.expire k ttl now s) ≡ with_deadline (read k s) (now + ttl)
  pub expire_others :
      (k j : Text) (ttl now : ℕ) (s : S) → j ≢ k → read j (r.expire k ttl now s) ≡ read j s

-- A local window and the counter of the same key, at a time: both are over, or they began together and
-- the window counts up to the limit.
unfoldable pub Match : ℕ → ℕ → ℕ → RateWindow → Option Counter → Type 0
Match limit window now v o =
    ((is_over v window now ≡ true) × (live o now ≡ none))
    ⊎ ((c : Counter) × (o ≡ some c)
        × (c.deadline ≡ some (v.started + window))
        × (1 ≤ v.started)
        × (1 ≤ c.value)
        × (((c.value ≤ limit) × (v.count ≡ c.value)) ⊎ ((limit < c.value) × (v.count ≡ limit))))

-- What `Allow` does to the counter of its key, and its decision.
abbrev pub counter_after : ℕ → ℕ → Counter → Counter
counter_after window now c = if c.value == 1 then record c { deadline = some (now + window) } else c

-- The window that a call of the local limiter leaves.
abbrev pub window_after : RateWindow → Option RateWindow → RateWindow
window_after v none = v
window_after v (some w) = w

pub Match-later :
    (limit window now later : ℕ) (v : RateWindow) (o : Option Counter)
    → now ≤ later
    → Match limit window now v o
    → Match limit window later v o
unfolding Match
Match-later limit window now later v o le (inr c) = inr c
Match-later limit window now later v none le (inl m) = inl (ground (arith, m.0), refl)
Match-later limit window now later v (some c) le (inl m) =
    inl (ground (arith, m.0), at c.deadline m.1)
  where
    at :
        (t : Option ℕ)
        → (if is_live t now then some c else none) ≡ none
        → (if is_live t later then some c else none) ≡ none
    at none e = ground arith
    at (some t) e = ground arith

abbrev pub counter : ℕ → ℕ → Counter
counter n t = record { value = n; deadline = some t }

-- A call on a window that is over, and on a counter that is not there.
fresh_lem :
    (limit window now : ℕ) (v : RateWindow) (o : Option Counter)
    → 1 ≤ limit
    → 1 ≤ now
    → is_over v window now ≡ true
    → live o now ≡ none
    → let c = incremented (live o now) in
      let (a, w) = allow_window v limit window now in
      (a ≡ leb c.value limit)
      × Match limit window now (window_after v w) (some (counter_after window now c))
unfolding Match allow_window
fresh_lem limit window now v o pos_limit pos_now over dead =
    rw (dead, over)
      (
        ground arith,
        inr (
          record { value = 1; deadline = some (now + window) },
          refl,
          refl,
          pos_now,
          omega arith,
          inl (pos_limit, refl),
        ),
      )

running_lem :
    (limit window now n : ℕ) (v : RateWindow)
    → 1 ≤ v.started
    → 1 ≤ n
    → now < v.started + window
    → ((n ≤ limit) × (v.count ≡ n)) ⊎ ((limit < n) × (v.count ≡ limit))
    → let c = counter (suc n) (v.started + window) in
      let (a, w) = allow_window v limit window now in
      (a ≡ leb c.value limit)
      × Match limit window now (window_after v w) (some (counter_after window now c))
unfolding Match allow_window
running_lem limit window now n v started pos before (inl (le, same)) =
    elim (Bool-cases (leb limit v.count)) [
      | inl e ↦
          rw (running, e)
            (
              ground arith,
              inr (
                counter (suc n) (v.started + window),
                ground arith,
                refl,
                started,
                omega arith,
                inr (omega (arith, at_limit e), omega (arith, at_limit e)),
              ),
            )
      | inr e ↦
          rw (running, e)
            (
              ground arith,
              inr (
                counter (suc n) (v.started + window),
                ground arith,
                refl,
                started,
                omega arith,
                inl (omega (arith, below e), omega (arith, same)),
              ),
            )
    ]
  where
    running : is_over v window now ≡ false
    running = ground arith

    at_limit : leb limit v.count ≡ true → n ≡ limit
    at_limit e = ground arith

    below : leb limit v.count ≡ false → n < limit
    below e = ground arith
running_lem limit window now n v started pos before (inr (gt, full)) =
    rw (running, at_limit)
      (
        ground arith,
        inr (
          counter (suc n) (v.started + window),
          ground arith,
          refl,
          started,
          omega arith,
          inr (omega (arith, gt), full),
        ),
      )
  where
    running : is_over v window now ≡ false
    running = ground arith

    at_limit : leb limit v.count ≡ true
    at_limit = ground arith

-- The local limiter and the counter decide alike, and match afterwards.
unfoldable pub Alike : ℕ → ℕ → ℕ → RateWindow → Option Counter → Type 0
Alike limit window now v x =
    let c = incremented x in
    let (a, w) = allow_window v limit window now in
    (a ≡ leb c.value limit)
    × Match limit window now (window_after v w) (some (counter_after window now c))

pub step_lem :
    (limit window now : ℕ) (v : RateWindow) (o : Option Counter)
    → 1 ≤ limit
    → 1 ≤ now
    → Match limit window now v o
    → Alike limit window now v (live o now)
unfolding Match Alike
step_lem limit window now v o pos_limit pos_now (inl m) =
    fresh_lem limit window now v o pos_limit pos_now m.0 m.1
step_lem limit window now v o pos_limit pos_now (inr (c, same, ends, started, pos, counts)) =
    elim (Bool-cases (is_over v window now)) [
      | inl over ↦ fresh_lem limit window now v o pos_limit pos_now over (at_end ∙ dead over)
      | inr running ↦
          subst (Alike limit window now v) (sym (at_end ∙ alive running))
            (running_lem limit window now c.value v started pos (before running) counts)
    ]
  where
    t : ℕ
    t = v.started + window

    at_end : live o now ≡ live (some (counter c.value t)) now
    at_end =
        ap (λ x. live x now) same
        ∙ ap (λ d. live (some (record { value = c.value; deadline = d })) now) ends

    dead : is_over v window now ≡ true → live (some (counter c.value t)) now ≡ none
    dead over = ground arith

    before : is_over v window now ≡ false → now < t
    before running = ground arith

    alive :
        is_over v window now ≡ false
        → live (some (counter c.value t)) now ≡ some (counter c.value t)
    alive running = ground arith

-- A counter that is not there, or that lives up to a time at least.
abbrev pub IsKept : ℕ → Option Counter → Type 0
IsKept end none = Unit
IsKept end (some c) = (t : ℕ) × (c.deadline ≡ some t) × (end ≤ t)

pub IsKept-IsCertain :
    (end now : ℕ) (o : Option Counter) → now < end → IsKept end o → IsCertain o now
IsKept-IsCertain end now none before kept = tt
IsKept-IsCertain end now (some c) before (t, same, le) =
    subst (λ d. Lives d now) (sym same) (omega arith)

pub IsKept-after :
    (start window now : ℕ) (o : Option Counter)
    → start ≤ now
    → IsCertain o now
    → IsKept (start + window) o
    → IsKept (start + window) (some (counter_after window now (incremented (live o now))))
IsKept-after start window now none le certain kept = (now + window, refl, omega arith)
IsKept-after start window now (some c) le certain (t, same, later) =
    subst (λ x. IsKept (start + window) (some (counter_after window now (incremented x))))
      (sym alive)
      (elim (Bool-cases (suc c.value == 1)) [
        | inl e ↦ rw e (now + window, refl, omega arith)
        | inr e ↦ rw e (t, same, later)
      ])
  where
    alive : live (some c) now ≡ some c
    alive = ap (λ b. if b then some c else none) (lives c.deadline certain)
      where
        lives : (d : Option ℕ) → Lives d now → is_live d now ≡ true
        lives none h = refl
        lives (some u) h = ground arith
