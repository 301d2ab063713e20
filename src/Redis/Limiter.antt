-- ===== src/Redis/Limiter.antt =====
-- The limiter in Redis decides as the local limiter of the Gateway does.
use mcphub.Prelude.{
  drop, map, ◌≡◌, ◌≢◌, ◌≤◌, ◌<◌, ◌+◌, refl, sym, ap, ◌∙◌, subst, ℕ, suc, Bool, Option, none, some,
  inl, inr, List, [], ◌∷◌, Text, eqb, eqb_iff, lookup, lookup-insert, leb, ◌==◌, if◌then◌else◌,
  Bool-cases, arith,
}
use mcphub.Auth.Store.{Result, ok}
use mcphub.Gateway.RateLimit.{RateWindow, LocalLimiter, window_or_zero, is_over, allow_window}
use mcphub.Gateway.RateLimit
use mcphub.Redis.{Client, rate_key, counted}
use mcphub.Redis
use mcphub.Redis.Window.{
  Counter, Laws, live, value_of, incremented, counter_after, window_after, Match, Match-later,
  Alike, step_lem, IsCertain, IsWhole, IsKept, IsKept-IsCertain, IsKept-after,
}

incremented_value : (x : Option Counter) → suc (value_of x) ≡ (incremented x).value
incremented_value none = refl
incremented_value (some c) = refl

module _ {S : Type 0} (r : Client S) (laws : Laws r) where
  -- The counter that `Allow` leaves at its key, its decision, and that other keys keep theirs.
  allow_lem :
      (key : Text) (limit window now : ℕ) (s : S)
      → IsWhole window
      → IsCertain (laws.read (rate_key key) s) now
      → let c = incremented (live (laws.read (rate_key key) s) now) in
        let (a, s') = Redis.allow r now key limit window s in
        (a ≡ ok (leb c.value limit))
        × (laws.read (rate_key key) s' ≡ some (counter_after window now c))
        × ((j : Text) → j ≢ rate_key key → laws.read j s' ≡ laws.read j s)
  unfolding Redis.allow
  allow_lem key limit window now s whole certain =
      subst
        (λ (x : Result Bool × S).
          (x.0 ≡ ok (leb c.value limit))
          × (laws.read k x.1 ≡ some (counter_after window now c))
          × ((j : Text) → j ≢ k → laws.read j x.1 ≡ laws.read j s))
        (sym computed) (refl, own, others)
    where
      k : Text
      k = rate_key key

      c : Counter
      c = incremented (live (laws.read k s) now)

      s1 : S
      s1 = (r.incr k now s).1

      computed :
          Redis.allow r now key limit window s
          ≡ (ok (leb c.value limit), if c.value == 1 then r.expire k window now s1 else s1)
      computed =
          ap (λ x. counted r now (x, s1) k limit window)
            (laws.incr_result k now s certain
              ∙ ap ok (incremented_value (live (laws.read k s) now)))

      own :
          laws.read k (if c.value == 1 then r.expire k window now s1 else s1)
          ≡ some (counter_after window now c)
      own = elim (Bool-cases (c.value == 1)) [
        | inl e ↦
            rw (e, laws.expire_read k window now s1 whole, laws.incr_read k now s certain) refl
        | inr e ↦ rw e (laws.incr_read k now s certain)
      ]

      others :
          (j : Text)
          → j ≢ k
          → laws.read j (if c.value == 1 then r.expire k window now s1 else s1) ≡ laws.read j s
      others j ne = elim (Bool-cases (c.value == 1)) [
        | inl e ↦ rw e (laws.expire_others k j window now s1 ne ∙ laws.incr_others k j now s ne)
        | inr e ↦ rw e (laws.incr_others k j now s ne)
      ]

-- Requests with their times, in order, from a time on and before another.
abbrev pub Request : Type 0
Request = Text × ℕ

abbrev pub AreBetween : ℕ → ℕ → List Request → Type 0
AreBetween now end [] = Unit
AreBetween now end ((key, t) ∷ qs) = (now ≤ t) × (t < end) × AreBetween t end qs

-- The decisions of the local limiter.
unfoldable pub local_run : ℕ → ℕ → List Request → LocalLimiter → List Bool
local_run limit window [] l = []
local_run limit window ((key, t) ∷ qs) l =
    let (a, l') = RateLimit.allow key limit window t l in a ∷ local_run limit window qs l'

-- The decisions of the limiter in Redis.
unfoldable pub redis_run : {S : Type 0} → Client S → ℕ → ℕ → List Request → S → List (Result Bool)
redis_run r limit window [] s = []
redis_run r limit window ((key, t) ∷ qs) s =
    let (a, s') = Redis.allow r t key limit window s in a ∷ redis_run r limit window qs s'

abbrev pub window_of : Text → LocalLimiter → RateWindow
window_of key l = window_or_zero (lookup key l.windows)

window_of-store :
    (key j : Text) (w : Option RateWindow) (l : LocalLimiter)
    → window_of j (RateLimit.store key w l)
      ≡ (if eqb key j then window_after (window_of key l) w else window_of j l)
window_of-store key j none l = ground (arith, eqb_iff key j)
window_of-store key j (some v) l = ground (arith, lookup-insert key j v l.windows, eqb_iff key j)

rate_key_ne : (j key : Text) → j ≢ key → rate_key j ≢ rate_key key
rate_key_ne j key ne e = ne (ap (drop 12) e)

module _ {S : Type 0} (r : Client S) (laws : Laws r) (limit window : ℕ) where
  -- Every key's window matches its counter.
  unfoldable Matches : ℕ → LocalLimiter → S → Type 0
  Matches now l s =
      (key : Text) → Match limit window now (window_of key l) (laws.read (rate_key key) s)

  allow-Matches :
      (key : Text) (now : ℕ) (l : LocalLimiter) (s : S)
      → 1 ≤ limit
      → 1 ≤ now
      → IsWhole window
      → IsCertain (laws.read (rate_key key) s) now
      → Matches now l s
      → let (a, l') = RateLimit.allow key limit window now l in
        let (b, s') = Redis.allow r now key limit window s in (b ≡ ok a) × Matches now l' s'
  unfolding Matches Alike RateLimit.allow
  allow-Matches key now l s pos_limit pos_now whole certain match =
      let v = window_of key l in
      let x =
        step_lem limit window now v (laws.read (rate_key key) s) pos_limit pos_now (match key) in
      let y = allow_lem r laws key limit window now s whole certain in
      (
        y.0 ∙ ap ok (sym x.0),
        λ j. elim (Bool-cases (eqb key j)) [
          | inl e ↦
              let same : key ≡ j = (eqb_iff key j).0 e in
              both j (window_of-store key j w l ∙ rw e refl)
                (ap (λ k. laws.read (rate_key k) after) (sym same) ∙ y.1) x.1
          | inr e ↦
              let other : j ≢ key = ground (arith, eqb_iff key j) in
              both j (window_of-store key j w l ∙ rw e refl)
                (y.2 (rate_key j) (rate_key_ne j key other)) (match j)
        ],
      )
    where
      w : Option RateWindow
      w = (allow_window (window_of key l) limit window now).1

      after : S
      after = (Redis.allow r now key limit window s).1

      both :
          (j : Text) {u : RateWindow} {o : Option Counter}
          → window_of j (RateLimit.store key w l) ≡ u
          → laws.read (rate_key j) after ≡ o
          → Match limit window now u o
          → Match limit window now
              (window_of j (RateLimit.store key w l))
              (laws.read (rate_key j) after)
      both j {u = u} eu eo m =
          subst (λ x. Match limit window now x (laws.read (rate_key j) after)) (sym eu)
            (subst (λ x. Match limit window now u x) (sym eo) m)

  -- Every counter lives up to a time at least.
  unfoldable AllKept : ℕ → S → Type 0
  AllKept end s = (key : Text) → IsKept end (laws.read (rate_key key) s)

  allow-AllKept :
      (key : Text) (start now : ℕ) (s : S)
      → IsWhole window
      → start ≤ now
      → now < start + window
      → AllKept (start + window) s
      → AllKept (start + window) (Redis.allow r now key limit window s).1
  unfolding AllKept
  allow-AllKept key start now s whole le before kept j =
      let o = laws.read (rate_key key) s in
      let certain = IsKept-IsCertain (start + window) now o before (kept key) in
      let y = allow_lem r laws key limit window now s whole certain in
      elim (Bool-cases (eqb key j)) [
        | inl e ↦
            let same : key ≡ j = (eqb_iff key j).0 e in
            subst
              (λ k.
                IsKept (start + window)
                  (laws.read (rate_key k) (Redis.allow r now key limit window s).1))
              same
              (subst (IsKept (start + window)) (sym y.1)
                (IsKept-after start window now o le certain (kept key)))
        | inr e ↦
            let other : j ≢ key = ground (arith, eqb_iff key j) in
            subst (IsKept (start + window)) (sym (y.2 (rate_key j) (rate_key_ne j key other)))
              (kept j)
      ]

  certain_lem :
      (start now : ℕ) (key : Text) (s : S)
      → now < start + window
      → AllKept (start + window) s
      → IsCertain (laws.read (rate_key key) s) now
  unfolding AllKept
  certain_lem start now key s before kept =
      IsKept-IsCertain (start + window) now (laws.read (rate_key key) s) before (kept key)

  run_lem :
      (qs : List Request) (start now : ℕ) (l : LocalLimiter) (s : S)
      → 1 ≤ limit
      → 1 ≤ now
      → start ≤ now
      → IsWhole window
      → AreBetween now (start + window) qs
      → Matches now l s
      → AllKept (start + window) s
      → redis_run r limit window qs s ≡ map ok (local_run limit window qs l)
  unfolding local_run redis_run Matches
  run_lem [] start now l s pos_limit pos_now le whole order match kept = refl
  run_lem ((key, t) ∷ qs) start now l s pos_limit pos_now le whole order match kept =
      let pos_t : 1 ≤ t = omega (arith, pos_now, order.0) in
      let le_t : start ≤ t = omega (arith, le, order.0) in
      let certain = certain_lem start t key s order.1 kept in
      let x = allow-Matches key t l s pos_limit pos_t whole certain (λ j.
        Match-later limit window now t (window_of j l) (laws.read (rate_key j) s) order.0
          (match j)) in
      cc (
        x.0,
        run_lem qs start t (RateLimit.allow key limit window t l).1
            (Redis.allow r t key limit window s).1 pos_limit pos_t le_t whole order.2 x.1
            (allow-AllKept key start t s whole le_t order.1 kept),
      )

  -- Within one window of time the limiter in Redis gives no error and decides each request as the local
  -- limiter does, on any requests of any keys in the order of their times, where neither has seen a request
  -- before, the limit is positive, the window is of whole seconds, and the server does what the
  -- documentation of INCR and EXPIRE says.
  pub redis_run-local_run :
      (qs : List Request) (start : ℕ) (s : S)
      → 1 ≤ limit
      → 1 ≤ start
      → IsWhole window
      → AreBetween start (start + window) qs
      → ((key : Text) → laws.read (rate_key key) s ≡ none)
      → redis_run r limit window qs s ≡ map ok (local_run limit window qs (record { windows = [] }))
  unfolding Matches Match AllKept lookup
  redis_run-local_run qs start s pos_limit pos_start whole order new =
      run_lem qs start start (record { windows = [] }) s pos_limit pos_start (omega arith) whole
        order (λ key. inl (refl, ap (λ o. live o start) (new key)))
        (λ key. subst (IsKept (start + window)) (sym (new key)) tt)
