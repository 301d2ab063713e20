-- ===== src/Gateway/RateLimit/Bound.antt =====
-- How many calls a window lets through.
use mcphub.Prelude.{
  ℕ, suc, ◌+◌, ◌≤◌, ◌<◌, ◌-◌, ◌≡◌, ap, true, false, ◌&&◌, List, [], ◌∷◌, Text, lookup,
  lookup-insert, lookup-insert_self, eqb, eqb_iff, min, subst, sym, ◌∙◌, eqb_refl, if◌then◌else◌,
  ltb, Bool-cases, inl, inr, arith, All,
}
use mcphub.Gateway.RateLimit.{
  RateWindow, LocalLimiter, window_or_zero, is_over, allow_window, allow,
}

-- The window of a key, the zero window where there is none.
abbrev pub window_of : Text → LocalLimiter → RateWindow
window_of key l = window_or_zero (lookup key l.windows)

-- The calls of one key among calls of any keys, each with its time; how many of them there are;
-- and how many of them the limiter lets through.
abbrev pub Calls : Type 0
Calls = List (Text × ℕ)

unfoldable pub calls_of : Text → Calls → ℕ
calls_of key [] = 0
calls_of key ((k, now) ∷ calls) =
    let rest = calls_of key calls in if eqb k key then suc rest else rest

unfoldable pub accepted : Text → ℕ → ℕ → Calls → LocalLimiter → ℕ
accepted key limit window [] l = 0
accepted key limit window ((k, now) ∷ calls) l =
    let (ok, l') = allow k limit window now l in
    let rest = accepted key limit window calls l' in if eqb k key && ok then suc rest else rest

-- All calls of the key come before the window of length `window` from `start` is over.
abbrev pub Within : Text → ℕ → ℕ → Calls → Type 0
Within key start window calls = All (λ (e : Text × ℕ). e.0 ≡ key → e.1 < start + window) calls

-- A call that finds the window open counts in it, up to the limit, and changes nothing past it.
allow_in_window :
    (key : Text) (limit window now : ℕ) (l : LocalLimiter)
    → is_over (window_of key l) window now ≡ false
    → ((allow key limit window now l).0 ≡ ltb (window_of key l).count limit)
      × ((window_of key (allow key limit window now l).1).started ≡ (window_of key l).started)
      × ((window_of key (allow key limit window now l).1).count ≡ (
          if ltb (window_of key l).count limit
          then suc (window_of key l).count
          else (window_of key l).count))
unfolding allow allow_window
allow_in_window key limit window now l h =
    let v : RateWindow = record (window_of key l) { count = suc (window_of key l).count } in
    ground (arith, lookup-insert_self key v l.windows)

-- A call of another key leaves the window alone.
allow_other :
    (k key : Text) (limit window now : ℕ) (l : LocalLimiter)
    → eqb k key ≡ false
    → lookup key (allow k limit window now l).1.windows ≡ lookup key l.windows
unfolding allow allow_window
allow_other k key limit window now l ne = ground (
  arith,
  lookup-insert k key (record { started = now; count = 1 }) l.windows,
  lookup-insert k key (record (window_of k l) { count = suc (window_of k l).count }) l.windows,
)

accepted_in_window :
    (key : Text) (limit window start : ℕ) (calls : Calls) (l : LocalLimiter)
    → 0 < start
    → (window_of key l).started ≡ start
    → (window_of key l).count ≤ limit
    → Within key start window calls
    → accepted key limit window calls l ≡ min (limit - (window_of key l).count) (calls_of key calls)
unfolding accepted calls_of
accepted_in_window key limit window start [] l pos at below within = omega arith
accepted_in_window key limit window start ((k, now) ∷ calls) l pos at below within =
    elim (Bool-cases (eqb k key)) [
      | inl mine ↦
          let same : k ≡ key = (eqb_iff k key).0 mine in
          let early : now < start + window = within.0 same in
          let step =
            allow_in_window k limit window now l
              (subst (λ x. is_over (window_of x l) window now ≡ false) (sym same) (ground arith)) in
          let step' =
            subst
              (λ x.
                ((allow k limit window now l).0 ≡ ltb (window_of x l).count limit)
                × ((window_of x (allow k limit window now l).1).started ≡ (window_of x l).started)
                × ((window_of x (allow k limit window now l).1).count ≡ (
                    if ltb (window_of x l).count limit
                    then suc (window_of x l).count
                    else (window_of x l).count)))
              same step in
          let rest =
            accepted_in_window key limit window start calls (allow k limit window now l).1 pos
              (step'.1 ∙ at) (ground arith) within.1 in
          ground arith
      | inr other ↦
          let same = ap window_or_zero (allow_other k key limit window now l other) in
          let rest =
            accepted_in_window key limit window start calls (allow k limit window now l).1 pos
              (ap (λ (v : RateWindow). v.started) same ∙ at) (rw same below) within.1 in
          ground arith
    ]

-- Whatever other keys do in between: a call that opens a window at `start` is let through, and of
-- the calls of its key that come before `start + window` exactly the first `limit - 1` are.
pub accepted_window :
    (key : Text) (limit window start : ℕ) (calls : Calls) (l : LocalLimiter)
    → 0 < start
    → 0 < limit
    → is_over (window_of key l) window start ≡ true
    → Within key start window calls
    → accepted key limit window ((key, start) ∷ calls) l ≡ min limit (suc (calls_of key calls))
unfolding accepted allow allow_window
accepted_window key limit window start calls l pos some_limit over within =
    let fresh : RateWindow = record { started = start; count = 1 } in
    ground (
      arith,
      eqb_refl key,
      lookup-insert_self key fresh l.windows,
      accepted_in_window key limit window start calls (allow key limit window start l).1 pos,
    )
