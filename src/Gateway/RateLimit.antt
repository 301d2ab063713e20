-- ===== src/Gateway/RateLimit.antt =====
-- localLimiter of internal/gateway/security.go: a fixed window for each key. Time is a count of
-- nanoseconds since Go's zero time, so `started.IsZero()` is `started == 0`.
pub mod Bound
use mcphub.Prelude.{
  ℕ, zero, suc, ◌+◌, Bool, true, false, ◌||◌, Option, none, some, Text, Map, lookup, insert, ltb,
  leb, ◌==◌, if◌then◌else◌,
}

pub record RateWindow : Type 0 where
  pub started : ℕ
  pub count : ℕ

pub record LocalLimiter : Type 0 where
  pub windows : Map RateWindow

-- Reading a missing key of a Go map gives the zero value.
abbrev pub window_or_zero : Option RateWindow → RateWindow
window_or_zero none = record { started = 0; count = 0 }
window_or_zero (some v) = v

-- `now.Sub(v.started) >= window`, on times that do not lie before `started`.
abbrev pub is_over : RateWindow → ℕ → ℕ → Bool
is_over v window now = v.started == 0 || leb (v.started + window) now

unfoldable pub allow_window : RateWindow → ℕ → ℕ → ℕ → Bool × Option RateWindow
allow_window v limit window now =
    if is_over v window now
    then (true, some (record { started = now; count = 1 }))
    else if leb limit v.count
    then (false, none)
    else (true, some (record v { count = suc v.count }))

-- Stores the window that the call leaves, if it wrote one.
abbrev pub store : Text → Option RateWindow → LocalLimiter → LocalLimiter
store key none l = l
store key (some v) l = record { windows = insert key v l.windows }

unfoldable pub allow : Text → ℕ → ℕ → ℕ → LocalLimiter → Bool × LocalLimiter
unfolding allow_window
allow key limit window now l =
    let (ok, v) = allow_window (window_or_zero (lookup key l.windows)) limit window now in
    (ok, store key v l)

-- `limit, _ := strconv.Atoi(...)`: the environment's number, and 120 where there is none or it is
-- not positive. The argument is the parsed number, `none` for a parse error or a negative number.
unfoldable pub effective_limit : Option ℕ → ℕ
effective_limit none = 120
effective_limit (some zero) = 120
effective_limit (some (suc n)) = suc n

abbrev pub minute : ℕ
minute = 60000000000

-- What the shared store answers to `Allow`: an answer, or an error.
pub data Remote : Type 0 where
  answers : Bool → Remote
  fails : Remote

-- `rateLimit`: the store's answer counts only if it gave no error; with no store the local
-- limiter decides. `true` lets the request pass, `false` is 429.
unfoldable pub rate_limit : Option ℕ → Option Remote → Text → ℕ → LocalLimiter → Bool × LocalLimiter
unfolding effective_limit allow
rate_limit env (some (answers ok)) key now l = (ok, l)
rate_limit env (some fails) key now l = (true, l)
rate_limit env none key now l = allow key (effective_limit env) minute now l
