-- ===== src/Cli/Login/Rounds.antt =====
-- How often `deviceLogin` asks for the tokens.
use mcphub.Prelude.{
  ℕ, suc, zero, ◌+◌, ◌≤◌, ◌≡◌, subst, not, Option, none, some, [], Text, eqb, leb, ◌==◌, arith,
  if_cases,
}
use mcphub.Auth.Device.Handlers.{Response}
use mcphub.Cli.Login.{
  Server, Outcome, got, code_failed, unreadable_code, authorization_failed, timed_out, answered,
  poll, coded, device_login, login_base, interval, access_of, is_json, device_of,
}

-- A state, and how often the server was asked for tokens.
pub record Tally (W : Type 0) : Type 0 where
  pub world : W
  pub asked : ℕ

abbrev pub tally : {W : Type 0} → ℕ → W → Tally W
tally c w = record { world = w; asked = c }

abbrev pub beside : {A W : Type 0} → ℕ → A × W → A × Tally W
beside c (x, w) = (x, tally c w)

-- The same server, which counts.
abbrev pub counted : {W : Type 0} → Server W → Server (Tally W)
counted s = record {
  ask_code = λ base t. beside t.asked (s.ask_code base t.world);
  ask_token = λ base d t. beside (suc t.asked) (s.ask_token base d t.world);
  sleep = λ n t. tally t.asked (s.sleep n t.world);
}

-- The command asked at most `n` times, and exactly so often where it gave up.
abbrev pub Bounded : {W : Type 0} → ℕ → Outcome × Tally W → Type 0
Bounded n x = (x.1.asked ≤ n) × (x.0 ≡ timed_out → x.1.asked ≡ n)

module _ {W : Type 0} (server : Server W) (base : Text) where
  answered-Bounded :
      (c n : ℕ) (x : Option Response × W) (again : Tally W → Outcome × Tally W)
      → ((w : W) → Bounded (c + suc n) (again (tally (suc c) w)))
      → Bounded (c + suc n) (answered (counted server) base (beside (suc c) x) again)
  answered-Bounded c n (none, w) again rest = rest w
  answered-Bounded c n (some r, w) again rest =
      let P = λ (x : Outcome × Tally W). Bounded (c + suc n) x in
      let t = tally (suc c) w in
      if_cases P (r.status == 428) (again t) _ (rest w) (
        if_cases P (leb 300 r.status) (authorization_failed, t) _ (omega arith, λ e. ground arith)
          (if_cases P (eqb (access_of r.body) []) (again t) (got (access_of r.body), t) (rest w)
            (omega arith, λ e. ground arith)))

  poll-Bounded :
      (n c : ℕ) (device : Text) (w : W)
      → Bounded (c + n) (poll (counted server) base n device (tally c w))
  unfolding poll
  poll-Bounded zero c device w = (omega arith, λ e. omega arith)
  poll-Bounded (suc n) c device w =
      answered-Bounded c n (server.ask_token base device (server.sleep interval w))
        (poll (counted server) base n device)
        (λ v.
          subst (λ m. Bounded m (poll (counted server) base n device (tally (suc c) v)))
            (omega arith) (poll-Bounded n (suc c) device v))

  coded-Bounded :
      (x : Option Response × W)
      → ((coded (counted server) base (beside 0 x)).1.asked ≤ 120)
        × ((coded (counted server) base (beside 0 x)).0 ≡ timed_out
            → (coded (counted server) base (beside 0 x)).1.asked ≡ 120)
  coded-Bounded (none, w) = (omega arith, λ e. ground arith)
  coded-Bounded (some r, w) =
      let P = λ (x : Outcome × Tally W). Bounded 120 x in
      let t = tally 0 w in
      if_cases P (leb 300 r.status) (code_failed, t) _ (omega arith, λ e. ground arith)
        (if_cases P (not (is_json r.body)) (unreadable_code, t) _ (omega arith, λ e. ground arith)
          (poll-Bounded 120 0 (device_of r.body) w))

-- Whatever the server answers, `mcp-connect login` ends after it asked for the tokens at most 120 times,
-- and where it gives up waiting it asked exactly 120 times.
pub device_login_ends :
    {W : Type 0} (server : Server W) (gateway : Text) (w : W)
    → let (o, t) = device_login (counted server) gateway (tally 0 w) in
      (t.asked ≤ 120) × (o ≡ timed_out → t.asked ≡ 120)
unfolding device_login
device_login_ends server gateway w =
    coded-Bounded server (login_base gateway) (server.ask_code (login_base gateway) w)
