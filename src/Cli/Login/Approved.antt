-- ===== src/Cli/Login/Approved.antt =====
-- `deviceLogin` against the handlers of internal/auth, with a user who approves the code while the
-- command polls. The requests take no time; the waits do.
use mcphub.Prelude.{
  ℕ, suc, zero, ◌+◌, ◌*◌, ◌≤◌, ◌<◌, ◌≡◌, ◌≢◌, refl, ◌∙◌, subst, true, false, Option, none, some, [],
  Text, str, eqb, eqb_iff, to_upper, lookup, insert, lookup-insert_self, arith,
}
use mcphub.Auth.Device.Entries.{
  DeviceEntry, minute, hour, new_entry, issue, can_approve, approve_entry, grants,
}
use mcphub.Auth.Device.Loops.{holds, holds-insert, change_first-insert}
use mcphub.Auth.Device.Local.{token_local, validate_local, approve_form, code_local}
use mcphub.Auth.Device.Handlers.{
  DeviceAuth, error, Response, respond, code, approve, token, validate,
}
use mcphub.Auth.Device.Flow.{IsReady, token_ready, new_can_approve, issued_grants}
use mcphub.Cli.Login.{Server, got, poll, device_login, login_base, interval}

-- The login handlers, the clock, and the number of waits until the user approves, zero for never.
pub record World (S : Type 0) : Type 0 where
  pub auth : DeviceAuth S
  pub now : ℕ
  pub waits : ℕ

module _ {S : Type 0} (hash : Text → Text) (device user access refresh form json : Text) where
  -- The user approves when the last wait is over.
  unfoldable pub wait : ℕ → ℕ → World S → World S
  wait zero t w = record w { now = w.now + t }
  wait (suc zero) t w = record w {
    now = w.now + t;
    waits = 0;
    auth = (approve hash (str "POST") form json (w.now + t) w.auth).1;
  }
  wait (suc (suc n)) t w = record w { now = w.now + t; waits = suc n }

  abbrev pub told : Response × DeviceAuth S → World S → Option Response × World S
  told (r, a) w = (some r, record w { auth = a })

  -- The texts that the handlers draw are given.
  unfoldable pub handlers : Server (World S)
  unfolding wait
  handlers = record {
    ask_code = λ base w. told (code hash (str "POST") [] device user w.now w.auth) w;
    ask_token = λ base d w. told (token hash (str "POST") d access refresh w.now w.auth) w;
    sleep = λ t w. wait w.waits t w;
  }

  -- A login that nobody approved yet is pending, and nothing changes.
  pending :
      (a : DeviceAuth S) (start now : ℕ)
      → a.backend ≡ none
      → lookup device a.entries ≡ some (new_entry device user start)
      → now ≤ start + 10 * minute
      → token hash (str "POST") device access refresh now a
        ≡ (respond 428 (error (str "authorization_pending")), a)
  pending a start now local found in_time =
      rw (token_local hash a local device access refresh now, found)
        (unfold new_entry in ground arith)

  -- The handlers once a code was handed out, with its login as `f` leaves it.
  abbrev pub holding : DeviceAuth S → DeviceEntry → DeviceAuth S
  holding a e = record a { entries = insert device e a.entries }

  -- The last wait, the approval at its end, and the round that gets the tokens.
  got_lem :
      (base : Text) (a : DeviceAuth S) (start now m : ℕ)
      → a.backend ≡ none
      → lookup device a.entries ≡ none
      → holds (can_approve form (now + interval)) a.entries ≡ false
      → form ≢ []
      → to_upper form ≡ to_upper user
      → access ≢ []
      → now + interval < start + 10 * minute
      → let e = new_entry device user start in
        let e2 = issue access refresh (now + interval) (approve_entry e) in
        poll handlers base (suc m) device (record { auth = holding a e; now = now; waits = 1 }) ≡ (
          got access,
          record {
            auth = holding (holding a (approve_entry e)) e2;
            now = now + interval;
            waits = 0;
          },
        )
  unfolding poll handlers wait
  got_lem base a start now m local new others ne same ne' in_time =
      let e = new_entry device user start in
      let e1 = approve_entry e in
      let poll_at = now + interval in
      let ready : IsReady poll_at e1 = unfold new_entry in (omega (arith, in_time), refl, refl) in
      let given =
        issued_grants device user access refresh start poll_at poll_at ne' (omega arith) in
      let some_access : eqb access [] ≡ false = ground (arith, eqb_iff access []) in
      rw
        (
          approve_form hash (holding a e) local form json poll_at ne,
          change_first-insert (can_approve form poll_at) approve_entry device e a.entries others new
              (new_can_approve device user form start poll_at same in_time),
          token_ready hash (holding a e1) device access refresh poll_at e1 local
              (lookup-insert_self device e1 a.entries) ready,
          given.1,
          some_access,
        )
        refl

  -- The rounds up to the approval, which is at the end of wait `suc k` from here.
  rounds_lem :
      (base : Text) (a : DeviceAuth S) (start : ℕ) (k n now at : ℕ)
      → a.backend ≡ none
      → lookup device a.entries ≡ none
      → holds (can_approve form at) a.entries ≡ false
      → form ≢ []
      → to_upper form ≡ to_upper user
      → access ≢ []
      → at ≡ now + suc k * interval
      → at < start + 10 * minute
      → k < n
      → let e = new_entry device user start in
        let e2 = issue access refresh at (approve_entry e) in
        poll handlers base n device (record { auth = holding a e; now = now; waits = suc k }) ≡ (
          got access,
          record { auth = holding (holding a (approve_entry e)) e2; now = at; waits = 0 },
        )
  unfolding poll handlers wait
  rounds_lem base a start k zero now at local new others ne same ne' time in_time below =
      absurd (omega (arith, below))
  rounds_lem base a start zero (suc n) now at local new others ne same ne' time in_time below =
      let same_time : now + interval ≡ at = omega (arith, time) in
      subst
        (λ t.
          poll handlers base (suc n) device
            (record { auth = holding a (new_entry device user start); now = now; waits = 1 })
          ≡ (
            got access,
            record {
              auth =
                  holding (holding a (approve_entry (new_entry device user start)))
                    (issue access refresh t (approve_entry (new_entry device user start)));
              now = t;
              waits = 0;
            },
          ))
        same_time
        (got_lem base a start now n local new (rw same_time others) ne same ne'
          (omega (arith, time, in_time)))
  rounds_lem base a start (suc k) (suc n) now at local new others ne same ne' time in_time below =
      rw
        (pending (holding a (new_entry device user start)) start (now + interval) local
          (lookup-insert_self device (new_entry device user start) a.entries)
          (omega (arith, time, in_time)))
        (rounds_lem base a start k n (now + interval) at local new others ne same ne'
          (omega (arith, time)) in_time (omega (arith, below)))

  -- A login with `mcp-connect login` at a Gateway in memory mode: when the user approves the code, in
  -- whatever case it is typed, at the end of some wait of the command before the ten minutes of the
  -- code are over, the command gets the access token, and the Gateway accepts it for the next hour. The
  -- device code is new, and no other open login has the user code.
  pub device_login_approved :
      (gateway : Text) (a : DeviceAuth S) (start k later : ℕ)
      → a.backend ≡ none
      → lookup device a.entries ≡ none
      → holds (can_approve form (start + suc k * interval)) a.entries ≡ false
      → form ≢ []
      → to_upper form ≡ to_upper user
      → access ≢ []
      → suc k * interval < 10 * minute
      → later < start + suc k * interval + hour
      → let (o, w) =
          device_login handlers gateway (record { auth = a; now = start; waits = suc k }) in
        (o ≡ got access) × (validate hash access later w.auth ≡ true)
  unfolding device_login handlers
  device_login_approved gateway a start k later local new others ne same ne' in_time in_hour =
      let e = new_entry device user start in
      let at = start + suc k * interval in
      let e2 = issue access refresh at (approve_entry e) in
      rw
        (
          code_local hash a local [] device user start,
          rounds_lem (login_base gateway) a start k 120 start at local new others ne same ne' refl
              (omega (arith, in_time)) (omega (arith, in_time)),
        )
        (
          refl,
          validate_local hash (holding (holding a (approve_entry e)) e2) local access later ne'
              ∙ holds-insert (grants access later) device e2
                  (insert device (approve_entry e) a.entries)
                  (issued_grants device user access refresh start at later ne' in_hour).0,
        )
