-- ===== src/Auth/Device/Examples.antt =====
-- Device login on small inputs.
use mcphub.Prelude.{
  insert, List, ℕ, ◌+◌, ◌≡◌, refl, true, false, none, [], ◌∷◌, Text, str, eqb, to_upper, lookup,
  arith, inl,
}
use mcphub.Auth.Device.Entries.{hour, can_approve, issue, change_first, DeviceEntry, new_entry}
use mcphub.Auth.Device.Handlers.{
  DeviceAuth, respond, tokens, error, approved, code, token, oauth_token, validate, approve,
}
use mcphub.Auth.Device.Flow.{login}
use mcphub.Auth.Device.Refresh.{empty_refresh_grants}
use mcphub.Auth.Device.Timely.{Request, serve, asks, approves, polls, run, refresh_too_late}

abbrev hash : Text → Text
hash t = t

abbrev empty : DeviceAuth Text
empty = record { entries = []; public_url = []; backend = none; revocation = none; stores = [] }

abbrev granted : DeviceEntry
granted = record {
  device_code = str "d";
  user_code = str "AB";
  expires_at = 100;
  approved = true;
  access_token = str "a";
  token_expires_at = 200;
  refresh_token = str "r";
  revoked = false;
}

abbrev logged_in : DeviceAuth Text
logged_in = record empty { entries = (str "d", granted) ∷ [] }

login_example :
    let a1 = (code hash (str "POST") (str "t") (str "d") (str "ab") 5 empty).1 in
    let (r2, a2) = approve hash (str "POST") (str "Ab") [] 6 a1 in
    let (r3, a3) = token hash (str "POST") (str "d") (str "x") (str "y") 7 a2 in
    (r2 ≡ respond 200 approved)
    × (r3 ≡ respond 200 (tokens (str "x") (str "y") 3600))
    × (validate hash (str "x") 8 a3 ≡ true)
unfolding lookup to_upper
login_example =
    login hash empty (str "t") (str "d") (str "ab") (str "Ab") [] (str "x") (str "y") 5 6 7 8 refl
      refl refl (ground arith) refl (ground arith) (omega arith) (omega arith) (omega arith)

abbrev pending : DeviceAuth Text
pending = record empty { entries = (str "d", new_entry (str "d") (str "ab") 5) ∷ [] }

empty_refresh_grants_example :
    let (r, a') = oauth_token hash (str "POST") true (str "refresh_token") [] (str "x") 6 pending in
    (r ≡ respond 200 (tokens (str "x") [] 3600)) × (validate hash (str "x") 6 a' ≡ true)
unfolding new_entry
empty_refresh_grants_example =
    empty_refresh_grants hash pending refl (str "x") 6 (ground arith)
      (inl (refl, refl, omega arith))

-- A login that is asked for, approved and taken up.
abbrev requests : List (ℕ × Request)
requests =
    (5, asks (str "t") (str "d") (str "ab"))
    ∷ ((6, approves (str "ab")) ∷ ((7, polls (str "d") (str "x") (str "y")) ∷ []))

refresh_too_late_example :
    oauth_token hash
      (str "POST")
      true
      (str "refresh_token")
      (str "y")
      (str "z")
      (8 + hour)
      (run hash requests empty)
    ≡ (respond 400 (error (str "invalid_grant")), run hash requests empty)
unfolding run serve code token approve issue new_entry change_first can_approve lookup insert eqb
    to_upper
refresh_too_late_example =
    refresh_too_late hash empty 1 requests (str "y") (str "z") (8 + hour) refl refl
      (omega arith, (omega arith, (omega arith, tt))) (ground arith) ((λ e. omega arith), tt)
