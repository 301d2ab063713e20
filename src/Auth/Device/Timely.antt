-- ===== src/Auth/Device/Timely.antt =====
-- A login's refresh token ends with its device code, before the access token that it should renew.
use mcphub.Prelude.{
  ℕ, ◌+◌, ◌*◌, ◌≤◌, ◌≡◌, ◌≢◌, refl, ap, sym, subst, if_cases, ◌∙◌, ◌⊎◌, inl, true, false, not, ◌||◌,
  Option, none, some, List, [], ◌∷◌, Text, str, eqb, eqb_iff, lookup, if◌then◌else◌, arith, ltb,
  lookup-All,
}
use mcphub.Auth.Device.Entries.{
  DeviceEntry, minute, new_entry, issue, can_refresh, renew, has_token, revoke_entry, can_approve,
  approve_entry, change_first, changed_or_same,
}
use mcphub.Auth.Device.Loops.{Table, Each, holds, change_first-none, change_first-Each, Each-insert}
use mcphub.Auth.Device.Local.{
  token_local, revoke_local, oauth_token_local, approve_local, code_local,
}
use mcphub.Auth.Device.Handlers.{
  DeviceAuth, error, Response, respond, refreshed, approve_found, handed, token_entry, code,
  approve, token, oauth_token, revoke,
}

-- The POST requests to the login endpoints, with what they carry and the random texts drawn.
pub data Request : Type 0 where
  asks : Text → Text → Text → Request
  polls : Text → Text → Text → Request
  refreshes : Text → Text → Request
  revokes : Text → Request
  approves : Text → Request

abbrev post : Text
post = str "POST"

unfoldable pub serve : {S : Type 0} → (Text → Text) → ℕ → Request → DeviceAuth S → DeviceAuth S
serve hash now (asks tenant device user) a = (code hash post tenant device user now a).1
serve hash now (polls device access refresh) a = (token hash post device access refresh now a).1
serve hash now (refreshes refresh access) a =
    (oauth_token hash post true (str "refresh_token") refresh access now a).1
serve hash now (revokes t) a = (revoke hash post t now a).1
serve hash now (approves user) a = (approve hash post user user now a).1

unfoldable pub run : {S : Type 0} → (Text → Text) → List (ℕ × Request) → DeviceAuth S → DeviceAuth S
run hash [] a = a
run hash ((now, r) ∷ requests) a = run hash requests (serve hash now r a)

-- The clock does not run backwards.
abbrev pub InOrder : ℕ → List (ℕ × Request) → Type 0
InOrder start [] = Unit
InOrder start ((now, r) ∷ requests) = (start ≤ now) × InOrder now requests

abbrev last_time : ℕ → List (ℕ × Request) → ℕ
last_time start [] = start
last_time start ((now, r) ∷ requests) = last_time now requests

-- At `now` the device code has at most ten minutes left, and a login with tokens has an access
-- token that lives as long as the device code.
abbrev IsTimely : ℕ → DeviceEntry → Type 0
IsTimely now e =
    (e.expires_at ≤ now + 10 * minute)
    × (((e.access_token ≡ []) × (e.refresh_token ≡ [])) ⊎ (e.expires_at ≤ e.token_expires_at))

module _ {S : Type 0} (a : DeviceAuth S) (now : ℕ) (h : Each (IsTimely now) a.entries) where
  token_entry-IsTimely :
      (o : Option DeviceEntry) (device access refresh : Text)
      → lookup device a.entries ≡ o
      → Each (IsTimely now) (token_entry o device access refresh now a).1.entries
  token_entry-IsTimely none device access refresh found = h
  token_entry-IsTimely (some e) device access refresh found =
      let pending : Response × DeviceAuth S =
        (respond 428 (error (str "authorization_pending")), a) in
      let given = handed device (issue access refresh now e) a in
      if_cases Good (ltb e.expires_at now || e.revoked)
        (respond 400 (error (str "expired_token")), a) (if not e.approved then pending else given) h
        (if_cases Good (not e.approved) pending given h (
          Each-insert (IsTimely now) device (issue access refresh now e) a.entries
            (issued (lookup-All (IsTimely now) device a.entries h found)) h))
    where
      Good : Response × DeviceAuth S → Type 0
      Good x = Each (IsTimely now) x.1.entries

      issued : IsTimely now e → IsTimely now (issue access refresh now e)
      issued t = unfold issue in ground (arith, eqb_iff e.access_token [])

  via :
      {x y : Response × DeviceAuth S}
      → x ≡ y
      → Each (IsTimely now) y.1.entries
      → Each (IsTimely now) x.1.entries
  via e good = subst (λ (x : Response × DeviceAuth S). Each (IsTimely now) x.1.entries) (sym e) good

  refreshed-IsTimely :
      (o : Option (DeviceEntry × Table))
      → Each (IsTimely now) (changed_or_same o a.entries)
      → Each (IsTimely now) (refreshed o a).1.entries
  refreshed-IsTimely none good = good
  refreshed-IsTimely (some (e, m)) good = good

  approve_found-IsTimely :
      (o : Option (DeviceEntry × Table))
      → Each (IsTimely now) (changed_or_same o a.entries)
      → Each (IsTimely now) (approve_found o a).1.entries
  approve_found-IsTimely none good = good
  approve_found-IsTimely (some (e, m)) good = good

  approves-IsTimely :
      (hash : Text → Text) (user : Text)
      → a.backend ≡ none
      → Each (IsTimely now) (approve hash post user user now a).1.entries
  approves-IsTimely hash user local = via (approve_local hash a local user user now) (
      let matches = can_approve (if eqb user [] then user else user) now in
      approve_found-IsTimely (change_first matches approve_entry a.entries)
        (change_first-Each matches approve_entry (IsTimely now) a.entries (λ e t. t) h))

  serve-IsTimely :
      (hash : Text → Text) (r : Request)
      → a.backend ≡ none
      → Each (IsTimely now) (serve hash now r a).entries
  unfolding serve
  serve-IsTimely hash (asks tenant device user) local =
      via (code_local hash a local tenant device user now) (
        Each-insert (IsTimely now) device (new_entry device user now) a.entries
          (unfold new_entry in (omega arith, inl (refl, refl))) h)
  serve-IsTimely hash (polls device access refresh) local =
      via (token_local hash a local device access refresh now)
        (token_entry-IsTimely (lookup device a.entries) device access refresh refl)
  serve-IsTimely hash (refreshes refresh access) local =
      via (oauth_token_local hash a local refresh access now) (
        refreshed-IsTimely (change_first (can_refresh refresh now) (renew access now) a.entries) (
          change_first-Each (can_refresh refresh now) (renew access now) (IsTimely now) a.entries
            (λ e t. ground arith) h))
  serve-IsTimely hash (revokes t) local =
      via (revoke_local hash a local t now)
        (change_first-Each (has_token t) revoke_entry (IsTimely now) a.entries (λ e t. t) h)
  serve-IsTimely hash (approves user) local = approves-IsTimely hash user local

-- No request changes whether there is a backend.
module _ {S : Type 0} (a : DeviceAuth S) (local : a.backend ≡ none) where
  token_entry_local :
      (o : Option DeviceEntry) (device access refresh : Text) (now : ℕ)
      → (token_entry o device access refresh now a).1.backend ≡ none
  token_entry_local none device access refresh now = local
  token_entry_local (some e) device access refresh now = ground arith

  refreshed_local : (o : Option (DeviceEntry × Table)) → (refreshed o a).1.backend ≡ none
  refreshed_local none = local
  refreshed_local (some (e, m)) = local

  approve_found_local : (o : Option (DeviceEntry × Table)) → (approve_found o a).1.backend ≡ none
  approve_found_local none = local
  approve_found_local (some (e, m)) = local

  backend_via : {x y : Response × DeviceAuth S} → x ≡ y → y.1.backend ≡ none → x.1.backend ≡ none
  backend_via e h = ap (λ (x : Response × DeviceAuth S). x.1.backend) e ∙ h

  serve_local : (hash : Text → Text) (now : ℕ) (r : Request) → (serve hash now r a).backend ≡ none
  unfolding serve
  serve_local hash now (asks tenant device user) =
      backend_via (code_local hash a local tenant device user now) local
  serve_local hash now (polls device access refresh) =
      backend_via (token_local hash a local device access refresh now)
        (token_entry_local (lookup device a.entries) device access refresh now)
  serve_local hash now (refreshes refresh access) =
      backend_via (oauth_token_local hash a local refresh access now)
        (refreshed_local (change_first (can_refresh refresh now) (renew access now) a.entries))
  serve_local hash now (revokes t) = backend_via (revoke_local hash a local t now) local
  serve_local hash now (approves user) = backend_via (approve_local hash a local user user now) (
      approve_found_local (
        change_first (can_approve (if eqb user [] then user else user) now) approve_entry
          a.entries))

run_local :
    {S : Type 0} (hash : Text → Text) (requests : List (ℕ × Request)) (a : DeviceAuth S)
    → a.backend ≡ none
    → (run hash requests a).backend ≡ none
unfolding run
run_local hash [] a local = local
run_local hash ((now, r) ∷ requests) a local =
    run_local hash requests (serve hash now r a) (serve_local a local hash now r)

later-IsTimely :
    (m : Table) (now later : ℕ) → now ≤ later → Each (IsTimely now) m → Each (IsTimely later) m
later-IsTimely [] now later le h = tt
later-IsTimely ((k, e) ∷ m) now later le h =
    ((omega (arith, h.0.0), h.0.1), later-IsTimely m now later le h.1)

run-IsTimely :
    {S : Type 0} (hash : Text → Text) (start : ℕ) (requests : List (ℕ × Request)) (a : DeviceAuth S)
    → a.backend ≡ none
    → InOrder start requests
    → Each (IsTimely start) a.entries
    → Each (IsTimely (last_time start requests)) (run hash requests a).entries
unfolding run
run-IsTimely hash start [] a local order h = h
run-IsTimely hash start ((now, r) ∷ requests) a local order h =
    run-IsTimely hash now requests (serve hash now r a) (serve_local a local hash now r) order.1
      (serve-IsTimely a now (later-IsTimely a.entries start now order.0 h) hash r local)

-- No entry whose access token has run out can be refreshed.
too_late :
    (refresh : Text) (now before : ℕ) (m : Table)
    → refresh ≢ []
    → Each (IsTimely before) m
    → Each (λ e. e.refresh_token ≡ refresh → e.token_expires_at ≤ now) m
    → holds (can_refresh refresh now) m ≡ false
unfolding can_refresh
too_late refresh now before [] ne h over = refl
too_late refresh now before ((k, e) ∷ m) ne h over = ground (
  arith,
  eqb_iff e.refresh_token refresh,
  h.0,
  over.0,
  too_late refresh now before m ne h.1 over.1,
)

-- After any requests to an empty in-memory login table, in the order of their times: a refresh
-- token whose access tokens have all run out is refused with invalid_grant, and nothing changes.
-- So an access token can be renewed only while it is still good.
pub refresh_too_late :
    {S : Type 0} (hash : Text → Text) (a : DeviceAuth S) (start : ℕ) (requests : List (ℕ × Request))
    (refresh access : Text) (now : ℕ)
    → a.backend ≡ none
    → a.entries ≡ []
    → InOrder start requests
    → refresh ≢ []
    → Each (λ e. e.refresh_token ≡ refresh → e.token_expires_at ≤ now) (run hash requests a).entries
    → oauth_token hash
        (str "POST")
        true
        (str "refresh_token")
        refresh
        access
        now
        (run hash requests a)
      ≡ (respond 400 (error (str "invalid_grant")), run hash requests a)
refresh_too_late hash a start requests refresh access now local empty order ne over =
    let b = run hash requests a in
    let timely =
      run-IsTimely hash start requests a local order
        (subst (λ m. Each (IsTimely start) m) (sym empty) tt) in
    oauth_token_local hash b (run_local hash requests a local) refresh access now
    ∙ ap (λ o. refreshed o b)
        (change_first-none (can_refresh refresh now) (renew access now) b.entries
          (too_late refresh now (last_time start requests) b.entries ne timely over))
