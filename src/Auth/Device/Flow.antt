-- ===== src/Auth/Device/Flow.antt =====
-- The login flow: who gets tokens from the device endpoint, and the way from code to token.
use mcphub.Prelude.{
  ℕ, ◌+◌, ◌*◌, ◌≤◌, ◌<◌, ◌≡◌, ◌≢◌, refl, ap, ◌∙◌, ◌↔◌, true, false, Option, none, some, [], Text,
  str, eqb, eqb_iff, eqb_refl, to_upper, lookup, insert, lookup-insert_self, arith,
}
use mcphub.Auth.Device.Entries.{
  DeviceEntry, minute, hour, new_entry, issue, can_approve, approve_entry, grants,
}
use mcphub.Auth.Device.Loops.{holds, holds-insert, change_first-insert}
use mcphub.Auth.Device.Local.{token_local, validate_local, approve_form, code_local}
use mcphub.Auth.Device.Handlers.{
  DeviceAuth, tokens, Response, respond, token_entry, approve_found, approved, code, approve, token,
  validate,
}

-- A login that the device endpoint hands tokens for.
abbrev pub IsReady : ℕ → DeviceEntry → Type 0
IsReady now e = (now ≤ e.expires_at) × (e.revoked ≡ false) × (e.approved ≡ true)

IsReady-cases :
    (o : Option DeviceEntry) (device access refresh : Text) (now : ℕ) {S : Type 0}
    (a : DeviceAuth S)
    → ((token_entry o device access refresh now a).0.status ≡ 200)
      ↔ ((e : DeviceEntry) × (o ≡ some e) × IsReady now e)
IsReady-cases none device access refresh now a = ((λ h. absurd (omega arith)), (λ p. cc (p.1)))
IsReady-cases (some e) device access refresh now a =
    ((λ h. (e, refl, ground arith)), (λ p. ground (arith, p.1, p.2)))

-- In memory mode the device endpoint answers 200 exactly for a known device code whose login was
-- approved, is not revoked and has not expired.
pub token_ok_iff :
    {S : Type 0} (hash : Text → Text) (a : DeviceAuth S) (device access refresh : Text) (now : ℕ)
    → a.backend ≡ none
    → ((token hash (str "POST") device access refresh now a).0.status ≡ 200)
      ↔ ((e : DeviceEntry) × (lookup device a.entries ≡ some e) × IsReady now e)
token_ok_iff hash a device access refresh now local =
    rw (token_local hash a local)
      (IsReady-cases (lookup device a.entries) device access refresh now a)

pub token_ready :
    {S : Type 0} (hash : Text → Text) (a : DeviceAuth S) (device access refresh : Text) (now : ℕ)
    (e : DeviceEntry)
    → a.backend ≡ none
    → lookup device a.entries ≡ some e
    → IsReady now e
    → let e' = issue access refresh now e in
      token hash (str "POST") device access refresh now a ≡ (
        respond 200 (tokens e'.access_token e'.refresh_token 3600),
        record a { entries = insert device e' a.entries },
      )
token_ready hash a device access refresh now e local found ready =
    rw (token_local hash a local, found) (ground arith)

issue-IsReady :
    (access refresh : Text) (now later : ℕ) (e : DeviceEntry)
    → IsReady later e
    → IsReady later (issue access refresh now e)
unfolding issue
issue-IsReady access refresh now later e h = ground arith

issue-issue :
    (access refresh access' refresh' : Text) (now later : ℕ) (e : DeviceEntry)
    → access ≢ []
    → refresh ≢ []
    → issue access' refresh' later (issue access refresh now e) ≡ issue access refresh now e
unfolding issue
issue-issue access refresh access' refresh' now later e ne ne' =
    ground (arith, eqb_iff access [], eqb_iff refresh [])

-- In memory mode a device that polls again for a login that is still good gets the same tokens.
pub token-token :
    {S : Type 0} (hash : Text → Text) (a : DeviceAuth S)
    (device access refresh access' refresh' : Text) (now later : ℕ) (e : DeviceEntry)
    → a.backend ≡ none
    → lookup device a.entries ≡ some e
    → IsReady later e
    → now ≤ later
    → access ≢ []
    → refresh ≢ []
    → let (r, a') = token hash (str "POST") device access refresh now a in
      (token hash (str "POST") device access' refresh' later a').0 ≡ r
token-token hash a device access refresh access' refresh' now later e local found ready order ne
      ne' =
    let e' = issue access refresh now e in
    let ready' : IsReady now e = (omega (arith, ready.0), ready.1, ready.2) in
    rw (token_ready hash a device access refresh now e local found ready') (
      ap (λ (x : Response × DeviceAuth _). x.0)
        (token_ready hash (record a { entries = insert device e' a.entries }) device access'
          refresh' later e' local (lookup-insert_self device e' a.entries)
          (issue-IsReady access refresh now later e ready))
      ∙ ap (λ (x : DeviceEntry). respond 200 (tokens x.access_token x.refresh_token 3600))
          (issue-issue access refresh access' refresh' now later e ne ne'))

pub new_can_approve :
    (device user form : Text) (now later : ℕ)
    → to_upper form ≡ to_upper user
    → later < now + 10 * minute
    → can_approve form later (new_entry device user now) ≡ true
unfolding can_approve new_entry
new_can_approve device user form now later same before =
    ground (arith, eqb_iff (to_upper user) (to_upper form))

pub issued_grants :
    (device user access refresh : Text) (start now later : ℕ)
    → access ≢ []
    → later < now + hour
    → let e' = issue access refresh now (approve_entry (new_entry device user start)) in
      (grants access later e' ≡ true) × (e'.access_token ≡ access) × (e'.refresh_token ≡ refresh)
unfolding issue new_entry grants eqb
issued_grants device user access refresh start now later ne before = ground (arith, eqb_refl access)

-- The whole login in memory mode. A device asks for a code at `start`; before ten minutes are over
-- somebody approves its user code, in whatever case it is typed; the device then polls before the
-- ten minutes are over, gets its access and refresh token, and the Gateway accepts the access
-- token for an hour. The device code is new, and no other open login has the user code.
pub login :
    {S : Type 0} (hash : Text → Text) (a : DeviceAuth S)
    (tenant device user form json access refresh : Text) (start approval poll later : ℕ)
    → a.backend ≡ none
    → lookup device a.entries ≡ none
    → holds (can_approve form approval) a.entries ≡ false
    → form ≢ []
    → to_upper form ≡ to_upper user
    → access ≢ []
    → approval < start + 10 * minute
    → poll ≤ start + 10 * minute
    → later < poll + hour
    → let a1 = (code hash (str "POST") tenant device user start a).1 in
      let (r2, a2) = approve hash (str "POST") form json approval a1 in
      let (r3, a3) = token hash (str "POST") device access refresh poll a2 in
      (r2 ≡ respond 200 approved)
      × (r3 ≡ respond 200 (tokens access refresh 3600))
      × (validate hash access later a3 ≡ true)
login hash a tenant device user form json access refresh start approval poll later local new others
      ne same ne' in_time in_time' in_hour =
    let e = new_entry device user start in
    let e1 = approve_entry e in
    let e2 = issue access refresh poll e1 in
    let a1 = record a { entries = insert device e a.entries } in
    let a2 = record a { entries = insert device e1 a.entries } in
    let a3 = record a2 { entries = insert device e2 a2.entries } in
    let ready : IsReady poll e1 = unfold new_entry in (in_time', refl, refl) in
    let granted = issued_grants device user access refresh start poll later ne' in_hour in
    rw (code_local hash a local) (
      rw
        (
          approve_form hash a1 local form json approval ne,
          change_first-insert (can_approve form approval) approve_entry device e a.entries others
              new (new_can_approve device user form start approval same in_time),
          approve_found,
        )
        (rw
          (token_ready hash a2 device access refresh poll e1 local
            (lookup-insert_self device e1 a.entries) ready)
          (
            refl,
            cc (granted.1, granted.2),
            validate_local hash a3 local access later ne'
                ∙ holds-insert (grants access later) device e2 a2.entries granted.0,
          )))
