-- ===== src/Auth/Device/Handlers.antt =====
-- The handlers of device login, with the branch to the stores where they are configured.
use mcphub.Prelude.{
  ℕ, ◌-◌, ◌/◌, Bool, true, false, not, ◌||◌, Option, none, some, [], ◌++◌, Text, str, eqb, Map,
  lookup, insert, any, ltb, if◌then◌else◌,
}
use mcphub.Auth.Store.{AuthStore, RevocationStore, TokenPair, Result, ok, err}
use mcphub.Auth.Device.Entries.{
  DeviceEntry, hour, new_entry, issue, can_refresh, renew, has_token, revoke_entry, grants,
  can_approve, approve_entry, changed_or_same, change_first,
}

-- `device_code device user uri` and `tokens access refresh` also carry the fixed fields
-- expires_in 600 and interval 5, and token_type Bearer.
pub data Body : Type 0 where
  empty : Body
  device_code : Text → Text → Text → Body
  tokens : Text → Text → ℕ → Body
  error : Text → Body
  revoked approved : Body

pub record Response : Type 0 where
  pub status : ℕ
  pub body : Body

abbrev pub respond : ℕ → Body → Response
respond status body = record { status = status; body = body }

-- `int(time.Until(t).Seconds())`, for a time `t` that is not past.
abbrev pub seconds_until : ℕ → ℕ → ℕ
seconds_until t now = (t - now) / 1000000000

abbrev pub pair_body : TokenPair → ℕ → Body
pair_body p now = tokens p.access_token p.refresh_token (seconds_until p.access_expires_at now)

abbrev pub is_post : Text → Bool
is_post method = eqb method (str "POST")

pub record DeviceAuth (S : Type 0) : Type 0 where
  pub entries : Map DeviceEntry
  pub public_url : Text
  pub backend : Option (AuthStore S)
  pub revocation : Option (RevocationStore S)
  pub stores : S

abbrev pub or_demo : Text → Text
or_demo tenant = if eqb tenant [] then str "demo" else tenant

abbrev pub is_ok : {A : Type 0} → Result A → Bool
is_ok (ok a) = true
is_ok (err x) = false

module _ {S : Type 0} where
  -- `code`: the handler of /api/auth/device/code, with the two random texts.
  abbrev pub code_stored :
      Text → DeviceEntry → Result (Unit {0}) × S → DeviceAuth S → Response × DeviceAuth S
  code_stored uri e (err x, s) a =
      (respond 500 (error (str "storage_error")), record a { stores = s })
  code_stored uri e (ok _, s) a = (
    respond 200 (device_code e.device_code e.user_code uri),
    record a { stores = s; entries = insert e.device_code e a.entries },
  )

  abbrev pub code_create :
      Option (AuthStore S) → (Text → Text) → Text → DeviceEntry → S → Result (Unit {0}) × S
  code_create none hash tenant e s = (ok tt, s)
  code_create (some b) hash tenant e s =
      b.create_device_code
        (record {
          device_code_hash = hash e.device_code;
          user_code_hash = hash e.user_code;
          tenant_id = or_demo tenant;
          expires_at = e.expires_at;
        })
        s

  unfoldable pub code :
      (Text → Text) → Text → Text → Text → Text → ℕ → DeviceAuth S → Response × DeviceAuth S
  unfolding new_entry
  code hash method tenant device user now a =
      if not (is_post method)
      then (respond 405 empty, a)
      else let e = new_entry device user now in
        code_stored (a.public_url ++ (str "/device?code=" ++ e.user_code)) e
          (code_create a.backend hash tenant e a.stores) a

  -- `token`: the handler of /api/auth/device/token, which the device polls.
  abbrev pub token_stored : Result TokenPair × S → ℕ → DeviceAuth S → Response × DeviceAuth S
  token_stored (err x, s) now a = (respond 400 (error x), record a { stores = s })
  token_stored (ok p, s) now a = (respond 200 (pair_body p now), record a { stores = s })

  abbrev pub handed : Text → DeviceEntry → DeviceAuth S → Response × DeviceAuth S
  handed device e a = (
    respond 200 (tokens e.access_token e.refresh_token 3600),
    record a { entries = insert device e a.entries },
  )

  abbrev pub token_entry :
      Option DeviceEntry → Text → Text → Text → ℕ → DeviceAuth S → Response × DeviceAuth S
  token_entry none device access refresh now a = (respond 400 (error (str "expired_token")), a)
  token_entry (some e) device access refresh now a =
      if ltb e.expires_at now || e.revoked
      then (respond 400 (error (str "expired_token")), a)
      else if not e.approved
      then (respond 428 (error (str "authorization_pending")), a)
      else handed device (issue access refresh now e) a

  abbrev pub token_backend :
      Option (AuthStore S)
      → (Text → Text)
      → Text
      → Text
      → Text
      → ℕ
      → DeviceAuth S
      → Response × DeviceAuth S
  token_backend (some b) hash device access refresh now a =
      token_stored (b.exchange_device_code (hash device) now a.stores) now a
  token_backend none hash device access refresh now a =
      token_entry (lookup device a.entries) device access refresh now a

  unfoldable pub token :
      (Text → Text) → Text → Text → Text → Text → ℕ → DeviceAuth S → Response × DeviceAuth S
  unfolding issue
  token hash method device access refresh now a =
      if not (is_post method)
      then (respond 405 empty, a)
      else token_backend a.backend hash device access refresh now a

  -- `oauthToken`: the handler of /api/auth/token. `parsed` says whether the form was read.
  abbrev pub refreshed :
      Option (DeviceEntry × Map DeviceEntry) → DeviceAuth S → Response × DeviceAuth S
  refreshed none a = (respond 400 (error (str "invalid_grant")), a)
  refreshed (some (e, m)) a =
      (respond 200 (tokens e.access_token e.refresh_token 3600), record a { entries = m })

  abbrev pub oauth_backend :
      Option (AuthStore S)
      → (Text → Text)
      → Text
      → Text
      → ℕ
      → DeviceAuth S
      → Response × DeviceAuth S
  oauth_backend (some b) hash refresh access now a =
      token_stored (b.refresh_token (hash refresh) now a.stores) now a
  oauth_backend none hash refresh access now a =
      refreshed (change_first (can_refresh refresh now) (renew access now) a.entries) a

  unfoldable pub oauth_token :
      (Text → Text) → Text → Bool → Text → Text → Text → ℕ → DeviceAuth S → Response × DeviceAuth S
  oauth_token hash method parsed grant_type refresh access now a =
      if not (is_post method)
      then (respond 405 empty, a)
      else if not parsed
      then (respond 400 (error (str "invalid_request")), a)
      else if not (eqb grant_type (str "refresh_token"))
      then (respond 400 (error (str "unsupported_grant_type")), a)
      else oauth_backend a.backend hash refresh access now a

  -- `revoke`: the handler of /api/auth/revoke. The errors of the stores are dropped.
  abbrev pub mark : Option (RevocationStore S) → Text → S → S
  mark none h s = s
  mark (some r) h s = (r.mark_token_revoked h hour s).1

  abbrev pub revoke_backend :
      Option (AuthStore S) → (Text → Text) → Text → ℕ → DeviceAuth S → DeviceAuth S
  revoke_backend (some b) hash t now a = record a {
    stores = mark a.revocation (hash t) (b.revoke_token (hash t) now a.stores).1;
  }
  revoke_backend none hash t now a = record a {
    entries = changed_or_same (change_first (has_token t) revoke_entry a.entries) a.entries;
  }

  unfoldable pub revoke : (Text → Text) → Text → Text → ℕ → DeviceAuth S → Response × DeviceAuth S
  revoke hash method t now a =
      if not (is_post method)
      then (respond 405 empty, a)
      else (respond 200 revoked, revoke_backend a.backend hash t now a)

  -- `Validate`.
  abbrev pub marked_revoked : Option (RevocationStore S) → Text → S → Bool
  marked_revoked none h s = false
  marked_revoked (some r) h s = elim (r.token_revoked h s) [ ok b ↦ b | err x ↦ false ]

  abbrev pub validate_backend :
      Option (AuthStore S) → (Text → Text) → Text → ℕ → DeviceAuth S → Bool
  validate_backend (some b) hash t now a =
      if marked_revoked a.revocation (hash t) a.stores
      then false
      else is_ok (b.validate_access_token (hash t) now a.stores)
  validate_backend none hash t now a = any (λ (x : Text × DeviceEntry). grants t now x.1) a.entries

  unfoldable pub validate : (Text → Text) → Text → ℕ → DeviceAuth S → Bool
  validate hash t now a = if eqb t [] then false else validate_backend a.backend hash t now a

  -- `approve`: the handler of /api/auth/device/approve, with the code of the form or, where that
  -- is empty, of the JSON body.
  abbrev pub approve_stored : Result (Unit {0}) × S → DeviceAuth S → Response × DeviceAuth S
  approve_stored (err x, s) a =
      (respond 404 (error (str "invalid_user_code")), record a { stores = s })
  approve_stored (ok _, s) a = (respond 200 approved, record a { stores = s })

  abbrev pub approve_found :
      Option (DeviceEntry × Map DeviceEntry) → DeviceAuth S → Response × DeviceAuth S
  approve_found none a = (respond 404 (error (str "invalid_user_code")), a)
  approve_found (some (_, m)) a = (respond 200 approved, record a { entries = m })

  abbrev pub approve_backend :
      Option (AuthStore S) → (Text → Text) → Text → ℕ → DeviceAuth S → Response × DeviceAuth S
  approve_backend (some b) hash c now a =
      approve_stored (b.approve_device_code (hash c) now a.stores) a
  approve_backend none hash c now a =
      approve_found (change_first (can_approve c now) approve_entry a.entries) a

  unfoldable pub approve :
      (Text → Text) → Text → Text → Text → ℕ → DeviceAuth S → Response × DeviceAuth S
  approve hash method form_code json_code now a =
      if not (is_post method)
      then (respond 405 empty, a)
      else approve_backend a.backend hash (if eqb form_code [] then json_code else form_code) now a
