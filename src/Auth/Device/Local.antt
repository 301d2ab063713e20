-- ===== src/Auth/Device/Local.antt =====
-- The handlers in memory mode (no backend), on a POST request.
use mcphub.Prelude.{
  ℕ, ◌≡◌, ◌≢◌, refl, true, none, [], Text, str, eqb, eqb_iff, lookup, insert, ◌∷◌, ◌++◌,
  if◌then◌else◌, arith,
}
use mcphub.Auth.Device.Entries.{
  can_refresh, renew, has_token, revoke_entry, grants, can_approve, approve_entry, changed_or_same,
  change_first, new_entry,
}
use mcphub.Auth.Device.Loops.{holds}
use mcphub.Auth.Device.Handlers.{
  DeviceAuth, respond, revoked, device_code, oauth_backend, validate_backend, revoke_backend,
  token_backend, approve_backend, code_create, refreshed, approve_found, token_entry, code, token,
  oauth_token, revoke, validate, approve,
}

module _ {S : Type 0} (hash : Text → Text) (a : DeviceAuth S) (local : a.backend ≡ none) where
  pub oauth_token_local :
      (refresh access : Text) (now : ℕ)
      → oauth_token hash (str "POST") true (str "refresh_token") refresh access now a
        ≡ refreshed (change_first (can_refresh refresh now) (renew access now) a.entries) a
  unfolding oauth_token eqb
  oauth_token_local refresh access now = rw (local, oauth_backend)

  pub validate_local :
      (t : Text) (now : ℕ) → t ≢ [] → validate hash t now a ≡ holds (grants t now) a.entries
  unfolding validate
  validate_local t now ne = rw (local, validate_backend) (ground (arith, eqb_iff t []))

  pub revoke_local :
      (t : Text) (now : ℕ)
      → revoke hash (str "POST") t now a ≡ (
        respond 200 revoked,
        record a {
          entries = changed_or_same (change_first (has_token t) revoke_entry a.entries) a.entries;
        },
      )
  unfolding revoke eqb
  revoke_local t now = rw (local, revoke_backend)

  pub token_local :
      (device access refresh : Text) (now : ℕ)
      → token hash (str "POST") device access refresh now a
        ≡ token_entry (lookup device a.entries) device access refresh now a
  unfolding token eqb
  token_local device access refresh now = rw (local, token_backend)

  pub approve_local :
      (form json : Text) (now : ℕ)
      → let user = if eqb form [] then json else form in
        approve hash (str "POST") form json now a
        ≡ approve_found (change_first (can_approve user now) approve_entry a.entries) a
  unfolding approve eqb
  approve_local form json now = rw (local, approve_backend)

  pub approve_form :
      (form json : Text) (now : ℕ)
      → form ≢ []
      → approve hash (str "POST") form json now a
        ≡ approve_found (change_first (can_approve form now) approve_entry a.entries) a
  unfolding eqb
  approve_form [] json now ne = absurd (ne refl)
  approve_form (c ∷ form) json now ne = approve_local (c ∷ form) json now

  pub code_local :
      (tenant device user : Text) (now : ℕ)
      → code hash (str "POST") tenant device user now a ≡ (
          let e = new_entry device user now in
          (
            respond 200 (
                device_code device e.user_code
                  (a.public_url ++ (str "/device?code=" ++ e.user_code))),
            record a { entries = insert device e a.entries },
          ))
  unfolding code eqb new_entry
  code_local tenant device user now = rw (local, code_create)
