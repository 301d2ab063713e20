-- ===== src/Auth/Device/Entries.antt =====
-- The in-memory table of device logins: its entries, and the loops over it.
use mcphub.Prelude.{
  ℕ, ◌+◌, ◌*◌, Bool, true, false, not, ◌&&◌, ◌||◌, Option, none, some, [], ◌∷◌, Text, eqb, to_upper,
  Map, ltb, if◌then◌else◌,
}

pub record DeviceEntry : Type 0 where
  pub device_code : Text
  pub user_code : Text
  pub expires_at : ℕ
  pub approved : Bool
  pub access_token : Text
  pub token_expires_at : ℕ
  pub refresh_token : Text
  pub revoked : Bool

abbrev pub minute : ℕ
minute = 60000000000

abbrev pub hour : ℕ
hour = 60 * minute

unfoldable pub new_entry : Text → Text → ℕ → DeviceEntry
new_entry device user now = record {
  device_code = device;
  user_code = to_upper user;
  expires_at = now + 10 * minute;
  approved = false;
  access_token = [];
  token_expires_at = 0;
  refresh_token = [];
  revoked = false;
}

-- The part of `token` that fills in the tokens of an approved entry, where they are empty.
unfoldable pub issue : Text → Text → ℕ → DeviceEntry → DeviceEntry
issue access refresh now e =
    let e' =
      if eqb e.access_token []
      then record e { access_token = access; token_expires_at = now + hour }
      else e in
    if eqb e'.refresh_token [] then record e' { refresh_token = refresh } else e'

-- The test of the loop in `oauthToken`.
unfoldable pub can_refresh : Text → ℕ → DeviceEntry → Bool
can_refresh refresh now e = eqb e.refresh_token refresh && (not e.revoked && ltb now e.expires_at)

abbrev pub renew : Text → ℕ → DeviceEntry → DeviceEntry
renew access now e = record e { access_token = access; token_expires_at = now + hour }

-- The test of the loop in `revoke`.
unfoldable pub has_token : Text → DeviceEntry → Bool
has_token token e = eqb e.access_token token || eqb e.refresh_token token

abbrev pub revoke_entry : DeviceEntry → DeviceEntry
revoke_entry e = record e { revoked = true }

-- The test of the loop in `Validate`.
unfoldable pub grants : Text → ℕ → DeviceEntry → Bool
grants token now e = eqb e.access_token token && (not e.revoked && ltb now e.token_expires_at)

-- The test of the loop in `approve`.
unfoldable pub can_approve : Text → ℕ → DeviceEntry → Bool
can_approve code now e = eqb e.user_code (to_upper code) && (ltb now e.expires_at && not e.revoked)

abbrev pub approve_entry : DeviceEntry → DeviceEntry
approve_entry e = record e { approved = true }

-- The rest of a loop's result behind an entry that it passed by.
abbrev pub passed :
    Text
    → DeviceEntry
    → Option (DeviceEntry × Map DeviceEntry)
    → Option (DeviceEntry × Map DeviceEntry)
passed k e none = none
passed k e (some (x, m)) = some (x, (k, e) ∷ m)

-- The table that such a loop leaves.
abbrev pub changed_or_same :
    Option (DeviceEntry × Map DeviceEntry) → Map DeviceEntry → Map DeviceEntry
changed_or_same none m = m
changed_or_same (some (_, m')) m = m'

-- A loop over the table that changes the first entry that passes a test and stops there: the
-- entry as changed, and the table.
unfoldable pub change_first :
    (DeviceEntry → Bool)
    → (DeviceEntry → DeviceEntry)
    → Map DeviceEntry
    → Option (DeviceEntry × Map DeviceEntry)
change_first p f [] = none
change_first p f ((k, e) ∷ m) =
    let rest = change_first p f m in if p e then some (f e, (k, f e) ∷ m) else passed k e rest
