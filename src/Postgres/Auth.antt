-- ===== src/Postgres/Auth.antt =====
-- internal/store/postgres/auth.go: device codes, tokens and the groups of a token. `hash` is
-- hashToken and `random` gives the texts that randomToken draws.
pub mod Calls
pub mod Stages
pub mod Groups
pub mod Login
pub mod Once
pub mod Spent
use mcphub.Postgres.Rows.{reorder}
use mcphub.Prelude.{
  map, ℕ, suc, ◌+◌, ◌*◌, Bool, true, false, not, ◌&&◌, ◌||◌, Option, none, some, List, [], ◌∷◌,
  ◌++◌, Text, str, eqb, Map, lookup, insert, find, change_at, map_values, any, filter, is_some, ltb,
  if◌then◌else◌,
}
use mcphub.Auth.Store.{TokenPair, TokenIdentity, DeviceCodeInput, Result, ok, err, AuthStore}
use mcphub.Postgres.{DeviceCodeRow, TokenRow, TokenGroupRow, Database, violation}

abbrev pub invalid : Text
invalid = str "invalid or expired authorization"

abbrev pub hour : ℕ
hour = 3600000000000

abbrev pub month : ℕ
month = 30 * (24 * hour)

-- INSERT into a table with a primary key: none where the key is taken.
abbrev pub insert_new : {V : Type 0} → Text → V → Map V → Option (Map V)
insert_new k v m = if is_some (lookup k m) then none else some (insert k v m)

abbrev pub has_user_code : Text → Map DeviceCodeRow → Bool
has_user_code user m = any (λ (e : Text × DeviceCodeRow). eqb e.1.user_code_hash user) m

abbrev pub created : Option (Map DeviceCodeRow) → Database → Result (Unit {0}) × Database
created none d = (err violation, d)
created (some m) d = (ok tt, record d { device_codes = m })

unfoldable pub create_device_code : DeviceCodeInput → Database → Result (Unit {0}) × Database
create_device_code i d =
    if not (any (λ t. eqb t i.tenant_id) d.tenants) || has_user_code i.user_code_hash d.device_codes
    then (err violation, d)
    else created
        (insert_new i.device_code_hash
          (record {
            user_code_hash = i.user_code_hash;
            tenant_id = i.tenant_id;
            expires_at = i.expires_at;
            approved_at = none;
            consumed_at = none;
          })
          d.device_codes)
        d

-- The WHERE of ApproveDeviceCode.
unfoldable pub can_approve : Text → ℕ → DeviceCodeRow → Bool
can_approve user now r =
    eqb r.user_code_hash user && (not (is_some r.approved_at) && ltb now r.expires_at)

abbrev pub approve_row : Text → ℕ → DeviceCodeRow → DeviceCodeRow
approve_row user now r = if can_approve user now r then record r { approved_at = some now } else r

unfoldable pub approve_device_code : Text → ℕ → Database → Result (Unit {0}) × Database
unfolding can_approve
approve_device_code user now d = (
  if any (λ (e : Text × DeviceCodeRow). can_approve user now e.1) d.device_codes
      then ok tt
      else err invalid,
  record d { device_codes = map_values (approve_row user now) d.device_codes },
)

-- `expires.Before(at)`
abbrev pub is_past : ℕ → ℕ → Bool
is_past expires now = ltb expires now

abbrev pub new_token : Text → Text → Text → ℕ → TokenRow
new_token token_type tenant connect expires = record {
  token_type = token_type;
  tenant_id = tenant;
  connect_id = connect;
  expires_at = expires;
  revoked_at = none;
  replaced_by = none;
  default_group_id = str "default";
}

abbrev pub access_type : Text
access_type = str "access"

abbrev pub refresh_type : Text
refresh_type = str "refresh"

-- The INSERT of an access and a refresh token.
abbrev pub insert_second : Option (Map TokenRow) → Text → TokenRow → Option (Map TokenRow)
insert_second none h r = none
insert_second (some m) h r = insert_new h r m

unfoldable pub insert_pair : Text → Text → Text → Text → ℕ → Map TokenRow → Option (Map TokenRow)
insert_pair access refresh tenant connect now m =
    insert_second (insert_new access (new_token access_type tenant connect (now + hour)) m) refresh
      (new_token refresh_type tenant connect (now + month))

-- The test of ExchangeDeviceCode on the row that it selects.
unfoldable pub can_exchange : ℕ → DeviceCodeRow → Bool
can_exchange now r =
    is_some r.approved_at && (not (is_some r.consumed_at) && not (is_past r.expires_at now))

-- The test of RefreshToken, with the WHERE of its SELECT.
unfoldable pub can_refresh : ℕ → TokenRow → Bool
can_refresh now r =
    eqb r.token_type refresh_type && (not (is_some r.revoked_at) && not (is_past r.expires_at now))

abbrev pub coalesce : Option ℕ → ℕ → Option ℕ
coalesce none now = some now
coalesce (some t) now = some t

abbrev pub revoke_row : ℕ → TokenRow → TokenRow
revoke_row now r = record r { revoked_at = coalesce r.revoked_at now }

unfoldable pub revoke_token : Text → ℕ → Database → Result (Unit {0}) × Database
revoke_token h now d =
    (ok tt, record d { auth_tokens = change_at h (revoke_row now) d.auth_tokens })

abbrev pub group_ids : List TokenGroupRow → List Text
group_ids rs = map (λ (r : TokenGroupRow). r.group_id) rs

-- The rows of a SELECT without ORDER BY.
unfoldable pub selected : List TokenGroupRow → (List TokenGroupRow → List ℕ) → List TokenGroupRow
unfolding reorder
selected rs plan = reorder rs (plan rs)

abbrev pub has_token : Text → Text → TokenGroupRow → Bool
has_token h tenant r = eqb r.token_hash h && eqb r.tenant_id tenant

abbrev pub or_default : List Text → Text → List Text
or_default [] default_group = if eqb default_group [] then [] else default_group ∷ []
or_default (g ∷ gs) default_group = g ∷ gs

-- The test of ValidateAccessToken, with the WHERE of its SELECT.
unfoldable pub is_valid : ℕ → TokenRow → Bool
is_valid now r =
    eqb r.token_type access_type && (not (is_some r.revoked_at) && not (is_past r.expires_at now))

abbrev pub validated : Option TokenRow → Text → ℕ → Database → Result TokenIdentity
validated none h now d = err invalid
validated (some r) h now d =
    if is_valid now r
    then ok (record {
      tenant_id = r.tenant_id;
      connect_id = r.connect_id;
      default_group_id = r.default_group_id;
      allowed_group_ids =
          or_default (group_ids (selected (filter (has_token h r.tenant_id) d.token_groups) d.plan))
            r.default_group_id;
    })
    else err invalid

unfoldable pub validate_access_token : Text → ℕ → Database → Result TokenIdentity
unfolding is_valid selected
validate_access_token h now d = validated (lookup h d.auth_tokens) h now d

-- The loop of SetTokenGroups that looks each group up.
abbrev pub all_exist : Text → List Text → Database → Bool
all_exist tenant [] d = true
all_exist tenant (g ∷ gs) d = is_some (find tenant g d.tool_groups) && all_exist tenant gs d

-- The loop of INSERTs into token_groups, whose primary key is the whole row.
unfoldable pub insert_groups :
    Text → Text → List Text → List TokenGroupRow → Option (List TokenGroupRow)
insert_groups h tenant [] rows = some rows
insert_groups h tenant (g ∷ gs) rows =
    if any (λ r. has_token h tenant r && eqb r.group_id g) rows
    then none
    else insert_groups h tenant gs
        (rows ++ (record { token_hash = h; tenant_id = tenant; group_id = g } ∷ []))

abbrev pub set_default : Text → Text → TokenRow → TokenRow
set_default tenant g r = if eqb r.tenant_id tenant then record r { default_group_id = g } else r

abbrev pub owned : Text → Option TokenRow → Bool
owned tenant none = false
owned tenant (some r) = eqb r.tenant_id tenant

abbrev pub grouped : Option (List TokenGroupRow) → Map TokenRow → Database → Option Text × Database
grouped none tokens d = (some violation, d)
grouped (some rows) tokens d = (none, record d { auth_tokens = tokens; token_groups = rows })

unfoldable pub set_token_groups : Text → Text → List Text → Database → Option Text × Database
unfolding insert_groups
set_token_groups tenant h [] d = (some invalid, d)
set_token_groups tenant h (g ∷ gs) d =
    if not (owned tenant (lookup h d.auth_tokens))
    then (some invalid, d)
    else if not (all_exist tenant (g ∷ gs) d)
    then (some (str "group_not_found"), d)
    else grouped
        (insert_groups h tenant (g ∷ gs) (filter (λ r. not (has_token h tenant r)) d.token_groups))
        (change_at h (set_default tenant g) d.auth_tokens) d

abbrev pub owned_identity : Text → Result TokenIdentity → Result TokenIdentity
owned_identity tenant (err e) = err e
owned_identity tenant (ok id) = if eqb id.tenant_id tenant then ok id else err invalid

unfoldable pub get_token_groups : Text → Text → ℕ → Database → Result TokenIdentity
get_token_groups tenant h now d = owned_identity tenant (validate_access_token h now d)

abbrev pub consume : ℕ → DeviceCodeRow → DeviceCodeRow
consume now r = record r { consumed_at = some now }

abbrev pub replace_row : ℕ → Text → TokenRow → TokenRow
replace_row now by r = record r { revoked_at = some now; replaced_by = some by }

module _ (hash : Text → Text) (random : ℕ → ℕ → Text) where
  -- The two texts that are drawn, of 32 and of 40 random bytes.
  abbrev pub drawn_access : Database → Text
  drawn_access d = random 32 d.drawn

  abbrev pub drawn_refresh : Database → Text
  drawn_refresh d = random 40 (suc d.drawn)

  abbrev pub pair : ℕ → Database → TokenPair
  pair now d = record {
    access_token = drawn_access d;
    refresh_token = drawn_refresh d;
    access_expires_at = now + hour;
    refresh_expires_at = now + month;
  }

  -- The end of a transaction that inserts the pair: `e` has the other changes.
  abbrev pub committed :
      ℕ → Option (Map TokenRow) → Database → Database → Result TokenPair × Database
  committed now none d e = (err violation, record d { drawn = suc (suc d.drawn) })
  committed now (some tokens) d e =
      (ok (pair now d), record e { auth_tokens = tokens; drawn = suc (suc d.drawn) })

  abbrev pub exchanged : Option DeviceCodeRow → Text → ℕ → Database → Result TokenPair × Database
  exchanged none h now d = (err invalid, d)
  exchanged (some r) h now d =
      if not (can_exchange now r)
      then (err invalid, d)
      else committed now
          (insert_pair (hash (drawn_access d)) (hash (drawn_refresh d)) r.tenant_id [] now
            d.auth_tokens)
          d (record d { device_codes = change_at h (consume now) d.device_codes })

  unfoldable pub exchange_device_code : Text → ℕ → Database → Result TokenPair × Database
  unfolding can_exchange insert_pair
  exchange_device_code h now d = exchanged (lookup h d.device_codes) h now d

  abbrev pub refreshed : Option TokenRow → Text → ℕ → Database → Result TokenPair × Database
  refreshed none h now d = (err invalid, d)
  refreshed (some r) h now d =
      if not (can_refresh now r)
      then (err invalid, d)
      else committed now
          (insert_pair (hash (drawn_access d)) (hash (drawn_refresh d)) r.tenant_id r.connect_id now
            (change_at h (replace_row now (hash (drawn_refresh d))) d.auth_tokens))
          d d

  unfoldable pub refresh_token : Text → ℕ → Database → Result TokenPair × Database
  unfolding can_refresh insert_pair
  refresh_token h now d = refreshed (lookup h d.auth_tokens) h now d

  -- The store as the handlers of device login see it.
  unfoldable pub auth_store : AuthStore Database
  auth_store = record {
    create_device_code = create_device_code;
    approve_device_code = approve_device_code;
    exchange_device_code = exchange_device_code;
    refresh_token = refresh_token;
    revoke_token = revoke_token;
    validate_access_token = validate_access_token;
  }
