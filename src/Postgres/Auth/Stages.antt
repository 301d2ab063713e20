-- ===== src/Postgres/Auth/Stages.antt =====
-- The stages of device login over PostgreSQL: each method of the store, and each handler on it, where
-- it succeeds.
use mcphub.Prelude.{
  ◌≡◌, ◌≢◌, ◌≤◌, refl, ◌∙◌, ℕ, suc, ◌+◌, ◌*◌, Bool, true, false, none, some, [], ◌∷◌, ◌++◌, Text,
  str, eqb, eqb_iff, eqb_refl, Map, lookup, insert, lookup-insert, lookup-map_values, map_values,
  arith, Bool-cases, inl, inr, any, ltb, to_upper,
}
use mcphub.Auth.Store.{TokenPair, DeviceCodeInput, ok}
use mcphub.Auth.Device.Handlers.{
  DeviceAuth, respond, device_code, approved, code, approve, token, validate, or_demo, is_ok,
  pair_body, seconds_until,
}
use mcphub.Auth.Device.Entries.{minute, new_entry}
use mcphub.Postgres.{TokenRow, DeviceCodeRow, Database}
use mcphub.Postgres.Auth.{
  insert_pair, create_device_code, has_user_code, approve_device_code, approve_row, can_approve,
  exchange_device_code, can_exchange, consume, pair, validate_access_token, is_valid, new_token,
  access_type, refresh_type, hour, month, auth_store, drawn_access, drawn_refresh,
}

-- A table with a row that passes a test.
any-found :
    {V : Type 0} (p : Text × V → Bool) (k : Text) (v : V) (m : Map V)
    → lookup k m ≡ some v
    → p (k, v) ≡ true
    → any p m ≡ true
unfolding lookup
any-found p k v [] found pass = ground arith
any-found p k v ((j, w) ∷ m) found pass = elim (Bool-cases (eqb j k)) [
  | inl e ↦
      let same : w ≡ v = ground arith in
      let key : j ≡ k = ground (arith, eqb_iff j k) in rw (same, key, pass) refl
  | inr e ↦ ground (arith, any-found p k v m)
]

-- A row that was just made, in the tables.
abbrev pub new_row : Text → Text → ℕ → DeviceCodeRow
new_row user tenant start = record {
  user_code_hash = user;
  tenant_id = tenant;
  expires_at = start + 10 * minute;
  approved_at = none;
  consumed_at = none;
}

pub insert_pair-fresh :
    (access refresh tenant connect : Text) (now : ℕ) (m : Map TokenRow)
    → lookup access m ≡ none
    → lookup refresh m ≡ none
    → access ≢ refresh
    → insert_pair access refresh tenant connect now m
      ≡ some (
          insert refresh
            (new_token refresh_type tenant connect (now + month))
            (insert access (new_token access_type tenant connect (now + hour)) m))
unfolding insert_pair
insert_pair-fresh access refresh tenant connect now m na nr ne = ground (
  arith,
  lookup-insert access refresh (new_token access_type tenant connect (now + hour)) m,
  eqb_iff access refresh,
)

create_lem :
    (i : DeviceCodeInput) (d : Database)
    → any (λ t. eqb t i.tenant_id) d.tenants ≡ true
    → has_user_code i.user_code_hash d.device_codes ≡ false
    → lookup i.device_code_hash d.device_codes ≡ none
    → create_device_code i d ≡ (
      ok tt,
      record d {
        device_codes =
            insert i.device_code_hash
              (record {
                user_code_hash = i.user_code_hash;
                tenant_id = i.tenant_id;
                expires_at = i.expires_at;
                approved_at = none;
                consumed_at = none;
              })
              d.device_codes;
      },
    )
unfolding create_device_code
create_lem i d known others fresh = rw (known, others, fresh) refl

pub approve_lem :
    (h : Text) (now : ℕ) (r : DeviceCodeRow) (d : Database)
    → lookup h d.device_codes ≡ some r
    → can_approve r.user_code_hash now r ≡ true
    → (approve_device_code r.user_code_hash now d ≡ (
      ok tt,
      record d { device_codes = map_values (approve_row r.user_code_hash now) d.device_codes },
    ))
      × (lookup h (map_values (approve_row r.user_code_hash now) d.device_codes)
          ≡ some (record r { approved_at = some now }))
unfolding approve_device_code
approve_lem h now r d found can = (
  rw
      (any-found (λ (e : Text × DeviceCodeRow). can_approve r.user_code_hash now e.1) h r
        d.device_codes found can)
      refl,
  lookup-map_values (approve_row r.user_code_hash now) h d.device_codes ∙ rw (found, can) refl,
)

module _ (hash : Text → Text) (random : ℕ → ℕ → Text) where
  pub exchange_lem :
      (h : Text) (now : ℕ) (r : DeviceCodeRow) (m : Map TokenRow) (d : Database)
      → lookup h d.device_codes ≡ some r
      → can_exchange now r ≡ true
      → insert_pair
          (hash (drawn_access hash random d))
          (hash (drawn_refresh hash random d))
          r.tenant_id
          []
          now
          d.auth_tokens
        ≡ some m
      → exchange_device_code hash random h now d ≡ (
        ok (pair hash random now d),
        record d {
          device_codes = insert h (consume now r) d.device_codes;
          auth_tokens = m;
          drawn = suc (suc d.drawn);
        },
      )
  unfolding exchange_device_code
  exchange_lem h now r m d found can new = rw (found, can, new, found) refl

  -- A new access token in the table is valid for an hour, in the default group.
  pub validate_new :
      (h tenant : Text) (now later : ℕ) (d : Database)
      → lookup h d.auth_tokens ≡ some (new_token access_type tenant [] (now + hour))
      → later ≤ now + hour
      → is_ok (validate_access_token h later d) ≡ true
  unfolding validate_access_token is_valid
  validate_new h tenant now later d found in_time =
      let fresh : ltb (now + hour) later ≡ false = ground arith in
      rw (found, eqb_refl access_type, fresh) refl

  pub code_lem :
      (a : DeviceAuth Database) (tenant device user : Text) (start : ℕ)
      → a.backend ≡ some (auth_store hash random)
      → any (λ t. eqb t (or_demo tenant)) a.stores.tenants ≡ true
      → lookup (hash device) a.stores.device_codes ≡ none
      → has_user_code (hash (to_upper user)) a.stores.device_codes ≡ false
      → code hash (str "POST") tenant device user start a ≡ (
        respond 200 (
            device_code device
              (to_upper user)
              (a.public_url ++ (str "/device?code=" ++ to_upper user))),
        record a {
          entries = insert device (new_entry device user start) a.entries;
          stores = record (a.stores) {
            device_codes =
                insert
                  (hash device)
                  (new_row (hash (to_upper user)) (or_demo tenant) start)
                  a.stores.device_codes;
          };
        },
      )
  unfolding code auth_store new_entry eqb
  code_lem a tenant device user start stored known new others =
      rw
        (
          stored,
          create_lem
              (record {
                device_code_hash = hash device;
                user_code_hash = hash (to_upper user);
                tenant_id = or_demo tenant;
                expires_at = start + 10 * minute;
              })
              a.stores known others new,
        )
        refl

  pub approve_stored_lem :
      (a : DeviceAuth Database) (form json : Text) (now : ℕ) (d : Database)
      → a.backend ≡ some (auth_store hash random)
      → form ≢ []
      → approve_device_code (hash form) now a.stores ≡ (ok tt, d)
      → approve hash (str "POST") form json now a ≡ (respond 200 approved, record a { stores = d })
  unfolding approve auth_store eqb
  approve_stored_lem a form json now d stored ne done =
      let full : eqb form [] ≡ false = ground (arith, eqb_iff form []) in
      rw (full, stored, done) refl

  pub token_stored_lem :
      (a : DeviceAuth Database) (device access refresh : Text) (now : ℕ) (p : TokenPair)
      (d : Database)
      → a.backend ≡ some (auth_store hash random)
      → exchange_device_code hash random (hash device) now a.stores ≡ (ok p, d)
      → token hash (str "POST") device access refresh now a
        ≡ (respond 200 (pair_body p now), record a { stores = d })
  unfolding token auth_store eqb
  token_stored_lem a device access refresh now p d stored done = rw (stored, done) refl

  pub validate_stored_lem :
      (a : DeviceAuth Database) (t : Text) (now : ℕ)
      → a.backend ≡ some (auth_store hash random)
      → a.revocation ≡ none
      → t ≢ []
      → is_ok (validate_access_token (hash t) now a.stores) ≡ true
      → validate hash t now a ≡ true
  unfolding validate auth_store
  validate_stored_lem a t now stored local ne valid =
      let full : eqb t [] ≡ false = ground (arith, eqb_iff t []) in
      rw (full, stored, local, valid) refl

  pub seconds_hour : (now : ℕ) → seconds_until (now + hour) now ≡ 3600
  seconds_hour now = omega arith
