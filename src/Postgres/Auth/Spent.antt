-- ===== src/Postgres/Auth/Spent.antt =====
-- A refresh token is used once, and a revoked token stays revoked.
use mcphub.Prelude.{
  ◌≡◌, refl, ap, ◌∙◌, ℕ, ◌+◌, Bool, true, false, not, Option, none, some, List, [], ◌∷◌, Text, str,
  eqb_iff, Map, lookup, lookup-insert, lookup-change_at, change_at, is_some, arith, if_cases,
  filter,
}
use mcphub.Auth.Store.{TokenPair, Result, ok, err}
use mcphub.Postgres.{TokenRow, TokenGroupRow, DeviceCodeRow, Database}
use mcphub.Postgres.Auth.{
  insert_new, insert_second, insert_pair, create_device_code, created, approve_device_code,
  exchange_device_code, exchanged, refresh_token, refreshed, revoke_token, revoke_row,
  set_token_groups, grouped, set_default, committed, can_exchange, can_refresh, owned, all_exist,
  has_token, insert_groups, consume, replace_row, invalid, validate_access_token, validated,
  is_valid, drawn_access, drawn_refresh, new_token, access_type, refresh_type, hour, month,
}
use mcphub.Postgres.Auth.Calls.{
  Call, creates, approves, exchanges, refreshes, revokes, sets_groups, step, run,
}

-- The row is there, with a time of revocation.
unfoldable pub is_revoked : Option TokenRow → Bool
is_revoked none = false
is_revoked (some r) = is_some r.revoked_at

insert_new-keeps :
    {V : Type 0} (k j : Text) (v w : V) (m m' : Map V)
    → insert_new k v m ≡ some m'
    → lookup j m ≡ some w
    → lookup j m' ≡ some w
insert_new-keeps k j v w m m' e found = ground (arith, lookup-insert k j v m, eqb_iff k j)

insert_new-revoked :
    (k j : Text) (v : TokenRow) (m m' : Map TokenRow)
    → insert_new k v m ≡ some m'
    → is_revoked (lookup j m) ≡ true
    → is_revoked (lookup j m') ≡ true
unfolding is_revoked
insert_new-revoked k j v m m' e is = ground (arith, lookup-insert k j v m, eqb_iff k j)

insert_second-revoked :
    (k j : Text) (v : TokenRow) (o : Option (Map TokenRow)) (m' : Map TokenRow)
    → insert_second o k v ≡ some m'
    → ((m : Map TokenRow) → o ≡ some m → is_revoked (lookup j m) ≡ true)
    → is_revoked (lookup j m') ≡ true
insert_second-revoked k j v none m' e is = ground arith
insert_second-revoked k j v (some m) m' e is = insert_new-revoked k j v m m' e (is m refl)

-- New tokens leave the revoked ones alone.
insert_pair-revoked :
    (access refresh tenant connect j : Text) (now : ℕ) (m m' : Map TokenRow)
    → insert_pair access refresh tenant connect now m ≡ some m'
    → is_revoked (lookup j m) ≡ true
    → is_revoked (lookup j m') ≡ true
unfolding insert_pair
insert_pair-revoked access refresh tenant connect j now m m' e is =
    insert_second-revoked refresh j (new_token refresh_type tenant connect (now + month)) _ m' e
      (λ n f.
        insert_new-revoked access j (new_token access_type tenant connect (now + hour)) m n f is)

revoke_row-revoked :
    (k j : Text) (now : ℕ) (m : Map TokenRow)
    → is_revoked (lookup j m) ≡ true
    → is_revoked (lookup j (change_at k (revoke_row now) m)) ≡ true
unfolding is_revoked
revoke_row-revoked k j now m is =
    ground (arith, lookup-change_at k j (revoke_row now) m, eqb_iff k j)

replace_row-revoked :
    (k j by : Text) (now : ℕ) (m : Map TokenRow)
    → is_revoked (lookup j m) ≡ true
    → is_revoked (lookup j (change_at k (replace_row now by) m)) ≡ true
unfolding is_revoked
replace_row-revoked k j by now m is =
    ground (arith, lookup-change_at k j (replace_row now by) m, eqb_iff k j)

set_default-revoked :
    (k j tenant g : Text) (m : Map TokenRow)
    → is_revoked (lookup j m) ≡ true
    → is_revoked (lookup j (change_at k (set_default tenant g) m)) ≡ true
unfolding is_revoked
set_default-revoked k j tenant g m is =
    ground (arith, lookup-change_at k j (set_default tenant g) m, eqb_iff k j)

grouped-revoked :
    (j : Text) (rows : Option (List TokenGroupRow)) (m : Map TokenRow) (d : Database)
    → is_revoked (lookup j d.auth_tokens) ≡ true
    → is_revoked (lookup j m) ≡ true
    → is_revoked (lookup j (grouped rows m d).1.auth_tokens) ≡ true
grouped-revoked j none m d is is_m = is
grouped-revoked j (some rows) m d is is_m = is_m

set_token_groups-revoked :
    (j tenant h : Text) (gs : List Text) (d : Database)
    → is_revoked (lookup j d.auth_tokens) ≡ true
    → is_revoked (lookup j (set_token_groups tenant h gs d).1.auth_tokens) ≡ true
unfolding set_token_groups
set_token_groups-revoked j tenant h [] d is = is
set_token_groups-revoked j tenant h (g ∷ gs) d is =
    let P = λ (x : Option Text × Database). is_revoked (lookup j x.1.auth_tokens) ≡ true in
    if_cases P (not (owned tenant (lookup h d.auth_tokens))) (some invalid, d) _ is
      (if_cases P (not (all_exist tenant (g ∷ gs) d)) (some (str "group_not_found"), d) _ is
        (grouped-revoked j
          (insert_groups h tenant (g ∷ gs)
            (filter (λ r. not (has_token h tenant r)) d.token_groups))
          (change_at h (set_default tenant g) d.auth_tokens) d is
          (set_default-revoked h j tenant g d.auth_tokens is)))

created-auth_tokens :
    (m : Option (Map DeviceCodeRow)) (d : Database) → (created m d).1.auth_tokens ≡ d.auth_tokens
created-auth_tokens none d = refl
created-auth_tokens (some m) d = refl

revoked_lem :
    (h : Text) (now : ℕ) (r : TokenRow) (d : Database)
    → lookup h d.auth_tokens ≡ some r
    → is_revoked (lookup h (revoke_token h now d).1.auth_tokens) ≡ true
unfolding is_revoked revoke_token
revoked_lem h now r d found =
    ground (arith, lookup-change_at h h (revoke_row now) d.auth_tokens, eqb_iff h h)

module _ (hash : Text → Text) (random : ℕ → ℕ → Text) where
  committed-revoked :
      (j : Text) (now : ℕ) (o : Option (Map TokenRow)) (d e : Database)
      → is_revoked (lookup j d.auth_tokens) ≡ true
      → ((m : Map TokenRow) → o ≡ some m → is_revoked (lookup j m) ≡ true)
      → is_revoked (lookup j (committed hash random now o d e).1.auth_tokens) ≡ true
  committed-revoked j now none d e is after = is
  committed-revoked j now (some m) d e is after = after m refl

  -- So does the end of a transaction that inserts the drawn pair.
  paired-revoked :
      (j tenant connect : Text) (now : ℕ) (m : Map TokenRow) (d e : Database)
      → is_revoked (lookup j d.auth_tokens) ≡ true
      → is_revoked (lookup j m) ≡ true
      → is_revoked (
          lookup j
            (committed hash random now
              (insert_pair
                (hash (drawn_access hash random d))
                (hash (drawn_refresh hash random d))
                tenant
                connect
                now
                m)
              d
              e).1.auth_tokens)
        ≡ true
  paired-revoked j tenant connect now m d e is is_m =
      let access = hash (drawn_access hash random d) in
      let refresh = hash (drawn_refresh hash random d) in
      committed-revoked j now (insert_pair access refresh tenant connect now m) d e is
        (λ n eq. insert_pair-revoked access refresh tenant connect j now m n eq is_m)

  exchanged-revoked :
      (j k : Text) (now : ℕ) (o : Option DeviceCodeRow) (d : Database)
      → is_revoked (lookup j d.auth_tokens) ≡ true
      → is_revoked (lookup j (exchanged hash random o k now d).1.auth_tokens) ≡ true
  exchanged-revoked j k now none d is = is
  exchanged-revoked j k now (some r) d is =
      if_cases (λ (x : Result TokenPair × Database). is_revoked (lookup j x.1.auth_tokens) ≡ true)
        (not (can_exchange now r)) (err invalid, d)
        (committed hash random now
          (insert_pair (hash (drawn_access hash random d)) (hash (drawn_refresh hash random d))
            r.tenant_id [] now d.auth_tokens)
          d (record d { device_codes = change_at k (consume now) d.device_codes }))
        is
        (paired-revoked j r.tenant_id [] now d.auth_tokens d
          (record d { device_codes = change_at k (consume now) d.device_codes }) is is)

  refreshed-revoked :
      (j k : Text) (now : ℕ) (o : Option TokenRow) (d : Database)
      → is_revoked (lookup j d.auth_tokens) ≡ true
      → is_revoked (lookup j (refreshed hash random o k now d).1.auth_tokens) ≡ true
  refreshed-revoked j k now none d is = is
  refreshed-revoked j k now (some r) d is =
      if_cases (λ (x : Result TokenPair × Database). is_revoked (lookup j x.1.auth_tokens) ≡ true)
        (not (can_refresh now r)) (err invalid, d)
        (committed hash random now
          (insert_pair (hash (drawn_access hash random d)) (hash (drawn_refresh hash random d))
            r.tenant_id r.connect_id now
            (change_at k (replace_row now (hash (drawn_refresh hash random d))) d.auth_tokens))
          d d)
        is
        (paired-revoked j r.tenant_id r.connect_id now
          (change_at k (replace_row now (hash (drawn_refresh hash random d))) d.auth_tokens) d d is
          (replace_row-revoked k j (hash (drawn_refresh hash random d)) now d.auth_tokens is))

  step-revoked :
      (j : Text) (c : Call) (d : Database)
      → is_revoked (lookup j d.auth_tokens) ≡ true
      → is_revoked (lookup j (step hash random c d).auth_tokens) ≡ true
  unfolding step create_device_code approve_device_code exchange_device_code refresh_token
      revoke_token
  step-revoked j (creates i) d is =
      if_cases (λ (x : Result (Unit {0}) × Database). is_revoked (lookup j x.1.auth_tokens) ≡ true)
        _ _ _ is (ap (λ m. is_revoked (lookup j m)) (created-auth_tokens _ d) ∙ is)
  step-revoked j (approves user now) d is = is
  step-revoked j (exchanges k now) d is = exchanged-revoked j k now (lookup k d.device_codes) d is
  step-revoked j (refreshes k now) d is = refreshed-revoked j k now (lookup k d.auth_tokens) d is
  step-revoked j (revokes k now) d is = revoke_row-revoked k j now d.auth_tokens is
  step-revoked j (sets_groups tenant k gs) d is = set_token_groups-revoked j tenant k gs d is

  run-revoked :
      (j : Text) (cs : List Call) (d : Database)
      → is_revoked (lookup j d.auth_tokens) ≡ true
      → is_revoked (lookup j (run hash random cs d).auth_tokens) ≡ true
  unfolding run
  run-revoked j [] d is = is
  run-revoked j (c ∷ cs) d is = run-revoked j cs (step hash random c d) (step-revoked j c d is)

  -- A refresh that gives a pair revokes the token that was used.
  spent_lem :
      (h : Text) (now : ℕ) (d : Database) (p : TokenPair) (o : Option TokenRow)
      → lookup h d.auth_tokens ≡ o
      → (refreshed hash random o h now d).0 ≡ ok p
      → is_revoked (lookup h (refreshed hash random o h now d).1.auth_tokens) ≡ true
  unfolding is_revoked
  spent_lem h now d p none found e = ground arith
  spent_lem h now d p (some r) found e =
      if_cases
        (λ (x : Result TokenPair × Database).
          x.0 ≡ ok p → is_revoked (lookup h x.1.auth_tokens) ≡ true)
        (not (can_refresh now r)) _ _ (λ g. ground arith) (λ g. end _ replaced g) e
    where
      by : Text
      by = hash (drawn_refresh hash random d)

      replaced : is_revoked (lookup h (change_at h (replace_row now by) d.auth_tokens)) ≡ true
      replaced =
          ground (arith, lookup-change_at h h (replace_row now by) d.auth_tokens, eqb_iff h h)

      end :
          (m : Map TokenRow)
          → is_revoked (lookup h m) ≡ true
          → let tokens =
              insert_pair (hash (drawn_access hash random d)) by r.tenant_id r.connect_id now m in
            (committed hash random now tokens d d).0 ≡ ok p
            → is_revoked (lookup h (committed hash random now tokens d d).1.auth_tokens) ≡ true
      end m is g = at _ refl g
        where
          at :
              (o : Option (Map TokenRow))
              → insert_pair (hash (drawn_access hash random d)) by r.tenant_id r.connect_id now m
                ≡ o
              → (committed hash random now o d d).0 ≡ ok p
              → is_revoked (lookup h (committed hash random now o d d).1.auth_tokens) ≡ true
          at none eq f = ground arith
          at (some n) eq f = insert_pair-revoked _ _ r.tenant_id r.connect_id h now m n eq is

  refresh-refused :
      (h : Text) (now : ℕ) (d : Database) (o : Option TokenRow)
      → is_revoked o ≡ true
      → refreshed hash random o h now d ≡ (err invalid, d)
  unfolding is_revoked can_refresh
  refresh-refused h now d none e = ground arith
  refresh-refused h now d (some r) e = ground arith

  -- Once a refresh token was used to get a pair of tokens, whatever calls of the store follow, a
  -- further use of it is refused and changes nothing.
  pub refresh_once :
      (h : Text) (now later : ℕ) (p : TokenPair) (cs : List Call) (d : Database)
      → (refresh_token hash random h now d).0 ≡ ok p
      → let e = run hash random cs (refresh_token hash random h now d).1 in
        refresh_token hash random h later e ≡ (err invalid, e)
  unfolding refresh_token
  refresh_once h now later p cs d ok_p =
      refresh-refused h later _ _
        (run-revoked h cs _ (spent_lem h now d p (lookup h d.auth_tokens) refl ok_p))

  validate-refused :
      (h : Text) (now : ℕ) (d : Database) (o : Option TokenRow)
      → is_revoked o ≡ true
      → validated o h now d ≡ err invalid
  unfolding is_revoked is_valid
  validate-refused h now d none e = ground arith
  validate-refused h now d (some r) e = ground arith

  -- A token that is known and revoked is, whatever calls of the store follow, neither a valid access
  -- token nor good for a refresh, and a refresh with it changes nothing.
  pub revoke_final :
      (h : Text) (now later : ℕ) (r : TokenRow) (cs : List Call) (d : Database)
      → lookup h d.auth_tokens ≡ some r
      → let e = run hash random cs (revoke_token h now d).1 in
        (refresh_token hash random h later e ≡ (err invalid, e))
        × (validate_access_token h later e ≡ err invalid)
  unfolding refresh_token validate_access_token
  revoke_final h now later r cs d found = (
    refresh-refused h later after (lookup h after.auth_tokens) kept,
    validate-refused h later after (lookup h after.auth_tokens) kept,
  )
    where
      after : Database
      after = run hash random cs (revoke_token h now d).1

      kept : is_revoked (lookup h after.auth_tokens) ≡ true
      kept = run-revoked h cs (revoke_token h now d).1 (revoked_lem h now r d found)
