-- ===== src/Postgres/Auth/Once.antt =====
-- A device code is exchanged once.
use mathlib.Core.Option
use mcphub.Prelude.{
  ◌≡◌, refl, ap, ◌∙◌, ℕ, Bool, true, false, not, Option, none, some, List, [], ◌∷◌, Text, str,
  eqb_iff, Map, lookup, lookup-insert, lookup-change_at, lookup-map_values, change_at, is_some,
  arith, if_cases, filter,
}
use mcphub.Auth.Store.{TokenPair, Result, ok, err}
use mcphub.Postgres.{DeviceCodeRow, TokenRow, Database}
use mcphub.Postgres.Auth.{
  insert_new, create_device_code, created, approve_device_code, approve_row, exchange_device_code,
  exchanged, refresh_token, refreshed, revoke_token, set_token_groups, grouped, set_default,
  committed, can_exchange, can_refresh, owned, all_exist, has_token, insert_groups, consume,
  invalid,
}
use mcphub.Postgres.Auth.Calls.{
  Call, creates, approves, exchanges, refreshes, revokes, sets_groups, step, run,
}

-- The row is there, with a time of consumption.
unfoldable pub is_consumed : Option DeviceCodeRow → Bool
is_consumed none = false
is_consumed (some r) = is_some r.consumed_at

created-consumed :
    (h k : Text) (r : DeviceCodeRow) (d : Database)
    → is_consumed (lookup h d.device_codes) ≡ true
    → is_consumed (lookup h (created (insert_new k r d.device_codes) d).1.device_codes) ≡ true
unfolding is_consumed
created-consumed h k r d e = ground (arith, lookup-insert k h r d.device_codes, eqb_iff k h)

approve_row-consumed :
    (user : Text) (now : ℕ) (o : Option DeviceCodeRow)
    → is_consumed o ≡ true
    → is_consumed (Option.map (approve_row user now) o) ≡ true
unfolding is_consumed
approve_row-consumed user now none e = e
approve_row-consumed user now (some r) e = ground arith

module _ (hash : Text → Text) (random : ℕ → ℕ → Text) where
  exchanged-consumed :
      (h k : Text) (now : ℕ) (o : Option DeviceCodeRow) (d : Database)
      → is_consumed (lookup h d.device_codes) ≡ true
      → is_consumed (lookup h (exchanged hash random o k now d).1.device_codes) ≡ true
  unfolding is_consumed
  exchanged-consumed h k now none d e = e
  exchanged-consumed h k now (some r) d e =
      if_cases (λ (x : Result TokenPair × Database). is_consumed (lookup h x.1.device_codes) ≡ true)
        (not (can_exchange now r)) _ _ e (end _)
    where
      end :
          (tokens : Option (Map TokenRow))
          → is_consumed (
              lookup h
                (committed hash random now tokens d (record d {
                  device_codes = change_at k (consume now) d.device_codes;
                })).1.device_codes)
            ≡ true
      end none = e
      end (some m) = ground (arith, lookup-change_at k h (consume now) d.device_codes, eqb_iff k h)

  refreshed-device_codes :
      (k : Text) (now : ℕ) (o : Option TokenRow) (d : Database)
      → (refreshed hash random o k now d).1.device_codes ≡ d.device_codes
  refreshed-device_codes k now none d = refl
  refreshed-device_codes k now (some r) d =
      if_cases (λ (x : Result TokenPair × Database). x.1.device_codes ≡ d.device_codes)
        (not (can_refresh now r)) _ _ refl (end _)
    where
      end :
          (tokens : Option (Map TokenRow))
          → (committed hash random now tokens d d).1.device_codes ≡ d.device_codes
      end none = refl
      end (some m) = refl

  grouped-device_codes :
      (rows : _) (m : Map TokenRow) (d : Database)
      → ((grouped rows m d).1.device_codes ≡ d.device_codes)
  grouped-device_codes none m d = refl
  grouped-device_codes (some rows) m d = refl

  set_token_groups-device_codes :
      (tenant h : Text) (gs : List Text) (d : Database)
      → (set_token_groups tenant h gs d).1.device_codes ≡ d.device_codes
  unfolding set_token_groups
  set_token_groups-device_codes tenant h [] d = refl
  set_token_groups-device_codes tenant h (g ∷ gs) d =
      let P = λ (x : Option Text × Database). x.1.device_codes ≡ d.device_codes in
      if_cases P (not (owned tenant (lookup h d.auth_tokens))) (some invalid, d) _ refl
        (if_cases P (not (all_exist tenant (g ∷ gs) d)) (some (str "group_not_found"), d) _ refl
          (grouped-device_codes
            (insert_groups h tenant (g ∷ gs)
              (filter (λ r. not (has_token h tenant r)) d.token_groups))
            (change_at h (set_default tenant g) d.auth_tokens) d))

  step-consumed :
      (h : Text) (c : Call) (d : Database)
      → is_consumed (lookup h d.device_codes) ≡ true
      → is_consumed (lookup h (step hash random c d).device_codes) ≡ true
  unfolding step create_device_code approve_device_code exchange_device_code refresh_token
      revoke_token
  step-consumed h (creates i) d e =
      if_cases
        (λ (x : Result (Unit {0}) × Database). is_consumed (lookup h x.1.device_codes) ≡ true) _ _ _
        e (created-consumed h i.device_code_hash _ d e)
  step-consumed h (approves user now) d e =
      ap is_consumed (lookup-map_values (approve_row user now) h d.device_codes)
      ∙ approve_row-consumed user now (lookup h d.device_codes) e
  step-consumed h (exchanges k now) d e = exchanged-consumed h k now (lookup k d.device_codes) d e
  step-consumed h (refreshes k now) d e =
      ap (λ m. is_consumed (lookup h m)) (refreshed-device_codes k now (lookup k d.auth_tokens) d)
      ∙ e
  step-consumed h (revokes k now) d e = e
  step-consumed h (sets_groups tenant k gs) d e =
      ap (λ m. is_consumed (lookup h m)) (set_token_groups-device_codes tenant k gs d) ∙ e

  run-consumed :
      (h : Text) (cs : List Call) (d : Database)
      → is_consumed (lookup h d.device_codes) ≡ true
      → is_consumed (lookup h (run hash random cs d).device_codes) ≡ true
  unfolding run
  run-consumed h [] d e = e
  run-consumed h (c ∷ cs) d e = run-consumed h cs (step hash random c d) (step-consumed h c d e)

  -- An exchange that gives a pair consumes the code.
  consumed_lem :
      (h : Text) (now : ℕ) (d : Database) (p : TokenPair) (o : Option DeviceCodeRow)
      → lookup h d.device_codes ≡ o
      → (exchanged hash random o h now d).0 ≡ ok p
      → is_consumed (lookup h (exchanged hash random o h now d).1.device_codes) ≡ true
  unfolding is_consumed
  consumed_lem h now d p none found e = ground arith
  consumed_lem h now d p (some r) found e =
      if_cases
        (λ (x : Result TokenPair × Database).
          x.0 ≡ ok p → is_consumed (lookup h x.1.device_codes) ≡ true)
        (not (can_exchange now r)) _ _ (λ g. ground arith) (end _) e
    where
      end :
          (tokens : Option (Map TokenRow))
          → (committed hash random now tokens d
              (record d { device_codes = change_at h (consume now) d.device_codes })).0
            ≡ ok p
          → is_consumed (
              lookup h
                (committed hash random now tokens d (record d {
                  device_codes = change_at h (consume now) d.device_codes;
                })).1.device_codes)
            ≡ true
      end none e = ground arith
      end (some m) e =
          ground (arith, lookup-change_at h h (consume now) d.device_codes, eqb_iff h h)

  refused_lem :
      (h : Text) (now : ℕ) (d : Database) (o : Option DeviceCodeRow)
      → is_consumed o ≡ true
      → exchanged hash random o h now d ≡ (err invalid, d)
  unfolding is_consumed can_exchange
  refused_lem h now d none e = ground arith
  refused_lem h now d (some r) e = ground arith

  -- Once a device code was exchanged for a pair of tokens, whatever calls of the store follow, a
  -- further exchange of it is refused and changes nothing.
  pub exchange_once :
      (h : Text) (now later : ℕ) (p : TokenPair) (cs : List Call) (d : Database)
      → (exchange_device_code hash random h now d).0 ≡ ok p
      → let e = run hash random cs (exchange_device_code hash random h now d).1 in
        exchange_device_code hash random h later e ≡ (err invalid, e)
  unfolding exchange_device_code
  exchange_once h now later p cs d ok_p =
      refused_lem h later _ _
        (run-consumed h cs _ (consumed_lem h now d p (lookup h d.device_codes) refl ok_p))
