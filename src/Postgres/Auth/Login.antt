-- ===== src/Postgres/Auth/Login.antt =====
-- Device login over PostgreSQL, from the creation of a code to a valid access token.
use mcphub.Prelude.{
  ◌≡◌, ◌≢◌, ◌≤◌, ◌<◌, refl, ◌∙◌, ℕ, suc, ◌+◌, ◌*◌, true, false, none, some, [], Text, str, eqb,
  eqb_refl, lookup, insert, lookup-insert_self, lookup-insert_ne, map_values, arith, any, to_upper,
}
use mcphub.Auth.Store.{ok}
use mcphub.Auth.Device.Handlers.{
  DeviceAuth, respond, tokens, approved, code, approve, token, validate, or_demo,
}
use mcphub.Auth.Device.Entries.{minute, new_entry}
use mcphub.Postgres.{Database}
use mcphub.Postgres.Auth.{
  has_user_code, approve_device_code, approve_row, can_approve, can_exchange, consume, pair,
  new_token, access_type, refresh_type, hour, month, auth_store, drawn_access, drawn_refresh,
}
use mcphub.Postgres.Auth.Stages.{
  new_row, insert_pair-fresh, approve_lem, exchange_lem, validate_new, code_lem, approve_stored_lem,
  token_stored_lem, validate_stored_lem, seconds_hour,
}

module _ (hash : Text → Text) (random : ℕ → ℕ → Text) where
  -- The whole login over PostgreSQL. A device asks for a code at `start`; before ten minutes are over
  -- somebody approves its user code, typed exactly as it was shown; the device then polls before the
  -- ten minutes are over, gets the access and refresh token that were drawn, and the Gateway accepts
  -- the access token for an hour. The tenant is known, the hashes of the codes and of the drawn
  -- tokens are new and the latter differ, and no store of revocations is configured.
  pub login_stored :
      (a : DeviceAuth Database) (tenant device user form json access refresh : Text)
      (start approval poll later : ℕ)
      → a.backend ≡ some (auth_store hash random)
      → a.revocation ≡ none
      → any (λ t. eqb t (or_demo tenant)) a.stores.tenants ≡ true
      → lookup (hash device) a.stores.device_codes ≡ none
      → has_user_code (hash (to_upper user)) a.stores.device_codes ≡ false
      → lookup (hash (drawn_access hash random a.stores)) a.stores.auth_tokens ≡ none
      → lookup (hash (drawn_refresh hash random a.stores)) a.stores.auth_tokens ≡ none
      → hash (drawn_access hash random a.stores) ≢ hash (drawn_refresh hash random a.stores)
      → drawn_access hash random a.stores ≢ []
      → form ≢ []
      → form ≡ to_upper user
      → approval < start + 10 * minute
      → poll ≤ start + 10 * minute
      → later ≤ poll + hour
      → let a1 = (code hash (str "POST") tenant device user start a).1 in
        let (r2, a2) = approve hash (str "POST") form json approval a1 in
        let (r3, a3) = token hash (str "POST") device access refresh poll a2 in
        (r2 ≡ respond 200 approved)
        × (r3
            ≡ respond 200 (
                tokens
                  (drawn_access hash random a.stores)
                  (drawn_refresh hash random a.stores)
                  3600))
        × (validate hash (drawn_access hash random a.stores) later a3 ≡ true)
  login_stored a tenant device user form json access refresh start approval poll later stored local
        known new others na nr ne some_access ne_form same in_time in_time' in_hour =
      let d = a.stores in
      let by = hash (to_upper user) in
      let row = new_row by (or_demo tenant) start in
      let row1 = record row { approved_at = some approval } in
      let t = drawn_access hash random d in
      let t' = drawn_refresh hash random d in
      let tokens1 =
        insert (hash t') (new_token refresh_type (or_demo tenant) [] (poll + month)) (
          insert (hash t) (new_token access_type (or_demo tenant) [] (poll + hour))
            d.auth_tokens) in
      let d1 = record d { device_codes = insert (hash device) row d.device_codes } in
      let d2 = record d1 { device_codes = map_values (approve_row by approval) d1.device_codes } in
      let d3 = record d2 {
        device_codes = insert (hash device) (consume poll row1) d2.device_codes;
        auth_tokens = tokens1;
        drawn = suc (suc d.drawn);
      } in
      let a1 = record a {
        entries = insert device (new_entry device user start) a.entries;
        stores = d1;
      } in
      let a2 = record a1 { stores = d2 } in
      let a3 = record a2 { stores = d3 } in
      let can : can_approve by approval row ≡ true =
        unfold can_approve in ground (arith, eqb_refl by) in
      let done =
        approve_lem (hash device) approval row d1
          (lookup-insert_self (hash device) row d.device_codes) can in
      let can' : can_exchange poll row1 ≡ true = unfold can_exchange in ground arith in
      let fresh =
        insert_pair-fresh (hash t) (hash t') (or_demo tenant) [] poll d.auth_tokens na nr ne in
      let pair_ok = exchange_lem hash random (hash device) poll row1 tokens1 d2 done.1 can' fresh in
      let there : lookup (hash t) tokens1
          ≡ some (new_token access_type (or_demo tenant) [] (poll + hour)) =
        lookup-insert_ne (hash t') (hash t)
          (new_token refresh_type (or_demo tenant) [] (poll + month)) _ ne
        ∙ lookup-insert_self (hash t) (new_token access_type (or_demo tenant) [] (poll + hour))
            d.auth_tokens in
      let typed : approve_device_code (hash form) approval d1 ≡ (ok tt, d2) = rw same done.0 in
      rw
        (
          code_lem hash random a tenant device user start stored known new others,
          approve_stored_lem hash random a1 form json approval d2 stored ne_form typed,
          token_stored_lem hash random a2 device access refresh poll (pair hash random poll d2) d3
              stored pair_ok,
          seconds_hour hash random poll,
        )
        (
          refl,
          refl,
          validate_stored_lem hash random a3 t later stored local some_access
              (validate_new hash random (hash t) (or_demo tenant) poll later d3 there in_hour),
        )
