-- ===== src/Postgres/Auth/Groups.antt =====
-- The groups of a token: what is set is read again, and what a refresh leaves of it.
use mathlib.Core.List.{Perm}
use mathlib.Core.List.Perm
use mcphub.Postgres.Rows.{reorder, reorder-Perm}
use mcphub.Prelude.{
  ◌≡◌, ◌≢◌, ◌≤◌, refl, sym, ap, subst, ◌∙◌, ℕ, suc, ◌+◌, Bool, true, false, not, Option, none, some,
  List, [], ◌∷◌, ◌++◌, map, append-nil, append_assoc, Text, str, eqb, eqb_iff, eqb_refl, Map,
  lookup, lookup-insert, lookup-change_at, change_at, arith, if_cases, Bool-cases, inl, inr, filter,
  ltb,
}
use mcphub.Auth.Store.{TokenPair, Result, ok, err}
use mcphub.Postgres.{TokenRow, TokenGroupRow, Database}
use mcphub.Postgres.Auth.{
  insert_groups, has_token, group_ids, selected, or_default, set_token_groups, grouped, set_default,
  owned, all_exist, validate_access_token, is_valid, invalid, refresh_token, refreshed, can_refresh,
  committed, insert_pair, insert_second, replace_row, new_token, access_type, refresh_type, hour,
  month, drawn_access, drawn_refresh, get_token_groups,
}

abbrev pub row_of : Text → Text → Text → TokenGroupRow
row_of h tenant g = record { token_hash = h; tenant_id = tenant; group_id = g }

-- The loop of INSERTs appends a row for each group.
insert_groups_lem :
    (h tenant : Text) (gs : List Text) (rows out : List TokenGroupRow)
    → insert_groups h tenant gs rows ≡ some out
    → out ≡ rows ++ map (row_of h tenant) gs
unfolding insert_groups
insert_groups_lem h tenant [] rows out done = ground (arith, append-nil rows)
insert_groups_lem h tenant (g ∷ gs) rows out done =
    let rest : insert_groups h tenant gs (rows ++ (row_of h tenant g ∷ [])) ≡ some out =
      ground arith in
    insert_groups_lem h tenant gs (rows ++ (row_of h tenant g ∷ [])) out rest
    ∙ append_assoc rows (row_of h tenant g ∷ []) (map (row_of h tenant) gs)

filter-append :
    (p : TokenGroupRow → Bool) (xs ys : List TokenGroupRow)
    → filter p (xs ++ ys) ≡ filter p xs ++ filter p ys
filter-append p [] ys = refl
filter-append p (x ∷ xs) ys = ground (arith, filter-append p xs ys)

filter_not_lem :
    (p : TokenGroupRow → Bool) (xs : List TokenGroupRow)
    → filter p (filter (λ r. not (p r)) xs) ≡ []
filter_not_lem p [] = refl
filter_not_lem p (x ∷ xs) = elim (Bool-cases (p x)) [
  | inl e ↦ rw e (filter_not_lem p xs)
  | inr e ↦ rw (e, e) (filter_not_lem p xs)
]

filter-rows :
    (h tenant : Text) (gs : List Text)
    → filter (has_token h tenant) (map (row_of h tenant) gs) ≡ map (row_of h tenant) gs
filter-rows h tenant [] = refl
filter-rows h tenant (g ∷ gs) = ground (arith, eqb_refl h, eqb_refl tenant, filter-rows h tenant gs)

group_ids-rows : (h tenant : Text) (gs : List Text) → group_ids (map (row_of h tenant) gs) ≡ gs
group_ids-rows h tenant [] = refl
group_ids-rows h tenant (g ∷ gs) = ap (λ xs. g ∷ xs) (group_ids-rows h tenant gs)

-- The rows of the token after its groups were replaced.
set_rows :
    (h tenant : Text) (gs : List Text) (rows out : List TokenGroupRow)
    → insert_groups h tenant gs (filter (λ r. not (has_token h tenant r)) rows) ≡ some out
    → group_ids (filter (has_token h tenant) out) ≡ gs
set_rows h tenant gs rows out done =
    rw
      (
        insert_groups_lem h tenant gs _ out done,
        filter-append (has_token h tenant) (filter (λ r. not (has_token h tenant r)) rows)
            (map (row_of h tenant) gs),
        filter_not_lem (has_token h tenant) rows,
        filter-rows h tenant gs,
      )
      (group_ids-rows h tenant gs)

-- What a call that sets groups leaves, where it succeeds.
set_token_groups_lem :
    (tenant h g : Text) (gs : List Text) (r : TokenRow) (d : Database)
    → lookup h d.auth_tokens ≡ some r
    → (set_token_groups tenant h (g ∷ gs) d).0 ≡ none
    → let e = (set_token_groups tenant h (g ∷ gs) d).1 in
      (r.tenant_id ≡ tenant)
      × (lookup h e.auth_tokens ≡ some (record r { default_group_id = g }))
      × (group_ids (filter (has_token h tenant) e.token_groups) ≡ g ∷ gs)
unfolding set_token_groups
set_token_groups_lem tenant h g gs r d found = elim (Bool-cases (eqb r.tenant_id tenant)) [
  | inl same ↦
      if_cases P (not (owned tenant (lookup h d.auth_tokens))) (some invalid, d) _
        (λ e. ground arith)
        (if_cases P (not (all_exist tenant (g ∷ gs) d)) (some (str "group_not_found"), d) _
          (λ e. ground arith)
          (at (ground (arith, eqb_iff r.tenant_id tenant))
            (insert_groups h tenant (g ∷ gs)
              (filter (λ r. not (has_token h tenant r)) d.token_groups))
            refl))
  | inr other ↦ λ e. absurd (foreign other e)
]
  where
    P : Option Text × Database → Type 0
    P = λ x.
        x.0 ≡ none
        → (r.tenant_id ≡ tenant)
          × (lookup h x.1.auth_tokens ≡ some (record r { default_group_id = g }))
          × (group_ids (filter (has_token h tenant) x.1.token_groups) ≡ g ∷ gs)

    foreign : eqb r.tenant_id tenant ≡ false → (set_token_groups tenant h (g ∷ gs) d).0 ≢ none
    foreign other e = ground arith

    at :
        r.tenant_id ≡ tenant
        → (o : Option (List TokenGroupRow))
        → insert_groups h tenant (g ∷ gs) (filter (λ r. not (has_token h tenant r)) d.token_groups)
          ≡ o
        → P (grouped o (change_at h (set_default tenant g) d.auth_tokens) d)
    at same none eq e = ground arith
    at same (some out) eq e = (
      same,
      ground (
        arith,
        lookup-change_at h h (set_default tenant g) d.auth_tokens,
        eqb_refl h,
        eqb_iff r.tenant_id tenant,
      ),
      set_rows h tenant (g ∷ gs) d.token_groups out eq,
    )

or_default-Perm : (d g : Text) (xs gs : List Text) → Perm xs (g ∷ gs) → or_default xs d ≡ xs
or_default-Perm d g [] gs p = ground (arith, Perm.nil-eq p)
or_default-Perm d g (x ∷ xs) gs p = refl

-- The groups of the rows that a SELECT gives are those of the rows, in some order.
selected_groups :
    (rs : List TokenGroupRow) (plan : List TokenGroupRow → List ℕ)
    → Perm (group_ids (selected rs plan)) (group_ids rs)
unfolding selected
selected_groups rs plan = Perm.map (λ (r : TokenGroupRow). r.group_id) (reorder-Perm rs (plan rs))

-- When the groups of a valid access token are set and that succeeds, asking for its groups gives the
-- first of them as the default and the given groups, in some order, as the allowed ones.
pub get_token_groups-set_token_groups :
    (tenant h g : Text) (gs : List Text) (now : ℕ) (r : TokenRow) (d : Database)
    → lookup h d.auth_tokens ≡ some r
    → is_valid now r ≡ true
    → (set_token_groups tenant h (g ∷ gs) d).0 ≡ none
    → (allowed : List Text) × (get_token_groups tenant h now
          (set_token_groups tenant h (g ∷ gs) d).1
        ≡ ok (record {
          tenant_id = tenant;
          connect_id = r.connect_id;
          default_group_id = g;
          allowed_group_ids = allowed;
        }))
      × Perm allowed (g ∷ gs)
unfolding get_token_groups validate_access_token is_valid
get_token_groups-set_token_groups tenant h g gs now r d found valid done =
    let after = set_token_groups_lem tenant h g gs r d found done in
    let e = (set_token_groups tenant h (g ∷ gs) d).1 in
    let allowed = group_ids (selected (filter (has_token h tenant) e.token_groups) e.plan) in
    let same : Perm allowed (g ∷ gs) =
      subst (Perm allowed) after.2
        (selected_groups (filter (has_token h tenant) e.token_groups) e.plan) in
    (
      allowed,
      (rw (after.1, valid, after.0, eqb_refl tenant, or_default-Perm g g allowed gs same) refl),
      same,
    )

-- No rows of a token, so its default group is all that it is allowed.
validated_default :
    (h tenant connect : Text) (now later : ℕ) (d : Database)
    → lookup h d.auth_tokens ≡ some (new_token access_type tenant connect (now + hour))
    → filter (has_token h tenant) d.token_groups ≡ []
    → later ≤ now + hour
    → validate_access_token h later d
      ≡ ok (record {
        tenant_id = tenant;
        connect_id = connect;
        default_group_id = str "default";
        allowed_group_ids = str "default" ∷ [];
      })
unfolding validate_access_token is_valid eqb selected reorder
validated_default h tenant connect now later d found none_of in_time =
    let fresh : ltb (now + hour) later ≡ false = ground arith in rw (found, fresh, none_of) refl

-- The new access token is in the table.
insert_second-found :
    (access refresh : Text) (t v : TokenRow) (o : Option (Map TokenRow)) (n : Map TokenRow)
    → ((m : Map TokenRow) → o ≡ some m → lookup access m ≡ some t)
    → access ≢ refresh
    → insert_second o refresh v ≡ some n
    → lookup access n ≡ some t
insert_second-found access refresh t v none n there ne done = ground arith
insert_second-found access refresh t v (some m) n there ne done =
    ground (arith, lookup-insert refresh access v m, eqb_iff refresh access, there m refl)

insert_pair-found :
    (access refresh tenant connect : Text) (now : ℕ) (m n : Map TokenRow)
    → access ≢ refresh
    → insert_pair access refresh tenant connect now m ≡ some n
    → lookup access n ≡ some (new_token access_type tenant connect (now + hour))
unfolding insert_pair
insert_pair-found access refresh tenant connect now m n ne done =
    let t = new_token access_type tenant connect (now + hour) in
    insert_second-found access refresh t (new_token refresh_type tenant connect (now + month)) _ n
      (λ x e. ground (arith, lookup-insert access access t m, eqb_refl access)) ne done

module _ (hash : Text → Text) (random : ℕ → ℕ → Text) where
  -- A refresh that gives a pair gives an access token that is allowed the default group alone, whatever
  -- groups the tokens before it had. The drawn access token is new: no token and no group row has its
  -- hash, and the drawn refresh token has another one.
  pub refresh_groups :
      (h : Text) (now later : ℕ) (r : TokenRow) (p : TokenPair) (d : Database)
      → lookup h d.auth_tokens ≡ some r
      → (refresh_token hash random h now d).0 ≡ ok p
      → hash (drawn_access hash random d) ≢ hash (drawn_refresh hash random d)
      → filter (has_token (hash (drawn_access hash random d)) r.tenant_id) d.token_groups ≡ []
      → later ≤ now + hour
      → validate_access_token (hash p.access_token) later (refresh_token hash random h now d).1
        ≡ ok (record {
          tenant_id = r.tenant_id;
          connect_id = r.connect_id;
          default_group_id = str "default";
          allowed_group_ids = str "default" ∷ [];
        })
  unfolding refresh_token
  refresh_groups h now later r p d found done ne none_of in_time =
      subst (λ o. P (refreshed hash random o h now d)) (sym found)
        (if_cases P (not (can_refresh now r)) (err invalid, d)
          (committed hash random now (insert_pair access refresh r.tenant_id r.connect_id now m) d
            d)
          (λ e. ground arith) (at (insert_pair access refresh r.tenant_id r.connect_id now m) refl))
        done
    where
      access : Text
      access = hash (drawn_access hash random d)

      refresh : Text
      refresh = hash (drawn_refresh hash random d)

      m : Map TokenRow
      m = change_at h (replace_row now refresh) d.auth_tokens

      P : Result TokenPair × Database → Type 0
      P = λ x.
          x.0 ≡ ok p
          → validate_access_token (hash p.access_token) later x.1
            ≡ ok (record {
              tenant_id = r.tenant_id;
              connect_id = r.connect_id;
              default_group_id = str "default";
              allowed_group_ids = str "default" ∷ [];
            })

      at :
          (o : Option (Map TokenRow))
          → insert_pair access refresh r.tenant_id r.connect_id now m ≡ o
          → P (committed hash random now o d d)
      at none eq e = ground arith
      at (some n) eq e =
          let same : drawn_access hash random d ≡ p.access_token = ground arith in
          let after = record d { auth_tokens = n; drawn = suc (suc d.drawn) } in
          ap (λ t. validate_access_token (hash t) later after) (sym same)
          ∙ validated_default access r.tenant_id r.connect_id now later after
              (insert_pair-found access refresh r.tenant_id r.connect_id now m n ne eq) none_of
              in_time
