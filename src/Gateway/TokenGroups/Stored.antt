-- ===== src/Gateway/TokenGroups/Stored.antt =====
-- The admin routes for the groups of a token, over PostgreSQL.
use mathlib.Core.List.{Perm}
use mcphub.Prelude.{
  ◌≡◌, ◌≢◌, ◌⊎◌, inl, inr, Any, Any-map, any, any-true, false, Bool-cases, eqb_iff, subst, refl,
  sym, ap, ◌∙◌, ℕ, true, Option, none, some, List, [], ◌∷◌, Text, str, eqb, lookup, split,
  trim_byte, trim_prefix, arith,
}
use mcphub.Auth.Store.{GroupStore}
use mcphub.Postgres.{Database, TokenRow}
use mcphub.Postgres.Auth.{set_token_groups, get_token_groups, is_valid}
use mcphub.Postgres.Auth.Groups.{get_token_groups-set_token_groups}
use mcphub.Gateway.TokenGroups.{
  Groups, Reply, groups, no_content, put_groups, put, got, demo_if_empty, handle_token_groups,
}

unfoldable pub group_store : GroupStore Database
group_store = record { get_token_groups = get_token_groups; set_token_groups = set_token_groups }

-- The path of a token.
abbrev pub IsPath : Text → Text → Type 0
IsPath path token =
    split b'/' (trim_byte b'/' (trim_prefix path (str "/api/admin/tokens/")))
    ≡ token ∷ (str "groups" ∷ [])

-- The groups that a PUT asks for: its list, with its default put in front where there is one that the
-- list does not have.
abbrev pub IsWanted : Groups → List Text → Type 0
IsWanted b gs =
    (((b.default_group_id ≡ []) ⊎ Any (λ v. v ≡ b.default_group_id) b.group_ids)
      × (gs ≡ b.group_ids))
    ⊎ ((b.default_group_id ≢ [])
        × ¬ Any (λ v. v ≡ b.default_group_id) b.group_ids
        × (gs ≡ b.default_group_id ∷ b.group_ids))

on_list : (x : Text) (xs : List Text) → any (λ v. eqb v x) xs ≡ true → Any (λ v. v ≡ x) xs
on_list x xs e = Any-map xs (λ v. (eqb_iff v x).0) (any-true (λ v. eqb v x) xs e)

off_list : (x : Text) (xs : List Text) → any (λ v. eqb v x) xs ≡ false → ¬ Any (λ v. v ≡ x) xs
off_list x [] e on = absurd on
off_list x (y ∷ ys) e (inl same) = ground (arith, e, same, eqb_iff y x)
off_list x (y ∷ ys) e (inr on) = off_list x ys (ground (arith, e)) on

put_groups-IsWanted : (b : Groups) → IsWanted b (put_groups b)
unfolding put_groups
put_groups-IsWanted b = elim (Bool-cases (eqb b.default_group_id [])) [
  | inl no_default ↦ inl (inl ((eqb_iff b.default_group_id []).0 no_default), rw no_default refl)
  | inr default ↦ elim (Bool-cases (any (λ v. eqb v b.default_group_id) b.group_ids)) [
    | inl there ↦
        inl (inr (on_list b.default_group_id b.group_ids there), ground (arith, default, there))
    | inr missing ↦ inr (
      ground (arith, default, eqb_iff b.default_group_id []),
      off_list b.default_group_id b.group_ids missing,
      ground (arith, default, missing),
    )
  ]
]

put-no_content : (x : Option Text × Database) → (put x).0 ≡ no_content → x.0 ≡ none
put-no_content (some e, s) h = ground arith
put-no_content (none, s) h = refl

-- The answer of a GET: the first of the groups is the default, and the groups come in some order.
abbrev pub Answers : Reply → Text → List Text → Type 0
Answers reply tenant gs =
    (first : Text) × (rest : List Text) × (allowed : List Text) × (gs ≡ first ∷ rest)
    × (reply ≡ groups tenant first allowed)
    × Perm allowed gs

-- What a PUT that succeeds does, when the groups of a valid token are read after it.
set-get :
    (tenant token : Text) (gs : List Text) (now : ℕ) (r : TokenRow) (d : Database)
    → lookup token d.auth_tokens ≡ some r
    → is_valid now r ≡ true
    → (set_token_groups tenant token gs d).0 ≡ none
    → Answers
        (got (get_token_groups tenant token now (set_token_groups tenant token gs d).1))
        tenant
        gs
unfolding set_token_groups
set-get tenant token [] now r d found valid done = ground arith
set-get tenant token (g ∷ gs) now r d found valid done =
    let (allowed, answer, same) =
      get_token_groups-set_token_groups tenant token g gs now r d found valid done in
    (g, gs, allowed, refl, ap got answer, same)

put_handled :
    (path tenant token : Text) (body : Groups) (now : ℕ) (d : Database)
    → IsPath path token
    → handle_token_groups (some group_store) (str "PUT") path tenant (some body) now d
      ≡ put (set_token_groups (demo_if_empty tenant) token (put_groups body) d)
unfolding handle_token_groups group_store eqb
put_handled path tenant token body now d is = rw is refl

get_handled :
    (path tenant token : Text) (now : ℕ) (d : Database)
    → IsPath path token
    → (handle_token_groups (some group_store) (str "GET") path tenant none now d).0
      ≡ got (get_token_groups (demo_if_empty tenant) token now d)
unfolding handle_token_groups group_store eqb
get_handled path tenant token now d is = rw is refl

put-state : (x : Option Text × Database) → (put x).1 ≡ x.1
put-state (some e, s) = refl
put-state (none, s) = refl

-- After a PUT that is answered with 204, a GET for the same valid token gives the groups that the PUT asks
-- for, in some order, and the first of them as the default: its list, with its default put in front where
-- there is one that the list does not have.
pub put-get :
    (path tenant token : Text) (body : Groups) (now later : ℕ) (r : TokenRow) (d : Database)
    → IsPath path token
    → lookup token d.auth_tokens ≡ some r
    → is_valid later r ≡ true
    → (handle_token_groups (some group_store) (str "PUT") path tenant (some body) now d).0
      ≡ no_content
    → (wanted : List Text) × IsWanted body wanted
      × Answers
          (handle_token_groups
            (some group_store)
            (str "GET")
            path
            tenant
            none
            later
            (handle_token_groups (some group_store) (str "PUT") path tenant (some body) now d).1).0
          (demo_if_empty tenant)
          wanted
put-get path tenant token body now later r d is found valid done =
    let t = demo_if_empty tenant in
    let x = set_token_groups t token (put_groups body) d in
    let same = put_handled path tenant token body now d is in
    (
      put_groups body,
      put_groups-IsWanted body,
      subst (λ reply. Answers reply t (put_groups body))
          (sym (
            get_handled path tenant token later _ is
            ∙ ap (λ y. got (get_token_groups t token later y.1)) same
            ∙ ap (λ s. got (get_token_groups t token later s)) (put-state x)))
          (set-get t token (put_groups body) later r d found valid
            (put-no_content x (ap (λ y. y.0) (sym same) ∙ done))),
    )
