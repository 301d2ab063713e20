-- ===== src/Gateway/TokenGroups.antt =====
-- handleTokenGroups of internal/gateway/gateway.go: the admin routes that read and set the groups of a
-- token. The store is none where it is not a TokenGroupStore.
pub mod Stored
use mcphub.Prelude.{
  ℕ, Bool, true, false, not, ◌||◌, Option, none, some, List, [], ◌∷◌, Text, str, eqb, any, split,
  trim_byte, trim_prefix, if◌then◌else◌,
}
use mcphub.Auth.Store.{TokenIdentity, Result, ok, err, GroupStore}

-- The decoded body of a PUT.
pub record Groups : Type 0 where
  pub default_group_id : Text
  pub group_ids : List Text

-- `groups tenant default ids` is the JSON of a GET.
pub data Reply : Type 0 where
  not_found unavailable no_content not_allowed : Reply
  failed : Text → ℕ → Reply
  groups : Text → Text → List Text → Reply

abbrev pub demo_if_empty : Text → Text
demo_if_empty tenant = if eqb tenant [] then str "demo" else tenant

-- The groups of a PUT: the default is put in front where it is not among them.
unfoldable pub put_groups : Groups → List Text
put_groups b =
    if eqb b.default_group_id [] || any (λ v. eqb v b.default_group_id) b.group_ids
    then b.group_ids
    else b.default_group_id ∷ b.group_ids

abbrev pub got : Result TokenIdentity → Reply
got (err e) = failed e 404
got (ok id) = groups id.tenant_id id.default_group_id id.allowed_group_ids

abbrev pub put : {S : Type 0} → Option Text × S → Reply × S
put (some e, s) = (failed e 400, s)
put (none, s) = (no_content, s)

module _ {S : Type 0} where
  abbrev pub put_body : GroupStore S → Text → Text → Option Groups → S → Reply × S
  put_body b tenant token none s = (failed (str "invalid request") 400, s)
  put_body b tenant token (some body) s = put (b.set_token_groups tenant token (put_groups body) s)

  abbrev pub by_method : GroupStore S → Text → Text → Text → Option Groups → ℕ → S → Reply × S
  by_method b method tenant token body now s =
      if eqb method (str "GET")
      then (got (b.get_token_groups tenant token now s), s)
      else if eqb method (str "PUT")
      then put_body b tenant token body s
      else (not_allowed, s)

  abbrev pub at_store :
      Option (GroupStore S) → Text → Text → Text → Option Groups → ℕ → S → Reply × S
  at_store none method tenant token body now s = (unavailable, s)
  at_store (some b) method tenant token body now s =
      by_method b method (demo_if_empty tenant) token body now s

  abbrev pub at_parts :
      Option (GroupStore S) → Text → List Text → Text → Option Groups → ℕ → S → Reply × S
  at_parts b method (token ∷ (last ∷ [])) tenant body now s =
      if eqb last (str "groups") then at_store b method tenant token body now s else (not_found, s)
  at_parts b method _ tenant body now s = (not_found, s)

  -- The arguments are the store, the method, the path, the query's tenant_id, the decoded body, none where
  -- it cannot be decoded, and the time.
  unfoldable pub handle_token_groups :
      Option (GroupStore S) → Text → Text → Text → Option Groups → ℕ → S → Reply × S
  unfolding put_groups
  handle_token_groups b method path tenant body now s =
      at_parts b method (split b'/' (trim_byte b'/' (trim_prefix path (str "/api/admin/tokens/"))))
        tenant body now s
