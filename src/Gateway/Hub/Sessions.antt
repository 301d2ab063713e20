-- ===== src/Gateway/Hub/Sessions.antt =====
-- Whose rights a Hub request uses.
use mcphub.Prelude.{
  ◌≡◌, refl, sym, ap, ◌∙◌, Option, none, some, ◌⊎◌, inl, inr, Text, str, eqb, lookup, found-insert,
  arith, if_cases, Option-cases, subst, trim_space,
}
use mcphub.Auth.Store.{TokenIdentity}
use mcphub.Discovery.Types.{Result, ok, err, Group, Identity}
use mcphub.Discovery.Groups.{ensure_default}
use mcphub.Discovery.Queries.{set_group}
use mcphub.Discovery.Access.{Allows, set_group_ok_iff}
use mcphub.Gateway.Secure.{drop}
use mcphub.Gateway.Hub.{
  Hub, Rpc, Params, Answer, handle_hub, hub_call, dispatch, identify, with_new, with_session,
  switch, set_session,
}

-- The active group of the identity is its default group, or one that it is allowed.
unfoldable pub IsAuthorised : Identity → Type 0
IsAuthorised id = (id.active_group ≡ id.default_group) ⊎ Allows id.active_group id.allowed_groups

-- Switching the group keeps `Q`.
IsStable : (Text → Identity → Type 0) → Type 0
IsStable Q =
    (sid : Text) (id : Identity) (group : Text)
    → Q sid id
    → Allows group id.allowed_groups
    → Q sid (record id { active_group = group })

-- Every session has an identity that satisfies `Q`.
Each : {S : Type 0} → (Text → Identity → Type 0) → Hub S → Type 0
Each Q h = (sid : Text) (id : Identity) → lookup sid h.sessions ≡ some id → Q sid id

module _ {S : Type 0} (Q : Text → Identity → Type 0) (stable : IsStable Q) where
  set_session-Each :
      (sid : Text) (id : Identity) (h : Hub S) → Q sid id → Each Q h → Each Q (set_session sid id h)
  unfolding Each
  set_session-Each sid id h good all j next found =
      elim (found-insert sid j id next h.sessions found) [
        | inl here ↦ subst (λ k. Q k next) (sym here.0) (subst (Q sid) (sym here.1) good)
        | inr there ↦ all j next there
      ]

  switch-Each :
      (sid group : Text) (id : Identity) (h : Hub S) (r : Result (Identity × Group))
      → set_group id group h.discovery ≡ r
      → Q sid id
      → Each Q h
      → Each Q (switch sid r h).1
  unfolding IsStable
  switch-Each sid group id h (err e) eq good all = all
  switch-Each sid group id h (ok (next, g)) eq good all =
      let (permits, changed, now) = (set_group_ok_iff id next group h.discovery g).0 eq in
      set_session-Each sid next h (subst (Q sid) (sym changed) (stable sid id group good permits.1))
        all

  hub_call-Each :
      (sid : Text) (id : Identity) (p : Option Params) (h : Hub S)
      → Q sid id
      → Each Q h
      → Each Q (hub_call sid id p h).1
  unfolding hub_call
  hub_call-Each sid id none h good all = all
  hub_call-Each sid id (some p) h good all =
      let P = λ (x : Answer × Hub S). Each Q x.1 in
      if_cases P (eqb p.name (str "mcphub_search")) _ _ all (
        if_cases P (eqb p.name (str "mcphub_get")) _ _ all (
          if_cases P (eqb p.name (str "mcphub_set_group")) _ _
            (switch-Each sid p.group id h (set_group id p.group h.discovery) refl good all)
            (if_cases P (eqb p.name (str "mcphub_invoke")) _ _ all all)))

  dispatch-Each :
      (sid : Text) (id : Identity) (r : Rpc) (h : Hub S)
      → Q sid id
      → Each Q h
      → Each Q (dispatch sid id r h).1
  unfolding dispatch
  dispatch-Each sid id r h good all =
      let P = λ (x : Answer × Hub S). Each Q x.1 in
      if_cases P (eqb r.method (str "initialize")) _ _ all (
        if_cases P (eqb r.method (str "notifications/initialized")) _ _ all (
          if_cases P (eqb r.method (str "tools/list")) _ _ all (
            if_cases P (eqb r.method (str "tools/call")) _ _
              (hub_call-Each sid id r.params h good all) all)))

  with_new-Each :
      (a : Answer ⊎ Identity) (sid : Text) (r : Rpc) (h : Hub S)
      → ((id : Identity) → a ≡ inr id → Q sid id)
      → Each Q h
      → Each Q (with_new a sid r h).1
  with_new-Each (inl a) sid r h new all = all
  with_new-Each (inr id) sid r h new all =
      dispatch-Each sid id r (set_session sid id h) (new id refl)
        (set_session-Each sid id h (new id refl) all)

  handle_hub-Each :
      (validate : Option (Text → Option TokenIdentity)) (hash : Text → Text)
      (authorization tenant sid : Text) (r : Rpc) (h : Hub S)
      → (lookup sid h.sessions ≡ none
          → (id : Identity) → identify validate hash authorization tenant ≡ inr id
          → Q sid id)
      → Each Q h
      → Each Q (handle_hub validate hash authorization tenant sid r h).1
  unfolding handle_hub Each
  handle_hub-Each validate hash authorization tenant sid r h new all =
      by_session (lookup sid h.sessions) refl
    where
      by_session :
          (o : Option Identity)
          → lookup sid h.sessions ≡ o
          → Each Q
              (with_session o validate hash authorization tenant sid r
                (record h { discovery = ensure_default tenant h.discovery })).1
      by_session none e =
          with_new-Each (identify validate hash authorization tenant) sid r _ (new e) all
      by_session (some id) e = dispatch-Each sid id r _ (all sid id e) all

identified :
    (validate : Option (Text → Option TokenIdentity)) (hash : Text → Text)
    (authorization tenant : Text) (id : Identity)
    → identify validate hash authorization tenant ≡ inr id
    → id.active_group ≡ id.default_group
unfolding identify
identified none hash authorization tenant id e = cc
identified (some validate) hash authorization tenant id e =
    elim (Option-cases (validate (hash (trim_space (drop 7 authorization))))) [
      | inl n ↦ ground arith
      | inr (ti, s) ↦ ground arith
    ]

-- Whatever a Hub request does, every session that is left uses its default group or a group that
-- its token allows, if every session did before.
pub handle_hub-IsAuthorised :
    {S : Type 0} (validate : Option (Text → Option TokenIdentity)) (hash : Text → Text)
    (authorization tenant sid : Text) (r : Rpc) (h : Hub S)
    → ((k : Text) (id : Identity) → lookup k h.sessions ≡ some id → IsAuthorised id)
    → (k : Text) (id : Identity)
    → lookup k (handle_hub validate hash authorization tenant sid r h).1.sessions ≡ some id
    → IsAuthorised id
unfolding Each IsStable IsAuthorised
handle_hub-IsAuthorised validate hash authorization tenant sid r h all =
    handle_hub-Each (λ k id. IsAuthorised id) (λ k id group good allows. inr allows) validate hash
      authorization tenant sid r h
      (λ n id e. inl (identified validate hash authorization tenant id e)) all

-- A Hub request, with whatever token and for whatever tenant, leaves a session there is in its
-- tenant and with its allowed groups.
pub handle_hub-tenant :
    {S : Type 0} (validate : Option (Text → Option TokenIdentity)) (hash : Text → Text)
    (authorization tenant sid : Text) (r : Rpc) (h : Hub S) (k : Text) (old new : Identity)
    → lookup k h.sessions ≡ some old
    → lookup k (handle_hub validate hash authorization tenant sid r h).1.sessions ≡ some new
    → (new.tenant_id ≡ old.tenant_id) × (new.allowed_groups ≡ old.allowed_groups)
unfolding Each IsStable
handle_hub-tenant validate hash authorization tenant sid r h k old new before after =
    handle_hub-Each
      (λ j id. j ≡ k → (id.tenant_id ≡ old.tenant_id) × (id.allowed_groups ≡ old.allowed_groups))
      (λ j id group good allows. good) validate hash authorization tenant sid r h
      (λ n id e same. ground (arith, before, n, ap (λ j. lookup j h.sessions) same))
      (λ j id found same. same_as (sym (ap (λ i. lookup i h.sessions) same) ∙ found)) k new after
      refl
  where
    same_as :
        {id : Identity}
        → lookup k h.sessions ≡ some id
        → (id.tenant_id ≡ old.tenant_id) × (id.allowed_groups ≡ old.allowed_groups)
    same_as found = ground (arith, before)
