-- ===== src/Auth/Device/Refresh.antt =====
-- Refreshing: an empty refresh token is accepted for a login that nobody has approved.
use mcphub.Prelude.{
  Any-map, ℕ, ◌<◌, ◌≡◌, ◌≢◌, refl, ap, Bool, true, false, none, some, [], ◌∷◌, Text, str, eqb_iff,
  eqb_refl, Any, arith, Map, Bool-cases, Option-cases, inl, inr, ◌∙◌,
}
use mcphub.Auth.Device.Entries.{DeviceEntry, can_refresh, renew, grants, change_first}
use mcphub.Auth.Device.Loops.{holds-Any, change_first-some}
use mcphub.Auth.Device.Local.{oauth_token_local, validate_local}
use mcphub.Auth.Device.Handlers.{refreshed, respond, tokens, DeviceAuth, oauth_token, validate}

-- A login that was started and has not expired, approved or not, from which no token was taken.
abbrev pub IsPending : ℕ → DeviceEntry → Type 0
IsPending now e = (e.refresh_token ≡ []) × (e.revoked ≡ false) × (now < e.expires_at)

pending_can_refresh : (now : ℕ) (e : DeviceEntry) → IsPending now e → can_refresh [] now e ≡ true
unfolding can_refresh
pending_can_refresh now e h = ground (arith, eqb_iff e.refresh_token [])

renewed_grants :
    (access refresh : Text) (now : ℕ) (e : DeviceEntry)
    → can_refresh refresh now e ≡ true
    → grants access now (renew access now e) ≡ true
unfolding can_refresh grants
renewed_grants access refresh now e h = ground (arith, eqb_refl access)

-- The entry that a change gives is a changed entry that passed the test.
change_first-entry :
    (p : DeviceEntry → Bool) (f : DeviceEntry → DeviceEntry) (m : Map DeviceEntry) (x : DeviceEntry)
    (n : Map DeviceEntry)
    → change_first p f m ≡ some (x, n)
    → (e : DeviceEntry) × (p e ≡ true) × (x ≡ f e)
unfolding change_first
change_first-entry p f [] x n found = ground arith
change_first-entry p f ((k, e) ∷ m) x n found = elim (Bool-cases (p e)) [
  | inl passes ↦ (e, passes, ground (arith, found, passes))
  | inr fails ↦ elim (Option-cases (change_first p f m)) [
    | inl none_of ↦ ground (arith, found, fails, none_of)
    | inr ((y, o), there) ↦
        let (d, passes, same) = change_first-entry p f m y o there in
        (d, passes, ground (arith, found, fails, there, same))
  ]
]

renewed_answer :
    (access : Text) (now : ℕ) (m n : Map DeviceEntry) (x : DeviceEntry)
    → change_first (can_refresh [] now) (renew access now) m ≡ some (x, n)
    → tokens x.access_token x.refresh_token 3600 ≡ tokens access [] 3600
unfolding can_refresh
renewed_answer access now m n x found =
    let (e, passes, same) =
      change_first-entry (can_refresh [] now) (renew access now) m x n found in
    let empty : e.refresh_token ≡ [] = ground (arith, eqb_iff e.refresh_token [], passes) in
    rw same (rw empty refl)

module _ {S : Type 0} (hash : Text → Text) (a : DeviceAuth S) (local : a.backend ≡ none) where
  -- In memory mode a refresh request with an empty refresh token succeeds as soon as some login was
  -- started, has not expired, is not revoked and was not taken up, approved or not: it answers 200 with
  -- the drawn access token, no refresh token and a life of 3600 seconds, and the access token is then
  -- valid. The drawn token is not empty.
  pub empty_refresh_grants :
      (access : Text) (now : ℕ)
      → access ≢ []
      → Any (λ (x : Text × DeviceEntry). IsPending now x.1) a.entries
      → let (r, a') = oauth_token hash (str "POST") true (str "refresh_token") [] access now a in
        (r ≡ respond 200 (tokens access [] 3600)) × (validate hash access now a' ≡ true)
  empty_refresh_grants access now some_access pending =
      let matched =
        holds-Any (can_refresh [] now) a.entries
          (Any-map a.entries (λ x. pending_can_refresh now x.1) pending) in
      let (x, m', found, after) =
        change_first-some (can_refresh [] now) (renew access now) (grants access now) a.entries
          matched (renewed_grants access [] now) in
      rw (oauth_token_local hash a local, found, refreshed)
        (
          ap (respond 200) (renewed_answer access now a.entries m' x found),
          validate_local hash (record a { entries = m' }) local access now some_access ∙ after,
        )
