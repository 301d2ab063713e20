-- ===== src/Auth/Device/Revoke.antt =====
-- Revocation: a revoked token is refused from then on.
use mcphub.Prelude.{
  ℕ, ◌≤◌, ◌≡◌, ◌≢◌, refl, ◌∙◌, inl, inr, Bool, true, false, Option, none, some, [], ◌∷◌, Text, str,
  eqb, Bool-cases, arith,
}
use mcphub.Auth.Store.{AuthStore, RevocationStore, ok}
use mcphub.Auth.Device.Entries.{
  DeviceEntry, hour, has_token, revoke_entry, grants, passed, change_first, changed_or_same,
}
use mcphub.Auth.Device.Loops.{Table, holds, count, count_zero}
use mcphub.Auth.Device.Local.{revoke_local, validate_local}
use mcphub.Auth.Device.Handlers.{DeviceAuth, mark, revoke, revoke_backend, validate}

holds-passed :
    (q : DeviceEntry → Bool) (k : Text) (y : DeviceEntry) (m : Table)
    (o : Option (DeviceEntry × Table))
    → q y ≡ false
    → holds q (changed_or_same o m) ≡ false
    → holds q (changed_or_same (passed k y o) ((k, y) ∷ m)) ≡ false
holds-passed q k y m none qy h = ground arith
holds-passed q k y m (some (x, m')) qy h = ground arith

-- If at most one entry has the token, no entry grants it once the first that has it is revoked.
revoked_not_granted :
    (t : Text) (now : ℕ) (m : Table)
    → count (has_token t) m ≤ 1
    → holds (grants t now) (changed_or_same (change_first (has_token t) revoke_entry m) m) ≡ false
unfolding change_first count
revoked_not_granted t now [] h = refl
revoked_not_granted t now ((k, e) ∷ m) h = elim (Bool-cases (has_token t e)) [
  | inl has ↦ rw has (
      unfold grants in
      ground (arith, untouched t now m (count_zero (has_token t) m (ground arith))))
  | inr hasn't ↦ rw hasn't (
      holds-passed (grants t now) k e m (change_first (has_token t) revoke_entry m)
        (grants_has t now e hasn't) (revoked_not_granted t now m (ground arith)))
]
  where
    grants_has :
        (t : Text) (now : ℕ) (e : DeviceEntry) → has_token t e ≡ false → grants t now e ≡ false
    grants_has t now e h = unfold grants has_token in ground arith

    untouched :
        (t : Text) (now : ℕ) (m : Table)
        → holds (has_token t) m ≡ false
        → holds (grants t now) m ≡ false
    untouched t now [] h = refl
    untouched t now ((k, e) ∷ m) h = ground (arith, grants_has t now e, untouched t now m)

-- In memory mode, when at most one login has the token: after a request to revoke it, as access or
-- as refresh token, the Gateway refuses it as access token at every time.
pub revoke-validate :
    {S : Type 0} (hash : Text → Text) (a : DeviceAuth S) (t : Text) (now later : ℕ)
    → a.backend ≡ none
    → t ≢ []
    → count (has_token t) a.entries ≤ 1
    → validate hash t later (revoke hash (str "POST") t now a).1 ≡ false
revoke-validate hash a t now later local ne one = rw (revoke_local hash a local) (
    validate_local hash
      (record a {
        entries = changed_or_same (change_first (has_token t) revoke_entry a.entries) a.entries;
      })
      local t later ne
    ∙ revoked_not_granted t later a.entries one)

-- With a backend and a store of revoked tokens that finds what was marked: after a request to
-- revoke a token the Gateway refuses it, whatever the backend itself answers.
pub revoke-validate_marked :
    {S : Type 0} (hash : Text → Text) (a : DeviceAuth S) (t : Text) (now later : ℕ)
    (b : AuthStore S) (r : RevocationStore S)
    → a.backend ≡ some b
    → a.revocation ≡ some r
    → ((h : Text) (s : S) → r.token_revoked h (r.mark_token_revoked h hour s).1 ≡ ok true)
    → validate hash t later (revoke hash (str "POST") t now a).1 ≡ false
unfolding revoke validate eqb
revoke-validate_marked hash a t now later b r stored marks law =
    rw (stored, revoke_backend)
      (rw (marks, mark) (ground (arith, law (hash t) (b.revoke_token (hash t) now a.stores).1)))
