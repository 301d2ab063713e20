-- ===== src/Gateway/Secure.antt =====
-- internal/gateway/security.go: the comparison of secrets, bearer tokens, and the checks that
-- guard the admin routes and the MCP routes.
mod Bits
pub mod Access
use Prim.Native.Nat.{bit_or, bit_xor}
use mcphub.Auth.Store.{TokenIdentity}
use mcphub.Prelude.{
  ℕ, suc, Bool, true, false, not, ◌&&◌, ◌||◌, Option, none, some, List, [], ◌∷◌, ◌++◌, Text, str,
  eqb, has_prefix, equal_fold, trim_space, length, ltb, ◌==◌, if◌then◌else◌,
}

-- The loop `for i := range x { v |= x[i] ^ y[i] }`. It runs on texts of one length only, where
-- the mixed clauses do not arise.
unfoldable pub fold_diff : ℕ → Text → Text → ℕ
fold_diff v [] y = v
fold_diff v (a ∷ x) [] = v
fold_diff v (a ∷ x) (b ∷ y) = fold_diff (bit_or v (bit_xor a b)) x y

unfoldable pub secure_equal : Text → Text → Bool
unfolding fold_diff
secure_equal a b = if not (length a == length b) then false else fold_diff 0 a b == 0

-- `adminAuth`: `true` hands the request on, `false` is 401. The arguments are MCP_ADMIN_TOKEN, the
-- path and the Authorization header.
unfoldable pub admin_auth : Text → Text → Text → Bool
unfolding secure_equal
admin_auth token path authorization = not (
    not (eqb token [])
    && has_prefix path (str "/api/admin/")
    && not (secure_equal authorization (str "Bearer " ++ token)))

abbrev pub take : ℕ → Text → Text
take ℕ.zero s = []
take (suc n) [] = []
take (suc n) (c ∷ s) = c ∷ take n s

abbrev pub drop : ℕ → Text → Text
drop ℕ.zero s = s
drop (suc n) [] = []
drop (suc n) (c ∷ s) = drop n s

-- `bearer`: the token of an Authorization header, empty where there is none.
unfoldable pub bearer : Text → Text
bearer v =
    if ltb (length v) 7 || not (equal_fold (take 7 v) (str "bearer "))
    then []
    else trim_space (drop 7 v)

-- `err == nil && id.TenantID == tenant`
abbrev pub accepts : Option TokenIdentity → Text → Bool
accepts none tenant = false
accepts (some id) tenant = eqb id.tenant_id tenant

-- `authenticateRoute`. `validate` is the auth store's ValidateAccessToken on the token's hash, at
-- the time of the request; `none` stands for its error. With no auth store, MCP_REQUIRE_ROUTE_AUTH
-- decides.
unfoldable pub authenticate_route :
    Option (Text → Option TokenIdentity) → (Text → Text) → Text → Text → Text → Bool
unfolding bearer
authenticate_route none hash required authorization tenant = not (eqb required (str "true"))
authenticate_route (some validate) hash required authorization tenant =
    let token = bearer authorization in
    if eqb token [] then false else accepts (validate (hash token)) tenant
