-- ===== src/Gateway/Secure/Access.antt =====
-- Who passes the checks.
use Prim.Native.Nat.{bit_or, bit_xor}
use mcphub.Auth.Store.{TokenIdentity}
use mcphub.Prelude.{
  ℕ, zero, suc, ◌≡◌, ◌≢◌, ◌↔◌, ◌⊎◌, refl, sym, ap, ◌∙◌, subst, not, ◌||◌, inl, inr, true, false,
  Option, none, some, [], ◌∷◌, ◌++◌, Text, str, eqb_iff, has_prefix, length, length-append, ltb,
  to_lower, equal_fold, trim_space, Bool-cases, arith,
}
use mcphub.Gateway.Secure.{
  take, drop, fold_diff, secure_equal, admin_auth, bearer, accepts, authenticate_route,
}
use mcphub.Gateway.Secure.Bits.{bit_or-eq-zero, bit_xor-eq-zero, bit_xor_self}

fold_diff_sound :
    (v : ℕ) (x y : Text) → length x ≡ length y → fold_diff v x y ≡ 0 → (v ≡ 0) × (x ≡ y)
unfolding fold_diff
fold_diff_sound v [] [] l e = (e, refl)
fold_diff_sound v [] (b ∷ y) l e = absurd (omega arith)
fold_diff_sound v (a ∷ x) [] l e = absurd (omega arith)
fold_diff_sound v (a ∷ x) (b ∷ y) l e =
    let rest = fold_diff_sound (bit_or v (bit_xor a b)) x y (omega arith) e in
    let zeros = bit_or-eq-zero v (bit_xor a b) rest.0 in
    (zeros.0, cc (bit_xor-eq-zero a b zeros.1, rest.1))

fold_diff_self : (x : Text) → fold_diff 0 x x ≡ 0
unfolding fold_diff
fold_diff_self [] = refl
fold_diff_self (a ∷ x) = rw bit_xor_self (fold_diff_self x)

-- The comparison of secrets by accumulated differences decides equality of texts.
pub secure_equal_iff : (a b : Text) → (secure_equal a b ≡ true) ↔ (a ≡ b)
unfolding secure_equal
secure_equal_iff a b = (
  (λ h. (fold_diff_sound 0 a b (ground arith) (ground arith)).1),
  (λ e. rw e (ground (arith, fold_diff_self b))),
)

-- A request passes the admin check exactly if no admin token is set, its path is not below
-- /api/admin/, or its Authorization header is "Bearer " and the token.
pub admin_auth_iff :
    (token path authorization : Text)
    → (admin_auth token path authorization ≡ true) ↔ (
        (token ≡ [])
        ⊎ (has_prefix path (str "/api/admin/") ≡ false)
        ⊎ (authorization ≡ str "Bearer " ++ token))
unfolding admin_auth
admin_auth_iff token path authorization =
    ground (arith, eqb_iff token [], secure_equal_iff authorization (str "Bearer " ++ token))

accepts_iff :
    (o : Option TokenIdentity) (tenant : Text)
    → (accepts o tenant ≡ true) ↔ ((id : TokenIdentity) × (o ≡ some id) × (id.tenant_id ≡ tenant))
accepts_iff none tenant = ((λ h. cc), (λ p. cc (p.1)))
accepts_iff (some x) tenant = (
  (λ h. (x, refl, (eqb_iff x.tenant_id tenant).0 h)),
  (λ p. ground (arith, eqb_iff x.tenant_id tenant, p.1, p.2)),
)

take-drop : (n : ℕ) (s : Text) → take n s ++ drop n s ≡ s
take-drop zero s = refl
take-drop (suc n) [] = refl
take-drop (suc n) (c ∷ s) = ap (λ t. c ∷ t) (take-drop n s)

take-append : (s t : Text) → take (length s) (s ++ t) ≡ s
take-append [] t = refl
take-append (c ∷ s) t = ap (λ u. c ∷ u) (take-append s t)

drop-append : (s t : Text) → drop (length s) (s ++ t) ≡ t
drop-append [] t = refl
drop-append (c ∷ s) t = drop-append s t

length-to_lower : (s : Text) → length (to_lower s) ≡ length s
unfolding to_lower
length-to_lower [] = refl
length-to_lower (c ∷ s) = ap suc (length-to_lower s)

-- The header is the word bearer, in any case, a space, and a text that is the token but for the blanks
-- around it.
abbrev pub Bears : Text → Text → Type 0
Bears authorization token =
    (scheme : Text) × (rest : Text) × (authorization ≡ scheme ++ rest)
    × (to_lower scheme ≡ str "bearer ")
    × (token ≡ trim_space rest)

bearer-Bears : (v : Text) → bearer v ≢ [] → Bears v (bearer v)
unfolding bearer equal_fold
bearer-Bears v ne =
    elim (Bool-cases (ltb (length v) 7 || not (equal_fold (take 7 v) (str "bearer ")))) [
      | inl no_token ↦ absurd (ne (rw no_token refl))
      | inr token ↦ (
        take 7 v,
        drop 7 v,
        sym (take-drop 7 v),
        ground (arith, token, eqb_iff (to_lower (take 7 v)) (to_lower (str "bearer "))),
        rw token refl,
      )
    ]

Bears-bearer : (v token : Text) → Bears v token → bearer v ≡ token
unfolding bearer equal_fold to_lower
Bears-bearer v token (scheme, rest, split, lower, is) =
    let seven : length scheme ≡ 7 = sym (length-to_lower scheme) ∙ ap (λ s. length s) lower in
    let front : take 7 v ≡ scheme =
      ap (λ s. take 7 s) split
      ∙ ap (λ n. take n (scheme ++ rest)) (sym seven)
      ∙ take-append scheme rest in
    let back : drop 7 v ≡ rest =
      ap (λ s. drop 7 s) split
      ∙ ap (λ n. drop n (scheme ++ rest)) (sym seven)
      ∙ drop-append scheme rest in
    let long : ltb (length v) 7 ≡ false =
      ground (arith, ap (λ s. length s) split, length-append scheme rest, seven) in
    let fold : equal_fold (take 7 v) (str "bearer ") ≡ true = rw front (rw lower refl) in
    rw (long, fold, back) (sym is)

-- With an auth store a request for a tenant passes exactly if its Authorization header is the word
-- bearer, in upper or lower case, a space and a token that is not empty once the blanks around it are
-- trimmed, and the store validates the hash of that token for the tenant.
pub authenticate_route_iff :
    (validate : Text → Option TokenIdentity) (hash : Text → Text)
    (required authorization tenant : Text)
    → (authenticate_route (some validate) hash required authorization tenant ≡ true) ↔ (
        (token : Text) × Bears authorization token
        × (token ≢ [])
        × ((id : TokenIdentity) × (validate (hash token) ≡ some id) × (id.tenant_id ≡ tenant)))
unfolding authenticate_route
authenticate_route_iff validate hash required authorization tenant =
    let token = bearer authorization in
    let found = accepts_iff (validate (hash token)) tenant in
    (
      (λ h.
          let some_token : token ≢ [] = ground (arith, eqb_iff token []) in
          (token, bearer-Bears authorization some_token, some_token, found.0 (ground arith))),
      (λ p.
          let is = Bears-bearer authorization p.0 p.1 in
          let ne : token ≢ [] = λ e. p.2 (sym is ∙ e) in
          let valid = found.1 (
            subst
              (λ t. (id : TokenIdentity) × (validate (hash t) ≡ some id) × (id.tenant_id ≡ tenant))
              (sym is) p.3) in
          ground (arith, eqb_iff token [], ne, valid)),
    )
