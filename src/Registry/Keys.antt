-- ===== src/Registry/Keys.antt =====
-- The registry's keys join names by colons, so they are injective on names without a colon.
use mathlib.Core.Path.{ap₂}
use mcphub.Prelude.{ℕ, ◌≡◌, ◌≢◌, refl, [], ◌∷◌, ◌++◌, Text, All}
use mcphub.Registry.{colon, component_key}

abbrev pub ColonFree : Text → Type 0
ColonFree s = All (λ (c : ℕ). c ≢ b':') s

-- A joined text splits at its first colon in one way.
pub colon_split :
    (s t u v : Text)
    → ColonFree s
    → ColonFree t
    → s ++ (colon ++ u) ≡ t ++ (colon ++ v)
    → (s ≡ t) × (u ≡ v)
colon_split [] [] u v hs ht e = (refl, cc)
colon_split [] (d ∷ t) u v hs ht e = absurd (ht.0 (cc))
colon_split (c ∷ s) [] u v hs ht e = absurd (hs.0 (cc))
colon_split (c ∷ s) (d ∷ t) u v hs ht e =
    let rest = colon_split s t u v hs.1 ht.1 (cc) in
    let head : c ≡ d = cc in (ap₂ (λ (x : ℕ) (y : Text). x ∷ y) head rest.0, rest.1)

pub component_key_injective :
    (t c i t' c' i' : Text)
    → ColonFree t
    → ColonFree c
    → ColonFree t'
    → ColonFree c'
    → component_key t c i ≡ component_key t' c' i'
    → (t ≡ t') × (c ≡ c') × (i ≡ i')
unfolding component_key
component_key_injective t c i t' c' i' ht hc ht' hc' e =
    let outer = colon_split t t' _ _ ht ht' e in
    let inner = colon_split c c' i i' hc hc' outer.1 in (outer.0, inner.0, inner.1)
