-- ===== src/Prelude/Maps.antt =====
-- Go maps with string keys, as association lists. A loop over a map goes through the list; the
-- theorems range over all lists, so they hold for every order in which Go may visit the entries.
use mathlib.Core.Path.{◌≡◌, refl, subst}
use mathlib.Core.Logic.{inl, inr}
use mathlib.Core.Bool.{Bool}
use mathlib.Core.Option.{Option, none, some}
use mathlib.Core.Logic.{◌⊎◌, ◌≢◌}
use mathlib.Core.Option
use mathlib.Core.List.{List, [], ◌∷◌}
use native.Mathlib.Omega.{arith}
use mcphub.Prelude.Tests.{if◌then◌else◌, Bool-cases}
use mcphub.Prelude.Lists.{All}
use mcphub.Prelude.Texts.{Text, eqb, eqb_iff, eqb_refl}

abbrev pub Map {ℓ} : Type ℓ → Type ℓ
Map V = List (Text × V)

module _ {ℓ} {V : Type ℓ} where
  unfoldable pub lookup : Text → Map V → Option V
  lookup k [] = none
  lookup k ((j, v) ∷ m) = if eqb j k then some v else lookup k m

  unfoldable pub insert : Text → V → Map V → Map V
  insert k v [] = (k, v) ∷ []
  insert k v ((j, w) ∷ m) = if eqb j k then (k, v) ∷ m else (j, w) ∷ insert k v m

  unfoldable pub erase : Text → Map V → Map V
  erase k [] = []
  erase k ((j, v) ∷ m) = let rest = erase k m in if eqb j k then rest else (j, v) ∷ rest

  -- The entries whose key passes the test.
  unfoldable pub keep_keys : (Text → Bool) → Map V → Map V
  keep_keys p [] = []
  keep_keys p ((j, v) ∷ m) = let rest = keep_keys p m in if p j then (j, v) ∷ rest else rest

  pub lookup-insert :
      (k j : Text) (v : V) (m : Map V)
      → lookup j (insert k v m) ≡ (if eqb k j then some v else lookup j m)
  unfolding lookup insert
  lookup-insert k j v [] = refl
  lookup-insert k j v ((i, w) ∷ m) =
      ground (arith, eqb_iff k j, eqb_iff i k, eqb_iff i j, lookup-insert k j v m)

  pub lookup-insert_self : (k : Text) (v : V) (m : Map V) → lookup k (insert k v m) ≡ some v
  lookup-insert_self k v m = ground (arith, lookup-insert k k v m, eqb_refl k)

  pub lookup-insert_ne :
      (k j : Text) (v : V) (m : Map V) → j ≢ k → lookup j (insert k v m) ≡ lookup j m
  lookup-insert_ne k j v m ne = ground (arith, lookup-insert k j v m, eqb_iff k j)

  pub lookup-erase :
      (k j : Text) (m : Map V) → lookup j (erase k m) ≡ (if eqb k j then none else lookup j m)
  unfolding lookup erase
  lookup-erase k j [] = ground arith
  lookup-erase k j ((i, w) ∷ m) =
      ground (arith, eqb_iff k j, eqb_iff i k, eqb_iff i j, lookup-erase k j m)

  pub lookup-keep_keys :
      (p : Text → Bool) (j : Text) (m : Map V)
      → lookup j (keep_keys p m) ≡ (if p j then lookup j m else none)
  unfolding lookup keep_keys
  lookup-keep_keys p j [] = ground arith
  lookup-keep_keys p j ((i, w) ∷ m) = ground (arith, eqb_iff i j, lookup-keep_keys p j m)

  -- What `lookup` finds stands in the list: a property of all entries holds of it.
  pub lookup-All {κ} :
      (P : V → Type κ) (k : Text) (m : Map V) {v : V}
      → All (λ (e : Text × V). P (e.1)) m
      → lookup k m ≡ some v
      → P v
  unfolding lookup
  lookup-All P k [] a h = ground arith
  lookup-All P k ((j, w) ∷ m) {v} a h = elim (Bool-cases (eqb j k)) [
    | inl e ↦ subst P (ground arith) (a.0)
    | inr e ↦ lookup-All P k m a.1 (ground arith)
  ]

  -- What is found after an insertion is the inserted entry or was there before.
  pub found-insert :
      (k j : Text) (v w : V) (m : Map V)
      → lookup j (insert k v m) ≡ some w
      → ((j ≡ k) × (w ≡ v)) ⊎ (lookup j m ≡ some w)
  found-insert k j v w m h = ground (arith, lookup-insert k j v m, eqb_iff k j)

  abbrev pub change_found : Option V → Text → (V → V) → Map V → Map V
  change_found none k f m = m
  change_found (some v) k f m = insert k (f v) m

  -- The entry at a key, if there is one, is changed in place.
  abbrev pub change_at : Text → (V → V) → Map V → Map V
  change_at k f m = change_found (lookup k m) k f m

  pub lookup-change_at :
      (k j : Text) (f : V → V) (m : Map V)
      → lookup j (change_at k f m) ≡ (if eqb k j then Option.map f (lookup k m) else lookup j m)
  lookup-change_at k j f m = at (lookup k m) refl
    where
      at :
          (o : Option V)
          → lookup k m ≡ o
          → lookup j (change_found o k f m) ≡ (if eqb k j then Option.map f o else lookup j m)
      at none e = ground (arith, eqb_iff k j)
      at (some v) e = ground (arith, lookup-insert k j (f v) m)

  abbrev pub values : Map V → List V
  values [] = []
  values ((k, v) ∷ m) = v ∷ values m

  abbrev pub keys : Map V → List Text
  keys [] = []
  keys ((k, v) ∷ m) = k ∷ keys m

module _ {ℓ κ} {V : Type ℓ} {W : Type κ} where
  unfoldable pub map_values : (V → W) → Map V → Map W
  map_values f [] = []
  map_values f ((j, v) ∷ m) = (j, f v) ∷ map_values f m

  pub lookup-map_values :
      (f : V → W) (k : Text) (m : Map V) → lookup k (map_values f m) ≡ Option.map f (lookup k m)
  unfolding lookup map_values
  lookup-map_values f k [] = refl
  lookup-map_values f k ((j, v) ∷ m) = ground (arith, lookup-map_values f k m)
