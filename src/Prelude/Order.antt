-- ===== src/Prelude/Order.antt =====
-- The order of texts by bytes, and sorting by a key, as `sort.Slice` does with `<` on strings.
-- Go leaves the order of equal keys open; no theorem depends on it.
use mathlib.Core.Bool.{Bool, true, false}
use mathlib.Core.List.{List, [], ◌∷◌}
use mcphub.Prelude.Tests.{ltb, ◌==◌, if◌then◌else◌}
use mcphub.Prelude.Texts.{Text}

unfoldable pub less : Text → Text → Bool
less s [] = false
less [] (d ∷ t) = true
less (c ∷ s) (d ∷ t) = let rest = less s t in if c == d then rest else ltb c d

module _ {A : Type 0} (key : A → Text) where
  unfoldable pub insert_sorted : A → List A → List A
  insert_sorted a [] = a ∷ []
  insert_sorted a (b ∷ bs) =
      let rest = insert_sorted a bs in if less (key b) (key a) then b ∷ rest else a ∷ b ∷ bs

  unfoldable pub sort : List A → List A
  unfolding insert_sorted less
  sort [] = []
  sort (a ∷ as') = insert_sorted a (sort as')
