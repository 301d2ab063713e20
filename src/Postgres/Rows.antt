-- ===== src/Postgres/Rows.antt =====
-- The order of the rows of a SELECT without ORDER BY, which PostgreSQL leaves open.
use mathlib.Core.List.{Perm}
use mathlib.Core.List.Perm
use mcphub.Prelude.{ℕ, zero, suc, List, [], ◌∷◌}

module _ {A : Type 0} where
  unfoldable pub insert_at : ℕ → A → List A → List A
  insert_at zero x ys = x ∷ ys
  insert_at (suc n) x [] = x ∷ []
  insert_at (suc n) x (y ∷ ys) = y ∷ insert_at n x ys

  -- The rows in another order: each is put at a place among the later ones.
  unfoldable pub reorder : List A → List ℕ → List A
  unfolding insert_at
  reorder [] ps = []
  reorder (x ∷ xs) [] = x ∷ xs
  reorder (x ∷ xs) (p ∷ ps) = insert_at p x (reorder xs ps)

  insert_at-Perm : (n : ℕ) (x : A) (ys : List A) → Perm (insert_at n x ys) (x ∷ ys)
  unfolding insert_at
  insert_at-Perm zero x ys = Perm.refl (x ∷ ys)
  insert_at-Perm (suc n) x [] = Perm.refl (x ∷ [])
  insert_at-Perm (suc n) x (y ∷ ys) =
      Perm.trans (Perm.cons y (insert_at-Perm n x ys)) (Perm.swap x y ys)

  -- No row is lost, and none is doubled.
  pub reorder-Perm : (xs : List A) (ps : List ℕ) → Perm (reorder xs ps) xs
  unfolding reorder
  reorder-Perm [] ps = Perm.refl []
  reorder-Perm (x ∷ xs) [] = Perm.refl (x ∷ xs)
  reorder-Perm (x ∷ xs) (p ∷ ps) =
      Perm.trans (insert_at-Perm p x (reorder xs ps)) (Perm.cons x (reorder-Perm xs ps))
