-- ===== src/Prelude/Nested.antt =====
-- Maps of maps, as Go's `map[string]map[string]V`: a missing inner map reads as an empty one, and
-- is made by `ensure` before a write.
use mathlib.Core.Path.{◌≡◌}
use mathlib.Core.Bool.{◌&&◌}
use mathlib.Core.Option.{Option, none, some}
use mathlib.Core.List.{[]}
use native.Mathlib.Omega.{arith}
use mcphub.Prelude.Tests.{if◌then◌else◌}
use mcphub.Prelude.Texts.{Text, eqb, eqb_iff}
use mcphub.Prelude.Maps.{Map, lookup, insert, erase, lookup-insert, lookup-erase}

abbrev pub or_empty {ℓ} : {V : Type ℓ} → Option (Map V) → Map V
or_empty none = []
or_empty (some m) = m

module _ {ℓ} {V : Type ℓ} where
  -- `m[t]`
  abbrev pub inner : Text → Map (Map V) → Map V
  inner t m = or_empty (lookup t m)

  ensured : Option (Map V) → Text → Map (Map V) → Map (Map V)
  ensured none t m = insert t [] m
  ensured (some _) t m = m

  -- `if m[t] == nil { m[t] = map[string]V{} }`
  unfoldable pub ensure : Text → Map (Map V) → Map (Map V)
  unfolding ensured
  ensure t m = ensured (lookup t m) t m

  -- `m[t][k] = v`, where `m[t]` is there
  unfoldable pub insert_in : Text → Text → V → Map (Map V) → Map (Map V)
  insert_in t k v m = insert t (insert k v (inner t m)) m

  erased : Option (Map V) → Text → Text → Map (Map V) → Map (Map V)
  erased none t k m = m
  erased (some i) t k m = insert t (erase k i) m

  -- `delete(m[t], k)`, which does nothing where `m[t]` is missing
  unfoldable pub erase_in : Text → Text → Map (Map V) → Map (Map V)
  unfolding erased
  erase_in t k m = erased (lookup t m) t k m

  -- `m[t][k]`
  abbrev pub find : Text → Text → Map (Map V) → Option V
  find t k m = lookup k (inner t m)

  pub inner-ensure : (t u : Text) (m : Map (Map V)) → inner u (ensure t m) ≡ inner u m
  unfolding ensure
  inner-ensure t u m = ground (arith, lookup-insert t u [] m, eqb_iff t u)

  pub inner-insert_in :
      (t u k : Text) (v : V) (m : Map (Map V))
      → inner u (insert_in t k v m) ≡ (if eqb t u then insert k v (inner t m) else inner u m)
  unfolding insert_in
  inner-insert_in t u k v m = ground (arith, lookup-insert t u (insert k v (inner t m)) m)

  pub find-insert_in :
      (t u k j : Text) (v : V) (m : Map (Map V))
      → find u j (insert_in t k v m) ≡ (if eqb t u && eqb k j then some v else find u j m)
  unfolding insert_in
  find-insert_in t u k j v m = ground (
    arith,
    lookup-insert t u (insert k v (inner t m)) m,
    lookup-insert k j v (inner t m),
    eqb_iff t u,
  )

  pub inner-erase_in :
      (t u k : Text) (m : Map (Map V))
      → inner u (erase_in t k m) ≡ (if eqb t u then erase k (inner t m) else inner u m)
  unfolding erase_in erase
  inner-erase_in t u k m = ground (arith, lookup-insert t u (erase k (inner t m)) m, eqb_iff t u)

  pub find-erase_in :
      (t u k j : Text) (m : Map (Map V))
      → find u j (erase_in t k m) ≡ (if eqb t u && eqb k j then none else find u j m)
  find-erase_in t u k j m =
      ground (arith, inner-erase_in t u k m, lookup-erase k j (inner t m), eqb_iff t u)
