-- ===== src/Prelude/Splits.antt =====
-- Functions of Go's package strings that take texts apart: TrimPrefix, TrimSuffix, Replace, Trim and
-- Split at a byte, and Fields.
use Prim.Native.Nat.{ℕ, zero, suc}
use mathlib.Core.Path.{◌≡◌, refl}
use mathlib.Core.Bool.{false}
use mathlib.Core.Logic.{inl, inr}
use mathlib.Core.List.{List, [], ◌∷◌, ◌++◌, reverse}
use native.Mathlib.Omega.{arith}
use mcphub.Prelude.Tests.{◌==◌, if◌then◌else◌, Bool-cases}
use mcphub.Prelude.Lists.{All, any, length}
use mcphub.Prelude.Texts.{Text, is_space, eqb, has_prefix}

-- What is left of a text after so many bytes.
abbrev pub drop : ℕ → Text → Text
drop zero s = s
drop (suc n) [] = []
drop (suc n) (c ∷ s) = drop n s

-- `strings.TrimSuffix`
unfoldable pub trim_suffix : Text → Text → Text
unfolding eqb
trim_suffix [] suffix = []
trim_suffix (c ∷ s) suffix =
    let rest = trim_suffix s suffix in if eqb (c ∷ s) suffix then [] else c ∷ rest

-- `strings.TrimPrefix`
abbrev pub trim_prefix : Text → Text → Text
trim_prefix s prefix = if has_prefix s prefix then drop (length prefix) s else s

-- `strings.Replace(s, old, new, 1)`, where `old` is not empty.
unfoldable pub replace_one : Text → Text → Text → Text
unfolding has_prefix
replace_one [] old new = []
replace_one (c ∷ s) old new =
    let rest = replace_one s old new in
    if has_prefix (c ∷ s) old then new ++ drop (length old) (c ∷ s) else c ∷ rest

-- A byte before a text that is split already.
abbrev pub before : ℕ → List Text → List Text
before c [] = (c ∷ []) ∷ []
before c (p ∷ ps) = (c ∷ p) ∷ ps

unfoldable pub split : ℕ → Text → List Text
split sep [] = [] ∷ []
split sep (c ∷ s) = let rest = split sep s in if c == sep then [] ∷ rest else before c rest

-- `strings.Join`
unfoldable pub join : Text → List Text → Text
join sep [] = []
join sep (p ∷ []) = p
join sep (p ∷ (q ∷ ps)) = p ++ (sep ++ join sep (q ∷ ps))

unfoldable pub trim_left_byte : ℕ → Text → Text
trim_left_byte sep [] = []
trim_left_byte sep (c ∷ s) = let rest = trim_left_byte sep s in if c == sep then rest else c ∷ s

unfoldable pub trim_byte : ℕ → Text → Text
unfolding trim_left_byte
trim_byte sep s = reverse (trim_left_byte sep (reverse (trim_left_byte sep s)))

-- A word that is being read, and those after it.
abbrev pub flushed : Text → List Text → List Text
flushed [] ws = ws
flushed (c ∷ w) ws = reverse (c ∷ w) ∷ ws

fields_from : Text → Text → List Text
unfolding is_space
fields_from w [] = flushed w []
fields_from w (c ∷ s) =
    let on = fields_from (c ∷ w) s in
    let off = flushed w (fields_from [] s) in if is_space c then off else on

unfoldable pub fields : Text → List Text
unfolding fields_from
fields s = fields_from [] s

-- The pieces between the separators have none.
abbrev pub Free : ℕ → List Text → Type 0
Free sep ps = All (λ p. any (λ c. c == sep) p ≡ false) ps

before-Free :
    (sep c : ℕ) (ps : List Text) → (c == sep) ≡ false → Free sep ps → Free sep (before c ps)
before-Free sep c [] ne free = (ground arith, tt)
before-Free sep c (p ∷ ps) ne free = (ground (arith, free.0), free.1)

pub split-Free : (sep : ℕ) (s : Text) → Free sep (split sep s)
unfolding split
split-Free sep [] = (refl, tt)
split-Free sep (c ∷ s) = elim (Bool-cases (c == sep)) [
  | inl e ↦ rw e (refl, split-Free sep s)
  | inr e ↦ rw e (before-Free sep c (split sep s) e (split-Free sep s))
]
