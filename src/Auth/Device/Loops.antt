-- ===== src/Auth/Device/Loops.antt =====
-- The loops over the table of logins: what a search and a change at the first match do.
use mcphub.Prelude.{
  ℕ, suc, ◌≡◌, refl, inl, inr, Bool, true, false, Option, none, some, [], ◌∷◌, Text, Map, any, All,
  Any, Bool-cases, insert, lookup, eqb, if◌then◌else◌, arith,
}
use mcphub.Auth.Device.Entries.{DeviceEntry, passed, changed_or_same, change_first}

abbrev pub holds : (DeviceEntry → Bool) → Map DeviceEntry → Bool
holds p m = any (λ (x : Text × DeviceEntry). p x.1) m

abbrev pub Table : Type 0
Table = Map DeviceEntry

abbrev pub Each : (DeviceEntry → Type 0) → Table → Type 0
Each P m = All (λ (x : Text × DeviceEntry). P x.1) m

pub holds-Any :
    (p : DeviceEntry → Bool) (m : Table)
    → Any (λ (x : Text × DeviceEntry). p x.1 ≡ true) m
    → holds p m ≡ true
holds-Any p [] h = absurd h
holds-Any p ((k, e) ∷ m) (inl h) = ground arith
holds-Any p ((k, e) ∷ m) (inr h) = ground (arith, holds-Any p m h)

pub holds-false :
    (p : DeviceEntry → Bool) (m : Table) → Each (λ e. p e ≡ false) m → holds p m ≡ false
holds-false p [] h = refl
holds-false p ((k, e) ∷ m) h = ground (arith, holds-false p m h.1)

pub change_first-none :
    (p : DeviceEntry → Bool) (f : DeviceEntry → DeviceEntry) (m : Table)
    → holds p m ≡ false
    → change_first p f m ≡ none
unfolding change_first
change_first-none p f [] h = refl
change_first-none p f ((k, e) ∷ m) h = ground (arith, change_first-none p f m)

-- The entry that is changed passed the test, and stands in the new table as changed.
pub change_first-some :
    (p : DeviceEntry → Bool) (f : DeviceEntry → DeviceEntry) (q : DeviceEntry → Bool) (m : Table)
    → holds p m ≡ true
    → ((e : DeviceEntry) → p e ≡ true → q (f e) ≡ true)
    → (x : DeviceEntry) × (m' : Table) × (change_first p f m ≡ some (x, m')) × (holds q m' ≡ true)
unfolding change_first
change_first-some p f q [] h marks = cc
change_first-some p f q ((k, e) ∷ m) h marks = elim (Bool-cases (p e)) [
  | inl yes' ↦ (f e, (k, f e) ∷ m, ground arith, ground (arith, marks e))
  | inr no' ↦
      let (x, m', found, after) = change_first-some p f q m (ground arith) marks in
      (x, (k, e) ∷ m', ground arith, ground arith)
]

passed-Each :
    (P : DeviceEntry → Type 0) (k : Text) (y : DeviceEntry) (m : Table)
    (o : Option (DeviceEntry × Table))
    → P y
    → Each P (changed_or_same o m)
    → Each P (changed_or_same (passed k y o) ((k, y) ∷ m))
passed-Each P k y m none py h = (py, h)
passed-Each P k y m (some (x, m')) py h = (py, h)

-- A change keeps what holds of each entry, if the change of a matching entry keeps it.
pub change_first-Each :
    (p : DeviceEntry → Bool) (f : DeviceEntry → DeviceEntry) (P : DeviceEntry → Type 0) (m : Table)
    → ((e : DeviceEntry) → P e → P (f e))
    → Each P m
    → Each P (changed_or_same (change_first p f m) m)
unfolding change_first
change_first-Each p f P [] keep h = tt
change_first-Each p f P ((k, y) ∷ m) keep h = elim (Bool-cases (p y)) [
  | inl match ↦ rw match (keep y h.0, h.1)
  | inr pass ↦
      rw pass (passed-Each P k y m (change_first p f m) h.0 (change_first-Each p f P m keep h.1))
]

-- How many entries pass a test.
unfoldable pub count : (DeviceEntry → Bool) → Table → ℕ
count p [] = 0
count p ((k, e) ∷ m) = let rest = count p m in if p e then suc rest else rest

pub count_zero : (p : DeviceEntry → Bool) (m : Table) → count p m ≡ 0 → holds p m ≡ false
unfolding count
count_zero p [] h = refl
count_zero p ((k, e) ∷ m) h = ground (arith, count_zero p m)

pub Each-insert :
    (P : DeviceEntry → Type 0) (k : Text) (e : DeviceEntry) (m : Table)
    → P e
    → Each P m
    → Each P (insert k e m)
unfolding insert
Each-insert P k e [] pe h = (pe, tt)
Each-insert P k e ((j, y) ∷ m) pe h = elim (Bool-cases (eqb j k)) [
  | inl same ↦ rw same (pe, h.1)
  | inr other ↦ rw other (h.0, Each-insert P k e m pe h.1)
]

pub holds-insert :
    (p : DeviceEntry → Bool) (k : Text) (e : DeviceEntry) (m : Table)
    → p e ≡ true
    → holds p (insert k e m) ≡ true
unfolding insert
holds-insert p k e [] h = ground arith
holds-insert p k e ((j, y) ∷ m) h = ground (arith, holds-insert p k e m h)

-- Where only the entry at a new key passes the test, that is the entry that is changed.
pub change_first-insert :
    (p : DeviceEntry → Bool) (f : DeviceEntry → DeviceEntry) (k : Text) (e : DeviceEntry)
    (m : Table)
    → holds p m ≡ false
    → lookup k m ≡ none
    → p e ≡ true
    → change_first p f (insert k e m) ≡ some (f e, insert k (f e) m)
unfolding change_first insert lookup
change_first-insert p f k e [] out new match = ground arith
change_first-insert p f k e ((j, y) ∷ m) out new match =
    ground (arith, change_first-insert p f k e m)
