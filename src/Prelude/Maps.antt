-- ===== src/Prelude/Maps.antt =====
-- Maps from numbers as association lists: std::unordered_map with find, operator[] and erase.
use mathlib.Core.Path.{◌≡◌, refl}
use mathlib.Core.Option.{Option, none, some}
use mathlib.Core.List.{List, [], ◌∷◌}
use native.Mathlib.Omega.{arith}
use Prim.Native.Nat.{ℕ}
use libatapp.Prelude.Tests.{◌==◌, if◌then◌else◌}

module _ {ℓ} {V : Type ℓ} where
  abbrev pub find : ℕ → List (ℕ × V) → Option V
  find k [] = none
  find k ((k', v) ∷ m) = if k == k' then some v else find k m

  -- `map[k] = v`
  abbrev pub insert : ℕ → V → List (ℕ × V) → List (ℕ × V)
  insert k v [] = (k, v) ∷ []
  insert k v ((k', w) ∷ m) =
      let later = (k', w) ∷ insert k v m in if k == k' then (k, v) ∷ m else later

  abbrev pub erase : ℕ → List (ℕ × V) → List (ℕ × V)
  erase k [] = []
  erase k ((k', v) ∷ m) = let rest = erase k m in if k == k' then rest else (k', v) ∷ rest

pub find-insert {ℓ} :
    {V : Type ℓ} (j k : ℕ) (v : V) (m : List (ℕ × V))
    → find j (insert k v m) ≡ (if j == k then some v else find j m)
find-insert j k v [] = refl
find-insert j k v ((k', w) ∷ m) = ground (arith, find-insert j k v m)

pub find-erase {ℓ} :
    {V : Type ℓ} (j k : ℕ) (m : List (ℕ × V))
    → find j (erase k m) ≡ (if j == k then none else find j m)
find-erase j k [] = ground arith
find-erase j k ((k', w) ∷ m) = ground (arith, find-erase j k m)
