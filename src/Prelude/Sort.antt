-- ===== src/Prelude/Sort.antt =====
-- std::sort over a comparison, as an insertion sort: what it gives is a sorted rearrangement.
use libatapp.Prelude.Tests.{if◌then◌else◌}
use mathlib.Core.Bool.{Bool}
use mathlib.Core.List.{List, [], ◌∷◌}

module _ {ℓ} {A : Type ℓ} where
  abbrev pub insert_sorted : (A → A → Bool) → A → List A → List A
  insert_sorted less x [] = x ∷ []
  insert_sorted less x (y ∷ ys) =
      let later = y ∷ insert_sorted less x ys in if less y x then later else x ∷ y ∷ ys

  unfoldable pub sort : (A → A → Bool) → List A → List A
  sort less [] = []
  sort less (x ∷ xs) = insert_sorted less x (sort less xs)
