-- ===== src/Etcd/Discovery/Cache/Values.antt =====
-- The nodes that stand in a map, under whatever key.
use libatapp.Prelude.{
  ℕ, ◌≡◌, refl, Bool, true, false, ◌||◌, none, List, [], ◌∷◌, ◌==◌, find, insert, erase,
  find-insert, find-erase, arith, inl, inr, Bool-cases,
}
use libatapp.Etcd.Discovery.Metadata.{holds}

abbrev pub has_value : ℕ → List (ℕ × ℕ) → Bool
has_value n [] = false
has_value n ((k, v) ∷ m) = v == n || has_value n m

-- no key twice
abbrev pub IsMap : List (ℕ × ℕ) → Type 0
IsMap [] = Unit
IsMap ((k, v) ∷ m) = (find k m ≡ none) × IsMap m

pub insert-IsMap : (k v : ℕ) (m : List (ℕ × ℕ)) → IsMap m → IsMap (insert k v m)
insert-IsMap k v [] h = (refl, tt)
insert-IsMap k v ((k', w) ∷ m) h = elim (Bool-cases (k == k')) [
  | inl same ↦ rw same (ground (arith, h.0, same), h.1)
  | inr other ↦ rw other (ground (arith, find-insert k' k v m, h.0, other), insert-IsMap k v m h.1)
]

pub erase-IsMap : (k : ℕ) (m : List (ℕ × ℕ)) → IsMap m → IsMap (erase k m)
erase-IsMap k [] h = tt
erase-IsMap k ((k', w) ∷ m) h = elim (Bool-cases (k == k')) [
  | inl same ↦ rw same (erase-IsMap k m h.1)
  | inr other ↦ rw other (ground (arith, find-erase k' k m, h.0), erase-IsMap k m h.1)
]

pub has_value-insert :
    (n k v : ℕ) (m : List (ℕ × ℕ))
    → v == n ≡ false
    → has_value n (insert k v m) ≡ true
    → has_value n m ≡ true
has_value-insert n k v [] ne h = ground (arith, ne, h)
has_value-insert n k v ((k', w) ∷ m) ne h = ground (arith, ne, h, has_value-insert n k v m)

pub insert-has_value :
    (n k v : ℕ) (m : List (ℕ × ℕ))
    → holds (find k m) n ≡ false
    → has_value n m ≡ true
    → has_value n (insert k v m) ≡ true
insert-has_value n k v [] ne h = ground (arith, h)
insert-has_value n k v ((k', w) ∷ m) ne h = ground (arith, ne, h, insert-has_value n k v m)

pub has_value-erase :
    (n k : ℕ) (m : List (ℕ × ℕ)) → has_value n (erase k m) ≡ true → has_value n m ≡ true
has_value-erase n k [] h = h
has_value-erase n k ((k', w) ∷ m) h = ground (arith, h, has_value-erase n k m)

erase_absent : (k : ℕ) (m : List (ℕ × ℕ)) → find k m ≡ none → erase k m ≡ m
erase_absent k [] h = refl
erase_absent k ((k', w) ∷ m) h = ground (arith, h, erase_absent k m)

pub erase-has_value :
    (n k : ℕ) (m : List (ℕ × ℕ))
    → IsMap m
    → holds (find k m) n ≡ false
    → has_value n m ≡ true
    → has_value n (erase k m) ≡ true
erase-has_value n k [] u ne h = h
erase-has_value n k ((k', w) ∷ m) u ne h =
    ground (arith, u.0, ne, h, erase-has_value n k m u.1, erase_absent k m)
