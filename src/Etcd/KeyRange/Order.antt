-- ===== src/Etcd/KeyRange/Order.antt =====
-- The order of etcd keys: bytes from left to right, a proper prefix first.
use mathlib.Core.Path.{subst}
use libatapp.Prelude.{
  Bool-cases, inl, inr, some_inj, none-ne-some, ℕ, ◌+◌, ◌≤◌, ◌≡◌, refl, Option, none, some, Bool,
  true, false, ◌&&◌, ◌||◌, not, List, [], ◌∷◌, ◌==◌, ltb, All, arith, if◌then◌else◌,
}

abbrev pub before : List ℕ → List ℕ → Bool
before [] [] = false
before [] (y ∷ ys) = true
before (x ∷ xs) [] = false
before (x ∷ xs) (y ∷ ys) = ltb x y || (x == y && before xs ys)

abbrev pub starts_with : List ℕ → List ℕ → Bool
starts_with [] s = true
starts_with (c ∷ cs) [] = false
starts_with (c ∷ cs) (x ∷ xs) = c == x && starts_with cs xs

abbrev pub all_ff : List ℕ → Bool
all_ff [] = true
all_ff (c ∷ cs) = c == 255 && all_ff cs

abbrev pub IsBytes : List ℕ → Type 0
IsBytes = All (λ c. c ≤ 255)

abbrev or_bump : ℕ → Option (List ℕ) → Option (List ℕ)
or_bump c none = if c == 255 then none else some ((c + 1) ∷ [])
or_bump c (some cs) = some (c ∷ cs)

-- the least key above every key that starts with the given one, if there is one
unfoldable pub successor : List ℕ → Option (List ℕ)
successor [] = none
successor (c ∷ cs) = or_bump c (successor cs)

pub successor-all_ff : (key : List ℕ) → all_ff key ≡ true → successor key ≡ none
unfolding successor
successor-all_ff [] h = refl
successor-all_ff (c ∷ cs) h = ground (arith, successor-all_ff cs)

pub none-all_ff : (key : List ℕ) → successor key ≡ none → all_ff key ≡ true
unfolding successor
none-all_ff [] h = refl
none-all_ff (c ∷ cs) h = ground (arith, none-all_ff cs)

all_ff-starts_with :
    (key s : List ℕ) → all_ff key ≡ true → IsBytes s → starts_with key s ≡ not (before s key)
all_ff-starts_with [] [] h b = refl
all_ff-starts_with [] (x ∷ xs) h b = refl
all_ff-starts_with (c ∷ cs) [] h b = refl
all_ff-starts_with (c ∷ cs) (x ∷ xs) h b = ground (arith, all_ff-starts_with cs xs)

before-nil : (xs : List ℕ) → before xs [] ≡ false
before-nil [] = refl
before-nil (x ∷ xs) = refl

bumped_last :
    (cs xs end : List ℕ) (c x : ℕ)
    → all_ff cs ≡ true
    → x ≤ 255
    → starts_with cs xs ≡ not (before xs cs)
    → or_bump c none ≡ some end
    → starts_with (c ∷ cs) (x ∷ xs) ≡ (not (before (x ∷ xs) (c ∷ cs)) && before (x ∷ xs) end)
bumped_last cs xs end c x f b ih h = elim (Bool-cases (c == 255)) [
  | inl top ↦ absurd (none-ne-some (rw top at h))
  | inr low ↦
      subst
        (λ t. starts_with (c ∷ cs) (x ∷ xs) ≡ (not (before (x ∷ xs) (c ∷ cs)) && before (x ∷ xs) t))
        (some_inj (rw low at h)) (ground (arith, before-nil xs))
]

-- The keys with a given start are those from it up to its successor.
pub successor-starts_with :
    (key s end : List ℕ)
    → successor key ≡ some end
    → IsBytes s
    → starts_with key s ≡ (not (before s key) && before s end)
unfolding successor
successor-starts_with [] s end h b = cc
successor-starts_with (c ∷ cs) [] end h b = refl
successor-starts_with (c ∷ cs) (x ∷ xs) end h b =
    by_tail (λ e' e. successor-starts_with cs xs e' e b.1) (successor cs) refl h
  where
    by_tail :
        ((e' : List ℕ)
          → successor cs ≡ some e'
          → starts_with cs xs ≡ (not (before xs cs) && before xs e'))
        → (o : Option (List ℕ)) → successor cs ≡ o
        → or_bump c o ≡ some end
        → starts_with (c ∷ cs) (x ∷ xs) ≡ (not (before (x ∷ xs) (c ∷ cs)) && before (x ∷ xs) end)
    by_tail ih none e g =
        bumped_last cs xs end c x (none-all_ff cs e) b.0
          (all_ff-starts_with cs xs (none-all_ff cs e) b.1) g
    by_tail ih (some e') e g =
        subst
          (λ t.
            starts_with (c ∷ cs) (x ∷ xs) ≡ (not (before (x ∷ xs) (c ∷ cs)) && before (x ∷ xs) t))
          (some_inj g) (ground (arith, ih e' e))
