-- ===== src/Etcd/Discovery/Cache/Coherent.antt =====
-- What a cache holds, against the maps it was made from.
use libatapp.Prelude.{
  ℕ, zero, suc, ◌≤◌, ◌≡◌, ◌⊎◌, refl, sym, ap, ◌∙◌, Bool, true, false, not, ◌&&◌, ◌||◌, Option, List,
  [], ◌∷◌, ◌++◌, ◌==◌, arith, if-cases, inl, inr, Bool-cases,
}
use libatapp.Prelude.Sort.{sort, insert_sorted}
use libatapp.Etcd.Discovery.{DiscoverySet}
use libatapp.Etcd.Discovery.Metadata.{Metadata, is_empty, filter, takes_labels, no_labels}
use libatapp.Etcd.Discovery.Ring.{is_cached}
use libatapp.Etcd.Discovery.Cache.{
  IndexCache, is_nil, clear, matches, push_named, push_nameless, points, ring_of, ring_less, filled,
  rebuild_cache, ready_cache, hash_point_per_ins,
}
use libatapp.Etcd.Discovery.Cache.Values.{has_value}

is_cached-append : (n : ℕ) (a b : List ℕ) → is_cached n (a ++ b) ≡ is_cached n a || is_cached n b
is_cached-append n [] b = refl
is_cached-append n (x ∷ a) b = ground (arith, is_cached-append n a b)

is_cached-insert_sorted :
    (less : ℕ → ℕ → Bool) (n x : ℕ) (xs : List ℕ)
    → is_cached n (insert_sorted less x xs) ≡ x == n || is_cached n xs
is_cached-insert_sorted less n x [] = refl
is_cached-insert_sorted less n x (y ∷ ys) = ground (arith, is_cached-insert_sorted less n x ys)

is_cached-sort :
    (less : ℕ → ℕ → Bool) (n : ℕ) (xs : List ℕ) → is_cached n (sort less xs) ≡ is_cached n xs
unfolding sort
is_cached-sort less n [] = refl
is_cached-sort less n (x ∷ xs) =
    ground (arith, is_cached-insert_sorted less n x (sort less xs), is_cached-sort less n xs)

is_nil-insert_sorted {ℓ} :
    {A : Type ℓ} (less : A → A → Bool) (x : A) (xs : List A)
    → is_nil (insert_sorted less x xs) ≡ false
is_nil-insert_sorted less x [] = refl
is_nil-insert_sorted less x (y ∷ ys) = ground arith

is_nil-sort {ℓ} :
    {A : Type ℓ} (less : A → A → Bool) (xs : List A) → is_nil (sort less xs) ≡ is_nil xs
unfolding sort
is_nil-sort less [] = refl
is_nil-sort less (x ∷ xs) = is_nil-insert_sorted less x (sort less xs)

is_nil-append {ℓ} : {A : Type ℓ} (a b : List A) → is_nil a ≡ false → is_nil (a ++ b) ≡ false
is_nil-append [] b h = cc
is_nil-append (x ∷ a) b h = refl

takes_no_labels :
    (rules labels : List (ℕ × ℕ)) → no_labels rules ≡ true → takes_labels rules labels ≡ true
takes_no_labels [] labels h = refl
takes_no_labels (x ∷ rules) labels h = cc

nil-is_cached : (n : ℕ) (xs : List ℕ) → is_nil xs ≡ true → is_cached n xs ≡ false
nil-is_cached n [] h = refl
nil-is_cached n (x ∷ xs) h = cc

nil-has_value : (n : ℕ) (m : List (ℕ × ℕ)) → is_nil m ≡ true → has_value n m ≡ false
nil-has_value n [] h = refl
nil-has_value n (x ∷ m) h = cc

pub eq_of : (a b : ℕ) → a == b ≡ true → a ≡ b
eq_of a b h = ground (arith, h)

-- the empty rule takes every node
pub empty_takes : (rule m : Metadata) → is_empty rule ≡ true → filter rule m ≡ true
unfolding is_empty filter
empty_takes rule m h = ground (arith, h, takes_no_labels rule.labels m.labels)

module _ (id_of : ℕ → ℕ) (name_of : ℕ → ℕ) (metadata_of : ℕ → Option Metadata) where
  -- a node stands in the map by name, or, without a name, in the map by id, and a rule takes it
  abbrev pub listed : Option Metadata → DiscoverySet → ℕ → Bool
  listed rule s n =
      matches id_of name_of metadata_of rule n
      && ((not (name_of n == 0) && has_value n s.node_by_name)
          || (name_of n == 0 && has_value n s.node_by_id))

  module _ (rule : Option Metadata) (n : ℕ) where
    takes_it : Bool
    takes_it = matches id_of name_of metadata_of rule n

    push_named-listed :
        (m : List (ℕ × ℕ))
        → is_cached n (push_named id_of name_of metadata_of rule m)
          ≡ matches id_of name_of metadata_of rule n && (not (name_of n == 0) && has_value n m)
    push_named-listed [] = ground arith
    push_named-listed ((k, x) ∷ m) = elim (Bool-cases (x == n)) [
      | inl e ↦
          let same = eq_of x n e in
          ground (
            arith,
            e,
            push_named-listed m,
            ap (matches id_of name_of metadata_of rule) same,
            ap name_of same,
          )
      | inr other ↦ ground (arith, other, push_named-listed m)
    ]

    push_nameless-listed :
        (m : List (ℕ × ℕ))
        → is_cached n (push_nameless id_of name_of metadata_of rule m)
          ≡ matches id_of name_of metadata_of rule n && (name_of n == 0 && has_value n m)
    push_nameless-listed [] = ground arith
    push_nameless-listed ((k, x) ∷ m) = elim (Bool-cases (x == n)) [
      | inl e ↦
          let same = eq_of x n e in
          ground (
            arith,
            e,
            push_nameless-listed m,
            ap (matches id_of name_of metadata_of rule) same,
            ap name_of same,
          )
      | inr other ↦ ground (arith, other, push_nameless-listed m)
    ]

    pushed-listed :
        (s : DiscoverySet)
        → is_cached n (
            push_named id_of name_of metadata_of rule s.node_by_name
            ++ push_nameless id_of name_of metadata_of rule s.node_by_id)
          ≡ listed rule s n
    pushed-listed s = ground (
      arith,
      is_cached-append n (push_named id_of name_of metadata_of rule s.node_by_name)
          (push_nameless id_of name_of metadata_of rule s.node_by_id),
      push_named-listed s.node_by_name,
      push_nameless-listed s.node_by_id,
    )

  -- A cache is empty, or its nodes and its references are those that its rule lists.
  pub record IsCoherent (rule : Option Metadata) (s : DiscoverySet) (c : IndexCache) : Type 0 where
    pub ring : is_nil c.normal_hashing_ring ≡ is_nil c.round_robin_cache
    pub nodes :
        ((is_nil c.round_robin_cache ≡ true) × (is_nil c.reference_cache ≡ true))
        ⊎ ((n : ℕ)
            → (is_cached n c.round_robin_cache ≡ listed rule s n)
              × (is_cached n c.reference_cache ≡ listed rule s n))

  pub clear-IsCoherent :
      (rule : Option Metadata) (s : DiscoverySet) (c : IndexCache) → IsCoherent rule s (clear c)
  clear-IsCoherent rule s c = record { ring = refl; nodes = inl (refl, refl) }

  module _ (hash_of : ℕ → ℕ → ℕ) (less : ℕ → ℕ → Bool) where
    points-is_nil :
        (n i k : ℕ) → 1 ≤ k → is_nil (points id_of name_of metadata_of hash_of less n i k) ≡ false
    unfolding points
    points-is_nil n i zero h = elim h [ ]
    points-is_nil n i (suc k) h = refl

    ring_of-is_nil :
        (ns : List ℕ) → is_nil (ring_of id_of name_of metadata_of hash_of less ns) ≡ is_nil ns
    unfolding ring_of
    ring_of-is_nil [] = refl
    ring_of-is_nil (n ∷ ns) =
        is_nil-append (points id_of name_of metadata_of hash_of less n 0 hash_point_per_ins)
          (ring_of id_of name_of metadata_of hash_of less ns)
          (points-is_nil n 0 hash_point_per_ins (omega arith))

    filled-IsCoherent :
        (rule : Option Metadata) (s : DiscoverySet) (ns : List ℕ)
        → ((n : ℕ) → is_cached n ns ≡ listed rule s n)
        → IsCoherent rule s (filled id_of name_of metadata_of hash_of less ns)
    filled-IsCoherent rule s ns same = record {
      ring =
          is_nil-sort (ring_less id_of name_of metadata_of hash_of less)
            (ring_of id_of name_of metadata_of hash_of less ns)
          ∙ ring_of-is_nil ns
          ∙ sym (is_nil-sort less ns);
      nodes = inr (λ n. (is_cached-sort less n ns ∙ same n, same n));
    }

    -- a reader finds a coherent cache, with all that its rule lists
    pub ready_cache-IsCoherent :
        (rule : Option Metadata) (s : DiscoverySet) (c : IndexCache)
        → IsCoherent rule s c
        → let c' = ready_cache id_of name_of metadata_of hash_of less rule s c in
          IsCoherent rule s c' × ((n : ℕ) → is_cached n c'.round_robin_cache ≡ listed rule s n)
    unfolding rebuild_cache
    ready_cache-IsCoherent rule s c h =
        let Ready : IndexCache → Type 0 = λ c'.
          IsCoherent rule s c' × ((n : ℕ) → is_cached n c'.round_robin_cache ≡ listed rule s n) in
        let ns =
          push_named id_of name_of metadata_of rule s.node_by_name
          ++ push_nameless id_of name_of metadata_of rule s.node_by_id in
        let all_listed = λ (n : ℕ). pushed-listed rule n s in
        if-cases Ready (is_nil c.round_robin_cache) _ _
          (λ empty.
            if-cases Ready (not (is_nil c.normal_hashing_ring)) _ _ (λ rings. cc (h.ring))
              (λ no_ring.
                if-cases Ready (is_nil s.node_by_id && is_nil s.node_by_name) _ _
                  (λ nothing. (
                    h,
                    λ n. ground (
                      arith,
                      nothing,
                      empty,
                      nil-is_cached n c.round_robin_cache,
                      nil-has_value n s.node_by_id,
                      nil-has_value n s.node_by_name,
                    ),
                  ))
                  (λ any. (
                    filled-IsCoherent rule s ns all_listed,
                    λ n. is_cached-sort less n ns ∙ all_listed n,
                  ))))
          (λ full. (h, λ n. elim (h.nodes) [ inl (e, _) ↦ cc | inr f ↦ (f n).0 ]))
