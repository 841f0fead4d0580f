-- ===== src/Etcd/Discovery/Cache/Rings.antt =====
-- The rings that rebuild_cache makes are sorted.
use libatapp.Prelude.{ℕ, ◌≤◌, ◌≡◌, Bool, true, false, Option, List, [], ◌∷◌, suc, arith, if-cases}
use libatapp.Prelude.Sort.{sort, insert_sorted}
use libatapp.Etcd.Discovery.Metadata.{Metadata}
use libatapp.Etcd.Discovery.Ring.{HashNode, HashKey, lower_bound_node_hash_by_consistent_hash}
use libatapp.Etcd.Discovery.Ring.Compact.{IsSorted, Tells, plain, first_node, search-compact}
use libatapp.Etcd.Discovery.Cache.{ring_less, ring_of, filled}

-- no entry of a list comes before a hash code at its front
abbrev Leads : HashNode → List HashNode → Type 0
Leads y [] = Unit
Leads y (x ∷ xs) = y.hash_code ≤ x.hash_code

cons-IsSorted : (y : HashNode) (xs : List HashNode) → Leads y xs → IsSorted xs → IsSorted (y ∷ xs)
cons-IsSorted y [] l h = tt
cons-IsSorted y (x ∷ xs) l h = (l, h)

tail-IsSorted : (y : HashNode) (xs : List HashNode) → IsSorted (y ∷ xs) → Leads y xs × IsSorted xs
tail-IsSorted y [] h = (tt, tt)
tail-IsSorted y (x ∷ xs) h = h

module _ (id_of : ℕ → ℕ) (name_of : ℕ → ℕ) (metadata_of : ℕ → Option Metadata) (hash_of : ℕ → ℕ → ℕ)
    (less : ℕ → ℕ → Bool) where
  insert_sorted-Leads :
      (y x : HashNode) (xs : List HashNode)
      → y.hash_code ≤ x.hash_code
      → Leads y xs
      → Leads y (insert_sorted (ring_less id_of name_of metadata_of hash_of less) x xs)
  insert_sorted-Leads y x [] first l = first
  insert_sorted-Leads y x (z ∷ zs) first l =
      if-cases (Leads y) (ring_less id_of name_of metadata_of hash_of less z x) _ _ (λ later. l)
        (λ here. first)

  insert_sorted-IsSorted :
      (x : HashNode) (xs : List HashNode)
      → IsSorted xs
      → IsSorted (insert_sorted (ring_less id_of name_of metadata_of hash_of less) x xs)
  insert_sorted-IsSorted x [] h = tt
  insert_sorted-IsSorted x (y ∷ ys) h =
      let (leads, sorted) = tail-IsSorted y ys h in
      let ih = insert_sorted-IsSorted x ys sorted in
      if-cases IsSorted (ring_less id_of name_of metadata_of hash_of less y x) _ _
        (λ later.
          cons-IsSorted y (insert_sorted (ring_less id_of name_of metadata_of hash_of less) x ys)
            (insert_sorted-Leads y x ys (ground (arith, later)) leads) ih)
        (λ here. (ground (arith, here), h))

  sort-IsSorted :
      (xs : List HashNode) → IsSorted (sort (ring_less id_of name_of metadata_of hash_of less) xs)
  unfolding sort
  sort-IsSorted [] = tt
  sort-IsSorted (x ∷ xs) =
      insert_sorted-IsSorted x (sort (ring_less id_of name_of metadata_of hash_of less) xs)
        (sort-IsSorted xs)

  -- On the ring that rebuild_cache makes of some nodes, the first entry that a search without kNext
  -- gives for a key, with kUnique or without, stands at the same node as the first that it gives on the
  -- compact ring, if node_equal tells the nodes of the ring apart.
  pub filled-compact :
      (ns : List ℕ) (unique : Bool) (n round_robin_size : ℕ) (key : HashKey)
      → Tells id_of name_of (filled id_of name_of metadata_of hash_of less ns).normal_hashing_ring
      → let ring = (filled id_of name_of metadata_of hash_of less ns).normal_hashing_ring in
        first_node (
          lower_bound_node_hash_by_consistent_hash id_of name_of
            (suc n)
            key
            (plain unique true)
            round_robin_size
            ring)
        ≡ first_node (
            lower_bound_node_hash_by_consistent_hash id_of name_of
              (suc n)
              key
              (plain unique false)
              round_robin_size
              ring)
  filled-compact ns unique n r key tells =
      search-compact id_of name_of unique n r key
        (sort (ring_less id_of name_of metadata_of hash_of less)
          (ring_of id_of name_of metadata_of hash_of less ns))
        tells (sort-IsSorted (ring_of id_of name_of metadata_of hash_of less ns))
