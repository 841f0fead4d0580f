-- ===== src/Etcd/Discovery/Ring/Compact.antt =====
-- The compact ring finds the nodes that the ring finds.
use Prim.Native.Nat.{min}
use libatapp.Prelude.{
  ℕ, zero, suc, ◌≤◌, ◌≡◌, refl, sym, ap, ◌∙◌, Bool, true, false, ◌||◌, Option, none, some, List, [],
  ◌∷◌, ◌++◌, ◌==◌, arith, length, length-append, ◌+◌, Bool-cases, inl, inr,
}
use libatapp.Etcd.Discovery.Ring.{
  HashNode, HashKey, SearchMode, before_key, lower_bound, visited, node_equal, settle_run, finish,
  rebuild_compact_cache, collect, lower_bound_node_hash_by_consistent_hash,
}

-- the node of the first entry
abbrev pub first_node : List HashNode → Option ℕ
first_node [] = none
first_node (x ∷ xs) = some x.node

abbrev pub is_on : ℕ → List HashNode → Bool
is_on n [] = false
is_on n (x ∷ xs) = x.node == n || is_on n xs

-- sorted by hash code
abbrev pub IsSorted : List HashNode → Type 0
IsSorted [] = Unit
IsSorted (x ∷ []) = Unit
IsSorted (x ∷ y ∷ xs) = (x.hash_code ≤ y.hash_code) × IsSorted (y ∷ xs)

abbrev found_or : Option ℕ → Option ℕ → Option ℕ
found_or none b = b
found_or (some a) b = some a

abbrev found : ℕ → List HashNode → Option ℕ
found key xs = found_or (first_node (lower_bound key xs)) (first_node xs)

first_node-append :
    (a b : List HashNode) → first_node (a ++ b) ≡ found_or (first_node a) (first_node b)
first_node-append [] b = refl
first_node-append (x ∷ a) b = refl

lower_bound-append :
    (key : ℕ) (a b : List HashNode)
    → first_node (lower_bound key (a ++ b))
      ≡ found_or (first_node (lower_bound key a)) (first_node (lower_bound key b))
lower_bound-append key [] b = refl
lower_bound-append key (x ∷ a) b = ground (arith, lower_bound-append key a b)

visited-found : (key : ℕ) (xs : List HashNode) → first_node (visited key xs) ≡ found key xs
visited-found key [] = refl
visited-found key (x ∷ xs) =
    ground (arith, first_node-append (lower_bound key (x ∷ xs)) (before_key key (x ∷ xs)))

is_on-append : (n : ℕ) (a b : List HashNode) → is_on n (a ++ b) ≡ is_on n a || is_on n b
is_on-append n [] b = refl
is_on-append n (x ∷ a) b = ground (arith, is_on-append n a b)

-- a search without kNext
abbrev pub plain : Bool → Bool → SearchMode
plain unique compact = record { is_next = false; is_compact = compact; is_unique = unique }

module _ (id_of : ℕ → ℕ) (name_of : ℕ → ℕ) where
  -- node_equal tells the nodes of a ring apart
  abbrev pub Tells : List HashNode → Type 0
  Tells ring =
      (a b : ℕ)
      → is_on a ring ≡ true
      → is_on b ring ≡ true
      → node_equal id_of name_of a b ≡ true
      → a ≡ b

  -- every run of a ring by its last entry
  abbrev runs : HashNode → List HashNode → List HashNode
  runs p xs = let (out, end) = settle_run id_of name_of p xs in out ++ end ∷ []

  runs-lower_bound :
      (key : ℕ) (p : HashNode) (xs : List HashNode)
      → Tells (p ∷ xs)
      → IsSorted (p ∷ xs)
      → first_node (lower_bound key (runs p xs)) ≡ first_node (lower_bound key (p ∷ xs))
  runs-lower_bound key p [] t s = refl
  runs-lower_bound key p (x ∷ xs) t s =
      let ih =
        runs-lower_bound key x xs (λ a b ha hb. t a b (ground (arith, ha)) (ground (arith, hb)))
          s.1 in
      elim (Bool-cases (node_equal id_of name_of x.node p.node)) [
        | inl same ↦
            let e = t x.node p.node (ground arith) (ground arith) same in
            rw same (ground (arith, ih, e, s.0))
        | inr new ↦ rw new (ground (arith, ih))
      ]

  runs-first_node :
      (p : HashNode) (xs : List HashNode) → Tells (p ∷ xs) → first_node (runs p xs) ≡ some p.node
  runs-first_node p [] t = refl
  runs-first_node p (x ∷ xs) t =
      let ih =
        runs-first_node x xs (λ a b ha hb. t a b (ground (arith, ha)) (ground (arith, hb))) in
      elim (Bool-cases (node_equal id_of name_of x.node p.node)) [
        | inl same ↦ rw same (ih ∙ ap some (t x.node p.node (ground arith) (ground arith) same))
        | inr new ↦ rw new refl
      ]

  runs-is_on :
      (n : ℕ) (p : HashNode) (xs : List HashNode)
      → is_on n (runs p xs) ≡ true
      → is_on n (p ∷ xs) ≡ true
  runs-is_on n p [] h = h
  runs-is_on n p (x ∷ xs) h = elim (Bool-cases (node_equal id_of name_of x.node p.node)) [
    | inl same ↦ ground (arith, runs-is_on n x xs (rw same at h))
    | inr new ↦ let h' = rw new at h in ground (arith, h', runs-is_on n x xs)
  ]

  finish-found :
      (key : ℕ) (out : List HashNode) (end : HashNode)
      → Tells (out ++ end ∷ [])
      → found key (finish id_of name_of out end) ≡ found key (out ++ end ∷ [])
  finish-found key [] end t = refl
  finish-found key (f ∷ out) end t = elim (Bool-cases (node_equal id_of name_of end.node f.node)) [
    | inl same ↦
        let e =
          t end.node f.node (ground (arith, is_on-append end.node out (end ∷ []))) (ground arith)
            same in
        rw same (ground (arith, e, lower_bound-append key out (end ∷ [])))
    | inr new ↦ rw new refl
  ]

  runs-found :
      (key : ℕ) (p : HashNode) (xs : List HashNode)
      → Tells (p ∷ xs)
      → IsSorted (p ∷ xs)
      → found key (runs p xs) ≡ found key (p ∷ xs)
  runs-found key p xs t s = ground (arith, runs-lower_bound key p xs t s, runs-first_node p xs t)

  -- On a sorted ring whose nodes node_equal tells apart, the first node that is found for a key on the
  -- compact ring is the first that is found on the whole ring.
  pub rebuild_compact_cache-found :
      (ring : List HashNode) (key : ℕ)
      → Tells ring
      → IsSorted ring
      → first_node (visited key (rebuild_compact_cache id_of name_of ring))
        ≡ first_node (visited key ring)
  unfolding rebuild_compact_cache
  rebuild_compact_cache-found [] key t s = refl
  rebuild_compact_cache-found (p ∷ xs) key t s =
      let (out, end) = settle_run id_of name_of p xs in
      visited-found key (finish id_of name_of out end)
      ∙ finish-found key out end (λ a b ha hb. t a b (runs-is_on a p xs ha) (runs-is_on b p xs hb))
      ∙ runs-found key p xs t s
      ∙ sym (visited-found key (p ∷ xs))

  no_entries :
      (mode : SearchMode) (key : HashKey) (room : ℕ)
      → first_node (collect id_of name_of mode key room [] []) ≡ none
  no_entries mode key zero = refl
  no_entries mode key (suc room) = refl

  any_entry :
      (c : Bool) (key : HashKey) (x : HashNode) (room : ℕ) (xs : List HashNode)
      → 1 ≤ room
      → first_node (collect id_of name_of (plain false c) key room (x ∷ xs) []) ≡ some x.node
  any_entry c key x zero xs h = elim h [ ]
  any_entry c key x (suc room) xs h = refl

  visited-length : (key : ℕ) (ring : List HashNode) → length (visited key ring) ≡ length ring
  visited-length key ring =
      length-append (lower_bound key ring) (before_key key ring) ∙ bounds key ring
    where
      bounds :
          (key : ℕ) (ring : List HashNode)
          → length (lower_bound key ring) + length (before_key key ring) ≡ length ring
      bounds key [] = omega arith
      bounds key (x ∷ xs) = ground (arith, bounds key xs)

  enough_room :
      (c : Bool) (key : HashKey) (n k : ℕ) (entries : List HashNode)
      → length entries ≡ k
      → first_node (collect id_of name_of (plain false c) key (min (suc n) k) entries [])
        ≡ first_node entries
  enough_room c key n k [] h = no_entries (plain false c) key (min (suc n) k)
  enough_room c key n k (x ∷ xs) h = any_entry c key x (min (suc n) k) xs (omega (arith, h))

  first_unique :
      (c : Bool) (key : HashKey) (room : ℕ) (xs : List HashNode)
      → first_node (collect id_of name_of (plain true c) key (suc room) xs []) ≡ first_node xs
  first_unique c key room [] = refl
  first_unique c key room (x ∷ xs) = refl

  same_room :
      (key : HashKey) (room : ℕ) (xs ys : List HashNode)
      → first_node xs ≡ first_node ys
      → first_node (collect id_of name_of (plain true true) key room xs [])
        ≡ first_node (collect id_of name_of (plain true false) key room ys [])
  same_room key zero xs ys h = refl
  same_room key (suc room) xs ys h =
      first_unique true key room xs ∙ h ∙ sym (first_unique false key room ys)

  -- The first entry that a search without kNext gives for a key stands at the same node on the compact
  -- ring and on the whole one, where that is sorted and node_equal tells its nodes apart.
  pub search-compact :
      (unique : Bool) (n round_robin_size : ℕ) (key : HashKey) (ring : List HashNode)
      → Tells ring
      → IsSorted ring
      → first_node (
          lower_bound_node_hash_by_consistent_hash id_of name_of
            (suc n)
            key
            (plain unique true)
            round_robin_size
            ring)
        ≡ first_node (
            lower_bound_node_hash_by_consistent_hash id_of name_of
              (suc n)
              key
              (plain unique false)
              round_robin_size
              ring)
  unfolding lower_bound_node_hash_by_consistent_hash
  search-compact true n r key ring t s =
      let ring' = rebuild_compact_cache id_of name_of ring in
      same_room key (min (suc n) r) (visited key.hash_code ring') (visited key.hash_code ring)
        (rebuild_compact_cache-found ring key.hash_code t s)
  search-compact false n r key ring t s =
      let ring' = rebuild_compact_cache id_of name_of ring in
      enough_room true key n (length ring') (visited key.hash_code ring')
        (visited-length key.hash_code ring')
      ∙ rebuild_compact_cache-found ring key.hash_code t s
      ∙ sym (
          enough_room false key n (length ring) (visited key.hash_code ring)
            (visited-length key.hash_code ring))
