-- ===== src/Etcd/Discovery/Ring/Unique.antt =====
-- A search for different nodes gives each node once.
use Prim.Native.Nat.{min}
use libatapp.Prelude.{
  ℕ, zero, suc, ◌+◌, ◌≤◌, ◌≡◌, refl, Bool, true, ◌&&◌, ◌||◌, Option, List, [], ◌∷◌, arith,
  if◌then◌else◌, count,
}
use libatapp.Etcd.Discovery.Ring.{
  HashNode, HashKey, SearchMode, visited, is_cached, is_key_node, rebuild_compact_cache, collect,
  lower_bound_node_hash_by_consistent_hash,
}

abbrev pub take : ℕ → List ℕ → List ℕ
take zero ns = []
take (suc k) [] = []
take (suc k) (n ∷ ns) = n ∷ take k ns

abbrev pub nodes : List HashNode → List ℕ
nodes [] = []
nodes (x ∷ xs) = x.node ∷ nodes xs

-- the nodes of a list but one that are not among some others, each at its first occurrence
abbrev pub first_occurrences : (ℕ → Bool) → List HashNode → List ℕ → List ℕ
first_occurrences excluded [] cache = []
first_occurrences excluded (x ∷ xs) cache =
    let skip = first_occurrences excluded xs cache in
    let take = x.node ∷ first_occurrences excluded xs (x.node ∷ cache) in
    if excluded x.node || is_cached x.node cache then skip else take

first_occurrences-count :
    (excluded : ℕ → Bool) (n : ℕ) (xs : List HashNode) (cache : List ℕ)
    → count n (first_occurrences excluded xs cache) + (if is_cached n cache then 1 else 0) ≤ 1
first_occurrences-count excluded n [] cache = ground arith
first_occurrences-count excluded n (x ∷ xs) cache = ground (
  arith,
  first_occurrences-count excluded n xs cache,
  first_occurrences-count excluded n xs (x.node ∷ cache),
)

take-count : (n k : ℕ) (ns : List ℕ) → count n (take k ns) ≤ count n ns
take-count n zero ns = omega arith
take-count n (suc k) [] = omega arith
take-count n (suc k) (m ∷ ns) = omega (arith, take-count n k ns)

module _ (id_of : ℕ → ℕ) (name_of : ℕ → ℕ) where
  -- what a search from a key's node, if it has one, leaves out
  abbrev pub leaves_out : Bool → Option ℕ → ℕ → Bool
  leaves_out is_next key n = is_next && is_key_node id_of name_of key n

  collect-take :
      (next compact : Bool) (key : HashKey) (room : ℕ) (xs : List HashNode) (cache : List ℕ)
      → nodes (
          collect id_of name_of
            (record { is_next = next; is_compact = compact; is_unique = true })
            key
            room
            xs
            cache)
        ≡ take room (first_occurrences (leaves_out next key.node) xs cache)
  collect-take next compact key zero xs cache = refl
  collect-take next compact key (suc room) [] cache = refl
  collect-take next compact key (suc room) (x ∷ xs) cache = ground (
    arith,
    collect-take next compact key (suc room) xs cache,
    collect-take next compact key room xs (x.node ∷ cache),
  )

  -- A search for different nodes gives them in the order of the ring from the key on, each where it
  -- comes first, without the key's own node where the next one is asked for, and no more than there is
  -- room for or the round robin cache holds; and so no node twice.
  pub search-first_occurrences :
      (next compact : Bool) (key : HashKey) (output_size round_robin_size : ℕ)
      (ring : List HashNode)
      → let mode : SearchMode = record { is_next = next; is_compact = compact; is_unique = true } in
        let given = nodes (
          lower_bound_node_hash_by_consistent_hash id_of name_of output_size key mode
            round_robin_size ring) in
        let searched = if compact then rebuild_compact_cache id_of name_of ring else ring in
        (given
          ≡ take
              (min output_size round_robin_size)
              (first_occurrences (leaves_out next key.node) (visited key.hash_code searched) []))
        × ((n : ℕ) → count n given ≤ 1)
  unfolding lower_bound_node_hash_by_consistent_hash
  search-first_occurrences next compact key output_size round_robin_size ring =
      let searched = if compact then rebuild_compact_cache id_of name_of ring else ring in
      let entries = visited key.hash_code searched in
      let room = min output_size round_robin_size in
      let e = collect-take next compact key room entries [] in
      (
        e,
        λ n. rw e (
            omega (
              arith,
              take-count n room (first_occurrences (leaves_out next key.node) entries []),
              first_occurrences-count (leaves_out next key.node) n entries [],
            )),
      )
