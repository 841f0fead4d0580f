-- ===== src/Etcd/Discovery/Ring.antt =====
-- The consistent hashing of etcd_discovery_set in src/atframe/etcdcli/etcd_discovery.cpp: the compact
-- ring of rebuild_compact_cache and the search of lower_bound_node_hash_by_consistent_hash. A hash
-- code is one number, the pair of the source read as 128 bits. std::lower_bound gives the first entry
-- that is not less, as it does on a sorted ring.
pub mod Compact
pub mod Unique
use Prim.Native.Nat.{min}
use libatapp.Prelude.{
  ℕ, zero, suc, Bool, true, false, not, ◌&&◌, ◌||◌, Option, none, some, List, [], ◌∷◌, ◌++◌, ltb,
  ◌==◌, length, if◌then◌else◌,
}

pub record HashNode : Type 0 where
  pub node : ℕ
  pub hash_code : ℕ

-- the key of a search, which has the node that it starts from, or none
pub record HashKey : Type 0 where
  pub node : Option ℕ
  pub hash_code : ℕ

-- the flags of search_mode
pub record SearchMode : Type 0 where
  pub is_next : Bool
  pub is_compact : Bool
  pub is_unique : Bool

-- the part of a ring in front of the first entry that is not less than the key, and the rest
abbrev pub before_key : ℕ → List HashNode → List HashNode
before_key key [] = []
before_key key (x ∷ xs) = if ltb x.hash_code key then x ∷ before_key key xs else []

abbrev pub lower_bound : ℕ → List HashNode → List HashNode
lower_bound key [] = []
lower_bound key (x ∷ xs) = if ltb x.hash_code key then lower_bound key xs else x ∷ xs

-- the entries that the loop visits, in order: once round the ring
abbrev pub visited : ℕ → List HashNode → List HashNode
visited key ring = lower_bound key ring ++ before_key key ring

abbrev pub is_cached : ℕ → List ℕ → Bool
is_cached node [] = false
is_cached node (n ∷ ns) = n == node || is_cached node ns

module _ (id_of : ℕ → ℕ) (name_of : ℕ → ℕ) where
  abbrev pub node_equal : ℕ → ℕ → Bool
  node_equal l r =
      if l == r
      then true
      else if not (id_of l == 0) && not (id_of r == 0)
      then id_of l == id_of r
      else name_of l == name_of r

  -- node_equal of an entry's node and a key's, which can be null
  abbrev pub is_key_node : Option ℕ → ℕ → Bool
  is_key_node none n = false
  is_key_node (some k) n = node_equal n k

  -- the loop of rebuild_compact_cache: the last entries of the runs that are settled, and the last
  -- entry of all
  abbrev pub settle_run : HashNode → List HashNode → List HashNode × HashNode
  settle_run previous [] = ([], previous)
  settle_run previous (x ∷ xs) =
      let (out, end) = settle_run x xs in
      if node_equal x.node previous.node then (out, end) else (previous ∷ out, end)

  abbrev pub finish : List HashNode → HashNode → List HashNode
  finish [] end = end ∷ []
  finish (first ∷ out) end =
      if not (node_equal end.node first.node) then first ∷ (out ++ end ∷ []) else first ∷ out

  -- void rebuild_compact_cache(cache_set, rule), from the ring that rebuild_cache leaves
  unfoldable pub rebuild_compact_cache : List HashNode → List HashNode
  rebuild_compact_cache [] = []
  rebuild_compact_cache (x ∷ xs) = finish (settle_run x xs).0 (settle_run x xs).1

  -- `exclude_self`
  abbrev pub is_self : SearchMode → HashKey → HashNode → Bool
  is_self mode key x =
      mode.is_next
      && ((mode.is_unique || key.hash_code == x.hash_code) && is_key_node key.node x.node)

  abbrev pub is_skipped : SearchMode → HashKey → List ℕ → HashNode → Bool
  is_skipped mode key cache x = is_self mode key x || (mode.is_unique && is_cached x.node cache)

  -- the loop, with room for `room` more entries; the last argument is unique_cache
  abbrev pub collect : SearchMode → HashKey → ℕ → List HashNode → List ℕ → List HashNode
  collect mode key zero xs cache = []
  collect mode key (suc room) [] cache = []
  collect mode key (suc room) (x ∷ xs) cache =
      let skip = collect mode key (suc room) xs cache in
      let take = x ∷ collect mode key room xs (x.node ∷ cache) in
      if is_skipped mode key cache x then skip else take

  abbrev pub max_output : SearchMode → ℕ → List HashNode → ℕ
  max_output mode round_robin_size ring = if mode.is_unique then round_robin_size else length ring

  -- size_t lower_bound_node_hash_by_consistent_hash(output, key, metadata, searchmode), with the number
  -- of nodes in the round robin cache
  unfoldable pub lower_bound_node_hash_by_consistent_hash :
      ℕ → HashKey → SearchMode → ℕ → List HashNode → List HashNode
  unfolding rebuild_compact_cache
  lower_bound_node_hash_by_consistent_hash output_size key mode round_robin_size normal =
      let ring = if mode.is_compact then rebuild_compact_cache normal else normal in
      collect mode key (min output_size (max_output mode round_robin_size ring))
        (visited key.hash_code ring) []
