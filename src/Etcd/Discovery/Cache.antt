-- ===== src/Etcd/Discovery/Cache.antt =====
-- The caches of etcd_discovery_set in src/atframe/etcdcli/etcd_discovery.cpp: index_cache_type with
-- rebuild_cache and clear_cache, the operations on nodes with what they clear, and the readers that
-- fill a cache. What a node says of itself, its hashes (murmur_hash3 of its name, or of its id where it
-- has no name, with a seed) and the order round_robin_compare_index are parameters.
pub mod Values
pub mod Keys
pub mod Coherent
pub mod Fresh
pub mod Goes
pub mod Indices
pub mod Rings
pub mod Answers
use libatapp.Prelude.{
  ℕ, zero, suc, ◌+◌, ◌%◌, Bool, true, false, not, ◌&&◌, ◌||◌, Option, none, some, List, [], ◌∷◌,
  ◌++◌, ltb, leb, ◌==◌, find, length, get_elem?, if◌then◌else◌,
}
use libatapp.Prelude.Sort.{sort}
use libatapp.Etcd.Discovery.{
  DiscoverySet, no_nodes, add_node, remove_node, removed_at_id, removed_at_name,
}
use libatapp.Etcd.Discovery.Metadata.{
  Metadata, default_instance, is_empty, filter, metadata_equal, holds,
}
use libatapp.Etcd.Discovery.Ring.{HashNode, is_cached}

pub record IndexCache : Type 0 where
  pub normal_hashing_ring : List HashNode
  pub compact_hashing_ring : List HashNode
  pub round_robin_cache : List ℕ
  pub round_robin_index : ℕ
  pub reference_cache : List ℕ

pub record Caches : Type 0 where
  pub set : DiscoverySet
  pub default_index : IndexCache
  pub metadata_index : List (Metadata × IndexCache)

abbrev pub new_index : IndexCache
new_index = record {
  normal_hashing_ring = [];
  compact_hashing_ring = [];
  round_robin_cache = [];
  round_robin_index = 0;
  reference_cache = [];
}

abbrev pub no_caches : Caches
no_caches = record { set = no_nodes; default_index = new_index; metadata_index = [] }

abbrev pub hash_point_per_ins : ℕ
hash_point_per_ins = 80

abbrev pub is_nil {ℓ} : {A : Type ℓ} → List A → Bool
is_nil [] = true
is_nil (x ∷ xs) = false

-- static void clear_cache(cache_set)
abbrev pub clear : IndexCache → IndexCache
clear c = record c {
  normal_hashing_ring = [];
  compact_hashing_ring = [];
  round_robin_cache = [];
  reference_cache = [];
}

abbrev pub metadata_or_default : Option Metadata → Metadata
metadata_or_default none = default_instance
metadata_or_default (some m) = m

abbrev pub any_cached : List ℕ → List ℕ → Bool
any_cached [] cache = false
any_cached (n ∷ ns) cache = is_cached n cache || any_cached ns cache

abbrev pub filters : Metadata → Option Metadata → Bool
filters rule none = false
filters rule (some m) = filter rule m

abbrev pub keep_index :
    Option Metadata → List ℕ → List (Metadata × IndexCache) → List (Metadata × IndexCache)
keep_index m nodes [] = []
keep_index m nodes ((rule, c) ∷ more) =
    let rest = keep_index m nodes more in
    if any_cached nodes c.reference_cache || filters rule m then rest else (rule, c) ∷ rest

-- void clear_cache(metadata, node_ptrs)
abbrev pub clear_cache : Option Metadata → List ℕ → Caches → Caches
clear_cache m nodes s = record s {
  default_index = clear s.default_index;
  metadata_index = keep_index m nodes s.metadata_index;
}

-- another node that is found under a key, where the key is not the empty one
abbrev pub other_than : ℕ → Option ℕ → Option ℕ
other_than node none = none
other_than node (some old) = if old == node then none else some old

abbrev pub old_at : ℕ → ℕ → List (ℕ × ℕ) → Option ℕ
old_at key node m = if key == 0 then none else other_than node (find key m)

-- clear_cache_node_ptrs of add_node: an old node is written over the last pointer in use
abbrev pub cleared_nodes : ℕ → Option ℕ → Option ℕ → List ℕ
cleared_nodes node none none = node ∷ []
cleared_nodes node (some by_id) none = by_id ∷ []
cleared_nodes node none (some by_name) = by_name ∷ []
cleared_nodes node (some by_id) (some by_name) = by_id ∷ by_name ∷ []

abbrev pub owns : ℕ → ℕ → List (ℕ × ℕ) → Bool
owns key node m = not (key == 0) && holds (find key m) node

-- the index for a rule is made where it is not there yet
abbrev pub update_index :
    Metadata
    → (IndexCache → IndexCache)
    → List (Metadata × IndexCache)
    → List (Metadata × IndexCache)
update_index rule f [] = (rule, f new_index) ∷ []
update_index rule f ((r, c) ∷ more) =
    let rest = update_index rule f more in
    if metadata_equal r rule then (r, f c) ∷ more else (r, c) ∷ rest

abbrev pub find_index : Metadata → List (Metadata × IndexCache) → IndexCache
find_index rule [] = new_index
find_index rule ((r, c) ∷ more) = if metadata_equal r rule then c else find_index rule more

abbrev pub is_default : Option Metadata → Bool
is_default none = true
is_default (some rule) = is_empty rule

-- `*mutable_index_cache(metadata)`, as it is read
abbrev pub mutable_index_cache : Option Metadata → Caches → IndexCache
mutable_index_cache none s = s.default_index
mutable_index_cache (some rule) s =
    if is_empty rule then s.default_index else find_index rule s.metadata_index

-- `*mutable_index_cache(metadata)`, as it is changed
abbrev pub with_index : Option Metadata → (IndexCache → IndexCache) → Caches → Caches
with_index none f s = record s { default_index = f s.default_index }
with_index (some rule) f s =
    if is_empty rule
    then record s { default_index = f s.default_index }
    else record s { metadata_index = update_index rule f s.metadata_index }

-- the index after a round robin step, and the place that it reads
abbrev pub wrapped : ℕ → ℕ → ℕ
wrapped index size = if leb size index then index % size else index

abbrev pub step_index : IndexCache → IndexCache
step_index c = record c {
  round_robin_index = wrapped c.round_robin_index (length c.round_robin_cache) + 1;
}

module _ (id_of : ℕ → ℕ) (name_of : ℕ → ℕ) (metadata_of : ℕ → Option Metadata) where
  abbrev pub matches : Option Metadata → ℕ → Bool
  matches none n = true
  matches (some rule) n = filter rule (metadata_or_default (metadata_of n))

  -- the loops over node_by_name_ and over node_by_id_
  abbrev pub push_named : Option Metadata → List (ℕ × ℕ) → List ℕ
  push_named rule [] = []
  push_named rule ((k, n) ∷ more) =
      let rest = push_named rule more in
      if not (matches rule n) || name_of n == 0 then rest else n ∷ rest

  abbrev pub push_nameless : Option Metadata → List (ℕ × ℕ) → List ℕ
  push_nameless rule [] = []
  push_nameless rule ((k, n) ∷ more) =
      let rest = push_nameless rule more in
      if not (matches rule n) || not (name_of n == 0) then rest else n ∷ rest

  -- void add_node(node)
  unfoldable pub cached_add_node : ℕ → Caches → Caches
  unfolding add_node
  cached_add_node node s =
      clear_cache (metadata_of node)
        (cleared_nodes node (old_at (id_of node) node s.set.node_by_id)
          (old_at (name_of node) node s.set.node_by_name))
        (record s { set = add_node id_of name_of node s.set })

  -- void remove_node(node)
  unfoldable pub cached_remove_node : ℕ → Caches → Caches
  unfolding remove_node
  cached_remove_node node s =
      let removed = record s { set = remove_node id_of name_of node s.set } in
      if owns (name_of node) node s.set.node_by_name || owns (id_of node) node s.set.node_by_id
      then clear_cache (metadata_of node) (node ∷ []) removed
      else removed

  abbrev pub cached_removed_at_id : ℕ → Caches → Option ℕ → Caches
  cached_removed_at_id id s none = s
  cached_removed_at_id id s (some node) =
      clear_cache (metadata_of node) (node ∷ [])
        (record s { set = removed_at_id id_of name_of id s.set (some node) })

  -- void remove_node(uint64_t id)
  unfoldable pub cached_remove_by_id : ℕ → Caches → Caches
  cached_remove_by_id id s = cached_removed_at_id id s (find id s.set.node_by_id)

  abbrev pub cached_removed_at_name : ℕ → Caches → Option ℕ → Caches
  cached_removed_at_name name s none = s
  cached_removed_at_name name s (some node) =
      clear_cache (metadata_of node) (node ∷ [])
        (record s { set = removed_at_name id_of name_of name s.set (some node) })

  -- void remove_node(const std::string& name)
  unfoldable pub cached_remove_by_name : ℕ → Caches → Caches
  cached_remove_by_name name s = cached_removed_at_name name s (find name s.set.node_by_name)

  module _ (hash_of : ℕ → ℕ → ℕ) (less : ℕ → ℕ → Bool) where
    pub points : ℕ → ℕ → ℕ → List HashNode
    points n i zero = []
    points n i (suc k) = record { node = n; hash_code = hash_of n i } ∷ points n (i + 1) k

    pub ring_of : List ℕ → List HashNode
    unfolding points
    ring_of [] = []
    ring_of (n ∷ ns) = points n 0 hash_point_per_ins ++ ring_of ns

    -- static bool consistent_hash_compare_index(l, r)
    abbrev pub ring_less : HashNode → HashNode → Bool
    ring_less l r =
        if not (l.hash_code == r.hash_code) then ltb l.hash_code r.hash_code else less l.node r.node

    abbrev pub filled : List ℕ → IndexCache
    filled ns = record {
      normal_hashing_ring = sort ring_less (ring_of ns);
      compact_hashing_ring = [];
      round_robin_cache = sort less ns;
      round_robin_index = 0;
      reference_cache = ns;
    }

    -- void rebuild_cache(cache_set, rule)
    unfoldable pub rebuild_cache : Option Metadata → DiscoverySet → IndexCache → IndexCache
    unfolding ring_of sort
    rebuild_cache rule s c =
        if not (is_nil c.normal_hashing_ring)
        then c
        else if is_nil s.node_by_id && is_nil s.node_by_name
        then c
        else filled (push_named rule s.node_by_name ++ push_nameless rule s.node_by_id)

    abbrev pub ready_cache : Option Metadata → DiscoverySet → IndexCache → IndexCache
    ready_cache rule s c = if is_nil c.round_robin_cache then rebuild_cache rule s c else c

    -- get_sorted_nodes(metadata)
    unfoldable pub get_sorted_nodes : Option Metadata → Caches → Caches × List ℕ
    unfolding rebuild_cache
    get_sorted_nodes rule s = (
      with_index rule (ready_cache rule s.set) s,
      (ready_cache rule s.set (mutable_index_cache rule s)).round_robin_cache,
    )

    abbrev pub robin : IndexCache → IndexCache
    robin c = if is_nil c.round_robin_cache then c else step_index c

    -- get_node_by_round_robin(metadata)
    unfoldable pub get_node_by_round_robin : Option Metadata → Caches → Caches × Option ℕ
    unfolding rebuild_cache
    get_node_by_round_robin rule s =
        let c = ready_cache rule s.set (mutable_index_cache rule s) in
        (
          with_index rule (λ i. robin (ready_cache rule s.set i)) s,
          get_elem? c.round_robin_cache (wrapped c.round_robin_index (length c.round_robin_cache)),
        )
