-- ===== src/Etcd/Discovery.antt =====
-- The nodes of a service discovery: node_by_id_ and node_by_name_ of etcd_discovery_set, with
-- add_node and the three remove_node, in src/atframe/etcdcli/etcd_discovery.cpp. A node is named by
-- its address; its id and its name are read through it, by the parameters `id_of` and `name_of`.
-- Names are only compared with each other and with the empty one, so they are numbers, and 0 is the
-- empty name. The caches that the operations clear are those of the module Cache.
pub mod Lookup
pub mod Half
pub mod Linked
pub mod Cache
pub mod Metadata
pub mod Ring
pub mod Tests
use libatapp.Prelude.{
  ℕ, Bool, true, false, not, ◌&&◌, ◌||◌, Option, none, some, List, [], ◌∷◌, ◌==◌, find, insert,
  erase, if◌then◌else◌,
}

pub record DiscoverySet : Type 0 where
  pub node_by_id : List (ℕ × ℕ)
  pub node_by_name : List (ℕ × ℕ)

abbrev pub no_nodes : DiscoverySet
no_nodes = record { node_by_id = []; node_by_name = [] }

-- One of the two maps after add_node has put the node into it, with what the node that was there is
-- called in the other map, where that name has changed (0 where it has not), and has_insert.
pub record Indexed : Type 0 where
  pub index : List (ℕ × ℕ)
  pub old_key : ℕ
  pub has_insert : Bool

-- `other_of` gives the key in the other map
abbrev pub replace : (ℕ → ℕ) → ℕ → ℕ → List (ℕ × ℕ) → Option ℕ → Indexed
replace other_of key node m none = record {
  index = insert key node m;
  old_key = 0;
  has_insert = true;
}
replace other_of key node m (some old) =
    if old == node then record { index = m; old_key = 0; has_insert = false } else record {
      index = insert key node m;
      old_key = if other_of old == other_of node then 0 else other_of old;
      has_insert = true;
    }

abbrev pub put_into : (ℕ → ℕ) → ℕ → ℕ → List (ℕ × ℕ) → Indexed
put_into other_of key node m =
    if key == 0
    then record { index = m; old_key = 0; has_insert = false }
    else replace other_of key node m (find key m)

-- the entry of an old key goes, unless it is of the node itself
abbrev pub drop_unless : ℕ → ℕ → List (ℕ × ℕ) → Option ℕ → List (ℕ × ℕ)
drop_unless key node m none = m
drop_unless key node m (some there) = if there == node then m else erase key m

abbrev pub drop_old : Bool → ℕ → ℕ → List (ℕ × ℕ) → List (ℕ × ℕ)
drop_old has_insert key node m =
    if has_insert && not (key == 0) then drop_unless key node m (find key m) else m

-- the entry of a node goes, where it is the node's own
abbrev pub drop_own : ℕ → ℕ → List (ℕ × ℕ) → Option ℕ → List (ℕ × ℕ)
drop_own key node m none = m
drop_own key node m (some there) = if there == node then erase key m else m

abbrev pub remove_own : ℕ → ℕ → List (ℕ × ℕ) → List (ℕ × ℕ)
remove_own key node m = if key == 0 then m else drop_own key node m (find key m)

module _ (id_of : ℕ → ℕ) (name_of : ℕ → ℕ) where
  -- void add_node(node)
  unfoldable pub add_node : ℕ → DiscoverySet → DiscoverySet
  add_node node s =
      let by_id = put_into name_of (id_of node) node s.node_by_id in
      let by_name = put_into id_of (name_of node) node s.node_by_name in
      let has_insert = by_id.has_insert || by_name.has_insert in
      record {
        node_by_id = drop_old has_insert by_name.old_key node by_id.index;
        node_by_name = drop_old has_insert by_id.old_key node by_name.index;
      }

  -- void remove_node(node)
  unfoldable pub remove_node : ℕ → DiscoverySet → DiscoverySet
  remove_node node s = record {
    node_by_id = remove_own (id_of node) node s.node_by_id;
    node_by_name = remove_own (name_of node) node s.node_by_name;
  }

  abbrev pub removed_at_id : ℕ → DiscoverySet → Option ℕ → DiscoverySet
  removed_at_id id s none = s
  removed_at_id id s (some node) = record {
    node_by_id = erase id s.node_by_id;
    node_by_name = remove_own (name_of node) node s.node_by_name;
  }

  -- void remove_node(uint64_t id)
  unfoldable pub remove_node_by_id : ℕ → DiscoverySet → DiscoverySet
  remove_node_by_id id s = removed_at_id id s (find id s.node_by_id)

  abbrev pub removed_at_name : ℕ → DiscoverySet → Option ℕ → DiscoverySet
  removed_at_name name s none = s
  removed_at_name name s (some node) = record {
    node_by_id = remove_own (id_of node) node s.node_by_id;
    node_by_name = erase name s.node_by_name;
  }

  -- void remove_node(const std::string& name)
  unfoldable pub remove_node_by_name : ℕ → DiscoverySet → DiscoverySet
  remove_node_by_name name s = removed_at_name name s (find name s.node_by_name)
