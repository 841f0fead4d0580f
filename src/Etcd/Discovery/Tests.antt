-- ===== src/Etcd/Discovery/Tests.antt =====
-- The theorems about the caches and the rings of a discovery set at concrete nodes.
use Prim.Native.Nat.{min}
use libatapp.Prelude.{
  ℕ, ◌≡◌, ◌≤◌, refl, true, false, Option, none, some, List, [], ◌∷◌, ltb, ◌*◌, ◌+◌, count, inr,
  arith, ◌%◌, suc, if◌then◌else◌,
}
use libatapp.Etcd.Discovery.Metadata.{Metadata, default_instance, filter, is_empty}
use libatapp.Etcd.Discovery.Ring.{
  HashNode, HashKey, SearchMode, visited, is_cached, lower_bound_node_hash_by_consistent_hash,
}
use libatapp.Etcd.Discovery.Ring.Compact.{Tells, plain, first_node}
use libatapp.Etcd.Discovery.Ring.Unique.{
  take, nodes, first_occurrences, leaves_out, search-first_occurrences,
}
use libatapp.Etcd.Discovery.Cache.{filled, no_caches, get_sorted_nodes, get_node_by_round_robin}
use libatapp.Etcd.Discovery.Cache.Coherent.{listed}
use libatapp.Etcd.Discovery.Cache.Rings.{filled-compact}
use libatapp.Etcd.Discovery.Cache.Answers.{
  Answers, Operation, adds, removes, removes_id, sorts, robins, operate_all,
  get_sorted_nodes-listed, round_robin-Answers,
}

-- a node's address is its id and its name too
abbrev itself : ℕ → ℕ
itself n = n

abbrev hash : ℕ → ℕ → ℕ
hash n i = (n * 7 + i * 5) % 11

-- the nodes above 5 are of kind 2, and the others of kind 1
abbrev kinds : ℕ → Option Metadata
kinds n = some (record default_instance { kind = if ltb 5 n then 2 else 1 })

abbrev of_kind : ℕ → Option Metadata
of_kind k = some (record default_instance { kind = k })

-- two nodes of each kind, a query, and changes behind it
abbrev busy : List Operation
busy =
    adds 3
    ∷ adds 4
    ∷ adds 6
    ∷ adds 7
    ∷ sorts (of_kind 2)
    ∷ robins none
    ∷ removes 6
    ∷ adds 8
    ∷ removes_id 4
    ∷ []

get_sorted_nodes-listed_example :
    let s = operate_all itself itself kinds hash ltb busy no_caches in
    is_cached 8 (get_sorted_nodes itself itself kinds hash ltb (of_kind 2) s).1
    ≡ listed itself itself kinds (of_kind 2) s.set 8
unfolding filter is_empty
get_sorted_nodes-listed_example =
    get_sorted_nodes-listed itself itself kinds hash ltb busy (of_kind 2) 8
      (tt, (tt, (tt, (tt, (inr refl, (tt, (tt, (tt, (tt, tt)))))))))

round_robin-Answers_example :
    let s = operate_all itself itself kinds hash ltb busy no_caches in
    Answers
      (listed itself itself kinds (of_kind 1) s.set)
      (get_node_by_round_robin itself itself kinds hash ltb (of_kind 1) s).1
unfolding filter is_empty
round_robin-Answers_example =
    round_robin-Answers itself itself kinds hash ltb busy (of_kind 1)
      (tt, (tt, (tt, (tt, (inr refl, (tt, (tt, (tt, (tt, tt)))))))))

itself-Tells : (ring : List HashNode) → Tells itself itself ring
itself-Tells ring a b ha hb e = ground (arith, e)

filled-compact_example :
    let ring = (filled itself itself kinds hash ltb (3 ∷ 6 ∷ [])).normal_hashing_ring in
    let key : HashKey = record { node = none; hash_code = 9 } in
    first_node
      (lower_bound_node_hash_by_consistent_hash itself itself (suc 0) key (plain true true) 2 ring)
    ≡ first_node (
        lower_bound_node_hash_by_consistent_hash itself itself
          (suc 0)
          key
          (plain true false)
          2
          ring)
filled-compact_example =
    filled-compact itself itself kinds hash ltb (3 ∷ 6 ∷ []) true 0 2
      (record { node = none; hash_code = 9 })
      (itself-Tells (filled itself itself kinds hash ltb (3 ∷ 6 ∷ [])).normal_hashing_ring)

-- three entries of two nodes
abbrev small_ring : List HashNode
small_ring =
    record { node = 3; hash_code = 1 }
    ∷ record { node = 6; hash_code = 4 }
    ∷ record { node = 3; hash_code = 8 }
    ∷ []

search-first_occurrences_example :
    let key : HashKey = record { node = some 6; hash_code = 5 } in
    let mode : SearchMode = record { is_next = true; is_compact = false; is_unique = true } in
    let given =
      nodes (lower_bound_node_hash_by_consistent_hash itself itself 5 key mode 2 small_ring) in
    (given
      ≡ take
          (min 5 2)
          (first_occurrences (leaves_out itself itself true (some 6)) (visited 5 small_ring) []))
    × ((n : ℕ) → count n given ≤ 1)
search-first_occurrences_example =
    search-first_occurrences itself itself true false (record { node = some 6; hash_code = 5 }) 5 2
      small_ring
