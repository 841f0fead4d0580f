-- ===== src/Etcd/Discovery/Cache/Answers.antt =====
-- What the readers of a discovery set answer, against the nodes that are in it.
use libatapp.Prelude.{
  ℕ, zero, suc, ◌<◌, ◌≡◌, refl, sym, ◌∙◌, Bool, true, false, Option, none, some, List, [], ◌∷◌,
  arith, if-cases, inl, All, get_elem?, length,
}
use mathlib.Core.Path.{subst}
use libatapp.Etcd.Discovery.{DiscoverySet}
use libatapp.Etcd.Discovery.Metadata.{Metadata}
use libatapp.Etcd.Discovery.Ring.{is_cached}
use libatapp.Etcd.Discovery.Cache.{
  IndexCache, Caches, no_caches, is_nil, mutable_index_cache, cached_add_node, cached_remove_node,
  cached_remove_by_id, cached_remove_by_name, ready_cache, robin, get_sorted_nodes,
  get_node_by_round_robin, wrapped,
}
use libatapp.Etcd.Discovery.Cache.Coherent.{listed, IsCoherent, ready_cache-IsCoherent}
use libatapp.Etcd.Discovery.Cache.Fresh.{
  IsFresh, cached_add_node-IsFresh, cached_remove_node-IsFresh, cached_remove_by_id-IsFresh,
  cached_remove_by_name-IsFresh,
}
use libatapp.Etcd.Discovery.Cache.Indices.{IsStrict, mutable-IsCoherent, with_index-IsFresh}

-- an answer, against a test for the right ones
abbrev pub Answers : (ℕ → Bool) → Option ℕ → Type 0
Answers right none = (n : ℕ) → right n ≡ false
Answers right (some n) = right n ≡ true

nth_cached :
    (xs : List ℕ) (i : ℕ)
    → i < length xs
    → (n : ℕ) × (get_elem? xs i ≡ some n) × (is_cached n xs ≡ true)
nth_cached [] i h = elim h [ ]
nth_cached (x ∷ xs) zero h = (x, refl, ground arith)
nth_cached (x ∷ xs) (suc i) h =
    let (n, e, there) = nth_cached xs i (omega (arith, h)) in (n, e, ground (arith, there))

nth-Answers : (xs : List ℕ) (i : ℕ) → i < length xs → Answers (λ n. is_cached n xs) (get_elem? xs i)
nth-Answers xs i h =
    let (n, e, there) = nth_cached xs i h in
    subst (λ o. Answers (λ n. is_cached n xs) o) (sym e) there

wrapped-lt : (i n : ℕ) → 0 < n → wrapped i n < n
wrapped-lt i n h = grind (arith, h)

wrapped-Answers :
    (xs : List ℕ) (i : ℕ) → Answers (λ n. is_cached n xs) (get_elem? xs (wrapped i (length xs)))
wrapped-Answers [] i = λ n. refl
wrapped-Answers (x ∷ xs) i =
    nth-Answers (x ∷ xs) (wrapped i (length (x ∷ xs)))
      (wrapped-lt i (length (x ∷ xs)) (omega arith))

Answers-eq : (f g : ℕ → Bool) (o : Option ℕ) → ((n : ℕ) → f n ≡ g n) → Answers f o → Answers g o
Answers-eq f g none e h = λ n. sym (e n) ∙ h n
Answers-eq f g (some n) e h = sym (e n) ∙ h

-- what can be done with a discovery set
pub data Operation : Type 0 where
  adds removes removes_id removes_name : ℕ → Operation
  sorts robins : Option Metadata → Operation

-- the rules that are asked for are strict
abbrev pub AsksStrictly : Operation → Type 0
AsksStrictly (adds n) = Unit
AsksStrictly (removes n) = Unit
AsksStrictly (removes_id n) = Unit
AsksStrictly (removes_name n) = Unit
AsksStrictly (sorts rule) = IsStrict rule
AsksStrictly (robins rule) = IsStrict rule

module _ (id_of : ℕ → ℕ) (name_of : ℕ → ℕ) (metadata_of : ℕ → Option Metadata) (hash_of : ℕ → ℕ → ℕ)
    (less : ℕ → ℕ → Bool) where
  unfoldable pub operate : Operation → Caches → Caches
  unfolding cached_add_node cached_remove_node cached_remove_by_id cached_remove_by_name
      get_sorted_nodes get_node_by_round_robin
  operate (adds node) s = cached_add_node id_of name_of metadata_of node s
  operate (removes node) s = cached_remove_node id_of name_of metadata_of node s
  operate (removes_id id) s = cached_remove_by_id id_of name_of metadata_of id s
  operate (removes_name name) s = cached_remove_by_name id_of name_of metadata_of name s
  operate (sorts rule) s = (get_sorted_nodes id_of name_of metadata_of hash_of less rule s).0
  operate (robins rule) s =
      (get_node_by_round_robin id_of name_of metadata_of hash_of less rule s).0

  unfoldable pub operate_all : List Operation → Caches → Caches
  unfolding operate
  operate_all [] s = s
  operate_all (o ∷ os) s = operate_all os (operate o s)

  robin-IsCoherent :
      (rule : Option Metadata) (s : DiscoverySet) (c : IndexCache)
      → IsCoherent id_of name_of metadata_of rule s c
      → IsCoherent id_of name_of metadata_of rule s (robin id_of name_of metadata_of hash_of less c)
  robin-IsCoherent rule s c h =
      if-cases (IsCoherent id_of name_of metadata_of rule s) (is_nil c.round_robin_cache) _ _
        (λ empty. h) (λ full. record { ring = h.ring; nodes = h.nodes })

  operate-IsFresh :
      (o : Operation) (s : Caches)
      → AsksStrictly o
      → IsFresh id_of name_of metadata_of s
      → IsFresh id_of name_of metadata_of (operate o s)
  unfolding operate
  operate-IsFresh (adds node) s k h = cached_add_node-IsFresh id_of name_of metadata_of node s h
  operate-IsFresh (removes node) s k h =
      cached_remove_node-IsFresh id_of name_of metadata_of node s h
  operate-IsFresh (removes_id id) s k h =
      cached_remove_by_id-IsFresh id_of name_of metadata_of id s h
  operate-IsFresh (removes_name name) s k h =
      cached_remove_by_name-IsFresh id_of name_of metadata_of name s h
  operate-IsFresh (sorts rule) s k h =
      with_index-IsFresh id_of name_of metadata_of rule
        (ready_cache id_of name_of metadata_of hash_of less rule s.set) s k
        (λ c e. (ready_cache-IsCoherent id_of name_of metadata_of hash_of less rule s.set c e).0) h
  operate-IsFresh (robins rule) s k h =
      with_index-IsFresh id_of name_of metadata_of rule
        (λ i.
          robin id_of name_of metadata_of hash_of less
            (ready_cache id_of name_of metadata_of hash_of less rule s.set i))
        s k
        (λ c e.
          robin-IsCoherent rule s.set
            (ready_cache id_of name_of metadata_of hash_of less rule s.set c)
            (ready_cache-IsCoherent id_of name_of metadata_of hash_of less rule s.set c e).0)
        h

  operations-IsFresh :
      (os : List Operation) (s : Caches)
      → All AsksStrictly os
      → IsFresh id_of name_of metadata_of s
      → IsFresh id_of name_of metadata_of (operate_all os s)
  unfolding operate_all
  operations-IsFresh [] s k h = h
  operations-IsFresh (o ∷ os) s (k, more) h =
      operations-IsFresh os (operate o s) more (operate-IsFresh o s k h)

  empty-IsFresh : IsFresh id_of name_of metadata_of no_caches
  empty-IsFresh = record {
    linked = ((λ k p e. cc), (λ k p e. cc));
    ids = tt;
    names = tt;
    default = record { ring = refl; nodes = inl (refl, refl) };
    indices = tt;
  }

  -- After any operations on an empty set, get_sorted_nodes gives the nodes that are in the set at that
  -- time and that the rule takes, and no others, if each rule that was asked for is empty or does not
  -- take a node without metadata.
  pub get_sorted_nodes-listed :
      (os : List Operation) (rule : Option Metadata) (n : ℕ)
      → All AsksStrictly os
      → let s = operate_all os no_caches in
        is_cached n (get_sorted_nodes id_of name_of metadata_of hash_of less rule s).1
        ≡ listed id_of name_of metadata_of rule s.set n
  unfolding get_sorted_nodes
  get_sorted_nodes-listed os rule n k =
      let s = operate_all os no_caches in
      let fresh = operations-IsFresh os no_caches k empty-IsFresh in
      (ready_cache-IsCoherent id_of name_of metadata_of hash_of less rule s.set
          (mutable_index_cache rule s)
          (mutable-IsCoherent id_of name_of metadata_of rule s fresh)).1
        n

  -- Under the same condition, get_node_by_round_robin gives a node that is in the set and that the rule
  -- takes, and none only where there is no such node.
  pub round_robin-Answers :
      (os : List Operation) (rule : Option Metadata)
      → All AsksStrictly os
      → let s = operate_all os no_caches in
        Answers
          (listed id_of name_of metadata_of rule s.set)
          (get_node_by_round_robin id_of name_of metadata_of hash_of less rule s).1
  unfolding get_node_by_round_robin
  round_robin-Answers os rule k =
      let s = operate_all os no_caches in
      let fresh = operations-IsFresh os no_caches k empty-IsFresh in
      let c =
        ready_cache id_of name_of metadata_of hash_of less rule s.set
          (mutable_index_cache rule s) in
      Answers-eq (λ n. is_cached n c.round_robin_cache)
        (listed id_of name_of metadata_of rule s.set)
        (get_elem? c.round_robin_cache (wrapped c.round_robin_index (length c.round_robin_cache)))
        (ready_cache-IsCoherent id_of name_of metadata_of hash_of less rule s.set
          (mutable_index_cache rule s)
          (mutable-IsCoherent id_of name_of metadata_of rule s fresh)).1
        (wrapped-Answers c.round_robin_cache c.round_robin_index)
