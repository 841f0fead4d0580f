-- ===== src/Etcd/Discovery/Cache/Fresh.antt =====
-- The caches stay true to the maps, whatever comes, goes and is asked for.
use libatapp.Prelude.{
  ℕ, ◌≡◌, refl, sym, ap, false, ◌||◌, Option, none, some, List, [], ◌∷◌, find, arith, if-cases, inl,
  inr, Option-cases, All,
}
use mathlib.Core.Path.{subst}
use libatapp.Etcd.Discovery.{DiscoverySet, put_into, drop_old, add_node, remove_node, remove_own}
use libatapp.Etcd.Discovery.Metadata.{Metadata, default_instance, filter, holds}
use libatapp.Etcd.Discovery.Linked.{
  IsLinked, or_comm, add_node-IsLinked, remove_node-IsLinked, removed_at_id-remove_node,
  removed_at_name-remove_node,
}
use libatapp.Etcd.Discovery.Half.{mine}
use libatapp.Etcd.Discovery.Ring.{is_cached}
use libatapp.Etcd.Discovery.Cache.{
  IndexCache, Caches, any_cached, filters, keep_index, clear_cache, old_at, cleared_nodes, owns,
  cached_add_node, cached_remove_node, cached_removed_at_id, cached_remove_by_id,
  cached_removed_at_name, cached_remove_by_name,
}
use libatapp.Etcd.Discovery.Cache.Values.{IsMap}
use libatapp.Etcd.Discovery.Cache.Keys.{
  mine-IsMap, has_value-mine, mine-has_value, remove_own-IsMap, has_value-remove_own,
  remove_own-has_value,
}
use libatapp.Etcd.Discovery.Cache.Coherent.{IsCoherent, clear-IsCoherent}
use libatapp.Etcd.Discovery.Cache.Goes.{Goes, kept-IsCoherent}

module _ (id_of : ℕ → ℕ) (name_of : ℕ → ℕ) (metadata_of : ℕ → Option Metadata) where
  -- every index for a rule is coherent, and its rule does not take a node without metadata
  abbrev pub IndicesAre : DiscoverySet → List (Metadata × IndexCache) → Type 0
  IndicesAre s = All (λ x.
      (filter x.0 default_instance ≡ false) × IsCoherent id_of name_of metadata_of (some x.0) s x.1)

  pub record IsFresh (s : Caches) : Type 0 where
    pub linked : IsLinked id_of name_of s.set
    pub ids : IsMap s.set.node_by_id
    pub names : IsMap s.set.node_by_name
    pub default : IsCoherent id_of name_of metadata_of none s.set s.default_index
    pub indices : IndicesAre s.set s.metadata_index

  keep_index-IndicesAre :
      (node : ℕ) (gone : List ℕ) (s s' : DiscoverySet) (idx : List (Metadata × IndexCache))
      → Goes node gone s s'
      → IndicesAre s idx
      → IndicesAre s' (keep_index (metadata_of node) gone idx)
  keep_index-IndicesAre node gone s s' [] goes h = tt
  keep_index-IndicesAre node gone s s' ((rule, c) ∷ idx) goes ((strict, here), more) =
      let rest = keep_index-IndicesAre node gone s s' idx goes more in
      if-cases (IndicesAre s')
        (any_cached gone c.reference_cache || filters rule (metadata_of node)) _ _ (λ drops. rest)
        (λ kept. (
          (
            strict,
            kept-IsCoherent id_of name_of metadata_of rule node gone s s' c strict goes
                (ground (arith, kept)) (ground (arith, kept)) here,
          ),
          rest,
        ))

  clear_cache-IsFresh :
      (node : ℕ) (gone : List ℕ) (s : Caches) (s' : DiscoverySet)
      → Goes node gone s.set s'
      → IsLinked id_of name_of s'
      → IsMap s'.node_by_id
      → IsMap s'.node_by_name
      → IsFresh s
      → IsFresh (clear_cache (metadata_of node) gone (record s { set = s' }))
  clear_cache-IsFresh node gone s s' goes linked ids names h = record {
    linked = linked;
    ids = ids;
    names = names;
    default = clear-IsCoherent id_of name_of metadata_of none s' s.default_index;
    indices = keep_index-IndicesAre node gone s.set s' s.metadata_index goes h.indices;
  }

  cleared-holds :
      (n node : ℕ) (a b : Option ℕ)
      → is_cached n (cleared_nodes node a b) ≡ false
      → (holds a n ≡ false) × (holds b n ≡ false)
  cleared-holds n node none none h = (refl, refl)
  cleared-holds n node (some x) none h = ground (arith, h)
  cleared-holds n node none (some y) h = ground (arith, h)
  cleared-holds n node (some x) (some y) h = ground (arith, h)

  add_node-mine :
      (node : ℕ) (s : DiscoverySet)
      → add_node id_of name_of node s ≡ record {
        node_by_id = mine id_of name_of node s.node_by_id s.node_by_name;
        node_by_name = mine name_of id_of node s.node_by_name s.node_by_id;
      }
  unfolding add_node mine
  add_node-mine node s =
      let a = put_into name_of (id_of node) node s.node_by_id in
      let b = put_into id_of (name_of node) node s.node_by_name in
      ap
        (λ h. record {
          node_by_id = drop_old (a.has_insert || b.has_insert) b.old_key node a.index;
          node_by_name = drop_old h a.old_key node b.index;
        })
        (or_comm a.has_insert b.has_insert)

  add_node-Goes :
      (node : ℕ) (s : DiscoverySet)
      → IsLinked id_of name_of s
      → IsMap s.node_by_id
      → IsMap s.node_by_name
      → Goes node
          (cleared_nodes node
            (old_at (id_of node) node s.node_by_id)
            (old_at (name_of node) node s.node_by_name))
          s
          (add_node id_of name_of node s)
  add_node-Goes node s l ids names =
      subst
        (Goes node
          (cleared_nodes node (old_at (id_of node) node s.node_by_id)
            (old_at (name_of node) node s.node_by_name))
          s)
        (sym (add_node-mine node s))
        (record {
          no_new = λ n ne. (
            has_value-mine id_of name_of node s.node_by_id s.node_by_name n ne,
            has_value-mine name_of id_of node s.node_by_name s.node_by_id n ne,
          );
          stays = λ n ne kept.
              let (by_id, by_name) =
                cleared-holds n node (old_at (id_of node) node s.node_by_id)
                  (old_at (name_of node) node s.node_by_name) kept in
              (
                mine-has_value id_of name_of node s.node_by_id s.node_by_name n ne ids l.1 by_id
                    by_name,
                mine-has_value name_of id_of node s.node_by_name s.node_by_id n ne names l.0 by_name
                    by_id,
              );
        })

  pub cached_add_node-IsFresh :
      (node : ℕ) (s : Caches)
      → IsFresh s
      → IsFresh (cached_add_node id_of name_of metadata_of node s)
  unfolding cached_add_node
  cached_add_node-IsFresh node s h =
      clear_cache-IsFresh node
        (cleared_nodes node (old_at (id_of node) node s.set.node_by_id)
          (old_at (name_of node) node s.set.node_by_name))
        s (add_node id_of name_of node s.set) (add_node-Goes node s.set h.linked h.ids h.names)
        (add_node-IsLinked id_of name_of node s.set h.linked)
        (subst (λ t. IsMap t.node_by_id) (sym (add_node-mine node s.set))
          (mine-IsMap id_of name_of node s.set.node_by_id s.set.node_by_name h.ids))
        (subst (λ t. IsMap t.node_by_name) (sym (add_node-mine node s.set))
          (mine-IsMap name_of id_of node s.set.node_by_name s.set.node_by_id h.names))
        h

  remove_node-Goes :
      (node : ℕ) (s : DiscoverySet)
      → IsMap s.node_by_id
      → IsMap s.node_by_name
      → Goes node (node ∷ []) s (remove_node id_of name_of node s)
  unfolding remove_node
  remove_node-Goes node s ids names = record {
    no_new = λ n ne. (
      has_value-remove_own n (id_of node) node s.node_by_id,
      has_value-remove_own n (name_of node) node s.node_by_name,
    );
    stays = λ n ne kept. (
      remove_own-has_value n (id_of node) node s.node_by_id ids ne,
      remove_own-has_value n (name_of node) node s.node_by_name names ne,
    );
  }

  removed-IsFresh :
      (node : ℕ) (s : Caches)
      → IsFresh s
      → IsFresh (
          clear_cache
            (metadata_of node)
            (node ∷ [])
            (record s { set = remove_node id_of name_of node s.set }))
  removed-IsFresh node s h =
      clear_cache-IsFresh node (node ∷ []) s (remove_node id_of name_of node s.set)
        (remove_node-Goes node s.set h.ids h.names)
        (remove_node-IsLinked id_of name_of node s.set h.linked)
        (unfold remove_node in remove_own-IsMap (id_of node) node s.set.node_by_id h.ids)
        (unfold remove_node in remove_own-IsMap (name_of node) node s.set.node_by_name h.names) h

  not_own : (key node : ℕ) (m : List (ℕ × ℕ)) → owns key node m ≡ false → remove_own key node m ≡ m
  not_own key node m h = elim (Option-cases (find key m)) [
    | inl free ↦ ground (arith, h, free)
    | inr (old, there) ↦ ground (arith, h, there)
  ]

  pub cached_remove_node-IsFresh :
      (node : ℕ) (s : Caches)
      → IsFresh s
      → IsFresh (cached_remove_node id_of name_of metadata_of node s)
  unfolding cached_remove_node
  cached_remove_node-IsFresh node s h =
      if-cases IsFresh
        (owns (name_of node) node s.set.node_by_name || owns (id_of node) node s.set.node_by_id) _ _
        (λ owned. removed-IsFresh node s h)
        (λ foreign. subst (λ t. IsFresh (record s { set = t })) (sym (unchanged foreign)) h)
    where
      unchanged :
          (owns (name_of node) node s.set.node_by_name || owns (id_of node) node s.set.node_by_id)
            ≡ false
          → remove_node id_of name_of node s.set ≡ s.set
      unchanged foreign = ground (
        arith,
        foreign,
        not_own (id_of node) node s.set.node_by_id,
        not_own (name_of node) node s.set.node_by_name,
      )

  pub cached_remove_by_id-IsFresh :
      (id : ℕ) (s : Caches)
      → IsFresh s
      → IsFresh (cached_remove_by_id id_of name_of metadata_of id s)
  unfolding cached_remove_by_id
  cached_remove_by_id-IsFresh id s h = elim (Option-cases (find id s.set.node_by_id)) [
    | inl free ↦
        subst (λ o. IsFresh (cached_removed_at_id id_of name_of metadata_of id s o)) (sym free) h
    | inr (node, there) ↦
        subst (λ o. IsFresh (cached_removed_at_id id_of name_of metadata_of id s o)) (sym there)
          (subst (λ t. IsFresh (clear_cache (metadata_of node) (node ∷ []) (record s { set = t })))
            (sym (removed_at_id-remove_node id_of name_of id node s.set h.linked there))
            (removed-IsFresh node s h))
  ]

  pub cached_remove_by_name-IsFresh :
      (name : ℕ) (s : Caches)
      → IsFresh s
      → IsFresh (cached_remove_by_name id_of name_of metadata_of name s)
  unfolding cached_remove_by_name
  cached_remove_by_name-IsFresh name s h = elim (Option-cases (find name s.set.node_by_name)) [
    | inl free ↦
        subst (λ o. IsFresh (cached_removed_at_name id_of name_of metadata_of name s o)) (sym free)
          h
    | inr (node, there) ↦
        subst (λ o. IsFresh (cached_removed_at_name id_of name_of metadata_of name s o)) (sym there)
          (subst (λ t. IsFresh (clear_cache (metadata_of node) (node ∷ []) (record s { set = t })))
            (sym (removed_at_name-remove_node id_of name_of name node s.set h.linked there))
            (removed-IsFresh node s h))
  ]
