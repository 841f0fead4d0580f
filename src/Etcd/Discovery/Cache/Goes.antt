-- ===== src/Etcd/Discovery/Cache/Goes.antt =====
-- An index that an operation does not clear stays true to the maps.
use libatapp.Prelude.{
  ℕ, ◌≡◌, sym, ap, ◌∙◌, Bool, true, false, Option, none, some, List, [], ◌∷◌, ◌==◌, arith, inl, inr,
  Bool-cases,
}
use libatapp.Etcd.Discovery.{DiscoverySet}
use libatapp.Etcd.Discovery.Metadata.{Metadata, default_instance, filter}
use libatapp.Etcd.Discovery.Ring.{is_cached}
use libatapp.Etcd.Discovery.Cache.{IndexCache, any_cached, filters, metadata_or_default}
use libatapp.Etcd.Discovery.Cache.Values.{has_value}
use libatapp.Etcd.Discovery.Cache.Coherent.{listed, IsCoherent, eq_of}

-- Between two sets, nodes but one only go, and those that go are among the given ones.
pub record Goes (node : ℕ) (gone : List ℕ) (s s' : DiscoverySet) : Type 0 where
  pub no_new :
      (n : ℕ)
      → node == n ≡ false
      → (has_value n s'.node_by_id ≡ true → has_value n s.node_by_id ≡ true)
        × (has_value n s'.node_by_name ≡ true → has_value n s.node_by_name ≡ true)
  pub stays :
      (n : ℕ)
      → node == n ≡ false
      → is_cached n gone ≡ false
      → (has_value n s.node_by_id ≡ true → has_value n s'.node_by_id ≡ true)
        × (has_value n s.node_by_name ≡ true → has_value n s'.node_by_name ≡ true)

any_cached_not :
    (n : ℕ) (ns cache : List ℕ)
    → any_cached ns cache ≡ false
    → is_cached n ns ≡ true
    → is_cached n cache ≡ false
any_cached_not n [] cache h m = cc
any_cached_not n (x ∷ ns) cache h m = elim (Bool-cases (x == n)) [
  | inl e ↦ ground (arith, h, ap (λ k. is_cached k cache) (eq_of x n e))
  | inr other ↦ ground (arith, h, m, other, any_cached_not n ns cache)
]

module _ (id_of : ℕ → ℕ) (name_of : ℕ → ℕ) (metadata_of : ℕ → Option Metadata) where
  -- an index that is kept is coherent with the new set too
  pub kept-IsCoherent :
      (rule : Metadata) (node : ℕ) (gone : List ℕ) (s s' : DiscoverySet) (c : IndexCache)
      → filter rule default_instance ≡ false
      → Goes node gone s s'
      → any_cached gone c.reference_cache ≡ false
      → filters rule (metadata_of node) ≡ false
      → IsCoherent id_of name_of metadata_of (some rule) s c
      → IsCoherent id_of name_of metadata_of (some rule) s' c
  kept-IsCoherent rule node gone s s' c strict goes free other h = record {
    ring = h.ring;
    nodes = elim (h.nodes) [
      | inl e ↦ inl e
      | inr f ↦ inr (λ n. let e = same n f in ((f n).0 ∙ e, (f n).1 ∙ e))
    ];
  }
    where
      taken : Bool
      taken = filter rule (metadata_or_default (metadata_of node))

      not_taken :
          (o : Option Metadata)
          → filters rule o ≡ false
          → filter rule (metadata_or_default o) ≡ false
      not_taken none e = strict
      not_taken (some m) e = e

      same :
          (n : ℕ)
          → ((n : ℕ)
              → (is_cached n c.round_robin_cache ≡ listed id_of name_of metadata_of (some rule) s n)
                × (is_cached n c.reference_cache
                    ≡ listed id_of name_of metadata_of (some rule) s n))
          → listed id_of name_of metadata_of (some rule) s n
            ≡ listed id_of name_of metadata_of (some rule) s' n
      same n f = elim (Bool-cases (node == n)) [
        | inl e ↦
            let none_taken =
              ap (λ k. filter rule (metadata_or_default (metadata_of k))) (sym (eq_of node n e))
              ∙ not_taken (metadata_of node) other in
            ground (arith, none_taken)
        | inr ne ↦ elim (Bool-cases (is_cached n gone)) [
          | inl went ↦
              let (ids, names) = goes.no_new n ne in
              let absent = sym ((f n).1) ∙ any_cached_not n gone c.reference_cache free went in
              ground (arith, absent, ids, names)
          | inr here ↦
              let (ids, names) = goes.no_new n ne in
              let (ids', names') = goes.stays n ne here in ground (arith, ids, names, ids', names')
        ]
      ]
