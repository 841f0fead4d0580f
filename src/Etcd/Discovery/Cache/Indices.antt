-- ===== src/Etcd/Discovery/Cache/Indices.antt =====
-- The index that a rule leads to, and what changes there.
use libatapp.Prelude.{
  ℕ, ◌≡◌, ◌⊎◌, refl, sym, ◌∙◌, true, false, Option, none, some, List, [], ◌∷◌, arith, if-cases, inl,
  inr,
}
use mathlib.Core.Path.{subst}
use libatapp.Etcd.Discovery.{DiscoverySet}
use libatapp.Etcd.Discovery.Metadata.{
  Metadata, default_instance, is_empty, filter, metadata_equal, metadata_equal-eq,
}
use libatapp.Etcd.Discovery.Cache.{
  IndexCache, Caches, new_index, update_index, find_index, mutable_index_cache, with_index,
  metadata_or_default,
}
use libatapp.Etcd.Discovery.Cache.Coherent.{listed, IsCoherent, empty_takes}
use libatapp.Etcd.Discovery.Cache.Fresh.{IndicesAre, IsFresh}

-- a rule that is empty, or that does not take a node without metadata
abbrev pub IsStrict : Option Metadata → Type 0
IsStrict none = Unit
IsStrict (some rule) = (is_empty rule ≡ true) ⊎ (filter rule default_instance ≡ false)

module _ (id_of : ℕ → ℕ) (name_of : ℕ → ℕ) (metadata_of : ℕ → Option Metadata) where
  -- what keeps every cache coherent, for every rule
  abbrev pub Keeps : DiscoverySet → Option Metadata → (IndexCache → IndexCache) → Type 0
  Keeps s rule f =
      (c : IndexCache)
      → IsCoherent id_of name_of metadata_of rule s c
      → IsCoherent id_of name_of metadata_of rule s (f c)

  update_index-IndicesAre :
      (rule : Metadata) (f : IndexCache → IndexCache) (s : DiscoverySet)
      (idx : List (Metadata × IndexCache))
      → filter rule default_instance ≡ false
      → Keeps s (some rule) f
      → IndicesAre id_of name_of metadata_of s idx
      → IndicesAre id_of name_of metadata_of s (update_index rule f idx)
  update_index-IndicesAre rule f s [] strict keeps h =
      ((strict, keeps new_index (record { ring = refl; nodes = inl (refl, refl) })), tt)
  update_index-IndicesAre rule f s ((r, c) ∷ idx) strict keeps ((strict', here), more) =
      let rest = update_index-IndicesAre rule f s idx strict keeps more in
      if-cases (IndicesAre id_of name_of metadata_of s) (metadata_equal r rule) _ _
        (λ equal.
          let same = metadata_equal-eq r rule equal in
          (
            (
              strict',
              subst (λ m. IsCoherent id_of name_of metadata_of (some m) s (f c)) (sym same)
                  (keeps c
                    (subst (λ m. IsCoherent id_of name_of metadata_of (some m) s c) same here)),
            ),
            more,
          ))
        (λ other. ((strict', here), rest))

  find_index-IsCoherent :
      (rule : Metadata) (s : DiscoverySet) (idx : List (Metadata × IndexCache))
      → IndicesAre id_of name_of metadata_of s idx
      → IsCoherent id_of name_of metadata_of (some rule) s (find_index rule idx)
  find_index-IsCoherent rule s [] h = record { ring = refl; nodes = inl (refl, refl) }
  find_index-IsCoherent rule s ((r, c) ∷ idx) ((strict, here), more) =
      if-cases (IsCoherent id_of name_of metadata_of (some rule) s) (metadata_equal r rule) _ _
        (λ equal.
          subst (λ m. IsCoherent id_of name_of metadata_of (some m) s c)
            (metadata_equal-eq r rule equal) here)
        (λ other. find_index-IsCoherent rule s idx more)

  listed-empty :
      (rule : Metadata) (s : DiscoverySet) (n : ℕ)
      → is_empty rule ≡ true
      → listed id_of name_of metadata_of (some rule) s n ≡ listed id_of name_of metadata_of none s n
  listed-empty rule s n e = ground (arith, empty_takes rule (metadata_or_default (metadata_of n)) e)

  -- an empty rule and none at all list the same
  retarget :
      (rule rule' : Option Metadata) (s : DiscoverySet) (c : IndexCache)
      → ((n : ℕ)
          → listed id_of name_of metadata_of rule s n ≡ listed id_of name_of metadata_of rule' s n)
      → IsCoherent id_of name_of metadata_of rule s c
      → IsCoherent id_of name_of metadata_of rule' s c
  retarget rule rule' s c same h = record {
    ring = h.ring;
    nodes = elim (h.nodes) [
      | inl e ↦ inl e
      | inr f ↦ inr (λ n. ((f n).0 ∙ same n, (f n).1 ∙ same n))
    ];
  }

  pub mutable-IsCoherent :
      (rule : Option Metadata) (s : Caches)
      → IsFresh id_of name_of metadata_of s
      → IsCoherent id_of name_of metadata_of rule s.set (mutable_index_cache rule s)
  mutable-IsCoherent none s h = h.default
  mutable-IsCoherent (some rule) s h =
      if-cases (IsCoherent id_of name_of metadata_of (some rule) s.set) (is_empty rule) _ _
        (λ e.
          retarget none (some rule) s.set s.default_index (λ n. sym (listed-empty rule s.set n e))
            h.default)
        (λ full. find_index-IsCoherent rule s.set s.metadata_index h.indices)

  pub with_index-IsFresh :
      (rule : Option Metadata) (f : IndexCache → IndexCache) (s : Caches)
      → IsStrict rule
      → Keeps s.set rule f
      → IsFresh id_of name_of metadata_of s
      → IsFresh id_of name_of metadata_of (with_index rule f s)
  with_index-IsFresh none f s strict keeps h = record {
    linked = h.linked;
    ids = h.ids;
    names = h.names;
    default = keeps s.default_index h.default;
    indices = h.indices;
  }
  with_index-IsFresh (some rule) f s strict keeps h =
      if-cases (IsFresh id_of name_of metadata_of) (is_empty rule) _ _
        (λ e. record {
          linked = h.linked;
          ids = h.ids;
          names = h.names;
          default =
              retarget (some rule) none s.set (f s.default_index) (λ n. listed-empty rule s.set n e)
                (keeps s.default_index (
                  retarget none (some rule) s.set s.default_index
                    (λ n. sym (listed-empty rule s.set n e)) h.default));
          indices = h.indices;
        })
        (λ full. record {
          linked = h.linked;
          ids = h.ids;
          names = h.names;
          default = h.default;
          indices =
              update_index-IndicesAre rule f s.set s.metadata_index
                (elim strict [ inl e ↦ cc | inr k ↦ k ]) keeps h.indices;
        })
