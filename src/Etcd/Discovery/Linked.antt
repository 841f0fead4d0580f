-- ===== src/Etcd/Discovery/Linked.antt =====
-- The two maps of a discovery set agree, whatever nodes come and go.
use mathlib.Core.Path.{subst}
use libatapp.Prelude.{
  ℕ, ◌≡◌, ◌≢◌, ◌⊎◌, refl, sym, ◌∙◌, ap, Bool, true, false, ◌||◌, some, List, [], ◌∷◌, ◌==◌, find,
  erase, arith, inl, inr, Bool-cases, Option-cases, none-ne-some,
}
use libatapp.Etcd.Discovery.{
  DiscoverySet, no_nodes, put_into, remove_own, add_node, remove_node, removed_at_id,
  remove_node_by_id, removed_at_name, remove_node_by_name,
}
use libatapp.Etcd.Discovery.Lookup.{find-remove_own}
use libatapp.Etcd.Discovery.Half.{IsHalf, mine, theirs, own_entry, add-IsHalf}

remove-IsHalf :
    (key_of other_of : ℕ → ℕ) (node : ℕ) (m m' : List (ℕ × ℕ))
    → IsHalf key_of other_of m m'
    → IsHalf key_of other_of (remove_own (key_of node) node m) (remove_own (other_of node) node m')
remove-IsHalf key_of other_of node m m' h k p e =
    let before : find k m ≡ some p = ground (arith, find-remove_own k (key_of node) node m, e) in
    let (positive, own, linked) = h k p before in
    (
      positive,
      own,
      λ ne. elim (Bool-cases (p == node)) [
        | inr another ↦
            ground (arith, find-remove_own (other_of p) (other_of node) node m', linked ne, another)
        | inl itself ↦
            let one : p ≡ node = ground (arith, itself) in
            let keys : k ≡ key_of node = sym own ∙ ap key_of one in
            absurd (
              none-ne-some {A = ℕ} {a = p} (
                ground (
                  arith,
                  find-remove_own k (key_of node) node m,
                  e,
                  before,
                  keys,
                  positive,
                  itself,
                )))
      ],
    )

gone :
    (key_of other_of : ℕ → ℕ) (node k : ℕ) (m m' : List (ℕ × ℕ))
    → IsHalf key_of other_of m m'
    → find k (remove_own (key_of node) node m) ≢ some node
gone key_of other_of node k m m' h e =
    let before : find k m ≡ some node = ground (arith, find-remove_own k (key_of node) node m, e) in
    let (positive, own, _) = h k node before in
    none-ne-some {A = ℕ} {a = node}
      (ground (arith, find-remove_own k (key_of node) node m, e, before, own, positive))

pub or_comm : (a b : Bool) → (a || b) ≡ (b || a)
or_comm true true = refl
or_comm true false = refl
or_comm false true = refl
or_comm false false = refl

module _ (id_of : ℕ → ℕ) (name_of : ℕ → ℕ) where
  -- The map by id and the map by name have the same nodes, as far as these have both keys.
  abbrev pub IsLinked : DiscoverySet → Type 0
  IsLinked s =
      IsHalf id_of name_of s.node_by_id s.node_by_name
      × IsHalf name_of id_of s.node_by_name s.node_by_id

  pub add_node-IsLinked :
      (node : ℕ) (s : DiscoverySet) → IsLinked s → IsLinked (add_node id_of name_of node s)
  unfolding add_node mine theirs
  add_node-IsLinked node s h =
      let a = put_into name_of (id_of node) node s.node_by_id in
      let b = put_into id_of (name_of node) node s.node_by_name in
      (
        add-IsHalf id_of name_of node s.node_by_id s.node_by_name h.0,
        rw (or_comm a.has_insert b.has_insert)
            (add-IsHalf name_of id_of node s.node_by_name s.node_by_id h.1),
      )

  pub remove_node-IsLinked :
      (node : ℕ) (s : DiscoverySet) → IsLinked s → IsLinked (remove_node id_of name_of node s)
  unfolding remove_node
  remove_node-IsLinked node s h = (
    remove-IsHalf id_of name_of node s.node_by_id s.node_by_name h.0,
    remove-IsHalf name_of id_of node s.node_by_name s.node_by_id h.1,
  )

  erases_own :
      (key_of : ℕ → ℕ) (node : ℕ) (m : List (ℕ × ℕ))
      → (key_of node == 0) ≡ false
      → find (key_of node) m ≡ some node
      → remove_own (key_of node) node m ≡ erase (key_of node) m
  erases_own key_of node m ne there = rw (ne, there) (ground arith)

  -- removing by a key is removing the node that is there
  pub removed_at_id-remove_node :
      (id node : ℕ) (s : DiscoverySet)
      → IsLinked s
      → find id s.node_by_id ≡ some node
      → removed_at_id id_of name_of id s (some node) ≡ remove_node id_of name_of node s
  unfolding remove_node
  removed_at_id-remove_node id node s h there =
      let (positive, own, _) = h.0 id node there in
      let here : find (id_of node) s.node_by_id ≡ some node =
        ap (λ x. find x s.node_by_id) own ∙ there in
      let keyed : (id_of node == 0) ≡ false = ground (arith, own, positive) in
      ap
        (λ m. record {
          node_by_id = m;
          node_by_name = remove_own (name_of node) node s.node_by_name;
        })
        (sym (erases_own id_of node s.node_by_id keyed here ∙ ap (λ x. erase x s.node_by_id) own))

  pub removed_at_name-remove_node :
      (name node : ℕ) (s : DiscoverySet)
      → IsLinked s
      → find name s.node_by_name ≡ some node
      → removed_at_name id_of name_of name s (some node) ≡ remove_node id_of name_of node s
  unfolding remove_node
  removed_at_name-remove_node name node s h there =
      let (positive, own, _) = h.1 name node there in
      let here : find (name_of node) s.node_by_name ≡ some node =
        ap (λ x. find x s.node_by_name) own ∙ there in
      let keyed : (name_of node == 0) ≡ false = ground (arith, own, positive) in
      ap (λ m. record { node_by_id = remove_own (id_of node) node s.node_by_id; node_by_name = m })
        (sym (
          erases_own name_of node s.node_by_name keyed here ∙ ap (λ x. erase x s.node_by_name) own))

  pub remove_by_id-IsLinked :
      (id : ℕ) (s : DiscoverySet) → IsLinked s → IsLinked (remove_node_by_id id_of name_of id s)
  unfolding remove_node_by_id
  remove_by_id-IsLinked id s h = elim (Option-cases (find id s.node_by_id)) [
    | inl none_there ↦ subst (λ o. IsLinked (removed_at_id id_of name_of id s o)) (sym none_there) h
    | inr (node, there) ↦
        subst (λ o. IsLinked (removed_at_id id_of name_of id s o)) (sym there)
          (subst IsLinked (sym (removed_at_id-remove_node id node s h there))
            (remove_node-IsLinked node s h))
  ]

  pub remove_by_name-IsLinked :
      (name : ℕ) (s : DiscoverySet)
      → IsLinked s
      → IsLinked (remove_node_by_name id_of name_of name s)
  unfolding remove_node_by_name
  remove_by_name-IsLinked name s h = elim (Option-cases (find name s.node_by_name)) [
    | inl none_there ↦
        subst (λ o. IsLinked (removed_at_name id_of name_of name s o)) (sym none_there) h
    | inr (node, there) ↦
        subst (λ o. IsLinked (removed_at_name id_of name_of name s o)) (sym there)
          (subst IsLinked (sym (removed_at_name-remove_node name node s h there))
            (remove_node-IsLinked node s h))
  ]

-- what can happen to a discovery set
pub data Change : Type 0 where
  adds removes removes_id removes_name : ℕ → Change

module _ (id_of : ℕ → ℕ) (name_of : ℕ → ℕ) where
  unfoldable pub change : Change → DiscoverySet → DiscoverySet
  unfolding add_node remove_node remove_node_by_id remove_node_by_name
  change (adds node) s = add_node id_of name_of node s
  change (removes node) s = remove_node id_of name_of node s
  change (removes_id id) s = remove_node_by_id id_of name_of id s
  change (removes_name name) s = remove_node_by_name id_of name_of name s

  unfoldable pub change_all : List Change → DiscoverySet → DiscoverySet
  unfolding change
  change_all [] s = s
  change_all (c ∷ cs) s = change_all cs (change c s)

  change-IsLinked :
      (c : Change) (s : DiscoverySet)
      → IsLinked id_of name_of s
      → IsLinked id_of name_of (change c s)
  unfolding change
  change-IsLinked (adds node) s h = add_node-IsLinked id_of name_of node s h
  change-IsLinked (removes node) s h = remove_node-IsLinked id_of name_of node s h
  change-IsLinked (removes_id id) s h = remove_by_id-IsLinked id_of name_of id s h
  change-IsLinked (removes_name name) s h = remove_by_name-IsLinked id_of name_of name s h

  changes-IsLinked :
      (cs : List Change) (s : DiscoverySet)
      → IsLinked id_of name_of s
      → IsLinked id_of name_of (change_all cs s)
  unfolding change_all
  changes-IsLinked [] s h = h
  changes-IsLinked (c ∷ cs) s h = changes-IsLinked cs (change c s) (change-IsLinked c s h)

  -- Whatever is added to an empty discovery set and removed from it, an entry of a map is under its
  -- node's own key, which is not the empty one, and the node is in the other map too, under its key
  -- there, where that is not the empty one.
  pub change_all-IsLinked : (cs : List Change) → IsLinked id_of name_of (change_all cs no_nodes)
  change_all-IsLinked cs =
      changes-IsLinked cs no_nodes
        ((λ k p e. absurd (none-ne-some e)), (λ k p e. absurd (none-ne-some e)))

  -- A node that is added is found by its id and by its name, unless these are the empty ones.
  add_node_found :
      (node : ℕ) (s : DiscoverySet)
      → let s' = add_node id_of name_of node s in
        (((id_of node == 0) ≡ true) ⊎ (find (id_of node) s'.node_by_id ≡ some node))
        × (((name_of node == 0) ≡ true) ⊎ (find (name_of node) s'.node_by_name ≡ some node))
  unfolding add_node theirs
  add_node_found node s =
      let a = put_into name_of (id_of node) node s.node_by_id in
      let b = put_into id_of (name_of node) node s.node_by_name in
      (
        elim (Bool-cases (id_of node == 0)) [
          | inl keyless ↦ inl keyless
          | inr keyed ↦ inr (
              rw (or_comm a.has_insert b.has_insert)
                (own_entry name_of id_of node s.node_by_name s.node_by_id keyed))
        ],
        elim (Bool-cases (name_of node == 0)) [
          | inl keyless ↦ inl keyless
          | inr keyed ↦ inr (own_entry id_of name_of node s.node_by_id s.node_by_name keyed)
        ],
      )

  -- A node that is removed from a set whose maps agree is in neither map, under no key.
  remove_node_gone :
      (node k : ℕ) (s : DiscoverySet)
      → IsLinked id_of name_of s
      → let s' = remove_node id_of name_of node s in
        (find k s'.node_by_id ≢ some node) × (find k s'.node_by_name ≢ some node)
  unfolding remove_node
  remove_node_gone node k s h = (
    gone id_of name_of node k s.node_by_id s.node_by_name h.0,
    gone name_of id_of node k s.node_by_name s.node_by_id h.1,
  )
