-- ===== src/Etcd/Discovery/Half.antt =====
-- One of the two maps of a discovery set against the other, when a node is added.
use libatapp.Prelude.{
  ℕ, ◌≡◌, sym, ◌∙◌, ap, false, not, ◌&&◌, ◌||◌, some, List, ◌==◌, find, if◌then◌else◌, arith, inl,
  inr, Bool-cases, Option-cases, some_inj,
}
use libatapp.Etcd.Discovery.{put_into, drop_old}
use libatapp.Etcd.Discovery.Lookup.{
  find-put_into, find-drop_old, old_key-put_into, has_insert-put_into,
}

-- each entry of the one map has its node's key, which is not the empty one, and the node's other key
-- leads to the node too, where there is one
abbrev pub IsHalf : (ℕ → ℕ) → (ℕ → ℕ) → List (ℕ × ℕ) → List (ℕ × ℕ) → Type 0
IsHalf key_of other_of m m' =
    (k p : ℕ)
    → find k m ≡ some p
    → ((k == 0) ≡ false)
      × (key_of p ≡ k)
      × ((other_of p == 0) ≡ false → find (other_of p) m' ≡ some p)

module _ (key_of : ℕ → ℕ) (other_of : ℕ → ℕ) (node : ℕ) (m : List (ℕ × ℕ)) (m' : List (ℕ × ℕ)) where
  -- the two maps after add_node
  unfoldable pub mine : List (ℕ × ℕ)
  mine =
      let a = put_into other_of (key_of node) node m in
      let b = put_into key_of (other_of node) node m' in
      drop_old (a.has_insert || b.has_insert) b.old_key node a.index

  unfoldable pub theirs : List (ℕ × ℕ)
  theirs =
      let a = put_into other_of (key_of node) node m in
      let b = put_into key_of (other_of node) node m' in
      drop_old (a.has_insert || b.has_insert) a.old_key node b.index

  -- the node itself keeps its entry
  pub own_entry : (other_of node == 0) ≡ false → find (other_of node) theirs ≡ some node
  unfolding theirs
  own_entry ne =
      let a = put_into other_of (key_of node) node m in
      let b = put_into key_of (other_of node) node m' in
      ground (
        arith,
        find-drop_old (other_of node) a.old_key node (a.has_insert || b.has_insert) b.index,
        find-put_into key_of (other_of node) (other_of node) node m',
        ne,
      )

  a_index :
      (k : ℕ)
      → find k (put_into other_of (key_of node) node m).index
        ≡ (if not (key_of node == 0) && k == key_of node then some node else find k m)
  a_index k = find-put_into other_of k (key_of node) node m

  -- an entry of another node: it was there before, and its key is not the node's
  kept_entry :
      (k p : ℕ)
      → find k mine ≡ some p
      → (not (key_of node == 0) && k == key_of node) ≡ false
      → find k m ≡ some p
  unfolding mine
  kept_entry k p e other =
      let a = put_into other_of (key_of node) node m in
      let b = put_into key_of (other_of node) node m' in
      ground (
        arith,
        find-drop_old k b.old_key node (a.has_insert || b.has_insert) a.index,
        a_index k,
        e,
        other,
      )

  -- the other key of such a node is not the node's, since the entry would be stale
  not_shared :
      IsHalf key_of other_of m m'
      → (k p : ℕ) → find k mine ≡ some p
      → (not (key_of node == 0) && k == key_of node) ≡ false
      → (other_of p == 0) ≡ false
      → (other_of p == other_of node) ≡ false
  unfolding mine
  not_shared h k p e other ne =
      let a = put_into other_of (key_of node) node m in
      let b = put_into key_of (other_of node) node m' in
      let before : find k m ≡ some p = kept_entry k p e other in
      let (positive, own, linked) = h k p before in
      elim (Bool-cases (other_of p == other_of node)) [
        | inr apart ↦ apart
        | inl shared ↦
            let same : other_of p ≡ other_of node = ground (arith, shared) in
            let there : find (other_of node) m' ≡ some p =
              ap (λ x. find x m') (sym same) ∙ linked ne in
            ground (
              arith,
              find-drop_old k b.old_key node (a.has_insert || b.has_insert) a.index,
              a_index k,
              old_key-put_into key_of (other_of node) node m',
              has_insert-put_into key_of (other_of node) node m',
              e,
              other,
              positive,
              own,
              there,
              before,
              same,
              ne,
            )
      ]

  -- nor is it the stale key of the node's own change
  not_stale :
      IsHalf key_of other_of m m'
      → (k p q : ℕ) → find k m ≡ some p
      → (not (key_of node == 0) && k == key_of node) ≡ false
      → (other_of p == 0) ≡ false
      → find (key_of node) m ≡ some q
      → (key_of node == 0) ≡ false
      → (other_of p == other_of q) ≡ false
  not_stale h k p q before other ne there own_key = elim (Bool-cases (other_of p == other_of q)) [
    | inr apart ↦ apart
    | inl shared ↦
        let (_, own, linked) = h k p before in
        let (_, own', linked') = h (key_of node) q there in
        let same : other_of p ≡ other_of q = ground (arith, shared) in
        let q_is : find (other_of q) m' ≡ some q = linked' (ground (arith, same, ne)) in
        let p_is : find (other_of q) m' ≡ some p = ap (λ x. find x m') (sym same) ∙ linked ne in
        let one : p ≡ q = some_inj (sym p_is ∙ q_is) in
        let keys : k ≡ key_of node = sym own ∙ ap key_of one ∙ own' in
        absurd (ground (arith, keys, other, own_key))
  ]

  still_linked :
      IsHalf key_of other_of m m'
      → (k p : ℕ) → find k mine ≡ some p
      → (not (key_of node == 0) && k == key_of node) ≡ false
      → (other_of p == 0) ≡ false
      → find (other_of p) theirs ≡ some p
  unfolding theirs
  still_linked h k p e other ne =
      let a = put_into other_of (key_of node) node m in
      let b = put_into key_of (other_of node) node m' in
      let before : find k m ≡ some p = kept_entry k p e other in
      let (_, own, linked) = h k p before in
      let apart = not_shared h k p e other ne in
      let there : find (other_of p) b.index ≡ some p =
        ground
          (arith, find-put_into key_of (other_of p) (other_of node) node m', apart, linked ne) in
      elim (Option-cases (find (key_of node) m)) [
        | inl none_there ↦ ground (
          arith,
          find-drop_old (other_of p) a.old_key node (a.has_insert || b.has_insert) b.index,
          old_key-put_into other_of (key_of node) node m,
          none_there,
          there,
        )
        | inr (q, q_there) ↦ elim (Bool-cases (key_of node == 0)) [
          | inl keyless ↦ ground (
            arith,
            find-drop_old (other_of p) a.old_key node (a.has_insert || b.has_insert) b.index,
            old_key-put_into other_of (key_of node) node m,
            keyless,
            there,
          )
          | inr keyed ↦ ground (
            arith,
            find-drop_old (other_of p) a.old_key node (a.has_insert || b.has_insert) b.index,
            old_key-put_into other_of (key_of node) node m,
            q_there,
            not_stale h k p q before other ne q_there keyed,
            there,
            ne,
          )
        ]
      ]

  pub add-IsHalf : IsHalf key_of other_of m m' → IsHalf key_of other_of mine theirs
  unfolding mine
  add-IsHalf h k p e = elim (Bool-cases (not (key_of node == 0) && k == key_of node)) [
    | inl new ↦
        let a = put_into other_of (key_of node) node m in
        let b = put_into key_of (other_of node) node m' in
        let is_node : p ≡ node = ground (
          arith,
          find-drop_old k b.old_key node (a.has_insert || b.has_insert) a.index,
          a_index k,
          e,
          new,
        ) in
        (
          ground (arith, new),
          ground (arith, new, ap key_of is_node),
          λ ne.
              ap (λ x. find (other_of x) theirs) is_node
              ∙ own_entry (ground (arith, ne, ap other_of is_node))
              ∙ ap some (sym is_node),
        )
    | inr other ↦
        let (positive, own, linked) = h k p (kept_entry k p e other) in
        (positive, own, λ ne. still_linked h k p e other ne)
  ]
