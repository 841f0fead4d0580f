-- ===== src/Etcd/Discovery/Cache/Keys.antt =====
-- Which nodes an operation adds to one of the two maps, and which it takes out.
use libatapp.Prelude.{
  ℕ, ◌≡◌, Bool, true, false, not, ◌&&◌, ◌||◌, Option, none, some, List, ◌==◌, find, arith, inl, inr,
  Bool-cases, Option-cases, if-cases, ap, ◌∙◌,
}
use libatapp.Etcd.Discovery.{
  Indexed, replace, put_into, drop_unless, drop_old, drop_own, remove_own,
}
use libatapp.Etcd.Discovery.Lookup.{find-put_into, old_key-put_into}
use libatapp.Etcd.Discovery.Half.{IsHalf, mine}
use libatapp.Etcd.Discovery.Metadata.{holds}
use libatapp.Etcd.Discovery.Cache.{old_at}
use libatapp.Etcd.Discovery.Cache.Values.{
  has_value, IsMap, insert-IsMap, erase-IsMap, has_value-insert, insert-has_value, has_value-erase,
  erase-has_value,
}

module _ (n node : ℕ) (ne : node == n ≡ false) where
  put_into-has_value :
      (other_of : ℕ → ℕ) (key : ℕ) (m : List (ℕ × ℕ))
      → has_value n (put_into other_of key node m).index ≡ true
      → has_value n m ≡ true
  put_into-has_value other_of key m h = elim (Option-cases (find key m)) [
    | inl free ↦ ground (arith, h, free, has_value-insert n key node m)
    | inr (old, there) ↦ ground (arith, h, there, has_value-insert n key node m)
  ]

  has_value-put_into :
      (other_of : ℕ → ℕ) (key : ℕ) (m : List (ℕ × ℕ))
      → holds (old_at key node m) n ≡ false
      → has_value n m ≡ true
      → has_value n (put_into other_of key node m).index ≡ true
  has_value-put_into other_of key m kept h = elim (Option-cases (find key m)) [
    | inl free ↦ ground (arith, h, free, insert-has_value n key node m)
    | inr (old, there) ↦ ground (arith, h, kept, there, insert-has_value n key node m)
  ]

replace-IsMap :
    (other_of : ℕ → ℕ) (key node : ℕ) (m : List (ℕ × ℕ)) (o : Option ℕ)
    → IsMap m
    → IsMap (replace other_of key node m o).index
replace-IsMap other_of key node m none u = insert-IsMap key node m u
replace-IsMap other_of key node m (some old) u =
    if-cases (λ (r : Indexed). IsMap r.index) (old == node) _ _ (λ same. u)
      (λ other. insert-IsMap key node m u)

put_into-IsMap :
    (other_of : ℕ → ℕ) (key node : ℕ) (m : List (ℕ × ℕ))
    → IsMap m
    → IsMap (put_into other_of key node m).index
put_into-IsMap other_of key node m u =
    if-cases (λ (r : Indexed). IsMap r.index) (key == 0) _ _ (λ keyless. u)
      (λ keyed. replace-IsMap other_of key node m (find key m) u)

drop_unless-IsMap :
    (key node : ℕ) (m : List (ℕ × ℕ)) (o : Option ℕ) → IsMap m → IsMap (drop_unless key node m o)
drop_unless-IsMap key node m none u = u
drop_unless-IsMap key node m (some there) u =
    if-cases IsMap (there == node) _ _ (λ same. u) (λ other. erase-IsMap key m u)

drop_old-IsMap :
    (h : Bool) (key node : ℕ) (m : List (ℕ × ℕ)) → IsMap m → IsMap (drop_old h key node m)
drop_old-IsMap h key node m u =
    if-cases IsMap (h && not (key == 0)) _ _ (λ drops. drop_unless-IsMap key node m (find key m) u)
      (λ stays. u)

drop_own-IsMap :
    (key node : ℕ) (m : List (ℕ × ℕ)) (o : Option ℕ) → IsMap m → IsMap (drop_own key node m o)
drop_own-IsMap key node m none u = u
drop_own-IsMap key node m (some there) u =
    if-cases IsMap (there == node) _ _ (λ same. erase-IsMap key m u) (λ other. u)

pub remove_own-IsMap : (key node : ℕ) (m : List (ℕ × ℕ)) → IsMap m → IsMap (remove_own key node m)
remove_own-IsMap key node m u =
    if-cases IsMap (key == 0) _ _ (λ keyless. u) (λ keyed. drop_own-IsMap key node m (find key m) u)

drop_old-has_value :
    (n key node : ℕ) (h : Bool) (m : List (ℕ × ℕ))
    → has_value n (drop_old h key node m) ≡ true
    → has_value n m ≡ true
drop_old-has_value n key node h m v = elim (Option-cases (find key m)) [
  | inl free ↦ ground (arith, v, free, has_value-erase n key m)
  | inr (old, there) ↦ ground (arith, v, there, has_value-erase n key m)
]

has_value-drop_old :
    (n key node : ℕ) (h : Bool) (m : List (ℕ × ℕ))
    → IsMap m
    → ((key == 0) ≡ false → holds (find key m) n ≡ false)
    → has_value n m ≡ true
    → has_value n (drop_old h key node m) ≡ true
has_value-drop_old n key node h m u away v = elim (Bool-cases (key == 0)) [
  | inl keyless ↦ ground (arith, v, keyless)
  | inr keyed ↦ elim (Option-cases (find key m)) [
    | inl free ↦ ground (arith, v, free, keyed)
    | inr (old, there) ↦ ground (arith, v, there, keyed, away keyed, erase-has_value n key m u)
  ]
]

pub has_value-remove_own :
    (n key node : ℕ) (m : List (ℕ × ℕ))
    → has_value n (remove_own key node m) ≡ true
    → has_value n m ≡ true
has_value-remove_own n key node m v = elim (Option-cases (find key m)) [
  | inl free ↦ ground (arith, v, free)
  | inr (old, there) ↦ ground (arith, v, there, has_value-erase n key m)
]

pub remove_own-has_value :
    (n key node : ℕ) (m : List (ℕ × ℕ))
    → IsMap m
    → node == n ≡ false
    → has_value n m ≡ true
    → has_value n (remove_own key node m) ≡ true
remove_own-has_value n key node m u ne v = elim (Option-cases (find key m)) [
  | inl free ↦ ground (arith, v, free)
  | inr (old, there) ↦ ground (arith, v, there, ne, erase-has_value n key m u)
]

-- one map after add_node, and another node
module _ (key_of : ℕ → ℕ) (other_of : ℕ → ℕ) (node : ℕ) (m : List (ℕ × ℕ)) (m' : List (ℕ × ℕ)) where
  pub mine-IsMap : IsMap m → IsMap (mine key_of other_of node m m')
  unfolding mine
  mine-IsMap u =
      let a = put_into other_of (key_of node) node m in
      let b = put_into key_of (other_of node) node m' in
      drop_old-IsMap (a.has_insert || b.has_insert) b.old_key node a.index
        (put_into-IsMap other_of (key_of node) node m u)

  pub has_value-mine :
      (n : ℕ)
      → node == n ≡ false
      → has_value n (mine key_of other_of node m m') ≡ true
      → has_value n m ≡ true
  unfolding mine
  has_value-mine n ne v =
      let a = put_into other_of (key_of node) node m in
      let b = put_into key_of (other_of node) node m' in
      put_into-has_value n node ne other_of (key_of node) m
        (drop_old-has_value n b.old_key node (a.has_insert || b.has_insert) a.index v)

  old_key_away :
      (n : ℕ)
      → node == n ≡ false
      → IsHalf other_of key_of m' m
      → holds (old_at (other_of node) node m') n ≡ false
      → let k = (put_into key_of (other_of node) node m').old_key in
        (k == 0) ≡ false → holds (find k (put_into other_of (key_of node) node m).index) n ≡ false
  old_key_away n ne half kept keyed = elim (Option-cases (find (other_of node) m')) [
    | inl free ↦ ground (arith, old_key-put_into key_of (other_of node) node m', free, keyed)
    | inr (old, there) ↦
        let k = (put_into key_of (other_of node) node m').old_key in
        let rule = old_key-put_into key_of (other_of node) node m' in
        let (_, _, linked) = half (other_of node) old there in
        let same : k ≡ key_of old = ground (arith, rule, there, keyed) in
        let found : find k m ≡ some old =
          ap (λ x. find x m) same ∙ linked (ground (arith, rule, there, keyed)) in
        ground
          (arith, rule, there, keyed, found, find-put_into other_of k (key_of node) node m, kept)
  ]

  pub mine-has_value :
      (n : ℕ)
      → node == n ≡ false
      → IsMap m
      → IsHalf other_of key_of m' m
      → holds (old_at (key_of node) node m) n ≡ false
      → holds (old_at (other_of node) node m') n ≡ false
      → has_value n m ≡ true
      → has_value n (mine key_of other_of node m m') ≡ true
  unfolding mine
  mine-has_value n ne u half kept kept' v =
      let a = put_into other_of (key_of node) node m in
      let b = put_into key_of (other_of node) node m' in
      has_value-drop_old n b.old_key node (a.has_insert || b.has_insert) a.index
        (put_into-IsMap other_of (key_of node) node m u) (old_key_away n ne half kept')
        (has_value-put_into n node ne other_of (key_of node) m kept v)
