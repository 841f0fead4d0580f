-- ===== src/Etcd/Cluster/Removal.antt =====
-- What removing a keepalive does to the lists.
use libatapp.Etcd.Cluster.Lists.{AtMostOnce, IsUnique, contains-count, count-swap_out}
use libatapp.Prelude.{
  ℕ, ◌≡◌, refl, sym, ◌∙◌, ap, false, ◌||◌, Option, none, some, List, [], ◌∷◌, ◌==◌, arith, count,
  get_elem?, if◌then◌else◌, inl, inr, Bool-cases,
}
use libatapp.Etcd.Keepalive.{Keepalive}
use libatapp.Etcd.Cluster.{Cluster, contains, remove_keepalive, closed_at, swap_out}

closed_at_lists :
    (i : ℕ) (o : Option Keepalive) (c : Cluster)
    → ((closed_at i o c).keepalive_actors ≡ c.keepalive_actors)
      × ((closed_at i o c).keepalive_retry_actors ≡ c.keepalive_retry_actors)
unfolding closed_at
closed_at_lists i none c = (refl, refl)
closed_at_lists i (some k) c = (refl, refl)

swap_out_absent : (i : ℕ) (xs : List ℕ) → contains i xs ≡ false → swap_out i xs ≡ xs
swap_out_absent i [] h = refl
swap_out_absent i (x ∷ []) h = ground (arith, h)
swap_out_absent i (x ∷ y ∷ ys) h =
    let other : (x == i) ≡ false = ground (arith, h) in
    rw other (ap (λ l. x ∷ l) (swap_out_absent i (y ∷ ys) (ground (arith, h))))

removed_lists :
    (i : ℕ) (c : Cluster)
    → let c' = (remove_keepalive i c).0 in
      (c'.keepalive_actors ≡ swap_out i c.keepalive_actors)
      × (c'.keepalive_retry_actors ≡ swap_out i c.keepalive_retry_actors)
unfolding remove_keepalive
removed_lists i c =
    elim (Bool-cases (contains i c.keepalive_actors || contains i c.keepalive_retry_actors)) [
      | inl found ↦ rw found (
          closed_at_lists i (get_elem? c.objects i) (record c {
            keepalive_actors = swap_out i c.keepalive_actors;
            keepalive_retry_actors = swap_out i c.keepalive_retry_actors;
          }))
      | inr absent ↦ rw absent (
        sym (swap_out_absent i c.keepalive_actors (ground (arith, absent))),
        sym (swap_out_absent i c.keepalive_retry_actors (ground (arith, absent))),
      )
    ]

count-removed :
    (i j : ℕ) (xs : List ℕ)
    → AtMostOnce xs
    → count j (swap_out i xs) ≡ (if j == i then 0 else count j xs)
count-removed i j xs u = elim (Bool-cases (contains i xs)) [
  | inl there ↦ ground (arith, count-swap_out j i xs, u i, there)
  | inr absent ↦ ground (arith, count-swap_out j i xs, contains-count i xs absent, absent)
]

-- A keepalive that is removed is in neither list any more, and each other one is in each list as
-- before: where no keepalive is twice in a list.
remove_keepalive_lem :
    (i j : ℕ) (c : Cluster)
    → IsUnique c
    → let c' = (remove_keepalive i c).0 in
      (count j c'.keepalive_actors ≡ (if j == i then 0 else count j c.keepalive_actors))
      × (count j c'.keepalive_retry_actors
          ≡ (if j == i then 0 else count j c.keepalive_retry_actors))
remove_keepalive_lem i j c u =
    let (actors, retry_actors) = removed_lists i c in
    (
      ap (count j) actors ∙ count-removed i j c.keepalive_actors u.0,
      ap (count j) retry_actors ∙ count-removed i j c.keepalive_retry_actors u.1,
    )
