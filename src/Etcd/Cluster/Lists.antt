-- ===== src/Etcd/Cluster/Lists.antt =====
-- The two lists of keepalives have each of them at most once.
use libatapp.Prelude.{
  ℕ, ◌+◌, ◌<◌, ◌≤◌, ◌≡◌, refl, Bool, true, false, ◌||◌, ◌&&◌, not, Option, none, some, List, [],
  ◌∷◌, ◌++◌, ◌==◌, arith, count, count-append, get_elem?, if◌then◌else◌, inl, inr, Bool-cases,
  if-cases,
}
use libatapp.Etcd.Keepalive.{Keepalive, Http, active, Done}
use libatapp.Etcd.Cluster.{
  Cluster, contains, set_at, add_retry_keepalive, add_keepalive, remove_keepalive, after_call,
  activate, reactivate, retry_each, retry_pending_actions, set_lease, closed_at, last_of, but_last,
  swap_out,
}

pub contains-count : (j : ℕ) (xs : List ℕ) → contains j xs ≡ false → count j xs ≡ 0
contains-count j [] h = refl
contains-count j (x ∷ xs) h = ground (arith, contains-count j xs)

contained-count : (j : ℕ) (xs : List ℕ) → contains j xs ≡ true → 0 < count j xs
contained-count j [] h = absurd (ground (arith, h))
contained-count j (x ∷ xs) h = ground (arith, contained-count j xs)

count-last : (j y : ℕ) (ys : List ℕ) → count j (last_of y ys ∷ but_last y ys) ≡ count j (y ∷ ys)
count-last j y [] = refl
count-last j y (z ∷ zs) = omega (arith, count-last j z zs)

-- one of `i` less, if there is one
pub count-swap_out :
    (j i : ℕ) (xs : List ℕ)
    → count j (swap_out i xs) + (if contains i xs && j == i then 1 else 0) ≡ count j xs
count-swap_out j i [] = refl
count-swap_out j i (x ∷ []) = ground arith
count-swap_out j i (x ∷ y ∷ ys) = ground (arith, count-last j y ys, count-swap_out j i (y ∷ ys))

abbrev pub AtMostOnce : List ℕ → Type 0
AtMostOnce xs = (j : ℕ) → count j xs ≤ 1

-- each keepalive at most once in either list
abbrev pub IsUnique : Cluster → Type 0
IsUnique c = AtMostOnce c.keepalive_actors × AtMostOnce c.keepalive_retry_actors

AtMostOnce-append :
    (i : ℕ) (xs : List ℕ) → contains i xs ≡ false → AtMostOnce xs → AtMostOnce (xs ++ i ∷ [])
AtMostOnce-append i xs h u j =
    ground (arith, count-append j xs (i ∷ []), contains-count i xs h, u j)

AtMostOnce-swap_out : (i : ℕ) (xs : List ℕ) → AtMostOnce xs → AtMostOnce (swap_out i xs)
AtMostOnce-swap_out i xs u j = omega (arith, u j, count-swap_out j i xs)

pub add_retry-IsUnique : (i : ℕ) (c : Cluster) → IsUnique c → IsUnique (add_retry_keepalive i c).0
unfolding add_retry_keepalive
add_retry-IsUnique i c u = elim (Bool-cases c.closing) [
  | inl ends ↦ rw ends u
  | inr open_yet ↦ elim (Bool-cases (contains i c.keepalive_retry_actors)) [
    | inl there ↦ rw (open_yet, there) u
    | inr new ↦ rw (open_yet, new) (u.0, AtMostOnce-append i c.keepalive_retry_actors new u.1)
  ]
]

after_call-IsUnique : (i : ℕ) (d : Done) (c : Cluster) → IsUnique c → IsUnique (after_call i d c)
unfolding after_call
after_call-IsUnique i d c u = elim (Bool-cases d.retry) [
  | inl asks ↦ rw asks (add_retry-IsUnique i (record c { objects = set_at i d.self c.objects }) u)
  | inr rests ↦ rw rests u
]

activate-IsUnique :
    (http : Http) (i : ℕ) (o : Option Keepalive) (c : Cluster)
    → IsUnique c
    → IsUnique (activate http i o c)
unfolding activate
activate-IsUnique http i none c u = u
activate-IsUnique http i (some k) c u = after_call-IsUnique i (active http k) c u

reactivate-IsUnique :
    (http : Http) (i : ℕ) (o : Option Keepalive) (c : Cluster)
    → IsUnique c
    → IsUnique (reactivate http i o c)
unfolding reactivate
reactivate-IsUnique http i none c u = u
reactivate-IsUnique http i (some k) c u =
    after_call-IsUnique i (active http (record k { is_value_changed = true })) c u

retry_each-IsUnique :
    (https : ℕ → Http) (is : List ℕ) (c : Cluster) → IsUnique c → IsUnique (retry_each https is c)
unfolding retry_each
retry_each-IsUnique https [] c u = u
retry_each-IsUnique https (i ∷ is) c u =
    retry_each-IsUnique https is (reactivate (https i) i (get_elem? c.objects i) c)
      (reactivate-IsUnique (https i) i (get_elem? c.objects i) c u)

none-AtMostOnce : AtMostOnce []
none-AtMostOnce j = omega arith

pub retry_pending-IsUnique :
    (https : ℕ → Http) (c : Cluster) → IsUnique c → IsUnique (retry_pending_actions https c)
unfolding retry_pending_actions
retry_pending-IsUnique https c u = elim (Bool-cases (c.lease == 0)) [
  | inl none_yet ↦ rw none_yet u
  | inr lease ↦
      rw lease ((retry_each-IsUnique https c.keepalive_retry_actors c u).0, none-AtMostOnce)
]

pub add_keepalive-IsUnique :
    (http : Http) (i : ℕ) (c : Cluster) → IsUnique c → IsUnique (add_keepalive http i c).0
unfolding add_keepalive
add_keepalive-IsUnique http i c u =
    let c' = record c { enable_lease = true; keepalive_actors = c.keepalive_actors ++ i ∷ [] } in
    let P : Cluster × Bool → Type 0 = λ r. IsUnique r.0 in
    if-cases P c.closing _ _ (λ ends. u)
      (λ open_yet.
        if-cases P (contains i c.keepalive_actors) _ _ (λ there. u)
          (λ new.
            let u' : IsUnique c' = (AtMostOnce-append i c.keepalive_actors new u.0, u.1) in
            if-cases P (c.running && not (c.lease == 0)) _ _
              (λ runs. activate-IsUnique http i (get_elem? c.objects i) c' u') (λ rests. u')))

closed_at-IsUnique :
    (i : ℕ) (o : Option Keepalive) (c : Cluster) → IsUnique c → IsUnique (closed_at i o c)
unfolding closed_at
closed_at-IsUnique i none c u = u
closed_at-IsUnique i (some k) c u = u

pub remove_keepalive-IsUnique :
    (i : ℕ) (c : Cluster) → IsUnique c → IsUnique (remove_keepalive i c).0
unfolding remove_keepalive
remove_keepalive-IsUnique i c u =
    elim (Bool-cases (contains i c.keepalive_actors || contains i c.keepalive_retry_actors)) [
      | inl found ↦ rw found (
          closed_at-IsUnique i (get_elem? c.objects i)
            (record c {
              keepalive_actors = swap_out i c.keepalive_actors;
              keepalive_retry_actors = swap_out i c.keepalive_retry_actors;
            })
            (
              AtMostOnce-swap_out i c.keepalive_actors u.0,
              AtMostOnce-swap_out i c.keepalive_retry_actors u.1,
            ))
      | inr absent ↦ rw absent u
    ]

pub set_lease-IsUnique :
    (https retries : ℕ → Http) (v : ℕ) (force : Bool) (c : Cluster)
    → IsUnique c
    → IsUnique (set_lease https retries v force c)
unfolding set_lease
set_lease-IsUnique https retries v force c u =
    elim (Bool-cases (c.lease == v && not force && not (v == 0))) [
      | inl same ↦ rw same (retry_pending-IsUnique retries (record c { lease = v }) u)
      | inr changed ↦ elim (Bool-cases (v == 0)) [
        | inl lost ↦ rw (changed, lost) u
        | inr granted ↦
            rw (changed, granted)
              (retry_pending-IsUnique retries
                (retry_each https c.keepalive_actors
                  (record c { lease = v; keepalive_retry_actors = [] }))
                (retry_each-IsUnique https c.keepalive_actors
                  (record c { lease = v; keepalive_retry_actors = [] }) (u.0, none-AtMostOnce)))
      ]
    ]
