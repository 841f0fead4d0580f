-- ===== src/Etcd/Cluster.antt =====
-- The lists of keepalives in etcd_cluster: add_keepalive, add_retry_keepalive, remove_keepalive and
-- retry_pending_actions in src/atframe/etcdcli/etcd_cluster.cpp. A keepalive is named by its place in
-- the store `objects`, as the source keeps pointers to it.
pub mod Lists
pub mod Calls
pub mod Removal
pub mod Retries
use libatapp.Prelude.{
  ℕ, zero, suc, ◌+◌, ◌-◌, Bool, true, false, not, ◌&&◌, ◌||◌, Option, none, some, List, [], ◌∷◌,
  ◌++◌, ◌==◌, get_elem?, length, if◌then◌else◌,
}
use libatapp.Etcd.Keepalive.{Keepalive, Http, Done, active, close}

pub record Cluster : Type 0 where
  pub objects : List Keepalive
  pub keepalive_actors : List ℕ
  pub keepalive_retry_actors : List ℕ
  pub closing : Bool
  pub running : Bool
  pub enable_lease : Bool
  pub lease : ℕ

abbrev pub contains : ℕ → List ℕ → Bool
contains k [] = false
contains k (x ∷ xs) = x == k || contains k xs

abbrev pub set_at : ℕ → Keepalive → List Keepalive → List Keepalive
set_at i k [] = []
set_at zero k (x ∷ xs) = k ∷ xs
set_at (suc i) k (x ∷ xs) = x ∷ set_at i k xs

-- bool add_retry_keepalive(keepalive), for one of this owner
unfoldable pub add_retry_keepalive : ℕ → Cluster → Cluster × Bool
add_retry_keepalive i c =
    if c.closing then (c, false) else if contains i c.keepalive_retry_actors then (c, false) else (
      record c { enable_lease = true; keepalive_retry_actors = c.keepalive_retry_actors ++ i ∷ [] },
      true,
    )

-- a call of the keepalive, with what it asks of its owner
abbrev pub after_call : ℕ → Done → Cluster → Cluster
unfolding add_retry_keepalive
after_call i d c =
    let c' = record c { objects = set_at i d.self c.objects } in
    if d.retry then (add_retry_keepalive i c').0 else c'

abbrev pub activate : Http → ℕ → Option Keepalive → Cluster → Cluster
unfolding active after_call
activate http i none c = c
activate http i (some k) c = after_call i (active http k) c

-- reset_value_changed and active, of the keepalive at a place
abbrev pub reactivate : Http → ℕ → Option Keepalive → Cluster → Cluster
unfolding active after_call
reactivate http i none c = c
reactivate http i (some k) c = after_call i (active http (record k { is_value_changed = true })) c

unfoldable pub retry_each : (ℕ → Http) → List ℕ → Cluster → Cluster
unfolding reactivate
retry_each https [] c = c
retry_each https (i ∷ is) c = retry_each https is (reactivate (https i) i (get_elem? c.objects i) c)

-- the part of retry_pending_actions for keepalives; `https` says what becomes of the request of each
unfoldable pub retry_pending_actions : (ℕ → Http) → Cluster → Cluster
unfolding retry_each
retry_pending_actions https c =
    if c.lease == 0
    then c
    else record (retry_each https c.keepalive_retry_actors c) { keepalive_retry_actors = [] }

-- bool add_keepalive(keepalive), without the deletion of its path that may still be pending
unfoldable pub add_keepalive : Http → ℕ → Cluster → Cluster × Bool
unfolding activate
add_keepalive http i c =
    let c' = record c { enable_lease = true; keepalive_actors = c.keepalive_actors ++ i ∷ [] } in
    if c.closing
    then (c, false)
    else if contains i c.keepalive_actors
    then (c, false)
    else if c.running && not (c.lease == 0)
    then (activate http i (get_elem? c.objects i) c', true)
    else (c', true)

-- the last of a list takes the place of the one that is found, and the list gets shorter by one
abbrev pub last_of : ℕ → List ℕ → ℕ
last_of x [] = x
last_of x (y ∷ ys) = last_of y ys

abbrev pub but_last : ℕ → List ℕ → List ℕ
but_last x [] = []
but_last x (y ∷ ys) = x ∷ but_last y ys

abbrev pub swap_out : ℕ → List ℕ → List ℕ
swap_out i [] = []
swap_out i (x ∷ []) = if x == i then [] else x ∷ []
swap_out i (x ∷ y ∷ ys) =
    let later = x ∷ swap_out i (y ∷ ys) in if x == i then last_of y ys ∷ but_last y ys else later

abbrev pub closed_at : ℕ → Option Keepalive → Cluster → Cluster
unfolding close
closed_at i none c = c
closed_at i (some k) c = record c { objects = set_at i (close k.has_data k) c.objects }

-- bool remove_keepalive(keepalive), without the request that deletes its path
unfoldable pub remove_keepalive : ℕ → Cluster → Cluster × Bool
unfolding closed_at
remove_keepalive i c =
    let found = contains i c.keepalive_actors || contains i c.keepalive_retry_actors in
    let c' = record c {
      keepalive_actors = swap_out i c.keepalive_actors;
      keepalive_retry_actors = swap_out i c.keepalive_retry_actors;
    } in
    if found then (closed_at i (get_elem? c.objects i) c', true) else (c, false)

-- void set_lease(v, force_active_keepalives), for keepalives
unfoldable pub set_lease : (ℕ → Http) → (ℕ → Http) → ℕ → Bool → Cluster → Cluster
unfolding retry_each retry_pending_actions
set_lease https retries v force c =
    let c' = record c { lease = v } in
    let fresh = record c' { keepalive_retry_actors = [] } in
    if c.lease == v && not force && not (v == 0)
    then retry_pending_actions retries c'
    else if v == 0
    then c'
    else retry_pending_actions retries (retry_each https c.keepalive_actors fresh)
