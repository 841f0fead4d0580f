-- ===== src/Etcd/Cluster/Calls.antt =====
-- Sequences of calls of a cluster.
use libatapp.Etcd.Cluster.Lists.{
  IsUnique, add_retry-IsUnique, retry_pending-IsUnique, add_keepalive-IsUnique,
  remove_keepalive-IsUnique, set_lease-IsUnique,
}
use libatapp.Prelude.{ℕ, Bool, List, [], ◌∷◌}
use libatapp.Etcd.Keepalive.{Http}
use libatapp.Etcd.Cluster.{
  Cluster, add_retry_keepalive, add_keepalive, remove_keepalive, retry_pending_actions, set_lease,
}

-- the calls of a cluster that change its lists
pub data Call : Type 0 where
  adds : Http → ℕ → Call
  adds_retry removes : ℕ → Call
  retries : (ℕ → Http) → Call
  leases : (ℕ → Http) → (ℕ → Http) → ℕ → Bool → Call

unfoldable pub perform : Call → Cluster → Cluster
unfolding add_keepalive add_retry_keepalive remove_keepalive retry_pending_actions set_lease
perform (adds http i) c = (add_keepalive http i c).0
perform (adds_retry i) c = (add_retry_keepalive i c).0
perform (removes i) c = (remove_keepalive i c).0
perform (retries https) c = retry_pending_actions https c
perform (leases https again v force) c = set_lease https again v force c

unfoldable pub perform_all : List Call → Cluster → Cluster
unfolding perform
perform_all [] c = c
perform_all (call ∷ calls) c = perform_all calls (perform call c)

perform-IsUnique : (call : Call) (c : Cluster) → IsUnique c → IsUnique (perform call c)
unfolding perform
perform-IsUnique (adds http i) c u = add_keepalive-IsUnique http i c u
perform-IsUnique (adds_retry i) c u = add_retry-IsUnique i c u
perform-IsUnique (removes i) c u = remove_keepalive-IsUnique i c u
perform-IsUnique (retries https) c u = retry_pending-IsUnique https c u
perform-IsUnique (leases https again v force) c u = set_lease-IsUnique https again v force c u

-- No sequence of calls puts a keepalive twice into one of the lists, where none is there twice.
pub perform_all-IsUnique :
    (calls : List Call) (c : Cluster) → IsUnique c → IsUnique (perform_all calls c)
unfolding perform_all
perform_all-IsUnique [] c u = u
perform_all-IsUnique (call ∷ calls) c u =
    perform_all-IsUnique calls (perform call c) (perform-IsUnique call c u)
