-- ===== src/Etcd/Cluster/Retries.antt =====
-- What becomes of a keepalive whose retry fails.
use libatapp.Prelude.{
  ℕ, ◌≡◌, refl, sym, ◌∙◌, ap, Bool, true, false, none, some, List, [], ◌∷◌, ◌==◌, inl, inr,
  Bool-cases,
}
use libatapp.Etcd.Keepalive.{Keepalive, Http, active, process}
use libatapp.Etcd.Cluster.{
  Cluster, contains, add_retry_keepalive, after_call, reactivate, retry_each, retry_pending_actions,
}

-- a key whose check has passed, with no request under way
abbrev pub checked_key : (List ℕ → Bool) → List ℕ → ℕ → Bool → Bool → Keepalive
checked_key f value n changed has_data = record {
  value = value;
  fn = some f;
  is_check_run = true;
  is_check_passed = true;
  retry_times = n;
  rpc_opr = none;
  is_actived = false;
  is_value_changed = changed;
  has_data = has_data;
}

abbrev pub failing : Http
failing = record { creates = true; starts = false }

already_listed :
    (i : ℕ) (c : Cluster)
    → contains i c.keepalive_retry_actors ≡ true
    → add_retry_keepalive i c ≡ (c, false)
unfolding add_retry_keepalive
already_listed i c h = elim (Bool-cases c.closing) [
  | inl ends ↦ simp ends refl
  | inr open_yet ↦ simp (open_yet, h) refl
]

-- the cluster after a retry that fails
abbrev given_up : Keepalive → Cluster → Cluster
given_up k c = record c { objects = k ∷ []; keepalive_retry_actors = [] }

retried :
    (f : List ℕ → Bool) (value : List ℕ) (n : ℕ) (changed has_data : Bool) (c : Cluster)
    → (c.lease == 0) ≡ false
    → let c' = record c {
      objects = checked_key f value n changed has_data ∷ [];
      keepalive_retry_actors = 0 ∷ [];
    } in
      retry_pending_actions (λ i. failing) c' ≡ given_up (checked_key f value n false has_data) c
unfolding retry_pending_actions retry_each reactivate after_call active process
retried f value n changed has_data c l =
    let c' = record c {
      objects = checked_key f value n false has_data ∷ [];
      keepalive_retry_actors = 0 ∷ [];
    } in
    rw (l, already_listed 0 c' refl) refl

again :
    (https : ℕ → Http) (k : Keepalive) (c : Cluster)
    → (c.lease == 0) ≡ false
    → retry_pending_actions https (given_up k c) ≡ given_up k c
unfolding retry_pending_actions retry_each
again https k c l = rw l refl

-- In a cluster with a lease and one keepalive, which is in the retry list: a retry whose request does
-- not start is the last. The keepalive is off the list, with its value unsent and no longer marked
-- as changed, and further calls of retry_pending_actions change nothing.
failed_retry_is_last :
    (f : List ℕ → Bool) (value : List ℕ) (n : ℕ) (changed has_data : Bool) (https : ℕ → Http)
    (c : Cluster)
    → (c.lease == 0) ≡ false
    → let c' =
        retry_pending_actions
          (λ i. failing)
          (record c {
            objects = checked_key f value n changed has_data ∷ [];
            keepalive_retry_actors = 0 ∷ [];
          }) in
      (c'.objects ≡ checked_key f value n false has_data ∷ [])
      × (c'.keepalive_retry_actors ≡ [])
      × (retry_pending_actions https c' ≡ c')
failed_retry_is_last f value n changed has_data https c l =
    let e = retried f value n changed has_data c l in
    (
      ap (λ (d : Cluster). d.objects) e,
      ap (λ (d : Cluster). d.keepalive_retry_actors) e,
      ap (retry_pending_actions https) e
          ∙ again https (checked_key f value n false has_data) c l
          ∙ sym e,
    )
