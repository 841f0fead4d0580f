-- ===== src/Etcd/Keepalive/Sending.antt =====
-- The order of two values of one key.
use libatapp.Etcd.Keepalive.Fresh.{starting}
use mathlib.Core.Path.{subst}
use libatapp.Prelude.{
  bytes_eq, ℕ, ◌≡◌, refl, sym, Bool, true, false, Option, none, some, List, inl, inr, Bool-cases,
  none-ne-some,
}
use libatapp.Etcd.Keepalive.{
  Request, set, Keepalive, Http, no_checker, create_request, start_request, stored_by, process_when,
  process, active, set_value, on_set_data,
}
use libatapp.Etcd.Keepalive.Requests.{IsChecked}

-- marked as changed and checked, with the value `w`
record IsReady (w : List ℕ) (k : Keepalive) : Type 0 where
  ran : k.is_check_run ≡ true
  passed : k.is_check_passed ≡ true
  changed : k.is_value_changed ≡ true
  same : k.value ≡ w

sends :
    (w : List ℕ) (f : Option (List ℕ → Bool)) (k : Keepalive)
    → IsReady w k
    → (start_request true (create_request true (no_checker f k))).self.rpc_opr ≡ some (set w)
sends w none k r = rw (r.changed, r.same) refl
sends w (some f) k r = rw (r.ran, r.passed, r.changed, r.same) refl

busy_active :
    (http : Http) (o : Option Request) (r : Request) (k : Keepalive)
    → o ≡ some r
    → (process_when http o k).self ≡ k
busy_active http none r k e = absurd (none-ne-some e)
busy_active http (some q) r k e = refl

busy_set_value :
    (http : Http) (running : Bool) (v w : List ℕ) (k : Keepalive)
    → k.rpc_opr ≡ some (set v)
    → IsChecked k
    → bytes_eq k.value w ≡ false
    → IsReady w (set_value http running w k).self
unfolding set_value active process
busy_set_value http running v w k e h new =
    let (ran, passed) : (k.is_check_run ≡ true) × (k.is_check_passed ≡ true) = rw e at h in
    elim (Bool-cases running) [
      | inl runs ↦
          rw (new, runs)
            (subst (IsReady w)
              (sym (
                busy_active http k.rpc_opr (set v)
                  (record k { value = w; is_value_changed = true; is_actived = true }) e))
              (record { ran = ran; passed = passed; changed = refl; same = refl }))
      | inr rests ↦
          rw (new, rests) (record { ran = ran; passed = passed; changed = refl; same = refl })
    ]

-- A value that is set while an earlier one is on its way is sent once the server has the earlier one.
pub set_value_sent :
    (http : Http) (running : Bool) (v w : List ℕ) (k : Keepalive)
    → k.rpc_opr ≡ some (set v)
    → IsChecked k
    → bytes_eq k.value w ≡ false
    → (on_set_data (starting true) true (set_value http running w k).self).self.rpc_opr
      ≡ some (set w)
unfolding on_set_data active process
set_value_sent http running v w k e h new =
    let k' = (set_value http running w k).self in
    let r = busy_set_value http running v w k e h new in
    sends w k'.fn (record (stored_by k') { is_actived = false })
      (record { ran = r.ran; passed = r.passed; changed = r.changed; same = r.same })
