-- ===== src/Etcd/Watch/Renewal.antt =====
-- What a watcher does between two watches: after the end of one, the token is tried with a get.
use mathlib.Core.Path.{subst}
use libatapp.Prelude.{
  ℕ, ◌≡◌, refl, sym, Bool, true, false, not, ◌&&◌, ◌||◌, Option, none, some, List, [], ◌∷◌, ltb,
  ◌==◌, if◌then◌else◌, if-cases, arith,
}
use libatapp.Etcd.Keepalive.{Http}
use libatapp.Etcd.Watch.Kept.{Same, Same-trans, active-Same}
use libatapp.Etcd.Watch.{
  Request, get_path, get_range, Watcher, start_request, process_when, process, active, World,
  failed, ErrorCode, no_error, operation_timedout, other_error, active_in, on_range_completed,
  watch_ended, on_watch_completed,
}

-- what can happen to a watcher before a get has succeeded
pub data Failure : Type 0 where
  activates get_failed : Http → ℕ → Failure

-- nothing is under way but a get for the path alone
abbrev pub IsRenewing : Option Request → Type 0
IsRenewing none = Unit
IsRenewing (some get_path) = Unit
IsRenewing (some _) = ⊥

abbrev Renews : Watcher → Type 0
Renews w = (w.is_retry_mode ≡ true) × IsRenewing w.rpc_opr

start-Renews :
    (http : Http) (now : ℕ) (r : Request) (w : Watcher)
    → IsRenewing (some r)
    → Renews w
    → Renews (start_request http now r w)
start-Renews http now r w q h =
    if-cases Renews (not http.creates) _ _ (λ e. h)
      (λ e. (h.0, if-cases IsRenewing http.starts _ _ (λ s. q) (λ s. tt)))

module _ (random_between : ℕ → ℕ) where
  when-Renews :
      (o : Option Request) (http : Http) (now : ℕ) (w : Watcher)
      → w.is_retry_mode ≡ true
      → w.rpc_opr ≡ o
      → IsRenewing o
      → Renews (process_when random_between o http now w)
  when-Renews (some r) http now w t e h = (t, subst IsRenewing (sym e) h)
  when-Renews none http now w t e h =
      let idle : Renews w = (t, subst IsRenewing (sym e) h) in
      if-cases Renews (ltb now w.next_request_time) _ _ (λ e. idle)
        (λ e.
          if-cases Renews (w.next_request_time == 0 && ltb 0 w.startup_random_delay_min) _ _
            (λ e. idle)
            (λ e.
              if-cases Renews (w.last_revision == 0 || w.is_retry_mode) _ _
                (λ e.
                  start-Renews http now (if w.is_retry_mode then get_path else get_range)
                    (record w { is_actived = false })
                    (subst (λ b. IsRenewing (some (if b then get_path else get_range))) (sym t) tt)
                    idle)
                (λ e. absurd (ground (arith, e, t)))))

  active-Renews :
      (http : Http) (now : ℕ) (w : Watcher) → Renews w → Renews (active random_between http now w)
  unfolding active process
  active-Renews http now w h =
      when-Renews w.rpc_opr http now (record w { is_actived = true }) h.0 refl h.1

  ended_mode :
      (e : ErrorCode) (success : Bool) (now : ℕ) (w : Watcher)
      → Renews w
      → Renews (watch_ended e success now w)
  ended_mode no_error true now w h = h
  ended_mode no_error false now w h = h
  ended_mode operation_timedout success now w h = h
  ended_mode other_error true now w h = h
  ended_mode other_error false now w h = h

  module _ {ℓ} {E : Type ℓ} where
    abbrev pub fail : Failure → World E → World E
    unfolding active on_range_completed
    fail (activates http now) w = active_in random_between http now w
    fail (get_failed http now) w = on_range_completed random_between http now failed w

    abbrev pub fail_all : List Failure → World E → World E
    unfolding fail
    fail_all [] w = w
    fail_all (f ∷ fs) w = fail_all fs (fail f w)

    pub fail_all-Same : (fs : List Failure) (w : World E) → Same (fail_all fs w).self w.self
    unfolding fail_all active_in on_range_completed
    fail_all-Same [] w = (refl, refl, refl)
    fail_all-Same (activates http now ∷ fs) w =
        let v = active_in random_between http now w in
        Same-trans (fail_all fs v).self v.self w.self (fail_all-Same fs v)
          (active-Same random_between http now w.self)
    fail_all-Same (get_failed http now ∷ fs) w =
        fail_all-Same fs (on_range_completed random_between http now failed w)

    fail_all-Renews :
        (fs : List Failure) (w : World E) → Renews w.self → Renews (fail_all fs w).self
    unfolding fail_all active_in on_range_completed
    fail_all-Renews [] w h = h
    fail_all-Renews (activates http now ∷ fs) w h =
        fail_all-Renews fs (active_in random_between http now w) (active-Renews http now w.self h)
    fail_all-Renews (get_failed http now ∷ fs) w h =
        fail_all-Renews fs (on_range_completed random_between http now failed w) (h.0, tt)

    -- Once a watch has ended, however it did, there is no request but a get for the path alone until
    -- such a get succeeds: neither calls of active nor gets that fail let a watch start.
    pub fail_all-on_watch_completed-IsRenewing :
        (fs : List Failure) (http : Http) (now : ℕ) (e : ErrorCode) (success : Bool) (w : World E)
        → IsRenewing
            (fail_all fs (on_watch_completed random_between http now e success w)).self.rpc_opr
    unfolding on_watch_completed active_in active
    fail_all-on_watch_completed-IsRenewing fs http now e success w =
        let ended = record (w.self) { rpc_opr = none; is_retry_mode = true } in
        (fail_all-Renews fs (on_watch_completed random_between http now e success w) (
          active-Renews http now (watch_ended e success now ended)
            (ended_mode e success now ended (refl, tt)))).1
