-- ===== src/Etcd/Watch/Kept.antt =====
-- What is kept of a watcher by all that is no response.
use libatapp.Prelude.{
  ℕ, ◌+◌, ◌≡◌, refl, ◌∙◌, Bool, true, false, not, ◌&&◌, ◌||◌, Option, none, some, ltb, ◌==◌,
  if◌then◌else◌, if-cases,
}
use libatapp.Etcd.Keepalive.{Http}
use libatapp.Etcd.Watch.{
  Request, get_path, get_range, watch, Watcher, start_request, process_idle, process_when, process,
  active, ErrorCode, no_error, operation_timedout, other_error, watch_ended, empty_stream,
}

abbrev pub Same : Watcher → Watcher → Type 0
Same v w =
    (v.last_revision ≡ w.last_revision)
    × (v.evt_handle ≡ w.evt_handle)
    × (v.is_retry_mode ≡ w.is_retry_mode)

pub Same-trans : (u v w : Watcher) → Same u v → Same v w → Same u w
Same-trans u v w g h = (g.0 ∙ h.0, g.1 ∙ h.1, g.2 ∙ h.2)

start-Same :
    (http : Http) (now : ℕ) (r : Request) (w : Watcher) → Same (start_request http now r w) w
start-Same http now r w =
    if-cases (λ (v : Watcher). Same v w) (not http.creates) _ _ (λ e. (refl, refl, refl))
      (λ e. (refl, refl, refl))

module _ (random_between : ℕ → ℕ) where
  idle-Same :
      (http : Http) (now : ℕ) (w : Watcher) → Same (process_idle random_between http now w) w
  idle-Same http now w =
      let P = λ (v : Watcher). Same v w in
      if-cases P (ltb now w.next_request_time) _ _ (λ e. (refl, refl, refl))
        (λ e.
          if-cases P (w.next_request_time == 0 && ltb 0 w.startup_random_delay_min) _ _
            (λ e. (refl, refl, refl))
            (λ e.
              if-cases P (w.last_revision == 0 || w.is_retry_mode) _ _
                (λ e. start-Same http now (if w.is_retry_mode then get_path else get_range) w)
                (λ e. start-Same http now (watch (w.last_revision + 1)) (record w {
                  data_stream = if http.creates then empty_stream else w.data_stream;
                }))))

  when-Same :
      (o : Option Request) (http : Http) (now : ℕ) (w : Watcher)
      → Same (process_when random_between o http now w) w
  when-Same (some r) http now w = (refl, refl, refl)
  when-Same none http now w = idle-Same http now (record w { is_actived = false })

  pub active-Same :
      (http : Http) (now : ℕ) (w : Watcher) → Same (active random_between http now w) w
  unfolding active process
  active-Same http now w = when-Same w.rpc_opr http now (record w { is_actived = true })

pub ended-Same :
    (e : ErrorCode) (success : Bool) (now : ℕ) (w : Watcher) → Same (watch_ended e success now w) w
ended-Same no_error true now w = (refl, refl, refl)
ended-Same no_error false now w = (refl, refl, refl)
ended-Same operation_timedout success now w = (refl, refl, refl)
ended-Same other_error true now w = (refl, refl, refl)
ended-Same other_error false now w = (refl, refl, refl)

pub ended_rpc :
    (e : ErrorCode) (success : Bool) (now : ℕ) (w : Watcher)
    → (watch_ended e success now w).rpc_opr ≡ w.rpc_opr
ended_rpc no_error true now w = refl
ended_rpc no_error false now w = refl
ended_rpc operation_timedout success now w = refl
ended_rpc other_error true now w = refl
ended_rpc other_error false now w = refl
