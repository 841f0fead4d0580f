-- ===== src/WorkerPool/Scaling/Target.antt =====
-- The number of workers that a tick decides on.
use native.Mathlib.Nat.{zero-div}
use libatapp.Prelude.{
  ap, ◌∙◌, map, ℕ, ◌+◌, ◌-◌, ◌≤◌, ◌<◌, ◌≡◌, refl, List, [], ◌∷◌, arith, inl, inr, Bool-cases,
  length,
}
use libatapp.WorkerPool.Config.{ScalingConfigure, IsNormal}
use libatapp.WorkerPool.Worker.{Worker, WorkerSet, collect_down, collected_up}
use libatapp.WorkerPool.Scaling.{
  ScalingStatistics, Planned, up_target, down_target, begin, scale_up, scale_down, plan, time_up,
  time_down, queued, is_due,
}

up_target-le :
    (conf : ScalingConfigure) (offset cpu queue : ℕ)
    → up_target conf offset cpu queue ≤ conf.max_workers
unfolding up_target
up_target-le conf offset cpu queue = ground arith

down_target-ge :
    (conf : ScalingConfigure) (offset cpu queue : ℕ)
    → conf.min_workers ≤ down_target conf offset cpu queue
unfolding down_target
down_target-ge conf offset cpu queue = ground arith

abbrev Within : ScalingConfigure → ℕ → Type 0
Within conf e = (conf.min_workers ≤ e) × (e ≤ conf.max_workers)

scale_up-Within :
    (conf : ScalingConfigure) (now : ℕ) (p : Planned)
    → Within conf p.expect
    → Within conf (scale_up conf now p).expect
unfolding scale_up
scale_up-Within conf now p h =
    elim (Bool-cases (is_due now last conf.scaling_up_stable_window_seconds)) [
      | inl due ↦ rw due (
          let bound =
            up_target-le conf (now - last) (p.pool.removed_scaling_up + time_up p.pool.workers)
              (queued p.pool.workers) in
          ground (arith, bound))
      | inr early ↦ rw early h
    ]
  where
    last : ℕ
    last = p.statistics.last_scaling_up_checkpoint

scale_down-Within :
    (conf : ScalingConfigure) (now : ℕ) (p : Planned)
    → Within conf p.expect
    → Within conf (scale_down conf now p).expect
unfolding scale_down
scale_down-Within conf now p h =
    elim (Bool-cases (is_due now last conf.scaling_down_stable_window_seconds)) [
      | inl due ↦ rw due (
          let bound =
            down_target-ge conf (now - last)
              (p.pool.removed_scaling_down + time_down p.pool.workers) (queued p.pool.workers) in
          ground (arith, bound))
      | inr early ↦ rw early h
    ]
  where
    last : ℕ
    last = p.statistics.last_scaling_down_checkpoint

-- From a number of workers between the configured least and greatest one, tick decides on one between
-- them; from 0 workers, as after stop, likewise.
pub plan_bounds :
    (conf : ScalingConfigure) (now : ℕ) (st : ScalingStatistics) (s : WorkerSet)
    → IsNormal conf
    → s.current_expect_workers ≤ conf.max_workers
    → (0 < s.current_expect_workers → conf.min_workers ≤ s.current_expect_workers)
    → let e = (plan conf now st s).expect in (conf.min_workers ≤ e) × (e ≤ conf.max_workers)
unfolding plan
plan_bounds conf now st s n h k =
    let start : Within conf (begin conf st s).expect = ground (arith, n.ordered) in
    scale_down-Within conf now (scale_up conf now (begin conf st s))
      (scale_up-Within conf now (begin conf st s) start)

up_target_idle :
    (conf : ScalingConfigure) (offset : ℕ) → 0 < conf.max_workers → up_target conf offset 0 0 ≡ 1
unfolding up_target
up_target_idle conf offset h =
    rw
      (
        zero-div offset,
        zero-div conf.scaling_up_cpu_permillage,
        zero-div conf.scaling_up_queue_size,
      )
      (ground (arith, h))

down_target_idle :
    (conf : ScalingConfigure) (offset : ℕ) → down_target conf offset 0 0 ≡ conf.min_workers
unfolding down_target
down_target_idle conf offset =
    rw
      (
        zero-div offset,
        zero-div conf.scaling_down_cpu_permillage,
        zero-div conf.scaling_down_queue_size,
      )
      (ground arith)

queued-collected_up : (ws : List Worker) → queued (map collected_up ws) ≡ queued ws
queued-collected_up [] = refl
queued-collected_up (w ∷ ws) = ap (λ n. length w.private_jobs + n) (queued-collected_up ws)

time_down-collected_up : (ws : List Worker) → time_down (map collected_up ws) ≡ time_down ws
time_down-collected_up [] = refl
time_down-collected_up (w ∷ ws) = ap (λ n. collect_down w + n) (time_down-collected_up ws)

-- no job in a private queue, and no CPU time that a later scaling down counts
abbrev IsIdle : WorkerSet → Type 0
IsIdle s = (queued s.workers ≡ 0) × (s.removed_scaling_down + time_down s.workers ≡ 0)

scale_up-IsIdle :
    (conf : ScalingConfigure) (now : ℕ) (p : Planned)
    → 0 < conf.max_workers
    → 0 < p.expect
    → p.pool.removed_scaling_up + time_up p.pool.workers ≡ 0
    → IsIdle p.pool
    → ((scale_up conf now p).expect ≡ p.expect) × IsIdle (scale_up conf now p).pool
unfolding scale_up
scale_up-IsIdle conf now p h e u (q, d) =
    elim (Bool-cases (is_due now last conf.scaling_up_stable_window_seconds)) [
      | inl due ↦
          rw (due, u, q, up_target_idle conf (now - last) h)
            (
              ground (arith, e),
              (
                queued-collected_up ws ∙ q,
                ap (λ n. p.pool.removed_scaling_down + n) (time_down-collected_up ws) ∙ d,
              ),
            )
      | inr early ↦ rw early (refl, (q, d))
    ]
  where
    last : ℕ
    last = p.statistics.last_scaling_up_checkpoint

    ws : List Worker
    ws = p.pool.workers

scale_down_idle :
    (conf : ScalingConfigure) (now : ℕ) (p : Planned)
    → p.expect ≤ conf.min_workers
    → IsIdle p.pool
    → (scale_down conf now p).expect ≡ p.expect
unfolding scale_down
scale_down_idle conf now p le (q, d) =
    elim (Bool-cases (is_due now last conf.scaling_down_stable_window_seconds)) [
      | inl due ↦ rw (due, d, q, down_target_idle conf (now - last)) (ground (arith, le))
      | inr early ↦ rw early refl
    ]
  where
    last : ℕ
    last = p.statistics.last_scaling_down_checkpoint

-- In a pool without jobs and without CPU time, a number of workers from 1 to the configured least
-- one stays what it is: a tick never raises it to min_workers.
plan_stays_below_min :
    (conf : ScalingConfigure) (now : ℕ) (st : ScalingStatistics) (s : WorkerSet)
    → IsNormal conf
    → queued s.workers ≡ 0
    → s.removed_scaling_up + time_up s.workers ≡ 0
    → s.removed_scaling_down + time_down s.workers ≡ 0
    → 0 < s.current_expect_workers
    → s.current_expect_workers ≤ conf.min_workers
    → (plan conf now st s).expect ≡ s.current_expect_workers
unfolding plan
plan_stays_below_min conf now st s n q u d p le =
    let same : (begin conf st s).expect ≡ s.current_expect_workers = ground (arith, p) in
    let (up, idle) =
      scale_up-IsIdle conf now (begin conf st s) (omega (arith, n.some_worker, n.ordered))
        (omega (arith, same)) u (q, d) in
    scale_down_idle conf now (scale_up conf now (begin conf st s)) (omega (arith, up, same)) idle
    ∙ up
    ∙ same
