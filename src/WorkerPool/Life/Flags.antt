-- ===== src/WorkerPool/Life/Flags.antt =====
-- The flags closing and cleaning, and the expected number, under each operation.
use libatapp.Prelude.{
  ℕ, ◌≡◌, refl, Bool, true, false, Option, none, some, List, [], ◌∷◌, inl, inr, Bool-cases,
  get_elem?, arith,
}
use libatapp.WorkerPool.Config.{ScalingConfigure}
use libatapp.WorkerPool.Worker.{Worker, WorkerSet}
use libatapp.WorkerPool.Resize.{do_scaling_up, internal_reduce_workers}
use libatapp.WorkerPool.Select.{Code, select_any, select_by_id}
use libatapp.WorkerPool.Jobs.{
  Order, emplace_in, handed, rebalance, rebalance_jobs, eligible, left_by, thread_exit, is_full,
  spawn_at, spawn_to, spawn_found, spawn, spawn_on, stop, close_set,
}
use libatapp.WorkerPool.Background.{
  Action, do_shared_job_on_main_thread, reset_at, reset_tick_interval,
}
use libatapp.WorkerPool.Scaling.{ScalingStatistics, tick, tick_when, tick_closing}

-- stop has been called: the pool is closing, and expects no worker
abbrev pub IsClosed : WorkerSet → Type 0
IsClosed s = (s.closing ≡ true) × (s.current_expect_workers ≡ 0)

pub do_scaling_up-IsClosed :
    (alloc : ℕ → ℕ) (now : ℕ) (s : WorkerSet) → IsClosed s → IsClosed (do_scaling_up alloc now s)
unfolding do_scaling_up
do_scaling_up-IsClosed alloc now s h = elim (Bool-cases s.need_scaling_up) [
  | inl up ↦ rw up h
  | inr same ↦ rw same h
]

handed-IsClosed : (s : WorkerSet) (m : Order) → IsClosed s → IsClosed (handed s m)
unfolding handed
handed-IsClosed s [] h = h
handed-IsClosed s (e ∷ m) h = h

rebalance-IsClosed :
    (waiting : List ℕ) (alloc : ℕ → ℕ) (now : ℕ) (s : WorkerSet)
    → IsClosed s
    → IsClosed (rebalance waiting alloc now s)
unfolding rebalance
rebalance-IsClosed [] alloc now s h = h
rebalance-IsClosed (job ∷ waiting) alloc now s h =
    let s' = do_scaling_up alloc now s in
    handed-IsClosed s' (eligible now s'.current_expect_workers 0 s'.workers [])
      (do_scaling_up-IsClosed alloc now s h)

rebalance_jobs-IsClosed :
    (alloc : ℕ → ℕ) (now : ℕ) (s : WorkerSet) → IsClosed s → IsClosed (rebalance_jobs alloc now s)
unfolding rebalance_jobs
rebalance_jobs-IsClosed alloc now s h = rebalance-IsClosed s.shared_jobs alloc now s h

reduce-IsClosed :
    (now : ℕ) (s : WorkerSet) → IsClosed s → IsClosed (internal_reduce_workers now s).0
unfolding internal_reduce_workers
reduce-IsClosed now s h = h

spawn_at-IsClosed :
    (conf : ScalingConfigure) (job : ℕ) (s : WorkerSet) (i : ℕ)
    → IsClosed s
    → IsClosed (spawn_at conf job s i).0
unfolding emplace_in
spawn_at-IsClosed conf job s i h = elim (Bool-cases (is_full conf (get_elem? s.workers i))) [
  | inl full ↦ rw full h
  | inr room ↦ rw room h
]

spawn_to-IsClosed :
    (conf : ScalingConfigure) (job : ℕ) (s : WorkerSet) (place : Option ℕ)
    → IsClosed s
    → IsClosed (spawn_to conf job s place).0
spawn_to-IsClosed conf job s none h = elim (Bool-cases s.cleaning) [
  | inl ends ↦ rw ends h
  | inr open_yet ↦ rw open_yet h
]
spawn_to-IsClosed conf job s (some i) h = spawn_at-IsClosed conf job s i h

pub spawn-IsClosed :
    (conf : ScalingConfigure) (alloc : ℕ → ℕ) (now : ℕ) (s : WorkerSet) (action : Option ℕ)
    → IsClosed s
    → IsClosed (spawn conf alloc now s action).0
unfolding spawn
spawn-IsClosed conf alloc now s none h = h
spawn-IsClosed conf alloc now s (some job) h =
    spawn_to-IsClosed conf job (do_scaling_up alloc now s) (select_any alloc now s).1
      (do_scaling_up-IsClosed alloc now s h)

spawn_found-IsClosed :
    (conf : ScalingConfigure) (job : ℕ) (s : WorkerSet) (chosen : Code × Option ℕ)
    → IsClosed s
    → IsClosed (spawn_found conf job s chosen).0
spawn_found-IsClosed conf job s (c, none) h = h
spawn_found-IsClosed conf job s (c, some i) h = spawn_at-IsClosed conf job s i h

pub spawn_on-IsClosed :
    (conf : ScalingConfigure) (alloc : ℕ → ℕ) (now id : ℕ) (s : WorkerSet) (action : Option ℕ)
    → IsClosed s
    → IsClosed (spawn_on conf alloc now s action id).0
unfolding spawn_on
spawn_on-IsClosed conf alloc now id s none h = h
spawn_on-IsClosed conf alloc now id s (some job) h =
    spawn_found-IsClosed conf job (do_scaling_up alloc now s) (select_by_id alloc now s id).1
      (do_scaling_up-IsClosed alloc now s h)

left_by-IsClosed :
    (i : ℕ) (s : WorkerSet) (o : Option Worker) → IsClosed s → IsClosed (left_by i s o)
left_by-IsClosed i s none h = h
left_by-IsClosed i s (some w) h = h

pub thread_exit-IsClosed : (i : ℕ) (s : WorkerSet) → IsClosed s → IsClosed (thread_exit i s)
unfolding thread_exit
thread_exit-IsClosed i s h = left_by-IsClosed i s (get_elem? s.workers i) h

reset_at-IsClosed :
    (us : ℕ) (s : WorkerSet) (o : Option ℕ) → IsClosed s → IsClosed (reset_at us s o).0
reset_at-IsClosed us s none h = h
reset_at-IsClosed us s (some i) h = h

pub reset-IsClosed :
    (alloc : ℕ → ℕ) (now id us : ℕ) (s : WorkerSet)
    → IsClosed s
    → IsClosed (reset_tick_interval alloc now s id us).0
unfolding reset_tick_interval select_by_id
reset-IsClosed alloc now id us s h =
    reset_at-IsClosed us (do_scaling_up alloc now s) (select_by_id alloc now s id).1.1
      (do_scaling_up-IsClosed alloc now s h)

pub stop-IsClosed : (now : ℕ) (s : WorkerSet) → IsClosed (close_set s) → IsClosed (stop now s).0
unfolding stop
stop-IsClosed now s h = reduce-IsClosed now (close_set s) h

pub close_set-IsClosed : (s : WorkerSet) → IsClosed s → IsClosed (close_set s)
close_set-IsClosed s (c, e) = rw c (refl, e)

tick_closing-IsClosed :
    (action : ℕ → Action) (elapsed alloc : ℕ → ℕ) (now : ℕ) (st : ScalingStatistics) (s : WorkerSet)
    → IsClosed s
    → IsClosed (tick_closing action elapsed alloc now st s).pool
unfolding tick_closing do_shared_job_on_main_thread
tick_closing-IsClosed action elapsed alloc now st s h =
    let r = (internal_reduce_workers now s).0 in
    rebalance_jobs-IsClosed alloc now r (reduce-IsClosed now s h)

tick_when-IsClosed :
    (b : Bool) (action : ℕ → Action) (elapsed : ℕ → ℕ) (conf : ScalingConfigure) (alloc : ℕ → ℕ)
    (now : ℕ) (st : ScalingStatistics) (s : WorkerSet)
    → s.closing ≡ b
    → IsClosed s
    → IsClosed (tick_when b action elapsed conf alloc now st s).pool
unfolding tick_when
tick_when-IsClosed true action elapsed conf alloc now st s e h =
    tick_closing-IsClosed action elapsed alloc now st s h
tick_when-IsClosed false action elapsed conf alloc now st s e h = absurd (ground (arith, e, h.0))

pub tick-IsClosed :
    (action : ℕ → Action) (elapsed : ℕ → ℕ) (conf : ScalingConfigure) (alloc : ℕ → ℕ) (now : ℕ)
    (st : ScalingStatistics) (s : WorkerSet)
    → IsClosed s
    → IsClosed (tick action elapsed conf alloc now st s).pool
unfolding tick
tick-IsClosed action elapsed conf alloc now st s h =
    tick_when-IsClosed s.closing action elapsed conf alloc now st s refl h
