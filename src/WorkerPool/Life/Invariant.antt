-- ===== src/WorkerPool/Life/Invariant.antt =====
-- What holds of a pool however it is used: the worker at place i has the id i + 1.
use libatapp.Prelude.{
  ℕ, zero, suc, ◌+◌, Bool, true, false, Option, none, some, List, [], ◌∷◌, inl, inr, Bool-cases,
  get_elem?,
}
use libatapp.WorkerPool.Config.{ScalingConfigure}
use libatapp.WorkerPool.Worker.{Worker, WorkerSet, Status, empty_set, IsNumbered, IsNumberedFrom}
use libatapp.WorkerPool.Resize.{do_scaling_up, internal_reduce_workers}
use libatapp.WorkerPool.Resize.Numbering.{do_scaling_up-IsNumbered}
use libatapp.WorkerPool.Resize.Shrink.{internal_reduce_workers-IsNumbered}
use libatapp.WorkerPool.Select.{Code, select_any, select_by_id}
use libatapp.WorkerPool.Jobs.{
  emplace_in, spawn_at, spawn_to, spawn_found, is_full, spawn, spawn_on, stop, close_set,
}
use libatapp.WorkerPool.Jobs.Numbering.{
  emplace-IsNumbered, rebalance_jobs-IsNumbered, thread_exit-IsNumbered,
}
use libatapp.WorkerPool.Background.{
  Action, do_shared_job_on_main_thread, reset_at, reset_tick_interval, clamp, set_interval,
}
use libatapp.WorkerPool.Scaling.{ScalingStatistics, tick, tick_when, tick_closing}
use libatapp.WorkerPool.Scaling.Accounts.{tick_open-IsNumbered}
use libatapp.WorkerPool.Life.{
  Step, Reach, spawns, spawns_on, ticks, resets, reloads, stops, cleans, moves, exits, here, next,
  set_status,
}

spawn_at-IsNumbered :
    (conf : ScalingConfigure) (job : ℕ) (s : WorkerSet) (i : ℕ)
    → IsNumbered s
    → IsNumbered (spawn_at conf job s i).0
unfolding emplace_in
spawn_at-IsNumbered conf job s i h = elim (Bool-cases (is_full conf (get_elem? s.workers i))) [
  | inl full ↦ rw full h
  | inr room ↦ rw room (emplace-IsNumbered job i 1 s.workers h)
]

spawn_to-IsNumbered :
    (conf : ScalingConfigure) (job : ℕ) (s : WorkerSet) (place : Option ℕ)
    → IsNumbered s
    → IsNumbered (spawn_to conf job s place).0
spawn_to-IsNumbered conf job s none h = elim (Bool-cases s.cleaning) [
  | inl ends ↦ rw ends h
  | inr open_yet ↦ rw open_yet h
]
spawn_to-IsNumbered conf job s (some i) h = spawn_at-IsNumbered conf job s i h

spawn-IsNumbered :
    (conf : ScalingConfigure) (alloc : ℕ → ℕ) (now : ℕ) (s : WorkerSet) (action : Option ℕ)
    → IsNumbered s
    → IsNumbered (spawn conf alloc now s action).0
unfolding spawn
spawn-IsNumbered conf alloc now s none h = h
spawn-IsNumbered conf alloc now s (some job) h =
    spawn_to-IsNumbered conf job (do_scaling_up alloc now s) (select_any alloc now s).1
      (do_scaling_up-IsNumbered alloc now s h).0

spawn_found-IsNumbered :
    (conf : ScalingConfigure) (job : ℕ) (s : WorkerSet) (chosen : Code × Option ℕ)
    → IsNumbered s
    → IsNumbered (spawn_found conf job s chosen).0
spawn_found-IsNumbered conf job s (c, none) h = h
spawn_found-IsNumbered conf job s (c, some i) h = spawn_at-IsNumbered conf job s i h

spawn_on-IsNumbered :
    (conf : ScalingConfigure) (alloc : ℕ → ℕ) (now id : ℕ) (s : WorkerSet) (action : Option ℕ)
    → IsNumbered s
    → IsNumbered (spawn_on conf alloc now s action id).0
unfolding spawn_on
spawn_on-IsNumbered conf alloc now id s none h = h
spawn_on-IsNumbered conf alloc now id s (some job) h =
    spawn_found-IsNumbered conf job (do_scaling_up alloc now s) (select_by_id alloc now s id).1
      (do_scaling_up-IsNumbered alloc now s h).0

set_interval-IsNumbered :
    (us i n : ℕ) (ws : List Worker) → IsNumberedFrom n ws → IsNumberedFrom n (set_interval us i ws)
set_interval-IsNumbered us i n [] h = h
set_interval-IsNumbered us zero n (w ∷ ws) h = h
set_interval-IsNumbered us (suc i) n (w ∷ ws) h = (h.0, set_interval-IsNumbered us i (n + 1) ws h.1)

reset_at-IsNumbered :
    (us : ℕ) (s : WorkerSet) (o : Option ℕ) → IsNumbered s → IsNumbered (reset_at us s o).0
reset_at-IsNumbered us s none h = h
reset_at-IsNumbered us s (some i) h =
    set_interval-IsNumbered (clamp s.tick_min_us s.tick_max_us us) i 1 s.workers h

reset-IsNumbered :
    (alloc : ℕ → ℕ) (now id us : ℕ) (s : WorkerSet)
    → IsNumbered s
    → IsNumbered (reset_tick_interval alloc now s id us).0
unfolding reset_tick_interval select_by_id
reset-IsNumbered alloc now id us s h =
    reset_at-IsNumbered us (do_scaling_up alloc now s) (select_by_id alloc now s id).1.1
      (do_scaling_up-IsNumbered alloc now s h).0

set_status-IsNumbered :
    (i n : ℕ) (status : Status) (ws : List Worker)
    → IsNumberedFrom n ws
    → IsNumberedFrom n (set_status i status ws)
set_status-IsNumbered i n status [] h = h
set_status-IsNumbered zero n status (w ∷ ws) h = h
set_status-IsNumbered (suc i) n status (w ∷ ws) h =
    (h.0, set_status-IsNumbered i (n + 1) status ws h.1)

close_set-IsNumbered : (s : WorkerSet) → IsNumbered s → IsNumbered (close_set s)
close_set-IsNumbered s h = elim (Bool-cases s.closing) [
  | inl again ↦ rw again h
  | inr first ↦ rw first h
]

stop-IsNumbered : (now : ℕ) (s : WorkerSet) → IsNumbered s → IsNumbered (stop now s).0
unfolding stop
stop-IsNumbered now s h =
    internal_reduce_workers-IsNumbered now (close_set s) (close_set-IsNumbered s h)

tick_when-IsNumbered :
    (b : Bool) (action : ℕ → Action) (elapsed : ℕ → ℕ) (conf : ScalingConfigure) (alloc : ℕ → ℕ)
    (now : ℕ) (st : ScalingStatistics) (s : WorkerSet)
    → IsNumbered s
    → IsNumbered (tick_when b action elapsed conf alloc now st s).pool
unfolding tick_when tick_closing do_shared_job_on_main_thread
tick_when-IsNumbered true action elapsed conf alloc now st s h =
    rebalance_jobs-IsNumbered alloc now (internal_reduce_workers now s).0
      (internal_reduce_workers-IsNumbered now s h)
tick_when-IsNumbered false action elapsed conf alloc now st s h =
    tick_open-IsNumbered conf alloc now st s h

tick-IsNumbered :
    (action : ℕ → Action) (elapsed : ℕ → ℕ) (conf : ScalingConfigure) (alloc : ℕ → ℕ) (now : ℕ)
    (st : ScalingStatistics) (s : WorkerSet)
    → IsNumbered s
    → IsNumbered (tick action elapsed conf alloc now st s).pool
unfolding tick
tick-IsNumbered action elapsed conf alloc now st s h =
    tick_when-IsNumbered s.closing action elapsed conf alloc now st s h

Step-IsNumbered :
    {action : ℕ → Action} {elapsed : ℕ → ℕ} {conf : ScalingConfigure} {alloc : ℕ → ℕ}
    {s t : WorkerSet}
    → Step action elapsed conf alloc s t
    → IsNumbered s
    → IsNumbered t
Step-IsNumbered {conf} {alloc} (spawns now s job) h = spawn-IsNumbered conf alloc now s job h
Step-IsNumbered {conf} {alloc} (spawns_on now id s job) h =
    spawn_on-IsNumbered conf alloc now id s job h
Step-IsNumbered {action} {elapsed} {conf} {alloc} (ticks now st s) h =
    tick-IsNumbered action elapsed conf alloc now st s h
Step-IsNumbered {alloc} (resets now id us s) h = reset-IsNumbered alloc now id us s h
Step-IsNumbered (reloads s) h = h
Step-IsNumbered (stops now s) h = stop-IsNumbered now s h
Step-IsNumbered (cleans s) h = h
Step-IsNumbered (moves i status s) h = set_status-IsNumbered i 1 status s.workers h
Step-IsNumbered (exits i w s e l) h = thread_exit-IsNumbered i s h

-- However a pool is used from the start, with whatever its threads do in between, the worker at place
-- i of its list has the id i + 1.
pub Reach-IsNumbered :
    {action : ℕ → Action} {elapsed : ℕ → ℕ} {conf : ScalingConfigure} {alloc : ℕ → ℕ}
    {t : WorkerSet}
    → Reach action elapsed conf alloc empty_set t
    → IsNumbered t
Reach-IsNumbered here = tt
Reach-IsNumbered (next r st) = Step-IsNumbered st (Reach-IsNumbered r)
