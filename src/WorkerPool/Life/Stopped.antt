-- ===== src/WorkerPool/Life/Stopped.antt =====
-- A pool after stop.
use libatapp.WorkerPool.Life.Flags.{
  IsClosed, spawn-IsClosed, spawn_on-IsClosed, reset-IsClosed, stop-IsClosed, close_set-IsClosed,
  thread_exit-IsClosed, do_scaling_up-IsClosed, tick-IsClosed,
}
use libatapp.Prelude.{
  ℕ, ◌≡◌, refl, false, none, some, inl, inr, Bool-cases, arith, ◌==◌, if◌then◌else◌,
}
use libatapp.WorkerPool.Config.{ScalingConfigure}
use libatapp.WorkerPool.Worker.{WorkerSet}
use libatapp.WorkerPool.Resize.{do_scaling_up}
use libatapp.WorkerPool.Select.{params, closed, select_by_id}
use libatapp.WorkerPool.Jobs.{spawn_on, stop, close_set}
use libatapp.WorkerPool.Background.{Action}
use libatapp.WorkerPool.Life.{
  Step, Reach, spawns, spawns_on, ticks, resets, reloads, stops, cleans, moves, exits, here, next,
}

Step-IsClosed :
    {action : ℕ → Action} {elapsed : ℕ → ℕ} {conf : ScalingConfigure} {alloc : ℕ → ℕ}
    {s t : WorkerSet}
    → Step action elapsed conf alloc s t
    → IsClosed s
    → IsClosed t
Step-IsClosed {conf} {alloc} (spawns now s job) h = spawn-IsClosed conf alloc now s job h
Step-IsClosed {conf} {alloc} (spawns_on now id s job) h =
    spawn_on-IsClosed conf alloc now id s job h
Step-IsClosed {action} {elapsed} {conf} {alloc} (ticks now st s) h =
    tick-IsClosed action elapsed conf alloc now st s h
Step-IsClosed {alloc} (resets now id us s) h = reset-IsClosed alloc now id us s h
Step-IsClosed (reloads s) h = h
Step-IsClosed (stops now s) h = stop-IsClosed now s (close_set-IsClosed s h)
Step-IsClosed (cleans s) h = (refl, h.1)
Step-IsClosed (moves i status s) h = h
Step-IsClosed (exits i w s e l) h = thread_exit-IsClosed i s h

pub Reach-IsClosed :
    {action : ℕ → Action} {elapsed : ℕ → ℕ} {conf : ScalingConfigure} {alloc : ℕ → ℕ}
    {s t : WorkerSet}
    → Reach action elapsed conf alloc s t
    → IsClosed s
    → IsClosed t
Reach-IsClosed here h = h
Reach-IsClosed (next r st) h = Step-IsClosed st (Reach-IsClosed r h)

close_set_open : (s : WorkerSet) → s.closing ≡ false → IsClosed (close_set s)
close_set_open s open_yet = ground (arith, open_yet)

-- After stop no worker is ever chosen by its id again, whatever the pool and its threads do: a job
-- for a worker is refused, with the code of a closed pool where the id can be one of a worker.
spawn_on_after_stop :
    (action : ℕ → Action) (elapsed : ℕ → ℕ) (conf : ScalingConfigure) (alloc : ℕ → ℕ)
    (now later job id : ℕ) (s t : WorkerSet)
    → s.closing ≡ false
    → Reach action elapsed conf alloc (stop now s).0 t
    → let r = spawn_on conf alloc later t (some job) id in
      (r.1 ≡ (if id == 0 then params else closed)) × (r.2 ≡ none)
unfolding spawn_on select_by_id
spawn_on_after_stop action elapsed conf alloc now later job id s t open_yet r =
    let done : IsClosed t = Reach-IsClosed r (stop-IsClosed now s (close_set_open s open_yet)) in
    let u = do_scaling_up alloc later t in
    let (c, e) : IsClosed u = do_scaling_up-IsClosed alloc later t done in
    elim (Bool-cases (id == 0)) [
      | inl nought ↦ rw nought (refl, refl)
      | inr some_id ↦ rw (some_id, e) (ground (arith, c, some_id))
    ]
