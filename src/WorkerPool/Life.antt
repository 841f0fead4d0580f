-- ===== src/WorkerPool/Life.antt =====
-- The life of a pool: the operations of worker_pool_module that change its workers, its queue or its
-- flags and the moves of the threads of its workers (worker::start), in any order. The rounds of jobs
-- that a worker runs, the registration of tick handles and what reload changes of the configuration
-- and of the intervals are no steps.
pub mod Flags
pub mod Stopped
pub mod Invariant
use libatapp.Prelude.{
  ℕ, zero, suc, ◌≡◌, Bool, true, false, ◌&&◌, ◌||◌, Option, some, List, [], ◌∷◌, ltb, get_elem?,
}
use libatapp.WorkerPool.Config.{ScalingConfigure}
use libatapp.WorkerPool.Worker.{Worker, WorkerSet, Status}
use libatapp.WorkerPool.Jobs.{spawn, spawn_on, thread_exit, stop}
use libatapp.WorkerPool.Background.{Action, reset_tick_interval}
use libatapp.WorkerPool.Scaling.{ScalingStatistics, tick}

abbrev pub set_status : ℕ → Status → List Worker → List Worker
set_status i status [] = []
set_status zero status (w ∷ ws) = record w { status = status } ∷ ws
set_status (suc i) status (w ∷ ws) = w ∷ set_status i status ws

abbrev pub is_empty : List ℕ → Bool
is_empty [] = true
is_empty (x ∷ xs) = false

-- where the loop of a worker's thread ends
pub loop_ends : WorkerSet → Worker → Bool
loop_ends s w =
    s.cleaning
    || ((ltb s.current_expect_workers w.worker_id || s.closing) && is_empty w.tick_handles)

-- the first half of internal_cleanup; then it reduces the pool until no worker is left
abbrev pub begin_cleanup : WorkerSet → WorkerSet
begin_cleanup s = record s { closing = true; cleaning = true }

-- the end of reload, of a pool that is not active
abbrev pub reload_pool : WorkerSet → WorkerSet
reload_pool s = record s { need_scaling_up = true }

module _ (action : ℕ → Action) (elapsed : ℕ → ℕ) (conf : ScalingConfigure) (alloc : ℕ → ℕ) where
  pub data Step : WorkerSet → WorkerSet → Type 0 where
    spawns : (now : ℕ) (s : WorkerSet) (job : Option ℕ) → Step s (spawn conf alloc now s job).0
    spawns_on :
        (now id : ℕ) (s : WorkerSet) (job : Option ℕ) → Step s (spawn_on conf alloc now s job id).0
    ticks :
        (now : ℕ) (st : ScalingStatistics) (s : WorkerSet)
        → Step s (tick action elapsed conf alloc now st s).pool
    resets : (now id us : ℕ) (s : WorkerSet) → Step s (reset_tick_interval alloc now s id us).0
    reloads : (s : WorkerSet) → Step s (reload_pool s)
    stops : (now : ℕ) (s : WorkerSet) → Step s (stop now s).0
    cleans : (s : WorkerSet) → Step s (begin_cleanup s)
    moves :
        (i : ℕ) (status : Status) (s : WorkerSet)
        → Step s (record s { workers = set_status i status s.workers })
    exits :
        (i : ℕ) (w : Worker) (s : WorkerSet)
        → get_elem? s.workers i ≡ some w
        → loop_ends s w ≡ true
        → Step s (thread_exit i s)

  pub data Reach (s : WorkerSet) : WorkerSet → Type 0 where
    here : Reach s s
    next : {t u : WorkerSet} → Reach s t → Step t u → Reach s u
