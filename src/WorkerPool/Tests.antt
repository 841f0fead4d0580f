-- ===== src/WorkerPool/Tests.antt =====
-- The theorems about the worker pool at concrete pools and configurations.
use mathlib.Core.Bool.{false≢true}
use libatapp.Prelude.{
  ℕ, ◌+◌, ◌≤◌, ◌≡◌, ◌⊎◌, refl, arith, false, some, List, [], ◌∷◌, ◌==◌, if◌then◌else◌, All,
}
use libatapp.Prelude.Int.{pos, negsuc}
use libatapp.WorkerPool.Config.{Duration, WorkerPoolConf, ScalingConfigure, IsNormal}
use libatapp.WorkerPool.Worker.{
  Worker, WorkerSet, Status, running, exited, empty_set, make_worker, IsNumbered,
}
use libatapp.WorkerPool.Key.{key_lt, make_compare_key}
use libatapp.WorkerPool.Resize.{internal_reduce_workers}
use libatapp.WorkerPool.Resize.Shrink.{Shrinks, internal_reduce_workers-Shrinks}
use libatapp.WorkerPool.Select.{select_any}
use libatapp.WorkerPool.Select.Least.{
  IsEligible, key_of, pool_candidates, select_any_least, select_any-none,
}
use libatapp.WorkerPool.Jobs.{spawn, rebalance_jobs, thread_exit}
use libatapp.WorkerPool.Jobs.Count.{jobs}
use libatapp.WorkerPool.Jobs.Spawn.{Conserves, spawn-Conserves}
use libatapp.WorkerPool.Jobs.Limit.{Fits, spawn-Fits}
use libatapp.WorkerPool.Jobs.Balance.{takers, rebalance_jobs_lem, thread_exit-jobs}
use libatapp.WorkerPool.Background.{Action, missing, empty, callable, background_job_tick}
use libatapp.WorkerPool.Background.Rounds.{IsRound, background_job_tick_lem}
use libatapp.WorkerPool.Scaling.{ScalingStatistics, plan, tick_open}
use libatapp.WorkerPool.Scaling.Target.{plan_bounds}
use libatapp.WorkerPool.Scaling.Accounts.{tick_open-jobs}
use libatapp.WorkerPool.Life.{here, next, spawns, reloads, reload_pool}
use libatapp.WorkerPool.Life.Invariant.{Reach-IsNumbered}

abbrev seconds_of : ℕ → Duration
seconds_of n = record { seconds = pos n; nanos = pos 0 }

abbrev sample : WorkerPoolConf
sample = record {
  queue_size = 3;
  tick_min_interval = seconds_of 0;
  tick_max_interval = seconds_of 1;
  tick_preserve_interval = seconds_of 0;
  worker_number_min = 4;
  worker_number_max = 8;
  scaling_rules = record {
    scaling_up_stabilization_window = seconds_of 5;
    scaling_up_cpu_permillage = pos 900;
    scaling_up_queue_size = 2;
    scaling_down_stabilization_window = seconds_of 60;
    scaling_down_cpu_permillage = pos 300;
    scaling_down_queue_size = 1;
    leak_scan_interval = negsuc_second;
  };
}
  where
    negsuc_second : Duration
    negsuc_second = record { seconds = negsuc 0; nanos = pos 0 }

abbrev conf : ScalingConfigure
conf = record {
  queue_size_limit = 3;
  max_workers = 8;
  min_workers = 4;
  scaling_up_cpu_permillage = 600;
  scaling_up_queue_size = 2;
  scaling_up_stable_window_seconds = 5;
  scaling_down_cpu_permillage = 500;
  scaling_down_queue_size = 1;
  scaling_down_stable_window_seconds = 60;
  leak_scan_interval_seconds = 300;
}

conf-IsNormal : IsNormal conf
conf-IsNormal = record {
  some_worker = omega arith;
  ordered = omega arith;
  divides_up = omega arith;
  divides_down = omega arith;
  band = omega arith;
  window_up = omega arith;
  window_down = omega arith;
  scans = omega arith;
}

abbrev alloc : ℕ → ℕ
alloc n = 4096 + n

abbrev worker_with : ℕ → Status → List ℕ → Worker
worker_with id status queue = record (make_worker empty_set id 0 (alloc id)) {
  status = status;
  private_jobs = queue;
}

-- two workers that run, one of them with jobs, and jobs that no worker has yet
abbrev busy_pool : WorkerSet
busy_pool = record empty_set {
  workers = worker_with 1 running (11 ∷ 12 ∷ []) ∷ worker_with 2 running [] ∷ [];
  shared_jobs = 13 ∷ 11 ∷ [];
}

-- a third worker that has exited, and is one too many
abbrev shrinking_pool : WorkerSet
shrinking_pool = record empty_set {
  workers =
      worker_with 1 running (11 ∷ [])
      ∷ worker_with 2 running []
      ∷ record (worker_with 3 exited []) { cpu_time_busy_us = 7 }
      ∷ [];
}

-- the first worker has exited, although it is expected
abbrev broken_pool : WorkerSet
broken_pool = record empty_set {
  workers =
      record (worker_with 1 exited []) { cpu_time_busy_us = 9 }
      ∷ worker_with 2 running (11 ∷ [])
      ∷ [];
}

abbrev statistics : ScalingStatistics
statistics = record {
  last_scaling_up_checkpoint = 0;
  last_scaling_down_checkpoint = 0;
  leak_scan_checkpoint = 0;
}

abbrev kinds : ℕ → Action
kinds n = if n == 12 then empty else if n == 20 then missing else callable

abbrev elapsed : ℕ → ℕ
elapsed n = n

-- a minute after the start, in nanoseconds
abbrev minute : ℕ
minute = 61_000_000_000

Reach-IsNumbered_example : IsNumbered (spawn conf alloc 5 (reload_pool empty_set) (some 11)).0
Reach-IsNumbered_example =
    Reach-IsNumbered {action = kinds} {elapsed = elapsed} {conf = conf} {alloc = alloc}
      {t = (spawn conf alloc 5 (reload_pool empty_set) (some 11)).0}
      (next (next here (reloads empty_set)) (spawns 5 (reload_pool empty_set) (some 11)))

spawn-Conserves_example : Conserves 14 14 busy_pool (spawn conf alloc 0 busy_pool (some 14))
spawn-Conserves_example = spawn-Conserves conf alloc 0 14 14 busy_pool

rebalance_jobs_lem_example :
    let s' = rebalance_jobs alloc 0 busy_pool in
    ((j : ℕ) → jobs j s' ≡ jobs j busy_pool)
    × ((s'.shared_jobs ≡ []) ⊎ (takers alloc 0 busy_pool ≡ []))
rebalance_jobs_lem_example = rebalance_jobs_lem alloc 0 busy_pool

thread_exit-jobs_example : jobs 12 (thread_exit 0 busy_pool) ≡ jobs 12 busy_pool
thread_exit-jobs_example = thread_exit-jobs 0 12 busy_pool

tick_open-jobs_example :
    jobs 11 (tick_open conf alloc minute statistics shrinking_pool).pool ≡ jobs 11 shrinking_pool
tick_open-jobs_example =
    tick_open-jobs conf alloc minute 11 statistics shrinking_pool
      ((λ e. absurd (false≢true e)), ((λ e. refl), ((λ e. refl), tt)))

plan_bounds_example :
    let e =
      (plan conf minute statistics (record busy_pool { current_expect_workers = 6 })).expect in
    (4 ≤ e) × (e ≤ 8)
plan_bounds_example =
    plan_bounds conf minute statistics (record busy_pool { current_expect_workers = 6 })
      conf-IsNormal (omega arith) (λ p. omega arith)

select_any_least_example :
    let s = (select_any alloc 0 busy_pool).0 in
    (w : Worker) × IsEligible 0 s.current_expect_workers s.workers 1 w
    × All (λ c. key_lt (key_of c) (make_compare_key w) ≡ false) (pool_candidates 0 s)
unfolding select_any
select_any_least_example = select_any_least alloc 0 busy_pool 1 refl

select_any-none_example : pool_candidates 0 (select_any alloc 0 empty_set).0 ≡ []
unfolding select_any
select_any-none_example = select_any-none alloc 0 empty_set tt refl

internal_reduce_workers-Shrinks_example :
    (gone : List Worker) × Shrinks 0 shrinking_pool
      (internal_reduce_workers 0 shrinking_pool).0
      gone
internal_reduce_workers-Shrinks_example = internal_reduce_workers-Shrinks 0 shrinking_pool

background_job_tick_lem_example :
    let w = worker_with 1 running (11 ∷ 12 ∷ []) in
    let r = background_job_tick kinds elapsed 1 10 4 128 w in
    ((taken : List ℕ) × IsRound kinds elapsed 10 0 (11 ∷ 12 ∷ []) r.worked taken)
    × ((false ≡ false) ⊎ ((4 ≤ r.interval) × (r.interval ≤ 128)))
background_job_tick_lem_example =
    background_job_tick_lem kinds elapsed 1 10 4 128 (worker_with 1 running (11 ∷ 12 ∷ []))

spawn-Fits_example : Fits conf (spawn conf alloc 0 busy_pool (some 14)).0
spawn-Fits_example = spawn-Fits conf alloc 0 busy_pool (some 14) (omega arith, (omega arith, tt))
