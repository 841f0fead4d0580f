-- ===== src/WorkerPool/Scaling.antt =====
-- worker_pool_module::tick and apply_configure: how many workers the pool wants. Times are
-- nanoseconds; the products and sums of the source are in int64_t, which holds 106 days of CPU time
-- multiplied by 1000, and are not cut off here. The casts to uint32_t are.
pub mod Target
pub mod Accounts
use libatapp.Prelude.{
  ℕ, zero, suc, ◌+◌, ◌-◌, ◌*◌, ◌/◌, ◌%◌, ◌^◌, Bool, true, false, ◌&&◌, ◌||◌, not, List, [], ◌∷◌,
  ltb, leb, ◌==◌, length, map, if◌then◌else◌,
}
use libatapp.WorkerPool.Config.{ScalingConfigure}
use libatapp.WorkerPool.Worker.{
  Worker, WorkerSet, second, collect_up, collected_up, collect_down, collected_down,
}
use libatapp.WorkerPool.Resize.{internal_reduce_workers, internal_autofix_workers}
use libatapp.WorkerPool.Jobs.{rebalance_jobs}
use libatapp.WorkerPool.Background.{Action, do_shared_job_on_main_thread}

pub record ScalingStatistics : Type 0 where
  pub last_scaling_up_checkpoint : ℕ
  pub last_scaling_down_checkpoint : ℕ
  pub leak_scan_checkpoint : ℕ

-- void apply_configure()
abbrev pub apply_configure : ScalingStatistics → ScalingStatistics
apply_configure st = record st { last_scaling_up_checkpoint = 0; last_scaling_down_checkpoint = 0 }

-- the sums over the workers: `collect_cpu_time` and `queue_size`
abbrev pub time_up : List Worker → ℕ
time_up [] = 0
time_up (w ∷ ws) = collect_up w + time_up ws

abbrev pub time_down : List Worker → ℕ
time_down [] = 0
time_down (w ∷ ws) = collect_down w + time_down ws

abbrev pub queued : List Worker → ℕ
queued [] = 0
queued (w ∷ ws) = length w.private_jobs + queued ws

abbrev pub at_least : ℕ → ℕ → ℕ
at_least low n = if ltb n low then low else n

abbrev pub at_most : ℕ → ℕ → ℕ
at_most high n = if ltb high n then high else n

-- The workers that the CPU time of `offset` nanoseconds and the jobs in the queues ask for.
pub up_target : ScalingConfigure → ℕ → ℕ → ℕ → ℕ
up_target conf offset cpu queue =
    let by_cpu = (cpu * 1000 / offset / conf.scaling_up_cpu_permillage % 2 ^ 32 + 1) % 2 ^ 32 in
    let by_queue = (queue / conf.scaling_up_queue_size + 1) % 2 ^ 32 in
    at_most conf.max_workers
      (if ltb 0 conf.scaling_up_queue_size then at_least by_queue by_cpu else by_cpu)

pub down_target : ScalingConfigure → ℕ → ℕ → ℕ → ℕ
down_target conf offset cpu queue =
    let by_cpu = cpu * 1000 / offset / conf.scaling_down_cpu_permillage % 2 ^ 32 in
    let by_queue = queue / conf.scaling_down_queue_size % 2 ^ 32 in
    at_least conf.min_workers
      (if ltb 0 conf.scaling_down_queue_size then at_least by_queue by_cpu else by_cpu)

-- What one part of tick leaves: the pool, its statistics and `expect_workers`.
pub record Planned : Type 0 where
  pub pool : WorkerSet
  pub statistics : ScalingStatistics
  pub expect : ℕ

-- the window is over, and some time has passed since the checkpoint
abbrev pub is_due : ℕ → ℕ → ℕ → Bool
is_due now checkpoint window =
    not (ltb now checkpoint)
    && not (ltb now (checkpoint + window * second))
    && ltb 0 (now - checkpoint)

-- the checkpoint moves also where the clock went back, but not within the window
abbrev pub next_checkpoint : ℕ → ℕ → ℕ → ℕ
next_checkpoint now checkpoint window =
    if ltb now checkpoint
    then now
    else if ltb now (checkpoint + window * second)
    then checkpoint
    else now

-- "calculate scaling up"
pub scale_up : ScalingConfigure → ℕ → Planned → Planned
unfolding up_target
scale_up conf now p =
    let s = p.pool in
    let last = p.statistics.last_scaling_up_checkpoint in
    let window = conf.scaling_up_stable_window_seconds in
    let cpu = s.removed_scaling_up + time_up s.workers in
    let wanted = up_target conf (now - last) cpu (queued s.workers) in
    record {
      pool =
          if is_due now last window
          then record s { removed_scaling_up = 0; workers = map collected_up s.workers }
          else s;
      statistics = record (p.statistics) {
        last_scaling_up_checkpoint = next_checkpoint now last window;
      };
      expect = if is_due now last window then at_least wanted p.expect else p.expect;
    }

-- "calculate scaling down"
pub scale_down : ScalingConfigure → ℕ → Planned → Planned
unfolding down_target
scale_down conf now p =
    let s = p.pool in
    let last = p.statistics.last_scaling_down_checkpoint in
    let window = conf.scaling_down_stable_window_seconds in
    let cpu = s.removed_scaling_down + time_down s.workers in
    let wanted = down_target conf (now - last) cpu (queued s.workers) in
    record {
      pool =
          if is_due now last window
          then record s { removed_scaling_down = 0; workers = map collected_down s.workers }
          else s;
      statistics = record (p.statistics) {
        last_scaling_down_checkpoint = next_checkpoint now last window;
      };
      expect = if is_due now last window then at_most wanted p.expect else p.expect;
    }

-- the exchange of current_expect_workers
abbrev pub set_expect : ℕ → WorkerSet → WorkerSet
set_expect expect s = record s {
  current_expect_workers = expect;
  need_scaling_up = not (expect == s.current_expect_workers) || s.need_scaling_up;
}

-- within the interval of the last scan, on either side
abbrev pub scanned : ScalingConfigure → ℕ → ScalingStatistics → Bool
scanned conf now st =
    let interval = conf.leak_scan_interval_seconds * second in
    leb st.leak_scan_checkpoint (now + interval) && ltb now (st.leak_scan_checkpoint + interval)

-- the end of tick: workers that have exited go, and the jobs of the shared queue find workers
pub settle :
    ScalingConfigure → (ℕ → ℕ) → ℕ → ScalingStatistics → WorkerSet → WorkerSet × ScalingStatistics
unfolding internal_reduce_workers internal_autofix_workers rebalance_jobs
settle conf alloc now st s =
    if scanned conf now st
    then (rebalance_jobs alloc now (internal_reduce_workers now s).0, st)
    else (
      rebalance_jobs alloc now (internal_autofix_workers now s),
      record st { leak_scan_checkpoint = now },
    )

-- where tick starts; after stop the expected number is 0
abbrev pub begin : ScalingConfigure → ScalingStatistics → WorkerSet → Planned
begin conf st s = record {
  pool = s;
  statistics = st;
  expect = if leb s.current_expect_workers 0 then conf.min_workers else s.current_expect_workers;
}

pub plan : ScalingConfigure → ℕ → ScalingStatistics → WorkerSet → Planned
unfolding scale_up scale_down
plan conf now st s = scale_down conf now (scale_up conf now (begin conf st s))

-- the state after a tick, and the jobs that the main thread has called
pub record Ticked : Type 0 where
  pub pool : WorkerSet
  pub statistics : ScalingStatistics
  pub called : List ℕ

-- a pool that is closing: its jobs go to the workers that are left, or to the main thread
unfoldable pub tick_closing :
    (ℕ → Action) → (ℕ → ℕ) → (ℕ → ℕ) → ℕ → ScalingStatistics → WorkerSet → Ticked
unfolding internal_reduce_workers rebalance_jobs do_shared_job_on_main_thread
tick_closing action elapsed alloc now st s =
    let (pool, called) =
      do_shared_job_on_main_thread action elapsed
        (rebalance_jobs alloc now (internal_reduce_workers now s).0) in
    record { pool = pool; statistics = st; called = called }

unfoldable pub tick_open : ScalingConfigure → (ℕ → ℕ) → ℕ → ScalingStatistics → WorkerSet → Ticked
unfolding plan settle
tick_open conf alloc now st s =
    let p = plan conf now st s in
    let (pool, statistics) = settle conf alloc now p.statistics (set_expect p.expect p.pool) in
    record { pool = pool; statistics = statistics; called = [] }

unfoldable pub tick_when :
    Bool
    → (ℕ → Action)
    → (ℕ → ℕ)
    → ScalingConfigure
    → (ℕ → ℕ)
    → ℕ
    → ScalingStatistics
    → WorkerSet
    → Ticked
unfolding tick_closing tick_open
tick_when true action elapsed conf alloc now st s = tick_closing action elapsed alloc now st s
tick_when false action elapsed conf alloc now st s = tick_open conf alloc now st s

-- int tick(std::chrono::system_clock::time_point now)
unfoldable pub tick :
    (ℕ → Action) → (ℕ → ℕ) → ScalingConfigure → (ℕ → ℕ) → ℕ → ScalingStatistics → WorkerSet → Ticked
unfolding tick_when
tick action elapsed conf alloc now st s = tick_when s.closing action elapsed conf alloc now st s
