-- ===== src/WorkerPool/Worker.antt =====
-- worker_pool_module::worker and worker_set: the state of the pool. Times are nanoseconds of the
-- system clock, and one reading of it serves for a whole operation. A job is a number; the entries
-- of `workers` are never null, since only make_shared fills them.
use libatapp.Prelude.{
  ℕ, ◌+◌, ◌-◌, ◌*◌, ◌≡◌, Bool, true, false, ◌||◌, List, [], ◌∷◌, ltb, if◌then◌else◌,
}

-- worker_status
pub data Status : Type 0 where
  created running sleeping exiting exited : Status

pub record Worker : Type 0 where
  pub worker_id : ℕ
  pub address : ℕ
  pub status : Status
  pub created_time : ℕ
  pub private_jobs : List ℕ
  pub tick_handles : List ℕ
  pub tick_interval : ℕ
  pub cpu_time_busy_us : ℕ
  pub cpu_time_last_second_busy_us : ℕ
  pub cpu_time_last_minute_busy_us : ℕ
  pub cpu_time_collect_scaling_up_us : ℕ
  pub cpu_time_collect_scaling_down_us : ℕ

pub record WorkerSet : Type 0 where
  pub need_scaling_up : Bool
  pub closing : Bool
  pub cleaning : Bool
  pub current_expect_workers : ℕ
  pub tick_min_us : ℕ
  pub tick_max_us : ℕ
  pub workers : List Worker
  pub removed_scaling_up : ℕ
  pub removed_scaling_down : ℕ
  pub shared_jobs : List ℕ

abbrev pub second : ℕ
second = 1_000_000_000

-- created for more than 30 seconds, or in the future by as much, and not started
abbrev pub is_leaked : ℕ → Worker → Bool
is_leaked now w = ltb (w.created_time + 30 * second) now || ltb (now + 30 * second) w.created_time

abbrev pub exiting_in : Status → Bool → Bool
exiting_in exited leaked = true
exiting_in exiting leaked = true
exiting_in created leaked = leaked
exiting_in running leaked = false
exiting_in sleeping leaked = false

abbrev pub is_exiting : ℕ → Worker → Bool
is_exiting now w = exiting_in w.status (is_leaked now w)

abbrev pub exited_in : Status → Bool → Bool
exited_in exited leaked = true
exited_in created leaked = leaked
exited_in exiting leaked = false
exited_in running leaked = false
exited_in sleeping leaked = false

abbrev pub is_exited : ℕ → Worker → Bool
is_exited now w = exited_in w.status (is_leaked now w)

-- the constructor of worker, at the address that make_shared gave
abbrev pub make_worker : WorkerSet → ℕ → ℕ → ℕ → Worker
make_worker owner worker_id now address = record {
  worker_id = worker_id;
  address = address;
  status = created;
  created_time = now;
  private_jobs = [];
  tick_handles = [];
  tick_interval = if ltb owner.tick_min_us 1000 then 4000 else owner.tick_min_us;
  cpu_time_busy_us = 0;
  cpu_time_last_second_busy_us = 0;
  cpu_time_last_minute_busy_us = 0;
  cpu_time_collect_scaling_up_us = 0;
  cpu_time_collect_scaling_down_us = 0;
}

-- worker_set::worker_set
abbrev pub empty_set : WorkerSet
empty_set = record {
  need_scaling_up = false;
  closing = false;
  cleaning = false;
  current_expect_workers = 2;
  tick_min_us = 4;
  tick_max_us = 128;
  workers = [];
  removed_scaling_up = 0;
  removed_scaling_down = 0;
  shared_jobs = [];
}

-- collect_scaling_up_cpu_time: the nanoseconds worked since the last call
abbrev pub collect_up : Worker → ℕ
collect_up w = (w.cpu_time_busy_us - w.cpu_time_collect_scaling_up_us) * 1000

abbrev pub collected_up : Worker → Worker
collected_up w = record w { cpu_time_collect_scaling_up_us = w.cpu_time_busy_us }

-- collect_scaling_down_cpu_time
abbrev pub collect_down : Worker → ℕ
collect_down w = (w.cpu_time_busy_us - w.cpu_time_collect_scaling_down_us) * 1000

abbrev pub collected_down : Worker → Worker
collected_down w = record w { cpu_time_collect_scaling_down_us = w.cpu_time_busy_us }

-- Worker i of the list has the id i + 1.
abbrev pub IsNumberedFrom : ℕ → List Worker → Type 0
IsNumberedFrom n [] = Unit {0}
IsNumberedFrom n (w ∷ ws) = (w.worker_id ≡ n) × IsNumberedFrom (n + 1) ws

abbrev pub IsNumbered : WorkerSet → Type 0
IsNumbered s = IsNumberedFrom 1 s.workers
