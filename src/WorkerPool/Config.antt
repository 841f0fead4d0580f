-- ===== src/WorkerPool/Config.antt =====
-- worker_pool_module::reload: what of the configuration the pool takes over. The configuration is
-- the protocol buffer atapp_worker_pool of include/atframe/atapp_conf.proto.
use libatapp.Prelude.{ℕ, ◌+◌, ◌*◌, ◌/◌, ◌≤◌, ◌<◌, ◌≡◌, refl, arith, ltb, leb, if◌then◌else◌}
use libatapp.Prelude.Int.{ℤ, pos_part, neg_part, sub_ℕ, to_int32, positive_or}

-- google.protobuf.Duration
pub record Duration : Type 0 where
  pub seconds : ℤ
  pub nanos : ℤ

pub record ScalingRules : Type 0 where
  pub scaling_up_stabilization_window : Duration
  pub scaling_up_cpu_permillage : ℤ
  pub scaling_up_queue_size : ℕ
  pub scaling_down_stabilization_window : Duration
  pub scaling_down_cpu_permillage : ℤ
  pub scaling_down_queue_size : ℕ
  pub leak_scan_interval : Duration

pub record WorkerPoolConf : Type 0 where
  pub queue_size : ℕ
  pub tick_min_interval : Duration
  pub tick_max_interval : Duration
  pub tick_preserve_interval : Duration
  pub worker_number_min : ℕ
  pub worker_number_max : ℕ
  pub scaling_rules : ScalingRules

-- (nanos / 1000) + (seconds * 1000000), where `/` rounds to 0
abbrev pub micros : Duration → ℤ
micros d =
    sub_ℕ (pos_part d.nanos / 1000 + pos_part d.seconds * 1000000)
      (neg_part d.nanos / 1000 + neg_part d.seconds * 1000000)

-- the three intervals of worker_set
pub record Intervals : Type 0 where
  pub tick_min : ℕ
  pub tick_max : ℕ
  pub tick_preserve : ℕ

unfoldable pub reload_intervals : WorkerPoolConf → Intervals
reload_intervals cfg =
    let tick_max = pos_part (micros cfg.tick_max_interval) in
    let tick_min = pos_part (micros cfg.tick_min_interval) in
    let preserve = pos_part (micros cfg.tick_preserve_interval) in
    record {
      tick_min = if ltb tick_min 1000 then 4000 else tick_min;
      tick_max = if leb tick_max 1000 then 128000 else tick_max;
      tick_preserve = if ltb preserve 1000 then 8000 else preserve;
    }

-- the fields that are signed in the source are positive once they are set
pub record ScalingConfigure : Type 0 where
  pub queue_size_limit : ℕ
  pub max_workers : ℕ
  pub min_workers : ℕ
  pub scaling_up_cpu_permillage : ℕ
  pub scaling_up_queue_size : ℕ
  pub scaling_up_stable_window_seconds : ℕ
  pub scaling_down_cpu_permillage : ℕ
  pub scaling_down_queue_size : ℕ
  pub scaling_down_stable_window_seconds : ℕ
  pub leak_scan_interval_seconds : ℕ

-- The three tests on the worker numbers, in order.
pub record Bounds : Type 0 where
  pub least : ℕ
  pub most : ℕ

abbrev pub worker_bounds : ℕ → ℕ → Bounds
worker_bounds min_workers max_workers =
    let capped = if ltb max_workers min_workers then max_workers else min_workers in
    let least = if leb capped 0 then 1 else capped in
    record { least = least; most = if ltb max_workers least then least else max_workers }

unfoldable pub reload : WorkerPoolConf → ScalingConfigure
reload cfg =
    let rules = cfg.scaling_rules in
    let bounds = worker_bounds cfg.worker_number_min cfg.worker_number_max in
    let up = positive_or rules.scaling_down_cpu_permillage 600 in
    let down = positive_or rules.scaling_down_cpu_permillage 500 in
    record {
      queue_size_limit = cfg.queue_size;
      max_workers = bounds.most;
      min_workers = bounds.least;
      scaling_up_cpu_permillage = up;
      scaling_up_queue_size = rules.scaling_up_queue_size;
      scaling_up_stable_window_seconds =
          positive_or (to_int32 rules.scaling_up_stabilization_window.seconds) 10;
      scaling_down_cpu_permillage = if ltb up down then up else down;
      scaling_down_queue_size = rules.scaling_down_queue_size;
      scaling_down_stable_window_seconds =
          positive_or (to_int32 rules.scaling_down_stabilization_window.seconds) 10;
      leak_scan_interval_seconds = positive_or (to_int32 rules.leak_scan_interval.seconds) 300;
    }

-- What the pool relies on after any reload.
pub record IsNormal (c : ScalingConfigure) : Type 0 where
  pub some_worker : 0 < c.min_workers
  pub ordered : c.min_workers ≤ c.max_workers
  pub divides_up : 0 < c.scaling_up_cpu_permillage
  pub divides_down : 0 < c.scaling_down_cpu_permillage
  pub band : c.scaling_down_cpu_permillage ≤ c.scaling_up_cpu_permillage
  pub window_up : 0 < c.scaling_up_stable_window_seconds
  pub window_down : 0 < c.scaling_down_stable_window_seconds
  pub scans : 0 < c.leak_scan_interval_seconds

-- Whatever the configuration holds, the pool has at least one worker, at most max_workers, and no
-- divisor or window of 0.
reload-IsNormal : (cfg : WorkerPoolConf) → IsNormal (reload cfg)
unfolding reload
reload-IsNormal cfg = ground arith

-- The configured scaling_up_cpu_permillage is never read: two configurations that differ in it
-- alone give the same pool.
reload_ignores_up :
    (cfg : WorkerPoolConf) (u : ℤ)
    → reload (record cfg {
      scaling_rules = record (cfg.scaling_rules) { scaling_up_cpu_permillage = u };
    })
      ≡ reload cfg
unfolding reload
reload_ignores_up cfg u = refl
