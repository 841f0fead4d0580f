-- ===== src/App/Tick.antt =====
-- The compensation of expensive ticks in src/atframe/atapp.cpp: the reserve of the timer in
-- apply_configure, produce_tick_timer_compensation and consume_tick_timer_compensation. Times are
-- nanoseconds; an interval setting that is negative is 0 here,
-- and the code takes either for not set.
-- `granularity` is that of the system clock, which sysconf gives.
pub mod Account
pub mod Tests
use libatapp.Prelude.Int.{ℤ, pos, negsuc}
use libatapp.Prelude.{
  ℕ, ◌+◌, ◌-◌, ◌*◌, ◌/◌, Bool, true, false, List, [], ◌∷◌, leb, ltb, ◌==◌, if◌then◌else◌,
}

-- the fields of app_conf that keep the reserve
pub record TimerConf : Type 0 where
  pub reserve_permille : ℤ
  pub reserve_interval_tick : ℕ
  pub reserve_interval_min : ℕ
  pub reserve_interval_max : ℕ

abbrev pub permille_of : ℤ → ℕ
permille_of (negsuc n) = 10
permille_of (pos p) = if leb p 0 then 10 else if leb 1000 p then 999 else p

abbrev pub interval_min_of : ℕ → ℕ
interval_min_of t = if ltb t 1000 then 100000 else t

abbrev pub interval_max_of : ℕ → ℕ → ℕ
interval_max_of least t =
    let most = if ltb t 1000000 then 1000000000 else t in if ltb most least then least else most

abbrev pub interval_tick_of : ℕ → ℕ → ℕ → ℕ
interval_tick_of interval permille least =
    let tick = interval * (1000 - permille) / 1000 in
    let from_min = least * (1000 - permille) / permille in
    if ltb tick from_min then from_min else tick

-- the reserve, from the tick interval and the three settings
unfoldable pub apply_reserve : ℕ → ℤ → ℕ → ℕ → TimerConf
apply_reserve interval permille min max =
    let p = permille_of permille in
    let least = interval_min_of min in
    record {
      reserve_permille = pos p;
      reserve_interval_tick = interval_tick_of interval p least;
      reserve_interval_min = least;
      reserve_interval_max = interval_max_of least max;
    }

-- a number of permille below 0 counts as 1, and one above 999 as 999
abbrev pub used_permille : ℤ → ℕ
used_permille (negsuc n) = 1
used_permille (pos p) = if leb 1000 p then 999 else p

module _ (conf : TimerConf) where
  -- what a tick of some cost adds
  abbrev pub produced : ℕ → ℕ
  produced cost =
      let p = used_permille conf.reserve_permille in
      if leb cost conf.reserve_interval_tick
      then conf.reserve_interval_min
      else (cost - conf.reserve_interval_tick) * p / (1000 - p)

  -- void produce_tick_timer_compensation(tick_cost)
  unfoldable pub produce_tick_timer_compensation : ℕ → ℕ → ℕ
  produce_tick_timer_compensation cost compensation = compensation + produced cost

  -- uint64_t consume_tick_timer_compensation(): the milliseconds to wait, and what is left
  unfoldable pub consume_tick_timer_compensation : ℕ → ℕ → ℕ × ℕ
  consume_tick_timer_compensation granularity compensation =
      let ret = compensation / 1000000 in
      if ltb granularity compensation
      then if ltb conf.reserve_interval_max compensation
        then (conf.reserve_interval_max / 1000000, 0)
        else (ret, compensation - ret * 1000000)
      else (0, compensation)
