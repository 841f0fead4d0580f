-- ===== src/App/Stop.antt =====
-- How an application stops: the flags and the suspended stop of module_impl in
-- src/atframe/atapp_module_impl.cpp, and the part of app::run_ev_loop in src/atframe/atapp.cpp that
-- stops the modules. What a module answers in a round is its own code, and an argument: whether its
-- callback asks to wait, and how its stop returns. There is a bus node, whose shutdown is left out, and
-- the timer of the time limit can be set up.
pub mod Waits
pub mod Deadline
pub mod Tests
use libatapp.Prelude.{
  ℕ, ◌+◌, Bool, true, false, not, ◌&&◌, ◌||◌, Option, none, some, List, [], ◌∷◌, leb, if◌then◌else◌,
}

-- class module_impl; `name` tells the modules apart, `none` is time_point::min
pub record Module : Type 0 where
  pub name : ℕ
  pub enabled : Bool
  pub actived : Bool
  pub stop_suspend_callback : Bool
  pub stop_suspend_timeout : Option ℕ
  pub stop_suspend_duration : ℕ

-- the constructor, with 5 seconds in nanoseconds
abbrev pub new_module : ℕ → Module
new_module name = record {
  name = name;
  enabled = true;
  actived = false;
  stop_suspend_callback = false;
  stop_suspend_timeout = none;
  stop_suspend_duration = 5000000000;
}

-- void suspend_stop(timeout_duration, fn)
abbrev pub suspend_stop : ℕ → Module → Module
suspend_stop duration m = record m {
  stop_suspend_duration = duration;
  stop_suspend_callback = true;
}

-- bool deactive()
abbrev pub deactive : Module → Bool × Module
deactive m = (m.actived, record m { actived = false })

-- bool disable()
abbrev pub disable : Module → Bool × Module
disable m = (m.enabled, (deactive (record m { enabled = false })).1)

-- bool enable()
abbrev pub enable : Module → Bool × Module
enable m = (m.enabled, record m { enabled = true })

-- bool active()
abbrev pub active : Module → Bool × Module
active m = (m.actived, record m { actived = true })

-- the time limit of a suspended stop, which the first question sets
abbrev pub limit_or : ℕ → Option ℕ → ℕ
limit_or first none = first
limit_or first (some time) = time

abbrev pub stop_limit : ℕ → Module → ℕ
stop_limit now m = limit_or (now + m.stop_suspend_duration) m.stop_suspend_timeout

-- bool check_suspend_stop(), where `suspends` is what the callback returns
unfoldable pub check_suspend_stop : Bool → ℕ → Module → Bool × Module
check_suspend_stop suspends now m =
    let asked = record m { stop_suspend_timeout = some (stop_limit now m) } in
    if not m.stop_suspend_callback
    then (false, m)
    else if leb (stop_limit now m) now
    then (false, record asked { stop_suspend_callback = false })
    else if not suspends
    then (false, record asked { stop_suspend_callback = false })
    else (true, asked)

-- the result of a module's stop: 0, less, or greater
pub data StopResult : Type 0 where
  stopped failed pending : StopResult

pub record Answer : Type 0 where
  pub suspends : Bool
  pub result : StopResult

-- a module after its stop, and whether the application has to wait for it
abbrev pub after_stop : StopResult → Module → Bool × Module
after_stop pending m = (true, m)
after_stop _ m = (false, (disable m).1)

abbrev pub after_check : StopResult → Bool × Module → Bool × Module
after_check result (true, m) = (true, m)
after_check result (false, m) = after_stop result m

unfoldable pub stop_module : (ℕ → Answer) → ℕ → Module → Bool × Module
unfolding check_suspend_stop
stop_module answers now m =
    let answer = answers m.name in
    if not m.enabled
    then (false, m)
    else after_check answer.result (check_suspend_stop answer.suspends now m)

unfoldable pub stop_modules : (ℕ → Answer) → ℕ → List Module → Bool × List Module
unfolding stop_module
stop_modules answers now [] = (false, [])
stop_modules answers now (m ∷ ms) =
    let (waits, m') = stop_module answers now m in
    let (more, ms') = stop_modules answers now ms in (waits || more, m' ∷ ms')

-- the flags of the stop, whether its timer is set up, and modules_
pub record Stopping : Type 0 where
  pub is_stoping : Bool
  pub is_stopped : Bool
  pub is_timeout : Bool
  pub timeout_timer : Bool
  pub modules : List Module

abbrev pub timeout_modules : List Module → List Module
timeout_modules [] = []
timeout_modules (m ∷ ms) = (if m.enabled then (disable m).1 else m) ∷ timeout_modules ms

abbrev pub notify_modules : (ℕ → Answer) → ℕ → Stopping → Stopping
unfolding stop_modules
notify_modules answers now s =
    let (waits, ms) = stop_modules answers now s.modules in
    record s { is_stopped = not waits; timeout_timer = true; modules = ms }

-- the stop in app::run_ev_loop
unfoldable pub run_ev_loop : (ℕ → Answer) → ℕ → Stopping → Stopping
unfolding notify_modules
run_ev_loop answers now s =
    if not s.is_stoping
    then s
    else if s.is_timeout
    then record s { is_stopped = true; modules = timeout_modules s.modules }
    else notify_modules answers now s
