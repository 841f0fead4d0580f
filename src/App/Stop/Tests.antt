-- ===== src/App/Stop/Tests.antt =====
-- The stop of an application at concrete inputs.
use libatapp.Prelude.{ℕ, ◌≡◌, refl, true, false, not, [], ◌∷◌, ◌==◌, arith, if◌then◌else◌}
use libatapp.App.Stop.{
  new_module, suspend_stop, enable, active, disable, check_suspend_stop, stop_module, stop_modules,
  stopped, pending, Answer, Stopping, run_ev_loop,
}
use libatapp.App.Stop.Waits.{any_enabled, run_ev_loop-is_stopped}
use libatapp.App.Stop.Deadline.{rounds, stops_in_time}

-- the first module asks to wait for as long as it can, and the stop of the second one is slow
abbrev stubborn : ℕ → Answer
stubborn name = record { suspends = true; result = if name == 1 then stopped else pending }

abbrev ready : ℕ → Answer
ready name = record { suspends = true; result = stopped }

abbrev application : Stopping
application = record {
  is_stoping = true;
  is_stopped = false;
  is_timeout = false;
  timeout_timer = false;
  modules = suspend_stop 30 (new_module 1) ∷ suspend_stop 20 (new_module 2) ∷ [];
}

-- the second module is not suspended any more, but its stop is still pending
still_waiting :
    (rounds ((stubborn, 20) ∷ []) (run_ev_loop stubborn 0 application)).is_stopped ≡ false
unfolding rounds run_ev_loop stop_modules stop_module check_suspend_stop
still_waiting = refl

-- a module that is disabled and enabled again is not active
enabled_again :
    (enable (disable (active (new_module 1)).1).1).1
    ≡ record (new_module 1) { enabled = true; actived = false }
enabled_again = refl

-- a second suspension does not get a new limit
second_time :
    (check_suspend_stop true 50
      (suspend_stop 100 (check_suspend_stop true 0 (suspend_stop 30 (new_module 1))).1)).0
    ≡ false
unfolding check_suspend_stop
second_time = refl

run_ev_loop-is_stopped_example :
    let s' = run_ev_loop stubborn 0 application in s'.is_stopped ≡ not (any_enabled s'.modules)
run_ev_loop-is_stopped_example = run_ev_loop-is_stopped stubborn 0 application refl

stops_in_time_example :
    (run_ev_loop ready 30
      (rounds ((stubborn, 20) ∷ []) (run_ev_loop stubborn 0 application))).is_stopped
    ≡ true
stops_in_time_example =
    stops_in_time stubborn ready 0 30 30 ((stubborn, 20) ∷ []) application refl refl
      (refl, omega arith, (refl, omega arith, tt)) (λ name. tt) (omega arith)
