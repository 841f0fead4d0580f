-- ===== src/App/Stop/Waits.antt =====
-- Whom an application that stops waits for.
use libatapp.Prelude.{
  ℕ, ◌≡◌, refl, sym, ap, ◌∙◌, Bool, true, false, not, ◌||◌, List, [], ◌∷◌, leb, if-cases, arith,
}
use libatapp.App.Stop.{
  Module, stop_limit, check_suspend_stop, StopResult, stopped, failed, pending, Answer, after_check,
  stop_module, stop_modules, Stopping, timeout_modules, notify_modules, run_ev_loop,
}

abbrev pub any_enabled : List Module → Bool
any_enabled [] = false
any_enabled (m ∷ ms) = m.enabled || any_enabled ms

check-enabled :
    (suspends : Bool) (now : ℕ) (m : Module)
    → (check_suspend_stop suspends now m).1.enabled ≡ m.enabled
unfolding check_suspend_stop
check-enabled suspends now m =
    let P = λ (p : Bool × Module). p.1.enabled ≡ m.enabled in
    if-cases P (not m.stop_suspend_callback) _ _ (λ e. refl)
      (λ e.
        if-cases P (leb (stop_limit now m) now) _ _ (λ e. refl)
          (λ e. if-cases P (not suspends) _ _ (λ e. refl) (λ e. refl)))

after_check-enabled :
    (r : StopResult) (p : Bool × Module)
    → p.1.enabled ≡ true
    → (after_check r p).0 ≡ (after_check r p).1.enabled
after_check-enabled r (true, m) h = sym h
after_check-enabled stopped (false, m) h = refl
after_check-enabled failed (false, m) h = refl
after_check-enabled pending (false, m) h = sym h

-- the application waits for a module if and only if it is still enabled then
stop_module-enabled :
    (answers : ℕ → Answer) (now : ℕ) (m : Module)
    → (stop_module answers now m).0 ≡ (stop_module answers now m).1.enabled
unfolding stop_module
stop_module-enabled answers now m =
    if-cases (λ (p : Bool × Module). p.0 ≡ p.1.enabled) (not m.enabled) _ _ (λ e. ground (arith, e))
      (λ e.
        after_check-enabled (answers m.name).result
          (check_suspend_stop (answers m.name).suspends now m)
          (check-enabled (answers m.name).suspends now m ∙ ground (arith, e)))

stop_modules-enabled :
    (answers : ℕ → Answer) (now : ℕ) (ms : List Module)
    → (stop_modules answers now ms).0 ≡ any_enabled (stop_modules answers now ms).1
unfolding stop_modules
stop_modules-enabled answers now [] = refl
stop_modules-enabled answers now (m ∷ ms) =
    ap (λ b. b || (stop_modules answers now ms).0) (stop_module-enabled answers now m)
    ∙ ap (λ b. (stop_module answers now m).1.enabled || b) (stop_modules-enabled answers now ms)

timeout_modules-enabled : (ms : List Module) → any_enabled (timeout_modules ms) ≡ false
timeout_modules-enabled [] = refl
timeout_modules-enabled (m ∷ ms) =
    if-cases (λ (n : Module). (n.enabled || any_enabled (timeout_modules ms)) ≡ false) m.enabled _ _
      (λ e. timeout_modules-enabled ms)
      (λ e. ap (λ b. b || any_enabled (timeout_modules ms)) e ∙ timeout_modules-enabled ms)

-- After a round of an application that stops, timed out or not, it is stopped if and only if no module is
-- enabled any more.
pub run_ev_loop-is_stopped :
    (answers : ℕ → Answer) (now : ℕ) (s : Stopping)
    → s.is_stoping ≡ true
    → let s' = run_ev_loop answers now s in s'.is_stopped ≡ not (any_enabled s'.modules)
unfolding run_ev_loop notify_modules
run_ev_loop-is_stopped answers now s h =
    if-cases (λ (t : Stopping). t.is_stopped ≡ not (any_enabled t.modules)) (not s.is_stoping) _ _
      (λ e. absurd (ground (arith, e, h)))
      (λ e.
        if-cases (λ (t : Stopping). t.is_stopped ≡ not (any_enabled t.modules)) s.is_timeout _ _
          (λ e. ap not (sym (timeout_modules-enabled s.modules)))
          (λ e. ap not (stop_modules-enabled answers now s.modules)))
