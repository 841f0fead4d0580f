-- ===== src/App/Stop/Deadline.antt =====
-- A suspended stop ends: what a module can ask for is bounded by its duration.
use libatapp.Prelude.{
  ℕ, ◌+◌, ◌≤◌, ◌≡◌, refl, sym, ap, ◌∙◌, Bool, true, false, not, ◌||◌, Option, none, some, List, [],
  ◌∷◌, leb, if-cases, arith,
}
use mathlib.Core.Bool.{false≢true}
use mathlib.Core.Path.{subst}
use libatapp.App.Stop.{
  Module, limit_or, stop_limit, check_suspend_stop, StopResult, stopped, failed, pending, Answer,
  after_check, stop_module, stop_modules, Stopping, notify_modules, run_ev_loop,
}
use libatapp.App.Stop.Waits.{any_enabled, run_ev_loop-is_stopped}

-- a limit that is set, and is no later than a time
abbrev Limited : Option ℕ → ℕ → Type 0
Limited none time = ⊥
Limited (some limit) time = limit ≤ time

-- a module can ask to wait only until a time
abbrev Due : ℕ → Module → Type 0
Due time m = m.enabled ≡ true → m.stop_suspend_callback ≡ true → Limited m.stop_suspend_timeout time

abbrev AllDue : ℕ → List Module → Type 0
AllDue time [] = Unit
AllDue time (m ∷ ms) = Due time m × AllDue time ms

-- no module was asked before, and none can wait for longer than a duration
abbrev pub AllFresh : ℕ → List Module → Type 0
AllFresh duration [] = Unit
AllFresh duration (m ∷ ms) =
    (m.stop_suspend_timeout ≡ none) × (m.stop_suspend_duration ≤ duration) × AllFresh duration ms

limit_next : (first time : ℕ) (o : Option ℕ) → Limited o time → limit_or first o ≤ time
limit_next first time none h = absurd h
limit_next first time (some limit) h = h

check-Due :
    (suspends : Bool) (now time : ℕ) (m : Module)
    → (m.stop_suspend_callback ≡ true → stop_limit now m ≤ time)
    → Due time (check_suspend_stop suspends now m).1
unfolding check_suspend_stop
check-Due suspends now time m h =
    if-cases (λ (p : Bool × Module). Due time p.1) (not m.stop_suspend_callback) _ _
      (λ e on c. absurd (ground (arith, e, c)))
      (λ e.
        if-cases (λ (p : Bool × Module). Due time p.1) (leb (stop_limit now m) now) _ _
          (λ e on c. absurd (false≢true c))
          (λ e.
            if-cases (λ (p : Bool × Module). Due time p.1) (not suspends) _ _
              (λ e on c. absurd (false≢true c)) (λ e on c. h c)))

after_check-Due :
    (time : ℕ) (r : StopResult) (p : Bool × Module) → Due time p.1 → Due time (after_check r p).1
after_check-Due time r (true, m) h = h
after_check-Due time stopped (false, m) h = λ on c. absurd (false≢true on)
after_check-Due time failed (false, m) h = λ on c. absurd (false≢true on)
after_check-Due time pending (false, m) h = h

stop_module-Due :
    (answers : ℕ → Answer) (now time : ℕ) (m : Module)
    → (m.enabled ≡ true → m.stop_suspend_callback ≡ true → stop_limit now m ≤ time)
    → Due time (stop_module answers now m).1
unfolding stop_module
stop_module-Due answers now time m h =
    if-cases (λ (p : Bool × Module). Due time p.1) (not m.enabled) _ _
      (λ e on c. absurd (ground (arith, e, on)))
      (λ e.
        after_check-Due time (answers m.name).result
          (check_suspend_stop (answers m.name).suspends now m)
          (check-Due (answers m.name).suspends now time m (h (ground (arith, e)))))

first_round-AllDue :
    (answers : ℕ → Answer) (now duration : ℕ) (ms : List Module)
    → AllFresh duration ms
    → AllDue (now + duration) (stop_modules answers now ms).1
unfolding stop_modules
first_round-AllDue answers now duration [] h = tt
first_round-AllDue answers now duration (m ∷ ms) h = (
  stop_module-Due answers now (now + duration) m (λ on c.
      subst (λ o. limit_or (now + m.stop_suspend_duration) o ≤ now + duration) (sym h.0)
        (omega (arith, h.1))),
  first_round-AllDue answers now duration ms h.2,
)

next_round-AllDue :
    (answers : ℕ → Answer) (now time : ℕ) (ms : List Module)
    → AllDue time ms
    → AllDue time (stop_modules answers now ms).1
unfolding stop_modules
next_round-AllDue answers now time [] h = tt
next_round-AllDue answers now time (m ∷ ms) h = (
  stop_module-Due answers now time m
      (λ on c. limit_next (now + m.stop_suspend_duration) time m.stop_suspend_timeout (h.0 on c)),
  next_round-AllDue answers now time ms h.1,
)

abbrev pub IsOver : StopResult → Type 0
IsOver pending = ⊥
IsOver _ = Unit

-- each stop returns that the module has stopped or failed to
abbrev pub NeverPending : (ℕ → Answer) → Type 0
NeverPending answers = (name : ℕ) → IsOver (answers name).result

check_over :
    (suspends : Bool) (now : ℕ) (m : Module)
    → (m.stop_suspend_callback ≡ true → stop_limit now m ≤ now)
    → (check_suspend_stop suspends now m).0 ≡ false
unfolding check_suspend_stop
check_over suspends now m h =
    if-cases (λ (p : Bool × Module). p.0 ≡ false) (not m.stop_suspend_callback) _ _ (λ e. refl)
      (λ e.
        if-cases (λ (p : Bool × Module). p.0 ≡ false) (leb (stop_limit now m) now) _ _ (λ l. refl)
          (λ l. absurd (ground (arith, l, h (ground (arith, e))))))

after_check_over :
    (r : StopResult) (p : Bool × Module)
    → IsOver r
    → p.0 ≡ false
    → (after_check r p).1.enabled ≡ false
after_check_over r (true, m) h e = absurd (false≢true (sym e))
after_check_over stopped (false, m) h e = refl
after_check_over failed (false, m) h e = refl
after_check_over pending (false, m) h e = absurd h

stop_module_over :
    (answers : ℕ → Answer) (now time : ℕ) (m : Module)
    → NeverPending answers
    → time ≤ now
    → Due time m
    → (stop_module answers now m).1.enabled ≡ false
unfolding stop_module
stop_module_over answers now time m over late h =
    if-cases (λ (p : Bool × Module). p.1.enabled ≡ false) (not m.enabled) _ _
      (λ e. ground (arith, e))
      (λ e.
        after_check_over (answers m.name).result
          (check_suspend_stop (answers m.name).suspends now m) (over m.name)
          (check_over (answers m.name).suspends now m (λ c. omega (
            arith,
            late,
            limit_next (now + m.stop_suspend_duration) time m.stop_suspend_timeout
                (h (ground (arith, e)) c),
          ))))

last_round :
    (answers : ℕ → Answer) (now time : ℕ) (ms : List Module)
    → NeverPending answers
    → time ≤ now
    → AllDue time ms
    → any_enabled (stop_modules answers now ms).1 ≡ false
unfolding stop_modules
last_round answers now time [] over late h = refl
last_round answers now time (m ∷ ms) over late h =
    ap (λ b. b || any_enabled (stop_modules answers now ms).1)
      (stop_module_over answers now time m over late h.0)
    ∙ last_round answers now time ms over late h.1

-- rounds of the loop, with the answers of each and its time
unfoldable pub rounds : List ((ℕ → Answer) × ℕ) → Stopping → Stopping
unfolding run_ev_loop
rounds [] s = s
rounds ((answers, now) ∷ rs) s = rounds rs (run_ev_loop answers now s)

-- an application that stops in time, and whose modules are due
abbrev IsStoppingBy : ℕ → Stopping → Type 0
IsStoppingBy time s = (s.is_stoping ≡ true) × (s.is_timeout ≡ false) × AllDue time s.modules

round_notifies :
    (P : Stopping → Type 0) (answers : ℕ → Answer) (now : ℕ) (s : Stopping)
    → s.is_stoping ≡ true
    → s.is_timeout ≡ false
    → P (notify_modules answers now s)
    → P (run_ev_loop answers now s)
unfolding run_ev_loop
round_notifies P answers now s on early h =
    if-cases P (not s.is_stoping) _ _ (λ e. absurd (ground (arith, e, on)))
      (λ e. if-cases P s.is_timeout _ _ (λ t. absurd (false≢true (sym early ∙ t))) (λ t. h))

rounds-IsStoppingBy :
    (time : ℕ) (rs : List ((ℕ → Answer) × ℕ)) (s : Stopping)
    → IsStoppingBy time s
    → IsStoppingBy time (rounds rs s)
unfolding rounds notify_modules
rounds-IsStoppingBy time [] s h = h
rounds-IsStoppingBy time ((answers, now) ∷ rs) s h =
    rounds-IsStoppingBy time rs (run_ev_loop answers now s) (
      round_notifies (IsStoppingBy time) answers now s h.0 h.1
        (h.0, h.1, next_round-AllDue answers now time s.modules h.2))

-- An application that stops, and is not timed out, ends within the longest time for which a module may
-- suspend its stop: whatever the rounds between the first and one after that time answer, this one
-- leaves the application stopped, if no stop returns that it is pending in it.
pub stops_in_time :
    (first answers : ℕ → Answer) (start duration now : ℕ) (rs : List ((ℕ → Answer) × ℕ))
    (s : Stopping)
    → s.is_stoping ≡ true
    → s.is_timeout ≡ false
    → AllFresh duration s.modules
    → NeverPending answers
    → start + duration ≤ now
    → (run_ev_loop answers now (rounds rs (run_ev_loop first start s))).is_stopped ≡ true
unfolding notify_modules
stops_in_time first answers start duration now rs s on early fresh over late =
    let begun =
      round_notifies (IsStoppingBy (start + duration)) first start s on early
        (on, early, first_round-AllDue first start duration s.modules fresh) in
    let s' = rounds rs (run_ev_loop first start s) in
    let going = rounds-IsStoppingBy (start + duration) rs (run_ev_loop first start s) begun in
    run_ev_loop-is_stopped answers now s' going.0
    ∙ ap not (
        round_notifies (λ t. any_enabled t.modules ≡ false) answers now s' going.0 going.1
          (last_round answers now (start + duration) s'.modules over late going.2))
