-- ===== src/WorkerPool/Resize/Time.antt =====
-- Sums of the CPU time that is not collected yet, over a list of workers.
use mathlib.Core.List.{reverse, reverse-cons}
use libatapp.Prelude.{ℕ, ◌+◌, ◌≡◌, refl, ap, List, [], ◌∷◌, ◌++◌, arith}
use libatapp.WorkerPool.Worker.{Worker, collect_up, collect_down}

abbrev pub sum_up : List Worker → ℕ
sum_up [] = 0
sum_up (w ∷ ws) = collect_up w + sum_up ws

abbrev pub sum_down : List Worker → ℕ
sum_down [] = 0
sum_down (w ∷ ws) = collect_down w + sum_down ws

pub sum_up-append : (a b : List Worker) → sum_up (a ++ b) ≡ sum_up a + sum_up b
sum_up-append [] b = omega arith
sum_up-append (w ∷ a) b = omega (arith, sum_up-append a b)

pub sum_down-append : (a b : List Worker) → sum_down (a ++ b) ≡ sum_down a + sum_down b
sum_down-append [] b = omega arith
sum_down-append (w ∷ a) b = omega (arith, sum_down-append a b)

pub sum_up-reverse : (a : List Worker) → sum_up (reverse a) ≡ sum_up a
sum_up-reverse [] = refl
sum_up-reverse (w ∷ a) =
    omega
      (arith, ap sum_up (reverse-cons w a), sum_up-append (reverse a) (w ∷ []), sum_up-reverse a)

pub sum_down-reverse : (a : List Worker) → sum_down (reverse a) ≡ sum_down a
sum_down-reverse [] = refl
sum_down-reverse (w ∷ a) = omega (
  arith,
  ap sum_down (reverse-cons w a),
  sum_down-append (reverse a) (w ∷ []),
  sum_down-reverse a,
)
