-- ===== src/WorkerPool/Jobs/Count.antt =====
-- How often a job stands in the pool.
use libatapp.Prelude.{
  count, count-append, ℕ, zero, suc, ◌+◌, ◌-◌, ◌<◌, ◌≡◌, refl, ap, List, [], ◌∷◌, ◌++◌, arith,
  length, inl, inr, Bool-cases, get_elem?, some,
}
use libatapp.WorkerPool.Worker.{Worker, WorkerSet}
use libatapp.WorkerPool.Resize.{grow, do_scaling_up}
use libatapp.WorkerPool.Jobs.{emplace}

abbrev pub count_private : ℕ → List Worker → ℕ
count_private j [] = 0
count_private j (w ∷ ws) = count j w.private_jobs + count_private j ws

-- in the shared queue and in the queues of all workers
abbrev pub jobs : ℕ → WorkerSet → ℕ
jobs j s = count j s.shared_jobs + count_private j s.workers

pub count_private-append :
    (j : ℕ) (a b : List Worker) → count_private j (a ++ b) ≡ count_private j a + count_private j b
count_private-append j [] b = omega arith
count_private-append j (w ∷ a) b = omega (arith, count_private-append j a b)

pub count_private-emplace :
    (j job i : ℕ) (ws : List Worker)
    → i < length ws
    → count_private j (emplace job i ws) ≡ count_private j ws + count j (job ∷ [])
unfolding emplace
count_private-emplace j job i [] h = absurd (omega arith)
count_private-emplace j job zero (w ∷ ws) h =
    omega (arith, count-append j w.private_jobs (job ∷ []))
count_private-emplace j job (suc i) (w ∷ ws) h =
    omega (arith, count_private-emplace j job i ws (omega arith))

pub length-emplace : (job i : ℕ) (ws : List Worker) → length (emplace job i ws) ≡ length ws
unfolding emplace
length-emplace job i [] = refl
length-emplace job zero (w ∷ ws) = refl
length-emplace job (suc i) (w ∷ ws) = ap suc (length-emplace job i ws)

count_private-grow :
    (s : WorkerSet) (alloc : ℕ → ℕ) (j now n i : ℕ) → count_private j (grow s alloc now n i) ≡ 0
count_private-grow s alloc j now zero i = refl
count_private-grow s alloc j now (suc n) i =
    omega (arith, count_private-grow s alloc j now n (i + 1))

-- New workers have no jobs.
pub jobs-do_scaling_up :
    (alloc : ℕ → ℕ) (now j : ℕ) (s : WorkerSet) → jobs j (do_scaling_up alloc now s) ≡ jobs j s
unfolding do_scaling_up
jobs-do_scaling_up alloc now j s = elim (Bool-cases s.need_scaling_up) [
  | inl up ↦ rw up (
      let n = length s.workers in
      let k = s.current_expect_workers - n in
      omega (
        arith,
        count_private-append j s.workers (grow s alloc now k n),
        count_private-grow s alloc j now k n,
      ))
  | inr same ↦ rw same refl
]

pub in_range : (ws : List Worker) (i : ℕ) (w : Worker) → get_elem? ws i ≡ some w → i < length ws
in_range [] i w e = cc
in_range (x ∷ ws) zero w e = omega arith
in_range (x ∷ ws) (suc i) w e = omega (arith, in_range ws i w e)
