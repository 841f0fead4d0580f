-- ===== src/WorkerPool/Jobs/Balance.antt =====
-- rebalance_jobs and the end of a thread lose no job.
use mathlib.Core.Path.{subst}
use libatapp.Prelude.{
  count, count-append, ℕ, zero, suc, ◌+◌, ◌⊎◌, ◌<◌, ◌≤◌, ◌≡◌, refl, ap, ◌∙◌, sym, Option, none,
  some, List, [], ◌∷◌, arith, ltb, length, inl, inr, Bool-cases, get_elem?, All, some_inj,
  none-ne-some,
}
use libatapp.WorkerPool.Worker.{Worker, WorkerSet, is_exiting}
use libatapp.WorkerPool.Key.{Key, key_lt, make_compare_key}
use libatapp.WorkerPool.Resize.{do_scaling_up}
use libatapp.WorkerPool.Jobs.{
  Order, emplace, put, eligible, hand_out, handed, rebalance, rebalance_jobs, leave, left_by,
  thread_exit,
}
use libatapp.WorkerPool.Jobs.Count.{
  count_private, jobs, count_private-emplace, length-emplace, jobs-do_scaling_up,
}

abbrev InRange : ℕ → Order → Type 0
InRange n = All (λ e. e.1 < n)

put-InRange : (n : ℕ) (k : Key) (i : ℕ) (m : Order) → i < n → InRange n m → InRange n (put k i m)
unfolding put
put-InRange n k i [] h a = (h, tt)
put-InRange n k i ((k', i') ∷ m) h a = ground (arith, put-InRange n k i m h a.1)

put-some : (k : Key) (i : ℕ) (m : Order) → (e : Key × ℕ) × (m' : Order) × (put k i m ≡ e ∷ m')
unfolding put
put-some k i [] = ((k, i), [], refl)
put-some k i ((k', i') ∷ m) = elim (Bool-cases (key_lt k k')) [
  | inl first ↦ ((k, i), ((k', i') ∷ m), rw first refl)
  | inr later ↦ elim (Bool-cases (key_lt k' k)) [
    | inl after ↦ ((k', i'), put k i m, rw (later, after) refl)
    | inr same ↦ ((k, i), m, rw (later, same) refl)
  ]
]

eligible-InRange :
    (now expect i n : ℕ) (ws : List Worker) (m : Order)
    → i + length ws ≤ n
    → InRange n m
    → InRange n (eligible now expect i ws m)
unfolding eligible
eligible-InRange now expect i n [] m h a = a
eligible-InRange now expect i n (w ∷ ws) m h a = elim (Bool-cases (is_exiting now w)) [
  | inl out ↦ rw out (eligible-InRange now expect (i + 1) n ws m (omega arith) a)
  | inr here ↦ rw here (elim (Bool-cases (ltb expect w.worker_id)) [
    | inl over ↦ rw over a
    | inr within ↦ rw within (
        eligible-InRange now expect (i + 1) n ws _ (omega arith)
          (put-InRange n (make_compare_key w) i m (omega arith) a))
  ])
]

elem_at : (ws : List Worker) (i : ℕ) → i < length ws → (w : Worker) × (get_elem? ws i ≡ some w)
elem_at [] i h = absurd (omega arith)
elem_at (w ∷ ws) zero h = (w, refl)
elem_at (w ∷ ws) (suc i) h = elem_at ws i (omega arith)

hand_out-count :
    (j : ℕ) (queue : List ℕ) (e : Key × ℕ) (m : Order) (ws : List Worker)
    → InRange (length ws) (e ∷ m)
    → count_private j (hand_out queue (e ∷ m) ws) ≡ count_private j ws + count j queue
unfolding hand_out
hand_out-count j [] e m ws h = omega arith
hand_out-count j (job ∷ queue) (k, i) m ws h =
    let ws' = emplace job i ws in
    let same : length ws' ≡ length ws = length-emplace job i ws in
    let (w, there) = elem_at ws' i (omega (arith, h.0)) in
    let (e', m', is_put) = put-some (make_compare_key w) i m in
    let inside : InRange (length ws') (e' ∷ m') = subst (InRange (length ws')) is_put (
      put-InRange (length ws') (make_compare_key w) i m (omega (arith, h.0))
        (subst (λ n. InRange n m) (sym same) h.1)) in
    rw (there, is_put)
      (omega (arith, hand_out-count j queue e' m' ws' inside, count_private-emplace j job i ws h.0))

-- every job is kept, and none stays in the shared queue where the map has a worker
abbrev IsHanded : WorkerSet → Order → WorkerSet → Type 0
IsHanded s m s' = ((j : ℕ) → jobs j s' ≡ jobs j s) × ((s'.shared_jobs ≡ []) ⊎ (m ≡ []))

handed-IsHanded :
    (s : WorkerSet) (m : Order) → InRange (length s.workers) m → IsHanded s m (handed s m)
unfolding handed
handed-IsHanded s [] h = ((λ j. refl), inr refl)
handed-IsHanded s (e ∷ m) h =
    ((λ j. omega (arith, hand_out-count j s.shared_jobs e m s.workers h)), inl refl)

-- the map of the workers that rebalance_jobs gives jobs to
abbrev pub takers : (ℕ → ℕ) → ℕ → WorkerSet → Order
unfolding eligible
takers alloc now s =
    let s' = do_scaling_up alloc now s in eligible now s'.current_expect_workers 0 s'.workers []

rebalance-IsHanded :
    (waiting : List ℕ) (alloc : ℕ → ℕ) (now : ℕ) (s : WorkerSet)
    → s.shared_jobs ≡ waiting
    → IsHanded s (takers alloc now s) (rebalance waiting alloc now s)
unfolding rebalance
rebalance-IsHanded [] alloc now s e = ((λ j. refl), inl e)
rebalance-IsHanded (job ∷ waiting) alloc now s e =
    let s' = do_scaling_up alloc now s in
    let (kept, empty) = handed-IsHanded s' (takers alloc now s) (
      eligible-InRange now s'.current_expect_workers 0 (length s'.workers) s'.workers []
        (omega arith) tt) in
    ((λ j. kept j ∙ jobs-do_scaling_up alloc now j s), empty)

-- Rebalancing loses no job and doubles none, and leaves none in the shared queue where some worker
-- may take jobs.
pub rebalance_jobs_lem :
    (alloc : ℕ → ℕ) (now : ℕ) (s : WorkerSet)
    → let s' = rebalance_jobs alloc now s in
      ((j : ℕ) → jobs j s' ≡ jobs j s) × ((s'.shared_jobs ≡ []) ⊎ (takers alloc now s ≡ []))
unfolding rebalance_jobs
rebalance_jobs_lem alloc now s = rebalance-IsHanded s.shared_jobs alloc now s refl

count_private-leave :
    (j i : ℕ) (ws : List Worker) (w : Worker)
    → get_elem? ws i ≡ some w
    → count j w.private_jobs + count_private j (leave i ws) ≡ count_private j ws
count_private-leave j i [] w e = absurd (none-ne-some e)
count_private-leave j zero (x ∷ ws) w e =
    let same : count j x.private_jobs ≡ count j w.private_jobs =
      ap (λ (v : Worker). count j v.private_jobs) (some_inj e) in
    omega (arith, same)
count_private-leave j (suc i) (x ∷ ws) w e = omega (arith, count_private-leave j i ws w e)

left_by-jobs :
    (i j : ℕ) (s : WorkerSet) (o : Option Worker)
    → get_elem? s.workers i ≡ o
    → jobs j (left_by i s o) ≡ jobs j s
left_by-jobs i j s none e = refl
left_by-jobs i j s (some w) e =
    omega
      (arith, count-append j s.shared_jobs w.private_jobs, count_private-leave j i s.workers w e)

-- A thread that ends loses no job: what its own queue held goes to the shared one.
pub thread_exit-jobs : (i j : ℕ) (s : WorkerSet) → jobs j (thread_exit i s) ≡ jobs j s
unfolding thread_exit
thread_exit-jobs i j s = left_by-jobs i j s (get_elem? s.workers i) refl
