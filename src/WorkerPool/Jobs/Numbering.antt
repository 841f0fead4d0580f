-- ===== src/WorkerPool/Jobs/Numbering.antt =====
-- Handing out jobs keeps the ids of the workers.
use libatapp.Prelude.{ℕ, zero, suc, ◌+◌, Option, none, some, List, [], ◌∷◌, get_elem?}
use libatapp.WorkerPool.Worker.{Worker, WorkerSet, IsNumbered, IsNumberedFrom}
use libatapp.WorkerPool.Resize.{do_scaling_up}
use libatapp.WorkerPool.Resize.Numbering.{do_scaling_up-IsNumbered}
use libatapp.WorkerPool.Jobs.{
  Order, emplace, rekey, hand_out, handed, rebalance, rebalance_jobs, leave, left_by, thread_exit,
  eligible,
}

pub emplace-IsNumbered :
    (job i n : ℕ) (ws : List Worker) → IsNumberedFrom n ws → IsNumberedFrom n (emplace job i ws)
unfolding emplace
emplace-IsNumbered job i n [] h = h
emplace-IsNumbered job zero n (w ∷ ws) h = h
emplace-IsNumbered job (suc i) n (w ∷ ws) h = (h.0, emplace-IsNumbered job i (n + 1) ws h.1)

hand_out-IsNumbered :
    (n : ℕ) (queue : List ℕ) (m : Order) (ws : List Worker)
    → IsNumberedFrom n ws
    → IsNumberedFrom n (hand_out queue m ws)
unfolding hand_out
hand_out-IsNumbered n [] m ws h = h
hand_out-IsNumbered n (job ∷ queue) [] ws h = h
hand_out-IsNumbered n (job ∷ queue) ((k, i) ∷ m) ws h =
    let ws' = emplace job i ws in
    hand_out-IsNumbered n queue (rekey i (get_elem? ws' i) m) ws' (emplace-IsNumbered job i n ws h)

handed-IsNumbered : (s : WorkerSet) (m : Order) → IsNumbered s → IsNumbered (handed s m)
unfolding handed
handed-IsNumbered s [] h = h
handed-IsNumbered s (e ∷ m) h = hand_out-IsNumbered 1 s.shared_jobs (e ∷ m) s.workers h

rebalance-IsNumbered :
    (waiting : List ℕ) (alloc : ℕ → ℕ) (now : ℕ) (s : WorkerSet)
    → IsNumbered s
    → IsNumbered (rebalance waiting alloc now s)
unfolding rebalance
rebalance-IsNumbered [] alloc now s h = h
rebalance-IsNumbered (job ∷ waiting) alloc now s h =
    let s' = do_scaling_up alloc now s in
    handed-IsNumbered s' (eligible now s'.current_expect_workers 0 s'.workers [])
      (do_scaling_up-IsNumbered alloc now s h).0

pub rebalance_jobs-IsNumbered :
    (alloc : ℕ → ℕ) (now : ℕ) (s : WorkerSet)
    → IsNumbered s
    → IsNumbered (rebalance_jobs alloc now s)
unfolding rebalance_jobs
rebalance_jobs-IsNumbered alloc now s h = rebalance-IsNumbered s.shared_jobs alloc now s h

leave-IsNumbered :
    (i n : ℕ) (ws : List Worker) → IsNumberedFrom n ws → IsNumberedFrom n (leave i ws)
leave-IsNumbered i n [] h = h
leave-IsNumbered zero n (w ∷ ws) h = h
leave-IsNumbered (suc i) n (w ∷ ws) h = (h.0, leave-IsNumbered i (n + 1) ws h.1)

left_by-IsNumbered :
    (i : ℕ) (s : WorkerSet) (o : Option Worker) → IsNumbered s → IsNumbered (left_by i s o)
left_by-IsNumbered i s none h = h
left_by-IsNumbered i s (some w) h = leave-IsNumbered i 1 s.workers h

pub thread_exit-IsNumbered : (i : ℕ) (s : WorkerSet) → IsNumbered s → IsNumbered (thread_exit i s)
unfolding thread_exit
thread_exit-IsNumbered i s h = left_by-IsNumbered i s (get_elem? s.workers i) h
