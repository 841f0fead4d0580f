-- ===== src/WorkerPool/Jobs.antt =====
-- Where jobs go: both overloads of spawn, rebalance_jobs, stop, the main thread's share
-- (do_shared_job_on_main_thread) and what a thread does with its jobs when it ends.
pub mod Count
pub mod Spawn
pub mod Limit
pub mod Balance
pub mod Numbering
use libatapp.Prelude.{
  ℕ, zero, suc, ◌+◌, Bool, true, false, not, ◌&&◌, ◌||◌, Option, none, some, List, [], ◌∷◌, ◌++◌,
  ltb, leb, get_elem?, length, if◌then◌else◌,
}
use libatapp.WorkerPool.Config.{ScalingConfigure}
use libatapp.WorkerPool.Worker.{Worker, WorkerSet, Status, exiting, exited, is_exiting}
use libatapp.WorkerPool.Key.{Key, key_lt, make_compare_key}
use libatapp.WorkerPool.Resize.{do_scaling_up, internal_reduce_workers}
use libatapp.WorkerPool.Select.{Code, success, params, closed, busy, select_any, select_by_id}

-- worker::emplace, at a place of the list
pub emplace : ℕ → ℕ → List Worker → List Worker
emplace job i [] = []
emplace job zero (w ∷ ws) = record w { private_jobs = w.private_jobs ++ job ∷ [] } ∷ ws
emplace job (suc i) (w ∷ ws) = w ∷ emplace job i ws

unfoldable pub emplace_in : ℕ → WorkerSet → ℕ → WorkerSet
unfolding emplace
emplace_in job s i = record s { workers = emplace job i s.workers }

abbrev pub is_full : ScalingConfigure → Option Worker → Bool
is_full conf none = false
is_full conf (some w) = leb conf.queue_size_limit (length w.private_jobs)

abbrev pub id_of : Option Worker → ℕ
id_of none = 0
id_of (some w) = w.worker_id

-- what spawn gives back: the pool, the code, and the id of the context that was selected
abbrev pub Spawned : Type 0
Spawned = WorkerSet × Code × Option ℕ

abbrev pub spawn_at : ScalingConfigure → ℕ → WorkerSet → ℕ → Spawned
spawn_at conf job s i =
    if is_full conf (get_elem? s.workers i)
    then (s, busy, none)
    else (emplace_in job s i, success, some (id_of (get_elem? s.workers i)))

abbrev pub spawn_to : ScalingConfigure → ℕ → WorkerSet → Option ℕ → Spawned
spawn_to conf job s none =
    if s.cleaning
    then (s, closed, none)
    else (record s { shared_jobs = s.shared_jobs ++ job ∷ [] }, success, some 0)
spawn_to conf job s (some i) = spawn_at conf job s i

-- int spawn(const worker_job_action_pointer&, worker_context*); a null pointer is `none`
unfoldable pub spawn : ScalingConfigure → (ℕ → ℕ) → ℕ → WorkerSet → Option ℕ → Spawned
unfolding select_any emplace
spawn conf alloc now before none = (before, params, none)
spawn conf alloc now before (some job) =
    let (s, place) = select_any alloc now before in spawn_to conf job s place

abbrev pub spawn_found : ScalingConfigure → ℕ → WorkerSet → Code × Option ℕ → Spawned
spawn_found conf job s (code, none) = (s, code, none)
spawn_found conf job s (code, some i) = spawn_at conf job s i

-- int spawn(const worker_job_action_pointer&, const worker_context&)
unfoldable pub spawn_on : ScalingConfigure → (ℕ → ℕ) → ℕ → WorkerSet → Option ℕ → ℕ → Spawned
unfolding select_by_id emplace
spawn_on conf alloc now before none id = (before, params, none)
spawn_on conf alloc now before (some job) id =
    let (s, chosen) = select_by_id alloc now before id in spawn_found conf job s chosen

-- std::map<worker_compare_key, std::shared_ptr<worker>>: the keys in order
abbrev pub Order : Type 0
Order = List (Key × ℕ)

-- `workers[key] = worker_ptr`
pub put : Key → ℕ → Order → Order
put k i [] = (k, i) ∷ []
put k i ((k', i') ∷ m) =
    let later = (k', i') ∷ put k i m in
    if key_lt k k' then (k, i) ∷ (k', i') ∷ m else if key_lt k' k then later else (k, i) ∷ m

-- the loop that fills the map
pub eligible : ℕ → ℕ → ℕ → List Worker → Order → Order
unfolding put
eligible now expect i [] m = m
eligible now expect i (w ∷ ws) m =
    let go_on =
      eligible now expect (i + 1) ws
        (if is_exiting now w then m else put (make_compare_key w) i m) in
    if is_exiting now w then go_on else if ltb expect w.worker_id then m else go_on

abbrev pub rekey : ℕ → Option Worker → Order → Order
unfolding put
rekey i none m = m
rekey i (some w) m = put (make_compare_key w) i m

-- `while (shared_jobs.try_pop(job_data))`: the first of the map takes the job and is put back
pub hand_out : List ℕ → Order → List Worker → List Worker
unfolding rekey emplace
hand_out [] m ws = ws
hand_out (job ∷ jobs) [] ws = ws
hand_out (job ∷ jobs) ((k, i) ∷ m) ws =
    let ws' = emplace job i ws in hand_out jobs (rekey i (get_elem? ws' i) m) ws'

unfoldable pub handed : WorkerSet → Order → WorkerSet
unfolding hand_out
handed s [] = s
handed s (entry ∷ m) = record s {
  workers = hand_out s.shared_jobs (entry ∷ m) s.workers;
  shared_jobs = [];
}

-- nothing is done while `waiting`, the shared queue, is empty
unfoldable pub rebalance : List ℕ → (ℕ → ℕ) → ℕ → WorkerSet → WorkerSet
unfolding handed eligible do_scaling_up
rebalance [] alloc now before = before
rebalance (job ∷ waiting) alloc now before =
    let s = do_scaling_up alloc now before in
    handed s (eligible now s.current_expect_workers 0 s.workers [])

-- void rebalance_jobs()
unfoldable pub rebalance_jobs : (ℕ → ℕ) → ℕ → WorkerSet → WorkerSet
unfolding rebalance
rebalance_jobs alloc now before = rebalance before.shared_jobs alloc now before

abbrev pub leave : ℕ → List Worker → List Worker
leave i [] = []
leave zero (w ∷ ws) = record w { private_jobs = []; status = exited } ∷ ws
leave (suc i) (w ∷ ws) = w ∷ leave i ws

abbrev pub left_by : ℕ → WorkerSet → Option Worker → WorkerSet
left_by i s none = s
left_by i s (some w) = record s {
  shared_jobs = s.shared_jobs ++ w.private_jobs;
  workers = leave i s.workers;
}

-- the end of a worker's thread: its unfinished jobs go to the shared queue
unfoldable pub thread_exit : ℕ → WorkerSet → WorkerSet
thread_exit i s = left_by i s (get_elem? s.workers i)

-- a worker with jobs that has not begun to exit
abbrev pub any_busy : ℕ → List Worker → Bool
any_busy now [] = false
any_busy now (w ∷ ws) = (not (is_exiting now w) && ltb 0 (length w.private_jobs)) || any_busy now ws

abbrev pub close_set : WorkerSet → WorkerSet
close_set s = if s.closing then s else record s { closing = true; current_expect_workers = 0 }

-- int stop(): 1 while jobs are pending
unfoldable pub stop : ℕ → WorkerSet → WorkerSet × ℕ
unfolding internal_reduce_workers
stop now s =
    let s' = (internal_reduce_workers now (close_set s)).0 in
    (s', if any_busy now s'.workers || ltb 0 (length s'.shared_jobs) then 1 else 0)
