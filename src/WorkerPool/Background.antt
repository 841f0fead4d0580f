-- ===== src/WorkerPool/Background.antt =====
-- What a thread does in one round: worker::background_job_tick and, for the main thread,
-- do_shared_job_on_main_thread; and reset_tick_interval. Intervals are microseconds.
pub mod Rounds
use libatapp.Prelude.{
  ℕ, zero, suc, ◌+◌, ◌-◌, ◌*◌, ◌/◌, Bool, true, false, ◌&&◌, Option, none, some, List, [], ◌∷◌, ltb,
  leb, if◌then◌else◌,
}
use libatapp.WorkerPool.Worker.{Worker, WorkerSet}
use libatapp.WorkerPool.Select.{select_by_id}

-- A job in a queue: it has no action, an action that is an empty function, or one to call.
pub data Action : Type 0 where
  missing empty callable : Action

-- the jobs that were called, in order, and those that are still in the queue
pub record Worked : Type 0 where
  pub called : List ℕ
  pub left : List ℕ

-- no_action_counter after a job: only whether it is above 0 matters
abbrev pub next_counter : Action → ℕ → ℕ
next_counter missing n = n
next_counter empty n = n - 1
next_counter callable n = 0

abbrev pub call : Action → ℕ → List ℕ → List ℕ
call callable job called = job ∷ called
call empty job called = called
call missing job called = called

-- what the round of a worker does: its jobs, then its tick actions, then the next interval
pub record Round : Type 0 where
  pub worked : Worked
  pub ticked : List ℕ
  pub interval : ℕ

abbrev pub halve_or_double : ℕ → ℕ → ℕ
halve_or_double cost current =
    if leb (cost + cost) current
    then current / 2
    else if leb current cost
    then current * 2
    else current

abbrev pub raise : ℕ → ℕ → ℕ
raise low n = if ltb n low then low else n

abbrev pub cap : ℕ → ℕ → ℕ
cap high n = if ltb high n then high else n

abbrev pub lowest : ℕ → ℕ
lowest tick_min = if ltb tick_min 1 then 4 else tick_min

abbrev pub next_interval : ℕ → ℕ → ℕ → ℕ → ℕ
next_interval cost current tick_min tick_max =
    let low = lowest tick_min in cap (raise low tick_max) (raise low (halve_or_double cost current))

abbrev pub has_any : List ℕ → Bool
has_any [] = false
has_any (h ∷ hs) = true

-- the parameters: what each job holds, and the time since the start after so many jobs
module _ (action : ℕ → Action) (elapsed : ℕ → ℕ) where
  -- `while (try_pop(job_data))`, with a look at the clock only where the counter is used up
  pub run_jobs : ℕ → ℕ → ℕ → List ℕ → Worked
  run_jobs interval counter n [] = record { called = []; left = [] }
  run_jobs interval counter n (job ∷ jobs) =
      let counter' = next_counter (action job) counter in
      let rest = run_jobs interval counter' (n + 1) jobs in
      if leb counter' 0 && leb interval (elapsed (n + 1))
      then record { called = call (action job) job []; left = jobs }
      else record rest { called = call (action job) job rest.called }

  -- void background_job_tick(current, min, max); `cost` is the time until the tick actions have run.
  -- The interval stays as it is where there is no tick action.
  unfoldable pub background_job_tick : ℕ → ℕ → ℕ → ℕ → Worker → Round
  unfolding run_jobs
  background_job_tick cost current tick_min tick_max w = record {
    worked = run_jobs current 256 0 w.private_jobs;
    ticked = w.tick_handles;
    interval =
        if has_any w.tick_handles
        then next_interval cost current tick_min tick_max
        else w.tick_interval;
  }

  -- void do_shared_job_on_main_thread()
  unfoldable pub do_shared_job_on_main_thread : WorkerSet → WorkerSet × List ℕ
  unfolding run_jobs
  do_shared_job_on_main_thread s =
      let interval = if leb s.tick_max_us 0 then 8000 else s.tick_max_us in
      let r = run_jobs interval 256 0 s.shared_jobs in (record s { shared_jobs = r.left }, r.called)

abbrev pub set_interval : ℕ → ℕ → List Worker → List Worker
set_interval us i [] = []
set_interval us zero (w ∷ ws) = record w { tick_interval = us } ∷ ws
set_interval us (suc i) (w ∷ ws) = w ∷ set_interval us i ws

abbrev pub clamp : ℕ → ℕ → ℕ → ℕ
clamp low high us =
    let raised = if ltb us low then low else us in if ltb high raised then high else raised

abbrev pub reset_at : ℕ → WorkerSet → Option ℕ → WorkerSet × Bool
reset_at us s none = (s, false)
reset_at us s (some i) =
    (record s { workers = set_interval (clamp s.tick_min_us s.tick_max_us us) i s.workers }, true)

-- bool reset_tick_interval(context, new_tick_interval)
unfoldable pub reset_tick_interval : (ℕ → ℕ) → ℕ → WorkerSet → ℕ → ℕ → WorkerSet × Bool
unfolding select_by_id
reset_tick_interval alloc now before id us =
    let (s, (code, place)) = select_by_id alloc now before id in reset_at us s place
