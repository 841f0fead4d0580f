-- ===== src/WorkerPool/Background/Rounds.antt =====
-- One round calls jobs in the order of the queue, each at most once, and ends.
use Prim.Native.Nat.{max}
use libatapp.Prelude.{
  ℕ, suc, ◌+◌, ◌≤◌, ◌≡◌, ◌⊎◌, refl, ap, Bool, false, ◌&&◌, List, [], ◌∷◌, ◌++◌, arith, inl, inr,
  Bool-cases, length, if◌then◌else◌, leb,
}
use libatapp.WorkerPool.Worker.{Worker, WorkerSet}
use libatapp.WorkerPool.Background.{
  Action, Worked, next_counter, call, run_jobs, background_job_tick, do_shared_job_on_main_thread,
  has_any, lowest,
}

module _ (action : ℕ → Action) (elapsed : ℕ → ℕ) where
  -- the jobs of a list that have something to call
  abbrev pub callables : List ℕ → List ℕ
  callables [] = []
  callables (job ∷ jobs) = call (action job) job (callables jobs)

  -- A round takes a front part of the queue, calls what is callable in it in order, and leaves the
  -- rest as it was; it leaves something only where the interval has passed by then.
  pub record IsRound (interval n : ℕ) (queue : List ℕ) (r : Worked) (taken : List ℕ) : Type 0 where
    pub split : queue ≡ taken ++ r.left
    pub all_called : r.called ≡ callables taken
    pub on_time : (r.left ≡ []) ⊎ (interval ≤ elapsed (n + length taken))

  run-IsRound :
      (interval counter n : ℕ) (queue : List ℕ)
      → (taken : List ℕ) × IsRound interval n queue
          (run_jobs action elapsed interval counter n queue)
          taken
  unfolding run_jobs
  run-IsRound interval counter n [] =
      ([], record { split = refl; all_called = refl; on_time = inl refl })
  run-IsRound interval counter n (job ∷ jobs) = elim (Bool-cases ends) [
    | inl stop ↦
        rw (stop, run_jobs)
          (
            job ∷ [],
            record { split = refl; all_called = refl; on_time = inr (ground (arith, stop)) },
          )
    | inr goes ↦
        rw (goes, run_jobs)
          (let (taken, r) = run-IsRound interval counter' (n + 1) jobs in
            (
              job ∷ taken,
              record {
                split = ap (λ l. job ∷ l) r.split;
                all_called = ap (call (action job) job) r.all_called;
                on_time =
                    later taken (run_jobs action elapsed interval counter' (n + 1) jobs) r.on_time;
              },
            ))
  ]
    where
      counter' : ℕ
      counter' = next_counter (action job) counter

      ends : Bool
      ends = leb counter' 0 && leb interval (elapsed (n + 1))

      later :
          (taken : List ℕ) (r : Worked)
          → (r.left ≡ []) ⊎ (interval ≤ elapsed (n + 1 + length taken))
          → (r.left ≡ []) ⊎ (interval ≤ elapsed (n + suc (length taken)))
      later taken r (inl e) = inl e
      later taken r (inr le) =
          let shift : n + suc (length taken) ≡ n + 1 + length taken = omega arith in
          inr (rw shift le)

  -- A worker's round takes a front part of its queue, calls in order what is callable in it, and goes
  -- on until the queue is empty or the interval is over. With tick actions the next interval lies
  -- between the least one and the greater of the least and the greatest one.
  pub background_job_tick_lem :
      (cost current tick_min tick_max : ℕ) (w : Worker)
      → let r = background_job_tick action elapsed cost current tick_min tick_max w in
        ((taken : List ℕ) × IsRound current 0 w.private_jobs r.worked taken)
        × ((has_any w.tick_handles ≡ false)
            ⊎ ((lowest tick_min ≤ r.interval) × (r.interval ≤ max tick_max (lowest tick_min))))
  unfolding background_job_tick
  background_job_tick_lem cost current tick_min tick_max w = (
    run-IsRound current 256 0 w.private_jobs,
    elim (Bool-cases (has_any w.tick_handles)) [
      | inl ticks ↦ inr (rw ticks (ground arith))
      | inr rests ↦ inl rests
    ],
  )

  -- The main thread calls jobs of the shared queue alone, in order, and only while the interval
  -- lasts: what it does not take stays in the queue.
  do_shared_job_lem :
      (s : WorkerSet)
      → let (s', called) = do_shared_job_on_main_thread action elapsed s in
        (taken : List ℕ) × (s.shared_jobs ≡ taken ++ s'.shared_jobs)
        × (called ≡ callables taken)
        × (s'.workers ≡ s.workers)
  unfolding do_shared_job_on_main_thread
  do_shared_job_lem s =
      let (taken, r) =
        run-IsRound (if leb s.tick_max_us 0 then 8000 else s.tick_max_us) 256 0 s.shared_jobs in
      (taken, r.split, r.all_called, refl)
