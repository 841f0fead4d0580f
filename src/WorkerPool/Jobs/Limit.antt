-- ===== src/WorkerPool/Jobs/Limit.antt =====
-- The limit on the private queues.
use libatapp.Prelude.{
  ℕ, zero, suc, ◌+◌, ◌-◌, ◌≤◌, ◌≡◌, false, Option, none, some, List, [], ◌∷◌, ◌++◌, arith, length,
  length-append, inl, inr, Bool-cases, get_elem?, All,
}
use libatapp.WorkerPool.Config.{ScalingConfigure}
use libatapp.WorkerPool.Worker.{Worker, WorkerSet}
use libatapp.WorkerPool.Resize.{grow, do_scaling_up}
use libatapp.WorkerPool.Select.{Code, select_any, select_by_id}
use libatapp.WorkerPool.Jobs.{
  emplace, emplace_in, is_full, spawn_at, spawn_to, spawn_found, spawn, spawn_on,
}

module _ (conf : ScalingConfigure) where
  abbrev pub FitAll : List Worker → Type 0
  FitAll = All (λ w. length w.private_jobs ≤ conf.queue_size_limit)

  -- no private queue is longer than queue_size
  abbrev pub Fits : WorkerSet → Type 0
  Fits s = FitAll s.workers

  FitAll-append : (a b : List Worker) → FitAll a → FitAll b → FitAll (a ++ b)
  FitAll-append [] b h k = k
  FitAll-append (w ∷ a) b h k = (h.0, FitAll-append a b h.1 k)

  grow-FitAll : (s : WorkerSet) (alloc : ℕ → ℕ) (now n i : ℕ) → FitAll (grow s alloc now n i)
  grow-FitAll s alloc now zero i = tt
  grow-FitAll s alloc now (suc n) i = (omega arith, grow-FitAll s alloc now n (i + 1))

  do_scaling_up-Fits :
      (alloc : ℕ → ℕ) (now : ℕ) (s : WorkerSet) → Fits s → Fits (do_scaling_up alloc now s)
  unfolding do_scaling_up
  do_scaling_up-Fits alloc now s h = elim (Bool-cases s.need_scaling_up) [
    | inl up ↦ rw up (
        let n = length s.workers in
        let k = s.current_expect_workers - n in
        FitAll-append s.workers (grow s alloc now k n) h (grow-FitAll s alloc now k n))
    | inr same ↦ rw same h
  ]

  emplace-FitAll :
      (job i : ℕ) (ws : List Worker)
      → is_full conf (get_elem? ws i) ≡ false
      → FitAll ws
      → FitAll (emplace job i ws)
  unfolding emplace
  emplace-FitAll job i [] f h = tt
  emplace-FitAll job zero (w ∷ ws) f h =
      let longer : length (w.private_jobs ++ job ∷ []) ≡ length w.private_jobs + 1 =
        length-append w.private_jobs (job ∷ []) in
      (ground (arith, longer), h.1)
  emplace-FitAll job (suc i) (w ∷ ws) f h = (h.0, emplace-FitAll job i ws f h.1)

  spawn_at-Fits : (job : ℕ) (s : WorkerSet) (i : ℕ) → Fits s → Fits (spawn_at conf job s i).0
  unfolding emplace_in
  spawn_at-Fits job s i h = elim (Bool-cases (is_full conf (get_elem? s.workers i))) [
    | inl full ↦ rw full h
    | inr room ↦ rw room (emplace-FitAll job i s.workers room h)
  ]

  spawn_to-Fits :
      (job : ℕ) (s : WorkerSet) (place : Option ℕ) → Fits s → Fits (spawn_to conf job s place).0
  spawn_to-Fits job s none h = elim (Bool-cases s.cleaning) [
    | inl ends ↦ rw ends h
    | inr open_yet ↦ rw open_yet h
  ]
  spawn_to-Fits job s (some i) h = spawn_at-Fits job s i h

  -- spawn never takes a private queue above the configured queue_size.
  pub spawn-Fits :
      (alloc : ℕ → ℕ) (now : ℕ) (s : WorkerSet) (action : Option ℕ)
      → Fits s
      → Fits (spawn conf alloc now s action).0
  unfolding spawn
  spawn-Fits alloc now s none h = h
  spawn-Fits alloc now s (some job) h =
      spawn_to-Fits job (do_scaling_up alloc now s) (select_any alloc now s).1
        (do_scaling_up-Fits alloc now s h)

  spawn_found-Fits :
      (job : ℕ) (s : WorkerSet) (chosen : Code × Option ℕ)
      → Fits s
      → Fits (spawn_found conf job s chosen).0
  spawn_found-Fits job s (c, none) h = h
  spawn_found-Fits job s (c, some i) h = spawn_at-Fits job s i h

  -- Nor does the overload that sends a job to one worker.
  pub spawn_on-Fits :
      (alloc : ℕ → ℕ) (now : ℕ) (s : WorkerSet) (action : Option ℕ) (id : ℕ)
      → Fits s
      → Fits (spawn_on conf alloc now s action id).0
  unfolding spawn_on
  spawn_on-Fits alloc now s none id h = h
  spawn_on-Fits alloc now s (some job) id h =
      spawn_found-Fits job (do_scaling_up alloc now s) (select_by_id alloc now s id).1
        (do_scaling_up-Fits alloc now s h)
