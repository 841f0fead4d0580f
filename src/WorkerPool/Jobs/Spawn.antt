-- ===== src/WorkerPool/Jobs/Spawn.antt =====
-- A job that spawn accepts is in the pool once more than before; one that it refuses is not.
use libatapp.Prelude.{
  count, count-append, ℕ, ◌+◌, ◌<◌, ◌≡◌, ◌≢◌, refl, Option, none, some, [], ◌∷◌, arith, length, inl,
  inr, Bool-cases, get_elem?,
}
use libatapp.WorkerPool.Config.{ScalingConfigure}
use libatapp.WorkerPool.Worker.{WorkerSet, IsNumbered}
use libatapp.WorkerPool.Resize.{do_scaling_up}
use libatapp.WorkerPool.Select.{Code, success, select_any, select_by_id}
use libatapp.WorkerPool.Select.Least.{select_any_least}
use libatapp.WorkerPool.Select.ById.{select_by_id_sound, select_by_id-none, select_by_id-some}
use libatapp.WorkerPool.Jobs.{
  Spawned, emplace_in, is_full, spawn_at, spawn_to, spawn_found, spawn, spawn_on,
}
use libatapp.WorkerPool.Jobs.Count.{jobs, count_private-emplace, jobs-do_scaling_up, in_range}

-- one more of `job` on success, and none on an error
abbrev pub added : ℕ → ℕ → Code → ℕ
added job j success = count j (job ∷ [])
added job j _ = 0

abbrev pub Conserves : ℕ → ℕ → WorkerSet → Spawned → Type 0
Conserves job j s (s', code, id) = jobs j s' ≡ jobs j s + added job j code

spawn_at-Conserves :
    (conf : ScalingConfigure) (job j : ℕ) (s : WorkerSet) (i : ℕ)
    → i < length s.workers
    → Conserves job j s (spawn_at conf job s i)
unfolding emplace_in
spawn_at-Conserves conf job j s i h = elim (Bool-cases (is_full conf (get_elem? s.workers i))) [
  | inl full ↦ rw full (omega arith)
  | inr room ↦ rw room (omega (arith, count_private-emplace j job i s.workers h))
]

spawn_to-Conserves :
    (conf : ScalingConfigure) (job j : ℕ) (s : WorkerSet) (place : Option ℕ)
    → ((i : ℕ) → place ≡ some i → i < length s.workers)
    → Conserves job j s (spawn_to conf job s place)
spawn_to-Conserves conf job j s none h = elim (Bool-cases s.cleaning) [
  | inl ends ↦ rw ends (omega arith)
  | inr open_yet ↦ rw open_yet (omega (arith, count-append j s.shared_jobs (job ∷ [])))
]
spawn_to-Conserves conf job j s (some i) h = spawn_at-Conserves conf job j s i (h i refl)

-- spawn puts a job that it accepts into exactly one queue, and a job that it refuses into none; no
-- other job is lost or doubled.
pub spawn-Conserves :
    (conf : ScalingConfigure) (alloc : ℕ → ℕ) (now j job : ℕ) (s : WorkerSet)
    → Conserves job j s (spawn conf alloc now s (some job))
unfolding spawn
spawn-Conserves conf alloc now j job s = omega (
  arith,
  jobs-do_scaling_up alloc now j s,
  spawn_to-Conserves conf job j (do_scaling_up alloc now s) (select_any alloc now s).1
      (λ i e. let (w, fits, _) = select_any_least alloc now s i e in in_range _ i w fits.0),
)

spawn_found-Conserves :
    (conf : ScalingConfigure) (job j : ℕ) (s : WorkerSet) (chosen : Code × Option ℕ)
    → (chosen.1 ≡ none → chosen.0 ≢ success)
    → ((i : ℕ) → chosen.1 ≡ some i → i < length s.workers)
    → Conserves job j s (spawn_found conf job s chosen)
spawn_found-Conserves conf job j s (success, none) ne h = absurd (ne refl refl)
spawn_found-Conserves conf job j s (c, none) ne h = omega arith
spawn_found-Conserves conf job j s (c, some i) ne h = spawn_at-Conserves conf job j s i (h i refl)

-- The same for a job that is sent to one worker by its id.
spawn_on-Conserves :
    (conf : ScalingConfigure) (alloc : ℕ → ℕ) (now j job id : ℕ) (s : WorkerSet)
    → IsNumbered s
    → Conserves job j s (spawn_on conf alloc now s (some job) id)
unfolding spawn_on
spawn_on-Conserves conf alloc now j job id s h = omega (
  arith,
  jobs-do_scaling_up alloc now j s,
  spawn_found-Conserves conf job j (do_scaling_up alloc now s) (select_by_id alloc now s id).1
      (select_by_id-none alloc now s id)
      (λ i e.
        let (_, _, w, there, _, _) =
          select_by_id_sound alloc now s id i h (select_by_id-some alloc now s id i e) in
        in_range _ i w there),
)
