-- ===== src/WorkerPool/Select.antt =====
-- select_worker, both overloads: which worker takes a job. A worker is named by its place in the
-- list, as the source keeps a pointer to it.
pub mod ById
pub mod Least
use libatapp.Prelude.{
  ℕ, zero, suc, ◌+◌, ◌-◌, Bool, true, false, Option, none, some, List, [], ◌∷◌, ltb, leb, ◌==◌,
  get_elem?, if◌then◌else◌,
}
use libatapp.WorkerPool.Worker.{Worker, WorkerSet, is_exiting}
use libatapp.WorkerPool.Key.{Key, key_lt, max_key, make_compare_key}
use libatapp.WorkerPool.Resize.{do_scaling_up}

-- the error codes that the pool gives back
pub data Code : Type 0 where
  success params closed busy no_available_worker : Code

-- "Find by worker id: O(n)"
pub find_id : ℕ → ℕ → List Worker → Option ℕ
find_id id i [] = none
find_id id i (w ∷ ws) = if w.worker_id == id then some i else find_id id (i + 1) ws

-- "Find by index: O(1)", kept only if the worker there has the id
abbrev pub has_id : ℕ → ℕ → Option Worker → Option ℕ
has_id id i none = none
has_id id i (some w) = if w.worker_id == id then some i else none

abbrev pub or_else : Option ℕ → Option ℕ → Option ℕ
or_else none other = other
or_else (some i) other = some i

abbrev pub not_exiting : ℕ → List Worker → Option ℕ → Option ℕ
not_exiting now ws none = none
not_exiting now ws (some i) = elim (get_elem? ws i) [
  | none ↦ none
  | some w ↦ if is_exiting now w then none else some i
]

abbrev pub unavailable : WorkerSet → Code
unavailable s = if s.closing then closed else no_available_worker

-- the place of the worker with the id `id`
pub place_of : ℕ → WorkerSet → ℕ → Option ℕ
unfolding find_id
place_of now s id =
    not_exiting now s.workers
      (or_else (has_id id (id - 1) (get_elem? s.workers (id - 1))) (find_id id 0 s.workers))

abbrev pub found_or : Code → Option ℕ → Code × Option ℕ
found_or code none = (code, none)
found_or code (some i) = (success, some i)

-- int select_worker(const worker_context&, std::shared_ptr<worker>&)
unfoldable pub select_by_id : (ℕ → ℕ) → ℕ → WorkerSet → ℕ → WorkerSet × (Code × Option ℕ)
unfolding place_of do_scaling_up
select_by_id alloc now before id =
    let s = do_scaling_up alloc now before in
    (
      s,
      if id == 0
          then (params, none)
          else if ltb s.current_expect_workers id
          then (unavailable s, none)
          else found_or (unavailable s) (place_of now s id),
    )

-- a candidate, with its key
abbrev pub Best : Type 0
Best = Key × Option ℕ

abbrev pub better : Best → ℕ → Worker → Best
better best i w = if key_lt (make_compare_key w) best.0 then (make_compare_key w, some i) else best

-- the loop over the workers: exiting ones are passed over, and an id above the expected number ends
-- it
pub pick : ℕ → ℕ → ℕ → Best → List Worker → Best
pick now expect i best [] = best
pick now expect i best (w ∷ ws) =
    let go_on = pick now expect (i + 1) (if is_exiting now w then best else better best i w) ws in
    if is_exiting now w then go_on else if ltb expect w.worker_id then best else go_on

-- std::shared_ptr<worker> select_worker()
unfoldable pub select_any : (ℕ → ℕ) → ℕ → WorkerSet → WorkerSet × Option ℕ
unfolding pick key_lt do_scaling_up
select_any alloc now before =
    let s = do_scaling_up alloc now before in
    (s, (pick now s.current_expect_workers 0 (max_key, none) s.workers).1)
