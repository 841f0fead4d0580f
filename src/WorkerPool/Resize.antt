-- ===== src/WorkerPool/Resize.antt =====
-- do_scaling_up, internal_reduce_workers and internal_autofix_workers: how the list of workers grows
-- and shrinks. `alloc` gives the addresses of new workers.
pub mod Numbering
pub mod Time
pub mod Shrink
pub mod Autofix
use mathlib.Core.List.{reverse}
use libatapp.Prelude.{
  ℕ, zero, suc, ◌+◌, ◌-◌, Bool, true, false, ◌&&◌, ◌||◌, not, List, [], ◌∷◌, ◌++◌, length,
  if◌then◌else◌,
}
use libatapp.WorkerPool.Worker.{
  Worker, WorkerSet, is_exited, make_worker, collect_up, collect_down, collected_up, collected_down,
}

-- `for (i = workers.size(); i < expect_workers; ++i)`, on the rounds left
abbrev pub grow : WorkerSet → (ℕ → ℕ) → ℕ → ℕ → ℕ → List Worker
grow owner alloc now zero i = []
grow owner alloc now (suc n) i =
    make_worker owner (i + 1) now (alloc i) ∷ grow owner alloc now n (i + 1)

unfoldable pub do_scaling_up : (ℕ → ℕ) → ℕ → WorkerSet → WorkerSet
do_scaling_up alloc now s =
    if s.need_scaling_up
    then record s {
      need_scaling_up = false;
      workers =
          s.workers
          ++ grow s alloc now (s.current_expect_workers - length s.workers) (length s.workers);
    }
    else s

-- the workers that are left, last first, and the CPU time of those taken off
pub record Reduced : Type 0 where
  pub left : List Worker
  pub up : ℕ
  pub down : ℕ

abbrev pub add_time : Worker → Reduced → Reduced
add_time w r = record r { up = collect_up w + r.up; down = collect_down w + r.down }

-- `while (workers.size() > expect_workers)`, over the workers last first; `n` is how many too many
pub reduce_from_back : ℕ → ℕ → List Worker → Reduced
reduce_from_back now zero ws = record { left = ws; up = 0; down = 0 }
reduce_from_back now (suc n) [] = record { left = []; up = 0; down = 0 }
reduce_from_back now (suc n) (w ∷ ws) =
    let popped = add_time w (reduce_from_back now n ws) in
    if is_exited now w then popped else record { left = w ∷ ws; up = 0; down = 0 }

abbrev pub expected : WorkerSet → ℕ
expected s = if s.closing then 0 else s.current_expect_workers

abbrev pub after_reduce : WorkerSet → Reduced → WorkerSet
after_reduce s r = record s {
  workers = reverse r.left;
  removed_scaling_up = s.removed_scaling_up + r.up;
  removed_scaling_down = s.removed_scaling_down + r.down;
}

abbrev has_some : List Worker → Bool
has_some [] = false
has_some (w ∷ ws) = true

-- Returns whether a worker is left.
unfoldable pub internal_reduce_workers : ℕ → WorkerSet → WorkerSet × Bool
unfolding reduce_from_back
internal_reduce_workers now s =
    let s' =
      after_reduce s (reduce_from_back now (length s.workers - expected s) (reverse s.workers)) in
    (s', has_some s'.workers)

-- one of the first `n` workers has exited
abbrev pub any_exited : ℕ → ℕ → List Worker → Bool
any_exited now zero ws = false
any_exited now (suc n) [] = false
any_exited now (suc n) (w ∷ ws) = is_exited now w || any_exited now n ws

-- the workers that have not exited, in order, and the CPU time of those that have
unfoldable pub drop_exited : ℕ → List Worker → Reduced
drop_exited now [] = record { left = []; up = 0; down = 0 }
drop_exited now (w ∷ ws) =
    let rest = drop_exited now ws in
    if is_exited now w then add_time w rest else record rest { left = w ∷ rest.left }

abbrev pub renumber : ℕ → List Worker → List Worker
renumber n [] = []
renumber n (w ∷ ws) = record w { worker_id = n } ∷ renumber (n + 1) ws

abbrev pub fixed : WorkerSet → Reduced → WorkerSet
fixed s r = record s {
  workers = renumber 1 r.left;
  removed_scaling_up = s.removed_scaling_up + r.up;
  removed_scaling_down = s.removed_scaling_down + r.down;
}

unfoldable pub internal_autofix_workers : ℕ → WorkerSet → WorkerSet
unfolding drop_exited
internal_autofix_workers now s =
    if any_exited now (expected s) s.workers then fixed s (drop_exited now s.workers) else s
