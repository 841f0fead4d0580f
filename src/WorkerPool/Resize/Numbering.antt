-- ===== src/WorkerPool/Resize/Numbering.antt =====
-- do_scaling_up and the numbering of the workers.
use mathlib.Core.Path.{subst}
use Prim.Native.Nat.{max}
use libatapp.Prelude.{
  ℕ, zero, suc, ◌+◌, ◌-◌, ◌≡◌, refl, ap, false, List, [], ◌∷◌, ◌++◌, arith, length, length-append,
  if◌then◌else◌, inl, inr, Bool-cases,
}
use libatapp.WorkerPool.Worker.{Worker, WorkerSet, IsNumbered, IsNumberedFrom}
use libatapp.WorkerPool.Resize.{grow, do_scaling_up}

pub IsNumberedFrom-prefix :
    (n : ℕ) (a b : List Worker) → IsNumberedFrom n (a ++ b) → IsNumberedFrom n a
IsNumberedFrom-prefix n [] b h = tt
IsNumberedFrom-prefix n (w ∷ a) b h = (h.0, IsNumberedFrom-prefix (n + 1) a b h.1)

IsNumberedFrom-append :
    (n m : ℕ) (a b : List Worker)
    → IsNumberedFrom n a
    → m ≡ n + length a
    → IsNumberedFrom m b
    → IsNumberedFrom n (a ++ b)
IsNumberedFrom-append n m [] b h e k =
    let back : m ≡ n = omega arith in subst (λ t. IsNumberedFrom t b) back k
IsNumberedFrom-append n m (w ∷ a) b h e k =
    (h.0, IsNumberedFrom-append (n + 1) m a b h.1 (omega arith) k)

grow-IsNumbered :
    (s : WorkerSet) (alloc : ℕ → ℕ) (now n i : ℕ) → IsNumberedFrom (i + 1) (grow s alloc now n i)
grow-IsNumbered s alloc now zero i = tt
grow-IsNumbered s alloc now (suc n) i = (refl, grow-IsNumbered s alloc now n (i + 1))

length-grow : (s : WorkerSet) (alloc : ℕ → ℕ) (now n i : ℕ) → length (grow s alloc now n i) ≡ n
length-grow s alloc now zero i = refl
length-grow s alloc now (suc n) i = ap suc (length-grow s alloc now n (i + 1))

-- Growing keeps the numbering, and brings the pool to the expected number of workers or leaves it
-- above that; without the flag nothing changes.
pub do_scaling_up-IsNumbered :
    (alloc : ℕ → ℕ) (now : ℕ) (s : WorkerSet)
    → IsNumbered s
    → let s' = do_scaling_up alloc now s in
      IsNumbered s'
      × (length s'.workers ≡ (
          if s.need_scaling_up
          then max (length s.workers) s.current_expect_workers
          else length s.workers))
      × (s'.need_scaling_up ≡ false)
unfolding do_scaling_up
do_scaling_up-IsNumbered alloc now s h = elim (Bool-cases s.need_scaling_up) [
  | inl up ↦ rw up (
    IsNumberedFrom-append 1 (n + 1) s.workers added h (omega arith)
        (grow-IsNumbered s alloc now k n),
    omega (arith, length-append s.workers added, length-grow s alloc now k n),
    refl,
  )
  | inr same ↦ rw same (h, refl, refl)
]
  where
    n : ℕ
    n = length s.workers

    k : ℕ
    k = s.current_expect_workers - n

    added : List Worker
    added = grow s alloc now k n
