-- ===== src/WorkerPool/Resize/Autofix.antt =====
-- internal_autofix_workers: exited workers go, and the others are numbered anew.
use libatapp.WorkerPool.Resize.Time.{sum_up, sum_down}
use libatapp.Prelude.{
  ℕ, zero, suc, ◌+◌, ◌≡◌, refl, false, List, [], ◌∷◌, arith, inl, inr, Bool-cases,
}
use libatapp.WorkerPool.Worker.{Worker, WorkerSet, is_exited, IsNumbered, IsNumberedFrom}
use libatapp.WorkerPool.Resize.{
  expected, any_exited, drop_exited, renumber, internal_autofix_workers,
}

renumber-IsNumbered : (n : ℕ) (ws : List Worker) → IsNumberedFrom n (renumber n ws)
renumber-IsNumbered n [] = tt
renumber-IsNumbered n (w ∷ ws) = (refl, renumber-IsNumbered (n + 1) ws)

drop_exited-time :
    (now : ℕ) (n : ℕ) (ws : List Worker)
    → let r = drop_exited now ws in
      (r.up + sum_up (renumber n r.left) ≡ sum_up ws)
      × (r.down + sum_down (renumber n r.left) ≡ sum_down ws)
unfolding drop_exited
drop_exited-time now n [] = (omega arith, omega arith)
drop_exited-time now n (w ∷ ws) = elim (Bool-cases (is_exited now w)) [
  | inl gone ↦
      rw gone (let (u, d) = drop_exited-time now n ws in (omega (arith, u), omega (arith, d)))
  | inr stays ↦
      rw stays
        (let (u, d) = drop_exited-time now (n + 1) ws in (omega (arith, u), omega (arith, d)))
]

drop_exited_sound :
    (now n k : ℕ) (ws : List Worker)
    → any_exited now k (renumber n (drop_exited now ws).left) ≡ false
unfolding drop_exited
drop_exited_sound now n zero [] = refl
drop_exited_sound now n zero (w ∷ ws) = refl
drop_exited_sound now n (suc k) [] = refl
drop_exited_sound now n (suc k) (w ∷ ws) = elim (Bool-cases (is_exited now w)) [
  | inl gone ↦ rw gone (drop_exited_sound now n (suc k) ws)
  | inr stays ↦ rw (stays, stays) (drop_exited_sound now (n + 1) k ws)
]

-- A repair keeps the pool numbered and loses no CPU time. Afterwards none of the expected workers
-- has exited.
pub internal_autofix_workers_lem :
    (now : ℕ) (s : WorkerSet)
    → IsNumbered s
    → let s' = internal_autofix_workers now s in
      IsNumbered s'
      × (any_exited now (expected s') s'.workers ≡ false)
      × (s'.removed_scaling_up + sum_up s'.workers ≡ s.removed_scaling_up + sum_up s.workers)
      × (s'.removed_scaling_down + sum_down s'.workers
          ≡ s.removed_scaling_down + sum_down s.workers)
unfolding internal_autofix_workers
internal_autofix_workers_lem now s h = elim (Bool-cases (any_exited now (expected s) s.workers)) [
  | inl broken ↦ rw broken (
      let (u, d) = drop_exited-time now 1 s.workers in
      (
        renumber-IsNumbered 1 (drop_exited now s.workers).left,
        drop_exited_sound now 1 (expected s) s.workers,
        omega (arith, u),
        omega (arith, d),
      ))
  | inr sound ↦ rw sound (h, sound, refl, refl)
]
