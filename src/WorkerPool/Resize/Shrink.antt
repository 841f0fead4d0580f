-- ===== src/WorkerPool/Resize/Shrink.antt =====
-- internal_reduce_workers: which workers it lets go, and where their CPU time goes.
use libatapp.WorkerPool.Resize.Time.{
  sum_up, sum_down, sum_up-append, sum_down-append, sum_up-reverse, sum_down-reverse,
}
use libatapp.WorkerPool.Resize.Numbering.{IsNumberedFrom-prefix}
use mathlib.Core.List.{reverse, reverse_aux, reverse-append, reverse-cons, reverse-reverse}
use mathlib.Core.Path.{subst}
use libatapp.Prelude.{
  ℕ, zero, suc, ◌+◌, ◌-◌, ◌≤◌, ◌≡◌, refl, sym, ap, ◌∙◌, true, List, [], ◌∷◌, ◌++◌, arith, All,
  length, length-append, inl, inr, Bool-cases,
}
use libatapp.WorkerPool.Worker.{
  Worker, WorkerSet, is_exited, collect_up, collect_down, IsNumbered, IsNumberedFrom,
}
use libatapp.WorkerPool.Resize.{Reduced, reduce_from_back, expected, internal_reduce_workers}

-- What internal_reduce_workers takes off the back: exited workers, at most `n`, with their time.
record IsCut (now n : ℕ) (ws : List Worker) (r : Reduced) (gone : List Worker) : Type 0 where
  split : ws ≡ gone ++ r.left
  over : All (λ w. is_exited now w ≡ true) gone
  bounded : length gone ≤ n
  up : r.up ≡ sum_up gone
  down : r.down ≡ sum_down gone

reduce-IsCut :
    (now n : ℕ) (ws : List Worker)
    → (gone : List Worker) × IsCut now n ws (reduce_from_back now n ws) gone
unfolding reduce_from_back
reduce-IsCut now zero ws =
    ([], record { split = refl; over = tt; bounded = omega arith; up = refl; down = refl })
reduce-IsCut now (suc n) [] =
    ([], record { split = refl; over = tt; bounded = omega arith; up = refl; down = refl })
reduce-IsCut now (suc n) (w ∷ ws) = elim (Bool-cases (is_exited now w)) [
  | inl gone ↦ rw gone (
      let (more, cut) = reduce-IsCut now n ws in
      (
        w ∷ more,
        record {
          split = ap (λ l. w ∷ l) cut.split;
          over = (gone, cut.over);
          bounded = omega (arith, cut.bounded);
          up = ap (λ t. collect_up w + t) cut.up;
          down = ap (λ t. collect_down w + t) cut.down;
        },
      ))
  | inr stays ↦
      rw stays
        ([], record { split = refl; over = tt; bounded = omega arith; up = refl; down = refl })
]

All-reverse :
    (now : ℕ) (a b : List Worker)
    → All (λ w. is_exited now w ≡ true) a
    → All (λ w. is_exited now w ≡ true) b
    → All (λ w. is_exited now w ≡ true) (reverse_aux a b)
All-reverse now [] b h k = k
All-reverse now (w ∷ a) b h k = All-reverse now a (w ∷ b) h.1 (h.0, k)

-- What a resize of the worker list may do: it keeps a front part, which stays numbered, and the CPU
-- time of the workers that it lets go is carried over, so that the sums stay as they were.
pub record Shrinks (now : ℕ) (s s' : WorkerSet) (gone : List Worker) : Type 0 where
  pub split : s.workers ≡ s'.workers ++ gone
  pub over : All (λ w. is_exited now w ≡ true) gone
  pub enough : length gone ≤ length s.workers - expected s
  pub up : s'.removed_scaling_up + sum_up s'.workers ≡ s.removed_scaling_up + sum_up s.workers
  pub down :
      s'.removed_scaling_down + sum_down s'.workers ≡ s.removed_scaling_down + sum_down s.workers

length-reverse : (a : List Worker) → length (reverse a) ≡ length a
length-reverse [] = refl
length-reverse (w ∷ a) =
    omega
      (arith, ap length (reverse-cons w a), length-append (reverse a) (w ∷ []), length-reverse a)

-- A reduction takes only exited workers, only from the back and only down to the expected number,
-- and carries their CPU time over.
pub internal_reduce_workers-Shrinks :
    (now : ℕ) (s : WorkerSet)
    → (gone : List Worker) × Shrinks now s (internal_reduce_workers now s).0 gone
unfolding internal_reduce_workers
internal_reduce_workers-Shrinks now s =
    let (popped, cut) = reduce-IsCut now excess (reverse s.workers) in
    let whole : s.workers ≡ reverse left ++ reverse popped =
      sym (reverse-reverse s.workers) ∙ ap reverse cut.split ∙ reverse-append popped left in
    (
      reverse popped,
      record {
        split = whole;
        over = All-reverse now popped [] cut.over tt;
        enough = omega (arith, cut.bounded, length-reverse popped);
        up = omega (
          arith,
          cut.up,
          ap sum_up whole,
          sum_up-append (reverse left) (reverse popped),
          sum_up-reverse popped,
        );
        down = omega (
          arith,
          cut.down,
          ap sum_down whole,
          sum_down-append (reverse left) (reverse popped),
          sum_down-reverse popped,
        );
      },
    )
  where
    excess : ℕ
    excess = length s.workers - expected s

    left : List Worker
    left = (reduce_from_back now excess (reverse s.workers)).left

-- So the numbering outlives a reduction, and no CPU time is lost in one.
pub internal_reduce_workers-IsNumbered :
    (now : ℕ) (s : WorkerSet) → IsNumbered s → IsNumbered (internal_reduce_workers now s).0
internal_reduce_workers-IsNumbered now s h =
    let (gone, shrunk) = internal_reduce_workers-Shrinks now s in
    IsNumberedFrom-prefix 1 (internal_reduce_workers now s).0.workers gone
      (subst (IsNumberedFrom 1) shrunk.split h)
