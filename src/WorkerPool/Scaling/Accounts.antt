-- ===== src/WorkerPool/Scaling/Accounts.antt =====
-- What a tick keeps: the numbering of the workers, and the jobs.
use mathlib.Core.Path.{subst}
use libatapp.Prelude.{
  count, ℕ, ◌+◌, ◌≡◌, refl, sym, ap, ◌∙◌, true, List, [], ◌∷◌, ◌++◌, arith, map, inl, inr,
  Bool-cases, All,
}
use libatapp.WorkerPool.Config.{ScalingConfigure}
use libatapp.WorkerPool.Worker.{
  Worker, WorkerSet, is_exited, collected_up, collected_down, IsNumbered, IsNumberedFrom,
}
use libatapp.WorkerPool.Resize.{
  internal_reduce_workers, internal_autofix_workers, drop_exited, renumber, any_exited, expected,
}
use libatapp.WorkerPool.Resize.Shrink.{
  internal_reduce_workers-IsNumbered, internal_reduce_workers-Shrinks,
}
use libatapp.WorkerPool.Resize.Autofix.{internal_autofix_workers_lem}
use libatapp.WorkerPool.Jobs.Count.{count_private, jobs, count_private-append}
use libatapp.WorkerPool.Jobs.Balance.{rebalance_jobs_lem}
use libatapp.WorkerPool.Jobs.Numbering.{rebalance_jobs-IsNumbered}
use libatapp.WorkerPool.Scaling.{
  ScalingStatistics, Planned, scale_up, scale_down, plan, begin, set_expect, settle, tick_open,
  is_due, scanned,
}

IsNumberedFrom-map :
    (f : Worker → Worker) (n : ℕ) (ws : List Worker)
    → ((w : Worker) → (f w).worker_id ≡ w.worker_id)
    → IsNumberedFrom n ws
    → IsNumberedFrom n (map f ws)
IsNumberedFrom-map f n [] same h = tt
IsNumberedFrom-map f n (w ∷ ws) same h = (same w ∙ h.0, IsNumberedFrom-map f (n + 1) ws same h.1)

count_private-map :
    (f : Worker → Worker) (j : ℕ) (ws : List Worker)
    → ((w : Worker) → (f w).private_jobs ≡ w.private_jobs)
    → count_private j (map f ws) ≡ count_private j ws
count_private-map f j [] same = refl
count_private-map f j (w ∷ ws) same =
    omega (arith, ap (count j) (same w), count_private-map f j ws same)

-- a worker that has exited has no job in its own queue
abbrev pub IsDrained : ℕ → List Worker → Type 0
IsDrained now = All (λ w. is_exited now w ≡ true → w.private_jobs ≡ [])

IsDrained-map :
    (f : Worker → Worker) (now : ℕ) (ws : List Worker)
    → ((w : Worker)
        → (is_exited now (f w) ≡ is_exited now w) × ((f w).private_jobs ≡ w.private_jobs))
    → IsDrained now ws
    → IsDrained now (map f ws)
IsDrained-map f now [] same h = tt
IsDrained-map f now (w ∷ ws) same h =
    let (exits, kept) = same w in
    ((λ e. kept ∙ h.0 (sym exits ∙ e)), IsDrained-map f now ws same h.1)

-- what the two parts of the planning leave of a pool
record Keeps (now : ℕ) (s s' : WorkerSet) : Type 0 where
  numbered : IsNumbered s → IsNumbered s'
  drained : IsDrained now s.workers → IsDrained now s'.workers
  same_jobs : (j : ℕ) → jobs j s' ≡ jobs j s

scale_up-Keeps :
    (conf : ScalingConfigure) (now : ℕ) (p : Planned) → Keeps now p.pool (scale_up conf now p).pool
unfolding scale_up
scale_up-Keeps conf now p =
    elim (Bool-cases (is_due now last conf.scaling_up_stable_window_seconds)) [
      | inl due ↦ rw due (record {
        numbered = IsNumberedFrom-map collected_up 1 ws (λ w. refl);
        drained = IsDrained-map collected_up now ws (λ w. (refl, refl));
        same_jobs = λ j.
            ap (λ n. count j p.pool.shared_jobs + n)
              (count_private-map collected_up j ws (λ w. refl));
      })
      | inr early ↦ rw early (record { numbered = λ h. h; drained = λ h. h; same_jobs = λ j. refl })
    ]
  where
    last : ℕ
    last = p.statistics.last_scaling_up_checkpoint

    ws : List Worker
    ws = p.pool.workers

scale_down-Keeps :
    (conf : ScalingConfigure) (now : ℕ) (p : Planned)
    → Keeps now p.pool (scale_down conf now p).pool
unfolding scale_down
scale_down-Keeps conf now p =
    elim (Bool-cases (is_due now last conf.scaling_down_stable_window_seconds)) [
      | inl due ↦ rw due (record {
        numbered = IsNumberedFrom-map collected_down 1 ws (λ w. refl);
        drained = IsDrained-map collected_down now ws (λ w. (refl, refl));
        same_jobs = λ j.
            ap (λ n. count j p.pool.shared_jobs + n)
              (count_private-map collected_down j ws (λ w. refl));
      })
      | inr early ↦ rw early (record { numbered = λ h. h; drained = λ h. h; same_jobs = λ j. refl })
    ]
  where
    last : ℕ
    last = p.statistics.last_scaling_down_checkpoint

    ws : List Worker
    ws = p.pool.workers

plan-Keeps :
    (conf : ScalingConfigure) (now : ℕ) (st : ScalingStatistics) (s : WorkerSet)
    → Keeps now s (plan conf now st s).pool
unfolding plan
plan-Keeps conf now st s =
    let up = scale_up-Keeps conf now (begin conf st s) in
    let down = scale_down-Keeps conf now (scale_up conf now (begin conf st s)) in
    record {
      numbered = λ h. down.numbered (up.numbered h);
      drained = λ h. down.drained (up.drained h);
      same_jobs = λ j. down.same_jobs j ∙ up.same_jobs j;
    }

-- exited workers that go take no job with them
count_private-gone :
    (now j : ℕ) (gone : List Worker)
    → All (λ w. is_exited now w ≡ true) gone
    → IsDrained now gone
    → count_private j gone ≡ 0
count_private-gone now j [] h d = refl
count_private-gone now j (w ∷ gone) h d =
    omega (arith, ap (count j) (d.0 h.0), count_private-gone now j gone h.1 d.1)

IsDrained-suffix : (now : ℕ) (a b : List Worker) → IsDrained now (a ++ b) → IsDrained now b
IsDrained-suffix now [] b h = h
IsDrained-suffix now (w ∷ a) b h = IsDrained-suffix now a b h.1

reduce-jobs :
    (now j : ℕ) (s : WorkerSet)
    → IsDrained now s.workers
    → jobs j (internal_reduce_workers now s).0 ≡ jobs j s
unfolding internal_reduce_workers
reduce-jobs now j s h =
    let (gone, shrunk) = internal_reduce_workers-Shrinks now s in
    let left = (internal_reduce_workers now s).0.workers in
    let none_lost =
      count_private-gone now j gone shrunk.over
        (IsDrained-suffix now left gone (subst (IsDrained now) shrunk.split h)) in
    omega (arith, ap (count_private j) shrunk.split, count_private-append j left gone, none_lost)

drop-jobs :
    (now j n : ℕ) (ws : List Worker)
    → IsDrained now ws
    → count_private j (renumber n (drop_exited now ws).left) ≡ count_private j ws
unfolding drop_exited
drop-jobs now j n [] h = refl
drop-jobs now j n (w ∷ ws) h = elim (Bool-cases (is_exited now w)) [
  | inl gone ↦ rw gone (omega (arith, ap (count j) (h.0 gone), drop-jobs now j n ws h.1))
  | inr stays ↦ rw stays (omega (arith, drop-jobs now j (n + 1) ws h.1))
]

autofix-jobs :
    (now j : ℕ) (s : WorkerSet)
    → IsDrained now s.workers
    → jobs j (internal_autofix_workers now s) ≡ jobs j s
unfolding internal_autofix_workers
autofix-jobs now j s h = elim (Bool-cases (any_exited now (expected s) s.workers)) [
  | inl broken ↦ rw broken (omega (arith, drop-jobs now j 1 s.workers h))
  | inr sound ↦ rw sound refl
]

pub settle-IsNumbered :
    (conf : ScalingConfigure) (alloc : ℕ → ℕ) (now : ℕ) (st : ScalingStatistics) (s : WorkerSet)
    → IsNumbered s
    → IsNumbered (settle conf alloc now st s).0
unfolding settle
settle-IsNumbered conf alloc now st s h = elim (Bool-cases (scanned conf now st)) [
  | inl recent ↦ rw recent (
      rebalance_jobs-IsNumbered alloc now (internal_reduce_workers now s).0
        (internal_reduce_workers-IsNumbered now s h))
  | inr stale ↦ rw stale (
      rebalance_jobs-IsNumbered alloc now (internal_autofix_workers now s)
        (internal_autofix_workers_lem now s h).0)
]

settle-jobs :
    (conf : ScalingConfigure) (alloc : ℕ → ℕ) (now j : ℕ) (st : ScalingStatistics) (s : WorkerSet)
    → IsDrained now s.workers
    → jobs j (settle conf alloc now st s).0 ≡ jobs j s
unfolding settle
settle-jobs conf alloc now j st s d = elim (Bool-cases (scanned conf now st)) [
  | inl recent ↦
      rw recent (
        (rebalance_jobs_lem alloc now (internal_reduce_workers now s).0).0 j
        ∙ reduce-jobs now j s d)
  | inr stale ↦
      rw stale (
        (rebalance_jobs_lem alloc now (internal_autofix_workers now s)).0 j
        ∙ autofix-jobs now j s d)
]

pub tick_open-IsNumbered :
    (conf : ScalingConfigure) (alloc : ℕ → ℕ) (now : ℕ) (st : ScalingStatistics) (s : WorkerSet)
    → IsNumbered s
    → IsNumbered (tick_open conf alloc now st s).pool
unfolding tick_open
tick_open-IsNumbered conf alloc now st s h =
    let p = plan conf now st s in
    settle-IsNumbered conf alloc now p.statistics (set_expect p.expect p.pool)
      ((plan-Keeps conf now st s).numbered h)

-- Where a worker that has exited has no job in its own queue, a tick of an open pool loses no job and
-- doubles none, however it changes the number of workers.
pub tick_open-jobs :
    (conf : ScalingConfigure) (alloc : ℕ → ℕ) (now j : ℕ) (st : ScalingStatistics) (s : WorkerSet)
    → IsDrained now s.workers
    → jobs j (tick_open conf alloc now st s).pool ≡ jobs j s
unfolding tick_open
tick_open-jobs conf alloc now j st s d =
    let p = plan conf now st s in
    let kept = plan-Keeps conf now st s in
    settle-jobs conf alloc now j p.statistics (set_expect p.expect p.pool) (kept.drained d)
    ∙ kept.same_jobs j
