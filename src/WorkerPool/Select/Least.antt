-- ===== src/WorkerPool/Select/Least.antt =====
-- Choosing the worker with the least to do.
use mathlib.Core.Path.{subst}
use libatapp.Prelude.{
  ℕ, suc, ◌+◌, ◌≤◌, ◌≡◌, refl, sym, ap, ◌∙◌, true, false, none, some, List, [], ◌∷◌, ltb, arith,
  get_elem?, if◌then◌else◌, inl, inr, Bool-cases, some_inj, none-ne-some, All,
}
use libatapp.WorkerPool.Worker.{Worker, WorkerSet, is_exiting}
use libatapp.WorkerPool.Key.{
  Key, key_lt, max_key, make_compare_key, key_lt-IsStrictOrder, key_lt_negtrans, key_lt_asym,
}
use libatapp.WorkerPool.Resize.{do_scaling_up}
use libatapp.WorkerPool.Select.{Best, better, pick, select_any}

-- the workers that the loop looks at: those before the first that is not exiting and has an id above
-- the expected number, less the exiting ones; each with its place
abbrev pub candidates : ℕ → ℕ → ℕ → List Worker → List (ℕ × Worker)
candidates now expect i [] = []
candidates now expect i (w ∷ ws) =
    let rest = candidates now expect (i + 1) ws in
    if is_exiting now w then rest else if ltb expect w.worker_id then [] else (i, w) ∷ rest

abbrev pub key_of : ℕ × Worker → Key
key_of c = make_compare_key c.1

choose : Best → List (ℕ × Worker) → Best
choose best [] = best
choose best ((i, w) ∷ cs) = choose (better best i w) cs

pick-choose :
    (now expect i : ℕ) (best : Best) (ws : List Worker)
    → pick now expect i best ws ≡ choose best (candidates now expect i ws)
unfolding pick choose
pick-choose now expect i best [] = refl
pick-choose now expect i best (w ∷ ws) = elim (Bool-cases (is_exiting now w)) [
  | inl out ↦ rw out (pick-choose now expect (i + 1) best ws)
  | inr here ↦ rw here (elim (Bool-cases (ltb expect w.worker_id)) [
    | inl over ↦ rw over refl
    | inr within ↦ rw within (pick-choose now expect (i + 1) (better best i w) ws)
  ])
]

better_least :
    (best : Best) (i : ℕ) (w : Worker)
    → (key_lt (make_compare_key w) (better best i w).0 ≡ false)
      × (key_lt best.0 (better best i w).0 ≡ false)
better_least best i w = elim (Bool-cases (key_lt (make_compare_key w) best.0)) [
  | inl taken ↦ rw taken (key_lt-IsStrictOrder.irrefl _, key_lt_asym _ _ taken)
  | inr left ↦ rw left (left, key_lt-IsStrictOrder.irrefl _)
]

-- no key of the list is before the one chosen
choose_least :
    (best : Best) (cs : List (ℕ × Worker))
    → All (λ c. key_lt (key_of c) (choose best cs).0 ≡ false) cs
      × (key_lt best.0 (choose best cs).0 ≡ false)
unfolding choose
choose_least best [] = (tt, key_lt-IsStrictOrder.irrefl best.0)
choose_least best ((i, w) ∷ cs) =
    let (rest, from) = choose_least (better best i w) cs in
    let (new, old) = better_least best i w in
    ((key_lt_negtrans _ _ _ from new, rest), key_lt_negtrans _ _ _ from old)

-- a place in the list, with a worker there that may be chosen
abbrev pub IsEligible : ℕ → ℕ → List Worker → ℕ → Worker → Type 0
IsEligible now expect ws i w =
    (get_elem? ws i ≡ some w) × (is_exiting now w ≡ false) × (w.worker_id ≤ expect)

abbrev Chosen : ℕ → ℕ → List Worker → Best → Type 0
Chosen now expect ws (k, none) = Unit {0}
Chosen now expect ws (k, some i) =
    (w : Worker) × (k ≡ make_compare_key w) × IsEligible now expect ws i w

-- `ws` from the place `i` on is `rest`
abbrev IsRest : List Worker → ℕ → List Worker → Type 0
IsRest ws i rest = (j : ℕ) → get_elem? ws (i + j) ≡ get_elem? rest j

choose-Chosen :
    (now expect : ℕ) (ws : List Worker) (best : Best) (cs : List (ℕ × Worker))
    → All (λ c. IsEligible now expect ws c.0 c.1) cs
    → Chosen now expect ws best
    → Chosen now expect ws (choose best cs)
unfolding choose
choose-Chosen now expect ws best [] h k = k
choose-Chosen now expect ws best ((i, w) ∷ cs) h k =
    choose-Chosen now expect ws (better best i w) cs h.1
      (elim (Bool-cases (key_lt (make_compare_key w) best.0)) [
        | inl taken ↦ rw taken (w, refl, h.0)
        | inr left ↦ rw left k
      ])

candidates-IsEligible :
    (now expect i : ℕ) (ws rest : List Worker)
    → IsRest ws i rest
    → All (λ c. IsEligible now expect ws c.0 c.1) (candidates now expect i rest)
candidates-IsEligible now expect i ws [] h = tt
candidates-IsEligible now expect i ws (w ∷ rest) h =
    let at_zero : i ≡ i + 0 = omega arith in
    let later : All (λ c. IsEligible now expect ws c.0 c.1) (candidates now expect (i + 1) rest) =
      candidates-IsEligible now expect (i + 1) ws rest (λ j.
        let shift : i + 1 + j ≡ i + suc j = omega arith in ap (get_elem? ws) shift ∙ h (suc j)) in
    elim (Bool-cases (is_exiting now w)) [
      | inl out ↦ rw out later
      | inr here ↦ rw here (elim (Bool-cases (ltb expect w.worker_id)) [
        | inl over ↦ rw over tt
        | inr within ↦ rw within ((ap (get_elem? ws) at_zero ∙ h 0, here, ground arith), later)
      ])
    ]

-- the candidates of a pool as select_worker sees it
abbrev pub pool_candidates : ℕ → WorkerSet → List (ℕ × Worker)
pool_candidates now s = candidates now s.current_expect_workers 0 s.workers

chosen_some :
    (now expect : ℕ) (ws : List Worker) (best : Best) (i : ℕ)
    → best.1 ≡ some i
    → Chosen now expect ws best
    → (w : Worker) × (best.0 ≡ make_compare_key w) × IsEligible now expect ws i w
chosen_some now expect ws (k, none) i e h = absurd (none-ne-some e)
chosen_some now expect ws (k, some j) i e h = rw (some_inj (sym e)) (h.0, h.1, h.2)

-- The worker that takes a job is not exiting, has an expected id, and no candidate has a key before
-- its key.
pub select_any_least :
    (alloc : ℕ → ℕ) (now : ℕ) (before : WorkerSet) (i : ℕ)
    → (select_any alloc now before).1 ≡ some i
    → let s = (select_any alloc now before).0 in
      (w : Worker) × IsEligible now s.current_expect_workers s.workers i w
      × All (λ c. key_lt (key_of c) (make_compare_key w) ≡ false) (pool_candidates now s)
unfolding select_any
select_any_least alloc now before i e =
    let s = do_scaling_up alloc now before in
    let cs = pool_candidates now s in
    let best = choose (max_key, none) cs in
    let picked : pick now s.current_expect_workers 0 (max_key, none) s.workers ≡ best =
      pick-choose now s.current_expect_workers 0 (max_key, none) s.workers in
    let (w, same, fits) =
      chosen_some now s.current_expect_workers s.workers best i
        (ap (λ (b : Best). b.1) (sym picked) ∙ e)
        (choose-Chosen now s.current_expect_workers s.workers (max_key, none) cs
          (candidates-IsEligible now s.current_expect_workers 0 s.workers s.workers
            (λ j. let zero_left : 0 + j ≡ j = omega arith in ap (get_elem? s.workers) zero_left))
          tt) in
    (
      w,
      fits,
      subst (λ k. All (λ c. key_lt (key_of c) k ≡ false) cs) same
          (choose_least (max_key, none) cs).0,
    )

choose-some :
    (k : Key) (i : ℕ) (cs : List (ℕ × Worker)) → (j : ℕ) × ((choose (k, some i) cs).1 ≡ some j)
unfolding choose
choose-some k i [] = (i, refl)
choose-some k i ((j, w) ∷ cs) = elim (Bool-cases (key_lt (make_compare_key w) k)) [
  | inl taken ↦ rw (taken, choose) (choose-some (make_compare_key w) j cs)
  | inr left ↦ rw (left, choose) (choose-some k i cs)
]

choose-none :
    (cs : List (ℕ × Worker))
    → All (λ c. key_lt (key_of c) max_key ≡ true) cs
    → (choose (max_key, none) cs).1 ≡ none
    → cs ≡ []
unfolding choose
choose-none [] h e = refl
choose-none ((i, w) ∷ cs) h e =
    let (j, found) = choose-some (make_compare_key w) i cs in
    absurd (none-ne-some (sym (rw (h.0, choose) at e) ∙ found))

-- A job is left to the main thread only if no worker may take it: where every candidate has a key
-- before the greatest one, none is chosen only if there is none.
pub select_any-none :
    (alloc : ℕ → ℕ) (now : ℕ) (before : WorkerSet)
    → All
        (λ c. key_lt (key_of c) max_key ≡ true)
        (pool_candidates now (select_any alloc now before).0)
    → (select_any alloc now before).1 ≡ none
    → pool_candidates now (select_any alloc now before).0 ≡ []
unfolding select_any
select_any-none alloc now before h e =
    let s = do_scaling_up alloc now before in
    choose-none (pool_candidates now s) h (
      ap (λ (b : Best). b.1)
        (sym (pick-choose now s.current_expect_workers 0 (max_key, none) s.workers))
      ∙ e)
