-- ===== src/WorkerPool/Select/ById.antt =====
-- Choosing a worker by its id.
use libatapp.Prelude.{
  ℕ, zero, suc, ◌+◌, ◌-◌, ◌≤◌, ◌<◌, ◌≡◌, ◌≢◌, refl, ap, ◌∙◌, true, false, Option, none, some, List,
  [], ◌∷◌, ltb, ◌==◌, arith, get_elem?, sym, some_inj, none-ne-some, length, if◌then◌else◌, inl,
  inr, Bool-cases, Option-cases,
}
use libatapp.WorkerPool.Worker.{Worker, WorkerSet, IsNumbered, IsNumberedFrom, is_exiting}
use libatapp.WorkerPool.Resize.{do_scaling_up}
use libatapp.WorkerPool.Resize.Numbering.{do_scaling_up-IsNumbered}
use libatapp.WorkerPool.Select.{
  find_id, found_or, unavailable, place_of, select_by_id, Code, success,
}

numbered-at :
    (n i : ℕ) (ws : List Worker) (w : Worker)
    → IsNumberedFrom n ws
    → get_elem? ws i ≡ some w
    → w.worker_id ≡ n + i
numbered-at n i [] w h e = cc
numbered-at n zero (x ∷ ws) w h e = ground (arith, h.0)
numbered-at n (suc i) (x ∷ ws) w h e = omega (arith, numbered-at (n + 1) i ws w h.1 e)

find_id_beyond :
    (id i n : ℕ) (ws : List Worker)
    → IsNumberedFrom n ws
    → n + length ws ≤ id
    → find_id id i ws ≡ none
unfolding find_id
find_id_beyond id i n [] h b = refl
find_id_beyond id i n (w ∷ ws) h b = ground (arith, h.0, find_id_beyond id (i + 1) (n + 1) ws h.1)

none_beyond : (ws : List Worker) (i : ℕ) → get_elem? ws i ≡ none → length ws ≤ i
none_beyond [] i e = omega arith
none_beyond (w ∷ ws) zero e = cc
none_beyond (w ∷ ws) (suc i) e = omega (arith, none_beyond ws i e)

abbrev unless_exiting : ℕ → ℕ → Option Worker → Option ℕ
unless_exiting now i none = none
unless_exiting now i (some w) = if is_exiting now w then none else some i

-- In a numbered pool the worker with an id is the one at its place: the search through the list is
-- never what finds it.
pub place_of_lem :
    (now : ℕ) (s : WorkerSet) (id : ℕ)
    → IsNumbered s
    → 0 < id
    → place_of now s id ≡ unless_exiting now (id - 1) (get_elem? s.workers (id - 1))
unfolding place_of
place_of_lem now s id h p = elim (Option-cases (get_elem? s.workers (id - 1))) [
  | inl e ↦
      rw (e, find_id_beyond id 0 1 s.workers h (omega (arith, none_beyond s.workers (id - 1) e)))
  | inr (w, e) ↦ rw e (
      let here : w.worker_id ≡ id = omega (arith, numbered-at 1 (id - 1) s.workers w h e) in
      ground (arith, here, e))
]

unless_exiting_inv :
    (now k : ℕ) (o : Option Worker) (i : ℕ)
    → unless_exiting now k o ≡ some i
    → (i ≡ k) × (w : Worker) × (o ≡ some w) × (is_exiting now w ≡ false)
unless_exiting_inv now k none i e = absurd (none-ne-some e)
unless_exiting_inv now k (some w) i e = elim (Bool-cases (is_exiting now w)) [
  | inl out ↦ absurd (none-ne-some (rw out at e))
  | inr here ↦ (sym (some_inj (rw here at e)), w, refl, here)
]

found_or_inv : (c : Code) (o : Option ℕ) (i : ℕ) → found_or c o ≡ (success, some i) → o ≡ some i
found_or_inv c none i e = ground arith
found_or_inv c (some k) i e = ground arith

module _ (now : ℕ) (s : WorkerSet) (id i : ℕ) where
  abbrev pub Chosen : Type 0
  Chosen =
      (i + 1 ≡ id)
      × (id ≤ s.current_expect_workers)
      × (w : Worker) × (get_elem? s.workers i ≡ some w)
      × (w.worker_id ≡ id)
      × (is_exiting now w ≡ false)

  chosen :
      IsNumbered s → 0 < id → id ≤ s.current_expect_workers → place_of now s id ≡ some i → Chosen
  chosen h p le e =
      let (at, w, here, out) =
        unless_exiting_inv now (id - 1) (get_elem? s.workers (id - 1)) i
          (sym (place_of_lem now s id h p) ∙ e) in
      let there : get_elem? s.workers i ≡ some w = rw at here in
      (omega arith, le, w, there, omega (arith, numbered-at 1 i s.workers w h there), out)

-- On success the worker chosen has the id that was asked for, and is not exiting.
pub select_by_id_sound :
    (alloc : ℕ → ℕ) (now : ℕ) (before : WorkerSet) (id i : ℕ)
    → IsNumbered before
    → (select_by_id alloc now before id).1 ≡ (success, some i)
    → Chosen now (select_by_id alloc now before id).0 id i
unfolding select_by_id
select_by_id_sound alloc now before id i h e = elim (Bool-cases (id == 0)) [
  | inl nought ↦ absurd (params-ne nought)
  | inr some_id ↦ elim (Bool-cases (ltb s.current_expect_workers id)) [
    | inl over ↦
        let refused : (unavailable s, none) ≡ (success, some i) = rw (some_id, over) at e in
        absurd (none-ne-some (ap (λ (r : Code × Option ℕ). r.1) refused))
    | inr within ↦
        chosen now s id i (do_scaling_up-IsNumbered alloc now before h).0 (ground arith)
          (ground arith)
          (found_or_inv (unavailable s) (place_of now s id) i (rw (some_id, within) at e))
  ]
]
  where
    s : WorkerSet
    s = do_scaling_up alloc now before

    params-ne : (id == 0) ≡ true → ⊥
    params-ne q = ground arith

-- The code tells whether there is a worker.
pub select_by_id-none :
    (alloc : ℕ → ℕ) (now : ℕ) (before : WorkerSet) (id : ℕ)
    → (select_by_id alloc now before id).1.1 ≡ none
    → (select_by_id alloc now before id).1.0 ≢ success
unfolding select_by_id
select_by_id-none alloc now before id e q = ground arith

pub select_by_id-some :
    (alloc : ℕ → ℕ) (now : ℕ) (before : WorkerSet) (id i : ℕ)
    → (select_by_id alloc now before id).1.1 ≡ some i
    → (select_by_id alloc now before id).1 ≡ (success, some i)
unfolding select_by_id
select_by_id-some alloc now before id i e = ground arith
