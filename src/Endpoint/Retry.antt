-- ===== src/Endpoint/Retry.antt =====
-- What a retry leaves in an endpoint, from what its loop leaves.
use libatapp.Prelude.{
  ℕ, zero, suc, ◌+◌, ◌≡◌, refl, sym, ap, ◌∙◌, true, List, [], ◌∷◌, ltb, leb, arith, inl, inr,
  Bool-cases, if-cases, if◌then◌else◌,
}
use libatapp.Endpoint.{
  SendResult, Message, Endpoint, Owner, Retried, retry_loop, none_pending, add_waker, wakes,
  passed_waker, first_timeout, retry_pending_messages, has_connection,
}
use libatapp.Endpoint.Account.{total_size}

pub one_more : (n : ℕ) → n + 1 ≡ suc n
one_more n = omega arith

pub is_positive : (n : ℕ) → ltb 0 (suc n) ≡ true
is_positive n = ground arith

add_waker-pending :
    (o : Owner) (t : ℕ) (e : Endpoint)
    → ((add_waker o t e).pending_message ≡ e.pending_message)
      × ((add_waker o t e).pending_message_size ≡ e.pending_message_size)
add_waker-pending o t e = elim (Bool-cases (wakes o t e)) [
  | inl earlier ↦ rw earlier (refl, refl)
  | inr later ↦ rw later (refl, refl)
]

passed_waker-pending :
    (t : ℕ) (e : Endpoint)
    → ((passed_waker t e).pending_message ≡ e.pending_message)
      × ((passed_waker t e).pending_message_size ≡ e.pending_message_size)
passed_waker-pending t e = elim (Bool-cases (leb e.nearest_waker t)) [
  | inl passed ↦ rw passed (refl, refl)
  | inr ahead ↦ rw ahead (refl, refl)
]

first_timeout-pending :
    (o : Owner) (q : List Message) (e : Endpoint)
    → e.pending_message_size ≡ total_size q
    → ((first_timeout o q e).pending_message ≡ e.pending_message)
      × ((first_timeout o q e).pending_message_size ≡ total_size q)
first_timeout-pending o [] e h = (refl, refl)
first_timeout-pending o (m ∷ ms) e h =
    let (same, size) = add_waker-pending o m.expired_timepoint e in (same, size ∙ h)

abbrev pub limit_of : ℕ → ℕ
limit_of max_count = if leb max_count 0 then 2_147_483_647 else max_count

pub limit-positive : (max_count : ℕ) → (n : ℕ) × (limit_of max_count ≡ suc n)
limit-positive zero = (2_147_483_646, refl)
limit-positive (suc n) = (n, ground arith)

-- a retry leaves what its loop leaves
pub retry-by_loop :
    (send : ℕ → Message → SendResult) (o : Owner) (t max_count : ℕ) (e : Endpoint) (r : Retried)
    → retry_loop send
        (has_connection e)
        t
        (limit_of max_count)
        e.pending_message_size
        e.pending_message
      ≡ r
    → r.left_size ≡ total_size r.left
    → (none_pending e.pending_message ≡ true → r.left ≡ e.pending_message)
    → e.pending_message_size ≡ total_size e.pending_message
    → let (e', r') = retry_pending_messages send o t max_count e in
      (r' ≡ r) × (e'.pending_message ≡ r.left) × (e'.pending_message_size ≡ total_size r.left)
unfolding retry_pending_messages
retry-by_loop send o t max_count e r by_loop sized none_left right =
    let Leaves : Endpoint × Retried → Type 0 = λ x.
      (x.1 ≡ r) × (x.0.pending_message ≡ r.left) × (x.0.pending_message_size ≡ total_size r.left) in
    let awake = passed_waker t e in
    let (same, size) = passed_waker-pending t e in
    let r' =
      retry_loop send (has_connection e) t (limit_of max_count) e.pending_message_size
        e.pending_message in
    let left = ap (λ r. r.left) by_loop in
    let (kept, total) =
      first_timeout-pending o r'.left
        (record awake { pending_message = r'.left; pending_message_size = r'.left_size })
        (ap (λ r. r.left_size) by_loop ∙ sized ∙ sym (ap total_size left)) in
    if-cases Leaves (none_pending e.pending_message) _ _
      (λ empty.
        let all_left = sym (none_left empty) in
        (by_loop, same ∙ all_left, size ∙ right ∙ ap total_size all_left))
      (λ waits. (by_loop, kept ∙ left, total ∙ ap total_size left))
