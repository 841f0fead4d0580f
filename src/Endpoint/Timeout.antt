-- ===== src/Endpoint/Timeout.antt =====
-- What a retry without a connection does with the waiting messages.
use libatapp.Prelude.{
  ℕ, suc, ◌-◌, ◌≡◌, refl, ap, ◌∙◌, true, false, List, [], ◌∷◌, ltb, leb, arith, inl, inr,
  Bool-cases, length, if◌then◌else◌,
}
use libatapp.Endpoint.{
  SendResult, node_timeout, Message, Endpoint, Owner, Retried, report, retry_loop, none_pending,
  retry_pending_messages, has_connection,
}
use libatapp.Endpoint.Retry.{one_more, is_positive, limit-positive, retry-by_loop}
use libatapp.Endpoint.Account.{total_size}

not_positive : (n : ℕ) → leb (suc n) 0 ≡ false
not_positive n = ground arith

due_lem : (a t : ℕ) → leb a t ≡ true → ltb t a ≡ false
due_lem a t h = ground (arith, h)

early_lem : (a t : ℕ) → leb a t ≡ false → ltb t a ≡ true
early_lem a t h = ground (arith, h)

-- the front part of a queue that is due at a time, and what stands behind it
abbrev pub expired : ℕ → List Message → List Message
expired t [] = []
expired t (m ∷ ms) = if leb m.expired_timepoint t then m ∷ expired t ms else []

abbrev pub waiting : ℕ → List Message → List Message
waiting t [] = []
waiting t (m ∷ ms) = if leb m.expired_timepoint t then waiting t ms else m ∷ ms

abbrev pub timeouts : List Message → List (Message × SendResult)
timeouts [] = []
timeouts (m ∷ ms) = (m, node_timeout) ∷ timeouts ms

abbrev pub timing_out : List Message → List Message → Retried
timing_out gone left = record {
  count = length gone;
  sent = [];
  responses = timeouts gone;
  left = left;
  left_size = total_size left;
}

loop-timing_out :
    (send : ℕ → Message → SendResult) (t n size : ℕ) (queue : List Message)
    → size ≡ total_size queue
    → retry_loop send false t (suc n) size queue ≡ timing_out (expired t queue) (waiting t queue)
unfolding retry_loop
loop-timing_out send t n size [] h = ap (λ s. record (timing_out [] []) { left_size = s }) h
loop-timing_out send t n size (m ∷ ms) h = elim (Bool-cases (leb m.expired_timepoint t)) [
  | inl due ↦
      rw (is_positive n, not_positive n, due, due_lem m.expired_timepoint t due)
        (ap (report m node_timeout)
            (loop-timing_out send t n (size - length m.payload) ms (omega (arith, h)))
          ∙ ap (λ k. record (timing_out (m ∷ expired t ms) (waiting t ms)) { count = k })
              (one_more (length (expired t ms))))
  | inr early ↦
      rw (is_positive n, not_positive n, early, early_lem m.expired_timepoint t early)
        (ap (λ s. record (timing_out [] (m ∷ ms)) { left_size = s }) h)
]

waiting-empty : (t : ℕ) (q : List Message) → none_pending q ≡ true → waiting t q ≡ q
waiting-empty t [] h = refl
waiting-empty t (m ∷ ms) h = cc

-- Without a connection, a retry sends nothing: it answers the messages at the front of the queue whose
-- time is over, in order, with a timeout, whatever the limit is, and the rest keeps waiting, with its
-- size, if that was right before.
pub retry-timing_out :
    (send : ℕ → Message → SendResult) (o : Owner) (t max_count : ℕ) (e : Endpoint)
    → has_connection e ≡ false
    → e.pending_message_size ≡ total_size e.pending_message
    → let (e', r) = retry_pending_messages send o t max_count e in
      let left = waiting t e.pending_message in
      (r ≡ timing_out (expired t e.pending_message) left)
      × (e'.pending_message ≡ left)
      × (e'.pending_message_size ≡ total_size left)
retry-timing_out send o t max_count e alone right =
    let q = e.pending_message in
    let (n, positive) = limit-positive max_count in
    retry-by_loop send o t max_count e (timing_out (expired t q) (waiting t q))
      (rw (alone, positive) (loop-timing_out send t n e.pending_message_size q right)) refl
      (waiting-empty t q) right
