-- ===== src/Endpoint/Delivery.antt =====
-- What a retry with a connection does with the waiting messages.
use libatapp.Prelude.{
  ℕ, zero, suc, ◌+◌, ◌-◌, ◌≡◌, refl, ap, ◌∙◌, true, List, [], ◌∷◌, ltb, arith, inl, inr, Bool-cases,
  length,
}
use libatapp.Endpoint.{
  SendResult, success, closing_code, buff_limit, no_connection, invalid_id, node_timeout, other,
  Message, Endpoint, Owner, Retried, report, retry_loop, none_pending, retry_pending_messages,
  has_connection,
}
use libatapp.Endpoint.Retry.{one_more, is_positive, limit_of, retry-by_loop}
use libatapp.Endpoint.Account.{total_size}

-- the messages of a list that are sent, with a number of sends left, and the others with the error of each
abbrev pub delivered_at : Message → SendResult → List Message → List Message
delivered_at m success rest = m ∷ rest
delivered_at m c rest = rest

abbrev pub failures_at :
    Message → SendResult → List (Message × SendResult) → List (Message × SendResult)
failures_at m success rest = rest
failures_at m c rest = (m, c) ∷ rest

abbrev pub delivered : (ℕ → Message → SendResult) → ℕ → List Message → List Message
delivered send n [] = []
delivered send n (m ∷ ms) = delivered_at m (send n m) (delivered send (n - 1) ms)

abbrev pub failures : (ℕ → Message → SendResult) → ℕ → List Message → List (Message × SendResult)
failures send n [] = []
failures send n (m ∷ ms) = failures_at m (send n m) (failures send (n - 1) ms)

abbrev pub take : ℕ → List Message → List Message
take n [] = []
take zero (m ∷ ms) = []
take (suc n) (m ∷ ms) = m ∷ take n ms

abbrev pub drop : ℕ → List Message → List Message
drop n [] = []
drop zero (m ∷ ms) = m ∷ ms
drop (suc n) (m ∷ ms) = drop n ms

-- what a retry reports when, with `n` sends left, `taken` went to the connector and `left` stays
abbrev pub sending : (ℕ → Message → SendResult) → ℕ → List Message → List Message → Retried
sending send n taken left = record {
  count = length taken;
  sent = delivered send n taken;
  responses = failures send n taken;
  left = left;
  left_size = total_size left;
}

report_lem :
    (m : Message) (c : SendResult) (r : Retried)
    → report m c r ≡ record r {
      count = r.count + 1;
      sent = delivered_at m c r.sent;
      responses = failures_at m c r.responses;
    }
report_lem m success r = refl
report_lem m closing_code r = refl
report_lem m buff_limit r = refl
report_lem m no_connection r = refl
report_lem m invalid_id r = refl
report_lem m node_timeout r = refl
report_lem m (other n) r = refl

one_less : (n : ℕ) → suc n - 1 ≡ n
one_less n = omega arith

loop-sending :
    (send : ℕ → Message → SendResult) (t n size : ℕ) (queue : List Message)
    → size ≡ total_size queue
    → retry_loop send true t n size queue ≡ sending send n (take n queue) (drop n queue)
unfolding retry_loop
loop-sending send t n size [] h = ap (λ s. record (sending send n [] []) { left_size = s }) h
loop-sending send t zero size (m ∷ ms) h = elim (Bool-cases (ltb t m.expired_timepoint)) [
  | inl waits ↦ rw waits (ap (λ s. record (sending send 0 [] (m ∷ ms)) { left_size = s }) h)
  | inr expired ↦ rw expired (ap (λ s. record (sending send 0 [] (m ∷ ms)) { left_size = s }) h)
]
loop-sending send t (suc n) size (m ∷ ms) h =
    rw (is_positive n, one_less n)
      (ap (report m (send (suc n) m))
          (loop-sending send t n (size - length m.payload) ms (omega (arith, h)))
        ∙ report_lem m (send (suc n) m) (sending send n (take n ms) (drop n ms))
        ∙ ap
            (λ k. record (sending send n (take n ms) (drop n ms)) {
              count = k;
              sent = delivered_at m (send (suc n) m) (delivered send n (take n ms));
              responses = failures_at m (send (suc n) m) (failures send n (take n ms));
            })
            (one_more (length (take n ms))))

drop-empty : (n : ℕ) (q : List Message) → none_pending q ≡ true → drop n q ≡ q
drop-empty n [] h = refl
drop-empty n (m ∷ ms) h = cc

-- With a connection, a retry hands the first messages of the queue to the connector, in order and up to
-- the limit (all of them where the limit is not positive and there are at most 2147483647): those that
-- the connector takes over are sent, the others are answered with its error, the rest keeps waiting,
-- and the size that is kept is that of the rest, if it was right before.
pub retry-sending :
    (send : ℕ → Message → SendResult) (o : Owner) (t max_count : ℕ) (e : Endpoint)
    → has_connection e ≡ true
    → e.pending_message_size ≡ total_size e.pending_message
    → let (e', r) = retry_pending_messages send o t max_count e in
      let left = drop (limit_of max_count) e.pending_message in
      (r ≡ sending send (limit_of max_count) (take (limit_of max_count) e.pending_message) left)
      × (e'.pending_message ≡ left)
      × (e'.pending_message_size ≡ total_size left)
retry-sending send o t max_count e connected right =
    let limit = limit_of max_count in
    let q = e.pending_message in
    retry-by_loop send o t max_count e (sending send limit (take limit q) (drop limit q))
      (rw connected (loop-sending send t limit e.pending_message_size q right)) refl
      (drop-empty limit q) right
