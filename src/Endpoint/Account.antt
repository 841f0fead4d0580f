-- ===== src/Endpoint/Account.antt =====
-- The size that an endpoint keeps, and the limits of its owner.
use libatapp.Prelude.{
  ℕ, ◌+◌, ◌≤◌, ◌≡◌, ◌⊎◌, false, ◌&&◌, List, [], ◌∷◌, ◌++◌, arith, inl, inr, Bool-cases, if-cases,
  length, length-append,
}
use libatapp.Endpoint.{
  SendResult, success, closing_code, buff_limit, no_connection, invalid_id, node_timeout, other,
  Message, Endpoint, Owner, Sent, wakes, add_waker, is_limited, enqueue, queue_or_refuse,
  after_send, push_forward_message, has_connection, none_pending, no_data,
}

abbrev pub total_size : List Message → ℕ
total_size [] = 0
total_size (m ∷ ms) = length m.payload + total_size ms

-- the size is the sum over the queue, and both are within the limits, where there are any
pub record IsWithin (o : Owner) (e : Endpoint) : Type 0 where
  pub size : e.pending_message_size ≡ total_size e.pending_message
  pub number : (o.send_buffer_number ≡ 0) ⊎ (length e.pending_message ≤ o.send_buffer_number)
  pub bytes : (o.send_buffer_size ≡ 0) ⊎ (e.pending_message_size ≤ o.send_buffer_size)

total_size-append : (a b : List Message) → total_size (a ++ b) ≡ total_size a + total_size b
total_size-append [] b = omega arith
total_size-append (m ∷ a) b = omega (arith, total_size-append a b)

add_waker-IsWithin :
    (o : Owner) (t : ℕ) (e : Endpoint) → IsWithin o e → IsWithin o (add_waker o t e)
add_waker-IsWithin o t e h = elim (Bool-cases (wakes o t e)) [
  | inl earlier ↦ rw earlier (record { size = h.size; number = h.number; bytes = h.bytes })
  | inr later ↦ rw later h
]

enqueue-IsWithin :
    (o : Owner) (msg : Message) (e : Endpoint)
    → is_limited o (length msg.payload) e ≡ false
    → IsWithin o e
    → IsWithin o (enqueue o msg e)
enqueue-IsWithin o msg e free h =
    let stamped = record msg { expired_timepoint = o.last_tick_time + o.message_timeout } in
    let longer = length-append e.pending_message (stamped ∷ []) in
    let larger = total_size-append e.pending_message (stamped ∷ []) in
    add_waker-IsWithin o (o.last_tick_time + o.message_timeout)
      (record e {
        pending_message = e.pending_message ++ stamped ∷ [];
        pending_message_size = e.pending_message_size + length msg.payload;
      })
      (record {
        size = omega (arith, larger, h.size);
        number = ground (arith, longer, free);
        bytes = ground (arith, free);
      })

queue_or_refuse-IsWithin :
    (o : Owner) (msg : Message) (e : Endpoint)
    → IsWithin o e
    → IsWithin o (queue_or_refuse o msg e).self
queue_or_refuse-IsWithin o msg e h = elim (Bool-cases (is_limited o (length msg.payload) e)) [
  | inl full ↦ rw full h
  | inr free ↦ rw free (enqueue-IsWithin o msg e free h)
]

after_send-IsWithin :
    (o : Owner) (msg : Message) (e : Endpoint) (c : SendResult)
    → IsWithin o e
    → IsWithin o (after_send o msg e c).self
after_send-IsWithin o msg e success h = h
after_send-IsWithin o msg e no_connection h = queue_or_refuse-IsWithin o msg e h
after_send-IsWithin o msg e invalid_id h = queue_or_refuse-IsWithin o msg e h
after_send-IsWithin o msg e closing_code h = h
after_send-IsWithin o msg e buff_limit h = h
after_send-IsWithin o msg e node_timeout h = h
after_send-IsWithin o msg e (other n) h = h

-- push_forward_message keeps the sum of the sizes right, and keeps the queue within the limits.
pub push-IsWithin :
    (send : Message → SendResult) (o : Owner) (msg : Message) (e : Endpoint)
    → IsWithin o e
    → IsWithin o (push_forward_message send o msg e).self
unfolding push_forward_message
push-IsWithin send o msg e h =
    let P : Sent → Type 0 = λ r. IsWithin o r.self in
    if-cases P e.closing _ _ (λ ends. h)
      (λ open_yet.
        if-cases P (no_data msg.payload) _ _ (λ empty. h)
          (λ full.
            if-cases P (none_pending e.pending_message && has_connection e) _ _
              (λ direct. after_send-IsWithin o msg e (send msg) h)
              (λ waits. queue_or_refuse-IsWithin o msg e h)))
