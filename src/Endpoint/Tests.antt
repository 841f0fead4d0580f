-- ===== src/Endpoint/Tests.antt =====
-- The theorems about the endpoint at concrete queues.
use libatapp.Prelude.{
  ℕ, ◌≡◌, refl, true, false, none, List, [], ◌∷◌, ◌++◌, inr, arith, ◌==◌, if◌then◌else◌,
}
use libatapp.Endpoint.{
  SendResult, success, other, Message, Handle, Endpoint, Owner, push_forward_message,
  retry_pending_messages, reset, has_connection,
}
use libatapp.Endpoint.Account.{IsWithin, push-IsWithin, total_size}
use libatapp.Endpoint.Retry.{limit_of}
use libatapp.Endpoint.Delivery.{sending, take, drop, retry-sending}
use libatapp.Endpoint.Timeout.{timing_out, expired, waiting, retry-timing_out}
use libatapp.Endpoint.Cancel.{answered, IsClosing, reset-answered}

abbrev ready : Handle
ready = record { is_ready = true; has_connector = true }

abbrev message : ℕ → ℕ → Message
message seq timeout = record {
  message_type = 1;
  message_sequence = seq;
  payload = 7 ∷ 8 ∷ [];
  metadata = none;
  expired_timepoint = timeout;
}

-- three messages wait; the first is due at 50
abbrev three : List Handle → Endpoint
three handles = record {
  closing = false;
  refer_connections = handles;
  pending_message = message 1 40 ∷ message 2 60 ∷ message 3 70 ∷ [];
  pending_message_size = 6;
  nearest_waker = 40;
}

abbrev owner : Owner
owner = record {
  send_buffer_number = 3;
  send_buffer_size = 100;
  last_tick_time = 50;
  message_timeout = 10;
  accepts_waker = true;
}

-- the connector refuses the second message
abbrev refuse_second : Message → SendResult
refuse_second m = if m.message_sequence == 2 then other 5 else success

-- the connector refuses the second of two sends
abbrev refuse_later : ℕ → Message → SendResult
refuse_later n m = if n == 1 then other 5 else success

-- the queue is full
push-IsWithin_example :
    IsWithin owner (push_forward_message refuse_second owner (message 4 0) (three [])).self
push-IsWithin_example =
    push-IsWithin refuse_second owner (message 4 0) (three [])
      (record { size = refl; number = inr (omega arith); bytes = inr (omega arith) })

-- two of the three go
retry-sending_example :
    let (e', r) = retry_pending_messages refuse_later owner 50 2 (three (ready ∷ [])) in
    let q = (three []).pending_message in
    let left = drop (limit_of 2) q in
    (r ≡ sending refuse_later (limit_of 2) (take (limit_of 2) q) left)
    × (e'.pending_message ≡ left)
    × (e'.pending_message_size ≡ total_size left)
retry-sending_example = retry-sending refuse_later owner 50 2 (three (ready ∷ [])) refl refl

-- the first is late
retry-timing_out_example :
    let (e', r) = retry_pending_messages refuse_later owner 50 2 (three []) in
    let q = (three []).pending_message in
    (r ≡ timing_out (expired 50 q) (waiting 50 q))
    × (e'.pending_message ≡ waiting 50 q)
    × (e'.pending_message_size ≡ total_size (waiting 50 q))
retry-timing_out_example = retry-timing_out refuse_later owner 50 2 (three []) refl refl

-- all three stay without an answer
reset-answered_example :
    let (e', responses) = reset (three []) in
    (answered responses ++ e'.pending_message ≡ (three []).pending_message)
    × IsClosing responses
    × (if has_connection (three []) then e'.pending_message ≡ [] else responses ≡ [])
    × (e'.refer_connections ≡ [])
reset-answered_example = reset-answered (three []) refl
