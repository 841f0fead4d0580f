-- ===== src/Endpoint.antt =====
-- The messages that wait for a connection: atapp_endpoint of src/atframe/connectors/atapp_endpoint.cpp,
-- with push_forward_message, retry_pending_messages and cancel_pending_messages. A connector is
-- what sends a message and says with which result, the parameter `send`; it does not call the
-- endpoint back while it does. Times are nanoseconds.
pub mod Account
pub mod Cancel
pub mod Delivery
pub mod Retry
pub mod Timeout
pub mod Tests
use libatapp.Prelude.{
  ℕ, zero, suc, ◌+◌, ◌-◌, ◌/◌, Bool, true, false, not, ◌&&◌, ◌||◌, Option, none, some, List, [],
  ◌∷◌, ◌++◌, ltb, leb, ◌==◌, length, if◌then◌else◌,
}

-- the results of atbus that the endpoint tells apart
pub data SendResult : Type 0 where
  success closing_code buff_limit no_connection invalid_id node_timeout : SendResult
  other : ℕ → SendResult

pub record Message : Type 0 where
  pub message_type : ℕ
  pub message_sequence : ℕ
  pub payload : List ℕ
  pub metadata : Option ℕ
  pub expired_timepoint : ℕ

-- a connection handle: whether it is ready, and whether it has a connector
pub record Handle : Type 0 where
  pub is_ready : Bool
  pub has_connector : Bool

pub record Endpoint : Type 0 where
  pub closing : Bool
  pub refer_connections : List Handle
  pub pending_message : List Message
  pub pending_message_size : ℕ
  pub nearest_waker : ℕ

-- the limits and the time-out of the owner's configuration
pub record Owner : Type 0 where
  pub send_buffer_number : ℕ
  pub send_buffer_size : ℕ
  pub last_tick_time : ℕ
  pub message_timeout : ℕ
  pub accepts_waker : Bool

-- What a call leaves: the endpoint, the messages that the connector has taken over, and the failures
-- that were reported, both in order.
pub record Sent : Type 0 where
  pub self : Endpoint
  pub code : SendResult
  pub sent : List Message
  pub responses : List (Message × SendResult)

abbrev pub get_ready_connection_handle : List Handle → Option Handle
get_ready_connection_handle [] = none
get_ready_connection_handle (h ∷ hs) = if h.is_ready then some h else get_ready_connection_handle hs

abbrev pub connects : Option Handle → Bool
connects none = false
connects (some h) = h.has_connector

-- there is a ready handle, and it has a connector
abbrev pub has_connection : Endpoint → Bool
has_connection e = connects (get_ready_connection_handle e.refer_connections)

abbrev pub wakes : Owner → ℕ → Endpoint → Bool
wakes o wakeup_time e =
    (ltb wakeup_time e.nearest_waker || e.nearest_waker / 1_000_000_000 == 0) && o.accepts_waker

-- void add_waker(wakeup_time)
abbrev pub add_waker : Owner → ℕ → Endpoint → Endpoint
add_waker o wakeup_time e =
    if wakes o wakeup_time e then record e { nearest_waker = wakeup_time } else e

abbrev pub is_limited : Owner → ℕ → Endpoint → Bool
is_limited o size e =
    (ltb 0 o.send_buffer_number && ltb o.send_buffer_number (length e.pending_message + 1))
    || (ltb 0 o.send_buffer_size && ltb o.send_buffer_size (e.pending_message_size + size))

abbrev pub enqueue : Owner → Message → Endpoint → Endpoint
enqueue o msg e = add_waker o (o.last_tick_time + o.message_timeout) (record e {
  pending_message =
      e.pending_message
      ++ record msg { expired_timepoint = o.last_tick_time + o.message_timeout } ∷ [];
  pending_message_size = e.pending_message_size + length msg.payload;
})

abbrev pub no_data : List ℕ → Bool
no_data [] = true
no_data (c ∷ cs) = false

abbrev pub none_pending : List Message → Bool
none_pending [] = true
none_pending (m ∷ ms) = false

abbrev pub queue_or_refuse : Owner → Message → Endpoint → Sent
queue_or_refuse o msg e =
    if is_limited o (length msg.payload) e
    then record { self = e; code = buff_limit; sent = []; responses = (msg, buff_limit) ∷ [] }
    else record { self = enqueue o msg e; code = success; sent = []; responses = [] }

-- the result of a direct send: lost connections go on to the queue
abbrev pub after_send : Owner → Message → Endpoint → SendResult → Sent
after_send o msg e success = record { self = e; code = success; sent = msg ∷ []; responses = [] }
after_send o msg e no_connection = queue_or_refuse o msg e
after_send o msg e invalid_id = queue_or_refuse o msg e
after_send o msg e c = record { self = e; code = c; sent = []; responses = (msg, c) ∷ [] }

-- int32_t push_forward_message(type, msg_sequence, data, metadata)
unfoldable pub push_forward_message : (Message → SendResult) → Owner → Message → Endpoint → Sent
push_forward_message send o msg e =
    if e.closing
    then record { self = e; code = closing_code; sent = []; responses = (msg, closing_code) ∷ [] }
    else if no_data msg.payload
    then record { self = e; code = success; sent = []; responses = [] }
    else if none_pending e.pending_message && has_connection e
    then after_send o msg e (send msg)
    else queue_or_refuse o msg e

-- the messages that a retry has taken off the queue, by what became of them
pub record Retried : Type 0 where
  pub count : ℕ
  pub sent : List Message
  pub responses : List (Message × SendResult)
  pub left : List Message
  pub left_size : ℕ

abbrev pub report : Message → SendResult → Retried → Retried
report msg success r = record r { count = r.count + 1; sent = msg ∷ r.sent }
report msg c r = record r { count = r.count + 1; responses = (msg, c) ∷ r.responses }

-- `while (!pending_message_.empty())`; what the connector makes of a message may depend on the sends
-- before it, which are known from the count that is left; subtraction stops at 0 as the source makes it
unfoldable pub retry_loop : (ℕ → Message → SendResult) → Bool → ℕ → ℕ → ℕ → List Message → Retried
retry_loop send connected tick_time max_count size [] = record {
  count = 0;
  sent = [];
  responses = [];
  left = [];
  left_size = size;
}
retry_loop send connected tick_time max_count size (msg ∷ queue) =
    let next_size = size - length msg.payload in
    let after_sent = retry_loop send connected tick_time (max_count - 1) next_size queue in
    let after_timeout = retry_loop send connected tick_time max_count next_size queue in
    if ltb 0 max_count && connected
    then report msg (send max_count msg) after_sent
    else if ltb tick_time msg.expired_timepoint || leb max_count 0
    then record { count = 0; sent = []; responses = []; left = msg ∷ queue; left_size = size }
    else report msg node_timeout after_timeout

abbrev pub first_timeout : Owner → List Message → Endpoint → Endpoint
first_timeout o [] e = record e { pending_message_size = 0 }
first_timeout o (m ∷ ms) e = add_waker o m.expired_timepoint e

-- Including equal
abbrev pub passed_waker : ℕ → Endpoint → Endpoint
passed_waker tick_time e =
    if leb e.nearest_waker tick_time then record e { nearest_waker = 0 } else e

abbrev pub after_retry : Owner → Endpoint → Retried → Endpoint
after_retry o e r =
    first_timeout o r.left
      (record e { pending_message = r.left; pending_message_size = r.left_size })

-- int32_t retry_pending_messages(tick_time, max_count)
unfoldable pub retry_pending_messages :
    (ℕ → Message → SendResult) → Owner → ℕ → ℕ → Endpoint → Endpoint × Retried
unfolding retry_loop
retry_pending_messages send o tick_time max_count e =
    let awake = passed_waker tick_time e in
    let limit = if leb max_count 0 then 2_147_483_647 else max_count in
    let r =
      retry_loop send (has_connection e) tick_time limit e.pending_message_size e.pending_message in
    if none_pending e.pending_message then (awake, r) else (after_retry o awake r, r)

abbrev pub all_closing : List Message → List (Message × SendResult)
all_closing [] = []
all_closing (m ∷ ms) = (m, closing_code) ∷ all_closing ms

-- void cancel_pending_messages()
unfoldable pub cancel_pending_messages : Endpoint → Endpoint × List (Message × SendResult)
cancel_pending_messages e =
    if has_connection e
    then (
      record e { pending_message = []; pending_message_size = 0 },
      all_closing e.pending_message,
    )
    else (e, [])

-- void reset(), with the handles let go
unfoldable pub reset : Endpoint → Endpoint × List (Message × SendResult)
unfolding cancel_pending_messages
reset e =
    let (e', responses) = cancel_pending_messages e in
    if e.closing then (e, []) else (record e' { refer_connections = [] }, responses)
