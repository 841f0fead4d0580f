-- ===== src/Etcd/Watch.antt =====
-- The requests of a watcher: the class etcd_watcher of src/atframe/etcdcli/etcd_watcher.cpp. HTTP
-- requests are the owner's: whether one can be created and started is an argument of each call, and
-- so is what it comes back with. Events are the packer's, of any type E, and `decode` is what
-- etcd_packer reads out of a document. Times are since the epoch, and revisions are not negative.
-- What the owner makes of an error code, the logging of process, and the calls that a handler makes
-- on its own watcher are left out.
pub mod Kept
pub mod Server
pub mod Reached
pub mod Replica
pub mod Waiting
pub mod Renewal
pub mod Chunks
pub mod Tests
use libatapp.Prelude.{
  ℕ, ◌+◌, ◌-◌, Bool, true, false, not, ◌&&◌, ◌||◌, Option, none, some, List, [], ◌∷◌, ◌++◌, ltb,
  ◌==◌, if◌then◌else◌, length,
}
use libatapp.Etcd.Frame.{Stream, Fed, on_watch_write}
use libatapp.Etcd.Keepalive.{Http}

-- A request that is under way: a get for the path alone, a get for the whole range, or a watch of
-- the range from a revision on.
pub data Request : Type 0 where
  get_path get_range : Request
  watch : ℕ → Request

pub record Watcher : Type 0 where
  pub data_stream : Stream
  pub rpc_opr : Option Request
  pub is_actived : Bool
  pub is_retry_mode : Bool
  pub last_revision : ℕ
  pub next_request_time : ℕ
  pub retry_interval : ℕ
  pub startup_random_delay_min : ℕ
  pub startup_random_delay_max : ℕ
  pub evt_handle : Bool

abbrev pub empty_stream : Stream
empty_stream = record { written = []; brackets = 0 }

-- the constructor, with an interval of 15 seconds in nanoseconds
abbrev pub new_watcher : Watcher
new_watcher = record {
  data_stream = empty_stream;
  rpc_opr = none;
  is_actived = false;
  is_retry_mode = false;
  last_revision = 0;
  next_request_time = 0;
  retry_interval = 15000000000;
  startup_random_delay_min = 0;
  startup_random_delay_max = 0;
  evt_handle = false;
}

-- void close()
unfoldable pub close : Watcher → Watcher
close w = record w {
  rpc_opr = none;
  is_actived = false;
  is_retry_mode = false;
  last_revision = 0;
  evt_handle = false;
}

-- what becomes of a request that process makes
abbrev pub start_request : Http → ℕ → Request → Watcher → Watcher
start_request http now r w =
    if not http.creates
    then record w { next_request_time = now + w.retry_interval }
    else record w { rpc_opr = if http.starts then some r else none }

abbrev pub ask_range : Http → ℕ → Watcher → Watcher
ask_range http now w = start_request http now (if w.is_retry_mode then get_path else get_range) w

abbrev pub ask_watch : Http → ℕ → Watcher → Watcher
ask_watch http now w =
    start_request http now (watch (w.last_revision + 1))
      (record w { data_stream = if http.creates then empty_stream else w.data_stream })

module _ (random_between : ℕ → ℕ) where
  -- the end of the delay at the start; random_between takes a number from 0 to its argument
  abbrev pub startup_time : ℕ → Watcher → ℕ
  startup_time now w =
      if ltb w.startup_random_delay_min w.startup_random_delay_max
      then now + random_between (w.startup_random_delay_max - w.startup_random_delay_min)
      else now + w.startup_random_delay_min

  abbrev pub process_idle : Http → ℕ → Watcher → Watcher
  process_idle http now w =
      if ltb now w.next_request_time
      then w
      else if w.next_request_time == 0 && ltb 0 w.startup_random_delay_min
      then record w { next_request_time = startup_time now w }
      else if w.last_revision == 0 || w.is_retry_mode
      then ask_range http now w
      else ask_watch http now w

  abbrev pub process_when : Option Request → Http → ℕ → Watcher → Watcher
  process_when (some r) http now w = w
  process_when none http now w = process_idle http now (record w { is_actived = false })

  -- void process()
  unfoldable pub process : Http → ℕ → Watcher → Watcher
  process http now w = process_when w.rpc_opr http now w

  -- void active()
  unfoldable pub active : Http → ℕ → Watcher → Watcher
  unfolding process
  active http now w = process http now (record w { is_actived = true })

-- what the handler is told
pub record Response {ℓ} (E : Type ℓ) : Type ℓ where
  pub watch_id : ℕ
  pub created : Bool
  pub canceled : Bool
  pub snapshot : Bool
  pub compact_revision : ℕ
  pub events : List E

-- a watcher, with the header's revision and the response of each call of its handler so far
pub record World {ℓ} (E : Type ℓ) : Type ℓ where
  pub self : Watcher
  pub told : List (ℕ × Response E)

-- What a get request comes back with: an error, a text that is no object, or an object with the
-- revision of its header, which is 0 where there is none, and its key values as events.
pub data RangeReply {ℓ} (E : Type ℓ) : Type ℓ where
  failed no_object : RangeReply E
  content : ℕ → List E → RangeReply E

-- what a document of a watch says: the revision of its header, where it has one, and the response
pub record Message {ℓ} (E : Type ℓ) : Type ℓ where
  pub header : Option ℕ
  pub response : Response E

pub data ErrorCode : Type 0 where
  no_error operation_timedout other_error : ErrorCode

-- the revision that is saved from the header of a document
abbrev pub save_revision : Option ℕ → ℕ → ℕ
save_revision none last = last
save_revision (some revision) last = if revision == 0 then last else revision

abbrev pub header_revision : Option ℕ → ℕ
header_revision none = 0
header_revision (some revision) = revision

abbrev pub retry_later : ℕ → Watcher → Watcher
retry_later now w = record w { next_request_time = now + w.retry_interval }

-- the time of the next request after a watch, on its error code and on whether its status says
-- that it succeeded
abbrev pub watch_ended : ErrorCode → Bool → ℕ → Watcher → Watcher
watch_ended no_error true now w = w
watch_ended no_error false now w = retry_later now w
watch_ended operation_timedout success now w = record w { next_request_time = now }
watch_ended other_error true now w = record w { next_request_time = now }
watch_ended other_error false now w = retry_later now w

module _ {ℓ} {E : Type ℓ} where
  abbrev pub tell : ℕ → Response E → World E → World E
  tell revision response w = record w {
    told = if w.self.evt_handle then w.told ++ (revision, response) ∷ [] else w.told;
  }

  abbrev pub first_response : List E → Response E
  first_response events = record {
    watch_id = 0;
    created = false;
    canceled = false;
    snapshot = true;
    compact_revision = 0;
    events = events;
  }

  -- a cancellation: a range that was compacted has to be asked for again
  abbrev pub when_canceled : ℕ → Response E → World E → World E
  when_canceled previous r w =
      if r.canceled && ltb previous r.compact_revision
      then record w { self = record (w.self) { last_revision = 0 } }
      else w

  -- one document of libcurl_callback_on_watch_write
  unfoldable pub on_document : Option (Message E) → World E → World E
  on_document none w = w
  on_document (some m) w =
      let last = save_revision m.header w.self.last_revision in
      when_canceled w.self.last_revision m.response (
        tell (header_revision m.header) (record (m.response) { snapshot = false })
          (record w { self = record (w.self) { last_revision = last } }))

  module _ (decode : List ℕ → Option (Message E)) where
    unfoldable pub on_documents : List (List ℕ) → World E → World E
    unfolding on_document
    on_documents [] w = w
    on_documents (d ∷ ds) w = on_documents ds (on_document (decode d) w)

    abbrev pub on_fed : Option Fed → World E → Option (World E)
    unfolding on_documents
    on_fed none w = none
    on_fed (some (s, ds)) w =
        some (on_documents ds (record w { self = record (w.self) { data_stream = s } }))

    -- libcurl_callback_on_watch_write on a chunk, with fuel for its bytes
    unfoldable pub on_chunk : List ℕ → World E → Option (World E)
    on_chunk inbuf w = on_fed (on_watch_write (length inbuf) w.self.data_stream inbuf) w

  module _ (random_between : ℕ → ℕ) where
    abbrev pub active_in : Http → ℕ → World E → World E
    unfolding active
    active_in http now w = record w { self = active random_between http now w.self }

    -- a reply that is no error: in the retry mode it only ends that mode
    abbrev pub on_range_content : Http → ℕ → RangeReply E → World E → World E
    on_range_content http now (content revision events) w =
        if revision == 0
        then active_in http now (record w { self = retry_later now w.self })
        else (let saved =
              tell revision (first_response events)
                (record w { self = record (w.self) { last_revision = revision } }) in
            active_in http now
              (record saved { self = record (saved.self) { next_request_time = now } }))
    on_range_content http now _ w = active_in http now (record w { self = retry_later now w.self })

    abbrev pub on_range_reply : Http → ℕ → RangeReply E → World E → World E
    on_range_reply http now failed w = record w { self = retry_later now w.self }
    on_range_reply http now r w =
        let renewed = record (w.self) { is_retry_mode = false; next_request_time = now } in
        if w.self.is_retry_mode
        then active_in http now (record w { self = renewed })
        else on_range_content http now r w

    -- int libcurl_callback_on_range_completed(req)
    unfoldable pub on_range_completed : Http → ℕ → RangeReply E → World E → World E
    on_range_completed http now r w =
        on_range_reply http now r (record w { self = record (w.self) { rpc_opr = none } })

    -- int libcurl_callback_on_watch_completed(req)
    unfoldable pub on_watch_completed : Http → ℕ → ErrorCode → Bool → World E → World E
    on_watch_completed http now e success w = active_in http now (record w {
      self = watch_ended e success now (record (w.self) { rpc_opr = none; is_retry_mode = true });
    })
