-- ===== src/Etcd/Keepalive.antt =====
-- One key that a process keeps in etcd: the class etcd_keepalive of
-- src/atframe/etcdcli/etcd_keepalive.cpp. HTTP requests are the owner's: whether one can be created
-- and started is a parameter of each call, and its reply an argument of its callback. The
-- check of a key is a Boolean function of the value that the key has in etcd.
pub mod Requests
pub mod Fresh
pub mod Sending
use libatapp.Prelude.{
  bytes_eq, ℕ, ◌+◌, Bool, true, false, not, ◌&&◌, Option, none, some, List, [], ◌∷◌, if◌then◌else◌,
}

-- the request that is under way: for the present value of the key, or to set it
pub data Request : Type 0 where
  get : Request
  set : List ℕ → Request

pub record Keepalive : Type 0 where
  pub value : List ℕ
  pub fn : Option (List ℕ → Bool)
  pub is_check_run : Bool
  pub is_check_passed : Bool
  pub retry_times : ℕ
  pub rpc_opr : Option Request
  pub is_actived : Bool
  pub is_value_changed : Bool
  pub has_data : Bool

abbrev pub new_keepalive : Keepalive
new_keepalive = record {
  value = [];
  fn = none;
  is_check_run = false;
  is_check_passed = false;
  retry_times = 0;
  rpc_opr = none;
  is_actived = false;
  is_value_changed = true;
  has_data = false;
}

-- whether the owner can create a request, and whether the request starts
pub record Http : Type 0 where
  pub creates : Bool
  pub starts : Bool

-- What a call leaves: the object, whether it asked the owner for a retry, and whether it reported
-- that it is ready.
pub record Done : Type 0 where
  pub self : Keepalive
  pub retry : Bool
  pub ready : Bool

abbrev pub no_checker : Option (List ℕ → Bool) → Keepalive → Keepalive
no_checker none k = record k {
  is_check_run = true;
  is_check_passed = true;
  retry_times = k.retry_times + 1;
}
no_checker (some f) k = k

-- the request that process creates, with the flag need_retry: on whether the check has run, whether
-- it passed and the value is new, and whether the owner can create a request
abbrev pub create_when : Bool → Bool → Bool → Keepalive → Keepalive × Bool
create_when false send true k = (record k { rpc_opr = some get }, false)
create_when false send false k = (record k { retry_times = k.retry_times + 1 }, true)
create_when true true true k =
    (record k { rpc_opr = some (set k.value); is_value_changed = false }, false)
create_when true true false k = (k, true)
create_when true false creates k = (k, false)

abbrev pub create_request : Bool → Keepalive → Keepalive × Bool
create_request creates k =
    create_when k.is_check_run (k.is_check_passed && k.is_value_changed) creates k

abbrev pub start_when : Bool → Option Request → Keepalive → Bool → Done
start_when starts none k need_retry = record { self = k; retry = need_retry; ready = false }
start_when true (some r) k need_retry = record { self = k; retry = need_retry; ready = false }
start_when false (some r) k need_retry = record {
  self = record k { rpc_opr = none };
  retry = true;
  ready = false;
}

abbrev pub start_request : Bool → Keepalive × Bool → Done
start_request starts (k, need_retry) = start_when starts k.rpc_opr k need_retry

abbrev pub process_when : Http → Option Request → Keepalive → Done
process_when http (some r) k = record { self = k; retry = false; ready = false }
process_when http none k =
    start_request http.starts
      (create_request http.creates (no_checker k.fn (record k { is_actived = false })))

-- void process()
unfoldable pub process : Http → Keepalive → Done
process http k = process_when http k.rpc_opr k

-- void active()
unfoldable pub active : Http → Keepalive → Done
unfolding process
active http k = process http (record k { is_actived = true })

abbrev pub done : Keepalive → Done
done k = record { self = k; retry = false; ready = false }

-- void set_value(str), where `running` is: the owner runs and has a lease
unfoldable pub set_value : Http → Bool → List ℕ → Keepalive → Done
unfolding active
set_value http running str k =
    let changed = record k { value = str; is_value_changed = true } in
    if bytes_eq k.value str then done k else if running then active http changed else done changed

-- void close(reset_has_data_flag)
unfoldable pub close : Bool → Keepalive → Keepalive
close reset_has_data_flag k = record k {
  rpc_opr = none;
  is_actived = false;
  is_value_changed = true;
  has_data = if reset_has_data_flag then false else k.has_data;
  is_check_run = false;
  is_check_passed = false;
  fn = none;
  retry_times = 0;
}

-- What a get request can come back with: an error, a count without an array of values, or the value
-- (empty where the key is not there or the reply is no object).
pub data Reply : Type 0 where
  failed no_kvs : Reply
  content : List ℕ → Reply

abbrev pub passes : Option (List ℕ → Bool) → List ℕ → Bool
passes none v = true
passes (some f) v = f v

abbrev pub ready_if : Bool → Done → Done
ready_if passed d = record d { ready = passed }

-- the object once the check of the value `v` has run
abbrev pub checked_with : List ℕ → Keepalive → Keepalive
checked_with v k = record k {
  rpc_opr = none;
  retry_times = k.retry_times + 1;
  is_check_run = true;
  is_check_passed = passes k.fn v;
}

-- int libcurl_callback_on_get_data(req)
unfoldable pub on_get_data : Http → Reply → Keepalive → Done
unfolding active
on_get_data http failed k = record {
  self = record k { rpc_opr = none; retry_times = k.retry_times + 1 };
  retry = true;
  ready = false;
}
on_get_data http no_kvs k = record {
  self = record k { rpc_opr = none; retry_times = k.retry_times + 1 };
  retry = true;
  ready = false;
}
on_get_data http (content v) k = ready_if (passes k.fn v) (active http (checked_with v k))

abbrev pub stored_by : Keepalive → Keepalive
stored_by k = record k { rpc_opr = none; has_data = true }

-- int libcurl_callback_on_set_data(req)
unfoldable pub on_set_data : Http → Bool → Keepalive → Done
unfolding active
on_set_data http false k = record {
  self = record k { rpc_opr = none; is_value_changed = true };
  retry = true;
  ready = false;
}
on_set_data http true k = active http (stored_by k)
