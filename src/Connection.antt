-- ===== src/Connection.antt =====
-- The bindings between connection handles, endpoints and connectors: the two bind helpers and
-- atapp_connection_handle of src/atframe/connectors/atapp_connector_impl.cpp. Handles, endpoints and
-- connectors are numbers; a set of handles is a list; on_close_connection of a connector, which its
-- children override, does nothing here.
pub mod Bound
pub mod Links
pub mod Ready
pub mod Tests
use libatapp.Prelude.{
  ℕ, Bool, true, false, not, ◌&&◌, ◌||◌, Option, none, some, List, [], ◌∷◌, ◌==◌, if◌then◌else◌,
}

pub record ConnectionHandle : Type 0 where
  pub is_ready : Bool
  pub is_closing : Bool
  pub connector : Option ℕ
  pub endpoint : Option ℕ

-- All handles, the handles of every endpoint and of every connector, the connectors that are being
-- destroyed, the endpoints with waiting messages, and the endpoints that asked to be woken, the last
-- first.
pub record Net : Type 0 where
  pub handles : ℕ → ConnectionHandle
  pub refer_connections : ℕ → List ℕ
  pub connector_handles : ℕ → List ℕ
  pub is_destroying : ℕ → Bool
  pub has_pending : ℕ → Bool
  pub woken : List ℕ

abbrev pub put_at {ℓ} : {A : Type ℓ} → ℕ → A → (ℕ → A) → ℕ → A
put_at k x f j = if j == k then x else f j

abbrev pub erase_handle : ℕ → List ℕ → List ℕ
erase_handle h [] = []
erase_handle h (x ∷ xs) = if x == h then erase_handle h xs else x ∷ erase_handle h xs

abbrev pub has_handle : ℕ → List ℕ → Bool
has_handle h [] = false
has_handle h (x ∷ xs) = x == h || has_handle h xs

abbrev pub insert_handle : ℕ → List ℕ → List ℕ
insert_handle h xs = if has_handle h xs then xs else h ∷ xs

abbrev pub no_handles : List ℕ → Bool
no_handles [] = true
no_handles (x ∷ xs) = false

abbrev pub is_at : Option ℕ → ℕ → Bool
is_at none k = false
is_at (some j) k = j == k

abbrev pub update_handle : ℕ → ConnectionHandle → Net → Net
update_handle h x s = record s { handles = put_at h x s.handles }

abbrev pub wake_if : Bool → ℕ → Net → Net
wake_if b e s = record s { woken = if b then e ∷ s.woken else s.woken }

-- the handle leaves the endpoint's set; an endpoint without handles asks to be collected
abbrev pub leave_endpoint : ℕ → ℕ → Net → Net
leave_endpoint h e s =
    let left = erase_handle h (s.refer_connections e) in
    let s' = record s { refer_connections = put_at e left s.refer_connections } in
    wake_if (has_handle h (s.refer_connections e) && no_handles left) e s'

abbrev pub leave_connector : ℕ → ℕ → Net → Net
leave_connector h c s = record s {
  connector_handles = put_at c (erase_handle h (s.connector_handles c)) s.connector_handles;
}

-- `close` is what the handle's close() does at that point
abbrev pub unbind_endpoint_with : (ℕ → Net → Net) → ℕ → ℕ → Net → Net
unbind_endpoint_with close h e s =
    let s' = leave_endpoint h e s in
    if is_at (s.handles h).endpoint e
    then close h (update_handle h (record (s.handles h) { endpoint = none }) s')
    else s'

abbrev pub unbind_connector_with : (ℕ → Net → Net) → ℕ → ℕ → Net → Net
unbind_connector_with close h c s =
    let s' = leave_connector h c s in
    if is_at (s.handles h).connector c
    then close h (update_handle h (record (s.handles h) { connector = none }) s')
    else s'

abbrev pub from_endpoint : (ℕ → Net → Net) → ℕ → Option ℕ → Net → Net
from_endpoint close h none s = s
from_endpoint close h (some e) s = unbind_endpoint_with close h e s

abbrev pub from_connector : (ℕ → Net → Net) → ℕ → Option ℕ → Net → Net
from_connector close h none s = s
from_connector close h (some c) s = unbind_connector_with close h c s

abbrev pub start_closing : ℕ → Net → Net
start_closing h s = update_handle h (record (s.handles h) { is_closing = true; is_ready = false }) s

abbrev pub close_with : (ℕ → Net → Net) → ℕ → Net → Net
close_with close h s =
    let s1 = start_closing h s in
    let s2 = from_endpoint close h (s1.handles h).endpoint s1 in
    if (s.handles h).is_closing then s else from_connector close h (s2.handles h).connector s2

-- close() of a handle that is closing
abbrev pub already_closing : ℕ → Net → Net
already_closing h s = s

-- void close(): the calls that it makes come back to it while the handle is closing
abbrev pub close_handle : ℕ → Net → Net
close_handle = close_with already_closing

abbrev pub unbind_endpoint : ℕ → ℕ → Net → Net
unbind_endpoint = unbind_endpoint_with close_handle

abbrev pub unbind_connector : ℕ → ℕ → Net → Net
unbind_connector = unbind_connector_with close_handle

abbrev pub enter_endpoint : ℕ → ℕ → Net → Net
enter_endpoint h e s = wake_if (s.handles h).is_ready e (record s {
  handles = put_at h (record (s.handles h) { endpoint = some e }) s.handles;
  refer_connections = put_at e (insert_handle h (s.refer_connections e)) s.refer_connections;
})

abbrev pub bind_endpoint : ℕ → ℕ → Net → Net
bind_endpoint h e s =
    if is_at (s.handles h).endpoint e
    then s
    else enter_endpoint h e (from_endpoint close_handle h (s.handles h).endpoint s)

abbrev pub enter_connector : ℕ → ℕ → Net → Net
enter_connector h c s = record s {
  handles = put_at h (record (s.handles h) { connector = some c }) s.handles;
  connector_handles = put_at c (insert_handle h (s.connector_handles c)) s.connector_handles;
}

abbrev pub bind_connector : ℕ → ℕ → Net → Net
bind_connector h c s =
    if is_at (s.handles h).connector c || s.is_destroying c
    then s
    else enter_connector h c (from_connector close_handle h (s.handles h).connector s)

abbrev pub wake_ready : Option ℕ → Option ℕ → Net → Net
wake_ready (some e) (some c) s = wake_if true e s
wake_ready e c s = s

-- void set_ready()
abbrev pub set_ready : ℕ → Net → Net
set_ready h s =
    let x = s.handles h in
    if x.is_ready
    then s
    else wake_ready x.endpoint x.connector
        (update_handle h (record x { is_ready = true; is_closing = false }) s)

abbrev pub wake_waiting : Option ℕ → Net → Net
wake_waiting none s = s
wake_waiting (some e) s = wake_if (no_handles (s.refer_connections e) && s.has_pending e) e s

-- void set_unready()
abbrev pub set_unready : ℕ → Net → Net
set_unready h s =
    let x = s.handles h in
    if x.is_ready
    then wake_waiting x.endpoint (update_handle h (record x { is_ready = false }) s)
    else s
