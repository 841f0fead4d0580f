-- ===== src/Connection/Ready.antt =====
-- What is true of handles, endpoints and connectors after any sequence of operations, and what
-- set_unready can do then.
use libatapp.Prelude.{
  ℕ, ◌≡◌, refl, Bool, true, false, ◌||◌, Option, none, some, List, [], ◌∷◌, if-cases, arith,
}
use libatapp.Connection.{
  Net, put_at, has_handle, no_handles, is_at, update_handle, from_endpoint, from_connector,
  close_handle, unbind_endpoint, unbind_connector, bind_endpoint, bind_connector, wake_ready,
  set_ready, wake_waiting, set_unready,
}
use libatapp.Connection.Links.{
  IsLinked, close_handle-IsLinked, unbind_endpoint_with-IsLinked, unbind_connector_with-IsLinked,
  from_endpoint-IsLinked, from_connector-IsLinked, enter_endpoint-IsLinked,
  enter_connector-IsLinked,
}
use libatapp.Connection.Bound.{
  freed-endpoint, freed-connector, close_handle-endpoint, close_handle-connector,
}

-- the operations on handles, and what becomes known of the rest of the world
pub data Change : Type 0 where
  to_endpoint off_endpoint to_connector off_connector : ℕ → ℕ → Change
  closes readies unreadies : ℕ → Change
  destroys : ℕ → Change
  pends : ℕ → Bool → Change

unfoldable pub change : Change → Net → Net
change (to_endpoint h e) s = bind_endpoint h e s
change (off_endpoint h e) s = unbind_endpoint h e s
change (to_connector h c) s = bind_connector h c s
change (off_connector h c) s = unbind_connector h c s
change (closes h) s = close_handle h s
change (readies h) s = set_ready h s
change (unreadies h) s = set_unready h s
change (destroys c) s = record s { is_destroying = put_at c true s.is_destroying }
change (pends e b) s = record s { has_pending = put_at e b s.has_pending }

unfoldable pub change_all : List Change → Net → Net
unfolding change
change_all [] s = s
change_all (c ∷ cs) s = change_all cs (change c s)

-- new handles, without any binding
abbrev pub unbound : Net
unbound = record {
  handles = λ h. record { is_ready = false; is_closing = false; connector = none; endpoint = none };
  refer_connections = λ e. [];
  connector_handles = λ c. [];
  is_destroying = λ c. false;
  has_pending = λ e. false;
  woken = [];
}

bind_endpoint-IsLinked : (h e : ℕ) (s : Net) → IsLinked s → IsLinked (bind_endpoint h e s)
bind_endpoint-IsLinked h e s l =
    if-cases IsLinked (is_at (s.handles h).endpoint e) _ _ (λ here. l)
      (λ away.
        enter_endpoint-IsLinked h e (from_endpoint close_handle h (s.handles h).endpoint s)
          (freed-endpoint close_handle h (s.handles h).endpoint s (close_handle-endpoint h) refl)
          (from_endpoint-IsLinked close_handle close_handle-IsLinked h (s.handles h).endpoint s l))

bind_connector-IsLinked : (h c : ℕ) (s : Net) → IsLinked s → IsLinked (bind_connector h c s)
bind_connector-IsLinked h c s l =
    if-cases IsLinked (is_at (s.handles h).connector c || s.is_destroying c) _ _ (λ stays. l)
      (λ goes.
        enter_connector-IsLinked h c (from_connector close_handle h (s.handles h).connector s)
          (freed-connector close_handle h (s.handles h).connector s (close_handle-connector h) refl)
          (from_connector-IsLinked close_handle close_handle-IsLinked h (s.handles h).connector s
            l))

-- a handle that changes in its flags only keeps its links
flags-IsLinked :
    (h : ℕ) (r c : Bool) (s : Net)
    → IsLinked s
    → IsLinked (update_handle h (record (s.handles h) { is_ready = r; is_closing = c }) s)
flags-IsLinked h r c s l = record {
  endpoints = λ k e. ground (arith, l.endpoints k e);
  connectors = λ k d. ground (arith, l.connectors k d);
}

wake_ready-IsLinked : (e c : Option ℕ) (s : Net) → IsLinked s → IsLinked (wake_ready e c s)
wake_ready-IsLinked none c s l = l
wake_ready-IsLinked (some e) none s l = l
wake_ready-IsLinked (some e) (some c) s l = record {
  endpoints = l.endpoints;
  connectors = l.connectors;
}

wake_waiting-IsLinked : (e : Option ℕ) (s : Net) → IsLinked s → IsLinked (wake_waiting e s)
wake_waiting-IsLinked none s l = l
wake_waiting-IsLinked (some e) s l = record { endpoints = l.endpoints; connectors = l.connectors }

change-IsLinked : (c : Change) (s : Net) → IsLinked s → IsLinked (change c s)
unfolding change
change-IsLinked (to_endpoint h e) s l = bind_endpoint-IsLinked h e s l
change-IsLinked (off_endpoint h e) s l =
    unbind_endpoint_with-IsLinked close_handle close_handle-IsLinked h e s l
change-IsLinked (to_connector h c) s l = bind_connector-IsLinked h c s l
change-IsLinked (off_connector h c) s l =
    unbind_connector_with-IsLinked close_handle close_handle-IsLinked h c s l
change-IsLinked (closes h) s l = close_handle-IsLinked h s l
change-IsLinked (readies h) s l =
    if-cases IsLinked (s.handles h).is_ready _ _ (λ ready. l)
      (λ cold. wake_ready-IsLinked _ _ _ (flags-IsLinked h true false s l))
change-IsLinked (unreadies h) s l =
    if-cases IsLinked (s.handles h).is_ready _ _
      (λ ready. wake_waiting-IsLinked _ _ (flags-IsLinked h false (s.handles h).is_closing s l))
      (λ cold. l)
change-IsLinked (destroys c) s l = record { endpoints = l.endpoints; connectors = l.connectors }
change-IsLinked (pends e b) s l = record { endpoints = l.endpoints; connectors = l.connectors }

all-IsLinked : (cs : List Change) (s : Net) → IsLinked s → IsLinked (change_all cs s)
unfolding change_all
all-IsLinked [] s l = l
all-IsLinked (c ∷ cs) s l = all-IsLinked cs (change c s) (change-IsLinked c s l)

-- After any sequence of operations on new handles, a handle is in the set of an endpoint if and only if
-- it points to that endpoint, and likewise for connectors.
pub change_all-unbound-IsLinked : (cs : List Change) → IsLinked (change_all cs unbound)
change_all-unbound-IsLinked cs =
    all-IsLinked cs unbound (record { endpoints = λ h e. refl; connectors = λ h c. refl })

has_handle-no_handles : (h : ℕ) (xs : List ℕ) → has_handle h xs ≡ true → no_handles xs ≡ false
has_handle-no_handles h [] there = cc
has_handle-no_handles h (x ∷ xs) there = refl

no_waking :
    (h : ℕ) (o : Option ℕ) (s : Net)
    → (s.handles h).endpoint ≡ o
    → IsLinked s
    → (wake_waiting o s).woken ≡ s.woken
no_waking h none s at l = refl
no_waking h (some e) s at l =
    ground (arith, has_handle-no_handles h (s.refer_connections e), l.endpoints h e, at)

-- After any sequence of operations on new handles, set_unready asks for no endpoint to be woken, also
-- where its handle was the only one of an endpoint with waiting messages.
pub set_unready-woken :
    (cs : List Change) (h : ℕ) → let s = change_all cs unbound in (set_unready h s).woken ≡ s.woken
set_unready-woken cs h =
    let s = change_all cs unbound in
    let l = change_all-unbound-IsLinked cs in
    let Same : Net → Type 0 = λ t. t.woken ≡ s.woken in
    if-cases Same (s.handles h).is_ready _ _
      (λ ready.
        no_waking h (s.handles h).endpoint
          (update_handle h (record (s.handles h) { is_ready = false }) s) (ground arith)
          (flags-IsLinked h false (s.handles h).is_closing s l))
      (λ cold. refl)
