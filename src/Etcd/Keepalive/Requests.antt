-- ===== src/Etcd/Keepalive/Requests.antt =====
-- A key and the server: what can happen to a keepalive, in any order.
use libatapp.Prelude.{
  bytes_eq, ℕ, ◌≡◌, refl, Bool, true, false, ◌&&◌, Option, none, some, List, [], ◌∷◌, if◌then◌else◌,
  arith, inl, inr, Bool-cases,
}
use libatapp.Etcd.Keepalive.{
  Request, get, set, Keepalive, new_keepalive, Http, no_checker, create_request, create_when,
  start_when, checked_with, stored_by, process_when, process, active, set_value, close, Reply,
  failed, no_kvs, content, on_get_data, on_set_data,
}

-- a keepalive with the value that the server has for its key
pub record World : Type 0 where
  pub self : Keepalive
  pub stored : Option (List ℕ)

pub data Event : Type 0 where
  sets_value : Bool → List ℕ → Event
  sets_checker : (List ℕ → Bool) → Event
  activates value_reset : Event
  closes : Bool → Event
  get_reply : Reply → Event
  set_reply : Bool → Event

abbrev pub store_if : Bool → List ℕ → Option (List ℕ) → Option (List ℕ)
store_if ok v stored = if ok then some v else stored

-- a reply to a request that is not under way does not come
abbrev pub reply_get : Http → Reply → World → Option Request → World
reply_get http r w (some get) = record w { self = (on_get_data http r w.self).self }
reply_get http r w _ = w

abbrev pub reply_set : Http → Bool → World → Option Request → World
reply_set http ok w (some (set v)) = record {
  self = (on_set_data http ok w.self).self;
  stored = store_if ok v w.stored;
}
reply_set http ok w _ = w

unfoldable pub step : Http → Event → World → World
unfolding set_value active close on_get_data on_set_data process
step http (sets_value running v) w = record w { self = (set_value http running v w.self).self }
step http (sets_checker f) w = record w { self = record (w.self) { fn = some f } }
step http activates w = record w { self = (active http w.self).self }
step http value_reset w = record w { self = record (w.self) { is_value_changed = true } }
step http (closes b) w = record w { self = close b w.self }
step http (get_reply r) w = reply_get http r w w.self.rpc_opr
step http (set_reply ok) w = reply_set http ok w w.self.rpc_opr

unfoldable pub run : List (Http × Event) → World → World
unfolding step
run [] w = w
run ((http, e) ∷ es) w = run es (step http e w)

abbrev pub new_world : World
new_world = record { self = new_keepalive; stored = none }

-- a value is only sent once the check of the key has run and passed
abbrev pub Checked : Option Request → Bool → Bool → Type 0
Checked none ran passed = Unit {0}
Checked (some get) ran passed = Unit {0}
Checked (some (set v)) ran passed = (ran ≡ true) × (passed ≡ true)

abbrev pub IsChecked : Keepalive → Type 0
IsChecked k = Checked k.rpc_opr k.is_check_run k.is_check_passed

create-IsChecked :
    (run send creates : Bool) (k : Keepalive)
    → k.rpc_opr ≡ none
    → k.is_check_run ≡ run
    → (k.is_check_passed && k.is_value_changed) ≡ send
    → IsChecked (create_when run send creates k).0
create-IsChecked false send true k e r p = tt
create-IsChecked false send false k e r p = rw e tt
create-IsChecked true true true k e r p = (r, ground (arith, p))
create-IsChecked true true false k e r p = rw e tt
create-IsChecked true false creates k e r p = rw e tt

start-IsChecked :
    (starts : Bool) (o : Option Request) (k : Keepalive) (b : Bool)
    → k.rpc_opr ≡ o
    → IsChecked k
    → IsChecked (start_when starts o k b).self
start-IsChecked starts none k b e h = h
start-IsChecked true (some r) k b e h = h
start-IsChecked false (some r) k b e h = tt

pub no_checker-idle :
    (f : Option (List ℕ → Bool)) (k : Keepalive)
    → k.rpc_opr ≡ none
    → (no_checker f k).rpc_opr ≡ none
no_checker-idle none k e = e
no_checker-idle (some f) k e = e

process-IsChecked :
    (http : Http) (o : Option Request) (k : Keepalive)
    → k.rpc_opr ≡ o
    → IsChecked k
    → IsChecked (process_when http o k).self
process-IsChecked http (some r) k e h = h
process-IsChecked http none k e h =
    let k' = no_checker k.fn (record k { is_actived = false }) in
    let made = create_request http.creates k' in
    start-IsChecked http.starts made.0.rpc_opr made.0 made.1 refl (
      create-IsChecked k'.is_check_run (k'.is_check_passed && k'.is_value_changed) http.creates k'
        (no_checker-idle k.fn (record k { is_actived = false }) e) refl refl)

active-IsChecked : (http : Http) (k : Keepalive) → IsChecked k → IsChecked (active http k).self
unfolding active process
active-IsChecked http k h = process-IsChecked http k.rpc_opr (record k { is_actived = true }) refl h

set_value-IsChecked :
    (http : Http) (running : Bool) (v : List ℕ) (k : Keepalive)
    → IsChecked k
    → IsChecked (set_value http running v k).self
unfolding set_value
set_value-IsChecked http running v k h = elim (Bool-cases (bytes_eq k.value v)) [
  | inl same ↦ rw same h
  | inr new ↦ elim (Bool-cases running) [
    | inl runs ↦
        rw (new, runs) (active-IsChecked http (record k { value = v; is_value_changed = true }) h)
    | inr rests ↦ rw (new, rests) h
  ]
]

reply_get-IsChecked :
    (http : Http) (r : Reply) (w : World) (o : Option Request)
    → IsChecked w.self
    → IsChecked (reply_get http r w o).self
unfolding on_get_data
reply_get-IsChecked http r w none h = h
reply_get-IsChecked http r w (some (set v)) h = h
reply_get-IsChecked http failed w (some get) h = tt
reply_get-IsChecked http no_kvs w (some get) h = tt
reply_get-IsChecked http (content v) w (some get) h =
    active-IsChecked http (checked_with v w.self) tt

reply_set-IsChecked :
    (http : Http) (ok : Bool) (w : World) (o : Option Request)
    → IsChecked w.self
    → IsChecked (reply_set http ok w o).self
unfolding on_set_data
reply_set-IsChecked http ok w none h = h
reply_set-IsChecked http ok w (some get) h = h
reply_set-IsChecked http false w (some (set v)) h = tt
reply_set-IsChecked http true w (some (set v)) h = active-IsChecked http (stored_by w.self) tt

step-IsChecked :
    (http : Http) (e : Event) (w : World) → IsChecked w.self → IsChecked (step http e w).self
unfolding step close
step-IsChecked http (sets_value running v) w h = set_value-IsChecked http running v w.self h
step-IsChecked http (sets_checker f) w h = h
step-IsChecked http activates w h = active-IsChecked http w.self h
step-IsChecked http value_reset w h = h
step-IsChecked http (closes b) w h = tt
step-IsChecked http (get_reply r) w h = reply_get-IsChecked http r w w.self.rpc_opr h
step-IsChecked http (set_reply ok) w h = reply_set-IsChecked http ok w w.self.rpc_opr h

run-keeps : (es : List (Http × Event)) (w : World) → IsChecked w.self → IsChecked (run es w).self
unfolding run
run-keeps [] w h = h
run-keeps ((http, e) ∷ es) w h = run-keeps es (step http e w) (step-IsChecked http e w h)

-- Whatever happens to a new keepalive, a request that sets the key is only under way where the check
-- of the key has run and passed.
pub run-IsChecked : (es : List (Http × Event)) → IsChecked (run es new_world).self
run-IsChecked es = run-keeps es new_world tt
