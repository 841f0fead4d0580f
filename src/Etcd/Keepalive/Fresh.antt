-- ===== src/Etcd/Keepalive/Fresh.antt =====
-- That the server gets the value in the end.
use mathlib.Core.Bool.{false≢true}
use libatapp.Prelude.{
  bytes_eq, ℕ, ◌≡◌, refl, sym, ap, Bool, true, false, ◌&&◌, Option, none, some, List, [], ◌∷◌, inl,
  inr, Bool-cases,
}
use libatapp.Etcd.Keepalive.{
  Request, get, set, Keepalive, Http, no_checker, create_request, create_when, start_when,
  checked_with, stored_by, process_when, process, active, set_value, close, Reply, failed, no_kvs,
  content, on_get_data, on_set_data,
}
use libatapp.Etcd.Keepalive.Requests.{
  World, Event, sets_value, sets_checker, activates, value_reset, closes, get_reply, set_reply,
  reply_get, reply_set, step, run, new_world, no_checker-idle,
}

-- Where the value is not marked as changed, it is the one that the server has, or the one that is
-- on its way to it.
abbrev pub Fresh : Option Request → List ℕ → Bool → Option (List ℕ) → Type 0
Fresh none value changed stored = changed ≡ false → stored ≡ some value
Fresh (some get) value changed stored = changed ≡ false → stored ≡ some value
Fresh (some (set v)) value changed stored = changed ≡ false → v ≡ value

abbrev pub FreshAt : Option (List ℕ) → Keepalive → Type 0
FreshAt stored k = Fresh k.rpc_opr k.value k.is_value_changed stored

abbrev pub IsFresh : World → Type 0
IsFresh w = FreshAt w.stored w.self

changed-Fresh :
    (o : Option Request) (value : List ℕ) (stored : Option (List ℕ)) → Fresh o value true stored
changed-Fresh none value stored = λ e. absurd (false≢true (sym e))
changed-Fresh (some get) value stored = λ e. absurd (false≢true (sym e))
changed-Fresh (some (set v)) value stored = λ e. absurd (false≢true (sym e))

create-Fresh :
    (run send creates : Bool) (k : Keepalive) (stored : Option (List ℕ))
    → k.rpc_opr ≡ none
    → FreshAt stored k
    → FreshAt stored (create_when run send creates k).0
create-Fresh false send true k stored e h = rw e at h
create-Fresh false send false k stored e h = h
create-Fresh true true true k stored e h = λ c. refl
create-Fresh true true false k stored e h = h
create-Fresh true false creates k stored e h = h

start_keeps : (o : Option Request) (k : Keepalive) (b : Bool) → (start_when true o k b).self ≡ k
start_keeps none k b = refl
start_keeps (some r) k b = refl

no_checker-Fresh :
    (f : Option (List ℕ → Bool)) (k : Keepalive) (stored : Option (List ℕ))
    → FreshAt stored k
    → FreshAt stored (no_checker f k)
no_checker-Fresh none k stored h = h
no_checker-Fresh (some f) k stored h = h

process-Fresh :
    (creates : Bool) (o : Option Request) (k : Keepalive) (stored : Option (List ℕ))
    → k.rpc_opr ≡ o
    → FreshAt stored k
    → FreshAt stored (process_when (record { creates = creates; starts = true }) o k).self
process-Fresh creates (some r) k stored e h = h
process-Fresh creates none k stored e h =
    let k' = no_checker k.fn (record k { is_actived = false }) in
    let made = create_request creates k' in
    rw (start_keeps made.0.rpc_opr made.0 made.1) (
      create-Fresh k'.is_check_run (k'.is_check_passed && k'.is_value_changed) creates k' stored
        (no_checker-idle k.fn (record k { is_actived = false }) e)
        (no_checker-Fresh k.fn (record k { is_actived = false }) stored h))

-- the owner can start each request that it creates
abbrev pub starting : Bool → Http
starting creates = record { creates = creates; starts = true }

active-Fresh :
    (creates : Bool) (k : Keepalive) (stored : Option (List ℕ))
    → FreshAt stored k
    → FreshAt stored (active (starting creates) k).self
unfolding active process
active-Fresh creates k stored h =
    process-Fresh creates k.rpc_opr (record k { is_actived = true }) stored refl h

set_value-Fresh :
    (creates running : Bool) (v : List ℕ) (k : Keepalive) (stored : Option (List ℕ))
    → FreshAt stored k
    → FreshAt stored (set_value (starting creates) running v k).self
unfolding set_value
set_value-Fresh creates running v k stored h = elim (Bool-cases (bytes_eq k.value v)) [
  | inl same ↦ rw same h
  | inr new ↦ elim (Bool-cases running) [
    | inl runs ↦
        rw (new, runs)
          (active-Fresh creates (record k { value = v; is_value_changed = true }) stored
            (changed-Fresh k.rpc_opr v stored))
    | inr rests ↦ rw (new, rests) (changed-Fresh k.rpc_opr v stored)
  ]
]

reply_get-Fresh :
    (creates : Bool) (r : Reply) (w : World) (o : Option Request)
    → w.self.rpc_opr ≡ o
    → IsFresh w
    → IsFresh (reply_get (starting creates) r w o)
unfolding on_get_data
reply_get-Fresh creates r w none e h = h
reply_get-Fresh creates r w (some (set v)) e h = h
reply_get-Fresh creates failed w (some get) e h = rw e at h
reply_get-Fresh creates no_kvs w (some get) e h = rw e at h
reply_get-Fresh creates (content v) w (some get) e h =
    active-Fresh creates (checked_with v w.self) w.stored (rw e at h)

reply_set-Fresh :
    (creates ok : Bool) (w : World) (o : Option Request)
    → w.self.rpc_opr ≡ o
    → IsFresh w
    → IsFresh (reply_set (starting creates) ok w o)
unfolding on_set_data
reply_set-Fresh creates ok w none e h = h
reply_set-Fresh creates ok w (some get) e h = h
reply_set-Fresh creates false w (some (set v)) e h = changed-Fresh none w.self.value w.stored
reply_set-Fresh creates true w (some (set v)) e h =
    let sent : w.self.is_value_changed ≡ false → v ≡ w.self.value = rw e at h in
    active-Fresh creates (stored_by w.self) (some v) (λ c. ap some (sent c))

step-Fresh :
    (creates : Bool) (e : Event) (w : World) → IsFresh w → IsFresh (step (starting creates) e w)
unfolding step close
step-Fresh creates (sets_value running v) w h = set_value-Fresh creates running v w.self w.stored h
step-Fresh creates (sets_checker f) w h = h
step-Fresh creates activates w h = active-Fresh creates w.self w.stored h
step-Fresh creates value_reset w h = changed-Fresh w.self.rpc_opr w.self.value w.stored
step-Fresh creates (closes b) w h = changed-Fresh none w.self.value w.stored
step-Fresh creates (get_reply r) w h = reply_get-Fresh creates r w w.self.rpc_opr refl h
step-Fresh creates (set_reply ok) w h = reply_set-Fresh creates ok w w.self.rpc_opr refl h

-- the events of a run in which requests can fail to be created and can be answered with an error,
-- but never fail to start
abbrev pub starting_all : List (Bool × Event) → List (Http × Event)
starting_all [] = []
starting_all ((creates, e) ∷ es) = (starting creates, e) ∷ starting_all es

run-Fresh : (es : List (Bool × Event)) (w : World) → IsFresh w → IsFresh (run (starting_all es) w)
unfolding run
run-Fresh [] w h = h
run-Fresh ((creates, e) ∷ es) w h =
    run-Fresh es (step (starting creates) e w) (step-Fresh creates e w h)

-- In every run of a new keepalive in which each request that is created starts: where no request is
-- under way and the value is not marked as changed, the server has the value.
pub run_stores :
    (es : List (Bool × Event))
    → (run (starting_all es) new_world).self.rpc_opr ≡ none
    → (run (starting_all es) new_world).self.is_value_changed ≡ false
    → (run (starting_all es) new_world).stored ≡ some (run (starting_all es) new_world).self.value
run_stores es idle same =
    let w = run (starting_all es) new_world in
    let fresh : IsFresh w = run-Fresh es new_world (changed-Fresh none [] none) in
    (rw idle at fresh) same
