-- ===== src/Connection/Bound.antt =====
-- About the recursion of close(), and about what it leaves a handle bound to.
use libatapp.Prelude.{
  ℕ, ◌≡◌, refl, sym, Bool, true, false, Option, none, some, if◌then◌else◌, if-cases, ap, ◌∙◌,
  Bool-cases, inl, inr, arith,
}
use libatapp.Connection.{
  Net, is_at, update_handle, leave_endpoint, leave_connector, from_endpoint, from_connector,
  start_closing, close_with, already_closing, close_handle,
}

close_handle-closing : (h : ℕ) (s : Net) → (s.handles h).is_closing ≡ true → close_handle h s ≡ s
close_handle-closing h s closes = rw closes refl

from_endpoint-closing :
    (h : ℕ) (o : Option ℕ) (s : Net)
    → (s.handles h).is_closing ≡ true
    → (from_endpoint close_handle h o s ≡ from_endpoint already_closing h o s)
      × (((from_endpoint already_closing h o s).handles h).is_closing ≡ true)
from_endpoint-closing h none s closes = (refl, closes)
from_endpoint-closing h (some e) s closes = elim (Bool-cases (is_at (s.handles h).endpoint e)) [
  | inl here ↦ rw here (
    close_handle-closing h
        (update_handle h (record (s.handles h) { endpoint = none }) (leave_endpoint h e s))
        (ground (arith, closes)),
    ground (arith, closes),
  )
  | inr away ↦ rw away (refl, closes)
]

from_connector-closing :
    (h : ℕ) (o : Option ℕ) (s : Net)
    → (s.handles h).is_closing ≡ true
    → from_connector close_handle h o s ≡ from_connector already_closing h o s
from_connector-closing h none s closes = refl
from_connector-closing h (some c) s closes = elim (Bool-cases (is_at (s.handles h).connector c)) [
  | inl here ↦ rw here (
      close_handle-closing h
        (update_handle h (record (s.handles h) { connector = none }) (leave_connector h c s))
        (ground (arith, closes)))
  | inr away ↦ rw away refl
]

start_closing-closing : (h : ℕ) (s : Net) → ((start_closing h s).handles h).is_closing ≡ true
start_closing-closing h s = ground arith

if-false {ℓ} : {A : Type ℓ} (b : Bool) (x y : A) → b ≡ false → (if b then x else y) ≡ y
if-false b x y h = rw h refl

close_with-open :
    (f : ℕ → Net → Net) (h : ℕ) (s : Net)
    → (s.handles h).is_closing ≡ false
    → let s2 = from_endpoint f h ((start_closing h s).handles h).endpoint (start_closing h s) in
      close_with f h s ≡ from_connector f h (s2.handles h).connector s2
close_with-open f h s open_yet = if-false (s.handles h).is_closing _ _ open_yet

-- A handle's close is the recursive function of its code: with itself for the closes that its unbinds
-- call, the body gives what it gives with these doing nothing.
close_handle_unrolled : (h : ℕ) (s : Net) → close_with close_handle h s ≡ close_handle h s
close_handle_unrolled h s = elim (Bool-cases (s.handles h).is_closing) [
  | inl closes ↦ rw closes refl
  | inr open_yet ↦
      let s1 = start_closing h s in
      let (same_end, closes) =
        from_endpoint-closing h (s1.handles h).endpoint s1 (start_closing-closing h s) in
      let s2 = from_endpoint already_closing h (s1.handles h).endpoint s1 in
      close_with-open close_handle h s open_yet
      ∙ ap (λ t. from_connector close_handle h (t.handles h).connector t) same_end
      ∙ from_connector-closing h (s2.handles h).connector s2 closes
      ∙ sym (close_with-open already_closing h s open_yet)
]

from_connector-endpoint :
    (h : ℕ) (o : Option ℕ) (s : Net)
    → ((from_connector already_closing h o s).handles h).endpoint ≡ (s.handles h).endpoint
from_connector-endpoint h none s = refl
from_connector-endpoint h (some c) s = elim (Bool-cases (is_at (s.handles h).connector c)) [
  | inl here ↦ rw here (ground arith)
  | inr away ↦ rw away refl
]

from_endpoint-connector :
    (h : ℕ) (o : Option ℕ) (s : Net)
    → ((from_endpoint already_closing h o s).handles h).connector ≡ (s.handles h).connector
from_endpoint-connector h none s = refl
from_endpoint-connector h (some e) s = elim (Bool-cases (is_at (s.handles h).endpoint e)) [
  | inl here ↦ rw here (ground arith)
  | inr away ↦ rw away refl
]

-- what does not give a handle an endpoint may stand for its close, and likewise a connector
module _ (f : ℕ → Net → Net) where
  pub freed-endpoint :
      (h : ℕ) (o : Option ℕ) (s : Net)
      → ((t : Net) → (t.handles h).endpoint ≡ none → ((f h t).handles h).endpoint ≡ none)
      → (s.handles h).endpoint ≡ o
      → ((from_endpoint f h o s).handles h).endpoint ≡ none
  freed-endpoint h none s keeps at = at
  freed-endpoint h (some e) s keeps at =
      let Free : Net → Type 0 = λ t. (t.handles h).endpoint ≡ none in
      if-cases Free (is_at (s.handles h).endpoint e) _ _ (λ here. keeps _ (ground arith))
        (λ away. ground (arith, at, away))

  pub freed-connector :
      (h : ℕ) (o : Option ℕ) (s : Net)
      → ((t : Net) → (t.handles h).connector ≡ none → ((f h t).handles h).connector ≡ none)
      → (s.handles h).connector ≡ o
      → ((from_connector f h o s).handles h).connector ≡ none
  freed-connector h none s keeps at = at
  freed-connector h (some c) s keeps at =
      let Free : Net → Type 0 = λ t. (t.handles h).connector ≡ none in
      if-cases Free (is_at (s.handles h).connector c) _ _ (λ here. keeps _ (ground arith))
        (λ away. ground (arith, at, away))

pub close_handle-endpoint :
    (h : ℕ) (s : Net)
    → (s.handles h).endpoint ≡ none
    → ((close_handle h s).handles h).endpoint ≡ none
close_handle-endpoint h s free =
    let Free : Net → Type 0 = λ t. (t.handles h).endpoint ≡ none in
    let s1 = start_closing h s in
    let s2 = from_endpoint already_closing h (s1.handles h).endpoint s1 in
    if-cases Free (s.handles h).is_closing _ _ (λ closes. free)
      (λ open_yet.
        from_connector-endpoint h (s2.handles h).connector s2
        ∙ freed-endpoint already_closing h _ s1 (λ t e. e) refl)

pub close_handle-connector :
    (h : ℕ) (s : Net)
    → (s.handles h).connector ≡ none
    → ((close_handle h s).handles h).connector ≡ none
close_handle-connector h s free =
    let Free : Net → Type 0 = λ t. (t.handles h).connector ≡ none in
    let s1 = start_closing h s in
    let s2 = from_endpoint already_closing h (s1.handles h).endpoint s1 in
    if-cases Free (s.handles h).is_closing _ _ (λ closes. free)
      (λ open_yet. freed-connector already_closing h _ s2 (λ t e. e) refl)
