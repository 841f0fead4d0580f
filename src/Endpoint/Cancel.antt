-- ===== src/Endpoint/Cancel.antt =====
-- What becomes of the waiting messages when an endpoint is reset.
use libatapp.Prelude.{
  ◌≡◌, refl, ap, false, List, [], ◌∷◌, ◌++◌, inl, inr, Bool-cases, if◌then◌else◌, All,
}
use libatapp.Endpoint.{
  SendResult, closing_code, Message, Endpoint, has_connection, all_closing, cancel_pending_messages,
  reset,
}

-- the messages of a list of reports
abbrev pub answered : List (Message × SendResult) → List Message
answered [] = []
answered (x ∷ xs) = x.0 ∷ answered xs

all_closing-answered : (ms : List Message) → answered (all_closing ms) ++ [] ≡ ms
all_closing-answered [] = refl
all_closing-answered (m ∷ ms) = ap (λ l. m ∷ l) (all_closing-answered ms)

abbrev pub IsClosing : List (Message × SendResult) → Type 0
IsClosing = All (λ x. x.1 ≡ closing_code)

all_closing-IsClosing : (ms : List Message) → IsClosing (all_closing ms)
all_closing-IsClosing [] = tt
all_closing-IsClosing (m ∷ ms) = (refl, all_closing-IsClosing ms)

-- When an endpoint that is not closing is reset, it lets its handles go and answers its waiting
-- messages in order, each once and with the closing error, but only with a connection: without one it
-- answers none, and all of them stay in its queue.
pub reset-answered :
    (e : Endpoint)
    → e.closing ≡ false
    → let (e', responses) = reset e in
      (answered responses ++ e'.pending_message ≡ e.pending_message)
      × IsClosing responses
      × (if has_connection e then e'.pending_message ≡ [] else responses ≡ [])
      × (e'.refer_connections ≡ [])
unfolding reset cancel_pending_messages
reset-answered e open_yet = elim (Bool-cases (has_connection e)) [
  | inl connected ↦
      rw (open_yet, connected)
        (
          all_closing-answered e.pending_message,
          all_closing-IsClosing e.pending_message,
          refl,
          refl,
        )
  | inr alone ↦ rw (open_yet, alone) (refl, tt, refl, refl)
]
