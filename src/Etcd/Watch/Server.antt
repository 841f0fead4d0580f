-- ===== src/Etcd/Watch/Server.antt =====
-- The etcd server that a watcher has to do with. Of a server there is the position that its watch has
-- reached, which is the revision up to which all events were sent, and the revision of its latest
-- header. The latter is that of the store, also in the answers that only create or cancel a watch, and
-- may be ahead of the former.
use libatapp.Prelude.{
  ℕ, suc, ◌-◌, ◌≡◌, ◌≢◌, refl, Bool, true, false, Option, none, some, List, [], ◌∷◌, ◌++◌,
  if◌then◌else◌, length,
}
use libatapp.Etcd.Frame.{Fed, on_watch_write}
use libatapp.Etcd.Keepalive.{Http}
use libatapp.Etcd.Watch.{
  Request, get_path, get_range, watch, Watcher, Response, World, RangeReply, content, Message,
  ErrorCode, on_chunk, active_in, on_range_completed, on_watch_completed,
}

-- a watcher that is new, but for its times and its handler
abbrev pub IsStarting : Watcher → Type 0
IsStarting w = (w.rpc_opr ≡ none) × (w.last_revision ≡ 0) × (w.evt_handle ≡ true)

pub record Server : Type 0 where
  pub position : ℕ
  pub latest : ℕ

-- the server after a call that may have started a request: a watch from a revision on has all that
-- was before that revision behind it
abbrev pub opened : Option Request → Option Request → Server → Server
opened (some r) next s = s
opened none (some (watch n)) s = record { position = n - 1; latest = n - 1 }
opened none _ s = s

abbrev pub IsWatching : Option Request → Type 0
IsWatching (some (watch n)) = Unit
IsWatching _ = ⊥

abbrev pub IsGetting : Option Request → Type 0
IsGetting (some get_path) = Unit
IsGetting (some get_range) = Unit
IsGetting _ = ⊥

-- a header with a revision is the latest
abbrev pub HeaderSays : Option ℕ → Server → Server → Type 0
HeaderSays (some (suc revision)) s t = t.latest ≡ suc revision
HeaderSays _ s t = t.latest ≡ s.latest

module _ {ℓ} {E S : Type ℓ} (apply : S → E → S) (empty : S) where
  abbrev pub apply_all : S → List E → S
  apply_all s [] = s
  apply_all s (e ∷ es) = apply_all (apply s e) es

  -- a snapshot starts anew, and the events of any other response follow what is known
  abbrev pub known_after : S → Response E → S
  known_after s r = if r.snapshot then apply_all empty r.events else apply_all s r.events

  abbrev pub known : List (ℕ × Response E) → S → S
  known [] s = s
  known ((revision, r) ∷ rs) s = known rs (known_after s r)

  pub known-append :
      (a : List (ℕ × Response E)) (revision : ℕ) (r : Response E) (s : S)
      → known (a ++ (revision, r) ∷ []) s ≡ known_after (known a s) r
  known-append [] revision r s = refl
  known-append ((n, q) ∷ a) revision r s = known-append a revision r (known_after s q)

  -- `at` is what the server holds in the range at each revision.
  module _ (at : ℕ → S) where
    -- outside of the retry mode, a get gives what the server holds at the revision of its header
    abbrev pub IsExactReply : Bool → RangeReply E → Type ℓ
    IsExactReply false (content revision events) = apply_all empty events ≡ at revision
    IsExactReply _ _ = Unit

    -- the events of a message lead from one position of the watch to another
    abbrev pub Says : Message E → Server → Server → Type ℓ
    Says m s t =
        (apply_all (at s.position) m.response.events ≡ at t.position) × HeaderSays m.header s t

    module _ (decode : List ℕ → Option (Message E)) where
      -- what the server says in some documents
      pub data Sends : List (List ℕ) → Server → Server → Type ℓ where
        sent : {s : Server} → Sends [] s s
        no_message :
            {d : List ℕ} {ds : List (List ℕ)} {s t : Server}
            → decode d ≡ none
            → Sends ds s t
            → Sends (d ∷ ds) s t
        message :
            {d : List ℕ} {ds : List (List ℕ)} {s t u : Server} (m : Message E)
            → decode d ≡ some m
            → Says m s t
            → Sends ds t u
            → Sends (d ∷ ds) s u

      abbrev pub SendsFed : Option Fed → Server → Server → Type ℓ
      SendsFed none s t = Unit
      SendsFed (some (stream, ds)) s t = Sends ds s t

      module _ (random_between : ℕ → ℕ) where
        -- What can happen to a watcher and its server, in any order and at any times. When a watch
        -- ends, no event that changes the range is left unsent up to the revision of the latest
        -- header, unless there is no saved revision and the range is asked for anew.
        pub data Reach : Server → World E → Type ℓ where
          fresh :
              (s : Server) (w : Watcher) → IsStarting w → Reach s (record { self = w; told = [] })
          activated :
              (http : Http) (now : ℕ) (s : Server) (w : World E)
              → Reach s w
              → Reach
                  (opened w.self.rpc_opr (active_in random_between http now w).self.rpc_opr s)
                  (active_in random_between http now w)
          range_completed :
              (http : Http) (now : ℕ) (r : RangeReply E) (s : Server) (w : World E)
              → Reach s w
              → IsGetting w.self.rpc_opr
              → IsExactReply w.self.is_retry_mode r
              → Reach
                  (opened none (on_range_completed random_between http now r w).self.rpc_opr s)
                  (on_range_completed random_between http now r w)
          chunk :
              (inbuf : List ℕ) (s t : Server) (w w' : World E)
              → Reach s w
              → IsWatching w.self.rpc_opr
              → SendsFed (on_watch_write (length inbuf) w.self.data_stream inbuf) s t
              → on_chunk decode inbuf w ≡ some w'
              → Reach t w'
          watch_completed :
              (http : Http) (now : ℕ) (e : ErrorCode) (success : Bool) (s : Server) (w : World E)
              → Reach s w
              → IsWatching w.self.rpc_opr
              → (w.self.last_revision ≢ 0 → at s.position ≡ at s.latest)
              → Reach
                  (opened none
                    (on_watch_completed random_between http now e success w).self.rpc_opr
                    s)
                  (on_watch_completed random_between http now e success w)
