-- ===== src/Etcd/Watch/Replica.antt =====
-- What the handler of a watcher knows: a state that is built from the responses it is told.
use mathlib.Core.Path.{subst}
use libatapp.Prelude.{
  ℕ, zero, suc, ◌≡◌, ◌≢◌, refl, sym, ap, ◌∙◌, Bool, true, false, ◌&&◌, Option, none, some, List, [],
  ◌∷◌, ◌++◌, ltb, ◌==◌, if◌then◌else◌, if-cases, length, arith,
}
use libatapp.Etcd.Frame.{Fed, on_watch_write}
use libatapp.Etcd.Keepalive.{Http}
use libatapp.Etcd.Watch.{
  Request, get_path, get_range, watch, Response, World, RangeReply, failed, no_object, content,
  Message, ErrorCode, tell, first_response, save_revision, header_revision, on_document,
  on_documents, on_fed, on_chunk, active_in, retry_later, on_range_completed, watch_ended,
  on_watch_completed,
}
use libatapp.Etcd.Watch.Kept.{active-Same, ended-Same, ended_rpc}
use libatapp.Etcd.Watch.Server.{
  Server, opened, IsWatching, HeaderSays, known, known_after, known-append, apply_all, IsExactReply,
  Says, Sends, sent, no_message, message, SendsFed, Reach, fresh, activated, range_completed, chunk,
  watch_completed,
}
use libatapp.Etcd.Watch.Reached.{
  reached, IsReached, got-IsReached, quit-IsReached, reached-known, active-IsReached,
}

save_latest :
    (header : Option ℕ) (last : ℕ) (s t : Server)
    → HeaderSays header s t
    → (last ≢ 0 → last ≡ s.latest)
    → save_revision header last ≢ 0
    → save_revision header last ≡ t.latest
save_latest none last s t x h n = h n ∙ sym x
save_latest (some zero) last s t x h n = h n ∙ sym x
save_latest (some (suc revision)) last s t x h n = ground (arith, x)

module _ {ℓ} {E S : Type ℓ} (apply : S → E → S) (empty : S) where
  module _ (at : ℕ → S) (decode : List ℕ → Option (Message E)) (random_between : ℕ → ℕ) where
    abbrev IsKnown : Server → World E → Type ℓ
    IsKnown s w =
        (w.self.evt_handle ≡ true)
        × IsReached at w.self.rpc_opr w.self.last_revision s (known apply empty w.told empty)

    -- a watcher whose request is over, before and after the call of active
    abbrev IsIdle : Server → World E → Type ℓ
    IsIdle s w =
        (w.self.rpc_opr ≡ none)
        × (w.self.evt_handle ≡ true)
        × (w.self.last_revision ≢ 0 → known apply empty w.told empty ≡ at w.self.last_revision)

    abbrev IsKnownNext : Server → World E → Type ℓ
    IsKnownNext s w = IsKnown (opened none w.self.rpc_opr s) w

    active-IsKnown :
        (http : Http) (now : ℕ) (s : Server) (w : World E)
        → IsKnown s w
        → let v = active_in random_between http now w in
          IsKnown (opened w.self.rpc_opr v.self.rpc_opr s) v
    unfolding active_in
    active-IsKnown http now s w h = (
      (active-Same random_between http now w.self).1 ∙ h.0,
      active-IsReached at random_between http now s (known apply empty w.told empty) w.self h.1,
    )

    idle-IsKnown :
        (http : Http) (now : ℕ) (s : Server) (w : World E)
        → IsIdle s w
        → IsKnownNext s (active_in random_between http now w)
    unfolding active_in
    idle-IsKnown http now s w h =
        let v = active_in random_between http now w in
        let k = known apply empty w.told empty in
        subst (λ q. IsKnown (opened q v.self.rpc_opr s) v) h.0
          (active-IsKnown http now s w
            (h.1, subst (λ q. IsReached at q w.self.last_revision s k) (sym h.0) h.2))

    tell-known :
        (n : ℕ) (r : Response E) (w : World E)
        → w.self.evt_handle ≡ true
        → known apply empty (tell n r w).told empty
          ≡ known_after apply empty (known apply empty w.told empty) r
    tell-known n r w e =
        ap (λ b. known apply empty (if b then w.told ++ (n, r) ∷ [] else w.told) empty) e
        ∙ known-append apply empty w.told n r empty

    -- while a watch is in flight
    abbrev IsTracking : Server → World E → Type ℓ
    IsTracking s w =
        IsWatching w.self.rpc_opr
        × (w.self.evt_handle ≡ true)
        × (known apply empty w.told empty ≡ at s.position)
        × (w.self.last_revision ≢ 0 → w.self.last_revision ≡ s.latest)

    known_of_tracking :
        (o : Option Request) (last : ℕ) (s : Server) (k : S)
        → IsWatching o
        → (k ≡ at s.position) × (last ≢ 0 → last ≡ s.latest)
        → IsReached at o last s k
    known_of_tracking (some (watch n)) last s k g h = h
    known_of_tracking (some get_path) last s k g h = absurd g
    known_of_tracking (some get_range) last s k g h = absurd g
    known_of_tracking none last s k g h = absurd g

    tracking_of_known :
        (o : Option Request) (last : ℕ) (s : Server) (k : S)
        → IsWatching o
        → IsReached at o last s k
        → (k ≡ at s.position) × (last ≢ 0 → last ≡ s.latest)
    tracking_of_known (some (watch n)) last s k g h = h
    tracking_of_known (some get_path) last s k g h = absurd g
    tracking_of_known (some get_range) last s k g h = absurd g
    tracking_of_known none last s k g h = absurd g

    message-IsTracking :
        (m : Message E) (s t : Server) (w : World E)
        → Says apply empty at m s t
        → IsTracking s w
        → IsTracking t (on_document (some m) w)
    unfolding on_document
    message-IsTracking m s t w x h =
        let last = save_revision m.header w.self.last_revision in
        let r = record (m.response) { snapshot = false } in
        let v = record w { self = record (w.self) { last_revision = last } } in
        let k : known apply empty (tell (header_revision m.header) r v).told empty ≡ at t.position =
          tell-known (header_revision m.header) r v h.1
          ∙ ap (λ q. apply_all apply empty q m.response.events) h.2
          ∙ x.0 in
        if-cases (λ (v : World E). IsTracking t v)
          (m.response.canceled && ltb w.self.last_revision m.response.compact_revision) _ _
          (λ e. (h.0, h.1, k, λ n. absurd (n refl)))
          (λ e. (h.0, h.1, k, save_latest m.header w.self.last_revision s t x.1 h.3))

    documents-IsTracking :
        {ds : List (List ℕ)} {s t : Server} (w : World E)
        → Sends apply empty at decode ds s t
        → IsTracking s w
        → IsTracking t (on_documents decode ds w)
    unfolding on_documents on_document
    documents-IsTracking w sent h = h
    documents-IsTracking w (no_message {d} {ds} {s} {t} e rest) h =
        documents-IsTracking (on_document (decode d) w) rest
          (subst (λ o. IsTracking s (on_document o w)) (sym e) h)
    documents-IsTracking w (message {d} {ds} {s} {t} {u} m e x rest) h =
        documents-IsTracking (on_document (decode d) w) rest
          (subst (λ o. IsTracking t (on_document o w)) (sym e) (message-IsTracking m s t w x h))

    abbrev TrackingIf : Server → Option (World E) → Type ℓ
    TrackingIf t none = Unit
    TrackingIf t (some w) = IsTracking t w

    fed-IsTracking :
        (fed : Option Fed) (s t : Server) (w : World E)
        → SendsFed apply empty at decode fed s t
        → IsTracking s w
        → TrackingIf t (on_fed decode fed w)
    unfolding on_fed
    fed-IsTracking none s t w x h = tt
    fed-IsTracking (some (stream, ds)) s t w x h =
        documents-IsTracking (record w { self = record (w.self) { data_stream = stream } }) x h

    chunk-IsKnown :
        (inbuf : List ℕ) (s t : Server) (w w' : World E)
        → IsWatching w.self.rpc_opr
        → SendsFed apply empty at decode
            (on_watch_write (length inbuf) w.self.data_stream inbuf)
            s
            t
        → on_chunk decode inbuf w ≡ some w'
        → IsKnown s w
        → IsKnown t w'
    unfolding on_chunk
    chunk-IsKnown inbuf s t w w' g x e h =
        let tracking =
          tracking_of_known w.self.rpc_opr w.self.last_revision s (known apply empty w.told empty) g
            h.1 in
        let after : IsTracking t w' =
          subst (λ o. TrackingIf t o) e
            (fed-IsTracking (on_watch_write (length inbuf) w.self.data_stream inbuf) s t w x
              (g, h.0, tracking.0, tracking.1)) in
        (
          after.1,
          known_of_tracking w'.self.rpc_opr w'.self.last_revision t
              (known apply empty w'.told empty) after.0 (after.2, after.3),
        )

    range-IsKnown :
        (http : Http) (now : ℕ) (r : RangeReply E) (s : Server) (w : World E)
        → IsExactReply apply empty at w.self.is_retry_mode r
        → (w.self.evt_handle ≡ true)
          × (w.self.last_revision ≢ 0 → known apply empty w.told empty ≡ at w.self.last_revision)
        → IsKnownNext s (on_range_completed random_between http now r w)
    unfolding on_range_completed active_in
    range-IsKnown http now failed s w x h = h
    range-IsKnown http now no_object s w x h =
        let v = record (w.self) { rpc_opr = none } in
        if-cases (λ (v : World E). IsKnownNext s v) w.self.is_retry_mode _ _
          (λ e.
            idle-IsKnown http now s
              (record w { self = record v { is_retry_mode = false; next_request_time = now } })
              (refl, h.0, h.1))
          (λ e. idle-IsKnown http now s (record w { self = retry_later now v }) (refl, h.0, h.1))
    range-IsKnown http now (content revision events) s w x h =
        let v = record (w.self) { rpc_opr = none } in
        if-cases (λ (v : World E). IsKnownNext s v) w.self.is_retry_mode _ _
          (λ e.
            idle-IsKnown http now s
              (record w { self = record v { is_retry_mode = false; next_request_time = now } })
              (refl, h.0, h.1))
          (λ e.
            if-cases (λ (v : World E). IsKnownNext s v) (revision == 0) _ _
              (λ z.
                idle-IsKnown http now s (record w { self = retry_later now v }) (refl, h.0, h.1))
              (λ z.
                let saved = record w { self = record v { last_revision = revision } } in
                let told = tell revision (first_response events) saved in
                idle-IsKnown http now s
                  (record told { self = record (told.self) { next_request_time = now } })
                  (
                    refl,
                    h.0,
                    λ n.
                        tell-known revision (first_response events) saved h.0
                        ∙ subst (λ b. IsExactReply apply empty at b (content revision events)) e x,
                  )))

    quit-IsKnown :
        (http : Http) (now : ℕ) (e : ErrorCode) (success : Bool) (s : Server) (w : World E)
        → (w.self.evt_handle ≡ true)
          × (w.self.last_revision ≢ 0 → known apply empty w.told empty ≡ at w.self.last_revision)
        → IsKnownNext s (on_watch_completed random_between http now e success w)
    unfolding on_watch_completed active_in
    quit-IsKnown http now e success s w h =
        let ended = record (w.self) { rpc_opr = none; is_retry_mode = true } in
        let same = ended-Same e success now ended in
        idle-IsKnown http now s (record w { self = watch_ended e success now ended })
          (
            ended_rpc e success now ended,
            same.1 ∙ h.0,
            λ n. h.1 (λ z. n (same.0 ∙ z)) ∙ ap at (sym same.0),
          )

    Reach-IsKnown :
        {s : Server} {w : World E} → Reach apply empty at decode random_between s w → IsKnown s w
    Reach-IsKnown (fresh s v h) =
        (h.2, subst (λ o. IsReached at o v.last_revision s empty) (sym h.0) (λ n. absurd (n h.1)))
    Reach-IsKnown (activated http now s v r) = active-IsKnown http now s v (Reach-IsKnown r)
    Reach-IsKnown (range_completed http now q s v r g x) =
        let h = Reach-IsKnown r in
        range-IsKnown http now q s v x (
          h.0,
          got-IsReached at v.self.rpc_opr v.self.last_revision s (known apply empty v.told empty) g
              h.1,
        )
    Reach-IsKnown (chunk inbuf s t v v' r g x e) =
        chunk-IsKnown inbuf s t v v' g x e (Reach-IsKnown r)
    Reach-IsKnown (watch_completed http now e success s v r g x) =
        let h = Reach-IsKnown r in
        quit-IsKnown http now e success s v (
          h.0,
          quit-IsReached at v.self.rpc_opr v.self.last_revision s (known apply empty v.told empty) g
              x h.1,
        )

    -- While there is a saved revision, the responses that a handler is told add up to what the server held
    -- at the position of its watch, and between two watches at the saved revision. This holds over all
    -- calls, replies, chunks and ends of watches in any order, with headers that are ahead of the events
    -- of their watch, if a get gives what the server held at the revision of its header, a watch sends
    -- the events from its first revision on, and none that changes the range is left unsent up to the
    -- latest header when a watch ends with a saved revision.
    pub Reach-known :
        (s : Server) (w : World E)
        → Reach apply empty at decode random_between s w
        → w.self.last_revision ≢ 0
        → known apply empty w.told empty ≡ at (reached w.self.rpc_opr w.self.last_revision s)
    Reach-known s w r h =
        reached-known at w.self.rpc_opr w.self.last_revision s (known apply empty w.told empty) h
          (Reach-IsKnown r).1
