-- ===== src/Etcd/Watch/Waiting.antt =====
-- When a watcher sends: the time of the next request, and which request it is then.
use mathlib.Core.Bool.{false≢true}
use libatapp.Prelude.{
  ℕ, ◌+◌, ◌<◌, ◌≡◌, ◌≢◌, refl, sym, ap, ◌∙◌, Bool, true, false, none, some, List, [], ◌∷◌, ltb,
  ◌==◌, if◌then◌else◌, if-cases, arith,
}
use libatapp.Etcd.Keepalive.{Http}
use libatapp.Etcd.Watch.{
  Request, get_path, get_range, watch, Watcher, process_idle, process_when, process, active, World,
  RangeReply, failed, no_object, content, ErrorCode, active_in, on_range_completed, watch_ended,
  on_watch_completed,
}
use libatapp.Etcd.Watch.Kept.{Same, Same-trans, active-Same, ended-Same}
use libatapp.Etcd.Watch.Renewal.{Failure, fail_all, fail_all-Same}

-- the owner can create each request, and it starts
abbrev pub starting : Http
starting = record { creates = true; starts = true }

-- the request that a watcher has to make: a get for the path after a watch, a get for the range
-- without a revision, and a watch behind the last revision
abbrev pub due : Watcher → Request
due w =
    if w.is_retry_mode
    then get_path
    else if w.last_revision == 0
    then get_range
    else watch (w.last_revision + 1)

-- a get comes back without an error
abbrev pub Succeeds {ℓ} : {E : Type ℓ} → RangeReply E → Type 0
Succeeds failed = ⊥
Succeeds _ = Unit

module _ (random_between : ℕ → ℕ) where
  abbrev pub actives : List (Http × ℕ) → Watcher → Watcher
  unfolding active
  actives [] w = w
  actives ((http, now) ∷ cs) w = actives cs (active random_between http now w)

  -- each of some calls is before a time
  abbrev pub AllBefore : ℕ → List (Http × ℕ) → Type 0
  AllBefore time [] = Unit
  AllBefore time ((http, now) ∷ cs) = (now < time) × AllBefore time cs

  -- `w` but for is_actived
  abbrev At : Watcher → Bool → Watcher
  At w b = record w { is_actived = b }

  early :
      (http : Http) (now : ℕ) (w : Watcher)
      → w.rpc_opr ≡ none
      → now < w.next_request_time
      → active random_between http now w ≡ At w false
  unfolding active process
  early http now w e h =
      ap (λ o. process_when random_between o http now (At w true)) e
      ∙ if-cases (λ (v : Watcher). v ≡ At w false) (ltb now w.next_request_time) _ _ (λ t. refl)
          (λ t. absurd (ground (arith, t, h)))

  idle_on_time :
      (now : ℕ) (w : Watcher)
      → w.rpc_opr ≡ none
      → 0 < w.next_request_time
      → (process_idle random_between starting now w).rpc_opr
        ≡ (if ltb now w.next_request_time then none else some (due w))
  idle_on_time now w e h = ground (arith, e, h)

  on_time :
      (now : ℕ) (w : Watcher)
      → w.rpc_opr ≡ none
      → 0 < w.next_request_time
      → (active random_between starting now w).rpc_opr
        ≡ (if ltb now w.next_request_time then none else some (due w))
  unfolding active process
  on_time now w e h =
      ap (λ o. (process_when random_between o starting now (At w true)).rpc_opr) e
      ∙ idle_on_time now (At w false) e h

  actives_early :
      (cs : List (Http × ℕ)) (w : Watcher)
      → w.rpc_opr ≡ none
      → AllBefore w.next_request_time cs
      → actives cs w ≡ At w (actives cs w).is_actived
  unfolding actives
  actives_early [] w e h = refl
  actives_early ((http, now) ∷ cs) w e h =
      let first = early http now w e h.0 in
      let rest = ap (actives cs) first ∙ actives_early cs (At w false) e h.1 in
      rest ∙ ap (λ (v : Watcher). At w v.is_actived) (ap (actives cs) (sym first))

  due_watch :
      (time n : ℕ)
      → n ≢ 0
      → (if ltb time time then none else some (if n == 0 then get_range else watch (n + 1)))
        ≡ some (watch (n + 1))
  due_watch time n h = ground (arith, h)

  renewed_watch :
      (time n : ℕ) (w : Watcher)
      → 0 < time
      → n ≢ 0
      → w.last_revision ≡ n
      → (active random_between starting time
          (record w { rpc_opr = none; is_retry_mode = false; next_request_time = time })).rpc_opr
        ≡ some (watch (n + 1))
  renewed_watch time n w positive h e =
      on_time time (record w { rpc_opr = none; is_retry_mode = false; next_request_time = time })
        refl positive
      ∙ ap (λ m. if ltb time time then none else some (if m == 0 then get_range else watch (m + 1)))
          e
      ∙ due_watch time n h

  module _ {ℓ} {E : Type ℓ} where
    -- After a get has failed, calls of active before the retry interval is over start nothing. A later
    -- call starts the request that was due, if the owner can start it: a get for the path after a
    -- watch, and the get for the range otherwise, or a watch where there is a revision already.
    pub failed_get_retried :
        (http : Http) (now time : ℕ) (cs : List (Http × ℕ)) (w : World E)
        → 0 < now + w.self.retry_interval
        → AllBefore (now + w.self.retry_interval) cs
        → let failing = (on_range_completed random_between http now failed w).self in
          (active random_between starting time (actives cs failing)).rpc_opr
          ≡ (if ltb time (now + w.self.retry_interval) then none else some (due w.self))
    unfolding on_range_completed
    failed_get_retried http now time cs w positive h =
        let failing = (on_range_completed random_between http now failed w).self in
        ap (λ v. (active random_between starting time v).rpc_opr) (actives_early cs failing refl h)
        ∙ on_time time (At failing (actives cs failing).is_actived) refl positive

    -- a get that has succeeded ends the retry mode
    renewed :
        (time n : ℕ) (reply : RangeReply E) (w : World E)
        → 0 < time
        → n ≢ 0
        → Succeeds reply
        → w.self.last_revision ≡ n
        → w.self.is_retry_mode ≡ true
        → (on_range_completed random_between starting time reply w).self.rpc_opr
          ≡ some (watch (n + 1))
    unfolding on_range_completed active_in
    renewed time n failed w positive h s e t = absurd s
    renewed time n no_object w positive h s e t =
        if-cases (λ (v : World E). v.self.rpc_opr ≡ some (watch (n + 1))) w.self.is_retry_mode _ _
          (λ t. renewed_watch time n w.self positive h e) (λ f. absurd (false≢true (sym f ∙ t)))
    renewed time n (content revision events) w positive h s e t =
        if-cases (λ (v : World E). v.self.rpc_opr ≡ some (watch (n + 1))) w.self.is_retry_mode _ _
          (λ t. renewed_watch time n w.self positive h e) (λ f. absurd (false≢true (sym f ∙ t)))

    -- A watch that has ended while there is a saved revision is taken up again. After any calls of active
    -- and any gets that failed, as soon as a get has succeeded, at a time after the epoch and if the
    -- owner can start the request, there is a watch from the revision after the saved one.
    pub ended_watch_resumed :
        (fs : List Failure) (http : Http) (now time : ℕ) (e : ErrorCode) (success : Bool)
        (reply : RangeReply E) (w : World E)
        → 0 < time
        → w.self.last_revision ≢ 0
        → Succeeds reply
        → let tried =
            fail_all random_between fs (on_watch_completed random_between http now e success w) in
          (on_range_completed random_between starting time reply tried).self.rpc_opr
          ≡ some (watch (w.self.last_revision + 1))
    unfolding on_watch_completed active_in
    ended_watch_resumed fs http now time e success reply w positive h s =
        let quit = record (w.self) { rpc_opr = none; is_retry_mode = true } in
        let ended = on_watch_completed random_between http now e success w in
        let same : Same (fail_all random_between fs ended).self quit =
          Same-trans (fail_all random_between fs ended).self ended.self quit
            (fail_all-Same random_between fs ended)
            (Same-trans ended.self (watch_ended e success now quit) quit
              (active-Same random_between http now (watch_ended e success now quit))
              (ended-Same e success now quit)) in
        renewed time w.self.last_revision reply (fail_all random_between fs ended) positive h s
          same.0 same.2
