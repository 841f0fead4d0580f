-- ===== src/Etcd/Watch/Tests.antt =====
-- Watchers at concrete inputs.
use libatapp.Prelude.{
  ℕ, ◌≡◌, ◌≢◌, refl, true, false, Option, none, some, List, [], ◌∷◌, ◌++◌, ◌==◌, arith,
  if◌then◌else◌,
}
use libatapp.Etcd.Frame.{on_watch_write, scan, skip_noise, next_depth}
use libatapp.Etcd.Frame.Automaton.{read}
use libatapp.Etcd.Watch.{
  get_range, watch, Watcher, new_watcher, process, active, active_in, close, Response, World,
  failed, content, Message, operation_timedout, on_document, on_documents, on_chunk,
  on_range_completed, on_watch_completed,
}
use libatapp.Etcd.Watch.Server.{
  Server, Reach, known, fresh, activated, range_completed, chunk, watch_completed, message, sent,
}
use libatapp.Etcd.Watch.Replica.{Reach-known}
use libatapp.Etcd.Watch.Renewal.{
  activates, get_failed, IsRenewing, fail_all, fail_all-on_watch_completed-IsRenewing,
}
use libatapp.Etcd.Watch.Waiting.{starting, actives, failed_get_retried, ended_watch_resumed}
use libatapp.Etcd.Watch.Chunks.{on_chunks, after, on_chunks-read}

-- the least of the numbers
abbrev random_between : ℕ → ℕ
random_between n = 0

abbrev handled : Watcher
handled = record new_watcher { evt_handle = true; retry_interval = 10 }

abbrev idle : World ℕ
idle = record { self = handled; told = [] }

abbrev response : List ℕ → Response ℕ
response events = record {
  watch_id = 1;
  created = false;
  canceled = false;
  snapshot = false;
  compact_revision = 0;
  events = events;
}

-- every document says that 3 came, at revision 6 while the store is at 9
abbrev decode : List ℕ → Option (Message ℕ)
decode d = some (record { header = some 9; response = response (3 ∷ []) })

abbrev push : List ℕ → ℕ → List ℕ
push s e = s ++ e ∷ []

-- what the server holds at each revision
abbrev at : ℕ → List ℕ
at n = if n == 5 then 1 ∷ 2 ∷ [] else 1 ∷ 2 ∷ 3 ∷ []

abbrev asking : World ℕ
asking = active_in random_between starting 50 idle

-- a watch from revision 6 on, after a get that gave 1 and 2 at revision 5
abbrev watching : World ℕ
watching = on_range_completed random_between starting 100 (content 5 (1 ∷ 2 ∷ [])) asking

watching_next : watching.self.rpc_opr ≡ some (watch 6)
unfolding on_range_completed active process
watching_next = refl

-- {}
abbrev braces : List ℕ
braces = b'{' ∷ b'}' ∷ []

abbrev moved : World ℕ
moved = record {
  self = record (watching.self) { last_revision = 9 };
  told = watching.told ++ (9, response (3 ∷ [])) ∷ [];
}

moved-chunk : on_chunk decode braces watching ≡ some moved
unfolding on_chunk on_documents on_document on_watch_write scan skip_noise next_depth
    on_range_completed active process
moved-chunk = refl

nine_positive : moved.self.last_revision ≢ 0
nine_positive e = absurd (omega (arith, e))

-- the server before any watch, when the watch is opened, and when it has sent the event
abbrev before : Server
before = record { position = 0; latest = 0 }

abbrev opened_at_six : Server
opened_at_six = record { position = 5; latest = 5 }

abbrev sent_six : Server
sent_six = record { position = 6; latest = 9 }

asking-Reach : Reach push [] at decode random_between before asking
unfolding active process
asking-Reach = activated starting 50 before idle (fresh before handled (refl, refl, refl))

watching-Reach : Reach push [] at decode random_between opened_at_six watching
unfolding on_range_completed active process
watching-Reach =
    range_completed starting 100 (content 5 (1 ∷ 2 ∷ [])) before asking asking-Reach tt refl

moved-Reach : Reach push [] at decode random_between sent_six moved
unfolding on_watch_write scan skip_noise next_depth on_range_completed active process
moved-Reach =
    chunk braces opened_at_six sent_six watching moved watching-Reach tt
      (message (record { header = some 9; response = response (3 ∷ []) }) refl (refl, refl) sent)
      moved-chunk

-- the watch ends, and nothing in the range changed between the revisions 6 and 9
abbrev ended : World ℕ
ended = on_watch_completed random_between starting 110 operation_timedout false moved

ended-Reach : Reach push [] at decode random_between sent_six ended
unfolding on_watch_completed on_range_completed active process
ended-Reach =
    watch_completed starting 110 operation_timedout false sent_six moved moved-Reach tt (λ n. refl)

ended_positive : ended.self.last_revision ≢ 0
unfolding on_watch_completed on_range_completed active process
ended_positive e = absurd (omega (arith, e))

Reach-known_example : known push [] ended.told [] ≡ at 9
unfolding on_watch_completed on_range_completed active process
Reach-known_example =
    Reach-known push [] at decode random_between sent_six ended ended-Reach ended_positive

fail_all-on_watch_completed-IsRenewing_example :
    IsRenewing
      (fail_all random_between (get_failed starting 120 ∷ activates starting 140 ∷ []) (
        on_watch_completed random_between starting 110 operation_timedout false
          watching)).self.rpc_opr
fail_all-on_watch_completed-IsRenewing_example =
    fail_all-on_watch_completed-IsRenewing random_between
      (get_failed starting 120 ∷ activates starting 140 ∷ []) starting 110 operation_timedout false
      watching

failed_get_retried_example :
    let failing = (on_range_completed random_between starting 100 failed idle).self in
    (active random_between starting 110
      (actives random_between ((starting, 105) ∷ []) failing)).rpc_opr
    ≡ some get_range
failed_get_retried_example =
    failed_get_retried random_between starting 100 110 ((starting, 105) ∷ []) idle (omega arith)
      (omega arith, tt)

ended_watch_resumed_example :
    let tried =
      fail_all random_between (get_failed starting 120 ∷ activates starting 140 ∷ []) ended in
    (on_range_completed random_between starting 150 (content 9 []) tried).self.rpc_opr
    ≡ some (watch 10)
ended_watch_resumed_example =
    ended_watch_resumed random_between (get_failed starting 120 ∷ activates starting 140 ∷ [])
      starting 110 150 operation_timedout false (content 9 []) moved (omega arith) nine_positive tt

on_chunks-read_example :
    on_chunks decode ((b'{' ∷ []) ∷ (b'}' ∷ b'{' ∷ []) ∷ []) watching
    ≡ some (after decode (read watching.self.data_stream (b'{' ∷ b'}' ∷ b'{' ∷ [])) watching)
on_chunks-read_example = on_chunks-read decode ((b'{' ∷ []) ∷ (b'}' ∷ b'{' ∷ []) ∷ []) watching

-- a document that only says that the watch was created, with the revision of the store in its header
abbrev created_at : ℕ → Message ℕ
created_at n = record { header = some n; response = record (response []) { created = true } }

-- if that watch breaks, the next one starts behind that revision
created_moves :
    (on_range_completed random_between starting 120 (content 9 []) (
      on_watch_completed random_between starting 110 operation_timedout false
        (on_document (some (created_at 9)) watching))).self.rpc_opr
    ≡ some (watch 10)
unfolding on_document on_range_completed on_watch_completed active process
created_moves = refl

-- nothing is left of a watcher that is closed
closed : close watching.self ≡ record (watching.self) {
  rpc_opr = none;
  is_actived = false;
  last_revision = 0;
  evt_handle = false;
}
unfolding close on_range_completed active process
closed = refl
