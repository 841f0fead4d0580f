-- ===== src/Etcd/Tests.antt =====
-- The theorems about etcd at concrete streams and keys.
use libatapp.Prelude.{
  ℕ, ◌≡◌, refl, arith, Bool, true, false, not, ◌&&◌, some, List, [], ◌∷◌, ◌==◌, ◌-◌, ◌%◌,
  if◌then◌else◌,
}
use libatapp.Etcd.Keepalive.{Keepalive, new_keepalive, set, set_value, active, process, on_set_data}
use libatapp.Etcd.Keepalive.Requests.{
  Event, sets_value, set_reply, run, step, new_world, IsChecked, run-IsChecked,
}
use libatapp.Etcd.Keepalive.Fresh.{starting, starting_all, run_stores}
use libatapp.Etcd.Keepalive.Sending.{set_value_sent}
use libatapp.Etcd.Cluster.{Cluster}
use libatapp.Etcd.Cluster.Lists.{IsUnique}
use libatapp.Etcd.Cluster.Calls.{adds, removes, perform_all, perform_all-IsUnique}
use libatapp.Etcd.Cluster.Retries.{checked_key, failing}
use libatapp.Etcd.Discovery.{no_nodes}
use libatapp.Etcd.Discovery.Linked.{IsLinked, Change, change_all, change_all-IsLinked}
use libatapp.Etcd.Frame.Chunks.{receive}
use libatapp.Etcd.Frame.Documents.{Message, fresh, docs_of, IsDocument, receive-wire}
use libatapp.Etcd.KeyRange.{plus_one, range_end_of}
use libatapp.Etcd.KeyRange.Order.{before, starts_with}
use libatapp.Etcd.KeyRange.Prefix.{range_end_of-starts_with}

-- `{a}{b}` after a line end, in two ways of cutting
abbrev stream : List ℕ
stream = 10 ∷ b'{' ∷ 97 ∷ b'}' ∷ b'{' ∷ 98 ∷ b'}' ∷ []

abbrev first_cut : List (List ℕ)
first_cut = (10 ∷ b'{' ∷ []) ∷ (97 ∷ b'}' ∷ b'{' ∷ 98 ∷ b'}' ∷ []) ∷ []

abbrev second_cut : List (List ℕ)
second_cut = (10 ∷ b'{' ∷ 97 ∷ b'}' ∷ []) ∷ (b'{' ∷ 98 ∷ b'}' ∷ []) ∷ []

abbrev sent : List Message
sent = (10 ∷ [], b'{' ∷ 97 ∷ b'}' ∷ []) ∷ ([], b'{' ∷ 98 ∷ b'}' ∷ []) ∷ []

abbrev identity : List ℕ → List ℕ
identity bytes = bytes

receive-wire_example : receive fresh second_cut ≡ some (fresh, docs_of sent)
unfolding IsDocument
receive-wire_example =
    receive-wire second_cut sent (((refl, tt), (refl, refl)), ((tt, (refl, refl)), tt)) refl

range_end_of-starts_with_example : starts_with (97 ∷ 255 ∷ []) (97 ∷ 255 ∷ 3 ∷ []) ≡ (
    not (before (97 ∷ 255 ∷ 3 ∷ []) (97 ∷ 255 ∷ []))
    && before (97 ∷ 255 ∷ 3 ∷ []) (range_end_of (97 ∷ 255 ∷ []) plus_one))
range_end_of-starts_with_example =
    range_end_of-starts_with (97 ∷ 255 ∷ []) (97 ∷ 255 ∷ 3 ∷ []) refl
      (omega arith, (omega arith, (omega arith, tt)))

-- a value that is set, sent and stored
abbrev stored_events : List (Bool × Event)
stored_events = (true, sets_value true (1 ∷ [])) ∷ (true, set_reply true) ∷ []

run-IsChecked_example : IsChecked (run (starting_all stored_events) new_world).self
run-IsChecked_example = run-IsChecked (starting_all stored_events)

run_stores_example :
    (run (starting_all stored_events) new_world).stored
    ≡ some (run (starting_all stored_events) new_world).self.value
unfolding run step set_value active process on_set_data
run_stores_example = run_stores stored_events refl refl

abbrev sending : Keepalive
sending = record new_keepalive {
  value = 1 ∷ [];
  is_check_run = true;
  is_check_passed = true;
  rpc_opr = some (set (1 ∷ []));
  is_value_changed = false;
}

set_value_sent_example :
    (on_set_data (starting true) true (set_value failing true (2 ∷ []) sending).self).self.rpc_opr
    ≡ some (set (2 ∷ []))
set_value_sent_example =
    set_value_sent failing true (1 ∷ []) (2 ∷ []) sending refl (refl, refl) refl

abbrev any_value : List ℕ → Bool
any_value v = true

abbrev cluster : Cluster
cluster = record {
  objects = checked_key any_value (1 ∷ []) 0 true false ∷ [];
  keepalive_actors = 0 ∷ [];
  keepalive_retry_actors = 0 ∷ [];
  closing = false;
  running = true;
  enable_lease = true;
  lease = 7;
}

one-IsUnique : IsUnique cluster
one-IsUnique = ((λ j. ground arith), (λ j. ground arith))

perform_all-IsUnique_example :
    IsUnique (perform_all (adds failing 0 ∷ removes 0 ∷ adds failing 0 ∷ []) cluster)
perform_all-IsUnique_example =
    perform_all-IsUnique (adds failing 0 ∷ removes 0 ∷ adds failing 0 ∷ []) cluster one-IsUnique

-- nodes 10 to 19 have the ids 0 to 9, and the odd ones of them a name
abbrev ids : ℕ → ℕ
ids p = p - 10

abbrev names : ℕ → ℕ
names p = if p % 2 == 0 then 0 else p

change_all-IsLinked_example :
    IsLinked ids names
      (change_all ids names (Change.adds 11 ∷ Change.adds 13 ∷ Change.removes_id 1 ∷ []) no_nodes)
change_all-IsLinked_example =
    change_all-IsLinked ids names (Change.adds 11 ∷ Change.adds 13 ∷ Change.removes_id 1 ∷ [])
