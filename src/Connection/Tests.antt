-- ===== src/Connection/Tests.antt =====
-- The theorems about bindings at concrete sequences of operations.
use libatapp.Prelude.{◌≡◌, true, List, [], ◌∷◌}
use libatapp.Connection.{set_unready}
use libatapp.Connection.Links.{IsLinked}
use libatapp.Connection.Ready.{
  Change, to_endpoint, to_connector, readies, pends, unbound, change_all,
  change_all-unbound-IsLinked, set_unready-woken,
}

-- handle 1 serves endpoint 7, where a message waits, by connector 3
abbrev connected : List Change
connected = to_connector 1 3 ∷ to_endpoint 1 7 ∷ readies 1 ∷ pends 7 true ∷ []

-- the handle goes over to endpoint 8, which closes it
change_all-unbound-IsLinked_example :
    IsLinked (change_all (to_connector 1 3 ∷ to_endpoint 1 7 ∷ to_endpoint 1 8 ∷ []) unbound)
change_all-unbound-IsLinked_example =
    change_all-unbound-IsLinked (to_connector 1 3 ∷ to_endpoint 1 7 ∷ to_endpoint 1 8 ∷ [])

set_unready-woken_example :
    (set_unready 1 (change_all connected unbound)).woken ≡ (change_all connected unbound).woken
set_unready-woken_example = set_unready-woken connected 1
