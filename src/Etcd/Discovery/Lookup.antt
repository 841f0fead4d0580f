-- ===== src/Etcd/Discovery/Lookup.antt =====
-- What the operations leave to find in the two maps.
use libatapp.Prelude.{
  ℕ, ◌≡◌, refl, Bool, false, not, ◌&&◌, Option, none, some, List, ◌==◌, find, find-insert,
  find-erase, if◌then◌else◌, arith,
}
use libatapp.Etcd.Discovery.{replace, put_into, drop_unless, drop_old, drop_own, remove_own}

find-replace :
    (other_of : ℕ → ℕ) (j key node : ℕ) (m : List (ℕ × ℕ)) (o : Option ℕ)
    → find key m ≡ o
    → find j (replace other_of key node m o).index ≡ (if j == key then some node else find j m)
find-replace other_of j key node m none e = find-insert j key node m
find-replace other_of j key node m (some old) e = ground (arith, find-insert j key node m, e)

pub find-put_into :
    (other_of : ℕ → ℕ) (j key node : ℕ) (m : List (ℕ × ℕ))
    → find j (put_into other_of key node m).index
      ≡ (if not (key == 0) && j == key then some node else find j m)
find-put_into other_of j key node m =
    ground (arith, find-replace other_of j key node m (find key m) refl)

abbrev pub is_node : ℕ → Option ℕ → Bool
is_node node none = false
is_node node (some there) = there == node

find-drop_unless :
    (j key node : ℕ) (m : List (ℕ × ℕ)) (o : Option ℕ)
    → find key m ≡ o
    → find j (drop_unless key node m o)
      ≡ (if j == key && not (is_node node o) then none else find j m)
find-drop_unless j key node m none e = ground (arith, e)
find-drop_unless j key node m (some there) e = ground (arith, find-erase j key m, e)

pub find-drop_old :
    (j key node : ℕ) (h : Bool) (m : List (ℕ × ℕ))
    → find j (drop_old h key node m) ≡ (
        if h && not (key == 0) && j == key && not (is_node node (find key m))
        then none
        else find j m)
find-drop_old j key node h m = ground (arith, find-drop_unless j key node m (find key m) refl)

find-drop_own :
    (j key node : ℕ) (m : List (ℕ × ℕ)) (o : Option ℕ)
    → find j (drop_own key node m o) ≡ (if j == key && is_node node o then none else find j m)
find-drop_own j key node m none = ground arith
find-drop_own j key node m (some there) = ground (arith, find-erase j key m)

pub find-remove_own :
    (j key node : ℕ) (m : List (ℕ × ℕ))
    → find j (remove_own key node m)
      ≡ (if not (key == 0) && j == key && is_node node (find key m) then none else find j m)
find-remove_own j key node m = ground (arith, find-drop_own j key node m (find key m))

-- Where the map had another node under the key, and that node has another name in the other map,
-- the old key is that name; it is 0 otherwise.
abbrev pub stale_key : (ℕ → ℕ) → ℕ → Option ℕ → ℕ
stale_key other_of node none = 0
stale_key other_of node (some old) =
    if old == node then 0 else if other_of old == other_of node then 0 else other_of old

old_key-replace :
    (other_of : ℕ → ℕ) (key node : ℕ) (m : List (ℕ × ℕ)) (o : Option ℕ)
    → (replace other_of key node m o).old_key ≡ stale_key other_of node o
old_key-replace other_of key node m none = refl
old_key-replace other_of key node m (some old) = ground arith

has_insert-replace :
    (other_of : ℕ → ℕ) (key node : ℕ) (m : List (ℕ × ℕ)) (o : Option ℕ)
    → (replace other_of key node m o).has_insert ≡ not (is_node node o)
has_insert-replace other_of key node m none = refl
has_insert-replace other_of key node m (some old) = ground arith

pub old_key-put_into :
    (other_of : ℕ → ℕ) (key node : ℕ) (m : List (ℕ × ℕ))
    → (put_into other_of key node m).old_key
      ≡ (if key == 0 then 0 else stale_key other_of node (find key m))
old_key-put_into other_of key node m =
    ground (arith, old_key-replace other_of key node m (find key m))

pub has_insert-put_into :
    (other_of : ℕ → ℕ) (key node : ℕ) (m : List (ℕ × ℕ))
    → (put_into other_of key node m).has_insert
      ≡ (not (key == 0) && not (is_node node (find key m)))
has_insert-put_into other_of key node m =
    ground (arith, has_insert-replace other_of key node m (find key m))
