-- ===== src/Connection/Links.antt =====
-- About the two sides of a binding.
use libatapp.Prelude.{
  ℕ, ◌≡◌, refl, true, false, not, ◌&&◌, ◌||◌, Option, none, some, List, [], ◌∷◌, ◌==◌, if-cases, ap,
  ◌∙◌, Bool-cases, inl, inr, arith,
}
use libatapp.Connection.{
  Net, erase_handle, has_handle, insert_handle, is_at, update_handle, leave_endpoint,
  leave_connector, unbind_endpoint_with, unbind_connector_with, from_endpoint, from_connector,
  start_closing, close_with, already_closing, close_handle, enter_endpoint, enter_connector,
}

has_handle-erase_handle :
    (j h : ℕ) (xs : List ℕ) → has_handle j (erase_handle h xs) ≡ not (j == h) && has_handle j xs
has_handle-erase_handle j h [] = ground arith
has_handle-erase_handle j h (x ∷ xs) = ground (arith, has_handle-erase_handle j h xs)

same : (j h : ℕ) → j == h ≡ true → j ≡ h
same j h e = ground (arith, e)

pub has_handle-insert_handle :
    (j h : ℕ) (xs : List ℕ) → has_handle j (insert_handle h xs) ≡ j == h || has_handle j xs
has_handle-insert_handle j h xs = elim (Bool-cases (has_handle h xs)) [
  | inl there ↦ rw there (elim (Bool-cases (j == h)) [
    | inl e ↦ rw e (ap (λ k. has_handle k xs) (same j h e) ∙ there)
    | inr ne ↦ rw ne refl
  ])
  | inr absent ↦ rw absent (ground arith)
]

-- a handle is in the set of an endpoint, or of a connector, if and only if it points to it
pub record IsLinked (s : Net) : Type 0 where
  pub endpoints : (h e : ℕ) → has_handle h (s.refer_connections e) ≡ is_at (s.handles h).endpoint e
  pub connectors :
      (h c : ℕ) → has_handle h (s.connector_handles c) ≡ is_at (s.handles h).connector c

out_of_endpoint-IsLinked :
    (h e : ℕ) (s : Net)
    → is_at (s.handles h).endpoint e ≡ true
    → IsLinked s
    → IsLinked (update_handle h (record (s.handles h) { endpoint = none }) (leave_endpoint h e s))
out_of_endpoint-IsLinked h e s here l = record {
  endpoints = λ k e2. ground (
    arith,
    has_handle-erase_handle k h (s.refer_connections e),
    l.endpoints k e,
    l.endpoints k e2,
    here,
  );
  connectors = λ k c. ground (arith, l.connectors k c);
}

leave_endpoint-IsLinked :
    (h e : ℕ) (s : Net)
    → is_at (s.handles h).endpoint e ≡ false
    → IsLinked s
    → IsLinked (leave_endpoint h e s)
leave_endpoint-IsLinked h e s away l = record {
  endpoints = λ k e2. ground (
    arith,
    has_handle-erase_handle k h (s.refer_connections e),
    l.endpoints k e,
    l.endpoints k e2,
    away,
  );
  connectors = l.connectors;
}

out_of_connector-IsLinked :
    (h c : ℕ) (s : Net)
    → is_at (s.handles h).connector c ≡ true
    → IsLinked s
    → IsLinked (update_handle h (record (s.handles h) { connector = none }) (leave_connector h c s))
out_of_connector-IsLinked h c s here l = record {
  endpoints = λ k e. ground (arith, l.endpoints k e);
  connectors = λ k c2. ground (
    arith,
    has_handle-erase_handle k h (s.connector_handles c),
    l.connectors k c,
    l.connectors k c2,
    here,
  );
}

leave_connector-IsLinked :
    (h c : ℕ) (s : Net)
    → is_at (s.handles h).connector c ≡ false
    → IsLinked s
    → IsLinked (leave_connector h c s)
leave_connector-IsLinked h c s away l = record {
  endpoints = l.endpoints;
  connectors = λ k c2. ground (
    arith,
    has_handle-erase_handle k h (s.connector_handles c),
    l.connectors k c,
    l.connectors k c2,
    away,
  );
}

start_closing-IsLinked : (h : ℕ) (s : Net) → IsLinked s → IsLinked (start_closing h s)
start_closing-IsLinked h s l = record {
  endpoints = λ k e. ground (arith, l.endpoints k e);
  connectors = λ k c. ground (arith, l.connectors k c);
}

-- whatever keeps the links may stand for the close of a handle
module _ (f : ℕ → Net → Net) (keeps : (h : ℕ) (s : Net) → IsLinked s → IsLinked (f h s)) where
  pub unbind_endpoint_with-IsLinked :
      (h e : ℕ) (s : Net) → IsLinked s → IsLinked (unbind_endpoint_with f h e s)
  unbind_endpoint_with-IsLinked h e s l =
      if-cases IsLinked (is_at (s.handles h).endpoint e) _ _
        (λ here. keeps h _ (out_of_endpoint-IsLinked h e s here l))
        (λ away. leave_endpoint-IsLinked h e s away l)

  pub unbind_connector_with-IsLinked :
      (h c : ℕ) (s : Net) → IsLinked s → IsLinked (unbind_connector_with f h c s)
  unbind_connector_with-IsLinked h c s l =
      if-cases IsLinked (is_at (s.handles h).connector c) _ _
        (λ here. keeps h _ (out_of_connector-IsLinked h c s here l))
        (λ away. leave_connector-IsLinked h c s away l)

  pub from_endpoint-IsLinked :
      (h : ℕ) (o : Option ℕ) (s : Net) → IsLinked s → IsLinked (from_endpoint f h o s)
  from_endpoint-IsLinked h none s l = l
  from_endpoint-IsLinked h (some e) s l = unbind_endpoint_with-IsLinked h e s l

  pub from_connector-IsLinked :
      (h : ℕ) (o : Option ℕ) (s : Net) → IsLinked s → IsLinked (from_connector f h o s)
  from_connector-IsLinked h none s l = l
  from_connector-IsLinked h (some c) s l = unbind_connector_with-IsLinked h c s l

  close_with-IsLinked : (h : ℕ) (s : Net) → IsLinked s → IsLinked (close_with f h s)
  close_with-IsLinked h s l =
      if-cases IsLinked (s.handles h).is_closing _ _ (λ closes. l)
        (λ open_yet.
          from_connector-IsLinked h _ _
            (from_endpoint-IsLinked h _ _ (start_closing-IsLinked h s l)))

pub close_handle-IsLinked : (h : ℕ) (s : Net) → IsLinked s → IsLinked (close_handle h s)
close_handle-IsLinked h s l = close_with-IsLinked already_closing (λ k t m. m) h s l

pub enter_endpoint-IsLinked :
    (h e : ℕ) (s : Net)
    → (s.handles h).endpoint ≡ none
    → IsLinked s
    → IsLinked (enter_endpoint h e s)
enter_endpoint-IsLinked h e s free l = record {
  endpoints = λ k e2. ground (
    arith,
    has_handle-insert_handle k h (s.refer_connections e),
    l.endpoints k e,
    l.endpoints k e2,
    free,
  );
  connectors = λ k c. ground (arith, l.connectors k c);
}

pub enter_connector-IsLinked :
    (h c : ℕ) (s : Net)
    → (s.handles h).connector ≡ none
    → IsLinked s
    → IsLinked (enter_connector h c s)
enter_connector-IsLinked h c s free l = record {
  endpoints = λ k e. ground (arith, l.endpoints k e);
  connectors = λ k c2. ground (
    arith,
    has_handle-insert_handle k h (s.connector_handles c),
    l.connectors k c,
    l.connectors k c2,
    free,
  );
}
