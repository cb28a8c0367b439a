-- ===== src/Store/Events/Laws.antt =====
-- What is kept of the events, and what a query returns.
use cluster_recorder.Prelude.{
  ℕ, ◌≤◌, ◌≡◌, ◌≢◌, ◌↔◌, refl, String, true, false, not, List, [], ◌∷◌, ◌++◌, some, arith, eq_iff,
  str_eq, select, take, All, length, if◌then◌else◌, map, All-imp, All-map, All-of_map, All-take,
  select-All, length-map, length-take-le, ltb, take_of_length-le,
}
use cluster_recorder.Prelude.Order.{text_order, nat_order}
use cluster_recorder.Prelude.Sorting.{find_by, Distinct, sort_by, All-sort_by}
use cluster_recorder.Prelude.Ordering.{
  Distinct-select, Distinct-append, Ordered, sort_by-Ordered, All-of_sort_by, Ordered-take,
  length-sort_by,
}
use cluster_recorder.Store.Tables.{Event, Tables, ms, from_ms}
use cluster_recorder.Store.Tables.Times.{ms-from_ms}
use cluster_recorder.Store.Events.{EventQuery, insert_event, matches, select_events, of_row}

abbrev pub by_uid : Event → String
by_uid e = e.uid

-- No two rows have one uid: the primary key.
abbrev pub IsKeyed : List Event → Type 0
IsKeyed = Distinct by_uid

abbrev row_of : Event → Event
row_of e = record e { first = ms e.first; last = ms e.last }

find-insert :
    (u : String) (e r : Event) (es : List Event)
    → r.uid ≡ e.uid
    → find_by by_uid u (select (λ (s : Event). not (str_eq s.uid e.uid)) es ++ r ∷ [])
      ≡ (if str_eq e.uid u then some r else find_by by_uid u es)
unfolding find_by
find-insert u e r [] h = rw h
find-insert u e r (s ∷ es) h =
    ground (arith, find-insert u e r es h, eq_iff s.uid e.uid, eq_iff s.uid u, eq_iff e.uid u)

-- After an event is stored its uid finds it, with its times cut to milliseconds, and every other
-- uid finds what it found before: a later sighting of an event replaces the earlier one.
pub find_by-insert_event :
    (u : String) (e : Event) (t : Tables)
    → find_by by_uid u (insert_event e t).events
      ≡ (if str_eq e.uid u then some (row_of e) else find_by by_uid u t.events)
unfolding insert_event
find_by-insert_event u e t = find-insert u e (row_of e) t.events refl

All-fresh :
    (e : Event) (es : List Event)
    → All
        (λ (s : Event). str_eq s.uid e.uid ≡ false)
        (select (λ (s : Event). not (str_eq s.uid e.uid)) es)
All-fresh e [] = tt
All-fresh e (s ∷ es) = ground (arith, All-fresh e es)

-- The table never holds two rows for one uid.
pub insert_event-IsKeyed :
    (e : Event) (t : Tables) → IsKeyed t.events → IsKeyed (insert_event e t).events
unfolding insert_event
insert_event-IsKeyed e t d =
    Distinct-append by_uid (select (λ (s : Event). not (str_eq s.uid e.uid)) t.events) (row_of e)
      (Distinct-select by_uid (λ (s : Event). not (str_eq s.uid e.uid)) t.events d)
      (All-fresh e t.events)

-- What a caller asked for: the time range, to the millisecond, and, where they are given, the
-- namespace and the node.
pub record IsAsked (q : EventQuery) (e : Event) : Type 0 where
  pub after : ms q.from ≤ ms e.last
  pub before : ms e.last ≤ ms q.to
  pub in_namespace : q.namespace ≢ "" → e.namespace ≡ q.namespace
  pub on_node : q.node ≢ "" → e.node ≡ q.node

matches_iff : (q : EventQuery) (r : Event) → (matches q r ≡ true) ↔ IsAsked q (of_row r)
unfolding matches
matches_iff q r = ground (
  arith,
  ms-from_ms r.last,
  eq_iff q.namespace "",
  eq_iff r.namespace q.namespace,
  eq_iff q.node "",
  eq_iff r.node q.node,
)

by_last : Event → ℕ
by_last e = e.last

Ordered-of_row :
    (es : List Event)
    → Ordered (λ (e : Event). e.last) es
    → Ordered (λ (e : Event). e.last) (map of_row es)
unfolding from_ms
Ordered-of_row [] h = tt
Ordered-of_row (e ∷ es) h = (
  All-map (λ (x : Event). ltb x.last (from_ms e.last) ≡ false) of_row es
      (All-imp (λ (x : Event). ltb x.last e.last ≡ false)
        (λ (x : Event). ltb (from_ms x.last) (from_ms e.last) ≡ false) es (λ x le. ground arith)
        h.0),
  Ordered-of_row es h.1,
)

found : EventQuery → Tables → List Event
found q t = sort_by (λ (r : Event). r.last) (select (matches q) t.events)

found-IsAsked :
    (q : EventQuery) (t : Tables) → All (λ (r : Event). IsAsked q (of_row r)) (found q t)
unfolding found
found-IsAsked q t =
    All-sort_by (λ (r : Event). r.last) (λ (r : Event). IsAsked q (of_row r))
      (select (matches q) t.events)
      (All-imp (λ (r : Event). matches q r ≡ true) (λ (r : Event). IsAsked q (of_row r))
        (select (matches q) t.events) (λ r m. (matches_iff q r).0 m)
        (select-All (matches q) t.events))

-- A query returns only what was asked for, oldest first, and at most as many as the limit.
pub select_events_sound :
    (q : EventQuery) (t : Tables)
    → All (IsAsked q) (select_events q t)
      × Ordered (λ (e : Event). e.last) (select_events q t)
      × (length (select_events q t) ≤ q.limit)
unfolding select_events found
select_events_sound q t = (
  All-map (IsAsked q) of_row (take q.limit (found q t))
      (All-take (λ (r : Event). IsAsked q (of_row r)) q.limit (found q t) (found-IsAsked q t)),
  Ordered-of_row (take q.limit (found q t)) (
      Ordered-take (λ (r : Event). r.last) q.limit (found q t)
        (sort_by-Ordered (λ (r : Event). r.last) (select (matches q) t.events))),
  omega (arith, length-map of_row (take q.limit (found q t)), length-take-le q.limit (found q t)),
)

-- Where no more rows match than the limit allows, none of them is left out: what holds of all
-- that is returned holds of every row that matches.
pub select_events_complete :
    (P : Event → Type 0) (q : EventQuery) (t : Tables)
    → length (select (matches q) t.events) ≤ q.limit
    → All P (select_events q t)
    → All (λ (r : Event). P (of_row r)) (select (matches q) t.events)
unfolding select_events
select_events_complete P q t few all =
    let sorted = sort_by (λ (r : Event). r.last) (select (matches q) t.events) in
    let fits : length sorted ≤ q.limit =
      omega (arith, length-sort_by (λ (r : Event). r.last) (select (matches q) t.events), few) in
    All-of_sort_by (λ (r : Event). r.last) (λ (r : Event). P (of_row r))
      (select (matches q) t.events)
      (rw (take_of_length-le q.limit sorted fits) at
        (All-of_map P of_row (take q.limit sorted) all))
