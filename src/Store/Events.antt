-- ===== src/Store/Events.antt =====
-- internal/store/records.go: events and the query over them.
pub mod Laws
use cluster_recorder.Prelude.{
  ℕ, ◌≤◌, String, Bool, ◌&&◌, ◌||◌, not, List, [], ◌∷◌, ◌++◌, leb, str_eq, select, take, map,
  if◌then◌else◌, ◌==◌,
}
use cluster_recorder.Prelude.Order.{nat_order}
use cluster_recorder.Prelude.Sorting.{sort_by}
use cluster_recorder.Sample.{Time}
use cluster_recorder.Store.Tables.{Event, Tables, ms, from_ms}
use cluster_recorder.Store.Db.{Action, exec, statement}

-- INSERT OR REPLACE INTO events: a row with the uid goes, the new one comes last.
unfoldable pub insert_event : Event → Tables → Tables
insert_event e t = record t {
  events =
      select (λ (r : Event). not (str_eq r.uid e.uid)) t.events
      ++ record e { first = ms e.first; last = ms e.last } ∷ [];
}

-- PutEvent
unfoldable pub put_event : Event → Action (Unit {0})
put_event e = exec (insert_event e)

pub record EventQuery : Type 0 where
  pub namespace : String
  pub node : String
  pub from : Time
  pub to : Time
  -- A limit that is not positive is 0 here.
  pub limit : ℕ

abbrev pub default_limit : ℕ
default_limit = 1000

-- The WHERE clause.
unfoldable pub matches : EventQuery → Event → Bool
matches q r =
    leb (ms q.from) r.last
    && leb r.last (ms q.to)
    && (str_eq q.namespace "" || str_eq r.namespace q.namespace)
    && (str_eq q.node "" || str_eq r.node q.node)

abbrev pub with_limit : EventQuery → EventQuery
with_limit q = if q.limit == 0 then record q { limit = default_limit } else q

-- A row as the method returns it.
abbrev pub of_row : Event → Event
of_row r = record r { first = from_ms r.first; last = from_ms r.last }

unfoldable pub select_events : EventQuery → Tables → List Event
select_events q t =
    map of_row (take q.limit (sort_by (λ (r : Event). r.last) (select (matches q) t.events)))

-- Events
unfoldable pub events : EventQuery → Action (List Event)
events q = statement (select_events (with_limit q)) (λ t. t)
