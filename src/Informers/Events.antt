-- ===== src/Informers/Events.antt =====
-- internal/informers/convert.go: events of the API as they are stored.
use cluster_recorder.Prelude.{
  ℕ, ◌≢◌, String, not, ◌&&◌, Option, none, some, str_eq, ◌==◌, if◌then◌else◌, arith,
}
use cluster_recorder.Sample.{Time}
use cluster_recorder.Store.Tables.{Event}
use cluster_recorder.Informers.{ApiEvent, EventSeries}

-- `if t.IsZero() { t = next }`
abbrev or_else : ℕ → ℕ → ℕ
or_else t next = if t == 0 then next else t

series_time : Option EventSeries → Time
series_time none = 0
series_time (some s) = s.last_observed_time

series_count : Option EventSeries → ℕ
series_count none = 0
series_count (some s) = s.count

unfoldable pub last_of : ApiEvent → Time
unfolding series_time
last_of ev =
    or_else (or_else (or_else ev.last_timestamp (series_time ev.series)) ev.event_time)
      ev.creation_timestamp

unfoldable pub first_of : ApiEvent → Time
unfolding last_of
first_of ev = or_else (or_else ev.first_timestamp ev.event_time) (last_of ev)

unfoldable pub count_of : ApiEvent → ℕ
unfolding series_count
count_of ev = or_else (or_else ev.count (series_count ev.series)) 1

-- The node of the object that the event is about.
unfoldable pub node_of : (String → String → String) → ApiEvent → String
node_of node_of_pod ev =
    if str_eq ev.involved_object.kind "Node"
    then ev.involved_object.name
    else if str_eq ev.involved_object.kind "Pod"
        && not (str_eq (node_of_pod ev.involved_object.namespace ev.involved_object.name) "")
    then node_of_pod ev.involved_object.namespace ev.involved_object.name
    else ev.source_host

-- EventRecord
unfoldable pub event_record : ApiEvent → (String → String → String) → Event
unfolding last_of first_of count_of node_of
event_record ev node_of_pod = record {
  uid = ev.uid;
  namespace = ev.namespace;
  name = ev.name;
  type = ev.type;
  reason = ev.reason;
  message = ev.message;
  kind = ev.involved_object.kind;
  obj_namespace = ev.involved_object.namespace;
  obj_name = ev.involved_object.name;
  node = node_of node_of_pod ev;
  count = count_of ev;
  first = first_of ev;
  last = last_of ev;
}

-- An event that the API server has created is stored with both times and a count: whichever of the
-- deprecated and the newer fields its reporter left empty.
pub event_record_dated :
    (ev : ApiEvent) (node_of_pod : String → String → String)
    → ev.creation_timestamp ≢ 0
    → let e = event_record ev node_of_pod in (e.first ≢ 0) × (e.last ≢ 0) × (e.count ≢ 0)
unfolding event_record first_of last_of count_of
event_record_dated ev node_of_pod created =
    (λ e. ground (arith, created, e), λ e. ground (arith, created, e), λ e. ground (arith, e))
