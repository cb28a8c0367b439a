-- ===== src/Api.antt =====
-- internal/api/server.go: what the handlers answer, and what they do to the store. Reading a request
-- and writing a response are Go's `net/http`; a handler takes the values that it has read.
pub mod Posting
pub mod Diffs
pub mod Compared
pub mod Requests
use cluster_recorder.Prelude.{
  ℕ, ◌-◌, ◌*◌, String, Bool, true, false, not, ◌&&◌, ◌||◌, Option, none, some, List, [], ◌∷◌, ◌++◌,
  length, ltb, str_eq, ◌==◌, is_some, if◌then◌else◌,
}
use cluster_recorder.Prelude.Order.{text_order}
use cluster_recorder.Prelude.Sorting.{sort_by}
use cluster_recorder.Config.{hour}
use cluster_recorder.Dict.{Dict, get}
use cluster_recorder.Sample.{
  Time, Field, Snapshot, Invalid, present, equal, validate_snapshot, source_api, source_agent,
}
use cluster_recorder.Sample.Encoding.{Value}
use cluster_recorder.Diff.{Change, info, add_keys, snapshots}
use cluster_recorder.Store.Tables.{Event}
use cluster_recorder.Store.Timeline.{TimelineEntry}
use cluster_recorder.Store.Snapshots.Nodes.{NodeSummary}
use cluster_recorder.Informers.Hints.{Hints}
use cluster_recorder.Store.Db.{Result, ok, err, Action, pure, ◌>>=◌, ◌>>◌}
use cluster_recorder.Store.Snapshots.{latest_snapshot, baseline, put_snapshot}
use cluster_recorder.Store.Changes.{changes, put_changes}
use cluster_recorder.Store.Incidents.{Incident, incidents as incidents_of}

pub record FieldDiff : Type 0 where
  pub field : String
  pub baseline : Option Field
  pub current : Option Field
  pub changed : Bool

pub record SourceDiff : Type 0 where
  pub baseline_time : Option Time
  pub current_time : Time
  pub driver : String
  pub fields : List FieldDiff
  pub note : String

pub data Response : Type 0 where
  failure : ℕ → Response
  -- 202, with the id and the number of changes
  accepted : ℕ → ℕ → Response
  sources : Dict SourceDiff → Response
  incident_list : List Incident → Response
  event_list : List Event → Response
  node_list : List NodeSummary → Response
  entry_list : List TimelineEntry → Response
  snapshot_list : List Snapshot → Response
  hint_answer : Hints → Response
  -- a code with the status text
  status : ℕ → String → Response
  -- openapi.yaml
  document : Response

-- `if err != nil { s.fail(w, 500, err); return }`
answer : {A : Type 0} → Result A → (A → Action Response) → Action Response
answer (ok a) k db = k a db
answer (err e) k db = (ok (failure 500), db)

unfoldable pub attempt : {A : Type 0} → Action A → (A → Action Response) → Action Response
unfolding answer
attempt m k db = let (r, db') = m db in answer r k db'

-- What the endpoint makes of a posted sample: no client may choose its id, its source or its flag.
unfoldable pub posted : Time → Snapshot → Snapshot
posted now s = record s {
  id = 0;
  source = source_agent;
  baseline = false;
  time = if s.time == 0 then now else s.time;
}

driver_change : Option Snapshot → Snapshot → List Change
driver_change none snap = []
driver_change (some prev) snap =
    if str_eq prev.driver snap.driver
    then []
    else record {
      id = 0;
      time = snap.time;
      node = snap.node;
      source = snap.source;
      field = "driver";
      old = present (Value.text prev.driver);
      new = present (Value.text snap.driver);
      severity = info;
    }
      ∷ []

unfoldable pub agent_changes : Option Snapshot → Snapshot → List Change
unfolding driver_change
agent_changes prev snap = snapshots prev (some snap) ++ driver_change prev snap

-- The part of `agentSnapshot` after the validation.
unfoldable pub store_posted : Snapshot → Action Response
unfolding agent_changes attempt
store_posted snap = attempt (latest_snapshot snap.node source_agent) λ prev.
    attempt (put_snapshot snap) λ stored.
      attempt (put_changes (agent_changes prev stored))
        λ _. pure (accepted stored.id (length (agent_changes prev stored)))

checked : Option Invalid → Snapshot → Action Response
unfolding store_posted
checked none snap = store_posted snap
checked (some e) snap = pure (failure 400)

-- agentSnapshot; `none` is a body that does not decode.
unfoldable pub agent_snapshot : Time → Option Snapshot → Action Response
unfolding checked posted
agent_snapshot now none = pure (failure 400)
agent_snapshot now (some s) = checked (validate_snapshot (posted now s)) (posted now s)

unfoldable pub is_changed : Option Field → Option Field → Bool
is_changed (some b) (some c) = not (equal b c)
is_changed b c = true

fields_of : Option Snapshot → Dict Field
fields_of none = []
fields_of (some s) = s.fields

field_diff : Option Snapshot → Snapshot → String → FieldDiff
unfolding is_changed fields_of
field_diff base cur k = record {
  field = k;
  baseline = get (fields_of base) k;
  current = get cur.fields k;
  changed = is_some base && is_changed (get (fields_of base) k) (get cur.fields k);
}

diff_keys : (String → FieldDiff) → Dict (Unit {0}) → List FieldDiff
diff_keys f [] = []
diff_keys f ((k, u) ∷ keys) = f k ∷ diff_keys f keys

-- sortFields
unfoldable pub sort_fields : List FieldDiff → List FieldDiff
sort_fields = sort_by (λ (f : FieldDiff). f.field)

time_of : Option Snapshot → Option Time
time_of none = none
time_of (some s) = some s.time

-- The body of the loop over the sources, for a source that has a snapshot.
unfoldable pub source_diff : Snapshot → Option Snapshot → SourceDiff
unfolding field_diff diff_keys fields_of time_of
source_diff cur base = record {
  baseline_time = time_of base;
  current_time = cur.time;
  driver = cur.driver;
  fields =
      sort_fields
        (diff_keys (field_diff base cur) (add_keys (fields_of base) (add_keys cur.fields [])));
  note = if is_some base then "" else "no healthy baseline recorded yet for this node/source";
}

with_current :
    String
    → String
    → Option Snapshot
    → Dict SourceDiff
    → (Dict SourceDiff → Action Response)
    → Action Response
unfolding attempt source_diff
with_current node src none out k = k out
with_current node src (some cur) out k =
    attempt (baseline node src) λ base. k (out ++ (src, source_diff cur base) ∷ [])

unfoldable pub diff_sources : String → List String → Dict SourceDiff → Action Response
unfolding attempt with_current
diff_sources node [] out = pure (if length out == 0 then failure 404 else sources out)
diff_sources node (src ∷ srcs) out =
    attempt (latest_snapshot node src) λ cur. with_current node src cur out (diff_sources node srcs)

-- diff; `against` is "" where the parameter is missing.
unfoldable pub diff : String → String → Action Response
unfolding diff_sources
diff against node =
    if not (str_eq against "") && not (str_eq against "baseline")
    then pure (failure 400)
    else diff_sources node (source_api ∷ source_agent ∷ []) []

abbrev pub incident_lookback : ℕ
incident_lookback = 6 * hour

end_of : Incident → Time
end_of inc = elim inc.closed [ none ↦ inc.opened | some c ↦ c ]

-- The loop that attaches the changes around each incident.
unfoldable pub attach_changes : List Incident → List Incident → Action Response
unfolding attempt end_of
attach_changes done [] = pure (incident_list done)
attach_changes done (inc ∷ incs) =
    attempt (changes "" (inc.opened - incident_lookback) (end_of inc))
      λ cs. attach_changes (done ++ record inc { changes = cs } ∷ []) incs

-- incidents, with the range that was asked for; `defaulted` says that no `from` was given.
unfoldable pub incidents : Time → Time → Bool → Bool → Action Response
unfolding attempt attach_changes
incidents from to defaulted open_only =
    attempt (incidents_of (if defaulted then to - 30 * (24 * hour) else from) to open_only)
      (attach_changes [])
