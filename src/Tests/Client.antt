-- ===== src/Tests/Client.antt =====
-- The theorems on the command line client, applied.
use cluster_recorder.Prelude.{
  ◌+◌, ◌*◌, ◌≡◌, ◌↔◌, refl, true, false, ◌&&◌, [], ◌∷◌, none, some, all, any, length, ◌==◌, map,
  show, join,
}
use cluster_recorder.Config.{minute}
use cluster_recorder.Dict.{Dict}
use cluster_recorder.Sample.{Field, Snapshot, absent, fields_equal}
use cluster_recorder.Sample.Stored.{encode_fields}
use cluster_recorder.Store.Db.{Db, Result, ok, healthy, statement}
use cluster_recorder.Store.Incidents.{Incident}
use cluster_recorder.Store.Snapshots.Nodes.{NodeSummary}
use cluster_recorder.Api.{source_diff, SourceDiff, Response, sources, diff, diff_sources, attempt}
use cluster_recorder.Api.Diffs.{is_changed_field}
use cluster_recorder.Api.Compared.{source_diff_iff}
use cluster_recorder.Api.Requests.{Server, get_diff, handle}
use cluster_recorder.Store.Tables.{empty}
use cluster_recorder.Store.Snapshots.{latest_snapshot, latest_row, newest_first, baseline}
use cluster_recorder.Prelude.Order.{text_order, pair_lt}
use cluster_recorder.Prelude.Sorting.{sort_by}
use cluster_recorder.Ctl.{
  problems, verdict_of, node_problems, compared, all_names, names_of, differs, age, is_silent,
  Client, fine, attention, status, node_row, changed_names,
}
use cluster_recorder.Ctl.Print.{matches_baseline}
use cluster_recorder.Ctl.Verdicts.{is_well, status_iff}
use cluster_recorder.Ctl.Agreement.{status_agrees}
use cluster_recorder.Tests.{before, row, mtu_1450, bridge_up, now}

abbrev server : Server
server = record { ready = some true; hints = none }

abbrev bridgeless : Dict Field
bridgeless = ("pod_bridge", absent) ∷ ("pod_bridge.mtu", mtu_1450) ∷ []

abbrev diff_in : Result Response → Dict SourceDiff
diff_in (ok (Response.sources d)) = d
diff_in _ = []

-- A baseline, and then a sample without the bridge.
abbrev stored : Db
stored = healthy (record empty {
  snapshots =
      record (row 1 100_000 true) { fields = encode_fields before.fields }
      ∷ record (row 2 130_000 false) { fields = encode_fields bridgeless }
      ∷ [];
  next_snapshot = 3;
})

-- The diff of the node.
abbrev answer : Dict SourceDiff
answer = diff_in (handle server now (get_diff "node-a" "") stored).0

abbrev node_a : NodeSummary
node_a = record {
  node = "node-a";
  last_api = none;
  last_agent = some (now + 1);
  driver = "flannel";
  has_baseline = true;
}

-- Its pod bridge has gone.
abbrev gone : SourceDiff
gone = record {
  baseline_time = some 0;
  current_time = now;
  driver = "flannel";
  fields =
      record { field = "pod_bridge"; baseline = some bridge_up; current = none; changed = true }
      ∷ record {
        field = "pod_bridge.mtu";
        baseline = some mtu_1450;
        current = some mtu_1450;
        changed = false;
      }
      ∷ [];
  note = "";
}

abbrev client : Client
client = record {
  nodes = some (node_a ∷ []);
  open_incidents = some [];
  all_incidents = some [];
  diff_of = λ node. some (("agent", gone) ∷ []);
  now = now + 5 * minute;
  show_time = λ t. "";
  show_date = λ t. "";
  show_clock = λ t. "";
  show_duration = λ d. show d;
}

-- The bridge differs, and the agent has been silent for five minutes.
status_shown :
    status client
    ≡ some (
      map (node_row client) (node_a ∷ []),
      attention (
          "node-a differs from baseline: pod_bridge" ∷ "node-a: agent silent for 299999999999 ago"
          ∷ []),
    )
unfolding status problems verdict_of node_problems compared changed_names all_names names_of differs
    age is_silent sort_by show join
status_shown = refl

status_iff_example :
    (status client ≡ some (map (node_row client) (node_a ∷ []), fine 1))
    ↔ ((all (is_well client) (node_a ∷ []) && (length {A = Incident} [] == 0)) ≡ true)
status_iff_example = status_iff client (node_a ∷ []) [] refl refl

answered : (handle server now (get_diff "node-a" "") stored).0 ≡ ok (sources answer)
unfolding handle diff diff_sources attempt latest_snapshot statement latest_row newest_first
    baseline sort_by pair_lt
answered = refl

status_agrees_example : matches_baseline answer ≡ (length (changed_names answer) == 0)
status_agrees_example = status_agrees server now "node-a" stored answer answered

-- The sample without the bridge, as a snapshot.
abbrev without_bridge : Snapshot
without_bridge = record before { fields = bridgeless }

source_diff_iff_example :
    (any is_changed_field (source_diff without_bridge (some before)).fields ≡ false)
    ↔ (fields_equal before.fields bridgeless ≡ true)
source_diff_iff_example =
    source_diff_iff before without_bridge ((refl, tt), (tt, tt)) ((refl, tt), (tt, tt))
