-- ===== src/Tests/Marking.antt =====
-- The theorem on the marks of a quiet cluster, applied.
use cluster_recorder.Prelude.{◌≡◌, refl, true, false, all, [], ◌∷◌}
use cluster_recorder.Prelude.Sorting.{sort_by}
use cluster_recorder.Prelude.Order.{pair_lt}
use cluster_recorder.Config.{defaults}
use cluster_recorder.Dict.{get}
use cluster_recorder.Sample.{present, source_api, equal}
use cluster_recorder.Sample.Encoding.{Value, same_bytes, marshal, is_nil, unmarshal}
use cluster_recorder.Sample.Stored.{encode, decode_fields, decode}
use cluster_recorder.Store.Tables.{Tables, SnapshotRow, empty, ms}
use cluster_recorder.Store.Db.{ok, healthy}
use cluster_recorder.Store.Snapshots.{latest_row, newest_first, scan_snapshot}
use cluster_recorder.Incident.{tick, is_ready}
use cluster_recorder.Incident.Marks.{both_flagged}
use cluster_recorder.Incident.Ticks.{tick_marks}
use cluster_recorder.Tests.{row, now}

abbrev ready_row : SnapshotRow
ready_row = record (row 4 170_000 false) {
  source = source_api;
  fields = ("node.ready", encode (present (Value.text "True"))) ∷ [];
}

-- A node that has been ready, with an agent that has just changed its report.
abbrev quiet : Tables
quiet = record empty {
  snapshots = row 2 130_000 true ∷ row 3 160_000 false ∷ ready_row ∷ [];
  next_snapshot = 5;
}

tick_marks_example :
    (u : Tables) × (tick defaults now (healthy quiet) ≡ (ok tt, healthy u))
    × (all (λ (s : SnapshotRow). both_flagged u s.node) quiet.snapshots ≡ true)
unfolding is_ready latest_row newest_first sort_by pair_lt scan_snapshot get encode ms defaults
    equal decode_fields decode same_bytes marshal is_nil unmarshal
tick_marks_example = tick_marks defaults now quiet refl
