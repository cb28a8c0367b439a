-- ===== src/Store/Incidents.antt =====
-- internal/store/snapshots.go: incidents.
use cluster_recorder.Prelude.{
  ℕ, ◌+◌, String, Bool, true, ◌&&◌, ◌||◌, not, List, [], ◌∷◌, ◌++◌, Option, none, some, leb, select,
  map, map_option, is_some, ◌==◌, if◌then◌else◌,
}
use cluster_recorder.Prelude.Order.{nat_order, descending}
use cluster_recorder.Prelude.Sorting.{sort_by}
use cluster_recorder.Sample.{Time}
use cluster_recorder.Diff.{Change}
use cluster_recorder.Store.Tables.{IncidentRow, Tables, ms, from_ms}
use cluster_recorder.Store.Db.{Action, exec, statement, query}

pub record Incident : Type 0 where
  pub id : ℕ
  pub opened : Time
  pub closed : Option Time
  pub pods : List String
  pub changes : List Change

unfoldable pub insert_incident : Time → List String → Tables → Tables
insert_incident opened pods t = record t {
  incidents =
      t.incidents
      ++ record { id = t.next_incident; opened_ts = ms opened; closed_ts = none; pods = pods } ∷ [];
  next_incident = t.next_incident + 1;
}

-- OpenIncident: the id of the new row.
unfoldable pub open_incident : Time → List String → Action ℕ
unfolding insert_incident
open_incident opened pods = statement (λ t. t.next_incident) (insert_incident opened pods)

unfoldable pub set_pods_row : ℕ → List String → IncidentRow → IncidentRow
set_pods_row id pods r = if r.id == id then record r { pods = pods } else r

-- SetIncidentPods
unfoldable pub set_incident_pods : ℕ → List String → Action (Unit {0})
unfolding set_pods_row
set_incident_pods id pods =
    exec (λ t. record t { incidents = map (set_pods_row id pods) t.incidents })

unfoldable pub close_row : ℕ → Time → IncidentRow → IncidentRow
close_row id at r = if r.id == id then record r { closed_ts = some (ms at) } else r

-- CloseIncident
unfoldable pub close_incident : ℕ → Time → Action (Unit {0})
unfolding close_row
close_incident id at = exec (λ t. record t { incidents = map (close_row id at) t.incidents })

closed_from : ℕ → Option ℕ → Bool
closed_from from none = true
closed_from from (some c) = leb from c

-- The WHERE clause.
unfoldable pub overlaps : Time → Time → Bool → IncidentRow → Bool
unfolding closed_from
overlaps from to open_only r =
    closed_from (ms from) r.closed_ts
    && leb r.opened_ts (ms to)
    && (not open_only || not (is_some r.closed_ts))

unfoldable pub scan_incident : IncidentRow → Incident
scan_incident r = record {
  id = r.id;
  opened = from_ms r.opened_ts;
  closed = map_option from_ms r.closed_ts;
  pods = r.pods;
  changes = [];
}

-- Incidents
unfoldable pub incidents : Time → Time → Bool → Action (List Incident)
unfolding overlaps scan_incident
incidents from to open_only = query λ t. map scan_incident (
    sort_by ⦃o = descending nat_order⦄ (λ (r : IncidentRow). r.opened_ts)
      (select (overlaps from to open_only) t.incidents))
