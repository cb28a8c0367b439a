-- ===== src/Store/Snapshots/Nodes.antt =====
-- internal/store/snapshots.go: the query behind `Nodes`, which groups the snapshots by node. Where
-- two agent snapshots of a node have the same ts, SQL does not say which one's driver is taken; here
-- it is the one inserted first.
use cluster_recorder.Prelude.{
  ℕ, String, Bool, ◌&&◌, List, [], ◌∷◌, Option, none, some, ltb, str_eq, select, map, map_option,
  head?, any, if◌then◌else◌,
}
use cluster_recorder.Prelude.Order.{nat_order, text_order, descending}
use cluster_recorder.Prelude.Sorting.{sort_by}
use cluster_recorder.Sample.{Time, source_api, source_agent}
use cluster_recorder.Store.Tables.{SnapshotRow, from_ms}
use cluster_recorder.Store.Db.{Action, query}
use cluster_recorder.Store.Snapshots.{is_of}

pub record NodeSummary : Type 0 where
  pub node : String
  pub last_api : Option Time
  pub last_agent : Option Time
  pub driver : String
  pub has_baseline : Bool

-- GROUP BY node ORDER BY node: the nodes that have a row, each once.
unfoldable pub add_node : String → List String → List String
add_node n ns = if any (str_eq n) ns then ns else n ∷ ns

unfoldable pub nodes_of : List SnapshotRow → List String
unfolding add_node
nodes_of [] = []
nodes_of (r ∷ rs) = add_node r.node (nodes_of rs)

larger : ℕ → Option ℕ → Option ℕ
larger n none = some n
larger n (some m) = some (if ltb m n then n else m)

-- MAX of the ts; NULL where there is no row.
unfoldable pub max_ts : List SnapshotRow → Option ℕ
unfolding larger
max_ts [] = none
max_ts (r ∷ rs) = larger r.ts (max_ts rs)

driver_of : Option SnapshotRow → String
driver_of none = ""
driver_of (some r) = r.driver

unfoldable pub summary : List SnapshotRow → String → NodeSummary
unfolding driver_of
summary rs n = record {
  node = n;
  last_api = map_option from_ms (max_ts (select (is_of n source_api) rs));
  last_agent = map_option from_ms (max_ts (select (is_of n source_agent) rs));
  driver = driver_of (
      head? (
        sort_by ⦃o = descending nat_order⦄ (λ (r : SnapshotRow). r.ts)
          (select (is_of n source_agent) rs)));
  has_baseline = any (λ (r : SnapshotRow). str_eq r.node n && r.baseline) rs;
}

-- Nodes
unfoldable pub nodes : Action (List NodeSummary)
unfolding nodes_of summary
nodes = query (λ t. map (summary t.snapshots) (sort_by (λ (n : String). n) (nodes_of t.snapshots)))
