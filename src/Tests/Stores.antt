-- ===== src/Tests/Stores.antt =====
-- The theorems on the store, applied.
use cluster_recorder.Prelude.{
  ◌*◌, ◌≡◌, ◌≤◌, refl, Bool, true, false, List, [], ◌∷◌, some, arith, length, select,
}
use cluster_recorder.Prelude.Order.{nat_order, text_order, pair_order, pair_lt}
use cluster_recorder.Prelude.Sorting.{find_by, sort_by}
use cluster_recorder.Config.{hour}
use cluster_recorder.Sample.{source_agent}
use cluster_recorder.Store.Tables.{Tables, SnapshotRow, PodTransition, PodState, Event}
use cluster_recorder.Store.Db.{Db}
use cluster_recorder.Store.Triples.{Outcome, Triple}
use cluster_recorder.Store.Snapshots.{
  is_of, is_baseline_of, mark_baseline, latest_row, newest_first,
}
use cluster_recorder.Store.Snapshots.Latest.{IsNumbered}
use cluster_recorder.Store.Snapshots.Marked.{marked_bound}
use cluster_recorder.Store.Prune.{Pages, Retention, enforce_size_cap, prune}
use cluster_recorder.Store.Prune.Cap.{Fits, enforce_size_cap_ends}
use cluster_recorder.Store.Prune.Dropping.{baselines, Failed, rows}
use cluster_recorder.Store.Prune.Kept.{protected, prune_keeps}
use cluster_recorder.Store.Events.{EventQuery}
use cluster_recorder.Store.Pods.{key_of, pod_key}
use cluster_recorder.Store.Pods.Since.{upserts, upserts_since}
use cluster_recorder.Tests.{row, sampled, noisy, crash, pod_row, now}

sampled-IsNumbered : IsNumbered sampled
sampled-IsNumbered = record {
  below = (omega arith, (omega arith, (omega arith, tt)));
  distinct = ((refl, (refl, tt)), ((refl, tt), (tt, tt)));
}

abbrev is_agent_row : SnapshotRow → Bool
is_agent_row = is_of "node-a" source_agent

newest : latest_row is_agent_row sampled ≡ some (row 3 160_000 false)
unfolding latest_row newest_first sort_by pair_lt
newest = refl

marked_bound_example :
    Triple
      (λ u. u ≡ sampled)
      (mark_baseline "node-a" source_agent 1)
      (λ (_ : Unit {0}) u. length (select (is_baseline_of "node-a" source_agent) u.snapshots) ≤ 1)
      (λ _ _. Unit {0})
marked_bound_example = marked_bound "node-a" source_agent 1 sampled sampled-IsNumbered

abbrev HasThree : Tables → Type 0
HasThree t = length t.snapshots ≡ 3

-- A page for every row.
abbrev pub pages : Pages
pages = record { page_count = rows; freelist_count = λ t. 0; page_size = λ t. 4096 }

-- The third statement fails.
abbrev shaky : Db
shaky = record { tables = noisy; faults = false ∷ false ∷ true ∷ [] }

enforce_size_cap_ends_example :
    let (r, db') = enforce_size_cap pages 8192 100 shaky in
    Outcome (Fits pages 8192 (baselines noisy)) (Failed (baselines noisy) 4) r db'.tables
enforce_size_cap_ends_example =
    enforce_size_cap_ends pages 8192 (baselines noisy) 100 shaky refl (omega arith)

abbrev a_day : Retention
a_day = record { events = 24 * hour; changes = 24 * hour; snapshots = 24 * hour }

prune_keeps_example :
    Outcome
      (λ _ u. u ≡ protected now a_day noisy)
      (λ _ u. protected now a_day u ≡ protected now a_day noisy)
      (prune now a_day shaky).0
      (prune now a_day shaky).1.tables
prune_keeps_example = prune_keeps now a_day shaky

abbrev all_of_shop : EventQuery
all_of_shop = record { namespace = "shop"; node = ""; from = 0; to = now; limit = 10 }

abbrev InShop : Event → Type 0
InShop e = e.namespace ≡ "shop"

abbrev web : PodState
web = pod_row "shop" "web" "" 90_000

upserts_since_example :
    (r : PodState) × (find_by key_of
        (key_of web)
        (upserts (record web { since = 95_000; restarts = 5 } ∷ []) (web ∷ []))
      ≡ some r)
    × (r.since ≡ 90_000)
unfolding find_by pod_key
upserts_since_example =
    upserts_since (record web { since = 95_000; restarts = 5 } ∷ []) (web ∷ []) web refl
      ((refl, refl, refl), tt)

abbrev crashes : List PodTransition
crashes = crash "shop" "web" 100_000 ∷ crash "shop" "web" 90_000 ∷ crash "pay" "api" 95_000 ∷ []
