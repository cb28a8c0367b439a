-- ===== src/Store/Changes.antt =====
-- internal/store/snapshots.go: change records.
use cluster_recorder.Prelude.{
  ℕ, ◌+◌, String, Bool, true, false, ◌&&◌, ◌||◌, List, [], ◌∷◌, ◌++◌, leb, str_eq, select, map,
  length,
}
use cluster_recorder.Prelude.Order.{pair_order}
use cluster_recorder.Prelude.Sorting.{sort_by}
use cluster_recorder.Sample.{Time}
use cluster_recorder.Sample.Stored.{encode, decode}
use cluster_recorder.Diff.{Change, Severity, alert}
use cluster_recorder.Store.Tables.{ChangeRow, Tables, ms, from_ms}
use cluster_recorder.Store.Db.{Action, exec, query, pure, ◌>>◌}

unfoldable pub row_of_change : ℕ → Change → ChangeRow
row_of_change id c = record {
  id = id;
  ts = ms c.time;
  node = c.node;
  source = c.source;
  field = c.field;
  old = encode c.old;
  new = encode c.new;
  severity = c.severity;
}

-- INSERT INTO changes
unfoldable pub insert_change : Change → Tables → Tables
unfolding row_of_change
insert_change c t = record t {
  changes = t.changes ++ row_of_change t.next_change c ∷ [];
  next_change = t.next_change + 1;
}

-- PutChanges
unfoldable pub put_changes : List Change → Action (Unit {0})
unfolding insert_change
put_changes [] = pure tt
put_changes (c ∷ cs) = do exec (insert_change c); put_changes cs

unfoldable pub scan_change : ChangeRow → Change
scan_change r = record {
  id = r.id;
  time = from_ms r.ts;
  node = r.node;
  source = r.source;
  field = r.field;
  old = decode r.old;
  new = decode r.new;
  severity = r.severity;
}

-- Changes: of one node, or of all if the node is "".
unfoldable pub changes : String → Time → Time → Action (List Change)
unfolding scan_change
changes node from to = query λ t. map scan_change (
    sort_by {K = ℕ × ℕ} (λ (r : ChangeRow). (r.ts, r.id))
      (select
        (λ (r : ChangeRow).
          leb (ms from) r.ts && leb r.ts (ms to) && (str_eq node "" || str_eq r.node node))
        t.changes))

-- ChangesOnField
unfoldable pub changes_on_field : String → String → Time → Action ℕ
changes_on_field node field since = query λ t. length (
    select (λ (r : ChangeRow). str_eq r.node node && str_eq r.field field && leb (ms since) r.ts)
      t.changes)

abbrev pub is_alert : Severity → Bool
is_alert alert = true
is_alert _ = false

-- AlertsSince
unfoldable pub alerts_since : Time → Action ℕ
alerts_since since =
    query
      λ t. length (select (λ (r : ChangeRow). is_alert r.severity && leb (ms since) r.ts) t.changes)
