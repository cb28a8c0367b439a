-- ===== src/Store/Snapshots/Flags.antt =====
-- `MarkBaseline` changes flags only.
use cluster_recorder.Prelude.{
  ℕ, ◌≡◌, refl, ap, sym, String, false, List, [], ◌∷◌, Option, none, some, arith, map,
}
use mathlib.Core.Path.{subst}
use cluster_recorder.Prelude.Order.{nat_order}
use cluster_recorder.Store.Tables.{SnapshotRow, Tables}
use cluster_recorder.Store.Db.{Keeps, Keeps-statement, Keeps-bind, exec}
use cluster_recorder.Store.Snapshots.{
  is_of, latest_row, mark_row, mark_latest, kept, unmark_row, trim_baselines, mark_baseline,
}

-- A row but for its flag.
abbrev pub unflagged : SnapshotRow → SnapshotRow
unflagged r = record r { baseline = false }

abbrev pub unflagged_tables : Tables → Tables
unflagged_tables t = record t { snapshots = map unflagged t.snapshots }

map-unflagged :
    (f : SnapshotRow → SnapshotRow)
    → ((r : SnapshotRow) → unflagged (f r) ≡ unflagged r)
    → (rs : List SnapshotRow) → map unflagged (map f rs) ≡ map unflagged rs
map-unflagged f same [] = refl
map-unflagged f same (r ∷ rs) = cc (same r, map-unflagged f same rs)

unflagged-mark_row :
    (l : Option SnapshotRow) (r : SnapshotRow) → unflagged (mark_row l r) ≡ unflagged r
unfolding mark_row
unflagged-mark_row none r = refl
unflagged-mark_row (some l) r = ground arith

unflagged-unmark_row :
    (node source : String) (ids : List ℕ) (r : SnapshotRow)
    → unflagged (unmark_row node source ids r) ≡ unflagged r
unfolding unmark_row
unflagged-unmark_row node source ids r = ground arith

unflagged-mark_latest :
    (node source : String) (t : Tables)
    → unflagged_tables (mark_latest node source t) ≡ unflagged_tables t
unfolding mark_latest
unflagged-mark_latest node source t =
    let f = mark_row (latest_row (is_of node source) t) in
    ap (λ (rs : List SnapshotRow). record t { snapshots = rs })
      (map-unflagged f (unflagged-mark_row (latest_row (is_of node source) t)) t.snapshots)

unflagged-trim_baselines :
    (node source : String) (keep : ℕ) (t : Tables)
    → unflagged_tables (trim_baselines node source keep t) ≡ unflagged_tables t
unfolding trim_baselines
unflagged-trim_baselines node source keep t =
    let ids = kept node source keep t.snapshots in
    ap (λ (rs : List SnapshotRow). record t { snapshots = rs })
      (map-unflagged (unmark_row node source ids) (unflagged-unmark_row node source ids)
        t.snapshots)

-- Whichever of its statements fail, `MarkBaseline` changes nothing in the database but flags: a
-- predicate that does not look at them holds as it held.
pub mark_baseline-unflagged :
    (P : Tables → Type 0) (node source : String) (keep : ℕ)
    → Keeps (λ t. P (unflagged_tables t)) (mark_baseline node source keep)
unfolding mark_baseline
mark_baseline-unflagged P node source keep =
    Keeps-bind (exec (mark_latest node source)) (λ _. exec (trim_baselines node source keep))
      (Keeps-statement (λ t. tt) (mark_latest node source)
        (λ t h. subst P (sym (unflagged-mark_latest node source t)) h))
      (λ _.
        Keeps-statement (λ t. tt) (trim_baselines node source keep)
          (λ t h. subst P (sym (unflagged-trim_baselines node source keep t)) h))
