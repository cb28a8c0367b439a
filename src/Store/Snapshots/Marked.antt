-- ===== src/Store/Snapshots/Marked.antt =====
-- `MarkBaseline`: the latest row is a baseline afterwards.
use cluster_recorder.Prelude.{
  ℕ, suc, ◌≤◌, ◌<◌, ◌≡◌, refl, ap, inl, inr, String, true, List, [], ◌∷◌, Option, none, some, arith,
  select, head?, All, All-imp, All-of, All-map, All-of_map, map, take, Option-cases, length,
}
use mathlib.Core.Path.{subst}
use cluster_recorder.Prelude.Order.{nat_order, pair_total, ==_iff}
use cluster_recorder.Prelude.Ordering.{Distinct-map}
use cluster_recorder.Store.Tables.{SnapshotRow, Tables}
use cluster_recorder.Store.Db.{ok, healthy, exec, statement, ◌>>=◌}
use cluster_recorder.Store.Triples.{Triple, Triple-bind, Triple-statement}
use cluster_recorder.Store.Snapshots.{
  stamp, newest_first, is_of, is_baseline_of, latest_row, mark_row, mark_latest, is_in, kept,
  unmark_row, trim_baselines, mark_baseline,
}
use cluster_recorder.Store.Snapshots.Latest.{
  NotNewer, latest_row-All, latest_row_newest, latest_row-none, IsNumbered,
}
use cluster_recorder.Store.Snapshots.Baselines.{trim_baselines_bound}

pub id-mark_row : (l : Option SnapshotRow) (r : SnapshotRow) → (mark_row l r).id ≡ r.id
unfolding mark_row
id-mark_row none r = refl
id-mark_row (some l) r = ground arith

mark_latest-IsNumbered :
    (node source : String) (t : Tables) → IsNumbered t → IsNumbered (mark_latest node source t)
unfolding mark_latest
mark_latest-IsNumbered node source t n =
    let f = mark_row (latest_row (is_of node source) t) in
    record {
      below =
          All-map (λ (r : SnapshotRow). r.id < t.next_snapshot) f t.snapshots
            (All-imp (λ (r : SnapshotRow). r.id < t.next_snapshot)
              (λ (r : SnapshotRow). (f r).id < t.next_snapshot) t.snapshots
              (λ r h. omega (arith, id-mark_row (latest_row (is_of node source) t) r, h)) n.below);
      distinct =
          Distinct-map (λ (r : SnapshotRow). r.id) f
            (id-mark_row (latest_row (is_of node source) t)) t.snapshots n.distinct;
    }

-- What `MarkBaseline` leaves in the tables when no statement fails.
unfoldable pub marked : String → String → ℕ → Tables → Tables
marked node source keep t = trim_baselines node source keep (mark_latest node source t)

pub mark_baseline-healthy :
    (node source : String) (keep : ℕ) (t : Tables)
    → mark_baseline node source keep (healthy t) ≡ (ok tt, healthy (marked node source keep t))
unfolding mark_baseline marked ◌>>=◌ statement
mark_baseline-healthy node source keep t = refl

-- The marked row itself.
mark_self :
    (node source : String) (l : SnapshotRow)
    → is_of node source l ≡ true
    → is_baseline_of node source (mark_row (some l) l) ≡ true
unfolding mark_row
mark_self node source l h = ground (arith, ==_iff l.id l.id)

pub stamp-mark_row : (l : Option SnapshotRow) (r : SnapshotRow) → stamp (mark_row l r) ≡ stamp r
unfolding mark_row
stamp-mark_row none r = refl
stamp-mark_row (some l) r = ground arith

pub is_of-mark_row :
    (node source : String) (l : Option SnapshotRow) (r : SnapshotRow)
    → is_of node source (mark_row l r) ≡ is_of node source r
unfolding mark_row
is_of-mark_row node source none r = refl
is_of-mark_row node source (some l) r = ground arith

module _ (node source : String) (t : Tables) (l : SnapshotRow)
    (latest : latest_row (is_of node source) t ≡ some l) where
  of_baseline :
      (m : Option SnapshotRow) (s : SnapshotRow)
      → is_baseline_of node source (mark_row m s) ≡ true
      → is_of node source s ≡ true
  of_baseline m s h = ground (arith, is_of-mark_row node source m s)

  marked_self :
      (m : Option SnapshotRow) → m ≡ some l → is_baseline_of node source (mark_row m l) ≡ true
  marked_self m e =
      rw e (mark_self node source l (latest_row_newest (is_of node source) t l latest).0)

  flagged :
      (m : Option SnapshotRow) (s : SnapshotRow)
      → m ≡ some l
      → (mark_row m s).id ≡ l.id
      → (mark_row m s).baseline ≡ true
  unfolding mark_row
  flagged m s e h = ground arith

  still_flagged :
      (ids : List ℕ) (r : SnapshotRow)
      → is_in ids l.id ≡ true
      → (r.id ≡ l.id → r.baseline ≡ true)
      → (unmark_row node source ids r).id ≡ l.id
      → (unmark_row node source ids r).baseline ≡ true
  unfolding unmark_row
  still_flagged ids r listed flag h = ground arith

  -- The newest baseline after the first statement is the latest row.
  newest_marked :
      (r : SnapshotRow)
      → latest_row (is_baseline_of node source) (mark_latest node source t) ≡ some r
      → r.id ≡ l.id
  unfolding mark_latest
  newest_marked r e =
      let p = is_of node source in
      let b = is_baseline_of node source in
      let m = latest_row p t in
      let f = mark_row m in
      let t1 = mark_latest node source t in
      let l_newest =
        All-map (λ s. b s ≡ true → NotNewer l s) f t.snapshots
          (All-imp (λ s. p s ≡ true → NotNewer l s) (λ s. b (f s) ≡ true → NotNewer l (f s))
            t.snapshots (λ s h bs. rw (stamp-mark_row m s) (h (of_baseline m s bs)))
            (latest_row_newest p t l latest).1) in
      let r_newest =
        All-of_map (λ s. b s ≡ true → NotNewer r s) f t.snapshots (latest_row_newest b t1 r e).1 in
      let l_r = latest_row-All (NotNewer l) b t1 r l_newest e in
      let r_l =
        latest_row-All (λ s. b (f s) ≡ true → NotNewer r (f s)) p t l
          (All-imp (λ s. b (f s) ≡ true → NotNewer r (f s))
            (λ s. p s ≡ true → b (f s) ≡ true → NotNewer r (f s)) t.snapshots (λ s h _. h) r_newest)
          latest in
      let r_l' : NotNewer r l = rw (← stamp-mark_row m l) (r_l (marked_self m latest)) in
      ap (λ (s : ℕ × ℕ). s.1) (pair_total (stamp r) (stamp l) r_l' l_r)

  kept_head :
      (keep : ℕ) (xs : List SnapshotRow) (r : SnapshotRow)
      → head? xs ≡ some r
      → is_in (map (λ (s : SnapshotRow). s.id) (take (suc keep) xs)) r.id ≡ true
  unfolding is_in
  kept_head keep [] r h = absurd (cc)
  kept_head keep (x ∷ xs) r h = ground (arith, ==_iff r.id x.id)

  kept_latest :
      (keep : ℕ)
      → is_in (kept node source (suc keep) (mark_latest node source t).snapshots) l.id ≡ true
  unfolding kept mark_latest latest_row
  kept_latest keep =
      let b = is_baseline_of node source in
      let m = latest_row (is_of node source) t in
      let t1 = mark_latest node source t in
      elim (Option-cases (latest_row b t1)) [
        | inl e ↦
            let unmarked =
              All-of_map (λ s. b s ≡ true → ⊥) (mark_row m) t.snapshots (latest_row-none b t1 e) in
            absurd (
              latest_row-All (λ s. b (mark_row m s) ≡ true → ⊥) (is_of node source) t l
                (All-imp (λ s. b (mark_row m s) ≡ true → ⊥)
                  (λ s. is_of node source s ≡ true → b (mark_row m s) ≡ true → ⊥) t.snapshots
                  (λ s h _. h) unmarked)
                latest (marked_self m latest))
        | inr (r, e) ↦
            subst (λ i. is_in (kept node source (suc keep) t1.snapshots) i ≡ true)
              (newest_marked r e) (kept_head keep (newest_first (select b t1.snapshots)) r e)
      ]

  -- Where at least one baseline is to be kept, the latest row is a baseline afterwards.
  pub marked_latest :
      (keep : ℕ)
      → All
          (λ (r : SnapshotRow). r.id ≡ l.id → r.baseline ≡ true)
          (marked node source (suc keep) t).snapshots
  unfolding marked trim_baselines mark_latest
  marked_latest keep =
      let m = latest_row (is_of node source) t in
      let ids = kept node source (suc keep) (mark_latest node source t).snapshots in
      let flag = λ (r : SnapshotRow). r.id ≡ l.id → r.baseline ≡ true in
      All-map flag (unmark_row node source ids) (map (mark_row m) t.snapshots) (
        All-map (λ (r : SnapshotRow). flag (unmark_row node source ids r)) (mark_row m) t.snapshots
          (All-of (λ (r : SnapshotRow). flag (unmark_row node source ids (mark_row m r)))
            t.snapshots
            (λ r. still_flagged ids (mark_row m r) (kept_latest keep) (flagged m r latest))))

-- On tables whose snapshots have different ids below the counter: whenever `MarkBaseline` succeeds, at most `keep` baselines are left for the node and source.
pub marked_bound :
    (node source : String) (keep : ℕ) (t : Tables)
    → IsNumbered t
    → Triple
        (λ u. u ≡ t)
        (mark_baseline node source keep)
        (λ _ u. length (select (is_baseline_of node source) u.snapshots) ≤ keep)
        (λ _ _. Unit)
unfolding mark_baseline
marked_bound node source keep t n =
    Triple-bind {R = λ _ u. u ≡ mark_latest node source t} (exec (mark_latest node source))
      (λ _. exec (trim_baselines node source keep))
      (Triple-statement (λ _. tt) (mark_latest node source) (λ u e. ap (mark_latest node source) e)
        (λ u e. tt))
      (λ _.
        Triple-statement (λ _. tt) (trim_baselines node source keep)
          (λ u e. rw e (
            trim_baselines_bound node source keep (mark_latest node source t)
              (mark_latest-IsNumbered node source t n)))
          (λ u e. tt))
