-- ===== src/Store/Snapshots/Baselines.antt =====
-- `MarkBaseline`: how many baselines are left.
use cluster_recorder.Prelude.{
  ℕ, suc, ◌≤◌, ◌≡◌, ◌≢◌, refl, String, true, false, List, [], ◌∷◌, arith, select, All, All-select,
  All-imp, All-of, All-zip, All-map, map, take, select-All, ◌∙◌, length, length-map, length-take-le,
  ◌==◌, if◌then◌else◌,
}
use cluster_recorder.Prelude.Order.{nat_order}
use cluster_recorder.Prelude.Sorting.{Distinct}
use cluster_recorder.Prelude.Ordering.{Distinct-map, Distinct-select}
use cluster_recorder.Store.Tables.{SnapshotRow, Tables}
use cluster_recorder.Store.Snapshots.{
  newest_first, is_baseline_of, is_in, kept, unmark_row, trim_baselines,
}
use cluster_recorder.Store.Snapshots.Latest.{IsNumbered}

erase : ℕ → List ℕ → List ℕ
erase i [] = []
erase i (j ∷ js) = if i == j then js else j ∷ erase i js

is_in-erase : (i k : ℕ) (js : List ℕ) → k ≢ i → is_in (erase i js) k ≡ is_in js k
unfolding is_in erase
is_in-erase i k [] h = refl
is_in-erase i k (j ∷ js) h = ground (arith, is_in-erase i k js)

length-erase : (i : ℕ) (js : List ℕ) → is_in js i ≡ true → suc (length (erase i js)) ≡ length js
unfolding is_in erase
length-erase i [] h = absurd (cc)
length-erase i (j ∷ js) h = ground (arith, length-erase i js)

-- Rows with different ids, all of which stand in a list, are no more than the list has entries.
pigeonhole :
    (rs : List SnapshotRow) (ids : List ℕ)
    → Distinct (λ (r : SnapshotRow). r.id) rs
    → All (λ (r : SnapshotRow). is_in ids r.id ≡ true) rs
    → length rs ≤ length ids
pigeonhole [] ids d h = omega arith
pigeonhole (r ∷ rs) ids d h =
    omega (arith, length-erase r.id ids h.0, pigeonhole rs (erase r.id ids) d.1 still)
  where
    still : All (λ (s : SnapshotRow). is_in (erase r.id ids) s.id ≡ true) rs
    still =
        All-imp (λ (s : SnapshotRow). ((r.id == s.id) ≡ false) × (is_in ids s.id ≡ true))
          (λ (s : SnapshotRow). is_in (erase r.id ids) s.id ≡ true) rs
          (λ s p. is_in-erase r.id s.id ids (ground arith) ∙ p.1)
          (All-zip (λ (s : SnapshotRow). (r.id == s.id) ≡ false)
            (λ (s : SnapshotRow). is_in ids s.id ≡ true) rs d.0 h.1)

id-unmark_row :
    (node source : String) (ids : List ℕ) (r : SnapshotRow)
    → (unmark_row node source ids r).id ≡ r.id
unfolding unmark_row
id-unmark_row node source ids r = ground arith

-- A row that is still a baseline is one of those that are kept.
unmark_row-kept :
    (node source : String) (ids : List ℕ) (r : SnapshotRow)
    → is_baseline_of node source (unmark_row node source ids r) ≡ true
    → is_in ids (unmark_row node source ids r).id ≡ true
unfolding unmark_row
unmark_row-kept node source ids r h = ground arith

length-kept :
    (node source : String) (keep : ℕ) (rs : List SnapshotRow)
    → length (kept node source keep rs) ≤ keep
unfolding kept
length-kept node source keep rs =
    let newest = newest_first (select (is_baseline_of node source) rs) in
    omega
      (arith, length-map (λ (r : SnapshotRow). r.id) (take keep newest), length-take-le keep newest)

-- After the second statement at most `keep` baselines are left for the node and source.
pub trim_baselines_bound :
    (node source : String) (keep : ℕ) (t : Tables)
    → IsNumbered t
    → length (select (is_baseline_of node source) (trim_baselines node source keep t).snapshots)
      ≤ keep
unfolding trim_baselines
trim_baselines_bound node source keep t n =
    let ids = kept node source keep t.snapshots in
    let f = unmark_row node source ids in
    let left = select (is_baseline_of node source) (map f t.snapshots) in
    omega (
      arith,
      length-kept node source keep t.snapshots,
      pigeonhole left ids
          (Distinct-select (λ (r : SnapshotRow). r.id) (is_baseline_of node source)
            (map f t.snapshots)
            (Distinct-map (λ (r : SnapshotRow). r.id) f (id-unmark_row node source ids) t.snapshots
              n.distinct))
          (All-imp
            (λ (r : SnapshotRow).
              (is_baseline_of node source r ≡ true)
              × (is_baseline_of node source r ≡ true → is_in ids r.id ≡ true))
            (λ (r : SnapshotRow). is_in ids r.id ≡ true) left (λ r p. p.1 p.0)
            (All-zip (λ (r : SnapshotRow). is_baseline_of node source r ≡ true)
              (λ (r : SnapshotRow). is_baseline_of node source r ≡ true → is_in ids r.id ≡ true)
              left (select-All (is_baseline_of node source) (map f t.snapshots))
              (All-select
                (λ (r : SnapshotRow). is_baseline_of node source r ≡ true → is_in ids r.id ≡ true)
                (is_baseline_of node source) (map f t.snapshots)
                (All-map
                  (λ (r : SnapshotRow). is_baseline_of node source r ≡ true → is_in ids r.id ≡ true)
                  f t.snapshots
                  (All-of
                    (λ (r : SnapshotRow).
                      is_baseline_of node source (f r) ≡ true → is_in ids (f r).id ≡ true)
                    t.snapshots (unmark_row-kept node source ids)))))),
    )
