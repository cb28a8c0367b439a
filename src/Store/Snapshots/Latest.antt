-- ===== src/Store/Snapshots/Latest.antt =====
-- `LatestSnapshot` and `Baseline` find the newest row.
use cluster_recorder.Prelude.{
  ℕ, ◌≤◌, ◌<◌, ◌≡◌, refl, ap, ◌⊎◌, inl, inr, Bool, true, false, List, [], ◌∷◌, none, some, arith,
  eq_iff, select, head?, head?-All, All, All-of_select, All-select, All-imp, All-append, All-zip,
  All-of, All-of_append, head?-nonempty, ◌∙◌, select-All, Option-cases,
}
use mathlib.Core.Path.{subst}
use cluster_recorder.Prelude.Order.{pair_order, pair_lt, pair_irrefl, descending}
use cluster_recorder.Prelude.Sorting.{sort_by, All-sort_by, Distinct}
use cluster_recorder.Prelude.Ordering.{Ordered, sort_by-Ordered, All-of_sort_by}
use cluster_recorder.Prelude.Order.{nat_order}
use cluster_recorder.Sample.{Snapshot}
use cluster_recorder.Store.Tables.{SnapshotRow, Tables, ms}
use cluster_recorder.Store.Snapshots.{
  row_of, insert_snapshot, stamp, newest_first, is_of, latest_row,
}

-- `s` is not newer than `r`: an earlier time, or the same time and no larger id.
abbrev pub NotNewer : SnapshotRow → SnapshotRow → Type 0
NotNewer r s = pair_lt (stamp r) (stamp s) ≡ false

sorted_head :
    (xs : List SnapshotRow) (r : SnapshotRow)
    → Ordered ⦃o = descending pair_order⦄ stamp xs
    → head? xs ≡ some r
    → All (NotNewer r) xs
sorted_head [] r o h = tt
sorted_head (x ∷ xs) r o h =
    let e : x ≡ r = ground arith in
    subst (λ y. All (NotNewer y) (x ∷ xs)) e (pair_irrefl (stamp x), o.0)

head-newest_first :
    (xs : List SnapshotRow) (r : SnapshotRow)
    → head? (newest_first xs) ≡ some r
    → All (NotNewer r) xs
unfolding newest_first
head-newest_first xs r h = All-of_sort_by ⦃o = descending pair_order⦄ stamp (NotNewer r) xs (
    sorted_head (sort_by ⦃o = descending pair_order⦄ stamp xs) r
      (sort_by-Ordered ⦃o = descending pair_order⦄ stamp xs) h)

-- What holds of every row that the query selects holds of the row that it returns.
pub latest_row-All :
    (P : SnapshotRow → Type 0) (p : SnapshotRow → Bool) (t : Tables) (r : SnapshotRow)
    → All (λ s. p s ≡ true → P s) t.snapshots
    → latest_row p t ≡ some r
    → P r
unfolding latest_row newest_first
latest_row-All P p t r h e =
    head?-All P (newest_first (select p t.snapshots)) r
      (All-sort_by ⦃o = descending pair_order⦄ stamp P (select p t.snapshots) (
        All-imp (λ s. (p s ≡ true) × (p s ≡ true → P s)) P (select p t.snapshots) (λ s q. q.1 q.0)
          (All-zip (λ s. p s ≡ true) (λ s. p s ≡ true → P s) (select p t.snapshots)
            (select-All p t.snapshots) (All-select (λ s. p s ≡ true → P s) p t.snapshots h))))
      e

-- The row that the query returns meets its condition, and no other row that does is newer.
pub latest_row_newest :
    (p : SnapshotRow → Bool) (t : Tables) (r : SnapshotRow)
    → latest_row p t ≡ some r
    → (p r ≡ true) × All (λ s. p s ≡ true → NotNewer r s) t.snapshots
unfolding latest_row
latest_row_newest p t r e = (
  latest_row-All (λ s. p s ≡ true) p t r
      (All-of (λ s. p s ≡ true → p s ≡ true) t.snapshots (λ s h. h)) e,
  All-of_select (NotNewer r) p t.snapshots (head-newest_first (select p t.snapshots) r e),
)

nothing_sorted : (xs : List SnapshotRow) → head? (newest_first xs) ≡ none → All (λ s. ⊥) xs
unfolding newest_first
nothing_sorted xs e =
    All-of_sort_by ⦃o = descending pair_order⦄ stamp (λ s. ⊥) xs
      (rw (head?-nonempty (sort_by ⦃o = descending pair_order⦄ stamp xs) e) tt)

-- The query returns nothing only if no row meets its condition.
pub latest_row-none :
    (p : SnapshotRow → Bool) (t : Tables)
    → latest_row p t ≡ none
    → All (λ s. p s ≡ true → ⊥) t.snapshots
unfolding latest_row
latest_row-none p t e =
    All-of_select (λ s. ⊥) p t.snapshots (nothing_sorted (select p t.snapshots) e)

-- Every id in use is below the counter, and no two rows have one id.
pub record IsNumbered (t : Tables) : Type 0 where
  pub below : All (λ (r : SnapshotRow). r.id < t.next_snapshot) t.snapshots
  pub distinct : Distinct (λ (r : SnapshotRow). r.id) t.snapshots

-- No row that the query would look at was sampled after `s`.
abbrev pub IsNext : Snapshot → Tables → Type 0
IsNext s t =
    All (λ (r : SnapshotRow). is_of s.node s.source r ≡ true → r.ts ≤ ms s.time) t.snapshots

-- The row is `new`, or older.
abbrev SameOrOlder : SnapshotRow → SnapshotRow → Type 0
SameOrOlder new r = (r ≡ new) ⊎ (pair_lt (stamp r) (stamp new) ≡ true)

older :
    (s : Snapshot) (t : Tables)
    → IsNumbered t
    → IsNext s t
    → All
        (λ (r : SnapshotRow).
          is_of s.node s.source r ≡ true → SameOrOlder (row_of t.next_snapshot s) r)
        t.snapshots
unfolding row_of pair_lt
older s t n next =
    All-imp
      (λ (r : SnapshotRow).
        (r.id < t.next_snapshot) × (is_of s.node s.source r ≡ true → r.ts ≤ ms s.time))
      (λ (r : SnapshotRow).
        is_of s.node s.source r ≡ true → SameOrOlder (row_of t.next_snapshot s) r)
      t.snapshots (λ r h m. let le = h.1 m in inr (ground (arith, h.0)))
      (All-zip (λ (r : SnapshotRow). r.id < t.next_snapshot)
        (λ (r : SnapshotRow). is_of s.node s.source r ≡ true → r.ts ≤ ms s.time) t.snapshots n.below
        next)

is_of-row_of : (id : ℕ) (s : Snapshot) → is_of s.node s.source (row_of id s) ≡ true
unfolding row_of
is_of-row_of id s = ground (arith, eq_iff s.node s.node, eq_iff s.source s.source)

-- The snapshot that was stored last is the latest, if it is not older than the ones before it.
pub latest_row-insert_snapshot :
    (s : Snapshot) (t : Tables)
    → IsNumbered t
    → IsNext s t
    → latest_row (is_of s.node s.source) (insert_snapshot s t) ≡ some (row_of t.next_snapshot s)
unfolding insert_snapshot
latest_row-insert_snapshot s t n next =
    let p = is_of s.node s.source in
    let new = row_of t.next_snapshot s in
    let mine = is_of-row_of t.next_snapshot s in
    elim (Option-cases (latest_row p (insert_snapshot s t))) [
      | inl e ↦ absurd (
          (All-of_append (λ r. p r ≡ true → ⊥) t.snapshots (new ∷ [])
              (latest_row-none p (insert_snapshot s t) e)).1.0
            mine)
      | inr (r, e) ↦
          let newest =
            (All-of_append (λ s. p s ≡ true → NotNewer r s) t.snapshots (new ∷ [])
                (latest_row_newest p (insert_snapshot s t) r e).1).1.0
              mine in
          let same =
            latest_row-All (SameOrOlder new) p (insert_snapshot s t) r
              (All-append (λ r. p r ≡ true → SameOrOlder new r) t.snapshots (new ∷ [])
                (older s t n next) (λ _. inl refl, tt))
              e in
          e ∙ ap some (the_same r new same newest)
    ]
  where
    the_same : (r new : SnapshotRow) → SameOrOlder new r → NotNewer r new → r ≡ new
    the_same r new (inl e) h = e
    the_same r new (inr o) h = absurd (cc)
