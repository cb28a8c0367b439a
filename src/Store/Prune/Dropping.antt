-- ===== src/Store/Prune/Dropping.antt =====
-- One round of `EnforceSizeCap` drops rows, and no baseline.
use cluster_recorder.Prelude.{
  ℕ, ◌+◌, ◌≤◌, ◌<◌, ◌≡◌, refl, ◌∙◌, Bool, true, false, ◌&&◌, not, List, [], arith, ltb, select,
  select-select, All-select, length, any, str_eq, String, length-select-le, if◌then◌else◌,
}
use cluster_recorder.Store.Tables.{Tables, SnapshotRow, Event}
use cluster_recorder.Store.Db.{StoreError, failed, over_cap, statement, pure, ◌>>=◌}
use cluster_recorder.Store.Snapshots.{is_in}
use cluster_recorder.Store.Triples.{Triple, Triple-bind, Triple-statement, Triple-pure, Triple-if}
use cluster_recorder.Store.Prune.Left.{OnlyBaselines, OnlyBaselines-of_none, no_events-of_none}
use cluster_recorder.Store.Prune.{
  drop_snapshots, drop_events, dropped_snapshots, dropped_events, drop_oldest, oldest_snapshots,
  oldest_events,
}

abbrev pub baselines : Tables → List SnapshotRow
baselines t = select (λ (r : SnapshotRow). r.baseline) t.snapshots

-- The rows that the loop may drop from, counted with the baselines.
abbrev pub rows : Tables → ℕ
rows t = length t.snapshots + length t.events

pub baselines-drop_snapshots : (t : Tables) → baselines (drop_snapshots t) ≡ baselines t
unfolding drop_snapshots
baselines-drop_snapshots t =
    select-select (λ (r : SnapshotRow). r.baseline)
      (λ (r : SnapshotRow). not (not r.baseline && is_in (oldest_snapshots t.snapshots) r.id))
      t.snapshots (λ r h. ground arith)

-- The result of a round's drop: fewer rows if something was dropped, and the baselines as before.
pub record Dropped (bs : List SnapshotRow) (n : ℕ) (dropped : Bool) (t : Tables) : Type 0 where
  pub kept : baselines t ≡ bs
  pub fewer : dropped ≡ true → rows t < n
  pub same : rows t ≤ n
  pub left : dropped ≡ false → OnlyBaselines t × (t.events ≡ [])

module _ (bs : List SnapshotRow) (n : ℕ) where
  abbrev pub Before : Tables → Type 0
  Before t = (baselines t ≡ bs) × (rows t ≤ n)

  -- After an error: the baselines as before, and, if it says that the cap cannot be met, nothing
  -- else left to drop.
  abbrev pub Failed : StoreError → Tables → Type 0
  Failed e t =
      (baselines t ≡ bs)
      × ((used cap : ℕ) → e ≡ over_cap used cap → OnlyBaselines t × (t.events ≡ []))

  -- After a statement that dropped `k` rows.
  abbrev Counted : ℕ → Tables → Type 0
  Counted k t = (baselines t ≡ bs) × (rows t + k ≤ n) × (k ≡ 0 → OnlyBaselines t)

  abbrev CountedBoth : ℕ → Tables → Type 0
  CountedBoth m t =
      (baselines t ≡ bs) × (rows t + m ≤ n) × (m ≡ 0 → OnlyBaselines t × (t.events ≡ []))

  pub broken : (t : Tables) → baselines t ≡ bs → Failed failed t
  broken t h = (h, λ used cap e. absurd (cc))

  snapshots_dropped : (t : Tables) → Before t → Counted (dropped_snapshots t) (drop_snapshots t)
  unfolding drop_snapshots
  snapshots_dropped t h = (
    baselines-drop_snapshots t ∙ h.0,
    omega (
      arith,
      length-select-le
          (λ (r : SnapshotRow). not (not r.baseline && is_in (oldest_snapshots t.snapshots) r.id))
          t.snapshots,
      h.1,
    ),
    λ none_dropped.
        All-select (λ (r : SnapshotRow). r.baseline ≡ true)
          (λ (r : SnapshotRow). not (not r.baseline && is_in (oldest_snapshots t.snapshots) r.id))
          t.snapshots (OnlyBaselines-of_none t none_dropped),
  )

  events_dropped :
      (k : ℕ) (t : Tables)
      → ltb 0 k ≡ false
      → Counted k t
      → CountedBoth (dropped_events t) (drop_events t)
  unfolding drop_events
  events_dropped k t no_snapshot h = (
    h.0,
    omega (
      arith,
      length-select-le
          (λ (e : Event). not (any (λ (u : String). str_eq e.uid u) (oldest_events t.events)))
          t.events,
      h.1,
    ),
    λ none_dropped. (h.2 (ground arith), rw (no_events-of_none t none_dropped) refl),
  )

  pub drop_oldest-Triple : Triple Before drop_oldest (Dropped bs n) Failed
  unfolding drop_oldest
  drop_oldest-Triple =
      Triple-bind {R = Counted} (statement dropped_snapshots drop_snapshots)
        (λ k.
          if ltb 0 k
          then pure true
          else (statement dropped_events drop_events >>= λ m. pure (ltb 0 m)))
        (Triple-statement dropped_snapshots drop_snapshots snapshots_dropped (λ t h. broken t h.0))
        λ k.
          Triple-if (ltb 0 k) (pure true)
            (statement dropped_events drop_events >>= λ m. pure (ltb 0 m))
            (λ some_dropped. Triple-pure true (λ t h. record {
              kept = h.0;
              fewer = λ _. ground arith;
              same = ground arith;
              left = λ e. absurd (cc);
            }))
            (λ no_snapshot.
              Triple-bind {R = CountedBoth} (statement dropped_events drop_events)
                (λ m. pure (ltb 0 m))
                (Triple-statement dropped_events drop_events
                  (λ t h. events_dropped k t no_snapshot h) (λ t h. broken t h.0))
                λ m. Triple-pure (ltb 0 m) (λ t h. record {
                  kept = h.0;
                  fewer = λ more. ground arith;
                  same = ground arith;
                  left = λ none_left. h.2 (ground arith);
                }))
