-- ===== src/Store/Prune/Left.antt =====
-- A drop that drops nothing found nothing to drop.
use cluster_recorder.Prelude.{
  ◌≡◌, refl, String, Bool, true, ◌&&◌, not, List, [], ◌∷◌, some, arith, eq_iff, select, select-All,
  length, length-select-le, map, take, any, str_eq, All, All-imp, All-zip, All-select,
  All-of_select, head?, head?-All, head?-nonempty, Option-cases, inl, inr,
}
use cluster_recorder.Prelude.Order.{nat_order, ==_iff}
use cluster_recorder.Prelude.Sorting.{sort_by, All-sort_by}
use cluster_recorder.Prelude.Ordering.{All-of_sort_by}
use cluster_recorder.Store.Tables.{Tables, SnapshotRow, Event}
use cluster_recorder.Store.Snapshots.{is_in}
use cluster_recorder.Store.Prune.{
  drop_snapshots, drop_events, dropped_snapshots, dropped_events, oldest_snapshots, oldest_events,
}

-- A filter that keeps the length lets everything through.
select-All_of_length :
    {A : Type 0} (p : A → Bool) (xs : List A)
    → length (select p xs) ≡ length xs
    → All (λ x. p x ≡ true) xs
select-All_of_length p [] h = tt
select-All_of_length p (x ∷ xs) h = ground (arith, length-select-le p xs, select-All_of_length p xs)

-- The head of a list is among its first 100.
first_id :
    (xs : List SnapshotRow) (r : SnapshotRow)
    → head? xs ≡ some r
    → is_in (map (λ (s : SnapshotRow). s.id) (take 100 xs)) r.id ≡ true
unfolding is_in
first_id [] r h = absurd (cc)
first_id (x ∷ xs) r h = ground (arith, ==_iff r.id x.id)

first_uid :
    (xs : List Event) (e : Event)
    → head? xs ≡ some e
    → any (λ (u : String). str_eq e.uid u) (map (λ (s : Event). s.uid) (take 100 xs)) ≡ true
first_uid [] e h = absurd (cc)
first_uid (x ∷ xs) e h = ground (arith, eq_iff e.uid x.uid)

no_element : (es : List Event) → All (λ e. ⊥) es → es ≡ []
no_element [] h = refl
no_element (e ∷ es) h = absurd h.0

-- No snapshot is left but baselines.
abbrev pub OnlyBaselines : Tables → Type 0
OnlyBaselines t = All (λ (r : SnapshotRow). r.baseline ≡ true) t.snapshots

pub OnlyBaselines-of_none : (t : Tables) → dropped_snapshots t ≡ 0 → OnlyBaselines t
unfolding drop_snapshots oldest_snapshots
OnlyBaselines-of_none t h =
    let ids = oldest_snapshots t.snapshots in
    let q = λ (r : SnapshotRow). not (not r.baseline && is_in ids r.id) in
    let rest = select (λ (r : SnapshotRow). not r.baseline) t.snapshots in
    let sorted = sort_by (λ (r : SnapshotRow). r.ts) rest in
    let kept =
      select-All_of_length q t.snapshots (omega (arith, length-select-le q t.snapshots, h)) in
    elim (Option-cases (head? sorted)) [
      | inl e ↦
          All-imp (λ (r : SnapshotRow). not r.baseline ≡ true → ⊥)
            (λ (r : SnapshotRow). r.baseline ≡ true) t.snapshots
            (λ r no_such. ground (arith, no_such))
            (All-of_select (λ r. ⊥) (λ (r : SnapshotRow). not r.baseline) t.snapshots
              (All-of_sort_by (λ (r : SnapshotRow). r.ts) (λ r. ⊥) rest
                (rw (head?-nonempty sorted e) tt)))
      | inr (r, e) ↦
          let facts =
            head?-All (λ (s : SnapshotRow). (not s.baseline ≡ true) × (q s ≡ true)) sorted r
              (All-sort_by (λ (s : SnapshotRow). s.ts)
                (λ (s : SnapshotRow). (not s.baseline ≡ true) × (q s ≡ true)) rest
                (All-zip (λ (s : SnapshotRow). not s.baseline ≡ true) (λ s. q s ≡ true) rest
                  (select-All (λ (s : SnapshotRow). not s.baseline) t.snapshots)
                  (All-select (λ s. q s ≡ true) (λ (s : SnapshotRow). not s.baseline) t.snapshots
                    kept)))
              e in
          absurd (ground (arith, facts, first_id sorted r e))
    ]

pub no_events-of_none : (t : Tables) → dropped_events t ≡ 0 → t.events ≡ []
unfolding drop_events oldest_events
no_events-of_none t h =
    let uids = oldest_events t.events in
    let q = λ (e : Event). not (any (λ (u : String). str_eq e.uid u) uids) in
    let sorted = sort_by (λ (e : Event). e.last) t.events in
    let kept = select-All_of_length q t.events (omega (arith, length-select-le q t.events, h)) in
    elim (Option-cases (head? sorted)) [
      | inl e ↦ no_element t.events (
          All-of_sort_by (λ (r : Event). r.last) (λ r. ⊥) t.events
            (rw (head?-nonempty sorted e) tt))
      | inr (r, e) ↦
          let fact =
            head?-All (λ s. q s ≡ true) sorted r
              (All-sort_by (λ (s : Event). s.last) (λ s. q s ≡ true) t.events kept) e in
          absurd (ground (arith, fact, first_uid sorted r e))
    ]
