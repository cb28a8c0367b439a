-- ===== src/Store/Snapshots/Stepping.antt =====
-- Changes of the flags commute with the search for the latest row.
use cluster_recorder.Prelude.{
  ℕ, suc, ◌≡◌, refl, ap, sym, ◌∙◌, String, Bool, true, false, ◌&&◌, List, [], ◌∷◌, Option, none,
  some, arith, map, select, head?, map_option, All-imp, str_eq, eq_iff, Option-cases, inl, inr,
  Bool-cases,
}
use mathlib.Core.Path.{subst}
use cluster_recorder.Prelude.Order.{Order, nat_order, pair_order, descending}
use cluster_recorder.Prelude.Sorting.{insert_by, sort_by}
use cluster_recorder.Store.Tables.{SnapshotRow, Tables}
use cluster_recorder.Store.Snapshots.{
  stamp, newest_first, is_of, latest_row, mark_row, mark_latest, kept, unmark_row, trim_baselines,
}
use cluster_recorder.Store.Snapshots.Latest.{latest_row-All, latest_row_newest}
use cluster_recorder.Store.Snapshots.Marked.{marked, marked_latest, stamp-mark_row, is_of-mark_row}

module _ {A : Type 0} {K : Type 0} ⦃o : Order K⦄ (key : A → K) (f : A → A)
    (same : (x : A) → key (f x) ≡ key x) where
  insert_by-map :
      (x : A) (xs : List A) → insert_by key (f x) (map f xs) ≡ map f (insert_by key x xs)
  unfolding insert_by
  insert_by-map x [] = refl
  insert_by-map x (y ∷ ys) = ground (arith, insert_by-map x ys, same x, same y)

  sort_by-map : (xs : List A) → sort_by key (map f xs) ≡ map f (sort_by key xs)
  unfolding sort_by
  sort_by-map [] = refl
  sort_by-map (x ∷ xs) =
      ap (insert_by key (f x)) (sort_by-map xs) ∙ insert_by-map x (sort_by key xs)

module _ {A : Type 0} (f : A → A) where
  select-map :
      (p : A → Bool) (xs : List A)
      → ((x : A) → p (f x) ≡ p x)
      → select p (map f xs) ≡ map f (select p xs)
  select-map p [] h = refl
  select-map p (x ∷ xs) h = ground (arith, select-map p xs h, h x)

  head?-map : (xs : List A) → head? (map f xs) ≡ map_option f (head? xs)
  head?-map [] = refl
  head?-map (x ∷ xs) = refl

stamp-unmark_row :
    (node source : String) (ids : List ℕ) (r : SnapshotRow)
    → stamp (unmark_row node source ids r) ≡ stamp r
unfolding unmark_row
stamp-unmark_row node source ids r = ground arith

is_of-unmark_row :
    (n s node source : String) (ids : List ℕ) (r : SnapshotRow)
    → is_of n s (unmark_row node source ids r) ≡ is_of n s r
unfolding unmark_row
is_of-unmark_row n s node source ids r = ground arith

latest_row-map :
    (f : SnapshotRow → SnapshotRow) (p : SnapshotRow → Bool) (t : Tables)
    → ((r : SnapshotRow) → stamp (f r) ≡ stamp r)
    → ((r : SnapshotRow) → p (f r) ≡ p r)
    → latest_row p (record t { snapshots = map f t.snapshots }) ≡ map_option f (latest_row p t)
unfolding latest_row newest_first
latest_row-map f p t hs hp =
    ap (λ rs. head? (sort_by ⦃o = descending pair_order⦄ stamp rs)) (select-map f p t.snapshots hp)
    ∙ ap head? (sort_by-map ⦃o = descending pair_order⦄ stamp f hs (select p t.snapshots))
    ∙ head?-map f (sort_by ⦃o = descending pair_order⦄ stamp (select p t.snapshots))

-- The latest snapshot of a node and source is a baseline, if there is one.
abbrev pub Flagged : String → String → Tables → Type 0
Flagged n s t = (r : SnapshotRow) → latest_row (is_of n s) t ≡ some r → r.baseline ≡ true

baseline-mark_row :
    (l : Option SnapshotRow) (r : SnapshotRow) → r.baseline ≡ true → (mark_row l r).baseline ≡ true
unfolding mark_row
baseline-mark_row none r h = h
baseline-mark_row (some l) r h = ground arith

module _ (node source : String) (keep : ℕ) (t : Tables) where
  -- What `MarkBaseline` does to a row.
  abbrev flags : SnapshotRow → SnapshotRow
  flags r =
      unmark_row node source (kept node source (suc keep) (mark_latest node source t).snapshots)
        (mark_row (latest_row (is_of node source) t) r)

  stamp-flags : (r : SnapshotRow) → stamp (flags r) ≡ stamp r
  stamp-flags r =
      stamp-unmark_row node source
        (kept node source (suc keep) (mark_latest node source t).snapshots)
        (mark_row (latest_row (is_of node source) t) r)
      ∙ stamp-mark_row (latest_row (is_of node source) t) r

  latest_row-marked :
      (n s : String)
      → latest_row (is_of n s) (marked node source (suc keep) t)
        ≡ map_option flags (latest_row (is_of n s) t)
  unfolding marked trim_baselines mark_latest
  latest_row-marked n s =
      let t1 = mark_latest node source t in
      let l = latest_row (is_of node source) t in
      let ids = kept node source (suc keep) t1.snapshots in
      latest_row-map (unmark_row node source ids) (is_of n s) t1 (stamp-unmark_row node source ids)
        (is_of-unmark_row n s node source ids)
      ∙ ap (map_option (unmark_row node source ids))
          (latest_row-map (mark_row l) (is_of n s) t (stamp-mark_row l) (is_of-mark_row n s l))
      ∙ both (unmark_row node source ids) (mark_row l) (latest_row (is_of n s) t)
    where
      both :
          (g f : SnapshotRow → SnapshotRow) (o : Option SnapshotRow)
          → map_option g (map_option f o) ≡ map_option (λ r. g (f r)) o
      both g f none = refl
      both g f (some r) = refl

  -- A row of another node or source keeps its flag.
  flags_other :
      (n s : String) (r : SnapshotRow)
      → is_of n s r ≡ true
      → (str_eq n node && str_eq s source) ≡ false
      → r.baseline ≡ true
      → (flags r).baseline ≡ true
  unfolding unmark_row
  flags_other n s r mine other flag = ground (
    arith,
    baseline-mark_row (latest_row (is_of node source) t) r flag,
    is_of-mark_row node source (latest_row (is_of node source) t) r,
    eq_iff r.node n,
    eq_iff r.source s,
    eq_iff n node,
    eq_iff s source,
    eq_iff r.node node,
    eq_iff r.source source,
  )

  -- The row that was the latest before is the latest afterwards, and a baseline.
  flags_latest :
      (l : SnapshotRow) → latest_row (is_of node source) t ≡ some l → (flags l).baseline ≡ true
  flags_latest l e =
      latest_row-All (λ (r : SnapshotRow). r.id ≡ l.id → r.baseline ≡ true) (is_of node source)
        (marked node source (suc keep) t) (flags l)
        (All-imp (λ (r : SnapshotRow). r.id ≡ l.id → r.baseline ≡ true)
          (λ (r : SnapshotRow). is_of node source r ≡ true → r.id ≡ l.id → r.baseline ≡ true)
          (marked node source (suc keep) t).snapshots (λ r h _. h)
          (marked_latest node source t l e keep))
        (latest_row-marked node source ∙ ap (map_option flags) e)
        (ap (λ (k : ℕ × ℕ). k.1) (stamp-flags l))

  -- `MarkBaseline` makes the latest snapshot of its node and source a baseline.
  pub Flagged-marked : Flagged node source (marked node source (suc keep) t)
  Flagged-marked r e = elim (Option-cases (latest_row (is_of node source) t)) [
    | inl h ↦
        let c : none ≡ some r = sym (latest_row-marked node source ∙ ap (map_option flags) h) ∙ e in
        absurd (cc)
    | inr (l, h) ↦
        let c : some (flags l) ≡ some r =
          sym (latest_row-marked node source ∙ ap (map_option flags) h) ∙ e in
        let q : flags l ≡ r = cc in
        subst (λ (x : SnapshotRow). x.baseline ≡ true) q (flags_latest l h)
  ]

  -- And it takes that from no other.
  pub Flagged-marked_other :
      (n s : String) → Flagged n s t → Flagged n s (marked node source (suc keep) t)
  Flagged-marked_other n s before r e = elim (Bool-cases (str_eq n node && str_eq s source)) [
    | inl here ↦
        let same_node : n ≡ node = (eq_iff n node).0 (ground (arith, here)) in
        let same_source : s ≡ source = (eq_iff s source).0 (ground (arith, here)) in
        Flagged-marked r (
          subst (λ m. latest_row (is_of m source) (marked node source (suc keep) t) ≡ some r)
            same_node
            (subst (λ m. latest_row (is_of n m) (marked node source (suc keep) t) ≡ some r)
              same_source e))
    | inr other ↦ elim (Option-cases (latest_row (is_of n s) t)) [
      | inl h ↦
          let c : none ≡ some r = sym (latest_row-marked n s ∙ ap (map_option flags) h) ∙ e in
          absurd (cc)
      | inr (l, h) ↦
          let c : some (flags l) ≡ some r =
            sym (latest_row-marked n s ∙ ap (map_option flags) h) ∙ e in
          let q : flags l ≡ r = cc in
          subst (λ (x : SnapshotRow). x.baseline ≡ true) q
            (flags_other n s l (latest_row_newest (is_of n s) t l h).0 other (before l h))
    ]
  ]
