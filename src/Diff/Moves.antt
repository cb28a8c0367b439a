-- ===== src/Diff/Moves.antt =====
-- The change records of two snapshots, by the states that a key has in them.
use cluster_recorder.Prelude.{◌≡◌, ◌↔◌, refl, sym, ap, ◌∙◌, String, Option, none, some, arith}
use mathlib.Core.Path.{subst}
use cluster_recorder.Prelude.Order.{text_order}
use cluster_recorder.Prelude.Sorting.{find_by}
use cluster_recorder.Dict.{get}
use cluster_recorder.Sample.{Field, Snapshot, unknown}
use cluster_recorder.Sample.State.{FieldState}
use cluster_recorder.Sample.Maps.{SameEntry}
use cluster_recorder.Diff.{
  Change, Severity, alert, info, recovery, degraded, classify, sampled, change_of, change_at,
  snapshots,
}
use cluster_recorder.Diff.Records.{by_field, find_by-snapshots}
use cluster_recorder.Diff.Table.{
  classify-alert_iff, classify-recovery_iff, classify-info_iff, classify-degraded_iff,
}

-- The state of a key in a snapshot; a key that is missing counts as unknown.
abbrev pub Stands : FieldState → Option Field → Type 0
Stands s none = FieldState.unknown ≡ s
Stands s (some f) = f.state ≡ s

-- What each severity says of the two states of a key.
abbrev pub Moves : Severity → Option Field → Option Field → Type 0
Moves alert o n = Stands FieldState.present o × Stands FieldState.absent n
Moves recovery o n = Stands FieldState.absent o × Stands FieldState.present n
Moves info o n = Stands FieldState.present o × Stands FieldState.present n × ¬ SameEntry o n
Moves degraded o n =
    (¬ Stands FieldState.unknown o)
    × (¬ Stands FieldState.not_applicable o)
    × Stands FieldState.unknown n

-- A record's field is the snapshot's, or, where the key is missing, unknown.
abbrev pub Recorded : Field → Option Field → Type 0
Recorded f none = f.state ≡ FieldState.unknown
Recorded f (some g) = f ≡ g

sampled-Recorded : (o : Option Field) → Recorded (sampled o) o
unfolding sampled
sampled-Recorded none = refl
sampled-Recorded (some f) = refl

classify-Moves :
    (sev : Severity) (o n : Option Field)
    → (classify (sampled o) (sampled n) ≡ some sev) ↔ Moves sev o n
unfolding sampled
classify-Moves alert none none =
    ground (arith, classify-alert_iff (unknown "not sampled") (unknown "not sampled"))
classify-Moves alert none (some g) = ground (arith, classify-alert_iff (unknown "not sampled") g)
classify-Moves alert (some f) none = ground (arith, classify-alert_iff f (unknown "not sampled"))
classify-Moves alert (some f) (some g) = classify-alert_iff f g
classify-Moves recovery none none =
    ground (arith, classify-recovery_iff (unknown "not sampled") (unknown "not sampled"))
classify-Moves recovery none (some g) =
    ground (arith, classify-recovery_iff (unknown "not sampled") g)
classify-Moves recovery (some f) none =
    ground (arith, classify-recovery_iff f (unknown "not sampled"))
classify-Moves recovery (some f) (some g) = classify-recovery_iff f g
classify-Moves info none none =
    ground (arith, classify-info_iff (unknown "not sampled") (unknown "not sampled"))
classify-Moves info none (some g) = ground (arith, classify-info_iff (unknown "not sampled") g)
classify-Moves info (some f) none = ground (arith, classify-info_iff f (unknown "not sampled"))
classify-Moves info (some f) (some g) = classify-info_iff f g
classify-Moves degraded none none =
    ground (arith, classify-degraded_iff (unknown "not sampled") (unknown "not sampled"))
classify-Moves degraded none (some g) =
    ground (arith, classify-degraded_iff (unknown "not sampled") g)
classify-Moves degraded (some f) none =
    ground (arith, classify-degraded_iff f (unknown "not sampled"))
classify-Moves degraded (some f) (some g) = ground (arith, classify-degraded_iff f g)

change_of_lem :
    (cur : Snapshot) (k : String) (o n : Field) (sev : Option Severity) (c : Change)
    → change_of cur k o n sev ≡ some c
    → (sev ≡ some c.severity)
      × (c.field ≡ k)
      × (c.time ≡ cur.time)
      × (c.node ≡ cur.node)
      × (c.source ≡ cur.source)
      × (o ≡ c.old)
      × (n ≡ c.new)
unfolding change_of
change_of_lem cur k o n none c e = absurd (cc)
change_of_lem cur k o n (some sev) c e = (cc, cc, cc, cc, cc, cc, cc)

module _ (prev cur : Snapshot) (k : String) where
  abbrev old_field : Field
  old_field = sampled (get prev.fields k)

  abbrev new_field : Field
  new_field = sampled (get cur.fields k)

  -- What a change of the key says.
  abbrev pub IsAbout : Change → Type 0
  IsAbout c =
      (c.field ≡ k)
      × (c.time ≡ cur.time)
      × (c.node ≡ cur.node)
      × (c.source ≡ cur.source)
      × Recorded c.old (get prev.fields k)
      × Recorded c.new (get cur.fields k)

  change_at_lem :
      (c : Change)
      → change_at prev cur k ≡ some c
      → (classify old_field new_field ≡ some c.severity) × IsAbout c
  unfolding change_at
  change_at_lem c e =
      let (sev, field, time, node, source, o, n) =
        change_of_lem cur k old_field new_field (classify old_field new_field) c e in
      (
        sev,
        (
          field,
          time,
          node,
          source,
          subst (λ f. Recorded f (get prev.fields k)) o (sampled-Recorded (get prev.fields k)),
          subst (λ f. Recorded f (get cur.fields k)) n (sampled-Recorded (get cur.fields k)),
        ),
      )

  changed :
      (sev : Severity)
      → classify old_field new_field ≡ some sev
      → (c : Change) × (change_at prev cur k ≡ some c) × (c.severity ≡ sev)
  unfolding change_at change_of
  changed sev e = (
    record {
      id = 0;
      time = cur.time;
      node = cur.node;
      source = cur.source;
      field = k;
      old = old_field;
      new = new_field;
      severity = sev;
    },
    rw e refl,
    refl,
  )

  -- The diff of two snapshots has a record of a severity under a key exactly if the states of the key in
  -- the two ask for it: an alert if it was present and is absent, a recovery if it was absent and is
  -- present, an info if it is present in both with another value, a degradation if it was read and is
  -- unknown now; a key that is missing counts as unknown. The record is about that key, with the time,
  -- node and source of the later snapshot and the fields of both.
  pub snapshots_iff :
      (sev : Severity)
      → ((c : Change) × (find_by by_field k (snapshots (some prev) (some cur)) ≡ some c)
          × (c.severity ≡ sev)
          × IsAbout c)
        ↔ Moves sev (get prev.fields k) (get cur.fields k)
  snapshots_iff sev =
      let found = find_by-snapshots prev cur k in
      let moves = classify-Moves sev (get prev.fields k) (get cur.fields k) in
      (
        λ h.
            let (c, e, same, about) = h in
            moves.0 ((change_at_lem c (sym found ∙ e)).0 ∙ ap (λ s. some s) same),
        λ m.
            let (c, e, same) = changed sev (moves.1 m) in
            (c, found ∙ e, same, (change_at_lem c e).1),
      )
