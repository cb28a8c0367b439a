-- ===== src/Diff/Table.antt =====
-- The transition table of `Classify`, row by row.
use cluster_recorder.Prelude.{◌≡◌, ◌≢◌, ◌↔◌, some, arith}
use cluster_recorder.Sample.{Field}
use cluster_recorder.Sample.Equal.{SameReading, equal_iff}
use cluster_recorder.Sample.State.{FieldState}
use cluster_recorder.Diff.{classify, alert, info, recovery, degraded}

-- A read that says something: not `unknown` and not `not_applicable`.
abbrev pub IsRead : FieldState → Type 0
IsRead s = (s ≢ FieldState.unknown) × (s ≢ FieldState.not_applicable)

-- An alert is exactly a field that was present and is absent.
pub classify-alert_iff :
    (old new : Field)
    → (classify old new ≡ some alert)
      ↔ ((old.state ≡ FieldState.present) × (new.state ≡ FieldState.absent))
unfolding classify
classify-alert_iff old new = ground arith

-- A recovery is exactly a field that was absent and is present.
pub classify-recovery_iff :
    (old new : Field)
    → (classify old new ≡ some recovery)
      ↔ ((old.state ≡ FieldState.absent) × (new.state ≡ FieldState.present))
unfolding classify
classify-recovery_iff old new = ground arith

-- An info is exactly a field that is present in both with another value.
pub classify-info_iff :
    (old new : Field)
    → (classify old new ≡ some info) ↔ (
        (old.state ≡ FieldState.present) × (new.state ≡ FieldState.present) × ¬ SameReading old new)
unfolding classify
classify-info_iff old new = ground (arith, equal_iff old new)

-- A degradation is exactly a field that was read and now is unknown.
pub classify-degraded_iff :
    (old new : Field)
    → (classify old new ≡ some degraded) ↔ (IsRead old.state × (new.state ≡ FieldState.unknown))
unfolding classify
classify-degraded_iff old new = ground arith
