-- ===== src/Sample/Valid.antt =====
-- The two `Validate` methods accept exactly the well-formed fields and snapshots.
use cluster_recorder.Prelude.{
  ◌≡◌, ◌↔◌, ◌⊎◌, ◌≢◌, true, false, String, arith, eq_iff, none, [], ◌∷◌, All,
}
use cluster_recorder.Dict.{Dict}
use cluster_recorder.Sample.{
  Field, validate, present, absent, not_applicable, unknown, Snapshot, validate_fields,
  validate_snapshot, source_api, source_agent,
}
use cluster_recorder.Sample.State.{FieldState}
use cluster_recorder.Sample.Encoding.{Value, is_nil}

-- A present field has a value, and a field in one of the three other states has none.
abbrev pub IsWellFormed : Field → Type 0
IsWellFormed f =
    ((f.state ≡ FieldState.present) × (is_nil f.value ≡ false))
    ⊎ (((f.state ≡ FieldState.absent)
          ⊎ (f.state ≡ FieldState.not_applicable)
          ⊎ (f.state ≡ FieldState.unknown))
        × (is_nil f.value ≡ true))

-- Field.Validate accepts exactly the present fields with a value and the absent, not applicable
-- and unknown fields without one.
pub validate_iff : (f : Field) → (validate f ≡ none) ↔ IsWellFormed f
unfolding validate
validate_iff f = ground arith

-- The constructors of the package build well-formed fields, `Present` if it is given a value.
pub constructors-IsWellFormed :
    (v : Value) (reason : String)
    → is_nil v ≡ false
    → IsWellFormed (present v)
      × IsWellFormed absent
      × IsWellFormed (not_applicable reason)
      × IsWellFormed (unknown reason)
unfolding is_nil
constructors-IsWellFormed v reason h = ground arith

validate_fields_iff :
    (m : Dict Field) → (validate_fields m ≡ none) ↔ All (λ (e : String × Field). IsWellFormed e.1) m
unfolding validate_fields
validate_fields_iff [] = ground arith
validate_fields_iff ((k, f) ∷ m) = ground (arith, validate_iff f, validate_fields_iff m)

pub record IsWellFormedSnapshot (s : Snapshot) : Type 0 where
  pub named : s.node ≢ ""
  pub sourced : (s.source ≡ source_api) ⊎ (s.source ≡ source_agent)
  pub timed : s.time ≢ 0
  pub sampled : s.fields ≢ []
  pub fields : All (λ (e : String × Field). IsWellFormed e.1) s.fields

-- Snapshot.Validate accepts exactly the snapshots with a node, one of the two sources, a time, and
-- at least one field, all of whose fields are well formed.
pub validate_snapshot_iff : (s : Snapshot) → (validate_snapshot s ≡ none) ↔ IsWellFormedSnapshot s
unfolding validate_snapshot
validate_snapshot_iff s = ground (
  arith,
  eq_iff s.node "",
  eq_iff s.source source_api,
  eq_iff s.source source_agent,
  validate_fields_iff s.fields,
)
