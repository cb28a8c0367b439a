-- ===== src/Sample.antt =====
-- internal/sample/field.go: fields with one of four states, and snapshots of them. A `time.Time`
-- is the number of nanoseconds since Go's zero time, so that `IsZero` is a test for 0.
pub mod Encoding
pub mod State
pub mod Equal
pub mod Stored
pub mod Valid
pub mod Maps
use cluster_recorder.Prelude.{
  ℕ, ◌≡◌, String, Bool, true, false, not, ◌&&◌, ◌||◌, Option, none, some, [], ◌∷◌, str_eq, ◌==◌,
  if◌then◌else◌, length,
}
use cluster_recorder.Dict.{Dict, get}
use State.{FieldState, same_state}
use Encoding.{Value, marshal, same_bytes, is_nil}

abbrev pub Time : Type 0
Time = ℕ

pub record Field : Type 0 where
  pub state : FieldState
  pub value : Value
  pub reason : String

abbrev pub present : Value → Field
present v = record { state = FieldState.present; value = v; reason = "" }

abbrev pub absent : Field
absent = record { state = FieldState.absent; value = Value.null; reason = "" }

abbrev pub not_applicable : String → Field
not_applicable reason = record {
  state = FieldState.not_applicable;
  value = Value.null;
  reason = reason;
}

abbrev pub unknown : String → Field
unknown reason = record { state = FieldState.unknown; value = Value.null; reason = reason }

-- The errors of the two `Validate` methods, by their message.
pub data Invalid : Type 0 where
  present_without_value : Invalid
  carries_value : FieldState → Invalid
  invalid_state : String → Invalid
  no_node : Invalid
  bad_source : String → Invalid
  no_time : Invalid
  no_fields : Invalid
  field : String → Invalid → Invalid

validate_as : FieldState → Value → Option Invalid
unfolding is_nil
validate_as FieldState.present v = if is_nil v then some present_without_value else none
validate_as (FieldState.other s) v = some (invalid_state s)
validate_as s v = if not (is_nil v) then some (carries_value s) else none

-- Field.Validate; `none` is a nil error.
unfoldable pub validate : Field → Option Invalid
unfolding validate_as
validate f = validate_as f.state f.value

equal_at : FieldState → Value → Value → Bool
equal_at FieldState.present v w = same_bytes (marshal v) (marshal w)
equal_at _ v w = true

-- Field.Equal
unfoldable pub equal : Field → Field → Bool
unfolding same_state equal_at
equal f o = if not (same_state f.state o.state) then false else equal_at f.state f.value o.value

abbrev pub source_api : String
source_api = "api"

abbrev pub source_agent : String
source_agent = "agent"

pub record Snapshot : Type 0 where
  pub id : ℕ
  pub node : String
  pub source : String
  pub time : Time
  pub driver : String
  pub driver_confidence : ℕ
  pub driver_reason : String
  pub fields : Dict Field
  pub baseline : Bool

-- The loop over the fields: the first error that it meets.
unfoldable pub validate_fields : Dict Field → Option Invalid
validate_fields [] = none
validate_fields ((k, f) ∷ fs) =
    let rest = validate_fields fs in elim (validate f) [ none ↦ rest | some e ↦ some (field k e) ]

-- Snapshot.Validate
unfoldable pub validate_snapshot : Snapshot → Option Invalid
validate_snapshot s =
    if str_eq s.node ""
    then some no_node
    else if not (str_eq s.source source_api) && not (str_eq s.source source_agent)
    then some (bad_source s.source)
    else if s.time == 0
    then some no_time
    else if length s.fields == 0
    then some no_fields
    else validate_fields s.fields

-- The test of one entry: the other map has the key, with an equal field.
unfoldable pub equal_entry : Option Field → Field → Bool
equal_entry none f = false
equal_entry (some g) f = equal f g

unfoldable pub fields_equal_loop : Dict Field → Dict Field → Bool
fields_equal_loop [] b = true
fields_equal_loop ((k, av) ∷ a) b =
    let rest = fields_equal_loop a b in if equal_entry (get b k) av then rest else false

-- FieldsEqual
unfoldable pub fields_equal : Dict Field → Dict Field → Bool
fields_equal a b = if not (length a == length b) then false else fields_equal_loop a b
