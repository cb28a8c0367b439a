-- ===== src/Sample/Equal.antt =====
-- `Field.Equal` is the equivalence "same state, and for present fields the same document".
use cluster_recorder.Prelude.{◌≡◌, ◌↔◌, true, arith}
use cluster_recorder.Sample.{Field, equal}
use cluster_recorder.Sample.State.{FieldState, same_state_iff}
use cluster_recorder.Sample.Encoding.{marshal, same_bytes_iff}

-- What a reader of two fields may conclude from `Equal`.
abbrev pub SameReading : Field → Field → Type 0
SameReading f g =
    (f.state ≡ g.state) × (f.state ≡ FieldState.present → marshal f.value ≡ marshal g.value)

-- Two fields are equal exactly if they have the same state and, where that is `present`, values
-- with the same JSON document; reasons are not compared.
pub equal_iff : (f g : Field) → (equal f g ≡ true) ↔ SameReading f g
unfolding equal
equal_iff f g =
    ground
      (arith, same_state_iff f.state g.state, same_bytes_iff (marshal f.value) (marshal g.value))
