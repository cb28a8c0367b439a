-- ===== src/Sample/State.antt =====
-- internal/sample/field.go: the states of a field.
use cluster_recorder.Prelude.{Bool, true, false, String, str_eq, ◌≡◌, ◌↔◌, arith, eq_iff}

-- A state is a string in Go; `other` is any string but the four.
pub data FieldState : Type 0 where
  present absent not_applicable unknown : FieldState
  other : String → FieldState

unfoldable pub same_state : FieldState → FieldState → Bool
same_state FieldState.present FieldState.present = true
same_state FieldState.absent FieldState.absent = true
same_state FieldState.not_applicable FieldState.not_applicable = true
same_state FieldState.unknown FieldState.unknown = true
same_state (FieldState.other s) (FieldState.other t) = str_eq s t
same_state _ _ = false

pub same_state_iff : (s t : FieldState) → (same_state s t ≡ true) ↔ (s ≡ t)
unfolding same_state
same_state_iff (FieldState.other s) (FieldState.other t) = ground (arith, eq_iff s t)
same_state_iff FieldState.present t = ground arith
same_state_iff FieldState.absent t = ground arith
same_state_iff FieldState.not_applicable t = ground arith
same_state_iff FieldState.unknown t = ground arith
same_state_iff (FieldState.other s) t = ground arith
