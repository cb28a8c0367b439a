-- ===== src/Diff.antt =====
-- internal/diff/diff.go: change records from two snapshots of one node.
pub mod Table
pub mod Records
pub mod Quiet
pub mod Moves
use cluster_recorder.Prelude.{
  ℕ, String, Option, none, some, List, [], ◌∷◌, Bool, true, false, ◌&&◌, ◌||◌, not, if◌then◌else◌,
}
use cluster_recorder.Prelude.Order.{text_order}
use cluster_recorder.Prelude.Sorting.{sort_by}
use cluster_recorder.Dict.{Dict, get, put}
use cluster_recorder.Sample.{Time, Field, unknown, equal, Snapshot}
use cluster_recorder.Sample.State.{FieldState, same_state}

pub data Severity : Type 0 where
  alert info recovery degraded : Severity

pub record Change : Type 0 where
  pub id : ℕ
  pub time : Time
  pub node : String
  pub source : String
  pub field : String
  pub old : Field
  pub new : Field
  pub severity : Severity

-- Classify; `none` is `ok=false`.
unfoldable pub classify : Field → Field → Option Severity
unfolding same_state
classify old new =
    if is old FieldState.not_applicable || is new FieldState.not_applicable
    then none
    else if is old FieldState.unknown
    then none
    else if is new FieldState.unknown
    then some degraded
    else if is old FieldState.present && is new FieldState.absent
    then some alert
    else if is old FieldState.absent && is new FieldState.present
    then some recovery
    else if is old FieldState.present && is new FieldState.present && not (equal old new)
    then some info
    else none
  where
    is : Field → FieldState → Bool
    is f s = same_state f.state s

-- A key that is missing on one side counts as unknown there.
sampled : Option Field → Field
sampled none = unknown "not sampled"
sampled (some f) = f

change_of : Snapshot → String → Field → Field → Option Severity → Option Change
change_of cur k o n none = none
change_of cur k o n (some sev) = some (record {
  id = 0;
  time = cur.time;
  node = cur.node;
  source = cur.source;
  field = k;
  old = o;
  new = n;
  severity = sev;
})

-- The body of the loop over the keys.
unfoldable pub change_at : Snapshot → Snapshot → String → Option Change
unfolding sampled change_of
change_at prev cur k =
    let o = sampled (get prev.fields k) in
    let n = sampled (get cur.fields k) in change_of cur k o n (classify o n)

-- `for k := range m { keys[k] = struct{}{} }`
unfoldable pub add_keys : Dict Field → Dict (Unit {0}) → Dict (Unit {0})
add_keys [] keys = keys
add_keys ((k, f) ∷ m) keys = add_keys m (put keys k tt)

-- The loop that appends a change for each key that has one.
unfoldable pub collect : (String → Option Change) → Dict (Unit {0}) → List Change
collect f [] = []
collect f ((k, u) ∷ keys) =
    let rest = collect f keys in elim (f k) [ none ↦ rest | some c ↦ c ∷ rest ]

-- Snapshots; `none` is a nil pointer, and `[]` a nil slice.
unfoldable pub snapshots : Option Snapshot → Option Snapshot → List Change
unfolding collect change_at add_keys
snapshots (some prev) (some cur) =
    sort_by (λ (c : Change). c.field)
      (collect (change_at prev cur) (add_keys cur.fields (add_keys prev.fields [])))
snapshots prev cur = []
