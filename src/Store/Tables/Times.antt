-- ===== src/Store/Tables/Times.antt =====
-- Milliseconds and times.
use cluster_recorder.Prelude.{ℕ, ◌≤◌, ◌<◌, ◌+◌, ◌≡◌, arith}
use cluster_recorder.Sample.{Time}
use cluster_recorder.Store.Tables.{ms, from_ms}

-- A time that was read from a row goes back into the row as it was.
pub ms-from_ms : (v : ℕ) → ms (from_ms v) ≡ v
unfolding ms from_ms
ms-from_ms v = omega arith

-- Storing a time loses less than a millisecond, and never moves it on.
pub from_ms-ms_bounds : (t : Time) → (from_ms (ms t) ≤ t) × (t < from_ms (ms t) + 1_000_000)
unfolding ms from_ms
from_ms-ms_bounds t = omega arith

pub ms_mono : (s t : Time) → s ≤ t → ms s ≤ ms t
unfolding ms
ms_mono s t h = omega arith
