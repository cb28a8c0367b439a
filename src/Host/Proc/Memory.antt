-- ===== src/Host/Proc/Memory.antt =====
-- The memory that is available.
use cluster_recorder.Prelude.{ℕ, ◌*◌, ◌/◌, ◌<◌, ◌≡◌, ◌↔◌, String, true, arith, ltb}
use native.Mathlib.Nat.{div-lt_iff_lt-mul}
use cluster_recorder.Sample.{present}
use cluster_recorder.Sample.Encoding.{Value}
use cluster_recorder.Host.{memory_field}
use cluster_recorder.Host.Proc.{mem_pct}

pct_lt :
    (total avail : ℕ) → 0 < total → (ltb (avail * 100 / total) 10 ≡ true) ↔ (avail * 10 < total)
pct_lt total avail h = ground (arith, div-lt_iff_lt-mul {k = total} {x = avail * 100} {y = 10} h)

-- Memory is under pressure exactly if less than a tenth of it is available: rounding the percentage
-- down loses nothing.
pub memory_pressure_iff :
    (path : String) (total avail : ℕ)
    → 0 < total
    → (memory_field (mem_pct path (total, avail)) ≡ present (Value.boolean true))
      ↔ (avail * 10 < total)
unfolding memory_field mem_pct
memory_pressure_iff path total avail h =
    (λ e. ground (arith, pct_lt total avail h), λ lt. ground (arith, pct_lt total avail h))
