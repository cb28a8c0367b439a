-- ===== src/Host.antt =====
-- internal/host/facts.go: `Fields`, over what the reads of /proc and statfs gave.
pub mod Proc
use cluster_recorder.Prelude.{ℕ, String, true, false, Option, none, some, [], ltb}
use cluster_recorder.Dict.{Dict, put}
use cluster_recorder.Sample.{Field, present, absent, unknown}
use cluster_recorder.Sample.Encoding.{Value}

pub data Read (A : Type 0) : Type 0 where
  got : A → Read A
  failed : String → Read A

-- bootTime, processStart of the two processes, memAvailablePct and diskUsage. A process that is not
-- found has no start time.
pub record Reads : Type 0 where
  pub boot_time : Read ℕ
  pub kubelet : Read (Option ℕ)
  pub containerd : Read (Option ℕ)
  pub mem_available_pct : Read ℕ
  pub disk_used : Read ℕ
  pub inodes_used : ℕ

unfoldable pub boot_field : Read ℕ → Field
boot_field (got t) = present (Value.int t)
boot_field (failed e) = unknown e

unfoldable pub process_fields : String → String → Read (Option ℕ) → Dict Field → Dict Field
process_fields active started (failed e) f = put (put f active (unknown e)) started (unknown e)
process_fields active started (got none) f =
    put (put f active (present (Value.boolean false))) started absent
process_fields active started (got (some t)) f =
    put (put f active (present (Value.boolean true))) started (present (Value.int t))

unfoldable pub memory_field : Read ℕ → Field
memory_field (got pct) = present (Value.boolean (ltb pct 10))
memory_field (failed e) = unknown e

unfoldable pub disk_fields : Read ℕ → ℕ → Dict Field → Dict Field
disk_fields (got used) inodes f =
    put (put f "disk_pressure" (present (Value.boolean (ltb 90 used)))) "inode_usage"
      (present (Value.int inodes))
disk_fields (failed e) inodes f = put (put f "disk_pressure" (unknown e)) "inode_usage" (unknown e)

-- Fields
unfoldable pub fields : Reads → Dict Field
unfolding boot_field process_fields memory_field disk_fields
fields r =
    let f0 = put [] "boot_time" (boot_field r.boot_time) in
    let f1 = process_fields "kubelet.active" "kubelet.started_at" r.kubelet f0 in
    let f2 =
      process_fields "container_runtime.active" "container_runtime.started_at" r.containerd f1 in
    let f3 = put f2 "memory_pressure" (memory_field r.mem_available_pct) in
    disk_fields r.disk_used r.inodes_used f3
