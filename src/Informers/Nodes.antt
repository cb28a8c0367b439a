-- ===== src/Informers/Nodes.antt =====
-- internal/informers/convert.go: the snapshot of a node's API object.
use Prim.Native.String.{◌++◌ as ◌<>◌}
use cluster_recorder.Prelude.{
  String, false, not, ◌&&◌, Option, none, some, List, [], ◌∷◌, map, str_eq, join, length, ◌==◌,
  if◌then◌else◌,
}
use cluster_recorder.Prelude.Order.{text_order}
use cluster_recorder.Prelude.Sorting.{sort_by}
use cluster_recorder.Dict.{Dict, get, put}
use cluster_recorder.Sample.{Time, Field, Snapshot, present, absent, source_api}
use cluster_recorder.Sample.Encoding.{Value}
use cluster_recorder.Informers.{Node, Pairs, Taint}

unfoldable pub conditions_of : Dict String → Pairs → Dict String
conditions_of conds [] = conds
conditions_of conds ((type, status) ∷ cs) = conditions_of (put conds type status) cs

unfoldable pub condition_field : Option String → Field
condition_field none = absent
condition_field (some v) = present (Value.text v)

-- The keys of the conditions, with their types.
abbrev pub condition_keys : Pairs
condition_keys =
    ("node.ready", "Ready")
    ∷ ("node.memory_pressure", "MemoryPressure")
    ∷ ("node.disk_pressure", "DiskPressure")
    ∷ ("node.pid_pressure", "PIDPressure")
    ∷ ("node.network_unavailable", "NetworkUnavailable")
    ∷ []

unfoldable pub put_conditions : Dict String → Pairs → Dict Field → Dict Field
unfolding condition_field
put_conditions conds [] f = f
put_conditions conds ((key, type) ∷ keys) f =
    put_conditions conds keys (put f key (condition_field (get conds type)))

-- `str`
unfoldable pub put_text : Dict Field → String → String → Dict Field
put_text f key v = put f key (if str_eq v "" then absent else present (Value.text v))

unfoldable pub cidrs_of : Node → List String
cidrs_of n =
    if length n.pod_cidrs == 0 && not (str_eq n.pod_cidr "") then n.pod_cidr ∷ [] else n.pod_cidrs

-- The first internal address.
unfoldable pub internal_ip : Pairs → String
internal_ip [] = ""
internal_ip ((type, address) ∷ rest) =
    let next = internal_ip rest in if str_eq type "InternalIP" then address else next

unfoldable pub taint_text : Taint → String
taint_text t = t.key <> ("=" <> (t.value <> (":" <> t.effect)))

unfoldable pub node_fields : Node → Dict Field
unfolding conditions_of put_conditions put_text cidrs_of internal_ip taint_text
node_fields n =
    let f0 = put_conditions (conditions_of [] n.conditions) condition_keys [] in
    let f1 = put f0 "node.unschedulable" (present (Value.boolean n.unschedulable)) in
    let f2 = put_text f1 "node.boot_id" n.boot_id in
    let f3 = put_text f2 "node.kernel_version" n.kernel_version in
    let f4 = put_text f3 "node.os_image" n.os_image in
    let f5 = put_text f4 "node.container_runtime" n.container_runtime_version in
    let f6 = put_text f5 "node.kubelet_version" n.kubelet_version in
    let f7 = put_text f6 "node.pod_cidrs" (join "," (cidrs_of n)) in
    let f8 = put_text f7 "node.internal_ip" (internal_ip n.addresses) in
    put f8 "node.taints"
      (present (Value.texts (sort_by (λ (s : String). s) (map taint_text n.taints))))

-- NodeSnapshot
unfoldable pub node_snapshot : Node → Time → Snapshot
unfolding node_fields
node_snapshot n now = record {
  id = 0;
  node = n.name;
  source = source_api;
  time = now;
  driver = "";
  driver_confidence = 0;
  driver_reason = "";
  fields = node_fields n;
  baseline = false;
}
