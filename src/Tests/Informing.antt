-- ===== src/Tests/Informing.antt =====
-- The theorems on the informers' handlers, applied.
use mathlib.Core.List.Permᴰ.{swap}
use cluster_recorder.Prelude.{
  ◌+◌, ◌++◌, ◌≡◌, ◌≢◌, refl, String, false, [], ◌∷◌, none, some, any, str_eq, arith,
}
use cluster_recorder.Config.{hour}
use cluster_recorder.Store.Db.{ok, healthy}
use cluster_recorder.Store.Snapshots.Latest.{IsNumbered, IsNext}
use cluster_recorder.Dict.{Dict, put}
use cluster_recorder.Informers.{ApiEvent, Pod, Node, ContainerStatus}
use cluster_recorder.Informers.Events.{event_record, event_record_dated}
use cluster_recorder.Informers.Pods.{container_statuses, pod_state_in}
use cluster_recorder.Informers.Pods.Changes.{named, is_crashing, total_restarts, pod_state_of_lem}
use cluster_recorder.Informers.Nodes.{node_snapshot}
use cluster_recorder.Informers.Collector.{record_node}
use cluster_recorder.Informers.Collector.Resync.{record_node_resync}
use cluster_recorder.Tests.{sampled, now}

abbrev node_a : Node
node_a = record {
  name = "node-a";
  conditions = ("Ready", "True") ∷ [];
  unschedulable = false;
  boot_id = "b1";
  kernel_version = "6.1";
  os_image = "Debian";
  container_runtime_version = "containerd://1.7";
  kubelet_version = "v1.30";
  pod_cidrs = "10.244.1.0/24" ∷ [];
  pod_cidr = "";
  addresses = ("InternalIP", "10.0.0.5") ∷ [];
  taints = [];
}

numbered : IsNumbered sampled
numbered = record {
  below = (omega arith, (omega arith, (omega arith, tt)));
  distinct = ((refl, (refl, tt)), ((refl, tt), (tt, tt)));
}

-- The rows are of the agent.
api-IsNext : IsNext (node_snapshot node_a now) sampled
unfolding node_snapshot
api-IsNext = (λ e. absurd (cc e), (λ e. absurd (cc e), (λ e. absurd (cc e), tt)))

record_node_resync_example :
    let (r, db) = record_node node_a now (healthy sampled) in
    (r ≡ ok tt) × (record_node node_a (now + hour) db ≡ (ok tt, db))
record_node_resync_example = record_node_resync node_a now (now + hour) sampled numbered api-IsNext

abbrev proxy : ContainerStatus
proxy = record {
  name = "proxy";
  restart_count = 1;
  waiting = some (record { reason = "ContainerCreating"; message = "" });
  last_terminated = none;
}

abbrev app : ContainerStatus
app = record {
  name = "app";
  restart_count = 4;
  waiting = some (record { reason = "CrashLoopBackOff"; message = "" });
  last_terminated = none;
}

abbrev pub web : Pod
web = record {
  namespace = "shop";
  name = "web";
  node_name = "node-a";
  phase = "Running";
  reason = "";
  init_container_statuses = [];
  container_statuses = proxy ∷ app ∷ [];
}

-- The map of the statuses visited from its end.
abbrev backwards : Dict ContainerStatus
backwards = ("app", app) ∷ ("proxy", proxy) ∷ []

pod_state_of_lem_example :
    (str_eq (pod_state_in backwards web).waiting_reason "CrashLoopBackOff"
      ≡ any
          (λ (e : String × ContainerStatus). is_crashing e.1)
          (named web.init_container_statuses ++ named web.container_statuses))
    × ((pod_state_in backwards web).restarts
        ≡ total_restarts (named web.init_container_statuses ++ named web.container_statuses))
unfolding container_statuses put
pod_state_of_lem_example = pod_state_of_lem web backwards ((refl, tt), (tt, tt)) (swap refl refl)

-- An event of a newer reporter, with neither of the old time stamps.
abbrev back_off : ApiEvent
back_off = record {
  uid = "e1";
  namespace = "shop";
  name = "web.1";
  type = "Warning";
  reason = "BackOff";
  message = "restarting";
  source_host = "";
  involved_object = record { kind = "Pod"; namespace = "shop"; name = "web" };
  count = 0;
  first_timestamp = 0;
  last_timestamp = 0;
  event_time = 0;
  creation_timestamp = 172_000;
  series = none;
}

abbrev on_node_a : String → String → String
on_node_a ns name = "node-a"

event_record_dated_example :
    let e = event_record back_off on_node_a in (e.first ≢ 0) × (e.last ≢ 0) × (e.count ≢ 0)
event_record_dated_example = event_record_dated back_off on_node_a (λ e. absurd (omega (arith, e)))
