-- ===== src/Informers.antt =====
-- internal/informers: from the objects of the Kubernetes API to the records of the store. The
-- records below are the parts of `corev1` that the code reads. What `range` visits in a Go map is in
-- the map's order, which is open.
pub mod Events
pub mod Pods
pub mod Nodes
pub mod Collector
pub mod Hints
use cluster_recorder.Prelude.{ℕ, String, Bool, Option, List}
use cluster_recorder.Sample.{Time}

pub record ObjectReference : Type 0 where
  pub kind : String
  pub namespace : String
  pub name : String

pub record EventSeries : Type 0 where
  pub count : ℕ
  pub last_observed_time : Time

-- corev1.Event
pub record ApiEvent : Type 0 where
  pub uid : String
  pub namespace : String
  pub name : String
  pub type : String
  pub reason : String
  pub message : String
  pub source_host : String
  pub involved_object : ObjectReference
  pub count : ℕ
  pub first_timestamp : Time
  pub last_timestamp : Time
  pub event_time : Time
  pub creation_timestamp : Time
  pub series : Option EventSeries

pub record Waiting : Type 0 where
  pub reason : String
  pub message : String

pub record Terminated : Type 0 where
  pub reason : String
  pub exit_code : ℕ
  pub finished_at : Time

pub record ContainerStatus : Type 0 where
  pub name : String
  pub restart_count : ℕ
  pub waiting : Option Waiting
  pub last_terminated : Option Terminated

-- corev1.Pod
pub record Pod : Type 0 where
  pub namespace : String
  pub name : String
  pub node_name : String
  pub phase : String
  pub reason : String
  pub init_container_statuses : List ContainerStatus
  pub container_statuses : List ContainerStatus

-- A condition, an address or a label: a type with its value.
abbrev pub Pairs : Type 0
Pairs = List (String × String)

pub record Taint : Type 0 where
  pub key : String
  pub value : String
  pub effect : String

-- corev1.Node
pub record Node : Type 0 where
  pub name : String
  pub conditions : Pairs
  pub unschedulable : Bool
  pub boot_id : String
  pub kernel_version : String
  pub os_image : String
  pub container_runtime_version : String
  pub kubelet_version : String
  pub pod_cidrs : List String
  pub pod_cidr : String
  pub addresses : Pairs
  pub taints : List Taint
