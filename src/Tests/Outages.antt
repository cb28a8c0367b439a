-- ===== src/Tests/Outages.antt =====
-- The theorems on a running agent and on the timeline, applied.
use cluster_recorder.Prelude.{◌*◌, String, Bool, false, [], none, some}
use cluster_recorder.Prelude.Order.{nat_order, text_order}
use cluster_recorder.Config.{minute}
use cluster_recorder.Netlink.{View}
use cluster_recorder.Cni.Drivers.{flannel}
use cluster_recorder.Cni.Report.{view}
use cluster_recorder.Cni.Detect.{Choice}
use cluster_recorder.Agent.Sampler.{Hints, Settings, Sampler, Reading}
use cluster_recorder.Host as Host

abbrev no_links : View
no_links = record { links = []; addrs = []; routes = []; neighs = [] }

abbrev nowhere : String → String → Bool
nowhere dst cidr = false

abbrev settings : Settings
settings = record {
  node = "node-a";
  driver = "flannel";
  pod_cidr = "";
  redetect_every = 10 * minute;
}

abbrev vxlan_choice : Choice
vxlan_choice = record {
  driver = flannel "vxlan";
  confidence = 100;
  reason = "forced by CNI_DRIVER=flannel";
}

abbrev no_hints : Hints
no_hints = record { daemon_sets = []; pod_cidrs = [] }

abbrev running : Sampler
running = record { choice = some vxlan_choice; detected_at = 0; hints = no_hints }

abbrev blank : Reading
blank = record {
  hints = none;
  view = view no_links;
  cni_configs = [];
  host = record {
    boot_time = Host.got 1_700_000_000;
    kubelet = Host.got (some 1_700_000_010);
    containerd = Host.got none;
    mem_available_pct = Host.got 40;
    disk_used = Host.failed "statfs: permission denied";
    inodes_used = 0;
  };
}
