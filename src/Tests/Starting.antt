-- ===== src/Tests/Starting.antt =====
-- The theorems on the agent's settings and on the host's network, applied.
use cluster_recorder.Prelude.{
  ◌*◌, ◌-◌, ◌≡◌, refl, String, Bool, not, none, some, str_eq, if◌then◌else◌,
}
use cluster_recorder.Prelude.Numerals.{pos, negsuc}
use cluster_recorder.Config.{second}
use cluster_recorder.Config.Parse.{Env}
use cluster_recorder.Agent.Environment.{AgentConfig, times_second}
use cluster_recorder.Netlink.OnHost.{LinkAttrs, AddrAttrs, RouteAttrs, up}

abbrev env : Env
env k = if str_eq k "NODE_NAME" then "node-a" else if str_eq k "SAMPLE_INTERVAL" then "60" else ""

abbrev not_empty : String → Bool
not_empty s = not (str_eq s "")

abbrev started : AgentConfig
started = record {
  collector_url = "http://recorder.recorder.svc:8080";
  node = "node-a";
  driver = "auto";
  cni_dir = "/etc/cni/net.d";
  proc_root = "/proc";
  host_root = "/host";
  pod_cidr = "";
  interval = pos (60 * second);
  buffer_size = 100;
  redetect_every = 600 * second;
}

-- The largest number of seconds that fits, and the next one, which is negative.
interval_overflow :
    (times_second 9_223_372_036 ≡ pos (9_223_372_036 * second))
    × (times_second 9_223_372_037 ≡ negsuc (18_446_744_073_709_551_615 - 9_223_372_037 * second))
unfolding times_second
interval_overflow = (refl, refl)

abbrev bridge : LinkAttrs
bridge = record {
  name = "cni0";
  index = 5;
  type = "bridge";
  flags = 0x11043;
  oper_state = up;
  mtu = 1450;
  master_index = 0;
  vxlan = none;
}

abbrev port : LinkAttrs
port = record bridge { name = "veth1"; index = 6; type = "veth"; master_index = 5 }

abbrev address : AddrAttrs
address = record { link_index = 5; ip = "10.244.0.1"; ones = 24 }

abbrev gateway : RouteAttrs
gateway = record { link_index = 5; dst = none; gw = some "10.244.0.254"; src = none }
