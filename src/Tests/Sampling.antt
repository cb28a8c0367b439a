-- ===== src/Tests/Sampling.antt =====
-- The theorems on the agent and its drivers, applied.
use cluster_recorder.Prelude.{
  ◌≡◌, refl, arith, ltb, length, drop, String, Bool, true, false, [], ◌∷◌, ◌++◌, some, any, str_eq,
  if◌then◌else◌,
}
use cluster_recorder.Prelude.Order.{text_order}
use cluster_recorder.Dict.{get}
use cluster_recorder.Netlink.{View}
use cluster_recorder.Agent.{Agent, enqueue, flush, tick}
use cluster_recorder.Agent.Channel.{Steps, view_of, ticks_refine}
use cluster_recorder.Agent.Buffer.{ticks, ticks_lossless}
use cluster_recorder.Agent.Overflow.{tick_drains}
use cluster_recorder.Cni.{keys}
use cluster_recorder.Cni.Drivers.{cilium, name_of, pinned, declared, driver_sample}
use cluster_recorder.Cni.Report.{view, sample}
use cluster_recorder.Cni.Complete.{Reported, sample_complete}
use cluster_recorder.Cni.Detect.{DetectContext}
use cluster_recorder.Tests.{before, after, again}

-- A collector that is away for the first two posts.
abbrev away : Agent
away = record { buffer = []; delivered = []; outcomes = true ∷ true ∷ [] }

abbrev back : Agent
back = record { buffer = before ∷ []; delivered = []; outcomes = [] }

ticks_lossless_example :
    (ticks 5 (before ∷ after ∷ again ∷ []) away).delivered
      ++ (ticks 5 (before ∷ after ∷ again ∷ []) away).buffer
    ≡ before ∷ after ∷ again ∷ []
unfolding tick enqueue flush
ticks_lossless_example = ticks_lossless 5 (before ∷ after ∷ again ∷ []) away refl

tick_drains_example :
    ((tick 5 after back).buffer ≡ [])
    × ((tick 5 after back).delivered
        ≡ []
          ++ (if ltb (length back.buffer) 5
              then back.buffer ++ after ∷ []
              else drop 1 (back.buffer ++ after ∷ [])))
tick_drains_example = tick_drains 5 after back (omega arith) refl

abbrev no_view : View
no_view = record { links = []; addrs = []; routes = []; neighs = [] }

abbrev flannel_view : View
flannel_view = record no_view {
  links =
      record {
        name = "flannel.1";
        index = 3;
        type = "vxlan";
        up = true;
        carrier = true;
        mtu = 1450;
        master = "";
        vxlan = some (record { vni = 1; local_addr = "10.0.0.5"; port = 8472 });
      }
      ∷ [];
}

abbrev nowhere : String → String → Bool
nowhere dst cidr = false

sample_complete_example :
    Reported
      (name_of (cilium ""))
      "pod_bridge"
      (any (str_eq "pod_bridge") keys)
      (get (declared (pinned (cilium "") flannel_view)).not_applicable "pod_bridge")
      (get (driver_sample nowhere (pinned (cilium "") flannel_view) flannel_view []) "pod_bridge")
      (get (sample nowhere (cilium "") 60 "" (view flannel_view) []).1.fields "pod_bridge")
sample_complete_example = sample_complete nowhere (cilium "") 60 "" [] flannel_view "pod_bridge"

abbrev flannel_node : DetectContext
flannel_node = record {
  cni_configs =
      record { file = "10-flannel.conflist"; plugin_types = "flannel" ∷ "portmap" ∷ [] } ∷ [];
  daemon_sets = "kube-flannel/kube-flannel-ds" ∷ [];
  interfaces = "cni0" ∷ "flannel.1" ∷ [];
}

ticks_refine_example :
    Steps 1
      (before ∷ after ∷ again ∷ [])
      (view_of away)
      (view_of (ticks 1 (before ∷ after ∷ again ∷ []) away))
ticks_refine_example = ticks_refine 1 (before ∷ after ∷ again ∷ []) away
