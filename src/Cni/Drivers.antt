-- ===== src/Cni/Drivers.antt =====
-- internal/cni/flannel.go, calico.go, cilium.go, generic.go. The three
-- drivers with a mode are one record each in Go, whose `mode` is "" before the first topology; here a
-- driver is a value, and `topology` returns it as it is afterwards.
use cluster_recorder.Prelude.{
  String, Bool, not, ◌&&◌, List, [], ◌∷◌, is_some, str_eq, if◌then◌else◌,
}
use cluster_recorder.Prelude.Order.{text_order}
use cluster_recorder.Dict.{Dict, put}
use cluster_recorder.Sample.{Field}
use cluster_recorder.Netlink.{View, link_of, ipv4}
use cluster_recorder.Cni.{
  bridge_keys, overlay_keys, key_pod_bridge, key_overlay, key_neighbour_table, link_fields,
  neighbours, common,
}

pub data Driver : Type 0 where
  flannel calico cilium : String → Driver
  generic : Driver

-- Name
unfoldable pub name_of : Driver → String
name_of (flannel mode) = "flannel"
name_of (calico mode) = "calico"
name_of (cilium mode) = "cilium"
name_of generic = "generic"

-- Topology: what it says, and the mode.
pub record Topology : Type 0 where
  pub not_applicable : Dict String
  pub mode : String

-- `for _, k := range ks { na[k] = why }`
unfoldable pub put_all : List String → String → Dict String → Dict String
put_all [] why na = na
put_all (k ∷ ks) why na = put_all ks why (put na k why)

abbrev no_overlay : String → Dict String → Dict String
no_overlay why na = put (put_all overlay_keys why na) key_neighbour_table why

abbrev has_link : View → String → Bool
has_link v name = is_some (link_of v name)

-- The mode that a driver pins on its first look.
unfoldable pub flannel_mode : String → View → String
flannel_mode mode v =
    if not (str_eq mode "") then mode else if has_link v "flannel.1" then "vxlan" else "host-gw"

unfoldable pub calico_mode : String → View → String
calico_mode mode v =
    if not (str_eq mode "")
    then mode
    else if has_link v "vxlan.calico"
    then "vxlan"
    else if has_link v "tunl0" && not (str_eq (ipv4 v "tunl0") "")
    then "ipip"
    else "routing"

unfoldable pub cilium_mode : String → View → String
cilium_mode mode v =
    if not (str_eq mode "")
    then mode
    else if has_link v "cilium_vxlan"
    then "vxlan"
    else if has_link v "cilium_geneve"
    then "geneve"
    else "native"

-- What each driver declares in a mode.
unfoldable pub flannel_topology : String → Topology
unfolding put_all
flannel_topology mode = record {
  not_applicable =
      if str_eq mode "host-gw"
      then no_overlay "flannel host-gw backend: no overlay tunnel" []
      else [];
  mode = mode;
}

unfoldable pub calico_topology : String → Topology
unfolding put_all
calico_topology mode =
    let bridge = put_all bridge_keys "calico routes to veths directly: no pod bridge" [] in
    record {
      not_applicable =
          if str_eq mode "routing"
          then no_overlay "calico routing (BGP) mode: no overlay tunnel" bridge
          else bridge;
      mode = mode;
    }

unfoldable pub cilium_topology : String → Topology
unfolding put_all
cilium_topology mode = record {
  not_applicable =
      if str_eq mode "native"
      then no_overlay "cilium native routing mode: no overlay tunnel" []
      else [];
  mode = mode;
}

unfoldable pub generic_topology : Topology
unfolding put_all
generic_topology = record {
  not_applicable =
      put (put_all overlay_keys "unrecognised CNI" (put_all bridge_keys "unrecognised CNI" []))
        key_neighbour_table "unrecognised CNI: no overlay device to inspect";
  mode = "unknown";
}

unfoldable pub declared : Driver → Topology
unfolding flannel_topology calico_topology cilium_topology generic_topology
declared (flannel mode) = flannel_topology mode
declared (calico mode) = calico_topology mode
declared (cilium mode) = cilium_topology mode
declared generic = generic_topology

unfoldable pub pinned : Driver → View → Driver
unfolding flannel_mode calico_mode cilium_mode
pinned (flannel mode) v = flannel (flannel_mode mode v)
pinned (calico mode) v = calico (calico_mode mode v)
pinned (cilium mode) v = cilium (cilium_mode mode v)
pinned generic v = generic

-- Topology
unfoldable pub topology : Driver → View → Driver × Topology
topology d v = (pinned d v, declared (pinned d v))

-- tunnel
unfoldable pub calico_tunnel : String → String
calico_tunnel mode =
    if str_eq mode "vxlan" then "vxlan.calico" else if str_eq mode "ipip" then "tunl0" else ""

unfoldable pub cilium_tunnel : String → String
cilium_tunnel mode =
    if str_eq mode "vxlan"
    then "cilium_vxlan"
    else if str_eq mode "geneve"
    then "cilium_geneve"
    else ""

tunnel_fields : View → String → Dict Field → Dict Field
tunnel_fields v t out =
    if str_eq t ""
    then out
    else put (link_fields v key_overlay t out) key_neighbour_table (neighbours v t)

-- The `Sample` of each driver.
unfoldable pub flannel_sample : (String → String → Bool) → View → List String → Dict Field
flannel_sample lies_in v pod_cidrs =
    let out = link_fields v key_overlay "flannel.1" (link_fields v key_pod_bridge "cni0" []) in
    common lies_in v pod_cidrs (put out key_neighbour_table (neighbours v "flannel.1"))

unfoldable pub calico_sample : (String → String → Bool) → String → View → List String → Dict Field
unfolding tunnel_fields calico_tunnel
calico_sample lies_in mode v pod_cidrs =
    common lies_in v pod_cidrs (tunnel_fields v (calico_tunnel mode) [])

unfoldable pub cilium_sample : (String → String → Bool) → String → View → List String → Dict Field
unfolding tunnel_fields cilium_tunnel
cilium_sample lies_in mode v pod_cidrs =
    common lies_in v pod_cidrs
      (tunnel_fields v (cilium_tunnel mode) (link_fields v key_pod_bridge "cilium_host" []))

unfoldable pub generic_sample : (String → String → Bool) → View → List String → Dict Field
generic_sample lies_in v pod_cidrs = common lies_in v pod_cidrs []

-- Driver.Sample
unfoldable pub driver_sample : (String → String → Bool) → Driver → View → List String → Dict Field
unfolding flannel_sample calico_sample cilium_sample generic_sample
driver_sample lies_in (flannel mode) v pod_cidrs = flannel_sample lies_in v pod_cidrs
driver_sample lies_in (calico mode) v pod_cidrs = calico_sample lies_in mode v pod_cidrs
driver_sample lies_in (cilium mode) v pod_cidrs = cilium_sample lies_in mode v pod_cidrs
driver_sample lies_in generic v pod_cidrs = generic_sample lies_in v pod_cidrs
