-- ===== src/Cni.antt =====
-- internal/cni/driver.go: the generic fields, and what the drivers share to fill them. Whether a
-- route's address lies inside a pod CIDR is asked of Go's `net` package, which is the parameter
-- `lies_in`: it says so of a destination and a CIDR, and `false` where one of them does not parse.
pub mod Drivers
pub mod Report
pub mod Detect
pub mod Complete
pub mod Sticky
use Prim.Native.String.{◌++◌ as ◌<>◌}
use cluster_recorder.Prelude.{
  ℕ, String, Bool, true, false, not, ◌&&◌, ◌||◌, Option, none, some, List, [], ◌∷◌, ◌++◌, map,
  select, any, str_eq, length, ◌==◌, if◌then◌else◌,
}
use cluster_recorder.Prelude.Order.{text_order}
use cluster_recorder.Prelude.Sorting.{sort_by}
use cluster_recorder.Dict.{Dict, get, put}
use cluster_recorder.Sample.{Field, present, absent, not_applicable, unknown}
use cluster_recorder.Sample.Encoding.{Value}
use cluster_recorder.Netlink.{
  View, Link, Route, Neigh, Vxlan, link_of, ipv4, is_default, default_dev,
}

abbrev pub key_pod_bridge : String
key_pod_bridge = "pod_bridge"

abbrev pub key_overlay : String
key_overlay = "overlay_tunnel"

abbrev pub key_overlay_vni : String
key_overlay_vni = "overlay_tunnel.vni"

abbrev pub key_overlay_local : String
key_overlay_local = "overlay_tunnel.local_addr"

abbrev pub key_pod_cidr_routes : String
key_pod_cidr_routes = "pod_cidr_routes"

abbrev pub key_neighbour_table : String
key_neighbour_table = "neighbour_table"

abbrev pub key_primary_nic_state : String
key_primary_nic_state = "primary_nic.state"

abbrev pub key_primary_nic_carrier : String
key_primary_nic_carrier = "primary_nic.carrier"

abbrev pub key_interfaces : String
key_interfaces = "interfaces"

-- Keys[:4]
abbrev pub bridge_keys : List String
bridge_keys = key_pod_bridge ∷ "pod_bridge.ipv4" ∷ "pod_bridge.mtu" ∷ "pod_bridge.state" ∷ []

-- Keys[4:10]
abbrev pub overlay_keys : List String
overlay_keys =
    key_overlay ∷ "overlay_tunnel.ipv4" ∷ "overlay_tunnel.mtu" ∷ "overlay_tunnel.state"
    ∷ key_overlay_vni ∷ key_overlay_local ∷ []

-- Keys
unfoldable pub keys : List String
keys =
    bridge_keys
    ++ (overlay_keys
        ++ (key_pod_cidr_routes ∷ key_neighbour_table ∷ key_primary_nic_state
            ∷ key_primary_nic_carrier ∷ key_interfaces ∷ []))

abbrev up_or_down : Bool → String
up_or_down up = if up then "up" else "down"

-- `sample.Present(s)`, or absent for "".
present_or_absent : String → Field
present_or_absent s = if str_eq s "" then absent else present (Value.text s)

vxlan_fields : Option Vxlan → Dict Field → Dict Field
unfolding present_or_absent
vxlan_fields none out =
    put (put out key_overlay_vni (not_applicable "not a VXLAN device")) key_overlay_local
      (not_applicable "not a VXLAN device")
vxlan_fields (some x) out =
    put (put out key_overlay_vni (present (Value.int x.vni))) key_overlay_local
      (present_or_absent x.local_addr)

no_link : String → Dict Field → Dict Field
no_link prefix out =
    let o1 = put out (prefix <> "") absent in
    let o2 = put o1 (prefix <> ".ipv4") absent in
    let o3 = put o2 (prefix <> ".mtu") absent in
    let o4 = put o3 (prefix <> ".state") absent in
    if str_eq prefix key_overlay
    then put (put o4 key_overlay_vni absent) key_overlay_local absent
    else o4

with_link : String → String → Link → String → Dict Field → Dict Field
unfolding present_or_absent vxlan_fields
with_link prefix name l ip out =
    let o1 = put out prefix (present (Value.text name)) in
    let o2 = put o1 (prefix <> ".ipv4") (present_or_absent ip) in
    let o3 = put o2 (prefix <> ".mtu") (present (Value.int l.mtu)) in
    let o4 = put o3 (prefix <> ".state") (present (Value.text (up_or_down l.up))) in
    if str_eq prefix key_overlay then vxlan_fields l.vxlan o4 else o4

link_or_not : String → String → Option Link → String → Dict Field → Dict Field
unfolding no_link with_link
link_or_not prefix name none ip out = no_link prefix out
link_or_not prefix name (some l) ip out = with_link prefix name l ip out

-- linkFields
unfoldable pub link_fields : View → String → String → Dict Field → Dict Field
unfolding link_or_not
link_fields v prefix name out = link_or_not prefix name (link_of v name) (ipv4 v name) out

route_text : Route → String
route_text r =
    (if str_eq r.gateway "" then r.dst else r.dst <> (" via " <> r.gateway)) <> (" dev " <> r.dev)

-- podCIDRRoutes
unfoldable pub pod_cidr_routes : (String → String → Bool) → View → List String → Field
unfolding route_text
pod_cidr_routes lies_in v pod_cidrs =
    if length pod_cidrs == 0
    then unknown "pod CIDR not discovered; set POD_CIDR to override"
    else present (
        Value.texts (
          sort_by (λ (s : String). s)
            (map route_text (
              select (λ (r : Route). not (is_default r) && any (lies_in r.dst) pod_cidrs)
                v.routes))))

neigh_text : Neigh → String
neigh_text n = n.ip <> (" " <> (n.mac <> (" " <> n.state)))

-- neighbours
unfoldable pub neighbours : View → String → Field
unfolding neigh_text
neighbours v dev = elim (link_of v dev) [
  | none ↦ absent
  | some l ↦ present (
      Value.texts (
        sort_by (λ (s : String). s)
          (map neigh_text
            (select (λ (n : Neigh). str_eq n.dev dev && not (str_eq n.state "NOARP")) v.neighs))))
]

nic_fields : String → Option Link → Dict Field → Dict Field
nic_fields dev none out = put (put out key_primary_nic_state absent) key_primary_nic_carrier absent
nic_fields dev (some l) out =
    if str_eq dev ""
    then put (put out key_primary_nic_state absent) key_primary_nic_carrier absent
    else put
        (put out key_primary_nic_state (present (Value.text (dev <> (" " <> up_or_down l.up)))))
        key_primary_nic_carrier (present (Value.boolean l.carrier))

-- primaryNIC
unfoldable pub primary_nic : View → Dict Field → Dict Field
unfolding nic_fields
primary_nic v out = nic_fields (default_dev v) (link_of v (default_dev v)) out

abbrev ip_or_dash : String → String
ip_or_dash ip = if str_eq ip "" then "-" else ip

link_text : View → Link → String
link_text v l =
    l.name <> (" " <> (l.type <> (" " <> (up_or_down l.up <> (" " <> ip_or_dash (ipv4 v l.name))))))

-- interfaces
unfoldable pub interfaces : View → Field
unfolding link_text
interfaces v = present (
    Value.texts (
      sort_by (λ (s : String). s)
        (map (link_text v)
          (select (λ (l : Link). not (str_eq l.name "lo" || str_eq l.type "veth")) v.links))))

-- common
unfoldable pub common : (String → String → Bool) → View → List String → Dict Field → Dict Field
common lies_in v pod_cidrs out =
    put (primary_nic v (put out key_pod_cidr_routes (pod_cidr_routes lies_in v pod_cidrs)))
      key_interfaces (interfaces v)
