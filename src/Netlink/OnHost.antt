-- ===== src/Netlink/OnHost.antt =====
-- internal/netlink/linux.go: the view of the host, from what the netlink library answers. The records
-- below are the parts of its answers that the code reads.
pub mod Masters
use cluster_recorder.Prelude.{
  ℕ, zero, suc, ◌/◌, ◌%◌, ◌≡◌, refl, String, ◌<>◌, Bool, true, false, ◌||◌, not, Option, none, some,
  List, [], ◌∷◌, ◌++◌, map, map_option, ltb, ◌==◌, if◌then◌else◌, get_elem?,
}
use cluster_recorder.Host.{Read, got, failed}
use cluster_recorder.Netlink.{Vxlan, Link, Addr, Route, Neigh, View}

pub data OperState : Type 0 where
  up : OperState
  unknown : OperState
  other : OperState

pub record VxlanAttrs : Type 0 where
  pub id : ℕ
  pub port : ℕ
  pub src_addr : Option String

pub record LinkAttrs : Type 0 where
  pub name : String
  pub index : ℕ
  pub type : String
  pub flags : ℕ
  pub oper_state : OperState
  pub mtu : ℕ
  pub master_index : ℕ
  pub vxlan : Option VxlanAttrs

pub record AddrAttrs : Type 0 where
  pub link_index : ℕ
  pub ip : String
  pub ones : ℕ

pub record RouteAttrs : Type 0 where
  pub link_index : ℕ
  pub dst : Option String
  pub gw : Option String
  pub src : Option String

pub record NeighAttrs : Type 0 where
  pub link_index : ℕ
  pub ip : Option String
  pub mac : String
  pub state : ℕ

pub record FamilyReads : Type 0 where
  pub addrs : Read (List AddrAttrs)
  pub routes : Read (List RouteAttrs)
  pub neighs : Read (List NeighAttrs)

pub record HostReads : Type 0 where
  pub links : Read (List LinkAttrs)
  pub ipv4 : FamilyReads
  pub ipv6 : FamilyReads

unfoldable pub text_or_empty : Option String → String
text_or_empty none = ""
text_or_empty (some s) = s

later : Option String → Option String → Option String
later none a = a
later (some b) a = some b

-- byIndex: of two links with an index the later one's name is kept.
unfoldable pub by_index : List LinkAttrs → ℕ → Option String
unfolding later
by_index [] i = none
by_index (l ∷ ls) i = later (by_index ls i) (if l.index == i then some l.name else none)

unfoldable pub name_at : List LinkAttrs → ℕ → String
unfolding text_or_empty
name_at ls i = text_or_empty (by_index ls i)

has_carrier : OperState → Bool
has_carrier up = true
has_carrier unknown = true
has_carrier other = false

vxlan_of : VxlanAttrs → Vxlan
unfolding text_or_empty
vxlan_of vx = record { vni = vx.id; local_addr = text_or_empty vx.src_addr; port = vx.port }

-- A link, its master found among all of them; IFF_UP is the lowest bit of the flags.
unfoldable pub link_of_attrs : List LinkAttrs → LinkAttrs → Link
unfolding has_carrier vxlan_of name_at
link_of_attrs ls l = record {
  name = l.name;
  index = l.index;
  type = l.type;
  up = l.flags % 2 == 1;
  carrier = has_carrier l.oper_state;
  mtu = l.mtu;
  master = if l.master_index == 0 then "" else name_at ls l.master_index;
  vxlan = map_option vxlan_of l.vxlan;
}

unfoldable addr_of : List LinkAttrs → ℕ → AddrAttrs → Addr
unfolding name_at
addr_of ls family a = record {
  link = name_at ls a.link_index;
  ip = a.ip;
  prefix = a.ones;
  family = family;
}

unfoldable route_of : List LinkAttrs → ℕ → RouteAttrs → Route
unfolding name_at text_or_empty
route_of ls family r = record {
  dst = text_or_empty r.dst;
  gateway = text_or_empty r.gw;
  dev = name_at ls r.link_index;
  src = text_or_empty r.src;
  family = family;
}

text_at : List String → ℕ → String
unfolding text_or_empty
text_at ss i = text_or_empty (get_elem? ss i)

abbrev hex_digits : List String
hex_digits =
    "0" ∷ "1" ∷ "2" ∷ "3" ∷ "4" ∷ "5" ∷ "6" ∷ "7" ∷ "8" ∷ "9" ∷ "a" ∷ "b" ∷ "c" ∷ "d" ∷ "e" ∷ "f"
    ∷ []

hex_from : ℕ → ℕ → String
unfolding text_at
hex_from zero n = ""
hex_from (suc fuel) n =
    let rest = hex_from fuel (n / 16) in
    (if ltb n 16 then "" else rest) <> text_at hex_digits (n % 16)

-- neighState, by the kernel's NUD numbers. There are at most as many hexadecimal digits as the number
-- says, or one.
unfoldable pub neigh_state : ℕ → String
unfolding hex_from
neigh_state s =
    if s == 0x01
    then "INCOMPLETE"
    else if s == 0x02
    then "REACHABLE"
    else if s == 0x04
    then "STALE"
    else if s == 0x08
    then "DELAY"
    else if s == 0x10
    then "PROBE"
    else if s == 0x20
    then "FAILED"
    else if s == 0x40
    then "NOARP"
    else if s == 0x80
    then "PERMANENT"
    else if s == 0
    then "NONE"
    else "0x" <> hex_from (suc s) s

-- A neighbour without an address is left out.
neigh_of : List LinkAttrs → NeighAttrs → Option String → List Neigh
unfolding name_at neigh_state
neigh_of ls n none = []
neigh_of ls n (some ip) =
    record { dev = name_at ls n.link_index; ip = ip; mac = n.mac; state = neigh_state n.state } ∷ []

neighs_of : List LinkAttrs → List NeighAttrs → List Neigh
unfolding neigh_of
neighs_of ls [] = []
neighs_of ls (n ∷ ns) = neigh_of ls n n.ip ++ neighs_of ls ns

-- `x, err := ...; if err != nil { return nil, fmt.Errorf(what: err) }`
checked : {A B : Type 0} → String → Read A → (A → Read B) → Read B
checked what (got a) k = k a
checked what (failed e) k = failed (what <> (": " <> e))

-- The body of the loop over the families.
unfoldable pub add_family : List LinkAttrs → ℕ → FamilyReads → View → Read View
unfolding checked addr_of route_of neighs_of
add_family ls family f v = checked "addr list" f.addrs λ addrs.
    checked "route list" f.routes λ routes. checked "neigh list" f.neighs λ neighs. got (record v {
      addrs = v.addrs ++ map (addr_of ls family) addrs;
      routes = v.routes ++ map (route_of ls family) routes;
      neighs = v.neighs ++ neighs_of ls neighs;
    })

then_family : Read View → (View → Read View) → Read View
then_family (got v) k = k v
then_family (failed e) k = failed e

-- Host.View
unfoldable pub host_view : HostReads → Read View
unfolding add_family checked then_family link_of_attrs
host_view h = checked "link list" h.links λ ls.
    then_family
      (add_family ls 4 h.ipv4
        (record { links = map (link_of_attrs ls) ls; addrs = []; routes = []; neighs = [] }))
      (add_family ls 6 h.ipv6)

neigh_samples : (neigh_state 0x80 ≡ "PERMANENT") × (neigh_state 0x1a2 ≡ "0x1a2")
unfolding neigh_state
neigh_samples = (refl, refl)
