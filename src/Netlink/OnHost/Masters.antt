-- ===== src/Netlink/OnHost/Masters.antt =====
-- What the view of the host says of masters, devices and families.
use cluster_recorder.Prelude.{
  ℕ, zero, suc, ◌≡◌, ap, String, false, Option, some, List, [], ◌∷◌, ◌++◌, map, map_option, All,
  get_elem?, ◌==◌,
}
use cluster_recorder.Prelude.Order.{nat_order}
use cluster_recorder.Host.{got}
use cluster_recorder.Netlink.{Link, Addr, Route, View}
use cluster_recorder.Netlink.OnHost.{
  LinkAttrs, AddrAttrs, RouteAttrs, NeighAttrs, HostReads, text_or_empty, link_of_attrs, addr_of,
  route_of, neighs_of,
}

index_of :
    (ls : List LinkAttrs) (j : ℕ) (m : LinkAttrs) (i : ℕ)
    → get_elem? ls j ≡ some m
    → All (λ (l : LinkAttrs). (i == l.index) ≡ false) ls
    → (i == m.index) ≡ false
index_of [] j m i e h = absurd (cc)
index_of (l ∷ ls) zero m i e h =
    let same : l ≡ m = cc in rw (ap (λ (k : LinkAttrs). k.index) same) at h.0
index_of (l ∷ ls) (suc j) m i e h = index_of ls j m i e h.1

-- The address and the family of an address, and of one that is read for a family.
abbrev pub of_addr : Addr → String × ℕ
of_addr a = (a.ip, a.family)

abbrev pub read_for : ℕ → AddrAttrs → String × ℕ
read_for family a = (a.ip, family)

abbrev pub of_route : Route → String × String × ℕ
of_route r = (r.dst, r.gateway, r.family)

abbrev pub route_for : ℕ → RouteAttrs → String × String × ℕ
route_for family r = (text_or_empty r.dst, text_or_empty r.gw, family)

abbrev pub master_at : View → ℕ → Option String
master_at v i = map_option (λ (l : Link). l.master) (get_elem? v.links i)

module _ (ls : List LinkAttrs) (addrs4 addrs6 : List AddrAttrs) (routes4 routes6 : List RouteAttrs)
    (neighs4 neighs6 : List NeighAttrs) where
  -- All reads of the host have succeeded.
  abbrev pub all_reads : HostReads
  all_reads = record {
    links = got ls;
    ipv4 = record { addrs = got addrs4; routes = got routes4; neighs = got neighs4 };
    ipv6 = record { addrs = got addrs6; routes = got routes6; neighs = got neighs6 };
  }

  abbrev seen : View
  seen = record {
    links = map (link_of_attrs ls) ls;
    addrs = map (addr_of ls 4) addrs4 ++ map (addr_of ls 6) addrs6;
    routes = map (route_of ls 4) routes4 ++ map (route_of ls 6) routes6;
    neighs = neighs_of ls neighs4 ++ neighs_of ls neighs6;
  }
