-- ===== src/Spf/Laws.antt =====
-- internal/olsr/spf.go: the links of the graph, and the route events replayed.
use mathlib.Core.Option
use olsr_go.Base.{
  ℕ, ◌≡◌, refl, ap, ◌∙◌, Bool, true, false, ◌&&◌, ◌||◌, Option, none, some, List, [], ◌∷◌,
  if◌then◌else◌, arith, Text, text_eq, ◌==◌,
}
use olsr_go.Base.Int.{ℤ, int_eq}
use olsr_go.Base.Map.{GoMap, lookup, IsMap, Entries}
use olsr_go.Base.Nested.{lookup2, lookup2-insert2}
use olsr_go.Base.Changes.{replay, replay-changes}
use olsr_go.Net.{Time}
use olsr_go.Neighbor.{NeighborTuple, NeighborManager}
use olsr_go.Neighbor.Aging.{get_neighbors, get_two_hop_neighbors}
use olsr_go.Topology.{TopologyTuple, TopologyManager, get_topology}
use olsr_go.Topology.Laws.{member}
use olsr_go.Spf.{
  Route, Graph, add_link, add_neighbors, add_hops_of, add_two_hops, add_topology,
  build_adjacency_list, route_changed, diff_and_publish_routes,
}

-- Some neighbour is linked with this node, in either direction.
abbrev pub neighbor_link : Text → List NeighborTuple → Text → Text → Bool
neighbor_link local_id [] u v = false
neighbor_link local_id (n ∷ ns) u v =
    local_id == u && n.neighbor_ip == v
    || n.neighbor_ip == u && local_id == v
    || neighbor_link local_id ns u v

abbrev pub two_hop_link : GoMap Text (List Text) → Text → Text → Bool
two_hop_link [] u v = false
two_hop_link ((one, hops) ∷ rest) u v = one == u && member v hops || two_hop_link rest u v

abbrev pub topology_link : List TopologyTuple → Text → Text → Bool
topology_link [] u v = false
topology_link (t ∷ ts) u v = t.last_ip == u && t.dest_ip == v || topology_link ts u v

-- Links of cost 1 added to what is there.
abbrev linked : Bool → Option ℕ → Option ℕ
linked b o = if b then some 1 else o

linked_twice : (a b : Bool) (o : Option ℕ) → linked a (linked b o) ≡ linked (b || a) o
linked_twice true true o = refl
linked_twice true false o = refl
linked_twice false true o = refl
linked_twice false false o = refl

lookup2-add_neighbors :
    (local_id : Text) (ns : List NeighborTuple) (u v : Text) (adj : Graph)
    → lookup2 u v (add_neighbors local_id ns adj)
      ≡ linked (neighbor_link local_id ns u v) (lookup2 u v adj)
unfolding add_neighbors add_link
lookup2-add_neighbors local_id [] u v adj = refl
lookup2-add_neighbors local_id (n ∷ ns) u v adj =
    let there = add_link local_id n.neighbor_ip 1 adj in
    lookup2-add_neighbors local_id ns u v (add_link n.neighbor_ip local_id 1 there)
    ∙ rw
        (
          lookup2-insert2 n.neighbor_ip u local_id v 1 there,
          lookup2-insert2 local_id u n.neighbor_ip v 1 adj,
        )
        (ground arith)

lookup2-add_hops_of :
    (one : Text) (hops : List Text) (u v : Text) (adj : Graph)
    → lookup2 u v (add_hops_of one hops adj) ≡ linked (one == u && member v hops) (lookup2 u v adj)
unfolding add_hops_of add_link
lookup2-add_hops_of one [] u v adj = ground arith
lookup2-add_hops_of one (two ∷ hops) u v adj =
    lookup2-add_hops_of one hops u v (add_link one two 1 adj)
    ∙ rw (lookup2-insert2 one u two v 1 adj) (ground arith)

lookup2-add_two_hops :
    (hops : GoMap Text (List Text)) (u v : Text) (adj : Graph)
    → lookup2 u v (add_two_hops hops adj) ≡ linked (two_hop_link hops u v) (lookup2 u v adj)
unfolding add_two_hops
lookup2-add_two_hops [] u v adj = refl
lookup2-add_two_hops ((one, hops) ∷ rest) u v adj =
    lookup2-add_two_hops rest u v (add_hops_of one hops adj)
    ∙ ap (linked (two_hop_link rest u v)) (lookup2-add_hops_of one hops u v adj)
    ∙ linked_twice (two_hop_link rest u v) (one == u && member v hops) (lookup2 u v adj)

lookup2-add_topology :
    (ts : List TopologyTuple) (u v : Text) (adj : Graph)
    → lookup2 u v (add_topology ts adj) ≡ linked (topology_link ts u v) (lookup2 u v adj)
unfolding add_topology add_link
lookup2-add_topology [] u v adj = refl
lookup2-add_topology (t ∷ ts) u v adj =
    lookup2-add_topology ts u v (add_link t.last_ip t.dest_ip 1 adj)
    ∙ ap (linked (topology_link ts u v)) (lookup2-insert2 t.last_ip u t.dest_ip v 1 adj)
    ∙ linked_twice (topology_link ts u v) (t.last_ip == u && t.dest_ip == v) (lookup2 u v adj)

-- The graph has exactly these links, each of cost 1: between this node and each of its listed
-- neighbours in both directions, from a neighbour to each of its live 2-hop neighbours, and from the
-- originator of a TC to each destination in the topology table.
pub lookup2-build_adjacency_list :
    (now : Time) (local_id : Text) (nm : NeighborManager) (tm : TopologyManager) (u v : Text)
    → lookup2 u v (build_adjacency_list now local_id nm tm) ≡ (
        if neighbor_link local_id (get_neighbors nm) u v
          || (two_hop_link (get_two_hop_neighbors now nm) u v
              || topology_link (get_topology tm) u v)
        then some 1
        else none)
unfolding build_adjacency_list lookup
lookup2-build_adjacency_list now local_id nm tm u v =
    let near = add_neighbors local_id (get_neighbors nm) [] in
    let hops = get_two_hop_neighbors now nm in
    lookup2-add_topology (get_topology tm) u v (add_two_hops hops near)
    ∙ ap (linked (topology_link (get_topology tm) u v)) (
        lookup2-add_two_hops hops u v near
        ∙ ap (linked (two_hop_link hops u v))
            (lookup2-add_neighbors local_id (get_neighbors nm) u v []))
    ∙ linked_twice (topology_link (get_topology tm) u v) (two_hop_link hops u v)
        (linked (neighbor_link local_id (get_neighbors nm) u v) none)
    ∙ linked_twice (two_hop_link hops u v || topology_link (get_topology tm) u v)
        (neighbor_link local_id (get_neighbors nm) u v) none

-- A table of routes has each route once, under its own prefix.
abbrev pub IsTable : GoMap Text Route → Type 0
IsTable t = IsMap t × Entries (λ k r. r.prefix ≡ k) t

-- What of a route the kernel forwards by.
abbrev pub forwarding : Route → Text × ℤ
forwarding r = (r.next_hop, r.iface_index)

same_forwarding : (a b : Route) → route_changed a b ≡ false → forwarding a ≡ forwarding b
same_forwarding a b h =
    let p : a.next_hop ≡ b.next_hop = ground (arith, h, text_eq.beq_iff a.next_hop b.next_hop) in
    let q : a.iface_index ≡ b.iface_index =
      ground (arith, h, int_eq.beq_iff a.iface_index b.iface_index) in
    rw (p, q)

-- A routing table that forwards as the active routes say, forwards as the new routes say when the
-- events of diffAndPublishRoutes are applied to it, where the active and the new routes stand under
-- their own prefixes.
pub replay-diff_and_publish_routes :
    (active new_routes kernel : GoMap Text Route)
    → IsTable active
    → IsTable new_routes
    → ((k : Text)
        → Option.map forwarding (lookup k kernel) ≡ Option.map forwarding (lookup k active))
    → (k : Text)
    → Option.map forwarding
        (lookup k (replay (λ r. r.prefix) (diff_and_publish_routes active new_routes) kernel))
      ≡ Option.map forwarding (lookup k new_routes)
unfolding diff_and_publish_routes
replay-diff_and_publish_routes active new_routes kernel (ha, ka) (hn, kn) follows k =
    replay-changes (λ r. r.prefix) forwarding route_changed active new_routes kernel ha hn ka kn
      same_forwarding follows k
