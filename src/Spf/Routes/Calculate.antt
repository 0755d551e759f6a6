-- ===== src/Spf/Routes/Calculate.antt =====
-- internal/olsr/spf.go: CalculateRoutes as a whole, on the tables of the other managers.
use mathlib.Core.Option
use olsr_go.Base.{
  ℕ, suc, ◌+◌, ◌<◌, ◌≡◌, ◌≢◌, refl, sym, ◌∙◌, inl, inr, false, ◌||◌, none, some, List, [], ◌∷◌,
  arith, Text, text_eq, ◌==◌, Bool-cases, Option-cases, ok, length,
}
use olsr_go.Base.Map.{GoMap, lookup, insert, insert-IsMap, Entries, Entries-map, insert-Entries}
use olsr_go.Base.Nested.{IsNested, insert2-IsNested}
use olsr_go.Base.Changes.{replay}
use olsr_go.Net.{Time}
use olsr_go.Net.Cidr.{cidr}
use olsr_go.Neighbor.{NeighborTuple, NeighborManager}
use olsr_go.Neighbor.Aging.{get_neighbors, get_two_hop_neighbors}
use olsr_go.Topology.{TopologyTuple, TopologyManager, get_topology}
use olsr_go.Hna.{HnaEntry, HnaManager, get_hna_entries}
use olsr_go.Spf.{
  Route, Graph, add_link, add_neighbors, add_hops_of, add_two_hops, add_topology,
  build_adjacency_list, diff_and_publish_routes,
}
use olsr_go.Spf.Laws.{
  IsTable, forwarding, neighbor_link, two_hop_link, topology_link, lookup2-build_adjacency_list,
  replay-diff_and_publish_routes,
}
use olsr_go.Spf.Dijkstra.{Search}
use olsr_go.Spf.Dijkstra.Invariant.{seen, Edge, Inv}
use olsr_go.Spf.Dijkstra.Shortest.{run_dijkstra_ends}
use olsr_go.Spf.Routes.{
  LocalRouterLookup, get_iface_index, Resolved, hop, no_hop, unresolved, resolve_next_hop,
  add_hna_route, hna_routes, is_better, SpfEvents, calculate_routes,
}
use olsr_go.Spf.Routes.NextHop.{resolve_ends}
use olsr_go.Spf.Routes.Hosts.{IsHostRoute, host_routes_table}

add_neighbors-IsNested :
    (local_id : Text) (ns : List NeighborTuple) (adj : Graph)
    → IsNested adj
    → IsNested (add_neighbors local_id ns adj)
unfolding add_neighbors add_link
add_neighbors-IsNested local_id [] adj h = h
add_neighbors-IsNested local_id (n ∷ ns) adj h =
    add_neighbors-IsNested local_id ns _ (
      insert2-IsNested n.neighbor_ip local_id 1 _ (insert2-IsNested local_id n.neighbor_ip 1 adj h))

add_hops_of-IsNested :
    (one : Text) (hops : List Text) (adj : Graph)
    → IsNested adj
    → IsNested (add_hops_of one hops adj)
unfolding add_hops_of add_link
add_hops_of-IsNested one [] adj h = h
add_hops_of-IsNested one (two ∷ hops) adj h =
    add_hops_of-IsNested one hops _ (insert2-IsNested one two 1 adj h)

add_two_hops-IsNested :
    (hops : GoMap Text (List Text)) (adj : Graph) → IsNested adj → IsNested (add_two_hops hops adj)
unfolding add_two_hops
add_two_hops-IsNested [] adj h = h
add_two_hops-IsNested ((one, hops) ∷ rest) adj h =
    add_two_hops-IsNested rest _ (add_hops_of-IsNested one hops adj h)

add_topology-IsNested :
    (ts : List TopologyTuple) (adj : Graph) → IsNested adj → IsNested (add_topology ts adj)
unfolding add_topology add_link
add_topology-IsNested [] adj h = h
add_topology-IsNested (t ∷ ts) adj h =
    add_topology-IsNested ts _ (insert2-IsNested t.last_ip t.dest_ip 1 adj h)

pub build_adjacency_list-IsNested :
    (now : Time) (local_id : Text) (nm : NeighborManager) (tm : TopologyManager)
    → IsNested (build_adjacency_list now local_id nm tm)
unfolding build_adjacency_list
build_adjacency_list-IsNested now local_id nm tm = add_topology-IsNested (get_topology tm) _ (
    add_two_hops-IsNested (get_two_hop_neighbors now nm) _
      (add_neighbors-IsNested local_id (get_neighbors nm) [] (tt, tt)))

pub build_adjacency_list_positive :
    (now : Time) (local_id : Text) (nm : NeighborManager) (tm : TopologyManager) (u v : Text)
    (cost : ℕ)
    → Edge local_id (build_adjacency_list now local_id nm tm) u v cost
    → 0 < cost
build_adjacency_list_positive now local_id nm tm u v cost edge =
    let e = sym (lookup2-build_adjacency_list now local_id nm tm u v) ∙ edge in
    elim (Bool-cases (
      neighbor_link local_id (get_neighbors nm) u v
      || (two_hop_link (get_two_hop_neighbors now nm) u v
          || topology_link (get_topology tm) u v))) [
            | inl linked ↦ (let e' : some 1 ≡ some cost = rw linked at e in ground (arith, e'))
            | inr apart ↦ absurd (let e' : none ≡ some cost = rw apart at e in cc)
          ]

add_hna_route-IsTable :
    (router : LocalRouterLookup) (prefix : Text) (d : ℕ) (r : Resolved) (old : GoMap Text Route)
    → r ≢ unresolved
    → IsTable old
    → (new : GoMap Text Route) × (add_hna_route router prefix d r old ≡ ok new) × IsTable new
add_hna_route-IsTable router prefix d (hop next) old ends (h, k) =
    elim (Bool-cases (is_better d (lookup prefix old))) [
      | inl better ↦
          let route : Route = record {
            prefix = prefix;
            next_hop = next;
            metric = d + 1;
            iface_index = get_iface_index router next;
          } in
          (
            insert prefix route old,
            rw better,
            (
              insert-IsMap prefix route old h,
              insert-Entries (λ k r. r.prefix ≡ k) prefix route old refl k,
            ),
          )
      | inr worse ↦ (old, rw worse, (h, k))
    ]
add_hna_route-IsTable router prefix d no_hop old ends t = (old, refl, t)
add_hna_route-IsTable router prefix d unresolved old ends t = absurd (ends refl)

module _ (router : LocalRouterLookup) (adj : Graph)
    (positive : (u v : Text) (cost : ℕ) → Edge router.router_id adj u v cost → 0 < cost)
    (s : Search) (i : Inv router.router_id adj (seen s) s) where
  hna_routes-IsTable :
      (entries : List HnaEntry) (old : GoMap Text Route)
      → IsTable old
      → (new : GoMap Text Route) × (hna_routes router s entries old ≡ ok new) × IsTable new
  unfolding hna_routes
  hna_routes-IsTable [] old t = (old, refl, t)
  hna_routes-IsTable (entry ∷ entries) old t = elim (Bool-cases entry.is_local) [
    | inl own ↦ (let (new, e, t') = hna_routes-IsTable entries old t in (new, rw own e, t'))
    | inr remote ↦ elim (Option-cases (lookup entry.gateway_ip s.dist)) [
      | inl q ↦ (let (new, e, t') = hna_routes-IsTable entries old t in (new, rw (remote, q) e, t'))
      | inr (d, q) ↦
          let (mid, m, tm) =
            add_hna_route-IsTable router (cidr entry.network) d
              (resolve_next_hop (suc d) entry.gateway_ip s.prev router.router_id) old
              (resolve_ends router.router_id adj positive s i entry.gateway_ip d q) t in
          let (new, e, t') = hna_routes-IsTable entries mid tm in (new, rw (remote, q, m) e, t')
    ]
  ]

-- With a router ID CalculateRoutes ends without an error. Where the active routes stand each under its
-- own prefix, so do its routes, and a routing table that forwards as the active routes say, forwards as
-- the new ones say when the events of the run are applied to it.
pub calculate_routes_returns :
    (router : LocalRouterLookup) (now : Time) (nm : NeighborManager) (tm : TopologyManager)
    (hm : HnaManager) (active kernel : GoMap Text Route)
    → router.router_id ≢ []
    → IsTable active
    → ((k : Text)
        → Option.map forwarding (lookup k kernel) ≡ Option.map forwarding (lookup k active))
    → (routes : GoMap Text Route) × (events : SpfEvents) × (calculate_routes router now nm tm hm
          active
        ≡ ok (routes, events))
      × IsTable routes
      × ((k : Text)
          → Option.map forwarding (lookup k (replay (λ r. r.prefix) events.route_changes kernel))
            ≡ Option.map forwarding (lookup k routes))
unfolding calculate_routes
calculate_routes_returns router now nm tm hm active kernel named ta follows =
    let adj = build_adjacency_list now router.router_id nm tm in
    let positive = build_adjacency_list_positive now router.router_id nm tm in
    let (s, e, i, z) =
      run_dijkstra_ends router.router_id adj
        (build_adjacency_list-IsNested now router.router_id nm tm) in
    let (hosts, h, m, right, complete) = host_routes_table router adj positive s i z in
    let own : Entries (λ k r. r.prefix ≡ k) hosts =
      Entries-map (λ p r. IsHostRoute router adj p r) (λ k r. r.prefix ≡ k) hosts
        (λ k r (node, p, is). is.named ∙ sym p) right in
    let (routes, q, t) =
      hna_routes-IsTable router adj positive s i (get_hna_entries hm) hosts (m, own) in
    let differs : (router.router_id == []) ≡ false = elim (Bool-cases (router.router_id == [])) [
      | inl same ↦ absurd (named ((text_eq.beq_iff router.router_id []).0 same))
      | inr other ↦ other
    ] in
    (
      routes,
      record { route_changes = diff_and_publish_routes active routes; route_count = length routes },
      rw (differs, e, h, q),
      t,
      replay-diff_and_publish_routes active routes kernel ta t follows,
    )
