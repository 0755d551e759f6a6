-- ===== src/Spf.antt =====
-- internal/olsr/spf.go: the graph that the routes are calculated on, and the events that bring the
-- installed routes in line with the new ones. `now` is what time.Now() returns.
pub mod Heap
pub mod Dijkstra
pub mod Routes
pub mod Laws
pub mod Tests
use olsr_go.Base.{ℕ, Bool, not, ◌||◌, List, [], ◌∷◌, if◌then◌else◌, Text, text_eq, ◌==◌}
use olsr_go.Base.Int.{ℤ, int_eq}
use olsr_go.Base.Map.{GoMap}
use olsr_go.Base.Nested.{insert2, values}
use olsr_go.Base.Changes.{Change, changes}
use olsr_go.Net.{Time}
use olsr_go.Neighbor.{NeighborTuple, NeighborManager}
use olsr_go.Neighbor.Aging.{get_neighbors, get_two_hop_neighbors}
use olsr_go.Topology.{TopologyTuple, TopologyManager, get_topology}

pub record Route : Type 0 where
  pub prefix : Text
  pub next_hop : Text
  pub metric : ℕ
  pub iface_index : ℤ

-- adj[u][v] is the cost of the link.
abbrev pub Graph : Type 0
Graph = GoMap Text (GoMap Text ℕ)

unfoldable pub add_link : Text → Text → ℕ → Graph → Graph
add_link u v cost adj = insert2 u v cost adj

unfoldable pub add_neighbors : Text → List NeighborTuple → Graph → Graph
add_neighbors local_id [] adj = adj
add_neighbors local_id (n ∷ ns) adj =
    add_neighbors local_id ns
      (add_link n.neighbor_ip local_id 1 (add_link local_id n.neighbor_ip 1 adj))

unfoldable pub add_hops_of : Text → List Text → Graph → Graph
add_hops_of one [] adj = adj
add_hops_of one (two ∷ hops) adj = add_hops_of one hops (add_link one two 1 adj)

unfoldable pub add_two_hops : GoMap Text (List Text) → Graph → Graph
add_two_hops [] adj = adj
add_two_hops ((one, hops) ∷ rest) adj = add_two_hops rest (add_hops_of one hops adj)

unfoldable pub add_topology : List TopologyTuple → Graph → Graph
add_topology [] adj = adj
add_topology (t ∷ ts) adj = add_topology ts (add_link t.last_ip t.dest_ip 1 adj)

unfoldable pub build_adjacency_list : Time → Text → NeighborManager → TopologyManager → Graph
build_adjacency_list now local_id nm tm =
    add_topology (get_topology tm)
      (add_two_hops (get_two_hop_neighbors now nm) (add_neighbors local_id (get_neighbors nm) []))

abbrev pub route_changed : Route → Route → Bool
route_changed old new =
    not (old.next_hop == new.next_hop) || not (old.iface_index == new.iface_index)

-- The payload "delete" withdraws the route, "add" installs it.
unfoldable pub diff_and_publish_routes : GoMap Text Route → GoMap Text Route → List (Change Route)
diff_and_publish_routes active new_routes = changes route_changed active new_routes

unfoldable pub get_routes : GoMap Text Route → List Route
get_routes active = values active
