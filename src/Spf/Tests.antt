-- ===== src/Spf/Tests.antt =====
-- The route calculation on concrete tables.
use mathlib.Core.Option
use olsr_go.Base.{
  ◌≡◌, refl, true, ◌||◌, none, some, [], ◌∷◌, if◌then◌else◌, Text, codes, text_eq, text_beq,
}
use olsr_go.Base.Int.{pos}
use olsr_go.Base.Map.{GoMap, lookup}
use olsr_go.Base.Nested.{lookup2}
use olsr_go.Base.Changes.{replay}
use olsr_go.Neighbor.{symmetric, NeighborManager}
use olsr_go.Neighbor.Aging.{get_neighbors, get_two_hop_neighbors}
use olsr_go.Topology.{get_topology, new_topology_manager}
use olsr_go.Spf.{Route, build_adjacency_list, diff_and_publish_routes}
use olsr_go.Spf.Laws.{
  neighbor_link, two_hop_link, topology_link, IsTable, forwarding, lookup2-build_adjacency_list,
  replay-diff_and_publish_routes,
}

abbrev pub one_neighbor : NeighborManager
one_neighbor = record {
  router_id = codes "r";
  links =
      (
        codes "a",
        record {
          local_ip = codes "r";
          neighbor_ip = codes "a";
          state = symmetric;
          asym_time = pos 0;
          sym_time = pos 90;
          expiration_time = pos 90;
        },
      )
      ∷ [];
  neighbors =
      (codes "a", record { neighbor_ip = codes "a"; symmetric = true; willingness = 3 }) ∷ [];
  two_hop_links = (codes "a", (codes "c", pos 90) ∷ []) ∷ [];
  mpr_set = [];
  mpr_selectors = [];
}

abbrev pub old_routes : GoMap Text Route
old_routes =
    (
      codes "a/32",
      record { prefix = codes "a/32"; next_hop = codes "a"; metric = 1; iface_index = pos 2 },
    )
    ∷ (
      codes "c/32",
      record { prefix = codes "c/32"; next_hop = codes "a"; metric = 2; iface_index = pos 2 },
    )
    ∷ []

abbrev new_routes : GoMap Text Route
new_routes =
    (
      codes "c/32",
      record { prefix = codes "c/32"; next_hop = codes "b"; metric = 2; iface_index = pos 3 },
    )
    ∷ []

pub old_routes-IsTable : IsTable old_routes
unfolding lookup text_beq
old_routes-IsTable = ((refl, (refl, tt)), (refl, (refl, tt)))

new_routes-IsTable : IsTable new_routes
unfolding lookup
new_routes-IsTable = ((refl, tt), (refl, tt))

adjacency_example :
    lookup2
      (codes "a")
      (codes "c")
      (build_adjacency_list (pos 10) (codes "r") one_neighbor new_topology_manager)
    ≡ (if neighbor_link (codes "r") (get_neighbors one_neighbor) (codes "a") (codes "c")
          || (two_hop_link (get_two_hop_neighbors (pos 10) one_neighbor) (codes "a") (codes "c")
              || topology_link (get_topology new_topology_manager) (codes "a") (codes "c"))
        then some 1
        else none)
adjacency_example =
    lookup2-build_adjacency_list (pos 10) (codes "r") one_neighbor new_topology_manager (codes "a")
      (codes "c")

replay_routes_example :
    Option.map forwarding (
      lookup
        (codes "c/32")
        (replay (λ r. r.prefix) (diff_and_publish_routes old_routes new_routes) old_routes))
    ≡ Option.map forwarding (lookup (codes "c/32") new_routes)
replay_routes_example =
    replay-diff_and_publish_routes old_routes new_routes old_routes old_routes-IsTable
      new_routes-IsTable (λ k. refl) (codes "c/32")
