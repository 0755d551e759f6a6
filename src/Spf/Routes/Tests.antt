-- ===== src/Spf/Routes/Tests.antt =====
-- Dijkstra's algorithm and the routes on concrete graphs.
use mathlib.Core.Option
use olsr_go.Base.{
  ℕ, ◌≡◌, ◌≢◌, refl, true, false, some, [], ◌∷◌, Text, codes, text_eq, text_beq, ◌==◌, ok,
}
use olsr_go.Base.Int.{ℤ, pos}
use olsr_go.Base.Map.{GoMap, lookup, insert, Entries}
use olsr_go.Base.Nested.{IsNested}
use olsr_go.Base.Changes.{replay}
use olsr_go.Neighbor.Mpr.{is_some}
use olsr_go.Topology.{new_topology_manager}
use olsr_go.Hna.{new_hna_manager}
use olsr_go.Spf.{Route, Graph, build_adjacency_list}
use olsr_go.Spf.Laws.{IsTable, forwarding}
use olsr_go.Spf.Tests.{one_neighbor, old_routes, old_routes-IsTable}
use olsr_go.Spf.Heap.{heap_push, heap_pop, up, down}
use olsr_go.Spf.Dijkstra.{Search, run_dijkstra, rounds, visit, relax_all, relax}
use olsr_go.Spf.Dijkstra.Invariant.{Walk, within}
use olsr_go.Spf.Dijkstra.Shortest.{run_dijkstra_shortest}
use olsr_go.Spf.Routes.{LocalRouterLookup, host_prefix, host_routes, SpfEvents, calculate_routes}
use olsr_go.Spf.Routes.Hosts.{IsHostRoute, host_routes_shortest}
use olsr_go.Net.{Ip}
use olsr_go.Spf.Routes.Calculate.{
  build_adjacency_list-IsNested, build_adjacency_list_positive, calculate_routes_returns,
}

-- The way from `s` to `t` through `b` is shorter than the direct one.
abbrev detour : Graph
detour = (codes "s", (codes "t", 9) ∷ (codes "b", 2) ∷ []) ∷ (codes "b", (codes "t", 3) ∷ []) ∷ []

detour_distances :
    Option.map (λ (t : Search). t.dist) (run_dijkstra (codes "s") detour)
    ≡ some ((codes "s", 0) ∷ (codes "t", 5) ∷ (codes "b", 2) ∷ [])
unfolding run_dijkstra rounds visit relax_all relax lookup insert text_beq heap_push heap_pop up
    down
detour_distances = refl

detour-IsNested : IsNested detour
unfolding lookup text_beq
detour-IsNested = ((refl, (refl, tt)), ((refl, (refl, tt)), ((refl, tt), tt)))

dijkstra_example :
    (t : Search) × (run_dijkstra (codes "s") detour ≡ some t)
    × ((v : Text) (x : ℕ) → lookup v t.dist ≡ some x → Walk (codes "s") detour v x)
    × ((v : Text) (w : ℕ) → Walk (codes "s") detour v w → within w (lookup v t.dist) ≡ true)
dijkstra_example = run_dijkstra_shortest (codes "s") detour detour-IsNested

abbrev router : LocalRouterLookup
router = record { router_id = codes "r"; iface_index_lookup = some (λ ip. pos 4) }

abbrev small : Graph
small = build_adjacency_list (pos 10) (codes "r") one_neighbor new_topology_manager

host_routes_example :
    (t : Search) × (run_dijkstra (codes "r") small ≡ some t)
    × (routes : GoMap Text Route) × (host_routes router t.prev t.dist [] ≡ ok routes)
    × Entries (λ p r. IsHostRoute router small p r) routes
    × ((node : Text) (w : ℕ)
        → (codes "r" == node) ≡ false
        → Walk (codes "r") small node w
        → is_some (lookup (host_prefix node) routes) ≡ true)
host_routes_example =
    host_routes_shortest router small
      (build_adjacency_list-IsNested (pos 10) (codes "r") one_neighbor new_topology_manager)
      (build_adjacency_list_positive (pos 10) (codes "r") one_neighbor new_topology_manager)

router_is_named : codes "r" ≢ []
router_is_named h = cc

calculate_example :
    (routes : GoMap Text Route) × (events : SpfEvents) × (calculate_routes router
        (pos 10)
        one_neighbor
        new_topology_manager
        new_hna_manager
        old_routes
      ≡ ok (routes, events))
    × IsTable routes
    × ((k : Text)
        → Option.map forwarding (lookup k (replay (λ r. r.prefix) events.route_changes old_routes))
          ≡ Option.map forwarding (lookup k routes))
calculate_example =
    calculate_routes_returns router (pos 10) one_neighbor new_topology_manager new_hna_manager
      old_routes old_routes router_is_named old_routes-IsTable (λ k. refl)

-- Two networks that overlap, and a host outside of them.
abbrev overlapping : GoMap Text Route
overlapping =
    (
      codes "10.0.0.0/8",
      record {
        prefix = codes "10.0.0.0/8";
        next_hop = codes "192.168.0.1";
        metric = 3;
        iface_index = pos 1;
      },
    )
    ∷ (
      codes "10.1.0.0/16",
      record {
        prefix = codes "10.1.0.0/16";
        next_hop = codes "192.168.0.2";
        metric = 5;
        iface_index = pos 2;
      },
    )
    ∷ []

-- The next hop that the longer prefix gives.
abbrev by_second : Text × ℤ
by_second = (codes "192.168.0.2", pos 2)

abbrev inside : Ip
inside = 0 ∷ 0 ∷ 0 ∷ 0 ∷ 0 ∷ 0 ∷ 0 ∷ 0 ∷ 0 ∷ 0 ∷ 255 ∷ 255 ∷ 10 ∷ 1 ∷ 2 ∷ 3 ∷ []
