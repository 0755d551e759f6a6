-- ===== src/Spf/Routes.antt =====
-- internal/olsr/spf.go: CalculateRoutes and the next hops.
pub mod NextHop
pub mod Hosts
pub mod Calculate
pub mod Lookup
pub mod Tests
use olsr_go.Base.{
  ℕ, zero, suc, ◌+◌, Bool, true, false, Option, none, some, List, [], ◌∷◌, ◌++◌, ltb, if◌then◌else◌,
  Text, codes, text_eq, ◌==◌, length, Outcome, ok, err, out_of_fuel, ◌>>=◌, no_router_id,
}
use olsr_go.Base.Int.{ℤ, pos}
use olsr_go.Base.Map.{GoMap, lookup, insert}
use olsr_go.Base.Changes.{Change}
use olsr_go.Net.{Time}
use olsr_go.Net.Cidr.{cidr}
use olsr_go.Neighbor.{NeighborManager}
use olsr_go.Topology.{TopologyManager}
use olsr_go.Hna.{HnaEntry, HnaManager, get_hna_entries}
use olsr_go.Spf.{Route, Graph, build_adjacency_list, diff_and_publish_routes}
use olsr_go.Spf.Dijkstra.{Search, run_dijkstra}

-- `none` is a nil function.
pub record LocalRouterLookup : Type 0 where
  pub router_id : Text
  pub iface_index_lookup : Option (Text → ℤ)

abbrev pub get_iface_index : LocalRouterLookup → Text → ℤ
get_iface_index l ip = elim l.iface_index_lookup [ none ↦ pos 0 | some f ↦ f ip ]

-- What the loop of resolveNextHop comes to: the next hop, or a node without a parent.
pub data Resolved : Type 0 where
  hop : Text → Resolved
  no_hop : Resolved
  unresolved : Resolved

-- `unresolved` is fuel run out.
unfoldable pub resolve_next_hop : ℕ → Text → GoMap Text Text → Text → Resolved
resolve_next_hop zero curr prev local_id = unresolved
resolve_next_hop (suc fuel) curr prev local_id = elim (lookup curr prev) [
  | none ↦ no_hop
  | some parent ↦
      (let rest = resolve_next_hop fuel parent prev local_id in
        if parent == local_id then hop curr else rest)
]

-- A route through the next hop that was found; without one the table stays.
abbrev pub install_route :
    LocalRouterLookup → Text → ℕ → Resolved → GoMap Text Route → Outcome (GoMap Text Route)
install_route router prefix metric (hop next) routes = ok (
    insert prefix
      (record {
        prefix = prefix;
        next_hop = next;
        metric = metric;
        iface_index = get_iface_index router next;
      })
      routes)
install_route router prefix metric no_hop routes = ok routes
install_route router prefix metric unresolved routes = out_of_fuel

abbrev pub host_prefix : Text → Text
host_prefix node = node ++ codes "/32"

-- The loop over the distances. A node at distance d is at most d edges away.
unfoldable pub host_routes :
    LocalRouterLookup
    → GoMap Text Text
    → GoMap Text ℕ
    → GoMap Text Route
    → Outcome (GoMap Text Route)
host_routes router prev [] routes = ok routes
host_routes router prev ((node, d) ∷ rest) routes =
    if node == router.router_id
    then host_routes router prev rest routes
    else install_route router (host_prefix node) d
        (resolve_next_hop (suc d) node prev router.router_id) routes
      >>= λ more. host_routes router prev rest more

-- !ok || gwDist < existing.Metric
abbrev pub is_better : ℕ → Option Route → Bool
is_better d none = true
is_better d (some existing) = ltb d existing.metric

-- The body of the loop over the HNA entries, for a gateway at a known distance.
abbrev pub add_hna_route :
    LocalRouterLookup → Text → ℕ → Resolved → GoMap Text Route → Outcome (GoMap Text Route)
add_hna_route router prefix d (hop next) routes =
    if is_better d (lookup prefix routes)
    then install_route router prefix (d + 1) (hop next) routes
    else ok routes
add_hna_route router prefix d no_hop routes = ok routes
add_hna_route router prefix d unresolved routes = out_of_fuel

unfoldable pub hna_routes :
    LocalRouterLookup → Search → List HnaEntry → GoMap Text Route → Outcome (GoMap Text Route)
hna_routes router s [] routes = ok routes
hna_routes router s (entry ∷ entries) routes =
    (if entry.is_local then ok routes else elim (lookup entry.gateway_ip s.dist) [
      | none ↦ ok routes
      | some d ↦
          add_hna_route router (cidr entry.network) d
            (resolve_next_hop (suc d) entry.gateway_ip s.prev router.router_id) routes
    ])
    >>= λ more. hna_routes router s entries more

-- The events of a run: the changes of the routes, and the number of routes in the event of the run
-- (the duration that stands beside it is not shown).
pub record SpfEvents : Type 0 where
  pub route_changes : List (Change Route)
  pub route_count : ℕ

abbrev pub or_out_of_fuel : {A : Type 0} → Option A → Outcome A
or_out_of_fuel none = out_of_fuel
or_out_of_fuel (some a) = ok a

-- The new active routes and the events; `active` are the old ones.
unfoldable pub calculate_routes :
    LocalRouterLookup
    → Time
    → NeighborManager
    → TopologyManager
    → HnaManager
    → GoMap Text Route
    → Outcome (GoMap Text Route × SpfEvents)
calculate_routes router now nm tm hm active =
    if router.router_id == [] then err no_router_id else do
      s ←
          or_out_of_fuel
            (run_dijkstra router.router_id (build_adjacency_list now router.router_id nm tm))
      hosts ← host_routes router s.prev s.dist []
      new_routes ← hna_routes router s (get_hna_entries hm) hosts
      ok (
        new_routes,
        record {
          route_changes = diff_and_publish_routes active new_routes;
          route_count = length new_routes;
        },
      )
