-- ===== src/Daemon/Install.antt =====
-- cmd/olsrd/daemon.go: runSpf of topologyUpdateLoop, findOutgoingInterface, and what
-- routeInstallationLoop asks of the routers for each event.
use olsr_go.Base.{
  Bool, true, false, Option, none, some, List, [], ◌∷◌, ◌++◌, take, if◌then◌else◌, Text, text_eq,
  ◌==◌, Outcome, ok, err, panic, out_of_fuel, ◌>>=◌,
}
use olsr_go.Base.Map.{GoMap}
use olsr_go.Base.Changes.{Change}
use olsr_go.Net.{Ip, Time, to4}
use olsr_go.Net.Parse.{parse_ip}
use olsr_go.Spf.{Route}
use olsr_go.Spf.Routes.{LocalRouterLookup, SpfEvents, calculate_routes}
use olsr_go.Spf.Routes.Lookup.{get_next_hop_for_dest}
use olsr_go.Molsr.{MulticastForwardingEntry}
use olsr_go.Molsr.Mroutes.{recalculate_mroutes}
use olsr_go.Config.{Config}
use olsr_go.Daemon.{Daemon}

-- netlink.InterfaceInfo, the fields that are used.
pub record InterfaceInfo : Type 0 where
  pub name : Text
  pub ips : List Text

abbrev pub ipv4_of : Text → Option Ip
ipv4_of s = elim (parse_ip s) [ none ↦ none | some ip ↦ to4 ip ]

-- The loop over the addresses of one interface: whether one is in the /24 of the next hop. To4() of an
-- IPv6 next hop is nil, and its bytes are read as soon as an IPv4 address is met.
unfoldable pub shares_prefix : Option Ip → List Text → Outcome Bool
shares_prefix next4 [] = ok false
shares_prefix next4 (s ∷ ss) =
    let rest = shares_prefix next4 ss in
    elim (ipv4_of s) [
      | none ↦ rest
      | some ip4 ↦ elim next4 [
        | none ↦ panic
        | some hop4 ↦ if take 3 ip4 == take 3 hop4 then ok true else rest
      ]
    ]

-- The loop over the interfaces; `none` where no interface matches.
unfoldable pub matching_interface : Option Ip → List InterfaceInfo → Outcome (Option Text)
unfolding shares_prefix
matching_interface next4 [] = ok none
matching_interface next4 (iface ∷ ifaces) =
    let rest = matching_interface next4 ifaces in
    shares_prefix next4 iface.ips >>= λ matches. if matches then ok (some iface.name) else rest

abbrev pub first_interface : List Text → Text
first_interface [] = []
first_interface (n ∷ ns) = n

abbrev pub or_first_interface : Config → Option Text → Text
or_first_interface cfg none = first_interface cfg.interfaces
or_first_interface cfg (some name) = name

-- The interfaces are those of the monitor.
unfoldable pub find_outgoing_interface : Config → List InterfaceInfo → Text → Outcome Text
unfolding matching_interface
find_outgoing_interface cfg ifaces next_hop = elim (parse_ip next_hop) [
  | none ↦ ok []
  | some ip ↦ matching_interface (to4 ip) ifaces >>= λ found. ok (or_first_interface cfg found)
]

-- What the daemon publishes to the routers: the changes of the unicast routes, then those of the
-- multicast ones, and the number of routes.
pub record SpfOutput : Type 0 where
  pub daemon : Daemon
  pub spf_events : List SpfEvents
  pub mroute_changes : List (Change MulticastForwardingEntry)

abbrev pub with_mroutes : List SpfEvents → Daemon → SpfOutput
with_mroutes evs d =
    let (mm, changed) =
      recalculate_mroutes (λ dest. get_next_hop_for_dest dest d.active_routes) d.molsr_mgr in
    record { daemon = record d { molsr_mgr = mm }; spf_events = evs; mroute_changes = changed }

-- An error of CalculateRoutes is logged; the multicast routes are calculated all the same.
abbrev pub after_calculation : Daemon → Outcome (GoMap Text Route × SpfEvents) → Outcome SpfOutput
after_calculation d (ok (routes, ev)) =
    ok (with_mroutes (ev ∷ []) (record d { active_routes = routes }))
after_calculation d (err e) = ok (with_mroutes [] d)
after_calculation d panic = panic
after_calculation d out_of_fuel = out_of_fuel

-- The interface lookup of the engine is one that does not panic.
unfoldable pub run_spf : LocalRouterLookup → Time → Daemon → Outcome SpfOutput
run_spf router now d =
    after_calculation d
      (calculate_routes router now d.neigh_mgr d.topo_mgr d.hna_mgr d.active_routes)

-- The calls of the routers: the kernel's unicast table, the ZAPI client, the kernel's multicast table,
-- and the rules that prevent multicast loops.
pub data Request : Type 0 where
  add_route delete_route add_zapi_route delete_zapi_route : Route → Request
  add_multicast_route delete_multicast_route : MulticastForwardingEntry → Request
  -- the source, the group and the next hop
  add_rule : Text → Text → Text → Request
  delete_rule : Text → Text → Request

-- Which of the routers are not nil.
pub record Routers : Type 0 where
  pub has_zapi : Bool
  pub has_mroute : Bool
  pub has_loop_prevention : Bool

abbrev pub if_present : Bool → Request → List Request
if_present true r = r ∷ []
if_present false r = []

unfoldable pub handle_unicast_add : Routers → Daemon → Route → List Request
handle_unicast_add rs d route =
    if d.standalone then add_route route ∷ [] else if_present rs.has_zapi (add_zapi_route route)

unfoldable pub handle_unicast_delete : Routers → Daemon → Route → List Request
handle_unicast_delete rs d route =
    if d.standalone
    then delete_route route ∷ []
    else if_present rs.has_zapi (delete_zapi_route route)

unfoldable pub handle_multicast_add : Routers → Daemon → MulticastForwardingEntry → List Request
handle_multicast_add rs d entry =
    if_present rs.has_mroute (add_multicast_route entry)
    ++ elim (get_next_hop_for_dest entry.source_ip d.active_routes) [
      | none ↦ []
      | some (next_hop, index) ↦
          if_present rs.has_loop_prevention (add_rule entry.source_ip entry.group_id next_hop)
    ]

unfoldable pub handle_multicast_delete : Routers → MulticastForwardingEntry → List Request
handle_multicast_delete rs entry =
    if_present rs.has_mroute (delete_multicast_route entry)
    ++ if_present rs.has_loop_prevention (delete_rule entry.source_ip entry.group_id)

-- routeInstallationLoop on the events of a change: "add" and "delete", "add_multicast" and
-- "delete_multicast".
unfoldable pub install_unicast : Routers → Daemon → Change Route → List Request
unfolding handle_unicast_add handle_unicast_delete
install_unicast rs d (Change.install route) = handle_unicast_add rs d route
install_unicast rs d (Change.withdraw route) = handle_unicast_delete rs d route

unfoldable pub install_multicast : Routers → Daemon → Change MulticastForwardingEntry → List Request
unfolding handle_multicast_add handle_multicast_delete
install_multicast rs d (Change.install entry) = handle_multicast_add rs d entry
install_multicast rs d (Change.withdraw entry) = handle_multicast_delete rs entry
