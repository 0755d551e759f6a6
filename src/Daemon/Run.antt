-- ===== src/Daemon/Run.antt =====
-- cmd/olsrd/daemon.go: the daemon from its start on, as the sequence of what it does.
use olsr_go.Base.{ℕ, true, some, List, [], ◌∷◌, text_eq, Outcome, ok, ◌>>=◌}
use olsr_go.Net.{Ip, Time}
use olsr_go.Packet.TimeVal.{Float64}
use olsr_go.Neighbor.{new_neighbor_manager}
use olsr_go.Topology.{new_topology_manager}
use olsr_go.Hna.{new_hna_manager}
use olsr_go.Molsr.{new_molsr_manager}
use olsr_go.Spf.Routes.{LocalRouterLookup}
use olsr_go.Config.{Config, File, reload}
use olsr_go.Daemon.{Daemon, Network, Result, unchanged, Readings}
use olsr_go.Daemon.Send.{send_hello, send_tc, send_hna}
use olsr_go.Daemon.Receive.{process_received_data, AgingReadings, perform_aging}
use olsr_go.Daemon.Install.{run_spf}

-- initializeComponents, after a configuration was loaded.
abbrev pub new_daemon : Config → Daemon
new_daemon cfg = record {
  cfg_mgr = some cfg;
  neigh_mgr = new_neighbor_manager cfg.router_id;
  topo_mgr = new_topology_manager;
  hna_mgr = new_hna_manager;
  molsr_mgr = record (new_molsr_manager cfg.router_id) { has_iface_index_lookup = true };
  active_routes = [];
  standalone = cfg.standalone;
  packet_seq = 0;
  message_seq = 0;
}

-- What the loops of the daemon react to: the tickers of run, a received packet, an event of the
-- managers in topologyUpdateLoop, and SIGHUP.
pub data Input : Type 0 where
  hello_tick hna_tick : Input
  tc_tick : Time → Input
  aging_tick : AgingReadings → Input
  received : (ℕ → Readings) → List ℕ → Ip → Input
  update : LocalRouterLookup → Time → Input
  hangup : File → Input

module _ (F : Float64) (net : Network) where
  abbrev pub react : Input → Daemon → Outcome Result
  react hello_tick d = send_hello F net d
  react hna_tick d = send_hna F net d
  react (tc_tick now) d = send_tc F net now d
  react (aging_tick r) d = ok (perform_aging r d)
  react (received clock bytes raddr) d = process_received_data F net clock bytes raddr d
  react (update router now) d =
      run_spf router now d >>= λ out. ok (record { daemon = out.daemon; events = []; sent = [] })
  react (hangup file) d = ok (unchanged (record d { cfg_mgr = (reload file d.cfg_mgr).0 }))

  -- The daemon after a sequence of inputs; a panic ends it.
  unfoldable pub run : List Input → Daemon → Outcome Daemon
  run [] d = ok d
  run (input ∷ inputs) d = react input d >>= λ res. run inputs res.daemon
