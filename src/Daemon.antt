-- ===== src/Daemon.antt =====
-- cmd/olsrd/daemon.go: the state of the daemon, and what its sockets and clock give it.
pub mod Send
pub mod Receive
pub mod Install
pub mod Interfaces
pub mod Hello
pub mod Once
pub mod Forward
pub mod Run
pub mod Sound
pub mod Survives
pub mod Tests
use olsr_go.Base.{ℕ, Bool, List, [], Text}
use olsr_go.Base.Map.{GoMap}
use olsr_go.EventBus.{Event}
use olsr_go.Net.{Ip, Time}
use olsr_go.Neighbor.{NeighborManager}
use olsr_go.Topology.{TopologyManager}
use olsr_go.Hna.{HnaManager}
use olsr_go.Molsr.{MolsrManager}
use olsr_go.Spf.{Route}
use olsr_go.Config.{Manager}

-- The managers, the active routes of the SPF engine, and the sequence numbers, which are uint16s.
pub record Daemon : Type 0 where
  pub cfg_mgr : Manager
  pub neigh_mgr : NeighborManager
  pub topo_mgr : TopologyManager
  pub hna_mgr : HnaManager
  pub molsr_mgr : MolsrManager
  pub active_routes : GoMap Text Route
  pub standalone : Bool
  pub packet_seq : ℕ
  pub message_seq : ℕ

-- The machine's interfaces: net.InterfaceByName with Addrs (the IPs of an interface, none where a
-- call fails), and whether net.DialUDP succeeds from an address.
pub record Network : Type 0 where
  pub addresses : Text → List Ip
  pub dials : Ip → Bool

-- What is written to 224.0.0.9, port 698, from a local address.
pub record Datagram : Type 0 where
  pub local_ip : Ip
  pub payload : List ℕ

-- What a call leaves: the new state, the events published and the datagrams sent, in order.
pub record Result : Type 0 where
  pub daemon : Daemon
  pub events : List (Event Text)
  pub sent : List Datagram

abbrev pub unchanged : Daemon → Result
unchanged d = record { daemon = d; events = []; sent = [] }

-- What time.Now() returns in turn while one message is handled: in IsDuplicate, in the handler, in
-- recalculateMPRs and in GetMPRSelectors.
pub record Readings : Type 0 where
  pub checked : Time
  pub handled : Time
  pub recalculated : Time
  pub selected : Time
