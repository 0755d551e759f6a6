-- ===== src/Daemon/Tests.antt =====
-- cmd/olsrd/daemon.go: two nodes, 10.0.0.1 and 10.0.0.2, and the theorems at their messages.
use mathlib.Core.Logic.{◌↔◌}
use olsr_go.Net.{to4}
use olsr_go.Base.{panic}
use olsr_go.Daemon.Install.{InterfaceInfo, find_outgoing_interface}
use olsr_go.Daemon.Interfaces.{any_ipv4, find_outgoing_interface_panics}
use olsr_go.Base.{
  ℕ, ◌≡◌, ◌<◌, refl, Bool, true, false, Option, none, some, List, [], ◌∷◌, arith, Text, text_eq,
  codes, Outcome, ok, inl, inr, ◌⊎◌, length,
}
use olsr_go.Base.Int.{pos, ◌+ℤ◌}
use olsr_go.Base.Map.{lookup}
use olsr_go.Net.{Ip, ip_string}
use olsr_go.Net.Parse.{parse_ip}
use olsr_go.Packet.{PacketHeader, MessageHeader, HelloMessage, Body, Message}
use olsr_go.Packet.MsgType
use olsr_go.Packet.Tests.{exact}
use olsr_go.Neighbor.{NeighborManager, new_neighbor_manager}
use olsr_go.Neighbor.Ops.{process_hello}
use olsr_go.Topology.{new_topology_manager}
use olsr_go.Hna.{new_hna_manager}
use olsr_go.Molsr.{new_molsr_manager}
use olsr_go.Config.{Config, default_config}
use olsr_go.Daemon.{Daemon, Network, Result, unchanged, Readings}
use olsr_go.Daemon.Send.{hello_message}
use olsr_go.Daemon.Receive.{
  is_own, checked_duplicate, handle_message, forward, handle_new, process_message,
  should_forward_message, forwarded_message,
}
use olsr_go.Daemon.Receive.{process_received_data, AgingReadings}
use olsr_go.Daemon.Run.{new_daemon, Input, aging_tick, received, tc_tick, run}
use olsr_go.Daemon.Hello.{hello_message_selects_none}
use olsr_go.Daemon.Once.{process_message_once}
use olsr_go.Daemon.Forward.{Hop, relays, after_hops, relays_bounded}

abbrev ip1 : Ip
ip1 = 10 ∷ 0 ∷ 0 ∷ 1 ∷ []

abbrev ip2 : Ip
ip2 = 10 ∷ 0 ∷ 0 ∷ 2 ∷ []

-- net.ParseIP gives IPv4 addresses in 16 bytes.
abbrev ip2_long : Ip
ip2_long = 0 ∷ 0 ∷ 0 ∷ 0 ∷ 0 ∷ 0 ∷ 0 ∷ 0 ∷ 0 ∷ 0 ∷ 255 ∷ 255 ∷ ip2

abbrev config1 : Config
config1 = record default_config {
  router_id = codes "10.0.0.1";
  interfaces = codes "wlan0" ∷ [];
  hello_interval = pos 2_000_000_000;
}

abbrev node1 : Daemon
node1 = record {
  cfg_mgr = some config1;
  neigh_mgr = new_neighbor_manager (codes "10.0.0.1");
  topo_mgr = new_topology_manager;
  hna_mgr = new_hna_manager;
  molsr_mgr = new_molsr_manager (codes "10.0.0.1");
  active_routes = [];
  standalone = true;
  packet_seq = 0;
  message_seq = 0;
}

abbrev neigh2 : NeighborManager
neigh2 = new_neighbor_manager (codes "10.0.0.2")

abbrev first_hello : HelloMessage
first_hello = record { htime = pos 2_000_000_000; willingness = 3; link_messages = [] }

selects_none_example :
    (process_hello
      (pos 9)
      (pos 9)
      ip1
      ip1
      (hello_message node1)
      (pos 6_000_000_000)
      neigh2).0.mpr_selectors
    ≡ neigh2.mpr_selectors
selects_none_example =
    hello_message_selects_none node1 (pos 9) (pos 9) ip1 ip1 (pos 6_000_000_000) neigh2

abbrev header_of : ℕ → Ip → MessageHeader
header_of msg_type originator = record {
  msg_type = msg_type;
  vtime = pos 6_000_000_000;
  originator_address = originator;
  ttl = 3;
  hop_count = 0;
  seq_num = 7;
}

abbrev hello_of_2 : Message
hello_of_2 = record { header = header_of MsgType.hello ip2; body = Body.hello first_hello }

-- The same originator and number, with another body.
abbrev claim_of_2 : Message
claim_of_2 = record {
  header = header_of MsgType.source_claim ip2;
  body = Body.source_claim (record { source_ip = ip2; group_id = 239 ∷ 0 ∷ 0 ∷ 1 ∷ [] });
}

abbrev packet_header : PacketHeader
packet_header = record { packet_length = 20; packet_seq_num = 1 }

abbrev at_time : ℕ → Readings
at_time t = record { checked = pos t; handled = pos t; recalculated = pos t; selected = pos t }

abbrev no_network : Network
no_network = record { addresses = λ n. []; dials = λ ip. false }

abbrev after_hello_of_2 : Result
after_hello_of_2 =
    record (handle_message (at_time 5) ip2 hello_of_2
      (checked_duplicate (at_time 5) hello_of_2 node1).0) { sent = [] }

not_own : is_own hello_of_2 node1 ≡ false
unfolding ip_string
not_own = refl

is_new : (checked_duplicate (at_time 5) hello_of_2 node1).1 ≡ false
unfolding olsr_go.Topology.is_duplicate lookup
is_new = refl

handled :
    process_message exact no_network (at_time 5) packet_header ip2 hello_of_2 node1
    ≡ ok after_hello_of_2
unfolding process_message handle_new forward should_forward_message olsr_go.Base.text_beq ip_string
    olsr_go.Topology.is_duplicate lookup
handled = refl

once_example :
    process_message exact no_network
      (at_time 6)
      packet_header
      ip1
      claim_of_2
      after_hello_of_2.daemon
    ≡ ok (unchanged after_hello_of_2.daemon)
unfolding ◌+ℤ◌
once_example =
    process_message_once exact no_network (at_time 5) (at_time 6) packet_header packet_header ip2
      ip1 hello_of_2 claim_of_2 node1 after_hello_of_2 not_own is_new handled refl refl refl

abbrev at_node1 : Hop
at_node1 = record { at_time = pos 5; raddr = ip2; node = node1 }

two_relays : relays (at_node1 ∷ at_node1 ∷ []) claim_of_2 ≡ some (after_hops 2 claim_of_2)
unfolding relays should_forward_message forwarded_message
two_relays = refl

relays_example :
    ((at_node1 ∷ at_node1 ∷ [] ≡ []) ⊎ (length (at_node1 ∷ at_node1 ∷ []) < claim_of_2.header.ttl))
    × (after_hops 2 claim_of_2 ≡ after_hops (length (at_node1 ∷ at_node1 ∷ [])) claim_of_2)
relays_example =
    relays_bounded (at_node1 ∷ at_node1 ∷ []) claim_of_2 (after_hops 2 claim_of_2) (omega arith)
      (omega arith) two_relays

-- A packet with a HELLO of 10.0.0.2 that lists 10.0.0.1.
abbrev hello_bytes : List ℕ
hello_bytes =
    0 ∷ 28 ∷ 0 ∷ 7 ∷ 1 ∷ 2 ∷ 0 ∷ 24 ∷ 10 ∷ 0 ∷ 0 ∷ 2 ∷ 1 ∷ 0 ∷ 1 ∷ 2 ∷ 0 ∷ 0 ∷ 2 ∷ 3 ∷ 6 ∷ 0 ∷ 0 ∷ 8
    ∷ 10 ∷ 0 ∷ 0 ∷ 1 ∷ []

abbrev aging_at : ℕ → AgingReadings
aging_at t = record {
  neigh_time = pos t;
  mpr_time = pos t;
  topo_time = pos t;
  hna_time = pos t;
  molsr_time = pos t;
}

-- The HELLO arrives, the tables are aged, and there is no TC to send.
abbrev some_inputs : List Input
some_inputs = received at_time hello_bytes ip2 ∷ aging_tick (aging_at 7) ∷ tc_tick (pos 8) ∷ []

abbrev or_node1 : Outcome Daemon → Daemon
or_node1 (ok d) = d
or_node1 _ = node1

abbrev last_state : Daemon
last_state = or_node1 (run exact no_network some_inputs (new_daemon config1))

inputs_run : run exact no_network some_inputs (new_daemon config1) ≡ ok last_state
unfolding run process_received_data olsr_go.Packet.Deserialize.deserialize_packet
    olsr_go.Packet.Deserialize.read_uint16 olsr_go.Packet.Bytes.slice
    olsr_go.Packet.Deserialize.read_messages olsr_go.Packet.Deserialize.read_message
    olsr_go.Packet.Bytes.index olsr_go.Packet.Deserialize.deserialize_body
    olsr_go.Packet.Deserialize.deserialize_hello_message olsr_go.Packet.Deserialize.read_links
    olsr_go.Packet.Deserialize.read_link olsr_go.Packet.Deserialize.read_addresses
    olsr_go.Packet.Deserialize.read_ips olsr_go.Daemon.Receive.process_messages
    olsr_go.Base.text_beq ip_string olsr_go.Topology.is_duplicate lookup olsr_go.Base.Map.insert
    process_message handle_new handle_message forward should_forward_message
    olsr_go.Daemon.Receive.handle_hello process_hello olsr_go.Neighbor.Ops.hello_tables
    olsr_go.Neighbor.Ops.hello_changes_state olsr_go.Neighbor.Ops.check_local_symmetric_link
    olsr_go.Neighbor.Ops.check_mpr_selection olsr_go.Neighbor.Ops.lists_ip
    olsr_go.Daemon.Receive.perform_aging olsr_go.Neighbor.Aging.age_out olsr_go.Daemon.Send.send_tc
    olsr_go.Daemon.Send.send_selectors olsr_go.Neighbor.Aging.get_mpr_selectors
    olsr_go.Base.Map.keep olsr_go.Neighbor.Aging.aging_changes olsr_go.Neighbor.Mpr.recalculate_mprs
    olsr_go.Neighbor.Mpr.new_mprs olsr_go.Neighbor.Mpr.uncovered olsr_go.Neighbor.Mpr.build_reach
    olsr_go.Neighbor.Ops.update_two_hop_links olsr_go.Neighbor.Mpr.add_two_hops
    olsr_go.Neighbor.Ops.hello_hops olsr_go.Neighbor.Ops.add_hops
    olsr_go.Packet.TimeVal.decode_time_val olsr_go.Neighbor.Aging.aged
inputs_run = refl

abbrev wlan0 : InterfaceInfo
wlan0 = record { name = codes "wlan0"; ips = codes "10.0.0.1" ∷ [] }

find_panics_example : (find_outgoing_interface config1 (wlan0 ∷ []) (codes "fe80::2") ≡ panic) ↔ (
    (ip : Ip) × ((parse_ip (codes "fe80::2") ≡ some ip)
      × ((to4 ip ≡ none) × (any_ipv4 (wlan0 ∷ []) ≡ true))))
find_panics_example = find_outgoing_interface_panics config1 (wlan0 ∷ []) (codes "fe80::2")
