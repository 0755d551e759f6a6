-- ===== src/Daemon/Send.antt =====
-- cmd/olsrd/daemon.go: sendHello, sendTC, sendHNA and broadcastPacket.
use olsr_go.Base.{
  ℕ, ◌+◌, ◌*◌, ◌%◌, Option, none, some, List, [], ◌∷◌, ◌++◌, map, if◌then◌else◌, Text, Outcome, ok,
  err, panic, out_of_fuel, ◌>>=◌,
}
use olsr_go.Base.Int.{pos}
use olsr_go.Net.{Ip, Time, Duration, to4}
use olsr_go.Net.Cidr.{IpNet}
use olsr_go.Net.Parse.{parse_ip}
use olsr_go.Packet.{
  will_default, PacketHeader, MessageHeader, HelloLinkMessage, HelloMessage, HnaAssociation, Body,
  Packet,
}
use olsr_go.Packet.LinkType
use olsr_go.Packet.NeighType
use olsr_go.Packet.MsgType
use olsr_go.Packet.TimeVal.{Float64}
use olsr_go.Packet.Serialize.{serialize_packet}
use olsr_go.Neighbor.{LinkState, asymmetric, symmetric, lost, LinkTuple}
use olsr_go.Neighbor.Ops.{state_beq}
use olsr_go.Neighbor.Aging.{get_links, get_mpr_selectors}
use olsr_go.Hna.{get_local_hnas}
use olsr_go.Config.{Config, get}
use olsr_go.Daemon.{Daemon, Network, Datagram, Result, unchanged}

-- net.ParseIP, whose failure is a nil IP.
abbrev pub parse_or_nil : Text → Ip
parse_or_nil s = elim (parse_ip s) [ none ↦ [] | some ip ↦ ip ]

-- The addresses of the links in one state: symAddrs, asymAddrs or lostAddrs of the loop.
unfoldable pub addresses_in : LinkState → List LinkTuple → List Ip
addresses_in state [] = []
addresses_in state (l ∷ ls) = elim (parse_ip l.neighbor_ip) [
  | none ↦ addresses_in state ls
  | some ip ↦ (if state_beq l.state state then ip ∷ [] else []) ++ addresses_in state ls
]

-- A link message, where there are addresses for it.
abbrev pub link_message : ℕ → List Ip → List HelloLinkMessage
link_message code [] = []
link_message code (ip ∷ ips) = record { link_code = code; neighbor_addresses = ip ∷ ips } ∷ []

-- The link codes are written as a link type and four times a neighbour type.
unfoldable pub hello_link_messages : List LinkTuple → List HelloLinkMessage
unfolding addresses_in
hello_link_messages links =
    link_message (LinkType.symmetric + 4 * NeighType.symmetric) (addresses_in symmetric links)
    ++ (link_message (LinkType.asym + 4 * NeighType.not_neigh) (addresses_in asymmetric links)
        ++ link_message (LinkType.lost + 4 * NeighType.not_neigh) (addresses_in lost links))

-- The first address that is an IPv4 address.
unfoldable pub first_ipv4 : List Ip → Option Ip
first_ipv4 [] = none
first_ipv4 (ip ∷ ips) = elim (to4 ip) [ none ↦ first_ipv4 ips | some ip4 ↦ some ip ]

abbrev pub send_from : Network → List ℕ → Option Ip → List Datagram
send_from net bytes none = []
send_from net bytes (some ip) =
    if net.dials ip then record { local_ip = ip; payload = bytes } ∷ [] else []

-- The loop over the configured interfaces.
unfoldable pub send_on : Network → List ℕ → List Text → List Datagram
unfolding first_ipv4
send_on net bytes [] = []
send_on net bytes (iface ∷ ifaces) =
    send_from net bytes (first_ipv4 (net.addresses iface)) ++ send_on net bytes ifaces

-- d.packetSeq++ and d.messageSeq++
abbrev pub next_seqs : Daemon → Daemon
next_seqs d = record d {
  packet_seq = (d.packet_seq + 1) % 65536;
  message_seq = (d.message_seq + 1) % 65536;
}

-- The packet with one message of the daemon's own.
abbrev pub own_packet : Daemon → ℕ → Duration → ℕ → Body → Packet
own_packet d msg_type vtime ttl body =
    let header : MessageHeader = record {
      msg_type = msg_type;
      vtime = vtime;
      originator_address = parse_or_nil (get d.cfg_mgr).router_id;
      ttl = ttl;
      hop_count = 0;
      seq_num = d.message_seq;
    } in
    let packet_header : PacketHeader = record {
      packet_length = 0;
      packet_seq_num = d.packet_seq;
    } in
    record { header = packet_header; messages = record { header = header; body = body } ∷ [] }

unfoldable pub hello_message : Daemon → HelloMessage
unfolding hello_link_messages
hello_message d = record {
  htime = (get d.cfg_mgr).hello_interval;
  willingness = will_default;
  link_messages = hello_link_messages (get_links d.neigh_mgr);
}

unfoldable pub hello_packet : Daemon → Packet
unfolding hello_message
hello_packet d = own_packet d MsgType.hello (pos 6_000_000_000) 1 (Body.hello (hello_message d))

abbrev pub association : IpNet → HnaAssociation
association hna = record { address = hna.ip; netmask = hna }

module _ (F : Float64) (net : Network) where
  -- A packet that cannot be serialized is dropped.
  unfoldable pub broadcast_packet : Config → Packet → Outcome (List Datagram)
  unfolding send_on
  broadcast_packet cfg pkt = elim (serialize_packet F pkt) [
    | ok bytes ↦ ok (send_on net bytes cfg.interfaces)
    | err e ↦ ok []
    | panic ↦ panic
    | out_of_fuel ↦ out_of_fuel
  ]

  unfoldable pub send : Daemon → Packet → Outcome Result
  unfolding broadcast_packet
  send d pkt = broadcast_packet (get d.cfg_mgr) pkt >>= λ sent.
      ok (record { daemon = next_seqs d; events = []; sent = sent })

  unfoldable pub send_hello : Daemon → Outcome Result
  unfolding send hello_packet
  send_hello d = send d (hello_packet d)

  -- The TC with the selectors, if there are some.
  unfoldable pub send_selectors : Daemon → List Text → Outcome Result
  unfolding send
  send_selectors d [] = ok (unchanged d)
  send_selectors d (sel ∷ sels) = send d (
      own_packet d MsgType.tc (pos 15_000_000_000) 255 (
        Body.tc
          (record { ansn = d.message_seq; neighbor_addresses = map parse_or_nil (sel ∷ sels) })))

  unfoldable pub send_tc : Time → Daemon → Outcome Result
  unfolding send_selectors
  send_tc now d = send_selectors d (get_mpr_selectors now d.neigh_mgr)

  -- The HNA message with the local networks, if there are some.
  unfoldable pub send_networks : Daemon → List IpNet → Outcome Result
  unfolding send
  send_networks d [] = ok (unchanged d)
  send_networks d (hna ∷ hnas) = send d (
      own_packet d MsgType.hna (pos 15_000_000_000) 255
        (Body.hna (record { associations = map association (hna ∷ hnas) })))

  unfoldable pub send_hna : Daemon → Outcome Result
  unfolding send_networks
  send_hna d = send_networks d (get_local_hnas d.hna_mgr)
