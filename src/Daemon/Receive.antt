-- ===== src/Daemon/Receive.antt =====
-- cmd/olsrd/daemon.go: processReceivedData, the handlers of the message types, shouldForwardMessage
-- and performAging.
use olsr_go.Base.{
  ℕ, suc, ◌+◌, ◌%◌, Bool, true, false, ◌||◌, List, [], ◌∷◌, ◌++◌, leb, nat_beq, if◌then◌else◌, Text,
  text_eq, ◌==◌, Outcome, ok, err, panic, out_of_fuel, ◌>>=◌,
}
use olsr_go.EventBus.{Event}
use olsr_go.Net.{Ip, Time, ip_string}
use olsr_go.Packet.{PacketHeader, Body, Message, Packet}
use olsr_go.Packet.MsgType
use olsr_go.Packet.TimeVal.{Float64}
use olsr_go.Packet.Deserialize.{deserialize_packet}
use olsr_go.Neighbor.Ops.{process_hello}
use olsr_go.Neighbor.Aging
use olsr_go.Neighbor.Aging.{get_mpr_selectors}
use olsr_go.Topology
use olsr_go.Topology.{is_duplicate, process_tc, process_mid}
use olsr_go.Topology.Laws.{member}
use olsr_go.Hna
use olsr_go.Hna.{process_hna}
use olsr_go.Molsr
use olsr_go.Molsr.{process_source_claim, process_confirm_parent}
use olsr_go.Config.{get}
use olsr_go.Daemon.{Daemon, Network, Datagram, Result, unchanged, Readings}
use olsr_go.Daemon.Send.{broadcast_packet}

-- A new state with the events published on the way to it.
abbrev pub published : Daemon → List (Event Text) → Result
published d events = record { daemon = d; events = events; sent = [] }

-- The handlers. Each takes the message's body if it is of the handler's type.
unfoldable pub handle_hello : Readings → Ip → Message → Daemon → Result
handle_hello r raddr msg d = elim msg.body [
  | Body.hello hello ↦
      (let (nm, events) =
          process_hello r.handled r.recalculated raddr msg.header.originator_address hello
            msg.header.vtime d.neigh_mgr in
        published (record d { neigh_mgr = nm }) events)
  | _ ↦ unchanged d
]

unfoldable pub handle_tc : Readings → Message → Daemon → Result
handle_tc r msg d = elim msg.body [
  | Body.tc tc ↦
      (let (tm, events) =
          process_tc r.handled msg.header.originator_address tc msg.header.vtime d.topo_mgr in
        published (record d { topo_mgr = tm }) events)
  | _ ↦ unchanged d
]

unfoldable pub handle_mid : Message → Daemon → Result
handle_mid msg d = elim msg.body [
  | Body.mid mid ↦
      (let (tm, events) = process_mid msg.header.originator_address mid d.topo_mgr in
        published (record d { topo_mgr = tm }) events)
  | _ ↦ unchanged d
]

unfoldable pub handle_hna : Readings → Message → Daemon → Result
handle_hna r msg d = elim msg.body [
  | Body.hna hna ↦
      (let (hm, events) =
          process_hna r.handled msg.header.originator_address hna msg.header.vtime d.hna_mgr in
        published (record d { hna_mgr = hm }) events)
  | _ ↦ unchanged d
]

unfoldable pub handle_source_claim : Readings → Message → Daemon → Result
handle_source_claim r msg d = elim msg.body [
  | Body.source_claim sc ↦
      (let (mm, events) =
          process_source_claim r.handled msg.header.originator_address sc msg.header.vtime
            d.molsr_mgr in
        published (record d { molsr_mgr = mm }) events)
  | _ ↦ unchanged d
]

unfoldable pub handle_confirm_parent : Readings → Message → Daemon → Result
handle_confirm_parent r msg d = elim msg.body [
  | Body.confirm_parent cp ↦
      (let (mm, events) =
          process_confirm_parent r.handled msg.header.originator_address cp msg.header.vtime
            d.molsr_mgr in
        published (record d { molsr_mgr = mm }) events)
  | _ ↦ unchanged d
]

-- switch msg.Header.Type
unfoldable pub handle_message : Readings → Ip → Message → Daemon → Result
handle_message r raddr msg d =
    let t = msg.header.msg_type in
    if nat_beq t MsgType.hello
    then handle_hello r raddr msg d
    else if nat_beq t MsgType.tc
    then handle_tc r msg d
    else if nat_beq t MsgType.mid
    then handle_mid msg d
    else if nat_beq t MsgType.hna
    then handle_hna r msg d
    else if nat_beq t MsgType.source_claim
    then handle_source_claim r msg d
    else if nat_beq t MsgType.confirm_parent
    then handle_confirm_parent r msg d
    else unchanged d

unfoldable pub should_forward_message : Time → Ip → Message → Daemon → Bool
should_forward_message now raddr msg d =
    let t = msg.header.msg_type in
    if leb msg.header.ttl 1 || nat_beq t MsgType.hello || nat_beq t MsgType.confirm_parent
    then false
    else if nat_beq t MsgType.source_claim
    then true
    else member (ip_string raddr) (get_mpr_selectors now d.neigh_mgr)

-- TTL-- and HopCount++ on a copy; both are uint8s.
unfoldable pub forwarded_message : Message → Message
forwarded_message msg = record msg {
  header = record msg.header {
    ttl = (msg.header.ttl + 255) % 256;
    hop_count = (msg.header.hop_count + 1) % 256;
  };
}

abbrev pub is_own : Message → Daemon → Bool
is_own msg d = ip_string msg.header.originator_address == (get d.cfg_mgr).router_id

-- The message is its own, or a live duplicate record of it is there; the state has the record.
abbrev pub checked_duplicate : Readings → Message → Daemon → Daemon × Bool
checked_duplicate r msg d =
    let (tm, seen) =
      is_duplicate r.checked msg.header.originator_address msg.header.seq_num msg.header.vtime
        d.topo_mgr in
    (record d { topo_mgr = tm }, seen)

module _ (F : Float64) (net : Network) where
  unfoldable pub forward : Readings → PacketHeader → Ip → Message → Daemon → Outcome (List Datagram)
  unfolding should_forward_message forwarded_message
  forward r header raddr msg d =
      if should_forward_message r.selected raddr msg d
      then broadcast_packet F net (get d.cfg_mgr)
          (record { header = header; messages = forwarded_message msg ∷ [] })
      else ok []

  -- The message was not seen before: it is handled, then forwarded from the state that this leaves.
  unfoldable pub handle_new : Readings → PacketHeader → Ip → Message → Daemon → Outcome Result
  unfolding handle_message forward
  handle_new r header raddr msg d =
      let handled = handle_message r raddr msg d in
      forward r header raddr msg handled.daemon >>= λ sent. ok (record handled { sent = sent })

  -- The body of the loop over the messages.
  unfoldable pub process_message : Readings → PacketHeader → Ip → Message → Daemon → Outcome Result
  unfolding handle_new
  process_message r header raddr msg d =
      if is_own msg d
      then ok (unchanged d)
      else let (checked, seen) = checked_duplicate r msg d in
        if seen then ok (unchanged checked) else handle_new r header raddr msg checked

  -- `clock` has the readings for each message in turn.
  unfoldable pub process_messages :
      (ℕ → Readings) → ℕ → PacketHeader → Ip → List Message → Daemon → Outcome Result
  unfolding process_message
  process_messages clock n header raddr [] d = ok (unchanged d)
  process_messages clock n header raddr (msg ∷ msgs) d =
      process_message (clock n) header raddr msg d >>= λ first.
      process_messages clock (suc n) header raddr msgs first.daemon >>= λ rest.
      ok (record rest { events = first.events ++ rest.events; sent = first.sent ++ rest.sent })

  -- Data that does not parse is dropped.
  abbrev pub process_parsed : (ℕ → Readings) → Ip → Daemon → Outcome Packet → Outcome Result
  process_parsed clock raddr d (ok pkt) = process_messages clock 0 pkt.header raddr pkt.messages d
  process_parsed clock raddr d (err e) = ok (unchanged d)
  process_parsed clock raddr d panic = panic
  process_parsed clock raddr d out_of_fuel = out_of_fuel

  unfoldable pub process_received_data : (ℕ → Readings) → List ℕ → Ip → Daemon → Outcome Result
  process_received_data clock bytes raddr d =
      process_parsed clock raddr d (deserialize_packet F bytes)

-- What time.Now() returns to each manager in turn, and to recalculateMPRs.
pub record AgingReadings : Type 0 where
  pub neigh_time : Time
  pub mpr_time : Time
  pub topo_time : Time
  pub hna_time : Time
  pub molsr_time : Time

unfoldable pub perform_aging : AgingReadings → Daemon → Result
perform_aging r d =
    let (nm, neigh_events, neigh_changed) = Aging.age_out r.neigh_time r.mpr_time d.neigh_mgr in
    let (tm, topo_events, topo_changed) = Topology.age_out r.topo_time d.topo_mgr in
    let (hm, hna_events, hna_changed) = Hna.age_out r.hna_time d.hna_mgr in
    let (mm, molsr_events, molsr_changed) = Molsr.age_out r.molsr_time d.molsr_mgr in
    published (record d { neigh_mgr = nm; topo_mgr = tm; hna_mgr = hm; molsr_mgr = mm })
      (neigh_events ++ (topo_events ++ (hna_events ++ molsr_events)))
