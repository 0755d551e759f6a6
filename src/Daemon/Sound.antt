-- ===== src/Daemon/Sound.antt =====
-- cmd/olsrd/daemon.go: the states that the daemon gets to.
use mathlib.Core.Path.{subst}
use olsr_go.Base.{
  no_router_id, ℕ, suc, ◌<◌, ◌≡◌, ◌≢◌, refl, inl, inr, Bool, true, false, List, [], ◌∷◌, ◌++◌,
  arith, Text, text_eq, ◌==◌, if◌then◌else◌, Bool-cases, Outcome, ok, err, panic, out_of_fuel,
  >>=-eq-ok,
}
use olsr_go.Net.{Ip, Time}
use olsr_go.Packet.{Packet, PacketHeader, Body, Message}
use olsr_go.Packet.Deserialize.{deserialize_packet}
use olsr_go.Packet.TimeVal.{Float64}
use olsr_go.Base.Map.{GoMap}
use olsr_go.Neighbor.{NeighborManager}
use olsr_go.Neighbor.Reach.{NeighborReachable}
use olsr_go.Topology.{TopologyManager}
use olsr_go.Topology.Reach.{Reachable}
use olsr_go.Hna.{HnaManager}
use olsr_go.Hna.Reach.{HnaReachable}
use olsr_go.Molsr.{MolsrManager}
use olsr_go.Spf.{Route}
use olsr_go.Spf.Laws.{IsTable}
use olsr_go.Net.Cidr.{IpNet}
use olsr_go.Spf.Routes.{LocalRouterLookup, calculate_routes}
use olsr_go.Spf.Routes.Calculate.{calculate_routes_returns}
use olsr_go.Config.{get, Manager, Config, reload}
use olsr_go.Daemon.{Daemon, Network, Result, unchanged, Readings}
use olsr_go.Daemon.Send.{
  send_selectors, send_networks, broadcast_packet, next_seqs, send, send_hello, send_tc, send_hna,
}
use olsr_go.Daemon.Receive.{
  handle_hello, handle_tc, handle_mid, handle_hna, handle_source_claim, handle_confirm_parent,
  handle_message, handle_new, forward, is_own, checked_duplicate, process_message, process_messages,
  process_parsed, process_received_data, AgingReadings, perform_aging,
}
use olsr_go.Daemon.Install.{SpfOutput, with_mroutes, run_spf}
use olsr_go.Daemon.Run.{
  new_daemon, Input, hello_tick, hna_tick, tc_tick, aging_tick, received, update, hangup, react,
}

-- Every table of the daemon is one that the methods of its manager lead to.
pub record IsSound (d : Daemon) : Type 0 where
  pub neigh_reached : NeighborReachable d.neigh_mgr
  pub topo_reached : Reachable d.topo_mgr
  pub hna_reached : HnaReachable d.hna_mgr
  pub routes_named : IsTable d.active_routes
  pub packet_seq_small : d.packet_seq < 65536
  pub message_seq_small : d.message_seq < 65536

-- One manager after the other may be replaced.
module _ (d : Daemon) (h : IsSound d) where
  neigh_mgr-IsSound :
      (nm : NeighborManager) → NeighborReachable nm → IsSound (record d { neigh_mgr = nm })
  neigh_mgr-IsSound nm reached = record {
    neigh_reached = reached;
    topo_reached = h.topo_reached;
    hna_reached = h.hna_reached;
    routes_named = h.routes_named;
    packet_seq_small = h.packet_seq_small;
    message_seq_small = h.message_seq_small;
  }

  topo_mgr-IsSound : (tm : TopologyManager) → Reachable tm → IsSound (record d { topo_mgr = tm })
  topo_mgr-IsSound tm reached = record {
    neigh_reached = h.neigh_reached;
    topo_reached = reached;
    hna_reached = h.hna_reached;
    routes_named = h.routes_named;
    packet_seq_small = h.packet_seq_small;
    message_seq_small = h.message_seq_small;
  }

  hna_mgr-IsSound : (hm : HnaManager) → HnaReachable hm → IsSound (record d { hna_mgr = hm })
  hna_mgr-IsSound hm reached = record {
    neigh_reached = h.neigh_reached;
    topo_reached = h.topo_reached;
    hna_reached = reached;
    routes_named = h.routes_named;
    packet_seq_small = h.packet_seq_small;
    message_seq_small = h.message_seq_small;
  }

  molsr_mgr-IsSound : (mm : MolsrManager) → IsSound (record d { molsr_mgr = mm })
  molsr_mgr-IsSound mm = record {
    neigh_reached = h.neigh_reached;
    topo_reached = h.topo_reached;
    hna_reached = h.hna_reached;
    routes_named = h.routes_named;
    packet_seq_small = h.packet_seq_small;
    message_seq_small = h.message_seq_small;
  }

  cfg_mgr-IsSound : (cm : Manager) → IsSound (record d { cfg_mgr = cm })
  cfg_mgr-IsSound cm = record {
    neigh_reached = h.neigh_reached;
    topo_reached = h.topo_reached;
    hna_reached = h.hna_reached;
    routes_named = h.routes_named;
    packet_seq_small = h.packet_seq_small;
    message_seq_small = h.message_seq_small;
  }

  active_routes-IsSound :
      (routes : GoMap Text Route) → IsTable routes → IsSound (record d { active_routes = routes })
  active_routes-IsSound routes table = record {
    neigh_reached = h.neigh_reached;
    topo_reached = h.topo_reached;
    hna_reached = h.hna_reached;
    routes_named = table;
    packet_seq_small = h.packet_seq_small;
    message_seq_small = h.message_seq_small;
  }

  next_seqs-IsSound : IsSound (next_seqs d)
  next_seqs-IsSound = record {
    neigh_reached = h.neigh_reached;
    topo_reached = h.topo_reached;
    hna_reached = h.hna_reached;
    routes_named = h.routes_named;
    packet_seq_small = omega arith;
    message_seq_small = omega arith;
  }

module _ (r : Readings) (raddr : Ip) (msg : Message) (d : Daemon) (h : IsSound d) where
  handle_hello-IsSound : IsSound (handle_hello r raddr msg d).daemon
  unfolding handle_hello
  handle_hello-IsSound =
      elim msg.body
        as (λ b.
          IsSound (handle_hello r raddr (record { header = msg.header; body = b }) d).daemon) [
            | Body.hello body ↦ neigh_mgr-IsSound d h _ (
                NeighborReachable.after_hello r.handled r.recalculated raddr
                  msg.header.originator_address body msg.header.vtime h.neigh_reached)
            | _ ↦ h
          ]

  handle_tc-IsSound : IsSound (handle_tc r msg d).daemon
  unfolding handle_tc
  handle_tc-IsSound =
      elim msg.body
        as (λ b. IsSound (handle_tc r (record { header = msg.header; body = b }) d).daemon) [
          | Body.tc body ↦ topo_mgr-IsSound d h _ (
              Reachable.after_tc r.handled msg.header.originator_address body msg.header.vtime
                h.topo_reached)
          | _ ↦ h
        ]

  handle_mid-IsSound : IsSound (handle_mid msg d).daemon
  unfolding handle_mid
  handle_mid-IsSound =
      elim msg.body
        as (λ b. IsSound (handle_mid (record { header = msg.header; body = b }) d).daemon) [
          | Body.mid body ↦
              topo_mgr-IsSound d h _
                (Reachable.after_mid msg.header.originator_address body h.topo_reached)
          | _ ↦ h
        ]

  handle_hna-IsSound : IsSound (handle_hna r msg d).daemon
  unfolding handle_hna
  handle_hna-IsSound =
      elim msg.body
        as (λ b. IsSound (handle_hna r (record { header = msg.header; body = b }) d).daemon) [
          | Body.hna body ↦ hna_mgr-IsSound d h _ (
              HnaReachable.after_hna r.handled msg.header.originator_address body msg.header.vtime
                h.hna_reached)
          | _ ↦ h
        ]

  handle_source_claim-IsSound : IsSound (handle_source_claim r msg d).daemon
  unfolding handle_source_claim
  handle_source_claim-IsSound =
      elim msg.body
        as (λ b.
          IsSound (handle_source_claim r (record { header = msg.header; body = b }) d).daemon) [
            | Body.source_claim body ↦ molsr_mgr-IsSound d h _
            | _ ↦ h
          ]

  handle_confirm_parent-IsSound : IsSound (handle_confirm_parent r msg d).daemon
  unfolding handle_confirm_parent
  handle_confirm_parent-IsSound =
      elim msg.body
        as (λ b.
          IsSound (handle_confirm_parent r (record { header = msg.header; body = b }) d).daemon) [
            | Body.confirm_parent body ↦ molsr_mgr-IsSound d h _
            | _ ↦ h
          ]

  IsSound-if :
      (b : Bool) (x y : Result)
      → IsSound x.daemon
      → IsSound y.daemon
      → IsSound (if b then x else y).daemon
  IsSound-if true x y p q = p
  IsSound-if false x y p q = q

  handle_message-IsSound : IsSound (handle_message r raddr msg d).daemon
  unfolding handle_message
  handle_message-IsSound = IsSound-if _ _ _ handle_hello-IsSound (
      IsSound-if _ _ _ handle_tc-IsSound (
        IsSound-if _ _ _ handle_mid-IsSound (
          IsSound-if _ _ _ handle_hna-IsSound (
            IsSound-if _ _ _ handle_source_claim-IsSound
              (IsSound-if _ _ _ handle_confirm_parent-IsSound h)))))

module _ (F : Float64) (net : Network) where
  send-IsSound :
      (d : Daemon) (pkt : Packet) (res : Result)
      → IsSound d
      → send F net d pkt ≡ ok res
      → IsSound res.daemon
  unfolding send
  send-IsSound d pkt res h done =
      let (sent, e, p) = >>=-eq-ok (broadcast_packet F net (get d.cfg_mgr) pkt) _ done in
      let same : record { daemon = next_seqs d; events = []; sent = sent } ≡ res = cc in
      subst (λ (x : Result). IsSound x.daemon) same (next_seqs-IsSound d h)

  handle_new-IsSound :
      (r : Readings) (header : PacketHeader) (raddr : Ip) (msg : Message) (d : Daemon)
      (res : Result)
      → IsSound d
      → handle_new F net r header raddr msg d ≡ ok res
      → IsSound res.daemon
  unfolding handle_new
  handle_new-IsSound r header raddr msg d res h done =
      let handled = handle_message r raddr msg d in
      let (sent, e, p) = >>=-eq-ok (forward F net r header raddr msg handled.daemon) _ done in
      let same : record handled { sent = sent } ≡ res = cc in
      subst (λ (x : Result). IsSound x.daemon) same (handle_message-IsSound r raddr msg d h)

  process_message-IsSound :
      (r : Readings) (header : PacketHeader) (raddr : Ip) (msg : Message) (d : Daemon)
      (res : Result)
      → IsSound d
      → process_message F net r header raddr msg d ≡ ok res
      → IsSound res.daemon
  unfolding process_message
  process_message-IsSound r header raddr msg d res h done = elim (Bool-cases (is_own msg d)) [
    | inl own ↦
        let same : unchanged d ≡ res = (let e = rw own at done in cc) in
        subst (λ (x : Result). IsSound x.daemon) same h
    | inr foreign ↦
        let checked = (checked_duplicate r msg d).0 in
        let hc : IsSound checked = topo_mgr-IsSound d h _ (
          Reachable.after_is_duplicate r.checked msg.header.originator_address msg.header.seq_num
            msg.header.vtime h.topo_reached) in
        elim (Bool-cases (checked_duplicate r msg d).1) [
          | inl seen ↦
              let same : unchanged checked ≡ res = (let e = rw (foreign, seen) at done in cc) in
              subst (λ (x : Result). IsSound x.daemon) same hc
          | inr new ↦
              handle_new-IsSound r header raddr msg checked res hc (rw (foreign, new) at done)
        ]
  ]

  process_messages-IsSound :
      (clock : ℕ → Readings) (n : ℕ) (header : PacketHeader) (raddr : Ip) (msgs : List Message)
      (d : Daemon) (res : Result)
      → IsSound d
      → process_messages F net clock n header raddr msgs d ≡ ok res
      → IsSound res.daemon
  unfolding process_messages
  process_messages-IsSound clock n header raddr [] d res h done =
      let same : unchanged d ≡ res = cc in subst (λ (x : Result). IsSound x.daemon) same h
  process_messages-IsSound clock n header raddr (msg ∷ msgs) d res h done =
      let (first, e, p) = >>=-eq-ok (process_message F net (clock n) header raddr msg d) _ done in
      let (rest, e', p') =
        >>=-eq-ok (process_messages F net clock (suc n) header raddr msgs first.daemon) _ p in
      let sound = process_message-IsSound (clock n) header raddr msg d first h e in
      let rest_sound =
        process_messages-IsSound clock (suc n) header raddr msgs first.daemon rest sound e' in
      let same : ◌≡◌ {A = Result}
          (record rest { events = first.events ++ rest.events; sent = first.sent ++ rest.sent })
          res =
        cc in
      subst (λ (x : Result). IsSound x.daemon) same rest_sound

  process_parsed-IsSound :
      (clock : ℕ → Readings) (raddr : Ip) (d : Daemon) (parsed : Outcome Packet) (res : Result)
      → IsSound d
      → process_parsed F net clock raddr d parsed ≡ ok res
      → IsSound res.daemon
  process_parsed-IsSound clock raddr d (ok pkt) res h done =
      process_messages-IsSound clock 0 pkt.header raddr pkt.messages d res h done
  process_parsed-IsSound clock raddr d (err e) res h done =
      let same : unchanged d ≡ res = cc in subst (λ (x : Result). IsSound x.daemon) same h
  process_parsed-IsSound clock raddr d panic res h done = cc
  process_parsed-IsSound clock raddr d out_of_fuel res h done = cc

  send_selectors-IsSound :
      (d : Daemon) (sels : List Text) (res : Result)
      → IsSound d
      → send_selectors F net d sels ≡ ok res
      → IsSound res.daemon
  unfolding send_selectors
  send_selectors-IsSound d [] res h done =
      let same : unchanged d ≡ res = cc in subst (λ (x : Result). IsSound x.daemon) same h
  send_selectors-IsSound d (sel ∷ sels) res h done = send-IsSound d _ res h done

  send_networks-IsSound :
      (d : Daemon) (hnas : List IpNet) (res : Result)
      → IsSound d
      → send_networks F net d hnas ≡ ok res
      → IsSound res.daemon
  unfolding send_networks
  send_networks-IsSound d [] res h done =
      let same : unchanged d ≡ res = cc in subst (λ (x : Result). IsSound x.daemon) same h
  send_networks-IsSound d (hna ∷ hnas) res h done = send-IsSound d _ res h done

perform_aging-IsSound :
    (r : AgingReadings) (d : Daemon) → IsSound d → IsSound (perform_aging r d).daemon
unfolding perform_aging
perform_aging-IsSound r d h = record {
  neigh_reached = NeighborReachable.after_age_out r.neigh_time r.mpr_time h.neigh_reached;
  topo_reached = Reachable.after_age_out r.topo_time h.topo_reached;
  hna_reached = HnaReachable.after_age_out r.hna_time h.hna_reached;
  routes_named = h.routes_named;
  packet_seq_small = h.packet_seq_small;
  message_seq_small = h.message_seq_small;
}

run_spf-IsSound :
    (router : LocalRouterLookup) (now : Time) (d : Daemon) (out : SpfOutput)
    → IsSound d
    → run_spf router now d ≡ ok out
    → IsSound out.daemon
unfolding run_spf calculate_routes
run_spf-IsSound router now d out h done = elim (Bool-cases (router.router_id == [])) [
  | inl unnamed ↦
      let failed : calculate_routes router now d.neigh_mgr d.topo_mgr d.hna_mgr d.active_routes
          ≡ err no_router_id =
        rw (unnamed, calculate_routes) refl in
      let same : with_mroutes [] d ≡ out = (let e = rw failed at done in cc) in
      subst (λ (x : SpfOutput). IsSound x.daemon) same (molsr_mgr-IsSound d h _)
  | inr named ↦
      let nonempty : router.router_id ≢ [] =
        λ p. ground (arith, (text_eq.beq_iff router.router_id []).1 p, named) in
      let (routes, evs, returned, table, follows) =
        calculate_routes_returns router now d.neigh_mgr d.topo_mgr d.hna_mgr d.active_routes
          d.active_routes nonempty h.routes_named (λ k. refl) in
      let next : Daemon = record d { active_routes = routes } in
      let same : with_mroutes (evs ∷ []) next ≡ out = (let e = rw returned at done in cc) in
      subst (λ (x : SpfOutput). IsSound x.daemon) same
        (molsr_mgr-IsSound next (active_routes-IsSound d h routes table) _)
]

module _ (F : Float64) (net : Network) where
  pub react-IsSound :
      (input : Input) (d : Daemon) (res : Result)
      → IsSound d
      → react F net input d ≡ ok res
      → IsSound res.daemon
  unfolding send_hello send_tc send_hna process_received_data
  react-IsSound hello_tick d res h done = send-IsSound F net d _ res h done
  react-IsSound hna_tick d res h done = send_networks-IsSound F net d _ res h done
  react-IsSound (tc_tick now) d res h done = send_selectors-IsSound F net d _ res h done
  react-IsSound (aging_tick r) d res h done =
      let same : perform_aging r d ≡ res = cc in
      subst (λ (x : Result). IsSound x.daemon) same (perform_aging-IsSound r d h)
  react-IsSound (received clock bytes raddr) d res h done =
      process_parsed-IsSound F net clock raddr d (deserialize_packet F bytes) res h done
  react-IsSound (update router now) d res h done =
      let (out, e, p) = >>=-eq-ok (run_spf router now d) _ done in
      let same : ◌≡◌ {A = Result} (record { daemon = out.daemon; events = []; sent = [] }) res =
        cc in
      subst (λ (x : Result). IsSound x.daemon) same (run_spf-IsSound router now d out h e)
  react-IsSound (hangup file) d res h done =
      let same : unchanged (record d { cfg_mgr = (reload file d.cfg_mgr).0 }) ≡ res = cc in
      subst (λ (x : Result). IsSound x.daemon) same (cfg_mgr-IsSound d h _)

pub new_daemon-IsSound : (cfg : Config) → IsSound (new_daemon cfg)
new_daemon-IsSound cfg = record {
  neigh_reached = NeighborReachable.start cfg.router_id;
  topo_reached = Reachable.start;
  hna_reached = HnaReachable.start;
  routes_named = (tt, tt);
  packet_seq_small = omega arith;
  message_seq_small = omega arith;
}
