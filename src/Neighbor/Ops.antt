-- ===== src/Neighbor/Ops.antt =====
-- internal/olsr/neighbor.go: ProcessHello and what it calls.
use Prim.Native.Nat.{bit_and}
use olsr_go.Base.{
  ℕ, ◌/◌, Bool, true, false, ◌&&◌, ◌||◌, not, none, some, List, [], ◌∷◌, nat_beq, if◌then◌else◌,
  Text, text_eq, ◌==◌,
}
use olsr_go.Base.Int.{◌+ℤ◌}
use olsr_go.Base.Map.{GoMap, lookup, insert, delete}
use olsr_go.EventBus.{Event, neighbor_update}
use olsr_go.Net.{Ip, Time, Duration, ip_string}
use olsr_go.Packet.LinkType
use olsr_go.Packet.NeighType
use olsr_go.Packet.{HelloLinkMessage, HelloMessage}
use olsr_go.Neighbor.{
  LinkState, pending, asymmetric, symmetric, lost, LinkTuple, NeighborTuple, TwoHops,
  NeighborManager, zero_time,
}
use olsr_go.Neighbor.Mpr.{recalculate_mprs}

abbrev pub state_beq : LinkState → LinkState → Bool
state_beq pending pending = true
state_beq asymmetric asymmetric = true
state_beq symmetric symmetric = true
state_beq lost lost = true
state_beq _ _ = false

-- lm.LinkCode & 0x03 and (lm.LinkCode >> 2) & 0x03
abbrev pub link_type : HelloLinkMessage → ℕ
link_type lm = bit_and lm.link_code 0x03

abbrev pub neigh_type : HelloLinkMessage → ℕ
neigh_type lm = bit_and (lm.link_code / 4) 0x03

-- Some address reads as the given text.
unfoldable pub lists_ip : Text → List Ip → Bool
lists_ip ip [] = false
lists_ip ip (addr ∷ addrs) = ip_string addr == ip || lists_ip ip addrs

abbrev pub heard : HelloLinkMessage → Bool
heard lm =
    nat_beq (link_type lm) LinkType.symmetric
    || nat_beq (link_type lm) LinkType.asym
    || nat_beq (neigh_type lm) NeighType.symmetric
    || nat_beq (neigh_type lm) NeighType.mpr

unfoldable pub check_local_symmetric_link : Text → List HelloLinkMessage → Bool
check_local_symmetric_link router_id [] = false
check_local_symmetric_link router_id (lm ∷ lms) =
    lists_ip router_id lm.neighbor_addresses && heard lm || check_local_symmetric_link router_id lms

unfoldable pub check_mpr_selection : Text → List HelloLinkMessage → Bool
check_mpr_selection router_id [] = false
check_mpr_selection router_id (lm ∷ lms) =
    nat_beq (neigh_type lm) NeighType.mpr && lists_ip router_id lm.neighbor_addresses
    || check_mpr_selection router_id lms

-- The loop over the addresses of one link message.
unfoldable pub add_hops : Text → Text → Time → List Ip → TwoHops → TwoHops
add_hops router_id orig exp [] m = m
add_hops router_id orig exp (addr ∷ addrs) m =
    let ip = ip_string addr in
    add_hops router_id orig exp addrs
      (if not (ip == router_id) && not (ip == orig) then insert ip exp m else m)

unfoldable pub hello_hops : Text → Text → Time → List HelloLinkMessage → TwoHops → TwoHops
hello_hops router_id orig exp [] m = m
hello_hops router_id orig exp (lm ∷ lms) m = hello_hops router_id orig exp lms (
    if nat_beq (neigh_type lm) NeighType.symmetric || nat_beq (neigh_type lm) NeighType.mpr
    then add_hops router_id orig exp lm.neighbor_addresses m
    else m)

unfoldable pub update_two_hop_links :
    Text → Text → HelloMessage → Time → Bool → GoMap Text TwoHops → GoMap Text TwoHops
update_two_hop_links router_id orig hello exp true m =
    insert orig (hello_hops router_id orig exp hello.link_messages []) m
update_two_hop_links router_id orig hello exp false m = delete orig m

-- The link of the sender, a new one where there is none.
abbrev pub link_of : NeighborManager → Text → LinkTuple
link_of nm sender = elim (lookup sender nm.links) [
  | some link ↦ link
  | none ↦ record {
    local_ip = nm.router_id;
    neighbor_ip = sender;
    state = asymmetric;
    asym_time = zero_time;
    sym_time = zero_time;
    expiration_time = zero_time;
  }
]

abbrev pub refreshed : Bool → Time → LinkTuple → LinkTuple
refreshed true exp link = record link { state = symmetric; sym_time = exp; expiration_time = exp }
refreshed false exp link = record link {
  state = asymmetric;
  asym_time = exp;
  expiration_time = exp;
}

abbrev pub neighbor_of : NeighborManager → Text → NeighborTuple
neighbor_of nm orig = elim (lookup orig nm.neighbors) [
  | some neigh ↦ neigh
  | none ↦ record { neighbor_ip = orig; symmetric = false; willingness = 0 }
]

-- Steps 1 to 3 of ProcessHello: the tables without the MPR set.
unfoldable pub hello_tables :
    Time → Ip → Ip → HelloMessage → Duration → NeighborManager → NeighborManager
unfolding ◌+ℤ◌
hello_tables now sender_ip originator_ip hello vtime nm =
    let sender = ip_string sender_ip in
    let orig = ip_string originator_ip in
    let exp = now +ℤ vtime in
    let sym = check_local_symmetric_link nm.router_id hello.link_messages in
    let selected = check_mpr_selection nm.router_id hello.link_messages in
    let link = refreshed sym exp (link_of nm sender) in
    let is_sym = state_beq link.state symmetric in
    record nm {
      links = insert sender link nm.links;
      neighbors =
          insert orig
            (record (neighbor_of nm orig) { willingness = hello.willingness; symmetric = is_sym })
            nm.neighbors;
      mpr_selectors =
          if selected && is_sym then insert orig exp nm.mpr_selectors else nm.mpr_selectors;
      two_hop_links = update_two_hop_links nm.router_id orig hello exp is_sym nm.two_hop_links;
    }

-- oldState != link.State
unfoldable pub hello_changes_state : Ip → HelloMessage → NeighborManager → Bool
hello_changes_state sender_ip hello nm =
    let link = link_of nm (ip_string sender_ip) in
    let sym = check_local_symmetric_link nm.router_id hello.link_messages in
    not (state_beq link.state (refreshed sym zero_time link).state)

-- `now'` is the time that buildTwoHopNeighborsMap reads.
unfoldable pub process_hello :
    Time
    → Time
    → Ip
    → Ip
    → HelloMessage
    → Duration
    → NeighborManager
    → NeighborManager × List (Event Text)
process_hello now now' sender_ip originator_ip hello vtime nm =
    let nm' = hello_tables now sender_ip originator_ip hello vtime nm in
    if hello_changes_state sender_ip hello nm
    then (
      recalculate_mprs now' nm',
      record { ev_type = neighbor_update; payload = ip_string originator_ip } ∷ [],
    )
    else (nm', [])
