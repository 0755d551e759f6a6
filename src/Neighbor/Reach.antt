-- ===== src/Neighbor/Reach.antt =====
-- The states that the methods of the NeighborManager lead to from NewNeighborManager.
use olsr_go.Base.{
  ◌≢◌, inl, inr, Bool, true, false, not, ◌&&◌, ◌||◌, List, [], ◌∷◌, Bool-cases, Option-cases, Text,
  text_eq, ◌==◌, nat_beq,
}
use olsr_go.Base.Int.{◌+ℤ◌}
use olsr_go.Base.Map.{
  GoMap, lookup, IsMap, Entries, Entries-lookup, insert-IsMap, insert-Entries, delete-IsMap,
  delete-Entries,
}
use olsr_go.Base.Nested.{IsNested, sweep-IsNested}
use olsr_go.Net.{Ip, Time, Duration, after, ip_string}
use olsr_go.Net.Named.{ip_string_nonempty}
use olsr_go.Packet.{HelloLinkMessage, HelloMessage}
use olsr_go.Neighbor.{
  symmetric, LinkTuple, NeighborTuple, TwoHops, NeighborManager, new_neighbor_manager,
}
use olsr_go.Neighbor.Mpr.{new_mprs, recalculate_mprs}
use olsr_go.Neighbor.Ops.{
  neigh_type, add_hops, hello_hops, update_two_hop_links, hello_tables, hello_changes_state,
  process_hello, check_local_symmetric_link, refreshed, link_of, state_beq,
}
use olsr_go.Neighbor.Aging.{
  set_asymmetric, expires, lose_link, age_links, aged, aging_changes, age_out,
}
use olsr_go.Neighbor.Mpr.Cover.{IsValid}

pub data NeighborReachable : NeighborManager → Type 0 where
  start : (router_id : Text) → NeighborReachable (new_neighbor_manager router_id)
  after_hello :
      {nm : NeighborManager} (now now' : Time) (sender originator : Ip) (hello : HelloMessage)
      (vtime : Duration)
      → NeighborReachable nm
      → NeighborReachable (process_hello now now' sender originator hello vtime nm).0
  after_age_out :
      {nm : NeighborManager} (now now' : Time)
      → NeighborReachable nm
      → NeighborReachable (age_out now now' nm).0

set_asymmetric-named :
    (ip : Text) (m : GoMap Text NeighborTuple)
    → IsMap m
    → Entries (λ i n. i ≢ []) m
    → IsMap (set_asymmetric ip m) × Entries (λ i n. i ≢ []) (set_asymmetric ip m)
unfolding set_asymmetric
set_asymmetric-named ip m h named = elim (Option-cases (lookup ip m)) [
  | inl e ↦ rw (e, set_asymmetric) (h, named)
  | inr (n, e) ↦
      rw (e, set_asymmetric)
        (
          insert-IsMap ip _ m h,
          insert-Entries (λ i n. i ≢ []) ip _ m (Entries-lookup (λ i n. i ≢ []) ip n m named e)
              named,
        )
]

recalculate_mprs-IsValid :
    (now : Time) (nm : NeighborManager) → IsValid nm → IsValid (recalculate_mprs now nm)
unfolding recalculate_mprs
recalculate_mprs-IsValid now nm v = elim (Option-cases (new_mprs now nm)) [
  | inl e ↦ rw (e, recalculate_mprs) v
  | inr (mprs, e) ↦
      rw (e, recalculate_mprs)
        (record {
          neighbors_map = v.neighbors_map;
          links_map = v.links_map;
          hops_maps = v.hops_maps;
          named = v.named;
        })
]

add_hops-IsMap :
    (router_id orig : Text) (exp : Time) (addrs : List Ip) (m : TwoHops)
    → IsMap m
    → IsMap (add_hops router_id orig exp addrs m)
unfolding add_hops
add_hops-IsMap router_id orig exp [] m h = h
add_hops-IsMap router_id orig exp (addr ∷ addrs) m h =
    add_hops-IsMap router_id orig exp addrs _
      (elim (Bool-cases (not (ip_string addr == router_id) && not (ip_string addr == orig))) [
        | inl added ↦ rw added (insert-IsMap (ip_string addr) exp m h)
        | inr skipped ↦ rw skipped h
      ])

hello_hops-IsMap :
    (router_id orig : Text) (exp : Time) (lms : List HelloLinkMessage) (m : TwoHops)
    → IsMap m
    → IsMap (hello_hops router_id orig exp lms m)
unfolding hello_hops
hello_hops-IsMap router_id orig exp [] m h = h
hello_hops-IsMap router_id orig exp (lm ∷ lms) m h =
    hello_hops-IsMap router_id orig exp lms _
      (elim (Bool-cases (nat_beq (neigh_type lm) 1 || nat_beq (neigh_type lm) 2)) [
        | inl told ↦ rw told (add_hops-IsMap router_id orig exp lm.neighbor_addresses m h)
        | inr other ↦ rw other h
      ])

update_two_hop_links-IsNested :
    (router_id orig : Text) (hello : HelloMessage) (exp : Time) (is_sym : Bool)
    (m : GoMap Text TwoHops)
    → IsNested m
    → IsNested (update_two_hop_links router_id orig hello exp is_sym m)
unfolding update_two_hop_links
update_two_hop_links-IsNested router_id orig hello exp true m (h, hs) = (
  insert-IsMap orig _ m h,
  insert-Entries (λ one hops. IsMap hops) orig _ m
      (hello_hops-IsMap router_id orig exp hello.link_messages [] tt) hs,
)
update_two_hop_links-IsNested router_id orig hello exp false m (h, hs) =
    (delete-IsMap orig m h, delete-Entries (λ one hops. IsMap hops) orig m hs)

hello_tables-IsValid :
    (now : Time) (sender originator : Ip) (hello : HelloMessage) (vtime : Duration)
    (nm : NeighborManager)
    → IsValid nm
    → IsValid (hello_tables now sender originator hello vtime nm)
unfolding hello_tables
hello_tables-IsValid now sender originator hello vtime nm v =
    let sym = check_local_symmetric_link nm.router_id hello.link_messages in
    let link = refreshed sym (now +ℤ vtime) (link_of nm (ip_string sender)) in
    let (links, hops) =
      update_two_hop_links-IsNested nm.router_id (ip_string originator) hello (now +ℤ vtime)
        (state_beq link.state symmetric) nm.two_hop_links (v.links_map, v.hops_maps) in
    record {
      neighbors_map = insert-IsMap (ip_string originator) _ nm.neighbors v.neighbors_map;
      links_map = links;
      hops_maps = hops;
      named =
          insert-Entries (λ ip n. ip ≢ []) (ip_string originator) _ nm.neighbors
            (ip_string_nonempty originator) v.named;
    }

lose_link-IsValid :
    (ip : Text) (link : LinkTuple) (nm : NeighborManager)
    → IsValid nm
    → IsValid (lose_link ip link nm)
lose_link-IsValid ip link nm v =
    let (map, names) = set_asymmetric-named ip nm.neighbors v.neighbors_map v.named in
    record {
      neighbors_map = map;
      links_map = delete-IsMap ip nm.two_hop_links v.links_map;
      hops_maps = delete-Entries (λ one hops. IsMap hops) ip nm.two_hop_links v.hops_maps;
      named = names;
    }

age_links-IsValid :
    (now : Time) (links : GoMap Text LinkTuple) (nm : NeighborManager)
    → IsValid nm
    → IsValid (age_links now links nm)
unfolding age_links
age_links-IsValid now [] nm v = v
age_links-IsValid now ((ip, link) ∷ rest) nm v =
    age_links-IsValid now rest _ (elim (Bool-cases (expires now link)) [
      | inl lost ↦ rw lost (lose_link-IsValid ip link nm v)
      | inr kept ↦ rw kept v
    ])

aged-IsValid : (now : Time) (nm : NeighborManager) → IsValid nm → IsValid (aged now nm)
unfolding aged
aged-IsValid now nm v =
    let v' = age_links-IsValid now nm.links nm v in
    let (links, hops) =
      sweep-IsNested (after now) (age_links now nm.links nm).two_hop_links
        (v'.links_map, v'.hops_maps) in
    record {
      neighbors_map = v'.neighbors_map;
      links_map = links;
      hops_maps = hops;
      named = v'.named;
    }

-- In every state that the methods lead to from a new manager, no neighbour, and no 2-hop neighbour of a
-- neighbour, stands twice in its table, and no neighbour has an empty name.
pub NeighborReachable-IsValid : (nm : NeighborManager) → NeighborReachable nm → IsValid nm
unfolding process_hello age_out
NeighborReachable-IsValid _ (start router_id) = record {
  neighbors_map = tt;
  links_map = tt;
  hops_maps = tt;
  named = tt;
}
NeighborReachable-IsValid _ (after_hello {nm} now now' sender originator hello vtime r) =
    let v =
      hello_tables-IsValid now sender originator hello vtime nm (NeighborReachable-IsValid nm r) in
    elim (Bool-cases (hello_changes_state sender hello nm)) [
      | inl changed ↦ rw changed (recalculate_mprs-IsValid now' _ v)
      | inr same ↦ rw same v
    ]
NeighborReachable-IsValid _ (after_age_out {nm} now now' r) =
    let v = aged-IsValid now nm (NeighborReachable-IsValid nm r) in
    elim (Bool-cases (aging_changes now nm)) [
      | inl changed ↦ rw changed (recalculate_mprs-IsValid now' _ v)
      | inr same ↦ rw same v
    ]
