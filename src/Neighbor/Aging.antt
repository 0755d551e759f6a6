-- ===== src/Neighbor/Aging.antt =====
-- internal/olsr/neighbor.go: AgeOut and the getters.
use olsr_go.Base.{
  Bool, true, false, ◌&&◌, ◌||◌, not, none, some, List, [], ◌∷◌, if◌then◌else◌, Text, codes,
  text_eq,
}
use olsr_go.Base.Map.{GoMap, lookup, insert, delete, keep}
use olsr_go.Base.Nested.{any_value, any_inner, sweep, is_empty, values, keys}
use olsr_go.EventBus.{Event, neighbor_update}
use olsr_go.Net.{Time, after, before}
use olsr_go.Neighbor.{lost, LinkTuple, NeighborTuple, TwoHops, NeighborManager}
use olsr_go.Neighbor.Ops.{state_beq}
use olsr_go.Neighbor.Mpr.{recalculate_mprs}

-- neigh.Symmetric = false, where the neighbour is known
unfoldable pub set_asymmetric : Text → GoMap Text NeighborTuple → GoMap Text NeighborTuple
set_asymmetric ip m = elim (lookup ip m) [
  | none ↦ m
  | some n ↦ insert ip (record n { symmetric = false }) m
]

-- The body of the loop over the links: an expired link is lost, once.
abbrev pub expires : Time → LinkTuple → Bool
expires now link = after now link.expiration_time && not (state_beq link.state lost)

abbrev pub lose_link : Text → LinkTuple → NeighborManager → NeighborManager
lose_link ip link nm = record nm {
  links = insert ip (record link { state = lost }) nm.links;
  neighbors = set_asymmetric ip nm.neighbors;
  two_hop_links = delete ip nm.two_hop_links;
}

unfoldable pub age_links : Time → GoMap Text LinkTuple → NeighborManager → NeighborManager
age_links now [] nm = nm
age_links now ((ip, link) ∷ rest) nm =
    age_links now rest (if expires now link then lose_link ip link nm else nm)

-- The tables after the three loops, and `changed`.
unfoldable pub aged : Time → NeighborManager → NeighborManager
unfolding age_links
aged now nm =
    let nm' = age_links now nm.links nm in
    record nm' {
      two_hop_links = sweep (after now) nm'.two_hop_links;
      mpr_selectors = keep (λ ip exp. not (after now exp)) nm'.mpr_selectors;
    }

unfoldable pub aging_changes : Time → NeighborManager → Bool
unfolding age_links any_value any_inner
aging_changes now nm =
    let nm' = age_links now nm.links nm in
    any_value (expires now) nm.links
    || any_inner (after now) nm'.two_hop_links
    || any_value (after now) nm'.mpr_selectors

-- `now'` is the time that buildTwoHopNeighborsMap reads.
unfoldable pub age_out : Time → Time → NeighborManager → NeighborManager × List (Event Text) × Bool
age_out now now' nm =
    if aging_changes now nm
    then (
      recalculate_mprs now' (aged now nm),
      record { ev_type = neighbor_update; payload = codes "aging" } ∷ [],
      true,
    )
    else (aged now nm, [], false)

-- GetNeighbors: the neighbours whose link is not lost.
abbrev pub has_link : NeighborManager → NeighborTuple → Bool
has_link nm n = elim (lookup n.neighbor_ip nm.links) [
  | none ↦ false
  | some l ↦ not (state_beq l.state lost)
]

unfoldable pub linked : NeighborManager → GoMap Text NeighborTuple → List NeighborTuple
linked nm [] = []
linked nm ((ip, n) ∷ rest) = let more = linked nm rest in if has_link nm n then n ∷ more else more

unfoldable pub get_neighbors : NeighborManager → List NeighborTuple
unfolding linked
get_neighbors nm = linked nm nm.neighbors

unfoldable pub get_links : NeighborManager → List LinkTuple
get_links nm = values nm.links

unfoldable pub get_mpr_set : NeighborManager → List Text
get_mpr_set nm = keys nm.mpr_set

unfoldable pub get_mpr_selectors : Time → NeighborManager → List Text
get_mpr_selectors now nm = keys (keep (λ ip exp. before now exp) nm.mpr_selectors)

-- The 2-hop neighbours that have not expired, by the 1-hop neighbour, where there are some.
unfoldable pub live_hops : Time → GoMap Text TwoHops → GoMap Text (List Text)
live_hops now [] = []
live_hops now ((one, hops) ∷ rest) =
    let more = live_hops now rest in
    let live = keys (keep (λ two exp. before now exp) hops) in
    if is_empty live then more else (one, live) ∷ more

unfoldable pub get_two_hop_neighbors : Time → NeighborManager → GoMap Text (List Text)
unfolding live_hops
get_two_hop_neighbors now nm = live_hops now nm.two_hop_links
