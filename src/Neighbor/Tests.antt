-- ===== src/Neighbor/Tests.antt =====
-- The neighbour component on concrete tables.
use olsr_go.Base.{◌≡◌, refl, true, [], ◌∷◌, Text, codes, text_eq, text_beq}
use olsr_go.Base.Int.{pos}
use olsr_go.Base.Map.{insert, lookup, Entries}
use olsr_go.Neighbor.{NeighborTuple, NeighborManager}
use olsr_go.Neighbor.Mpr.{
  is_some, recalculate_mprs, new_mprs, uncovered, build_reach, add_two_hops, add_reach, mark_all,
}
use olsr_go.Packet.{HelloMessage}
use olsr_go.Neighbor.Mpr.Cover.{
  IsValid, IsUsable, Tells, recalculate_mprs-IsUsable, recalculate_mprs_covers,
}

abbrev neighbor_a : NeighborTuple
neighbor_a = record { neighbor_ip = codes "a"; symmetric = true; willingness = 3 }

abbrev neighbor_b : NeighborTuple
neighbor_b = record { neighbor_ip = codes "b"; symmetric = true; willingness = 3 }

-- The neighbour `a` tells of `c`, and `b` of `c` and `d`.
abbrev two_neighbors : NeighborManager
two_neighbors = record {
  router_id = codes "r";
  links = [];
  neighbors = (codes "a", neighbor_a) ∷ (codes "b", neighbor_b) ∷ [];
  two_hop_links =
      (codes "a", (codes "c", pos 90) ∷ [])
      ∷ (codes "b", (codes "c", pos 90) ∷ (codes "d", pos 90) ∷ [])
      ∷ [];
  mpr_set = [];
  mpr_selectors = [];
}

-- Only `b` is chosen: it is the only way to `d`, and it reaches `c`, too.
only_b_is_chosen : (recalculate_mprs (pos 10) two_neighbors).mpr_set ≡ (codes "b", true) ∷ []
unfolding recalculate_mprs new_mprs uncovered build_reach lookup text_beq add_two_hops add_reach
    insert mark_all
only_b_is_chosen = refl

two_neighbors-IsValid : IsValid two_neighbors
unfolding lookup text_beq
two_neighbors-IsValid = record {
  neighbors_map = (refl, (refl, tt));
  links_map = (refl, (refl, tt));
  hops_maps = ((refl, tt), ((refl, (refl, tt)), tt));
  named = ((λ p. cc), ((λ p. cc), tt));
}

a-IsUsable : IsUsable two_neighbors (codes "a")
unfolding lookup text_beq
a-IsUsable = record { tuple = neighbor_a; found = refl; is_usable = refl }

a-Tells : Tells (pos 10) two_neighbors (codes "a") (codes "c")
unfolding lookup text_beq
a-Tells = record {
  hops = (codes "c", pos 90) ∷ [];
  expires = pos 90;
  has_hops = refl;
  has_two = refl;
  live = refl;
}

c-not_IsUsable : ¬ IsUsable two_neighbors (codes "c")
unfolding lookup text_beq
c-not_IsUsable u = let found = u.found in cc

usable_example :
    Entries (λ ip b. IsUsable two_neighbors ip) (recalculate_mprs (pos 10) two_neighbors).mpr_set
usable_example = recalculate_mprs-IsUsable (pos 10) two_neighbors two_neighbors-IsValid

covers_example :
    (mpr : Text) × (is_some (lookup mpr (recalculate_mprs (pos 10) two_neighbors).mpr_set) ≡ true)
    × IsUsable two_neighbors mpr
    × Tells (pos 10) two_neighbors mpr (codes "c")
covers_example =
    recalculate_mprs_covers (pos 10) two_neighbors two_neighbors-IsValid (codes "a") (codes "c")
      a-IsUsable a-Tells c-not_IsUsable

-- A willing neighbour whose HELLO lists no one.
abbrev first_hello : HelloMessage
first_hello = record { htime = pos 2; willingness = 3; link_messages = [] }
