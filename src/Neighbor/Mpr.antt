-- ===== src/Neighbor/Mpr.antt =====
-- internal/olsr/neighbor.go: recalculateMPRs and what it calls. A range over a map is a recursion on
-- its entries.
pub mod Greedy
pub mod Reach
pub mod Cover
use olsr_go.Base.{
  ℕ, zero, suc, ◌+◌, Bool, true, false, ◌&&◌, ◌||◌, not, Option, none, some, List, [], ◌∷◌, length,
  ltb, nat_beq, if◌then◌else◌, Text, text_eq, ◌==◌,
}
use olsr_go.Base.Int.{ℤ, pos, negsuc, ltb_ℤ, int_eq}
use olsr_go.Base.Map.{GoMap, lookup, insert, keep}
use olsr_go.Net.{Time, after}
use olsr_go.Packet.{will_never}
use olsr_go.Neighbor.{NeighborTuple, TwoHops, NeighborManager}

-- 2-hop IP -> the 1-hop neighbours through which it is reached
abbrev pub Reach : Type 0
Reach = GoMap Text (GoMap Text Bool)

-- m[k] on a map of Booleans: a missing key reads as false
abbrev pub holds : Option Bool → Bool
holds none = false
holds (some b) = b

abbrev pub is_some : {A : Type 0} → Option A → Bool
is_some none = false
is_some (some a) = true

abbrev pub or_empty : Option (GoMap Text Bool) → GoMap Text Bool
or_empty none = []
or_empty (some ones) = ones

-- twoHopNeighbors[two][one] = true, with the inner map made where it is missing
unfoldable pub add_reach : Text → Text → Reach → Reach
add_reach two one m = insert two (insert one true (or_empty (lookup two m))) m

abbrev pub usable : Text → NeighborTuple → Bool
usable ip n = n.symmetric && ltb will_never n.willingness

-- The two `continue`s of the inner loop.
abbrev pub skipped : Time → GoMap Text NeighborTuple → Text → Time → Bool
skipped now sym two exp = after now exp || is_some (lookup two sym)

unfoldable pub add_two_hops : Time → GoMap Text NeighborTuple → Text → TwoHops → Reach → Reach
add_two_hops now sym one [] m = m
add_two_hops now sym one ((two, exp) ∷ rest) m =
    add_two_hops now sym one rest (if skipped now sym two exp then m else add_reach two one m)

abbrev pub is_symmetric : Option NeighborTuple → Bool
is_symmetric none = false
is_symmetric (some n) = n.symmetric

unfoldable pub build_reach : Time → GoMap Text NeighborTuple → GoMap Text TwoHops → Reach → Reach
build_reach now sym [] m = m
build_reach now sym ((one, hops) ∷ rest) m =
    build_reach now sym rest
      (if is_symmetric (lookup one sym) then add_two_hops now sym one hops m else m)

unfoldable pub build_two_hop_neighbors_map :
    Time → GoMap Text NeighborTuple → GoMap Text TwoHops → Reach
build_two_hop_neighbors_map now sym two_hop_links = build_reach now sym two_hop_links []

-- newMpr[ip] = true for each key of the inner map
unfoldable pub mark_all : GoMap Text Bool → GoMap Text Bool → GoMap Text Bool
mark_all [] mprs = mprs
mark_all ((one, b) ∷ rest) mprs = mark_all rest (insert one true mprs)

-- The first loop: a 2-hop neighbour with a single way to it makes that way an MPR.
unfoldable pub mark_sole : Reach → GoMap Text Bool → GoMap Text Bool
mark_sole [] mprs = mprs
mark_sole ((two, ones) ∷ rest) mprs =
    mark_sole rest (if nat_beq (length ones) 1 then mark_all ones mprs else mprs)

-- covered: some MPR so far reaches the 2-hop neighbour
unfoldable pub covered : GoMap Text Bool → GoMap Text Bool → Bool
covered [] ones = false
covered ((mpr, b) ∷ rest) ones = holds (lookup mpr ones) || covered rest ones

unfoldable pub uncovered : GoMap Text Bool → Reach → Reach
unfolding covered keep
uncovered mprs reach = keep (λ two ones. not (covered mprs ones)) reach

unfoldable pub cover_count : Text → Reach → ℕ
cover_count one [] = 0
cover_count one ((two, ones) ∷ rest) =
    let n = cover_count one rest in if holds (lookup one ones) then suc n else n

-- The variables of selectGreedyMPR.
pub record Best : Type 0 where
  pub one_hop : Text
  pub cover : ℤ
  pub will : ℕ

abbrev pub hops_count : GoMap Text TwoHops → Text → ℕ
hops_count links ip = elim (lookup ip links) [ none ↦ 0 | some hops ↦ length hops ]

-- The body of the loop, for a neighbour that covers `count` of the uncovered.
unfoldable pub consider : GoMap Text TwoHops → Text → NeighborTuple → ℕ → Best → Best
consider links ip n count b =
    if nat_beq count 0
    then b
    else if ltb_ℤ b.cover (pos count)
    then record { one_hop = ip; cover = pos count; will = n.willingness }
    else if pos count == b.cover
    then (if ltb b.will n.willingness
        then record b { one_hop = ip; will = n.willingness }
        else if nat_beq n.willingness b.will
        then (if ltb (hops_count links b.one_hop) (hops_count links ip)
            then record b { one_hop = ip }
            else b)
        else b)
    else b

unfoldable pub greedy_loop : GoMap Text TwoHops → Reach → GoMap Text NeighborTuple → Best → Best
greedy_loop links left [] b = b
greedy_loop links left ((ip, n) ∷ rest) b =
    greedy_loop links left rest (consider links ip n (cover_count ip left) b)

-- "" when no neighbour covers anything that is left
unfoldable pub select_greedy_mpr : GoMap Text TwoHops → GoMap Text NeighborTuple → Reach → Text
unfolding greedy_loop consider cover_count
select_greedy_mpr links sym left =
    (greedy_loop links left sym (record { one_hop = []; cover = negsuc 0; will = 0 })).one_hop

-- The second loop, on fuel; `none` is fuel run out.
unfoldable pub greedy :
    ℕ
    → GoMap Text TwoHops
    → GoMap Text NeighborTuple
    → Reach
    → GoMap Text Bool
    → Option (GoMap Text Bool)
greedy zero links sym reach mprs = none
greedy (suc fuel) links sym reach mprs =
    let left = uncovered mprs reach in
    let best = select_greedy_mpr links sym left in
    let more = greedy fuel links sym reach (insert best true mprs) in
    if nat_beq (length left) 0 then some mprs else if best == [] then some mprs else more

abbrev pub symmetric_1hop : NeighborManager → GoMap Text NeighborTuple
symmetric_1hop nm = keep usable nm.neighbors

-- Each round of the second loop covers one more 2-hop neighbour at least.
unfoldable pub new_mprs : Time → NeighborManager → Option (GoMap Text Bool)
unfolding build_two_hop_neighbors_map mark_sole greedy
new_mprs now nm =
    let sym = symmetric_1hop nm in
    let reach = build_two_hop_neighbors_map now sym nm.two_hop_links in
    greedy (suc (length reach)) nm.two_hop_links sym reach (mark_sole reach [])

-- `none` is fuel run out.
unfoldable pub recalculate_mprs : Time → NeighborManager → NeighborManager
recalculate_mprs now nm = elim (new_mprs now nm) [
  | none ↦ nm
  | some mprs ↦ record nm { mpr_set = mprs }
]
