-- ===== src/Spf/Dijkstra.antt =====
-- internal/olsr/spf.go: runDijkstra. The outer loop runs on fuel: a round takes one item from the
-- queue, and an edge puts one in at most.
pub mod Invariant
pub mod Relax
pub mod Visit
pub mod Work
pub mod Round
pub mod Shortest
use olsr_go.Base.{
  ℕ, zero, suc, ◌+◌, Bool, true, false, Option, none, some, List, [], ◌∷◌, ltb, nat_beq,
  if◌then◌else◌, length, Text, text_eq,
}
use olsr_go.Base.Map.{GoMap, lookup, insert}
use olsr_go.Base.Nested.{inner}
use olsr_go.Neighbor.Mpr.{holds}
use olsr_go.Spf.{Graph}
use olsr_go.Spf.Heap.{PriorityQueue, empty_queue, heap_push, heap_pop}

-- The variables of runDijkstra.
pub record Search : Type 0 where
  pub dist : GoMap Text ℕ
  pub prev : GoMap Text Text
  pub visited : GoMap Text Bool
  pub pq : PriorityQueue

-- dist[u], which reads as 0 where it is missing
abbrev pub cost_to : Option ℕ → ℕ
cost_to none = 0
cost_to (some d) = d

-- !ok || alt < d
abbrev pub improves : ℕ → Option ℕ → Bool
improves alt none = true
improves alt (some d) = ltb alt d

-- The body of the inner loop.
unfoldable pub relax : Text → Text → ℕ → Search → Search
relax u v cost s =
    let alt = cost_to (lookup u s.dist) + cost in
    if improves alt (lookup v s.dist)
    then record s {
      dist = insert v alt s.dist;
      prev = insert v u s.prev;
      pq = heap_push (record { value = v; priority = alt }) s.pq;
    }
    else s

unfoldable pub relax_all : Text → GoMap Text ℕ → Search → Search
relax_all u [] s = s
relax_all u ((v, cost) ∷ rest) s = relax_all u rest (relax u v cost s)

-- What a round does after u has left the queue.
unfoldable pub visit : Graph → Text → Search → Search
visit adj u s =
    if holds (lookup u s.visited)
    then s
    else relax_all u (inner (lookup u adj)) (record s { visited = insert u true s.visited })

unfoldable pub rounds : ℕ → Graph → Search → Option Search
rounds zero adj s = if nat_beq s.pq.size 0 then some s else none
rounds (suc fuel) adj s = elim s.pq.size [
  | zero ↦ some s
  | suc n ↦
      (let (it, rest) = heap_pop n s.pq.slots in
        rounds fuel adj (visit adj it.value (record s { pq = rest })))
]

abbrev pub count_edges : Graph → ℕ
count_edges [] = 0
count_edges ((u, edges) ∷ rest) = length edges + count_edges rest

abbrev pub start_search : Text → Search
start_search local_id = record {
  dist = (local_id, 0) ∷ [];
  prev = [];
  visited = [];
  pq = heap_push (record { value = local_id; priority = 0 }) empty_queue;
}

-- `none` is fuel run out.
unfoldable pub run_dijkstra : Text → Graph → Option Search
unfolding rounds
run_dijkstra local_id adj = rounds (suc (count_edges adj)) adj (start_search local_id)
