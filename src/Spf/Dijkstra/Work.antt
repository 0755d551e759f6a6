-- ===== src/Spf/Dijkstra/Work.antt =====
-- internal/olsr/spf.go: the edges that the outer loop of runDijkstra has still to look at.
use olsr_go.Base.{
  ℕ, ◌+◌, ◌≤◌, ◌≡◌, inl, inr, Bool, true, false, [], ◌∷◌, arith, Text, text_eq, Bool-cases, ◌==◌,
  ==_refl, if◌then◌else◌, length,
}
use olsr_go.Base.Map.{GoMap, lookup, insert, lookup-insert}
use olsr_go.Base.Nested.{inner}
use olsr_go.Neighbor.Mpr.{holds}
use olsr_go.Spf.{Graph}

-- The edges of the nodes that have not been visited.
abbrev pub left_edges : GoMap Text Bool → Graph → ℕ
left_edges visited [] = 0
left_edges visited ((u, edges) ∷ rest) =
    (if holds (lookup u visited) then 0 else length edges) + left_edges visited rest

left_edges_mark :
    (u : Text) (visited : GoMap Text Bool) (adj : Graph)
    → left_edges (insert u true visited) adj ≤ left_edges visited adj
left_edges_mark u visited [] = omega arith
left_edges_mark u visited ((w, edges) ∷ rest) =
    let ih = left_edges_mark u visited rest in
    rw (lookup-insert u w true visited) (elim (Bool-cases (u == w)) [
      | inl same ↦ rw same (omega arith)
      | inr other ↦ rw other (omega arith)
    ])

pub left_edges_visit :
    (u : Text) (visited : GoMap Text Bool) (adj : Graph)
    → holds (lookup u visited) ≡ false
    → left_edges (insert u true visited) adj + length (inner (lookup u adj))
      ≤ left_edges visited adj
unfolding lookup
left_edges_visit u visited [] fresh = omega arith
left_edges_visit u visited ((w, edges) ∷ rest) fresh =
    rw (lookup-insert u w true visited) (elim (Bool-cases (w == u)) [
      | inl same ↦
          let e : w ≡ u = (text_eq.beq_iff w u).0 same in
          rw (same, e, ==_refl u, fresh) (omega (arith, left_edges_mark u visited rest))
      | inr other ↦
          let ih = left_edges_visit u visited rest fresh in
          let back : (u == w) ≡ false = ground (arith, text_eq.beq_iff u w, text_eq.beq_iff w u) in
          rw (other, back) (omega arith)
    ])
