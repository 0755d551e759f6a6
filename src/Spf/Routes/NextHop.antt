-- ===== src/Spf/Routes/NextHop.antt =====
-- internal/olsr/spf.go: the walk back from a node along the parents that runDijkstra has set.
use olsr_go.Base.{
  ℕ, zero, suc, ◌+◌, ◌<◌, ◌≡◌, ◌≢◌, sym, ◌∙◌, inl, inr, false, some, arith, Text, text_eq, ◌==◌,
  Bool-cases, Option-cases,
}
use olsr_go.Base.Map.{lookup}
use olsr_go.Spf.{Graph}
use olsr_go.Spf.Dijkstra.{Search}
use olsr_go.Spf.Dijkstra.Invariant.{seen, Edge, Walk, here, step, Inv}
use olsr_go.Spf.Routes.{hop, no_hop, unresolved, resolve_next_hop}

-- The first edge of a walk of the given length, and the rest of it.
pub record IsFirstHop (source : Text) (adj : Graph) (v : Text) (x : ℕ) (next : Text) : Type 0 where
  pub cost : ℕ
  pub rest : ℕ
  pub edge : Edge source adj source next cost
  pub walk : Walk next adj v rest
  pub total : cost + rest ≡ x

module _ (source : Text) (adj : Graph)
    (positive : (u v : Text) (cost : ℕ) → Edge source adj u v cost → 0 < cost) (t : Search)
    (i : Inv source adj (seen t) t) where
  pub resolve_finds :
      (fuel : ℕ) (v : Text) (x : ℕ)
      → lookup v t.dist ≡ some x
      → x < fuel
      → (source == v) ≡ false
      → (next : Text) × (resolve_next_hop fuel v t.prev source ≡ hop next)
        × IsFirstHop source adj v x next
  unfolding resolve_next_hop
  resolve_finds zero v x h enough other = absurd (omega arith)
  resolve_finds (suc fuel) v x h enough other = elim (Option-cases (lookup v t.prev)) [
    | inl e ↦ absurd (let r = i.reached v x h other in let r' = rw e at r in cc)
    | inr (u, e) ↦
        let p = i.tree v u e in
        let total : p.far + p.cost ≡ x =
          (let g : some (p.far + p.cost) ≡ some x = sym p.at_child ∙ h in ground (arith, g)) in
        let pos' : 0 < p.cost = positive u v p.cost p.edge in
        elim (Bool-cases (u == source)) [
          | inl at_source ↦
              let q : u ≡ source = (text_eq.beq_iff u source).0 at_source in
              let far0 : 0 ≡ p.far =
                (let g : some 0 ≡ some p.far = sym i.origin ∙ (rw q at p.at_parent) in
                  ground (arith, g)) in
              (
                v,
                rw (e, resolve_next_hop, at_source),
                record {
                  cost = p.cost;
                  rest = 0;
                  edge = rw q at p.edge;
                  walk = here;
                  total = omega arith;
                },
              )
          | inr further ↦
              let back : (source == u) ≡ false =
                ground (arith, text_eq.beq_iff source u, text_eq.beq_iff u source) in
              let (next, r, f) = resolve_finds fuel u p.far p.at_parent (omega arith) back in
              (
                next,
                rw (e, resolve_next_hop, further) r,
                record {
                  cost = f.cost;
                  rest = f.rest + p.cost;
                  edge = f.edge;
                  walk = step f.walk p.edge;
                  total = omega (arith, f.total);
                },
              )
        ]
  ]

  -- The source itself has no parent.
  resolve_source : (fuel : ℕ) → resolve_next_hop (suc fuel) source t.prev source ≡ no_hop
  unfolding resolve_next_hop
  resolve_source fuel = elim (Option-cases (lookup source t.prev)) [
    | inl e ↦ rw (e, resolve_next_hop)
    | inr (u, e) ↦ absurd (
        let p = i.tree source u e in
        let g : some 0 ≡ some (p.far + p.cost) = sym i.origin ∙ p.at_child in
        ground (arith, g, positive u source p.cost p.edge))
  ]

  -- With the distance as its fuel the loop ends.
  pub resolve_ends :
      (v : Text) (x : ℕ)
      → lookup v t.dist ≡ some x
      → resolve_next_hop (suc x) v t.prev source ≢ unresolved
  resolve_ends v x h = elim (Bool-cases (source == v)) [
    | inl same ↦ λ r.
        (let q : source ≡ v = (text_eq.beq_iff source v).0 same in
          let n : resolve_next_hop (suc x) v t.prev source ≡ no_hop = rw (← q) (resolve_source x) in
          let g : no_hop ≡ unresolved = sym n ∙ r in cc)
    | inr other ↦ λ r.
        (let (next, e, f) = resolve_finds (suc x) v x h (omega arith) other in
          let g : hop next ≡ unresolved = sym e ∙ r in cc)
  ]
