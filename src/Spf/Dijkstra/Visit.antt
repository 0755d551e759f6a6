-- ===== src/Spf/Dijkstra/Visit.antt =====
-- internal/olsr/spf.go: what the inner loop and a round of the outer loop of runDijkstra keep.
use olsr_go.Base.{
  ℕ, ◌+◌, ◌≤◌, ◌≡◌, refl, ◌∙◌, inl, inr, Bool, true, [], ◌∷◌, arith, Text, text_eq, Bool-cases,
  Option-cases, ==_refl, length,
}
use olsr_go.Base.Map.{GoMap, lookup, lookup-insert, Entries}
use olsr_go.Spf.{Graph}
use olsr_go.Spf.Heap.{heap_push}
use olsr_go.Spf.Dijkstra.{Search, improves, relax, relax_all}
use olsr_go.Spf.Dijkstra.Invariant.{within, Edge, Inv, IsCurrent}
use olsr_go.Spf.Dijkstra.Relax.{improved-Inv, improved-IsCurrent, within-kept}

module _ (source : Text) (adj : Graph) (settled : Text → Bool) (u : Text) (x : ℕ) where
  -- What is true after the edges of a list have been relaxed.
  pub record IsRelaxed (s : Search) (edges : GoMap Text ℕ) (t : Search) : Type 0 where
    pub inv : Inv source adj settled t
    pub current : IsCurrent source adj t u x
    pub same_visited : t.visited ≡ s.visited
    pub kept :
        (w : Text) (b : ℕ) → within b (lookup w s.dist) ≡ true → within b (lookup w t.dist) ≡ true
    pub size : t.pq.size ≤ s.pq.size + length edges
    pub all_relaxed : Entries (λ v cost. within (x + cost) (lookup v t.dist) ≡ true) edges

  relax-IsRelaxed :
      (s : Search) (v : Text) (cost : ℕ)
      → Inv source adj settled s
      → IsCurrent source adj s u x
      → Edge source adj u v cost
      → IsRelaxed s ((v, cost) ∷ []) (relax u v cost s)
  unfolding relax
  relax-IsRelaxed s v cost i cur edge =
      rw cur.at_u (elim (Bool-cases (improves (x + cost) (lookup v s.dist))) [
        | inl better ↦ rw better (record {
          inv = improved-Inv source adj settled s i u x cur v cost edge better;
          current = improved-IsCurrent source adj settled s i u x cur v cost edge better;
          same_visited = refl;
          kept = within-kept source adj settled s i u x cur v cost edge better;
          size = unfold heap_push in omega arith;
          all_relaxed = (rw (lookup-insert, ==_refl v) (ground arith), tt);
        })
        | inr worse ↦ rw worse (record {
          inv = i;
          current = cur;
          same_visited = refl;
          kept = λ w b h. h;
          size = omega arith;
          all_relaxed = (
            elim (Option-cases (lookup v s.dist)) [
              | inl e ↦ absurd (let w = rw e at worse in ground (arith, w))
              | inr (d, e) ↦ (let w = rw e at worse in rw e (ground (arith, w)))
            ],
            tt,
          );
        })
      ])

  pub relax_all-IsRelaxed :
      (edges : GoMap Text ℕ) (s : Search)
      → Inv source adj settled s
      → IsCurrent source adj s u x
      → Entries (λ v cost. Edge source adj u v cost) edges
      → IsRelaxed s edges (relax_all u edges s)
  unfolding relax_all
  relax_all-IsRelaxed [] s i cur es = record {
    inv = i;
    current = cur;
    same_visited = refl;
    kept = λ w b h. h;
    size = omega arith;
    all_relaxed = tt;
  }
  relax_all-IsRelaxed ((v, cost) ∷ edges) s i cur (e, es) =
      let one = relax-IsRelaxed s v cost i cur e in
      let rest = relax_all-IsRelaxed edges (relax u v cost s) one.inv one.current es in
      record {
        inv = rest.inv;
        current = rest.current;
        same_visited = rest.same_visited ∙ one.same_visited;
        kept = λ w b h. rest.kept w b (one.kept w b h);
        size = omega (arith, rest.size, one.size);
        all_relaxed = (rest.kept v (x + cost) one.all_relaxed.0, rest.all_relaxed);
      }
