-- ===== src/Spf/Dijkstra/Relax.antt =====
-- internal/olsr/spf.go: what a round of the inner loop of runDijkstra keeps.
use olsr_go.Base.{
  ℕ, ◌+◌, ◌≤◌, ◌≡◌, sym, ◌∙◌, inl, inr, Bool, true, false, some, arith, Text, text_eq, Bool-cases,
  Option-cases, ◌==◌, ==_refl,
}
use olsr_go.Base.Map.{lookup, insert, lookup-insert, insert-IsMap}
use olsr_go.Spf.{Graph}
use olsr_go.Spf.Heap.{heap_push}
use olsr_go.Spf.Heap.Order.{heap_push-IsHeap}
use olsr_go.Spf.Heap.Items.{Stands, heap_push-Stands}
use olsr_go.Spf.Dijkstra.{Search, improves}
use olsr_go.Spf.Dijkstra.Invariant.{within, seen, Edge, Walk, step, IsParent, Inv, IsCurrent}

pub not_same : (s : Search) (v w : Text) → seen s v ≡ false → seen s w ≡ true → (v == w) ≡ false
not_same s v w hv hw = elim (Bool-cases (v == w)) [
  | inl same ↦ absurd (
      let e : v ≡ w = (text_eq.beq_iff v w).0 same in
      let hv' : seen s w ≡ false = rw e at hv in ground (arith, hv', hw))
  | inr other ↦ other
]

-- An edge that improves the distance of v, from the node u that is being visited.
module _ (source : Text) (adj : Graph) (settled : Text → Bool) (s : Search)
    (i : Inv source adj settled s) (u : Text) (x : ℕ) (cur : IsCurrent source adj s u x) (v : Text)
    (cost : ℕ) (edge : Edge source adj u v cost)
    (better : improves (x + cost) (lookup v s.dist) ≡ true) where
  abbrev s' : Search
  s' = record s {
    dist = insert v (x + cost) s.dist;
    prev = insert v u s.prev;
    pq = heap_push (record { value = v; priority = x + cost }) s.pq;
  }

  v_unseen : seen s v ≡ false
  v_unseen = elim (Bool-cases (seen s v)) [
    | inr unseen ↦ unseen
    | inl was_seen ↦ elim (Option-cases (lookup v s.dist)) [
      | inl e ↦ absurd (let k = i.known v was_seen in let k' = rw e at k in ground (arith, k'))
      | inr (y, e) ↦ absurd (
          let b = rw e at better in
          let le : y ≤ x = cur.farthest v y was_seen e in ground (arith, b, le))
    ]
  ]

  other_than : (w : Text) → seen s w ≡ true → (v == w) ≡ false
  other_than w h = not_same s v w v_unseen h

  dist-other : (w : Text) → (v == w) ≡ false → lookup w s'.dist ≡ lookup w s.dist
  dist-other w other = lookup-insert v w (x + cost) s.dist ∙ rw other

  dist-same : (w : Text) → (v == w) ≡ true → lookup w s'.dist ≡ some (x + cost)
  dist-same w same = lookup-insert v w (x + cost) s.dist ∙ rw same

  not_source : (v == source) ≡ false
  not_source = elim (Bool-cases (v == source)) [
    | inr other ↦ other
    | inl same ↦ absurd (
        let e : v ≡ source = (text_eq.beq_iff v source).0 same in
        let b = rw (e, i.origin) at better in ground (arith, b))
  ]

  -- A bound on a distance still holds.
  pub within-kept :
      (w : Text) (b : ℕ) → within b (lookup w s.dist) ≡ true → within b (lookup w s'.dist) ≡ true
  within-kept w b h = elim (Bool-cases (v == w)) [
    | inr other ↦ rw (dist-other w other) h
    | inl same ↦
        let e : v ≡ w = (text_eq.beq_iff v w).0 same in
        let better' = rw e at better in
        rw (dist-same w same) (elim (Option-cases (lookup w s.dist)) [
          | inl q ↦ absurd (let h' = rw q at h in ground (arith, h'))
          | inr (y, q) ↦ (let h' = rw q at h in let b' = rw q at better' in ground (arith, h', b'))
        ])
  ]

  improved_sound : (w : Text) (y : ℕ) → lookup w s'.dist ≡ some y → Walk source adj w y
  improved_sound w y h = elim (Bool-cases (v == w)) [
    | inr other ↦ i.sound w y (sym (dist-other w other) ∙ h)
    | inl same ↦
        let e : v ≡ w = (text_eq.beq_iff v w).0 same in
        let q : x + cost ≡ y =
          (let g : some (x + cost) ≡ some y = sym (dist-same w same) ∙ h in ground (arith, g)) in
        rw (← e, ← q) (step (i.sound u x cur.at_u) edge)
  ]

  improved-queued :
      (w : Text) (y : ℕ)
      → lookup w s'.dist ≡ some y
      → seen s w ≡ false
      → Stands s'.pq.size s'.pq.slots (record { value = w; priority = y })
  improved-queued w y h unseen =
      let pushed =
        heap_push-Stands (record { value = v; priority = x + cost })
          (record { value = w; priority = y }) s.pq in
      elim (Bool-cases (v == w)) [
        | inr other ↦ pushed.1 (inl (i.queued w y (sym (dist-other w other) ∙ h) unseen))
        | inl same ↦
            let e : v ≡ w = (text_eq.beq_iff v w).0 same in
            let q : x + cost ≡ y =
              (let g : some (x + cost) ≡ some y = sym (dist-same w same) ∙ h in
                ground (arith, g)) in
            pushed.1 (inr (rw (e, q)))
      ]

  improved-tree : (w p : Text) → lookup w s'.prev ≡ some p → IsParent source adj s' w p
  improved-tree w p h = elim (Bool-cases (v == w)) [
    | inr other ↦
        let old = i.tree w p (sym (lookup-insert v w u s.prev ∙ rw other) ∙ h) in
        record {
          far = old.far;
          cost = old.cost;
          at_parent = dist-other p (other_than p old.was_seen) ∙ old.at_parent;
          was_seen = old.was_seen;
          edge = old.edge;
          at_child = dist-other w other ∙ old.at_child;
        }
    | inl same ↦
        let e : v ≡ w = (text_eq.beq_iff v w).0 same in
        let q : u ≡ p =
          (let g : some u ≡ some p = sym (lookup-insert v w u s.prev ∙ rw same) ∙ h in cc) in
        rw (← q) (record {
          far = x;
          cost = cost;
          at_parent = dist-other u (other_than u cur.seen_u) ∙ cur.at_u;
          was_seen = cur.seen_u;
          edge = rw (← e) edge;
          at_child = dist-same w same;
        })
  ]

  pub improved-IsCurrent : IsCurrent source adj s' u x
  improved-IsCurrent = record {
    at_u = dist-other u (other_than u cur.seen_u) ∙ cur.at_u;
    seen_u = cur.seen_u;
    farthest = λ w y h q. cur.farthest w y h (sym (dist-other w (other_than w h)) ∙ q);
  }

  pub improved-Inv : Inv source adj settled s'
  improved-Inv = record {
    sound = improved_sound;
    queued = improved-queued;
    settled_seen = i.settled_seen;
    relaxed = λ w y h q t c ed.
        within-kept t (y + c)
          (i.relaxed w y h (sym (dist-other w (other_than w (i.settled_seen w h))) ∙ q) t c ed);
    known = λ w h. rw (dist-other w (other_than w h)) (i.known w h);
    order = λ w y h q it st.
        let q' = sym (dist-other w (other_than w h)) ∙ q in
        elim ((heap_push-Stands (record { value = v; priority = x + cost }) it s.pq).0 st) [
          | inl old ↦ i.order w y h q' it old
          | inr new ↦ rw (← new) (omega (arith, cur.farthest w y h q'))
        ];
    bounded = λ it st.
        elim ((heap_push-Stands (record { value = v; priority = x + cost }) it s.pq).0 st) [
          | inl old ↦ within-kept it.value it.priority (i.bounded it old)
          | inr new ↦ rw (← new, dist-same v (==_refl v)) (ground arith)
        ];
    heap = heap_push-IsHeap (record { value = v; priority = x + cost }) s.pq i.heap;
    dist_map = insert-IsMap v (x + cost) s.dist i.dist_map;
    origin = dist-other source not_source ∙ i.origin;
    tree = improved-tree;
    reached = λ w y h far. elim (Bool-cases (v == w)) [
      | inr other ↦
          rw (lookup-insert v w u s.prev, other) (i.reached w y (sym (dist-other w other) ∙ h) far)
      | inl same ↦ rw (lookup-insert v w u s.prev, same)
    ];
  }
