-- ===== src/Spf/Dijkstra/Round.antt =====
-- internal/olsr/spf.go: what a round of the outer loop of runDijkstra keeps.
use olsr_go.Base.{
  ℕ, suc, ◌+◌, ◌≤◌, ◌≡◌, refl, sym, ap, ◌∙◌, inl, inr, true, false, some, arith, Text, text_eq,
  Bool-cases, Option-cases, ◌==◌, ==_refl, if◌then◌else◌,
}
use olsr_go.Base.Map.{GoMap, lookup, insert, lookup-insert, IsMap, Entries-lookup, lookup-Entries}
use olsr_go.Base.Nested.{inner, IsNested}
use olsr_go.Spf.{Graph}
use olsr_go.Spf.Heap.{Item, PriorityQueue, heap_pop}
use olsr_go.Spf.Heap.Order.{IsHeap, heap_pop-IsHeap, heap_pop_least, heap_pop_root}
use olsr_go.Spf.Heap.Items.{Stands, heap_pop-Stands, heap_pop_kept-Stands}
use olsr_go.Spf.Dijkstra.{Search, relax_all, visit}
use olsr_go.Spf.Dijkstra.Invariant.{within, seen, IsParent, Inv, IsCurrent}
use olsr_go.Spf.Dijkstra.Work.{left_edges, left_edges_visit}
use olsr_go.Spf.Dijkstra.Visit.{IsRelaxed, relax_all-IsRelaxed}

-- A round of the outer loop, on a queue of n + 1 items.
module _ (source : Text) (adj : Graph) (nested : IsNested adj) (s : Search) (n : ℕ)
    (i : Inv source adj (seen s) s) (size : s.pq.size ≡ suc n) where
  abbrev it : Item
  it = (heap_pop n s.pq.slots).0

  abbrev others : PriorityQueue
  others = (heap_pop n s.pq.slots).1

  heap' : IsHeap (suc n) s.pq.slots
  heap' = rw size at i.heap

  stood : (j : Item) → Stands (suc n) s.pq.slots j → Stands s.pq.size s.pq.slots j
  stood j st = rw size st

  it_stood : Stands s.pq.size s.pq.slots it
  it_stood = stood it (0, omega arith, sym (heap_pop_root n s.pq.slots))

  others_stood : (j : Item) → Stands others.size others.slots j → Stands s.pq.size s.pq.slots j
  others_stood j st = stood j (heap_pop_kept-Stands n s.pq.slots j (unfold heap_pop in st))

  others-IsHeap : IsHeap others.size others.slots
  others-IsHeap = unfold heap_pop in heap_pop-IsHeap n s.pq.slots heap'

  others_size : others.size ≡ n
  others_size = unfold heap_pop in refl

  least : (j : Item) → Stands s.pq.size s.pq.slots j → it.priority ≤ j.priority
  least j (k, inside, e) = rw (← e) (heap_pop_least n s.pq.slots heap' k (rw size at inside))

  still_queued :
      (v : Text) (x : ℕ)
      → (it.value == v) ≡ false
      → lookup v s.dist ≡ some x
      → seen s v ≡ false
      → Stands others.size others.slots (record { value = v; priority = x })
  still_queued v x other h unseen =
      let st : Stands (suc n) s.pq.slots (record { value = v; priority = x }) =
        rw size at (i.queued v x h unseen) in
      elim (heap_pop-Stands n s.pq.slots (record { value = v; priority = x }) st) [
        | inl popped ↦ absurd (
            let e = ap (λ (j : Item). j.value) popped in let o = rw e at other in cc (o, ==_refl v))
        | inr stays ↦ unfold heap_pop in stays
      ]

  abbrev popped : Search
  popped = record s { pq = others }

  again-Inv : seen s it.value ≡ true → Inv source adj (seen popped) popped
  again-Inv was_seen = record {
    sound = i.sound;
    queued = λ v x h unseen. still_queued v x (sym_not_same v unseen) h unseen;
    settled_seen = λ w h. h;
    relaxed = i.relaxed;
    known = i.known;
    order = λ w x h q j st. i.order w x h q j (others_stood j st);
    bounded = λ j st. i.bounded j (others_stood j st);
    heap = others-IsHeap;
    dist_map = i.dist_map;
    origin = i.origin;
    tree = λ v p h. as_parent (i.tree v p h);
    reached = i.reached;
  }
    where
      sym_not_same : (v : Text) → seen s v ≡ false → (it.value == v) ≡ false
      sym_not_same v unseen = elim (Bool-cases (it.value == v)) [
        | inr other ↦ other
        | inl same ↦ absurd (
            let e : it.value ≡ v = (text_eq.beq_iff it.value v).0 same in
            let h : seen s v ≡ true = rw e at was_seen in ground (arith, h, unseen))
      ]

      as_parent : {v p : Text} → IsParent source adj s v p → IsParent source adj popped v p
      as_parent t = record {
        far = t.far;
        cost = t.cost;
        at_parent = t.at_parent;
        was_seen = t.was_seen;
        edge = t.edge;
        at_child = t.at_child;
      }

  module _ (fresh : seen s it.value ≡ false) where
    abbrev marked : Search
    marked = record popped { visited = insert it.value true s.visited }

    seen-marked : (w : Text) → seen marked w ≡ (if it.value == w then true else seen s w)
    seen-marked w =
        rw (lookup-insert it.value w true s.visited)
          (elim (Bool-cases (it.value == w)) [ inl same ↦ rw same | inr other ↦ rw other ])

    seen_before : (w : Text) → seen s w ≡ true → seen marked w ≡ true
    seen_before w h =
        rw (seen-marked w, h)
          (elim (Bool-cases (it.value == w)) [ inl same ↦ rw same | inr other ↦ rw other ])

    distance : (x : ℕ) × (lookup it.value s.dist ≡ some x) × (x ≡ it.priority)
    distance = elim (Option-cases (lookup it.value s.dist)) [
      | inl e ↦ absurd (let b = i.bounded it it_stood in let b' = rw e at b in ground (arith, b'))
      | inr (x, e) ↦
          let b = i.bounded it it_stood in
          let b' = rw e at b in
          let low =
            least (record { value = it.value; priority = x }) (i.queued it.value x e fresh) in
          (x, e, ground (arith, b', low))
    ]

    abbrev x : ℕ
    x = distance.0

    marked-IsCurrent : IsCurrent source adj marked it.value x
    marked-IsCurrent = record {
      at_u = distance.1;
      seen_u = seen-marked it.value ∙ rw (==_refl it.value);
      farthest = λ w y h q. elim (Bool-cases (it.value == w)) [
        | inl same ↦
            let e : it.value ≡ w = (text_eq.beq_iff it.value w).0 same in
            let g : some x ≡ some y = sym distance.1 ∙ ap (λ (k : Text). lookup k s.dist) e ∙ q in
            ground (arith, g)
        | inr other ↦
            let h' : seen s w ≡ true = sym (seen-marked w ∙ rw other) ∙ h in
            omega (arith, i.order w y h' q it it_stood, distance.2)
      ];
    }

    marked-Inv : Inv source adj (seen s) marked
    marked-Inv = record {
      sound = i.sound;
      queued = λ v y h unseen. elim (Bool-cases (it.value == v)) [
        | inl same ↦ absurd (let g : true ≡ false = sym (seen-marked v ∙ rw same) ∙ unseen in cc)
        | inr other ↦ still_queued v y other h (sym (seen-marked v ∙ rw other) ∙ unseen)
      ];
      settled_seen = seen_before;
      relaxed = i.relaxed;
      known = λ w h. elim (Bool-cases (it.value == w)) [
        | inl same ↦
            let e : it.value ≡ w = (text_eq.beq_iff it.value w).0 same in rw (← e, distance.1)
        | inr other ↦ i.known w (sym (seen-marked w ∙ rw other) ∙ h)
      ];
      order = λ w y h q j st.
          omega (arith, marked-IsCurrent.farthest w y h q, distance.2, least j (others_stood j st));
      bounded = λ j st. i.bounded j (others_stood j st);
      heap = others-IsHeap;
      dist_map = i.dist_map;
      origin = i.origin;
      tree = λ v p h.
          let t = i.tree v p h in
          record {
            far = t.far;
            cost = t.cost;
            at_parent = t.at_parent;
            was_seen = seen_before p t.was_seen;
            edge = t.edge;
            at_child = t.at_child;
          };
      reached = i.reached;
    }

    abbrev edges : GoMap Text ℕ
    edges = inner (lookup it.value adj)

    edges-IsMap : IsMap edges
    edges-IsMap = elim (Option-cases (lookup it.value adj)) [
      | inl e ↦ rw e tt
      | inr (m, e) ↦ rw e (Entries-lookup (λ k m. IsMap m) it.value m adj nested.1 e)
    ]

    IsRelaxed-edges :
        IsRelaxed source adj (seen s) it.value x marked edges (relax_all it.value edges marked)
    IsRelaxed-edges =
        relax_all-IsRelaxed source adj (seen s) it.value x edges marked marked-Inv marked-IsCurrent
          (lookup-Entries _ edges edges-IsMap (λ v cost q. q))

    fresh-Inv :
        Inv source adj (seen (relax_all it.value edges marked)) (relax_all it.value edges marked)
    fresh-Inv =
        let r = IsRelaxed-edges in
        let t = relax_all it.value edges marked in
        let v = r.inv in
        record {
          sound = v.sound;
          queued = v.queued;
          settled_seen = λ w h. h;
          relaxed = λ w y h q a cost edge. elim (Bool-cases (it.value == w)) [
            | inl same ↦
                let e : it.value ≡ w = (text_eq.beq_iff it.value w).0 same in
                let g : some x ≡ some y =
                  sym r.current.at_u ∙ ap (λ (k : Text). lookup k t.dist) e ∙ q in
                let g' : x ≡ y = ground (arith, g) in
                let edge' : lookup a edges ≡ some cost = rw (← e) at edge in
                rw (← g') (
                  Entries-lookup (λ a cost. within (x + cost) (lookup a t.dist) ≡ true) a cost edges
                    r.all_relaxed edge')
            | inr other ↦
                let h1 : seen marked w ≡ true = rw r.same_visited at h in
                v.relaxed w y (sym (seen-marked w ∙ rw other) ∙ h1) q a cost edge
          ];
          known = v.known;
          order = v.order;
          bounded = v.bounded;
          heap = v.heap;
          dist_map = v.dist_map;
          origin = v.origin;
          tree = v.tree;
          reached = v.reached;
        }

  pub visit-Inv : Inv source adj (seen (visit adj it.value popped)) (visit adj it.value popped)
  unfolding visit
  visit-Inv = elim (Bool-cases (seen s it.value)) [
    | inl again ↦ rw again (again-Inv again)
    | inr fresh ↦ rw fresh (fresh-Inv fresh)
  ]

  -- A round takes one item, and puts in one for an edge at most.
  pub visit_work :
      (visit adj it.value popped).pq.size + left_edges (visit adj it.value popped).visited adj
      ≤ n + left_edges s.visited adj
  unfolding visit
  visit_work = elim (Bool-cases (seen s it.value)) [
    | inl again ↦ rw again (omega (arith, others_size))
    | inr fresh ↦ rw fresh (
        let r = IsRelaxed-edges fresh in
        rw r.same_visited
          (omega (arith, r.size, others_size, left_edges_visit it.value s.visited adj fresh)))
  ]
