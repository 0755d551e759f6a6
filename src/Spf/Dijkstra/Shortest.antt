-- ===== src/Spf/Dijkstra/Shortest.antt =====
-- internal/olsr/spf.go: what runDijkstra returns.
use olsr_go.Base.{
  ℕ, zero, suc, ◌+◌, ◌≤◌, ◌≡◌, ◌⊎◌, refl, ap, inl, inr, true, some, [], ◌∷◌, arith, Text, text_eq,
  Bool-cases, Option-cases, ◌==◌, ==_refl, length,
}
use olsr_go.Base.Map.{lookup}
use olsr_go.Base.Nested.{IsNested}
use olsr_go.Spf.{Graph}
use olsr_go.Spf.Heap.{Item, PriorityQueue, empty_queue, heap_push, heap_pop}
use olsr_go.Spf.Heap.Order.{heap_push-IsHeap}
use olsr_go.Spf.Heap.Items.{Stands, heap_push-Stands}
use olsr_go.Spf.Dijkstra.{Search, visit, rounds, count_edges, start_search, run_dijkstra}
use olsr_go.Spf.Dijkstra.Invariant.{within, seen, Walk, here, step, Inv}
use olsr_go.Spf.Dijkstra.Work.{left_edges}
use olsr_go.Spf.Dijkstra.Round.{visit-Inv, visit_work}

size-cases : (n : ℕ) → (n ≡ 0) ⊎ ((k : ℕ) × (n ≡ suc k))
size-cases zero = inl refl
size-cases (suc k) = inr (k, refl)

module _ (source : Text) (adj : Graph) where
  first_item : Item
  first_item = record { value = source; priority = 0 }

  first_only : (v : Text) (x : ℕ) → lookup v ((source, 0) ∷ []) ≡ some x → (source ≡ v) × (0 ≡ x)
  unfolding lookup
  first_only v x h = elim (Bool-cases (source == v)) [
    | inl same ↦ ((text_eq.beq_iff source v).0 same, (let g = rw same at h in ground (arith, g)))
    | inr other ↦ absurd (let g = rw other at h in cc)
  ]

  start-Inv : Inv source adj (seen (start_search source)) (start_search source)
  unfolding first_item lookup
  start-Inv = record {
    sound = λ v x h. (let (e, z) = first_only v x h in rw (← e, ← z) here);
    queued = λ v x h unseen.
        let (e, z) = first_only v x h in
        (heap_push-Stands first_item (record { value = v; priority = x }) empty_queue).1
          (inr (rw (e, z)));
    settled_seen = λ w h. h;
    relaxed = λ w x h. absurd (let g = h in cc);
    known = λ w h. absurd (let g = h in cc);
    order = λ w x h. absurd (let g = h in cc);
    bounded = λ j st. elim ((heap_push-Stands first_item j empty_queue).0 st) [
      | inl (k, inside, e) ↦ absurd (omega arith)
      | inr e ↦ rw (← e) (rw (==_refl source))
    ];
    heap = heap_push-IsHeap first_item empty_queue (λ c p q. absurd (omega arith));
    dist_map = (refl, tt);
    origin = rw (==_refl source);
    tree = λ v u h. absurd (let g = h in cc);
    reached = λ v x h other.
        absurd
          (let (e, z) = first_only v x h in ground (arith, other, e, text_eq.beq_iff source v));
  }

  -- The fuel is enough, and at the end the queue is empty.
  rounds_end :
      IsNested adj
      → (fuel : ℕ) (s : Search) → Inv source adj (seen s) s
      → s.pq.size + left_edges s.visited adj ≤ fuel
      → (t : Search) × (rounds fuel adj s ≡ some t) × Inv source adj (seen t) t × (t.pq.size ≡ 0)
  unfolding rounds
  rounds_end nested zero s i enough = (let e : s.pq.size ≡ 0 = omega arith in (s, rw e, i, e))
  rounds_end nested (suc fuel) s i enough = elim (size-cases s.pq.size) [
    | inl e ↦ (s, simp (e, rounds), i, e)
    | inr (n, e) ↦
        let s' =
          visit adj (heap_pop n s.pq.slots).0.value (record s { pq = (heap_pop n s.pq.slots).1 }) in
        let (t, q, it, z) =
          rounds_end nested fuel s' (visit-Inv source adj nested s n i e)
            (omega (arith, visit_work source adj nested s n i e)) in
        (t, rw (e, rounds) q, it, z)
  ]

  empty-Stands : (q : PriorityQueue) (j : Item) → q.size ≡ 0 → ¬ Stands q.size q.slots j
  empty-Stands q j z (k, inside, e) = omega arith

  all_seen :
      (t : Search)
      → Inv source adj (seen t) t
      → t.pq.size ≡ 0
      → (v : Text) (x : ℕ) → lookup v t.dist ≡ some x
      → seen t v ≡ true
  all_seen t i z v x h = elim (Bool-cases (seen t v)) [
    | inl was_seen ↦ was_seen
    | inr unseen ↦ absurd (empty-Stands t.pq _ z (i.queued v x h unseen))
  ]

  pub no_shorter :
      (t : Search)
      → Inv source adj (seen t) t
      → t.pq.size ≡ 0
      → {v : Text} {w : ℕ} → Walk source adj v w
      → within w (lookup v t.dist) ≡ true
  no_shorter t i z here = rw i.origin
  no_shorter t i z (step {u} {v} {x} {cost} walk edge) =
      let ih = no_shorter t i z walk in
      elim (Option-cases (lookup u t.dist)) [
        | inl e ↦ absurd (let ih' = rw e at ih in cc)
        | inr (y, e) ↦
            let ih' = rw e at ih in
            let next = i.relaxed u y (all_seen t i z u y e) e v cost edge in
            elim (Option-cases (lookup v t.dist)) [
              | inl q ↦ absurd (let n = rw q at next in cc)
              | inr (d, q) ↦ (let n = rw q at next in rw q (ground (arith, n, ih')))
            ]
      ]

  left_edges-nil : (g : Graph) → left_edges [] g ≡ count_edges g
  unfolding lookup
  left_edges-nil [] = refl
  left_edges-nil ((u, edges) ∷ g) = ap (◌+◌ (length edges)) (left_edges-nil g)

  -- What runDijkstra ends with.
  pub run_dijkstra_ends :
      IsNested adj
      → (t : Search) × (run_dijkstra source adj ≡ some t)
        × Inv source adj (seen t) t
        × (t.pq.size ≡ 0)
  unfolding run_dijkstra
  run_dijkstra_ends nested =
      rounds_end nested (suc (count_edges adj)) (start_search source) start-Inv
        (unfold heap_push in omega (arith, left_edges-nil adj))

  -- In a graph whose maps are well formed runDijkstra ends, each distance that it returns is the sum of
  -- the costs of a walk from the source, and no walk to a node is shorter than its distance, which every
  -- node that a walk leads to has.
  pub run_dijkstra_shortest :
      IsNested adj
      → (t : Search) × (run_dijkstra source adj ≡ some t)
        × ((v : Text) (x : ℕ) → lookup v t.dist ≡ some x → Walk source adj v x)
        × ((v : Text) (w : ℕ) → Walk source adj v w → within w (lookup v t.dist) ≡ true)
  run_dijkstra_shortest nested =
      let (t, e, i, z) = run_dijkstra_ends nested in
      (t, e, i.sound, λ v w walk. no_shorter t i z walk)
